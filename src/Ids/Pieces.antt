-- ===== src/Ids/Pieces.antt =====
-- Splitting a text, against putting its pieces together.
use ndlcom.Prelude.{
  ℕ, zero, suc, ◌<◌, ◌≤◌, ◌≡◌, refl, sym, ◌∙◌, false, List, [], ◌∷◌, ◌++◌, append-nil, append_assoc,
  ◌==◌, ==_refl, length, length-append, All, inl, inr, Bool-cases, arith,
}
use ndlcom.Prelude.Counts.{has}
use ndlcom.Ids.{up_to, getline, split_loop, split_string_into_strings}

-- The pieces with the delimiter between them.
unfoldable pub join : ℕ → List (List ℕ) → List ℕ
join delim [] = []
join delim (p ∷ []) = p
join delim (p ∷ q ∷ rest) = p ++ delim ∷ join delim (q ∷ rest)

-- A piece has a character, and the delimiter is not in it.
abbrev pub IsPiece : ℕ → List ℕ → Type 0
IsPiece delim p = (0 < length p) × (has delim p ≡ false)

up_to_last : (delim : ℕ) (p : List ℕ) → has delim p ≡ false → up_to delim p ≡ (p, [])
unfolding up_to has
up_to_last delim [] absent = refl
up_to_last delim (c ∷ p) absent = elim (Bool-cases (c == delim)) [
  | inl same ↦ absurd (ground (arith, absent, same))
  | inr differs ↦
      let rest : up_to delim p ≡ (p, []) = up_to_last delim p (simp differs at absent) in
      simp (differs, rest) refl
]

up_to-append :
    (delim : ℕ) (p rest : List ℕ)
    → has delim p ≡ false
    → up_to delim (p ++ delim ∷ rest) ≡ (p, rest)
unfolding up_to has
up_to-append delim [] rest absent = rw (==_refl delim) refl
up_to-append delim (c ∷ p) rest absent = elim (Bool-cases (c == delim)) [
  | inl same ↦ absurd (ground (arith, absent, same))
  | inr differs ↦
      let front : up_to delim (p ++ delim ∷ rest) ≡ (p, rest) =
        up_to-append delim p rest (simp differs at absent) in
      simp (differs, front) refl
]

loop-join :
    (rounds delim : ℕ) (ps elems : List (List ℕ))
    → All (IsPiece delim) ps
    → length (join delim ps) < rounds
    → split_loop rounds delim (join delim ps) elems ≡ elems ++ ps
unfolding split_loop getline join
loop-join zero delim ps elems ok enough = absurd (omega arith)
loop-join (suc rounds) delim [] elems ok enough = sym (append-nil elems)
loop-join (suc rounds) delim ([] ∷ []) elems ok enough = absurd (omega (arith, ok.0.0))
loop-join (suc rounds) delim ((c ∷ p) ∷ []) elems ok enough =
    let last : up_to delim (c ∷ p) ≡ (c ∷ p, []) = up_to_last delim (c ∷ p) ok.0.1 in
    rw last (loop-join rounds delim [] (elems ++ (c ∷ p) ∷ []) tt (omega arith) ∙ append-nil _)
loop-join (suc rounds) delim ([] ∷ q ∷ rest) elems ok enough = absurd (omega (arith, ok.0.0))
loop-join (suc rounds) delim ((c ∷ p) ∷ q ∷ rest) elems ok enough =
    let front : up_to delim (c ∷ (p ++ delim ∷ join delim (q ∷ rest)))
        ≡ (c ∷ p, join delim (q ∷ rest)) =
      up_to-append delim (c ∷ p) (join delim (q ∷ rest)) ok.0.1 in
    rw front (
      loop-join rounds delim (q ∷ rest) (elems ++ (c ∷ p) ∷ []) ok.1
        (omega (arith, length-append p (delim ∷ join delim (q ∷ rest))))
      ∙ append_assoc elems ((c ∷ p) ∷ []) (q ∷ rest))

pub split_string_into_strings-join :
    (delim : ℕ) (ps : List (List ℕ))
    → All (IsPiece delim) ps
    → split_string_into_strings (join delim ps) delim ≡ ps
unfolding split_string_into_strings
split_string_into_strings-join delim ps ok =
    loop-join (suc (length (join delim ps))) delim ps [] ok (omega arith)

up_to-length : (delim : ℕ) (xs : List ℕ) → length (up_to delim xs).1 ≤ length xs
unfolding up_to
up_to-length delim [] = omega arith
up_to-length delim (c ∷ rest) = elim (Bool-cases (c == delim)) [
  | inl here ↦ rw here (omega arith)
  | inr on ↦ rw on (omega (arith, up_to-length delim rest))
]

up_to-length-cons : (delim c : ℕ) (rest : List ℕ) → length (up_to delim (c ∷ rest)).1 ≤ length rest
unfolding up_to
up_to-length-cons delim c rest = elim (Bool-cases (c == delim)) [
  | inl here ↦ rw here (omega arith)
  | inr on ↦ rw on (up_to-length delim rest)
]

-- For any text, more rounds than it has characters give the same pieces, however many they are.
pub split_loop_enough :
    (rounds others delim : ℕ) (stream : List ℕ) (elems : List (List ℕ))
    → length stream < rounds
    → length stream < others
    → split_loop rounds delim stream elems ≡ split_loop others delim stream elems
unfolding split_loop getline
split_loop_enough zero others delim stream elems enough also = absurd (omega arith)
split_loop_enough (suc rounds) zero delim stream elems enough also = absurd (omega arith)
split_loop_enough (suc rounds) (suc others) delim [] elems enough also = refl
split_loop_enough (suc rounds) (suc others) delim (c ∷ rest) elems enough also =
    let fewer = up_to-length-cons delim c rest in
    split_loop_enough rounds others delim _ _ (omega arith) (omega arith)
