-- ===== src/Ids/Decimals.antt =====
-- Reading the ids that are written in decimal.
use ndlcom.Prelude.{
  ℕ, ◌+◌, ◌/◌, ◌%◌, ◌^◌, ◌<◌, ◌≡◌, refl, sym, ap, ap₂, ◌∙◌, Bool, true, false, not, Option, some,
  none, List, [], ◌∷◌, ◌++◌, map, append-nil, append_assoc, ◌==◌, ltb, if◌then◌else◌, All, inl, inr,
  Bool-cases, by_test, test_below, arith,
}
use ndlcom.Prelude.Counts.{has, keep, without}
use ndlcom.Prelude.Integers.{ℤ, pos, negsuc}
use ndlcom.Wire.{addr_broadcast}
use ndlcom.Ids.{
  Line, ignores_broadcast, stoi, after_spaces, number_of, skip_spaces, digits_value, convert_number,
  convert_loop,
}
use ndlcom.Ids.Pieces.{IsPiece}

-- A number of at most three digits, as `std::to_string` writes it.
unfoldable pub decimal : ℕ → List ℕ
decimal n =
    if ltb n 10
    then (48 + n) ∷ []
    else if ltb n 100
    then (48 + n / 10) ∷ (48 + n % 10) ∷ []
    else (48 + n / 100) ∷ (48 + n / 10 % 10) ∷ (48 + n % 10) ∷ []

abbrev is_some_of : ℕ → Option ℤ → Bool
is_some_of n (some (pos m)) = m == n
is_some_of n _ = false

is_some_of-eq : (n : ℕ) (o : Option ℤ) → is_some_of n o ≡ true → o ≡ some (pos n)
is_some_of-eq n none e = absurd (ground (arith, e))
is_some_of-eq n (some (pos m)) e = ap (λ k. some (pos k)) (ground (arith, e))
is_some_of-eq n (some (negsuc m)) e = absurd (ground (arith, e))

pub stoi-decimal : (n : ℕ) → n < 256 → stoi (decimal n) ≡ some (pos n)
unfolding stoi after_spaces number_of skip_spaces digits_value decimal test_below
stoi-decimal n byte =
    is_some_of-eq n (stoi (decimal n))
      (by_test (λ k. is_some_of k (stoi (decimal k))) 256 n refl byte)

pub decimal-IsPiece : (n : ℕ) → n < 256 → IsPiece 44 (decimal n)
unfolding decimal has test_below
decimal-IsPiece n byte =
    (ground arith, ground (arith, by_test (λ k. not (has 44 (decimal k))) 256 n refl byte))

-- A line for each broadcast id.
abbrev pub ignored : List ℕ → List Line
ignored [] = []
ignored (id ∷ rest) =
    if id == addr_broadcast then ignores_broadcast ∷ ignored rest else ignored rest

convert_number-broadcast :
    (it : List ℕ) (id : ℕ) (retval : List ℕ) (out : List Line)
    → (id == addr_broadcast) ≡ true
    → convert_number it (pos id) retval out ≡ (retval, out ++ ignores_broadcast ∷ [])
unfolding convert_number
convert_number-broadcast it id retval out same = rw same refl

convert_number-byte :
    (it : List ℕ) (id : ℕ) (retval : List ℕ) (out : List Line)
    → id < 256
    → (id == addr_broadcast) ≡ false
    → convert_number it (pos id) retval out ≡ (retval ++ id ∷ [], out)
unfolding convert_number
convert_number-byte it id retval out byte differs =
    let small : ltb 255 id ≡ false = ground arith in
    let same : id % 2 ^ 8 ≡ id = omega arith in
    rw (differs, small) (ap₂ (λ x y. (retval ++ x ∷ [], y)) same (append-nil out))

pub convert_loop-decimal :
    (ids retval : List ℕ) (out : List Line)
    → All (λ id. id < 256) ids
    → convert_loop (map decimal ids) retval out
      ≡ (some (retval ++ without addr_broadcast ids), out ++ ignored ids)
unfolding convert_loop convert_number without keep
convert_loop-decimal [] retval out bytes =
    ap₂ (λ x y. (some x, y)) (sym (append-nil retval)) (sym (append-nil out))
convert_loop-decimal (id ∷ rest) retval out bytes = elim (Bool-cases (id == addr_broadcast)) [
  | inl same ↦
      let now = convert_number-broadcast (decimal id) id retval out same in
      simp same (
        rw (convert_loop, stoi-decimal id bytes.0, now)
          (convert_loop-decimal rest retval (out ++ ignores_broadcast ∷ []) bytes.1
            ∙ ap (λ x. (some (retval ++ without addr_broadcast rest), x))
                (append_assoc out (ignores_broadcast ∷ []) (ignored rest))))
  | inr differs ↦
      let now = convert_number-byte (decimal id) id retval out bytes.0 differs in
      simp differs (
        rw (convert_loop, stoi-decimal id bytes.0, now)
          (convert_loop-decimal rest (retval ++ id ∷ []) out bytes.1
            ∙ ap (λ x. (some x, out ++ ignored rest))
                (append_assoc retval (id ∷ []) (without addr_broadcast rest))))
]
