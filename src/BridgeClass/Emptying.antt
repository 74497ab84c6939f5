-- ===== src/BridgeClass/Emptying.antt =====
-- The loops of the destructors.
use ndlcom.Prelude.{
  ℕ, zero, suc, ◌<◌, ◌≤◌, ◌≡◌, ◌⊎◌, refl, ap, ◌∙◌, inl, inr, Bool, true, not, ◌==◌, ==_refl, List,
  [], ◌∷◌, arith, some, Option, length,
}
use ndlcom.Prelude.Counts.{has, without, keep}
use ndlcom.BridgeClass.{destroy_all}

pub List-cases : (xs : List ℕ) → (xs ≡ []) ⊎ ((a : ℕ) × (rest : List ℕ) × (xs ≡ a ∷ rest))
List-cases [] = inl refl
List-cases (a ∷ rest) = inr (a, rest, refl)

length-keep_le : (p : ℕ → Bool) (xs : List ℕ) → length (keep p xs) ≤ length xs
unfolding keep
length-keep_le p [] = omega arith
length-keep_le p (x ∷ xs) = ground (arith, length-keep_le p xs)

length-without_lt : (a : ℕ) (rest : List ℕ) → length (without a (a ∷ rest)) < suc (length rest)
unfolding without keep
length-without_lt a rest = rw (==_refl a) (omega (arith, length-keep_le (λ x. not (x == a)) rest))

has_front : (a : ℕ) (rest : List ℕ) → has a (a ∷ rest) ≡ true
unfolding has
has_front a rest = rw (==_refl a) refl

-- If destroying one object takes it out of the vector and keeps a property, the loop ends with an
-- empty vector and keeps the property.
pub destroy_all-without :
    {C : Type 0} (owned : C → List ℕ) (destroy : C → ℕ → Option C) (Holds : C → Type 0)
    → ((c : C) (a : ℕ)
        → has a (owned c) ≡ true
        → Holds c
        → (d : C) × (destroy c a ≡ some d) × Holds d × (owned d ≡ without a (owned c)))
    → (rounds : ℕ) (c : C) → length (owned c) < rounds
    → Holds c
    → (d : C) × (destroy_all owned destroy rounds c ≡ some d) × Holds d × (owned d ≡ [])
unfolding destroy_all
destroy_all-without owned destroy Holds step zero c enough holds = absurd (omega arith)
destroy_all-without owned destroy Holds step (suc rounds) c enough holds =
    elim (List-cases (owned c)) [
      | inl empty ↦ (c, rw (destroy_all, empty) refl, holds, empty)
      | inr (a, rest, e) ↦
          let (d, ran, still, shorter) = step c a (rw e (has_front a rest)) holds in
          let fewer : length (owned d) < rounds =
            let len : length (owned d) ≡ length (without a (a ∷ rest)) =
              ap length shorter ∙ ap (λ xs. length (without a xs)) e in
            let full : length (owned c) ≡ suc (length rest) = ap length e in
            omega (arith, len, full, enough, length-without_lt a rest) in
          let (f, done, last, nothing) =
            destroy_all-without owned destroy Holds step rounds d fewer still in
          (f, rw (destroy_all, e, ran) done, last, nothing)
    ]
