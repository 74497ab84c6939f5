-- ===== src/Prelude/Counts.antt =====
-- Lists of addresses: how often one occurs.
use ndlcom.Prelude.Tests.{if◌then◌else◌, ◌==◌, ==_iff, ==_refl, Bool-cases}
use mathlib.Core.Logic.{inl, inr}
use Prim.Native.Nat.{ℕ, ◌+◌, ◌≤◌}
use mathlib.Core.Path.{◌≡◌, refl, ap}
use mathlib.Core.Bool.{Bool, true, false, not, ◌||◌, ◌&&◌}
use mathlib.Core.List.{List, [], ◌∷◌, ◌++◌}
use native.Mathlib.Omega.{arith}

unfoldable pub has : ℕ → List ℕ → Bool
has a [] = false
has a (x ∷ xs) = (x == a) || has a xs

unfoldable pub occurrences : ℕ → List ℕ → ℕ
occurrences a [] = 0
occurrences a (x ∷ xs) = (if x == a then 1 else 0) + occurrences a xs

unfoldable pub keep : (ℕ → Bool) → List ℕ → List ℕ
keep p [] = []
keep p (x ∷ xs) = if p x then x ∷ keep p xs else keep p xs

unfoldable pub without : ℕ → List ℕ → List ℕ
without a xs = keep (λ x. not (x == a)) xs

pub occurrences-append :
    (a : ℕ) (xs ys : List ℕ) → occurrences a (xs ++ ys) ≡ occurrences a xs + occurrences a ys
unfolding occurrences
occurrences-append a [] ys = omega arith
occurrences-append a (x ∷ xs) ys = omega (arith, occurrences-append a xs ys)

pub occurrences-keep :
    (a : ℕ) (p : ℕ → Bool) (xs : List ℕ)
    → occurrences a (keep p xs) ≡ (if p a then occurrences a xs else 0)
unfolding occurrences keep
occurrences-keep a p [] = ground arith
occurrences-keep a p (x ∷ xs) = grind (arith, occurrences-keep a p xs)

pub has-occurrences :
    (a : ℕ) (xs : List ℕ) → has a xs ≡ (if occurrences a xs == 0 then false else true)
unfolding has occurrences
has-occurrences a [] = refl
has-occurrences a (x ∷ xs) = ground (arith, has-occurrences a xs)

pub has-without : (a b : ℕ) (xs : List ℕ) → has a (without b xs) ≡ not (a == b) && has a xs
unfolding without
has-without a b xs = ground (
  arith,
  has-occurrences a (keep (λ x. not (x == b)) xs),
  has-occurrences a xs,
  occurrences-keep a (λ x. not (x == b)) xs,
)

pub occurrences-without :
    (a b : ℕ) (xs : List ℕ)
    → occurrences a (without b xs) ≡ (if a == b then 0 else occurrences a xs)
unfolding without
occurrences-without a b xs = ground (arith, occurrences-keep a (λ x. not (x == b)) xs)

pub occurrences-cons_le :
    (a b : ℕ) (xs : List ℕ) → has a xs ≡ false → occurrences b xs ≤ 1 → occurrences b (a ∷ xs) ≤ 1
unfolding occurrences
occurrences-cons_le a b xs absent once = elim (Bool-cases (a == b)) [
  | inl same ↦
      let fresh : has b xs ≡ false = rw (← (==_iff a b).0 same) absent in
      ground (arith, has-occurrences b xs)
  | inr differs ↦ ground arith
]

-- What is not there and was put in front comes out again.
pub without-cons : (a : ℕ) (xs : List ℕ) → has a xs ≡ false → without a (a ∷ xs) ≡ xs
unfolding without keep has
without-cons a xs absent = rw (==_refl a) (unchanged xs absent)
  where
    unchanged : (ys : List ℕ) → has a ys ≡ false → keep (λ x. not (x == a)) ys ≡ ys
    unchanged [] absent = refl
    unchanged (y ∷ ys) absent = elim (Bool-cases (y == a)) [
      | inl same ↦ absurd (ground (arith, absent, same))
      | inr differs ↦ simp differs (ap (◌∷◌ y) (unchanged ys (simp differs at absent)))
    ]
