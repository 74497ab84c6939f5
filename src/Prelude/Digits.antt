-- ===== src/Prelude/Digits.antt =====
-- The recursion on binary digits behind the native bit operations, without its fuel.
use Prim.Native.Nat.{ℕ, zero, suc, ◌+◌, ◌-◌, ◌*◌, ◌/◌, ◌%◌, ◌≤◌, digits, bitwise}
use mathlib.Core.Path.{◌≡◌, refl, ◌∙◌}
use native.Mathlib.Omega.{arith}

module _ (short : ℕ → ℕ) (join : ℕ → ℕ → ℕ) where
  -- One more unit of fuel than the first operand changes nothing.
  one_more :
      (fuel x y : ℕ) → x ≤ fuel → digits short join (suc fuel) x y ≡ digits short join fuel x y
  one_more zero (suc x) y fits = absurd (omega arith)
  one_more zero zero y fits = refl
  one_more (suc fuel) (suc x) y fits = rw (one_more fuel (suc x / 2) (y / 2) (omega arith))
  one_more (suc fuel) zero y fits = refl

  plenty :
      (extra fuel x y : ℕ) → fuel ≡ extra + x → digits short join fuel x y ≡ digits short join x x y
  plenty zero fuel x y e = let same : fuel ≡ x = omega arith in rw same
  plenty (suc extra) zero x y e = absurd (omega arith)
  plenty (suc extra) (suc fuel) x y e =
      one_more fuel x y (omega arith) ∙ plenty extra fuel x y (omega arith)

  -- The lowest digit of the result, and the operation on the digits above.
  pub bitwise_digit :
      (x y : ℕ)
      → bitwise short join (suc x) y
        ≡ bitwise short join (suc x / 2) (y / 2) * 2 + join (suc x % 2) (y % 2)
  bitwise_digit x y = rw (plenty (x - suc x / 2) x (suc x / 2) (y / 2) (omega arith))
