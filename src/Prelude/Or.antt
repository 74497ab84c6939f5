-- ===== src/Prelude/Or.antt =====
-- `bit_or` of a number that is shifted and one that fits under it.
use Prim.Native.Nat.{ℕ, zero, suc, ◌+◌, ◌*◌, ◌/◌, ◌%◌, ◌^◌, ◌≤◌, ◌<◌, max, bit_or, bit_or-bitwise}
use mathlib.Core.Path.{◌≡◌, ◌∙◌}
use native.Mathlib.Nat.{le_refl, pow-suc}
use native.Mathlib.Omega.{arith}
use ndlcom.Prelude.Digits.{bitwise_digit}

zero-bit_or : (b : ℕ) → bit_or 0 b ≡ b
zero-bit_or b = bit_or-bitwise 0 b

-- Its lowest digit, and the digits above.
bit_or_lowest :
    (high low : ℕ) → bit_or high low ≡ max (high % 2) (low % 2) + 2 * bit_or (high / 2) (low / 2)
bit_or_lowest zero low = omega (arith, zero-bit_or low, zero-bit_or (low / 2))
bit_or_lowest (suc high) low = omega (
  arith,
  bit_or-bitwise (suc high) low,
  bitwise_digit (λ y. y) max high low,
  bit_or-bitwise (suc high / 2) (low / 2),
)

or_zero_fuel : (n a : ℕ) → a ≤ n → bit_or a 0 ≡ a
or_zero_fuel zero zero p = zero-bit_or 0
or_zero_fuel zero (suc a) p = absurd (omega arith)
or_zero_fuel (suc n) a p = omega (arith, bit_or_lowest a 0, or_zero_fuel n (a / 2) (omega arith))

or_double : (p q b : ℕ) → q ≡ 2 * p → bit_or p (b / 2) ≡ p + b / 2 → bit_or q b ≡ q + b
or_double p q b twice halves =
    let half : q / 2 ≡ p = omega arith in
    let above : bit_or (q / 2) (b / 2) ≡ p + b / 2 = rw half halves in
    omega (arith, bit_or_lowest q b)

double_product : (a m : ℕ) → a * (2 * m) ≡ 2 * (a * m)
double_product a m = omega arith

pub bit_or-shifted : (k a b : ℕ) → b < 2 ^ k → bit_or (a * 2 ^ k) b ≡ a * 2 ^ k + b
bit_or-shifted zero a zero small = or_zero_fuel (a * 1) (a * 1) (le_refl (a * 1)) ∙ omega arith
bit_or-shifted zero a (suc b) small = absurd (omega arith)
bit_or-shifted (suc k) a b small =
    let power : 2 ^ suc k ≡ 2 * 2 ^ k = omega (arith, pow-suc 2 k) in
    or_double (a * 2 ^ k) (a * 2 ^ suc k) b (rw power (double_product a (2 ^ k)))
      (bit_or-shifted k a (b / 2) (omega arith))
