-- ===== src/Prelude/Mask.antt =====
-- `bit_and` with the mask of the low byte, and with the lowest bit.
use Prim.Native.Nat.{ℕ, zero, suc, ◌+◌, ◌*◌, ◌/◌, ◌%◌, ◌≤◌, min, bit_and, bit_and-bitwise}
use mathlib.Core.Path.{◌≡◌, refl}
use native.Mathlib.Omega.{arith}
use ndlcom.Prelude.Digits.{bitwise_digit}

masked_digit : (x m : ℕ) → bit_and x m ≡ bit_and (x / 2) (m / 2) * 2 + min (x % 2) (m % 2)
masked_digit zero m = omega (arith, bit_and-bitwise 0 m, bit_and-bitwise 0 (m / 2))
masked_digit (suc x) m = omega (
  arith,
  bit_and-bitwise (suc x) m,
  bitwise_digit (λ y. zero) min x m,
  bit_and-bitwise (suc x / 2) (m / 2),
)

no_mask : (bound x : ℕ) → x ≤ bound → bit_and x 0 ≡ 0
no_mask bound zero below = refl
no_mask zero (suc x) below = absurd (omega arith)
no_mask (suc bound) (suc x) below =
    omega (arith, masked_digit (suc x) 0, no_mask bound (suc x / 2) (omega arith))

pub bit_and-one : (x : ℕ) → bit_and x 1 ≡ x % 2
bit_and-one x = omega (arith, masked_digit x 1, no_mask x (x / 2) (omega arith))

low_nibble : (x : ℕ) → bit_and x 0xf ≡ x % 16
low_nibble x = omega (
  arith,
  masked_digit x 15,
  masked_digit (x / 2) 7,
  masked_digit (x / 2 / 2) 3,
  bit_and-one (x / 2 / 2 / 2),
)

pub bit_and_byte : (x : ℕ) → bit_and x 0xff ≡ x % 256
bit_and_byte x = omega (
  arith,
  masked_digit x 255,
  masked_digit (x / 2) 127,
  masked_digit (x / 2 / 2) 63,
  masked_digit (x / 2 / 2 / 2) 31,
  low_nibble (x / 2 / 2 / 2 / 2),
)
