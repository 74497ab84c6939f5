-- ===== src/Crc/Table.antt =====
-- The table against the generator of test/printTable.c, which prints it from the polynomial 0x8408.
use ndlcom.Prelude.{
  ℕ, zero, suc, ◌/◌, ◌<◌, ◌≡◌, refl, true, bit_and, bit_xor, ◌==◌, ltb, ==_iff, ◌||◌, if◌then◌else◌,
  get_or, test_below, by_test, arith,
}
use ndlcom.Crc.{crc16_table}

-- The body of the inner loop, `v = v & 1 ? (v >> 1) ^ poly : v >> 1`.
unfoldable pub shift_out : ℕ → ℕ → ℕ
shift_out poly v = if bit_and v 1 == 1 then bit_xor (v / 2) poly else v / 2

-- `for (i = 8; i--; )`.
unfoldable pub shift_out_times : ℕ → ℕ → ℕ → ℕ
shift_out_times poly zero v = v
shift_out_times poly (suc i) v = shift_out_times poly i (shift_out poly v)

-- What `printTable1` prints as entry `b`.
unfoldable pub print_table_entry : ℕ → ℕ → ℕ
print_table_entry poly b = bit_and (shift_out_times poly 8 b) 0xffff

unfoldable pub entry : ℕ → ℕ
entry i = get_or crc16_table i 0

-- Every entry of the table of Crc.c is the one that the generator prints for the polynomial.
pub crc16_table-print_table_entry :
    (b : ℕ) → b < 256 → get_or crc16_table b 0 ≡ print_table_entry 0x8408 b
unfolding crc16_table print_table_entry shift_out_times shift_out test_below
crc16_table-print_table_entry b h =
    (==_iff _ _).0
      (by_test (λ b. get_or crc16_table b 0 == print_table_entry 0x8408 b) 256 b refl h)

-- The same without the final mask, which keeps all bits.
pub entry-shift_out_times : (b : ℕ) → b < 256 → entry b ≡ shift_out_times 0x8408 8 b
unfolding entry crc16_table shift_out_times shift_out test_below
entry-shift_out_times b h =
    (==_iff _ _).0 (by_test (λ b. entry b == shift_out_times 0x8408 8 b) 256 b refl h)

pub entry-lt : (b : ℕ) → b < 256 → entry b < 65536
unfolding entry crc16_table test_below
entry-lt b h =
    let fits : ltb (entry b) 65536 ≡ true = by_test (λ b. ltb (entry b) 65536) 256 b refl h in
    ground arith

-- Only entry 0 has no bit in its high byte.
pub entry_low : (b : ℕ) → b < 256 → entry b < 256 → b ≡ 0
unfolding entry crc16_table test_below
entry_low b h low =
    let fits : ((b == 0) || ltb 255 (entry b)) ≡ true =
      by_test (λ b. (b == 0) || ltb 255 (entry b)) 256 b refl h in
    ground arith

pub entry-zero : entry 0 ≡ 0
unfolding entry crc16_table
entry-zero = refl
