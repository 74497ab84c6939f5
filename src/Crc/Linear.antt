-- ===== src/Crc/Linear.antt =====
-- The step of Crc.c is linear over `bit_xor`, in the running value and the byte together.
use ndlcom.Prelude.{
  ℕ, zero, suc, ◌/◌, ◌%◌, ◌<◌, ◌≡◌, refl, sym, ap, ap₂, ◌∙◌, ◌⊎◌, List, [], ◌∷◌, ◌++◌, bit_xor,
  arith,
}
use ndlcom.Prelude.Mask.{bit_and-one, bit_and_byte}
use ndlcom.Prelude.Xor.{
  bit_xor_assoc, bit_xor_swap, bit_xor_comm, bit_xor_self, bit_xor-zero, bit_xor-lt, bit_xor-mod,
  bit_xor-div, xor_half, xor_odd,
}
use ndlcom.Crc.{IsCrc, do_crc, do_crc_all}
use ndlcom.Crc.Table.{shift_out, shift_out_times, entry, entry-shift_out_times, entry-lt}

-- The step in plain arithmetic.
pub do_crc_lem : (c x : ℕ) → do_crc c x ≡ bit_xor (c / 256) (entry (bit_xor c x % 256))
unfolding do_crc entry
do_crc_lem c x = rw (bit_and_byte (bit_xor c x))

shift_out_cases :
    (poly v : ℕ)
    → ((v % 2 ≡ 0) × (shift_out poly v ≡ v / 2))
      ⊎ ((v % 2 ≡ 1) × (shift_out poly v ≡ bit_xor (v / 2) poly))
unfolding shift_out
shift_out_cases poly v = ground (arith, bit_and-one v)

bit_xor_pairs :
    (a b c d : ℕ) → bit_xor (bit_xor a b) (bit_xor c d) ≡ bit_xor (bit_xor a c) (bit_xor b d)
bit_xor_pairs a b c d =
    bit_xor_assoc a b (bit_xor c d)
    ∙ ap (bit_xor a)
        (sym (bit_xor_assoc b c d) ∙ ap (λ t. bit_xor t d) (bit_xor_comm b c) ∙ bit_xor_assoc c b d)
    ∙ sym (bit_xor_assoc a c (bit_xor b d))

shift_out-bit_xor :
    (poly a b : ℕ) → shift_out poly (bit_xor a b) ≡ bit_xor (shift_out poly a) (shift_out poly b)
shift_out-bit_xor poly a b = ground (
  arith,
  shift_out_cases poly a,
  shift_out_cases poly b,
  shift_out_cases poly (bit_xor a b),
  xor_half a b,
  xor_odd a b,
  bit_xor_swap (a / 2) (b / 2) poly,
  bit_xor_assoc (a / 2) (b / 2) poly,
  bit_xor_pairs (a / 2) poly (b / 2) poly,
  bit_xor_self poly,
  bit_xor-zero (bit_xor (a / 2) (b / 2)),
)

shift_out_times-bit_xor :
    (poly n a b : ℕ)
    → shift_out_times poly n (bit_xor a b)
      ≡ bit_xor (shift_out_times poly n a) (shift_out_times poly n b)
unfolding shift_out_times
shift_out_times-bit_xor poly zero a b = refl
shift_out_times-bit_xor poly (suc n) a b =
    ap (shift_out_times poly n) (shift_out-bit_xor poly a b)
    ∙ shift_out_times-bit_xor poly n (shift_out poly a) (shift_out poly b)

pub entry-bit_xor :
    (a b : ℕ) → a < 256 → b < 256 → entry (bit_xor a b) ≡ bit_xor (entry a) (entry b)
entry-bit_xor a b p q =
    entry-shift_out_times (bit_xor a b) (bit_xor-lt 8 a b p q)
    ∙ shift_out_times-bit_xor 0x8408 8 a b
    ∙ ap₂ bit_xor (sym (entry-shift_out_times a p)) (sym (entry-shift_out_times b q))

-- The frame check sequence of a bitwise sum is the bitwise sum of the two sequences.
pub do_crc-bit_xor :
    (c d x y : ℕ) → do_crc (bit_xor c d) (bit_xor x y) ≡ bit_xor (do_crc c x) (do_crc d y)
do_crc-bit_xor c d x y =
    do_crc_lem (bit_xor c d) (bit_xor x y)
    ∙ ap₂ bit_xor (bit_xor-div c d) index
    ∙ bit_xor_pairs (c / 256) (d / 256) (entry (bit_xor c x % 256)) (entry (bit_xor d y % 256))
    ∙ sym (ap₂ bit_xor (do_crc_lem c x) (do_crc_lem d y))
  where
    index :
        entry (bit_xor (bit_xor c d) (bit_xor x y) % 256)
        ≡ bit_xor (entry (bit_xor c x % 256)) (entry (bit_xor d y % 256))
    index =
        ap (λ t. entry (t % 256)) (bit_xor_pairs c d x y)
        ∙ ap entry (bit_xor-mod (bit_xor c x) (bit_xor d y))
        ∙ entry-bit_xor (bit_xor c x % 256) (bit_xor d y % 256) (omega arith) (omega arith)

pub do_crc-IsCrc : (c x : ℕ) → IsCrc c → IsCrc (do_crc c x)
do_crc-IsCrc c x h = rw (do_crc_lem c x) (
    bit_xor-lt 16 (c / 256) (entry (bit_xor c x % 256)) (omega arith)
      (entry-lt (bit_xor c x % 256) (omega arith)))

pub do_crc_all-IsCrc : (c : ℕ) (xs : List ℕ) → IsCrc c → IsCrc (do_crc_all c xs)
unfolding do_crc_all
do_crc_all-IsCrc c [] h = h
do_crc_all-IsCrc c (x ∷ xs) h = do_crc_all-IsCrc (do_crc c x) xs (do_crc-IsCrc c x h)

pub do_crc_all-append :
    (c : ℕ) (xs ys : List ℕ) → do_crc_all c (xs ++ ys) ≡ do_crc_all (do_crc_all c xs) ys
unfolding do_crc_all
do_crc_all-append c [] ys = refl
do_crc_all-append c (x ∷ xs) ys = do_crc_all-append (do_crc c x) xs ys
