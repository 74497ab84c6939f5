-- ===== src/Crc/Residue.antt =====
-- Why a frame is good when the running value over it and its two trailing bytes is 0.
use ndlcom.Prelude.{ℕ, ◌/◌, ◌%◌, ◌<◌, ◌≡◌, sym, ap, ◌∙◌, ◌↔◌, bit_xor, List, [], ◌∷◌, ◌++◌, arith}
use ndlcom.Prelude.Xor.{
  bit_xor-zero, bit_xor_self, bit_xor_comm, bit_xor_injective, bit_xor_cancel, bit_xor-lt,
  bit_xor-mod,
}
use ndlcom.Crc.{IsByte, IsCrc, do_crc, do_crc_all, crc_real_good_value}
use ndlcom.Crc.Table.{entry, entry_low, entry-zero}
use ndlcom.Crc.Linear.{do_crc_lem, do_crc-IsCrc, do_crc_all-append, do_crc_all-IsCrc}

pub eq_of_bit_xor-zero : (a b : ℕ) → bit_xor a b ≡ 0 → a ≡ b
eq_of_bit_xor-zero a b e = bit_xor_injective b a b (bit_xor_comm b a ∙ e ∙ sym (bit_xor_self b))

-- The low byte of the running value, fed back, shifts the high byte down.
do_crc_own_byte : (c x : ℕ) → IsByte x → x ≡ c % 256 → do_crc c x ≡ c / 256
do_crc_own_byte c x hx e =
    do_crc_lem c x
    ∙ ap (λ t. bit_xor (c / 256) (entry t)) index
    ∙ ap (bit_xor (c / 256)) entry-zero
    ∙ bit_xor-zero (c / 256)
  where
    index : bit_xor c x % 256 ≡ 0
    index = bit_xor-mod c x ∙ ap (λ t. bit_xor (c % 256) t) (omega arith) ∙ bit_xor_self (c % 256)

-- No other byte leaves a value below 256.
do_crc_low : (c x : ℕ) → IsCrc c → IsByte x → do_crc c x < 256 → x ≡ c % 256
do_crc_low c x hc hx low = sym (eq_of_bit_xor-zero (c % 256) x same)
  where
    index : ℕ
    index = bit_xor c x % 256

    undone : entry index ≡ bit_xor (c / 256) (do_crc c x)
    undone =
        sym (bit_xor_cancel (c / 256) (entry index)) ∙ ap (bit_xor (c / 256)) (sym (do_crc_lem c x))

    none_left : index ≡ 0
    none_left =
        entry_low index (omega arith)
          (rw undone (bit_xor-lt 8 (c / 256) (do_crc c x) (omega arith) low))

    same : bit_xor (c % 256) x ≡ 0
    same = ap (bit_xor (c % 256)) (omega arith) ∙ sym (bit_xor-mod c x) ∙ none_left

-- A step gives 0 exactly when the running value is the byte.
pub do_crc-eq-zero_iff : (c x : ℕ) → IsCrc c → IsByte x → (do_crc c x ≡ 0) ↔ (c ≡ x)
do_crc-eq-zero_iff c x hc hx = (there, back)
  where
    there : do_crc c x ≡ 0 → c ≡ x
    there e =
        let low : x ≡ c % 256 = do_crc_low c x hc hx (omega arith) in
        omega (arith, do_crc_own_byte c x hx low)

    back : c ≡ x → do_crc c x ≡ 0
    back e = omega (arith, do_crc_own_byte c x hx (omega arith))

-- After two more bytes the running value is the good value exactly when these bytes are the value
-- before them, low byte first.
pub do_crc_twice-good_iff :
    (c x y : ℕ)
    → IsCrc c
    → IsByte x
    → IsByte y
    → (do_crc (do_crc c x) y ≡ crc_real_good_value) ↔ ((x ≡ c % 256) × (y ≡ c / 256))
do_crc_twice-good_iff c x y hc hx hy = (there, back)
  where
    next : IsCrc (do_crc c x)
    next = do_crc-IsCrc c x hc

    there : do_crc (do_crc c x) y ≡ 0 → (x ≡ c % 256) × (y ≡ c / 256)
    there e =
        let high : do_crc c x ≡ y = (do_crc-eq-zero_iff (do_crc c x) y next hy).0 e in
        let low : x ≡ c % 256 = do_crc_low c x hc hx (omega arith) in
        (low, sym high ∙ do_crc_own_byte c x hx low)

    back : (x ≡ c % 256) × (y ≡ c / 256) → do_crc (do_crc c x) y ≡ 0
    back e = (do_crc-eq-zero_iff (do_crc c x) y next hy).1 (do_crc_own_byte c x hx e.0 ∙ sym e.1)

-- The same behind any message: the test of the parser compares the two trailing bytes with the
-- value over the bytes before them, low byte first.
pub do_crc_all-good_iff :
    (c : ℕ) (xs : List ℕ) (x y : ℕ)
    → IsCrc c
    → IsByte x
    → IsByte y
    → (do_crc_all c (xs ++ x ∷ y ∷ []) ≡ crc_real_good_value)
      ↔ ((x ≡ do_crc_all c xs % 256) × (y ≡ do_crc_all c xs / 256))
unfolding do_crc_all
do_crc_all-good_iff c xs x y hc hx hy =
    rw (do_crc_all-append c xs (x ∷ y ∷ []))
      (do_crc_twice-good_iff (do_crc_all c xs) x y (do_crc_all-IsCrc c xs hc) hx hy)
