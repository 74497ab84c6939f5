-- ===== src/Crc/Bursts.antt =====
-- Which transmission errors the frame check sequence always finds.
use ndlcom.Prelude.{ℕ, ◌≡◌, sym, ap, ◌∙◌, bit_xor, List, [], ◌∷◌, ◌++◌, arith}
use ndlcom.Prelude.Xor.{bit_xor_self, bit_xor-lt}
use ndlcom.Crc.{IsByte, IsCrc, do_crc, do_crc_all}
use ndlcom.Crc.Linear.{do_crc-bit_xor, do_crc-IsCrc, do_crc_all-append, do_crc_all-IsCrc}
use ndlcom.Crc.Residue.{eq_of_bit_xor-zero, do_crc-eq-zero_iff, do_crc_twice-good_iff}

-- A byte can be taken back: the step is injective in the running value.
pub do_crc-injective : (c d x : ℕ) → IsCrc c → IsCrc d → do_crc c x ≡ do_crc d x → c ≡ d
do_crc-injective c d x hc hd e =
    eq_of_bit_xor-zero c d
      ((do_crc-eq-zero_iff (bit_xor c d) 0 (bit_xor-lt 16 c d hc hd) (omega arith)).0 zero_step)
  where
    zero_step : do_crc (bit_xor c d) 0 ≡ 0
    zero_step =
        ap (do_crc (bit_xor c d)) (sym (bit_xor_self x))
        ∙ do_crc-bit_xor c d x x
        ∙ ap (bit_xor (do_crc c x)) (sym e)
        ∙ bit_xor_self (do_crc c x)

do_crc_all-injective :
    (c d : ℕ) (xs : List ℕ) → IsCrc c → IsCrc d → do_crc_all c xs ≡ do_crc_all d xs → c ≡ d
unfolding do_crc_all
do_crc_all-injective c d [] hc hd e = e
do_crc_all-injective c d (x ∷ xs) hc hd e = do_crc-injective c d x hc hd (
    do_crc_all-injective (do_crc c x) (do_crc d x) xs (do_crc-IsCrc c x hc) (do_crc-IsCrc d x hd) e)

two_bytes :
    (c a b a' b' : ℕ)
    → IsByte a
    → IsByte b
    → IsByte a'
    → IsByte b'
    → do_crc (do_crc c a) b ≡ do_crc (do_crc c a') b'
    → (a ≡ a') × (b ≡ b')
two_bytes c a b a' b' ha hb ha' hb' e =
    (eq_of_bit_xor-zero a a' differences.0, eq_of_bit_xor-zero b b' differences.1)
  where
    vanishes : do_crc (do_crc 0 (bit_xor a a')) (bit_xor b b') ≡ 0
    vanishes =
        ap (λ t. do_crc (do_crc t (bit_xor a a')) (bit_xor b b')) (sym (bit_xor_self c))
        ∙ ap (λ t. do_crc t (bit_xor b b')) (do_crc-bit_xor c c a a')
        ∙ do_crc-bit_xor (do_crc c a) (do_crc c a') b b'
        ∙ ap (bit_xor (do_crc (do_crc c a) b)) (sym e)
        ∙ bit_xor_self (do_crc (do_crc c a) b)

    differences : (bit_xor a a' ≡ 0) × (bit_xor b b' ≡ 0)
    differences =
        (do_crc_twice-good_iff 0 (bit_xor a a') (bit_xor b b') (omega arith)
            (bit_xor-lt 8 a a' ha ha') (bit_xor-lt 8 b b' hb hb')).0
          vanishes

-- Two messages that differ only within two neighbouring bytes have different check sequences: if the
-- sequences agree, so do the bytes.
pub do_crc_all_burst :
    (c : ℕ) (before after : List ℕ) (a b a' b' : ℕ)
    → IsCrc c
    → IsByte a
    → IsByte b
    → IsByte a'
    → IsByte b'
    → do_crc_all c (before ++ a ∷ b ∷ after) ≡ do_crc_all c (before ++ a' ∷ b' ∷ after)
    → (a ≡ a') × (b ≡ b')
unfolding do_crc_all
do_crc_all_burst c before after a b a' b' hc ha hb ha' hb' e = two_bytes s a b a' b' ha hb ha' hb' (
    do_crc_all-injective (do_crc (do_crc s a) b) (do_crc (do_crc s a') b') after
      (do_crc-IsCrc _ b (do_crc-IsCrc s a hs)) (do_crc-IsCrc _ b' (do_crc-IsCrc s a' hs)) joined)
  where
    s : ℕ
    s = do_crc_all c before

    hs : IsCrc s
    hs = do_crc_all-IsCrc c before hc

    joined : do_crc_all (do_crc (do_crc s a) b) after ≡ do_crc_all (do_crc (do_crc s a') b') after
    joined =
        sym (do_crc_all-append c before (a ∷ b ∷ after))
        ∙ e
        ∙ do_crc_all-append c before (a' ∷ b' ∷ after)
