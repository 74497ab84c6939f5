-- ===== src/Parser/Detection.antt =====
-- Which damaged packets the parser refuses.
use ndlcom.Prelude.{
  ℕ, ◌+◌, ◌/◌, ◌%◌, ◌^◌, ◌<◌, ◌≡◌, refl, sym, ap, ◌∙◌, ◌≢◌, false, List, [], ◌∷◌, ◌++◌, length,
  length-append, All, All-back, arith,
}
use mathlib.Core.Path.{subst}
use ndlcom.Crc.{IsByte, do_crc_all, crc_initial_value, crc_real_good_value}
use ndlcom.Crc.Residue.{do_crc_all-good_iff}
use ndlcom.Crc.Bursts.{do_crc_all_burst}
use ndlcom.Wire.{Header, IsHeader, header_bytes, start_stop_flag, little_endian, big_endian}
use ndlcom.Encoder.{crc_bytes}
use ndlcom.Encoder.Frame.{escape_all, frame_body, frame, checksum}
use ndlcom.Parser.{
  Parser, mc_complete, destroy_packet, fail_crc, receive_byte, receive_from, receive, has_packet,
}
use ndlcom.Parser.Invariant.{IsShaped, Holds, Represents}
use ndlcom.Parser.Frames.{Outcome, accepted, rejected, receive-Outcome}
use ndlcom.Parser.Sizes.{announced_by}
use ndlcom.Parser.RoundTrip.{frame_body-IsByte, length-frame_body, checksum-lt, frame_body-good}

-- The packet was dropped and counted, and the parser waits for the next header.
abbrev pub Dropped : Parser → Parser → Type 0
Dropped p q =
    (has_packet q ≡ false) × (q.number_of_crc_fails ≡ (p.number_of_crc_fails + 1) % 2 ^ 32)

complete-good :
    (q : Parser) (xs : List ℕ)
    → Represents q xs
    → q.state ≡ mc_complete
    → do_crc_all crc_initial_value xs ≡ crc_real_good_value
complete-good q xs r done =
    let (x, y, hx, hy, at_end, content, good) = subst (λ s. Holds s q xs) done r.holds in good

-- A packet of the announced length whose running checksum is not the good value is dropped at its
-- end, and exactly one failure is counted.
pub receive_bad_checksum :
    (p : Parser) (body : List ℕ)
    → IsShaped p
    → All IsByte body
    → length body ≡ 6 + announced_by body
    → do_crc_all crc_initial_value body ≢ crc_real_good_value
    → Dropped p (receive p (start_stop_flag ∷ escape_all body ++ start_stop_flag ∷ [])).0
receive_bad_checksum p body v bytes size bad =
    read (receive-Outcome p body (start_stop_flag ∷ []) v bytes size)
  where
    read : {k : ℕ} {r : Parser × ℕ} → Outcome p body (start_stop_flag ∷ []) k r → Dropped p r.0
    read (accepted q r done same) = absurd (bad (complete-good q body r done))
    read (rejected q w same crc_bad) =
        unfold receive_from receive_byte fail_crc destroy_packet has_packet in
        (refl, ap (λ t. (t + 1) % 2 ^ 32) same)

-- A packet with errors within two neighbouring bytes is never accepted: if `before ++ a ∷ b ∷ after`
-- is the packet that was sent, and other bytes stand in the places of `a` and `b`, the length byte
-- excepted, then what arrives is dropped and counted.
pub receive_burst :
    (p : Parser) (h : Header) (payload before after : List ℕ) (a b a' b' : ℕ)
    → IsShaped p
    → IsHeader h
    → All IsByte payload
    → length payload ≡ h.data_len
    → frame_body little_endian h payload ≡ before ++ a ∷ b ∷ after
    → All IsByte (before ++ a' ∷ b' ∷ after)
    → announced_by (before ++ a' ∷ b' ∷ after) ≡ announced_by (before ++ a ∷ b ∷ after)
    → ¬ ((a ≡ a') × (b ≡ b'))
    → Dropped p
        (receive p
          (start_stop_flag ∷ escape_all (before ++ a' ∷ b' ∷ after) ++ start_stop_flag ∷ [])).0
receive_burst p h payload before after a b a' b' v hv bytes counted sent damaged same_len differ =
    receive_bad_checksum p (before ++ a' ∷ b' ∷ after) v damaged size (λ good. differ (
      do_crc_all_burst crc_initial_value before after a b a' b' (omega arith) sent_pair.0
        sent_pair.1.0 pair.0 pair.1.0 (sent_good ∙ sym good)))
  where
    sent_bytes : All IsByte (before ++ a ∷ b ∷ after)
    sent_bytes = subst (All IsByte) sent (frame_body-IsByte little_endian h payload hv bytes)

    sent_pair : All IsByte (a ∷ b ∷ after)
    sent_pair = All-back IsByte before (a ∷ b ∷ after) sent_bytes

    pair : All IsByte (a' ∷ b' ∷ after)
    pair = All-back IsByte before (a' ∷ b' ∷ after) damaged

    sent_good : do_crc_all crc_initial_value (before ++ a ∷ b ∷ after) ≡ 0
    sent_good = ap (do_crc_all crc_initial_value) (sym sent) ∙ frame_body-good h payload

    size : length (before ++ a' ∷ b' ∷ after) ≡ 6 + announced_by (before ++ a' ∷ b' ∷ after)
    size = omega (
      arith,
      same_len,
      ap (λ t. length t) sent,
      ap (λ t. announced_by t) sent,
      length-frame_body little_endian h payload counted,
      length-append before (a' ∷ b' ∷ after),
      length-append before (a ∷ b ∷ after),
    )

-- On a machine that keeps the high byte first the encoder sends the checksum in that order, and no
-- such packet is ever accepted, unless the two bytes of its checksum are equal.
pub receive_big_endian :
    (p : Parser) (h : Header) (payload : List ℕ)
    → IsShaped p
    → IsHeader h
    → All IsByte payload
    → length payload ≡ h.data_len
    → checksum h payload % 256 ≢ checksum h payload / 256
    → Dropped p (receive p (frame big_endian h payload)).0
unfolding frame
receive_big_endian p h payload v hv bytes counted swapped =
    receive_bad_checksum p (frame_body big_endian h payload) v
      (frame_body-IsByte big_endian h payload hv bytes)
      (length-frame_body big_endian h payload counted) bad
  where
    bad : do_crc_all crc_initial_value (frame_body big_endian h payload) ≢ crc_real_good_value
    bad good =
        let c = checksum h payload in
        let fits : c < 65536 = checksum-lt h payload in
        swapped (
          sym
            ((do_crc_all-good_iff crc_initial_value (header_bytes h ++ payload) (c / 256) (c % 256)
                (omega arith) (omega arith) (omega arith)).0
              (unfold frame_body crc_bytes in good)).0)
