-- ===== src/Parser/Frames.antt =====
-- How the parser reads one frame, from its first unescaped byte to its last.
use ndlcom.Prelude.{
  ℕ, ◌+◌, ◌≡◌, refl, sym, ◌∙◌, ◌≢◌, false, List, [], ◌∷◌, ◌++◌, append-nil, append_assoc, length,
  length-append, get_or-append_left, All, arith,
}
use mathlib.Core.Path.{subst}
use native.Mathlib.Nat.{add_assoc}
use ndlcom.Crc.{IsByte, do_crc, do_crc_all, crc_initial_value, crc_real_good_value}
use ndlcom.Wire.{start_stop_flag}
use ndlcom.Encoder.{escape}
use ndlcom.Encoder.Frame.{escape_all}
use ndlcom.Parser.{
  Parser, mc_wait_second_crc_byte, mc_complete, Round, destroy_packet, fail_crc, receive_from,
  receive,
}
use ndlcom.Parser.Invariant.{
  IsShaped, Represents, IsOpen, Feeds, grows, completes, fails, destroy_packet-Represents,
}
use ndlcom.Parser.Feed.{switch-Feeds}
use ndlcom.Parser.Sizes.{announced_by, Fits, Fits-full, Fits-next, Fits-open, Represents-Sized}
use ndlcom.Parser.Unescaping.{
  continue_with, receive_from-cons, receive_from-escape, receive_byte_flag,
}

-- What is left after the last byte of the packet `xs`, `k` bytes into the stream: the call returns
-- with the packet, or the checksum is bad and the parser goes on with the rest from the start.
pub data Outcome (p : Parser) (xs rest : List ℕ) (k : ℕ) : Parser × ℕ → Type 0 where
  accepted :
      (q : Parser)
      → Represents q xs
      → q.state ≡ mc_complete
      → q.number_of_crc_fails ≡ p.number_of_crc_fails
      → Outcome p xs rest k (q, k)
  rejected :
      (q : Parser)
      → IsShaped q
      → q.number_of_crc_fails ≡ p.number_of_crc_fails
      → do_crc_all crc_initial_value xs ≢ crc_real_good_value
      → Outcome p xs rest k (receive_from (fail_crc q) rest k)

Outcome-fails :
    {p q : Parser} {xs rest : List ℕ} {k : ℕ} {r : Parser × ℕ}
    → q.number_of_crc_fails ≡ p.number_of_crc_fails
    → Outcome q xs rest k r
    → Outcome p xs rest k r
Outcome-fails e (accepted q r done same) = accepted q r done (same ∙ e)
Outcome-fails e (rejected q v same bad) = rejected q v (same ∙ e) bad

rejected_by :
    (p q : Parser) (xs rest : List ℕ) (d k : ℕ)
    → IsShaped p
    → q ≡ fail_crc (record p { data_crc = do_crc p.data_crc d })
    → do_crc_all crc_initial_value xs ≢ crc_real_good_value
    → Outcome p xs rest k (receive_from q rest k)
rejected_by p q xs rest d k v e bad =
    subst (λ t. Outcome p xs rest k (receive_from t rest k)) (sym e)
      (rejected (record p { data_crc = do_crc p.data_crc d })
        (record { raw_size = v.raw_size; payload_size = v.payload_size; raw_bytes = v.raw_bytes })
        refl bad)

feed_last :
    (d : ℕ) (xs rest : List ℕ) (p : Parser) (k : ℕ) {r : Round}
    → IsShaped p
    → Fits xs (d ∷ [])
    → Feeds p xs d r
    → Outcome p (xs ++ d ∷ []) rest k (continue_with rest k r)
feed_last d xs rest p k v fits (grows q r is_open plain same) =
    absurd (Fits-open q (xs ++ d ∷ []) r is_open (Fits-next xs d [] fits))
feed_last d xs rest p k v fits (completes q r done same) = accepted q r done same
feed_last d xs rest p k v fits (fails q e at_second bad) =
    rejected_by p q (xs ++ d ∷ []) rest d k v e bad

feed_more :
    (d e : ℕ) (es xs rest : List ℕ) (p : Parser) (k : ℕ) {r : Round} (end : ℕ)
    → Represents p xs
    → p.last_was_esc ≡ false
    → Fits xs (d ∷ e ∷ es)
    → Feeds p xs d r
    → ((q : Parser)
        → Represents q (xs ++ d ∷ [])
        → IsOpen q.state
        → q.last_was_esc ≡ false
        → Outcome q
            ((xs ++ d ∷ []) ++ e ∷ es)
            rest
            end
            (receive_from q (escape_all (e ∷ es) ++ rest) k))
    → Outcome p (xs ++ d ∷ e ∷ es) rest end (continue_with (escape_all (e ∷ es) ++ rest) k r)
feed_more d e es xs rest p k end r0 plain fits (grows q r is_open esc same) more =
    subst (λ t. Outcome p t rest end (receive_from q (escape_all (e ∷ es) ++ rest) k))
      (append_assoc xs (d ∷ []) (e ∷ es)) (Outcome-fails same (more q r is_open (esc ∙ plain)))
feed_more d e es xs rest p k end r0 plain fits (completes q r done same) more =
    let size = Represents-Sized q (xs ++ d ∷ []) mc_complete r done in
    absurd (
      omega (
        arith,
        Fits-full (xs ++ d ∷ []) (e ∷ es) (Fits-next xs d (e ∷ es) fits) (omega arith) size,
      ))
feed_more d e es xs rest p k end r0 plain fits (fails q f at_second bad) more =
    let size = Represents-Sized p xs mc_wait_second_crc_byte r0 at_second in
    absurd (omega (arith, get_or-append_left xs (d ∷ e ∷ es) 3 0 (omega arith)))

feed_rest :
    (ds : List ℕ) (d : ℕ) (xs rest : List ℕ) (p : Parser) (n : ℕ)
    → Represents p xs
    → IsOpen p.state
    → p.last_was_esc ≡ false
    → All IsByte (d ∷ ds)
    → Fits xs (d ∷ ds)
    → Outcome p
        (xs ++ d ∷ ds)
        rest
        (n + length (escape_all (d ∷ ds)))
        (receive_from p (escape_all (d ∷ ds) ++ rest) n)
unfolding escape_all
feed_rest [] d xs rest p n r is_open plain bytes fits =
    rw (append-nil (escape d), receive_from-escape p d rest n plain)
      (feed_last d xs rest p (n + length (escape d)) r.shape fits
        (switch-Feeds p xs d r is_open bytes.0))
feed_rest (e ∷ es) d xs rest p n r is_open plain bytes fits =
    rw
      (
        append_assoc (escape d) (escape_all (e ∷ es)) rest,
        receive_from-escape p d (escape_all (e ∷ es) ++ rest) n plain,
        length-append (escape d) (escape_all (e ∷ es)),
      )
      (feed_more d e es xs rest p (n + length (escape d)) _ r plain fits
        (switch-Feeds p xs d r is_open bytes.0)
        (λ q s o f.
          subst
            (λ t.
              Outcome q ((xs ++ d ∷ []) ++ e ∷ es) rest t
                (receive_from q (escape_all (e ∷ es) ++ rest) (n + length (escape d))))
            (add_assoc n (length (escape d)) (length (escape_all (e ∷ es))))
            (feed_rest es e (xs ++ d ∷ []) rest q (n + length (escape d)) s o f bytes.1
              (Fits-next xs d (e ∷ es) fits))))

-- A flag and then the escaped bytes of a packet of the announced length, whatever the parser was at
-- before: the call returns behind the last byte with exactly this packet if its checksum is good, and
-- otherwise drops it, counts it and goes on behind it.
pub receive-Outcome :
    (p : Parser) (body rest : List ℕ)
    → IsShaped p
    → All IsByte body
    → length body ≡ 6 + announced_by body
    → Outcome p body rest
        (length (start_stop_flag ∷ escape_all body))
        (receive p (start_stop_flag ∷ escape_all body ++ rest))
unfolding receive
receive-Outcome p [] rest v bytes size = absurd (omega arith)
receive-Outcome p (d ∷ ds) rest v bytes size =
    rw (receive_from-cons p start_stop_flag (escape_all (d ∷ ds) ++ rest) 0, receive_byte_flag p)
      (subst
        (λ t.
          Outcome p (d ∷ ds) rest t
            (receive_from (destroy_packet p) (escape_all (d ∷ ds) ++ rest) 1))
        (omega arith) fed)
  where
    fed :
        Outcome p
          (d ∷ ds)
          rest
          (1 + length (escape_all (d ∷ ds)))
          (receive_from (destroy_packet p) (escape_all (d ∷ ds) ++ rest) 1)
    fed = Outcome-fails {p = p} {q = destroy_packet p} (unfold destroy_packet in refl) (
        feed_rest ds d [] rest (destroy_packet p) 1 (destroy_packet-Represents p v)
          (unfold destroy_packet in tt) (unfold destroy_packet in refl) bytes (omega arith))
