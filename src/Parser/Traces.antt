-- ===== src/Parser/Traces.antt =====
-- `ndlcomParserReceive` of src/Parser.c against the stream of the bytes that arrived.
use ndlcom.Prelude.{
  ℕ, ◌+◌, ◌/◌, ◌%◌, ◌≡◌, ◌⊎◌, refl, sym, ap, ap₂, ◌∙◌, inl, inr, true, false, List, [], ◌∷◌, ◌++◌,
  append-nil, append_assoc, length, take, All, arith,
}
use mathlib.Core.Path.{subst}
use ndlcom.Crc.{IsByte, do_crc_all, crc_initial_value}
use ndlcom.Parser.{
  Parser, ParserState, mc_error, mc_wait_header, mc_wait_data, mc_wait_first_crc_byte,
  mc_wait_second_crc_byte, mc_complete, mc_number_of_states, Round, next, returns, refuses,
  destroy_packet, receive_from, receive, is_complete, has_packet,
}
use ndlcom.Parser.Invariant.{IsShaped, announced, stored, IsOpen}
use ndlcom.Parser.Run.{has_packet-checksum}
use ndlcom.Parser.Streams.{
  Unescapes, Follows, Step, goes_on, stops, starts, IsOpen-destroy, receive_byte-Step,
}

-- What the loop has taken of the bytes, and that it goes on to their end or to a whole packet.
pub record Takes (stream bytes : List ℕ) (n : ℕ) (r : Parser × ℕ) : Type 0 where
  pub taken : List ℕ
  pub rest : List ℕ
  pub together : taken ++ rest ≡ bytes
  pub counted : r.1 ≡ n + length taken
  pub follows : Follows r.0 (stream ++ taken)
  pub ended : (IsOpen r.0.state × (rest ≡ [])) ⊎ (r.0.state ≡ mc_complete)

complete_state : (q : Parser) → has_packet q ≡ true → q.state ≡ mc_complete
unfolding has_packet
complete_state q done = only q.state done
  where
    only : (s : ParserState) → is_complete s ≡ true → s ≡ mc_complete
    only mc_complete e = refl
    only mc_error e = cc
    only mc_wait_header e = cc
    only mc_wait_data e = cc
    only mc_wait_first_crc_byte e = cc
    only mc_wait_second_crc_byte e = cc
    only mc_number_of_states e = cc

take-front : (xs ys : List ℕ) → take (length xs) (xs ++ ys) ≡ xs
take-front [] ys = refl
take-front (x ∷ xs) ys = ap (◌∷◌ x) (take-front xs ys)

receive_from-Takes :
    (p : Parser) (bytes stream : List ℕ) (n : ℕ)
    → IsOpen p.state
    → Follows p stream
    → All IsByte bytes
    → Takes stream bytes n (receive_from p bytes n)
unfolding receive_from
receive_from-Takes p [] stream n is_open f b = record {
  taken = [];
  rest = [];
  together = refl;
  counted = omega arith;
  follows = rw (append-nil stream) f;
  ended = inl (is_open, refl);
}
receive_from-Takes p (c ∷ bytes) stream n is_open f b =
    go (receive_byte-Step p c stream is_open f b.0)
      (λ q o w. receive_from-Takes q bytes (stream ++ c ∷ []) (n + 1) o w b.1)
  where
    go :
        {r : Round}
        → Step (stream ++ c ∷ []) r
        → ((q : Parser)
            → IsOpen q.state
            → Follows q (stream ++ c ∷ [])
            → Takes (stream ++ c ∷ []) bytes (n + 1) (receive_from q bytes (n + 1)))
        → Takes stream (c ∷ bytes) n (
            let out : Parser × ℕ = elim r [
              | next q ↦ receive_from q bytes (n + 1)
              | returns q ↦ (q, n + 1)
              | refuses q ↦ (q, 0)
            ] in
            out)
    go (goes_on q o w) more =
        let t = more q o w in
        record {
          taken = c ∷ t.taken;
          rest = t.rest;
          together = ap (◌∷◌ c) t.together;
          counted = omega (arith, t.counted);
          follows = subst (Follows _) (append_assoc stream (c ∷ []) t.taken) t.follows;
          ended = t.ended;
        }
    go (stops q done w) more = record {
      taken = c ∷ [];
      rest = bytes;
      together = refl;
      counted = omega arith;
      follows = w;
      ended = inr done;
    }

-- A parser is reading a packet and stands for what the end of the stream so far unescapes to. Then,
-- for any further bytes: it takes as many as it says from the front, either all of them or up to a
-- whole packet with a good checksum, and stands for what the end of the stream behind these bytes
-- unescapes to.
pub receive-Takes :
    (p : Parser) (bytes stream : List ℕ)
    → IsOpen p.state
    → Follows p stream
    → All IsByte bytes
    → Takes stream bytes 0 (receive p bytes)
unfolding receive
receive-Takes p bytes stream is_open f b = receive_from-Takes p bytes stream 0 is_open f b

-- A parser of the right shape starts anew and gets any bytes. If it then hands out a packet, the bytes
-- that it says it took end with the escaped form of exactly this: the header and the payload that it
-- hands out, of which the header announces the length, and their checksum, low byte first.
pub receive-has_packet :
    (p : Parser) (bytes : List ℕ)
    → IsShaped p
    → All IsByte bytes
    → has_packet (receive (destroy_packet p) bytes).0 ≡ true
    → (let (q, count) = receive (destroy_packet p) bytes in
        (before : List ℕ) × (since : List ℕ) × (before ++ since ≡ take count bytes)
        × Unescapes since
            (stored q
              ++ do_crc_all crc_initial_value (stored q) % 256
                ∷ do_crc_all crc_initial_value (stored q) / 256
                ∷ [])
            false
        × (q.data_write_pos ≡ announced q))
unfolding receive
receive-has_packet p bytes v b done =
    let q = (receive_from (destroy_packet p) bytes 0).0 in
    let t = receive_from-Takes (destroy_packet p) bytes [] 0 (IsOpen-destroy p) (starts p [] v) b in
    let f = t.follows in
    let same : (receive_from (destroy_packet p) bytes 0).1 ≡ length t.taken =
      omega (arith, t.counted) in
    let (at_end, packet_is) = has_packet-checksum q f.packet f.represents done in
    (
      f.before,
      f.since,
      f.split ∙ sym (take-front t.taken t.rest) ∙ ap₂ take (sym same) t.together,
      subst (λ xs. Unescapes f.since xs false) packet_is
          (subst (Unescapes f.since f.packet) (f.closed (complete_state q done)) f.unescapes),
      at_end,
    )
