-- ===== src/Parser/RoundTrip.antt =====
-- The parser reads what the encoder writes.
use ndlcom.Prelude.{
  ℕ, ◌+◌, ◌/◌, ◌%◌, ◌^◌, ◌≤◌, ◌<◌, ◌≡◌, refl, sym, ap, ◌∙◌, some, List, [], ◌∷◌, ◌++◌, append-nil,
  append_assoc, append_inj, length, length-append, get_or, take, All, All-append, arith,
}
use mathlib.Core.Option
use ndlcom.Crc.{IsByte, do_crc_all, crc_initial_value, crc_real_good_value}
use ndlcom.Crc.Linear.{do_crc_all-IsCrc}
use ndlcom.Crc.Residue.{do_crc_all-good_iff}
use ndlcom.Wire.{
  Header, IsHeader, header_bytes, header_bytes-IsByte, header_of_raw, start_stop_flag, ByteOrder,
  little_endian, big_endian, max_encoded_message_size_for_packet,
}
use ndlcom.Encoder.{encode, crc_bytes}
use ndlcom.Encoder.Frame.{escape_all, frame_body, frame, checksum, length-frame}
use ndlcom.Encoder.Sections.{encode-frame, length-crc_bytes}
use ndlcom.Parser.{Parser, mc_complete, receive, is_complete, has_packet, get_header, get_packet}
use ndlcom.Parser.Invariant.{IsShaped, Represents}
use ndlcom.Parser.Run.{has_packet-checksum}
use ndlcom.Parser.Frames.{Outcome, accepted, rejected, receive-Outcome}
use ndlcom.Parser.Sizes.{announced_by, length-stored}

-- The parser hands out this header and this payload.
abbrev pub Delivered : Header → List ℕ → Parser → Type 0
Delivered h payload q =
    (get_header q ≡ some h) × (Option.map (take h.data_len) (get_packet q) ≡ some payload)

pub checksum-lt : (h : Header) (payload : List ℕ) → checksum h payload < 65536
checksum-lt h payload = do_crc_all-IsCrc crc_initial_value (header_bytes h ++ payload) (omega arith)

crc_bytes-IsByte :
    (order : ByteOrder) (h : Header) (payload : List ℕ)
    → All IsByte (crc_bytes order (checksum h payload))
unfolding crc_bytes
crc_bytes-IsByte little_endian h payload = let b = checksum-lt h payload in omega arith
crc_bytes-IsByte big_endian h payload = let b = checksum-lt h payload in omega arith

pub frame_body-IsByte :
    (order : ByteOrder) (h : Header) (payload : List ℕ)
    → IsHeader h
    → All IsByte payload
    → All IsByte (frame_body order h payload)
unfolding frame_body
frame_body-IsByte order h payload v bytes =
    All-append IsByte (header_bytes h ++ payload) _
      (All-append IsByte (header_bytes h) payload (header_bytes-IsByte h v) bytes)
      (crc_bytes-IsByte order h payload)

pub length-frame_body :
    (order : ByteOrder) (h : Header) (payload : List ℕ)
    → length payload ≡ h.data_len
    → length (frame_body order h payload) ≡ 6 + announced_by (frame_body order h payload)
unfolding frame_body
length-frame_body order h payload counted = omega (
  arith,
  length-append (header_bytes h ++ payload) (crc_bytes order (checksum h payload)),
  length-crc_bytes order (checksum h payload),
)

-- Sent low byte first, the checksum is good.
pub frame_body-good :
    (h : Header) (payload : List ℕ)
    → do_crc_all crc_initial_value (frame_body little_endian h payload) ≡ crc_real_good_value
unfolding frame_body crc_bytes
frame_body-good h payload =
    let b = checksum-lt h payload in
    (do_crc_all-good_iff crc_initial_value (header_bytes h ++ payload) (checksum h payload % 256)
        (checksum h payload / 256) (omega arith) (omega arith) (omega arith)).1
      (refl, refl)

-- A header and a payload of the length that it announces are found again in what follows them.
split_packet :
    (raw t ys payload zs : List ℕ) (h : Header)
    → length raw ≡ 4
    → length t ≡ get_or raw 3 0
    → length payload ≡ h.data_len
    → (header_bytes h ++ payload) ++ zs ≡ (raw ++ t) ++ ys
    → (raw ≡ header_bytes h) × (t ≡ payload)
split_packet raw t ys payload zs h four long counted e = (front.0, back.0)
  where
    front : (raw ≡ header_bytes h) × (t ++ ys ≡ payload ++ zs)
    front =
        append_inj raw (t ++ ys) (header_bytes h) (payload ++ zs) (omega arith)
          (sym (append_assoc raw t ys) ∙ sym e)

    back : (t ≡ payload) × (ys ≡ zs)
    back = append_inj t ys payload zs (long ∙ ap (λ r. get_or r 3 0) front.0 ∙ sym counted) front.1

delivered :
    (q : Parser) (h : Header) (payload : List ℕ)
    → length payload ≡ h.data_len
    → Represents q (frame_body little_endian h payload)
    → q.state ≡ mc_complete
    → Delivered h payload q
unfolding frame_body get_header get_packet has_packet
delivered q h payload counted r done =
    let (at_end, body) =
      has_packet-checksum q (frame_body little_endian h payload) r (ap is_complete done) in
    let sizes = length-stored q r.shape (omega arith) in
    let t : List ℕ = take q.data_write_pos q.payload in
    let long : length t ≡ get_or q.raw 3 0 =
      omega (arith, sizes, at_end, r.shape.raw_size, length-append q.raw t) in
    let (raw_is, packet_is) =
      split_packet q.raw t _ payload _ h r.shape.raw_size long counted body in
    let at_len : q.data_write_pos ≡ h.data_len = at_end ∙ ap (λ x. get_or x 3 0) raw_is in
    (
      rw (done, is_complete) (ap (λ x. some (header_of_raw x)) raw_is),
      rw (done, is_complete) (ap some (ap (λ n. take n q.payload) (sym at_len) ∙ packet_is)),
    )

-- From any state of the parser, and with anything behind it: the frame of a packet, with the
-- low byte of its checksum first, is read up to its closing flag, and the parser then hands out the header and the payload that were sent; no failure
-- is counted.
pub receive-frame :
    (p : Parser) (h : Header) (payload rest : List ℕ)
    → IsShaped p
    → IsHeader h
    → All IsByte payload
    → length payload ≡ h.data_len
    → Delivered h payload (receive p (frame little_endian h payload ++ rest)).0
      × ((receive p (frame little_endian h payload ++ rest)).1 + 1
          ≡ length (frame little_endian h payload))
      × ((receive p (frame little_endian h payload ++ rest)).0.number_of_crc_fails
          ≡ p.number_of_crc_fails)
receive-frame p h payload rest v hv bytes counted = rw at_frame (
    read (
      receive-Outcome p body (start_stop_flag ∷ rest) v
        (frame_body-IsByte little_endian h payload hv bytes)
        (length-frame_body little_endian h payload counted)))
  where
    body : List ℕ
    body = frame_body little_endian h payload

    at_frame :
        frame little_endian h payload ++ rest
        ≡ start_stop_flag ∷ escape_all body ++ start_stop_flag ∷ rest
    at_frame =
        unfold frame in
        ap (◌∷◌ start_stop_flag) (append_assoc (escape_all body) (start_stop_flag ∷ []) rest)

    read :
        {r : Parser × ℕ}
        → Outcome p body (start_stop_flag ∷ rest) (length (start_stop_flag ∷ escape_all body)) r
        → Delivered h payload r.0
          × (r.1 + 1 ≡ length (frame little_endian h payload))
          × (r.0.number_of_crc_fails ≡ p.number_of_crc_fails)
    read (accepted q r done same) = (
      delivered q h payload counted r done,
      omega (arith, length-frame little_endian h payload),
      same,
    )
    read (rejected q w same bad) = absurd (bad (frame_body-good h payload))

-- On a machine that keeps the low byte of a `uint16_t` first: what `ndlcomEncode` wrote for a payload of
-- the announced length into a buffer of at least the documented size, a parser of the right shape reads
-- back, in whatever state it was: it hands out the same header and payload, having read all but the
-- closing flag.
pub receive-encode :
    (p : Parser) (output_size : ℕ) (h : Header) (payload : List ℕ)
    → IsShaped p
    → IsHeader h
    → All IsByte payload
    → length payload ≡ h.data_len
    → output_size < 2 ^ 64
    → max_encoded_message_size_for_packet h ≤ output_size
    → Delivered h payload (receive p (encode little_endian output_size h payload).buffer).0
      × ((receive p (encode little_endian output_size h payload).buffer).1 + 1
          ≡ (encode little_endian output_size h payload).wrote)
receive-encode p output_size h payload v hv bytes counted small enough =
    rw (encode-frame little_endian output_size h payload small hv.data_len_byte counted enough) (
      let (given, all_read, same) =
        rw (append-nil (frame little_endian h payload)) at
          (receive-frame p h payload [] v hv bytes counted) in
      (given, all_read))
