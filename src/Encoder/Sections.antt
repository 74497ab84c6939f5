-- ===== src/Encoder/Sections.antt =====
-- `ndlcomEncodeVar` and `ndlcomEncode` against the specification of `Encoder.Frame`.
use ndlcom.Prelude.{
  ℕ, ◌+◌, ◌*◌, ◌^◌, ◌≤◌, ◌<◌, ◌≡◌, refl, sym, ap, ◌∙◌, none, List, [], ◌∷◌, ◌++◌, append-nil,
  append_assoc, length, length-append, ltb, ◌==◌, ==_refl, take, take-length, true, false, arith,
}
use mathlib.Core.List.{flatten}
use ndlcom.Crc.{do_crc_all, crc_initial_value}
use ndlcom.Crc.Linear.{do_crc_all-append}
use ndlcom.Wire.{
  Header, header_bytes, start_stop_flag, ByteOrder, little_endian, big_endian,
  max_encoded_message_size_for_packet,
}
use ndlcom.Encoder.{
  size_t, Progress, room, encode_init, encode_finalize, append_sections, append_payload, crc_bytes,
  Encoded, start_message, finish_message, encode_var, encode,
}
use ndlcom.Encoder.Frame.{
  escape_all, escape_all-append, frame_body, frame, checksum, length-escape_all,
}
use ndlcom.Encoder.Append.{append_at_fits, append_payload_fits}

-- The sections are encoded one behind the other, as their concatenation would be.
append_sections_lem :
    (output_size : ℕ) (sections : List (List ℕ)) (p : Progress)
    → output_size < 2 ^ 64
    → length p.buffer + 2 * length (flatten sections) ≤ output_size
    → p.payload_len + length (flatten sections) < 2 ^ 64
    → append_sections output_size sections p ≡ record {
      buffer = p.buffer ++ escape_all (flatten sections);
      crc = do_crc_all p.crc (flatten sections);
      payload_len = p.payload_len + length (flatten sections);
    }
unfolding append_sections flatten escape_all do_crc_all
append_sections_lem output_size [] p small room_left few = ground (arith, append-nil p.buffer)
append_sections_lem output_size (section ∷ more) p small room_left few =
    ap (append_sections output_size more)
      (append_at_fits output_size section counted small (omega (arith, parts)))
    ∙ append_sections_lem output_size more advanced small
        (omega
          (arith, parts, length-append p.buffer (escape_all section), length-escape_all section))
        (omega (arith, parts))
    ∙ ground (
      arith,
      parts,
      append_assoc p.buffer (escape_all section) (escape_all (flatten more)),
      escape_all-append section (flatten more),
      do_crc_all-append p.crc section (flatten more),
    )
  where
    parts : length (section ++ flatten more) ≡ length section + length (flatten more)
    parts = length-append section (flatten more)

    counted : Progress
    counted = record p { payload_len = size_t (p.payload_len + length section) }

    advanced : Progress
    advanced = record counted {
      buffer = p.buffer ++ escape_all section;
      crc = do_crc_all p.crc section;
    }

start_message_lem :
    (output_size : ℕ) (h : Header)
    → output_size < 2 ^ 64
    → 9 ≤ output_size
    → start_message output_size h ≡ record {
      buffer = start_stop_flag ∷ escape_all (header_bytes h);
      crc = do_crc_all crc_initial_value (header_bytes h);
      payload_len = 0;
    }
unfolding start_message encode_init
start_message_lem output_size h small enough =
    let some_room : ltb output_size 1 ≡ false = ground arith in
    rw some_room (append_at_fits output_size (header_bytes h) opened small (omega arith))
  where
    opened : Progress
    opened = record { buffer = start_stop_flag ∷ []; crc = crc_initial_value; payload_len = 0 }

pub length-crc_bytes : (order : ByteOrder) (crc : ℕ) → length (crc_bytes order crc) ≡ 2
unfolding crc_bytes
length-crc_bytes little_endian crc = refl
length-crc_bytes big_endian crc = refl

finish_message_lem :
    (order : ByteOrder) (output_size : ℕ) (h : Header) (p : Progress)
    → output_size < 2 ^ 64
    → p.payload_len ≡ h.data_len
    → length p.buffer + 5 ≤ output_size
    → finish_message order output_size h p ≡ (
        let closed = (p.buffer ++ escape_all (crc_bytes order p.crc)) ++ start_stop_flag ∷ [] in
        record { wrote = length closed; buffer = closed })
unfolding finish_message encode_finalize
finish_message_lem order output_size h p small counted enough =
    let test : (p.payload_len == h.data_len) ≡ true = rw counted (==_refl h.data_len) in
    let fits : append_payload (room output_size p.buffer) (crc_bytes order p.crc) none
        ≡ (escape_all (crc_bytes order p.crc), none) =
      append_payload_fits (room output_size p.buffer) (crc_bytes order p.crc) none (omega arith)
        (omega (arith, length-crc_bytes order p.crc)) in
    let last : ltb (room output_size (p.buffer ++ escape_all (crc_bytes order p.crc))) 1 ≡ false =
      ground (
        arith,
        length-append p.buffer (escape_all (crc_bytes order p.crc)),
        length-escape_all (crc_bytes order p.crc),
        length-crc_bytes order p.crc,
      ) in
    rw (test, fits, last)

-- With the documented worst-case space, and sections as long together as the header says, the
-- sections are encoded as one message: the frame of their concatenation, whose length is returned.
pub encode_var-frame :
    (order : ByteOrder) (output_size : ℕ) (h : Header) (sections : List (List ℕ))
    → output_size < 2 ^ 64
    → h.data_len < 256
    → length (flatten sections) ≡ h.data_len
    → max_encoded_message_size_for_packet h ≤ output_size
    → encode_var order output_size h sections ≡ record {
      wrote = length (frame order h (flatten sections));
      buffer = frame order h (flatten sections);
    }
unfolding encode_var frame frame_body
encode_var-frame order output_size h sections small byte counted enough =
    ap (λ p. finish_message order output_size h (append_sections output_size sections p))
      (start_message_lem output_size h small (omega arith))
    ∙ ap (finish_message order output_size h) (
        append_sections_lem output_size sections started small
          (omega (arith, length-escape_all (header_bytes h))) (omega arith))
    ∙ finish_message_lem order output_size h filled small (omega arith) (
        omega (
          arith,
          length-append started.buffer (escape_all body),
          length-escape_all (header_bytes h),
          length-escape_all body,
        ))
    ∙ ap (λ b. let r : Encoded = record { wrote = length b; buffer = b } in r) same
  where
    body : List ℕ
    body = flatten sections

    started : Progress
    started = record {
      buffer = start_stop_flag ∷ escape_all (header_bytes h);
      crc = do_crc_all crc_initial_value (header_bytes h);
      payload_len = 0;
    }

    filled : Progress
    filled = record {
      buffer = started.buffer ++ escape_all body;
      crc = do_crc_all started.crc body;
      payload_len = 0 + length body;
    }

    same :
        (filled.buffer ++ escape_all (crc_bytes order filled.crc)) ++ start_stop_flag ∷ []
        ≡ frame order h body
    same =
        rw (← do_crc_all-append crc_initial_value (header_bytes h) body)
          (ap (λ t. start_stop_flag ∷ (t ++ start_stop_flag ∷ [])) (sym escaped))
      where
        trailer : List ℕ
        trailer = crc_bytes order (checksum h body)

        escaped :
            escape_all (header_bytes h ++ body ++ trailer)
            ≡ escape_all (header_bytes h) ++ escape_all body ++ escape_all trailer
        escaped =
            escape_all-append (header_bytes h ++ body) trailer
            ∙ ap (λ t. t ++ escape_all trailer) (escape_all-append (header_bytes h) body)

-- With the documented worst-case space a payload of the length in the header is encoded as its frame,
-- whose length is returned.
pub encode-frame :
    (order : ByteOrder) (output_size : ℕ) (h : Header) (payload : List ℕ)
    → output_size < 2 ^ 64
    → h.data_len < 256
    → length payload ≡ h.data_len
    → max_encoded_message_size_for_packet h ≤ output_size
    → encode order output_size h payload
      ≡ record { wrote = length (frame order h payload); buffer = frame order h payload }
unfolding encode flatten
encode-frame order output_size h payload small byte counted enough = rw whole (
    rw (append-nil payload) at (
      encode_var-frame order output_size h (payload ∷ []) small byte
        (rw (append-nil payload) counted) enough))
  where
    whole : take h.data_len payload ≡ payload
    whole = rw (← counted) (take-length payload)

-- How a payload is cut into sections does not show in the message.
pub encode_var-encode :
    (order : ByteOrder) (output_size : ℕ) (h : Header) (sections : List (List ℕ))
    → output_size < 2 ^ 64
    → h.data_len < 256
    → length (flatten sections) ≡ h.data_len
    → max_encoded_message_size_for_packet h ≤ output_size
    → encode_var order output_size h sections ≡ encode order output_size h (flatten sections)
encode_var-encode order output_size h sections small byte counted enough =
    encode_var-frame order output_size h sections small byte counted enough
    ∙ sym (encode-frame order output_size h (flatten sections) small byte counted enough)
