-- ===== src/Encoder/Bounds.antt =====
-- The encoder and its output buffer, at every size of it.
use ndlcom.Prelude.{
  ℕ, ◌+◌, ◌^◌, ◌≤◌, ◌<◌, ◌≡◌, sym, ◌∙◌, ◌≢◌, ◌↔◌, Bool-cases, inl, inr, true, none, List, [], ◌∷◌,
  ◌++◌, length, length-append, ltb, ◌==◌, ==_refl, ==_ne, All, arith,
}
use mathlib.Core.List.{flatten}
use ndlcom.Wire.{Header, header_bytes, start_stop_flag, ByteOrder}
use ndlcom.Encoder.{
  size_t, Progress, room, encode_init, encode_finalize, append_at, append_sections, append_payload,
  crc_bytes, start_message, finish_message, encode_var,
}
use ndlcom.Encoder.Append.{append_at_bound, append_payload_bound}
use ndlcom.Encoder.Sections.{length-crc_bytes}

abbrev pub IsObject : List ℕ → Type 0
IsObject bytes = length bytes < 2 ^ 63

append_sections_bound :
    (output_size : ℕ) (sections : List (List ℕ)) (p : Progress)
    → output_size < 2 ^ 64
    → All IsObject sections
    → length p.buffer ≤ output_size
    → (length p.buffer ≤ length (append_sections output_size sections p).buffer)
      × (length (append_sections output_size sections p).buffer ≤ output_size)
unfolding append_sections
append_sections_bound output_size [] p small objects h = omega arith
append_sections_bound output_size (section ∷ more) p small objects h =
    let counted : Progress = record p { payload_len = size_t (p.payload_len + length section) } in
    let here = append_at_bound output_size section counted small (omega arith) h in
    omega (
      arith,
      here,
      append_sections_bound output_size more (append_at output_size section counted) small objects.1
          here.1,
    )

start_message_bound :
    (output_size : ℕ) (h : Header)
    → output_size < 2 ^ 64
    → (length (start_message output_size h).buffer ≤ output_size)
      × (1 ≤ output_size → 1 ≤ length (start_message output_size h).buffer)
unfolding start_message encode_init
start_message_bound output_size h small = elim (Bool-cases (ltb output_size 1)) [
  | inl e ↦ rw e (
      ground (
        arith,
        append_at_bound output_size (header_bytes h)
            (record { buffer = []; crc = 0xffff; payload_len = 0 }),
      ))
  | inr e ↦ rw e (
      ground (
        arith,
        append_at_bound output_size (header_bytes h)
            (record { buffer = start_stop_flag ∷ []; crc = 0xffff; payload_len = 0 }),
      ))
]

length-encode_finalize : (output_size : ℕ) → length (encode_finalize output_size) ≤ output_size
unfolding encode_finalize
length-encode_finalize output_size = ground arith

finish_message_bound :
    (order : ByteOrder) (output_size : ℕ) (h : Header) (p : Progress)
    → output_size < 2 ^ 64
    → length p.buffer ≤ output_size
    → (length (finish_message order output_size h p).buffer ≤ output_size)
      × ((finish_message order output_size h p).wrote
          ≤ length (finish_message order output_size h p).buffer)
unfolding finish_message
finish_message_bound order output_size h p small fits =
    elim (Bool-cases (p.payload_len == h.data_len)) [
      | inl e ↦ rw e (omega (arith, summed_fits, closed_fits), omega arith)
      | inr e ↦ rw e (omega arith, omega arith)
    ]
  where
    trailer : List ℕ
    trailer = (append_payload (room output_size p.buffer) (crc_bytes order p.crc) none).0

    summed : List ℕ
    summed = p.buffer ++ trailer

    summed_fits : length summed ≤ output_size
    summed_fits = omega (
      arith,
      length-append p.buffer trailer,
      append_payload_bound (room output_size p.buffer) (crc_bytes order p.crc) none
          (omega (arith, length-crc_bytes order p.crc)),
    )

    closed_fits : length (summed ++ encode_finalize (room output_size summed)) ≤ output_size
    closed_fits = omega (
      arith,
      summed_fits,
      length-append summed (encode_finalize (room output_size summed)),
      length-encode_finalize (room output_size summed),
    )

finish_message_result :
    (order : ByteOrder) (output_size : ℕ) (h : Header) (p : Progress)
    → (p.payload_len ≡ h.data_len → length p.buffer ≤ (finish_message order output_size h p).wrote)
      × (p.payload_len ≢ h.data_len → (finish_message order output_size h p).wrote ≡ 0)
unfolding finish_message
finish_message_result order output_size h p = (
  λ e.
      let same : (p.payload_len == h.data_len) ≡ true = rw e (==_refl h.data_len) in
      rw same (
        omega (
          arith,
          length-append p.buffer trailer,
          length-append (p.buffer ++ trailer)
              (encode_finalize (room output_size (p.buffer ++ trailer))),
        )),
  λ e. rw (==_ne p.payload_len h.data_len e),
)
  where
    trailer : List ℕ
    trailer = (append_payload (room output_size p.buffer) (crc_bytes order p.crc) none).0

payload_len-append_sections :
    (output_size : ℕ) (sections : List (List ℕ)) (p : Progress)
    → p.payload_len + length (flatten sections) < 2 ^ 64
    → (append_sections output_size sections p).payload_len
      ≡ p.payload_len + length (flatten sections)
unfolding append_sections append_at flatten
payload_len-append_sections output_size [] p few = omega arith
payload_len-append_sections output_size (section ∷ more) p few =
    let parts = length-append section (flatten more) in
    omega (
      arith,
      parts,
      payload_len-append_sections output_size more
          (append_at output_size section
            (record p { payload_len = size_t (p.payload_len + length section) }))
          (omega (arith, parts)),
    )

payload_len-start_message :
    (output_size : ℕ) (h : Header) → (start_message output_size h).payload_len ≡ 0
unfolding start_message encode_init append_at
payload_len-start_message output_size h = ground arith

-- Whatever the size of the output buffer, nothing is written behind its end, and the result is never
-- more than what was written.
pub encode_var_bound :
    (order : ByteOrder) (output_size : ℕ) (h : Header) (sections : List (List ℕ))
    → output_size < 2 ^ 64
    → All IsObject sections
    → (length (encode_var order output_size h sections).buffer ≤ output_size)
      × ((encode_var order output_size h sections).wrote
          ≤ length (encode_var order output_size h sections).buffer)
unfolding encode_var
encode_var_bound order output_size h sections small objects =
    finish_message_bound order output_size h
      (append_sections output_size sections (start_message output_size h)) small
      (append_sections_bound output_size sections (start_message output_size h) small objects
        (start_message_bound output_size h small).0).1

-- The result is 0 exactly when the sections together have not the length that the header gives, for
-- every buffer of one byte at least: also one that is too small for the message is reported as used.
pub encode_var-eq-zero_iff :
    (order : ByteOrder) (output_size : ℕ) (h : Header) (sections : List (List ℕ))
    → 1 ≤ output_size
    → output_size < 2 ^ 64
    → All IsObject sections
    → length (flatten sections) < 2 ^ 64
    → ((encode_var order output_size h sections).wrote ≡ 0)
      ↔ (length (flatten sections) ≢ h.data_len)
unfolding encode_var
encode_var-eq-zero_iff order output_size h sections some_room small objects few = (
  λ e same.
      omega
        (arith, counted, (finish_message_result order output_size h p).0 (counted ∙ same), written),
  λ ne. (finish_message_result order output_size h p).1 (λ e. ne (sym counted ∙ e)),
)
  where
    p : Progress
    p = append_sections output_size sections (start_message output_size h)

    counted : p.payload_len ≡ length (flatten sections)
    counted = omega (
      arith,
      payload_len-start_message output_size h,
      payload_len-append_sections output_size sections (start_message output_size h)
          (omega (arith, payload_len-start_message output_size h)),
    )

    written : 1 ≤ length p.buffer
    written = omega (
      arith,
      (start_message_bound output_size h small).1 some_room,
      append_sections_bound output_size sections (start_message output_size h) small objects
          (start_message_bound output_size h small).0,
    )
