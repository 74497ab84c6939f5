-- ===== src/Encoder.antt =====
-- src/Encoder.c. A function that writes through `outputBuffer` returns the bytes it wrote there from
-- the front; its C return value is their number, `ndlcomEncodeVar` excepted, whose result keeps both.
-- `size_t` has 64 bits.
pub mod Frame
pub mod Append
pub mod Sections
pub mod Bounds
use ndlcom.Prelude.{
  ℕ, ◌+◌, ◌-◌, ◌*◌, ◌/◌, ◌%◌, ◌^◌, Bool, ◌||◌, Option, none, some, List, [], ◌∷◌, ◌++◌, bit_xor,
  ltb, ◌==◌, not, if◌then◌else◌, length, take,
}
use mathlib.Core.Option
use ndlcom.Crc.{do_crc, crc_initial_value}
use ndlcom.Wire.{
  Header, header_bytes, esc_char, start_stop_flag, ByteOrder, little_endian, big_endian,
}

abbrev pub size_t : ℕ → ℕ
size_t n = n % 2 ^ 64

-- `a - b` on `size_t`.
abbrev pub sub_size : ℕ → ℕ → ℕ
sub_size a b = size_t (a + 2 ^ 64 - b)

unfoldable pub encode_init : ℕ → List ℕ × ℕ
encode_init output_size =
    if ltb output_size 1 then ([], crc_initial_value) else (start_stop_flag ∷ [], crc_initial_value)

-- The branch on `d` in the loop.
unfoldable pub escape : ℕ → List ℕ
escape d = if d == esc_char || d == start_stop_flag then esc_char ∷ bit_xor 0x20 d ∷ [] else d ∷ []

-- `if (likely(crc)) *crc = ndlcomDoCrc(*crc, &d)`, where `none` is the null pointer.
abbrev pub update_crc : Option ℕ → ℕ → Option ℕ
update_crc none d = none
update_crc (some crc) d = some (do_crc crc d)

-- The `while` loop, with what is written so far and the checksum behind its pointer.
unfoldable pub append_loop : List ℕ → List ℕ → Option ℕ → List ℕ × Option ℕ
append_loop written [] crc = (written, crc)
append_loop written (d ∷ rest) crc = append_loop (written ++ escape d) rest (update_crc crc d)

unfoldable pub append_payload : ℕ → List ℕ → Option ℕ → List ℕ × Option ℕ
append_payload output_size bytes crc =
    if ltb output_size (size_t (2 * length bytes)) then ([], crc) else append_loop [] bytes crc

unfoldable pub encode_finalize : ℕ → List ℕ
encode_finalize output_size = if ltb output_size 1 then [] else start_stop_flag ∷ []

-- The local variables of `ndlcomEncodeVar`; `wrote` is the length of what stands in the buffer.
pub record Progress : Type 0 where
  pub buffer : List ℕ
  pub crc : ℕ
  pub payload_len : ℕ

abbrev pub room : ℕ → List ℕ → ℕ
room output_size buffer = sub_size output_size (length buffer)

-- `wrote += ndlcomEncodeAppendPayload(outputBuffer + wrote, outputBufferSize - wrote, …, &crc)`
unfoldable pub append_at : ℕ → List ℕ → Progress → Progress
append_at output_size bytes p =
    let (written, crc) = append_payload (room output_size p.buffer) bytes (some p.crc) in
    record p { buffer = p.buffer ++ written; crc = Option.get_or crc p.crc }

unfoldable pub append_sections : ℕ → List (List ℕ) → Progress → Progress
append_sections output_size [] p = p
append_sections output_size (section ∷ more) p = append_sections output_size more (
    append_at output_size section
      (record p { payload_len = size_t (p.payload_len + length section) }))

-- `(uint8_t *)&crc`
unfoldable pub crc_bytes : ByteOrder → ℕ → List ℕ
crc_bytes little_endian crc = crc % 256 ∷ crc / 256 ∷ []
crc_bytes big_endian crc = crc / 256 ∷ crc % 256 ∷ []

-- What is returned, and what stands in the buffer.
pub record Encoded : Type 0 where
  pub wrote : ℕ
  pub buffer : List ℕ

unfoldable pub start_message : ℕ → Header → Progress
start_message output_size h =
    let (flag, crc) = encode_init output_size in
    append_at output_size (header_bytes h) (record { buffer = flag; crc = crc; payload_len = 0 })

-- Checksum and closing flag, behind the sections.
unfoldable pub finish_message : ByteOrder → ℕ → Header → Progress → Encoded
finish_message order output_size h p =
    if not (p.payload_len == h.data_len)
    then record { wrote = 0; buffer = p.buffer }
    else (let summed =
          p.buffer ++ (append_payload (room output_size p.buffer) (crc_bytes order p.crc) none).0 in
        let closed = summed ++ encode_finalize (room output_size summed) in
        record { wrote = length closed; buffer = closed })

unfoldable pub encode_var : ByteOrder → ℕ → Header → List (List ℕ) → Encoded
encode_var order output_size h sections =
    finish_message order output_size h
      (append_sections output_size sections (start_message output_size h))

-- `data` is read for `header->mDataLen` bytes.
unfoldable pub encode : ByteOrder → ℕ → Header → List ℕ → Encoded
encode order output_size h payload = encode_var order output_size h (take h.data_len payload ∷ [])
