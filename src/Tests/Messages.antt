-- ===== src/Tests/Messages.antt =====
-- The encoder of src/Encoder.c on concrete messages.
use ndlcom.Prelude.{◌≡◌, refl, ◌≤◌, [], ◌∷◌, length, arith}
use ndlcom.Crc.{do_crc, crc16_table}
use ndlcom.Wire.{Header, little_endian}
use ndlcom.Encoder.{
  encode, encode_var, finish_message, start_message, append_sections, append_at, append_payload,
  append_loop, escape, crc_bytes, encode_init, encode_finalize,
}
use ndlcom.Encoder.Frame.{frame}
use ndlcom.Encoder.Sections.{encode-frame}
use ndlcom.Encoder.Bounds.{encode_var_bound}

abbrev short_header : Header
short_header = record { receiver_id = 1; sender_id = 2; counter = 0; data_len = 1 }

-- A payload byte that has to be escaped.
encode_runs :
    encode little_endian 16 short_header (0x7e ∷ [])
    ≡ record { wrote = 10; buffer = 0x7e ∷ 1 ∷ 2 ∷ 0 ∷ 1 ∷ 0x7d ∷ 0x5e ∷ 155 ∷ 129 ∷ 0x7e ∷ [] }
unfolding encode encode_var finish_message start_message append_sections append_at append_payload
    append_loop escape crc_bytes encode_init encode_finalize do_crc crc16_table
encode_runs = refl

encode-frame_example : encode little_endian 524 short_header (9 ∷ []) ≡ record {
  wrote = length (frame little_endian short_header (9 ∷ []));
  buffer = frame little_endian short_header (9 ∷ []);
}
encode-frame_example =
    encode-frame little_endian 524 short_header (9 ∷ []) (omega arith) (omega arith) refl
      (omega arith)

encode_var_bound_example :
    (length (encode_var little_endian 5 short_header ((9 ∷ []) ∷ [])).buffer ≤ 5)
    × ((encode_var little_endian 5 short_header ((9 ∷ []) ∷ [])).wrote
        ≤ length (encode_var little_endian 5 short_header ((9 ∷ []) ∷ [])).buffer)
encode_var_bound_example =
    encode_var_bound little_endian 5 short_header ((9 ∷ []) ∷ []) (omega arith) (omega arith)
