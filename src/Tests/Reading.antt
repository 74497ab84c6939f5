-- ===== src/Tests/Reading.antt =====
-- The parser of src/Parser.c on concrete bytes.
use ndlcom.Prelude.{
  ℕ, ◌+◌, ◌/◌, ◌%◌, ◌≡◌, refl, false, List, [], ◌∷◌, ◌++◌, length, take, replicate, arith,
}
use ndlcom.Crc.{do_crc, do_crc_all, crc16_table, crc_initial_value}
use ndlcom.Wire.{Header, IsHeader, little_endian}
use ndlcom.Encoder.{encode, crc_bytes}
use ndlcom.Encoder.Frame.{escape_all, frame, frame_body}
use ndlcom.Parser.{
  Parser, mc_wait_header, destroy_packet, receive, receive_from, receive_byte, switch_on,
  after_switch, take_header_byte, take_data_byte, take_first_crc_byte, take_second_crc_byte,
  has_packet, fail_crc,
}
use ndlcom.Parser.Invariant.{IsShaped, announced, stored, destroy_packet-Represents}
use ndlcom.Parser.Streams.{Unescapes, nothing, Follows}
use ndlcom.Parser.Traces.{Takes, receive-Takes, receive-has_packet}
use ndlcom.Parser.RoundTrip.{Delivered, receive-frame, receive-encode}
use ndlcom.Parser.Detection.{Dropped, receive_burst}

abbrev fresh : Parser
fresh = record {
  raw = replicate 4 0;
  data_crc = 0xffff;
  last_was_esc = false;
  header_write_pos = 0;
  payload = replicate 255 0;
  data_write_pos = 0;
  state = mc_wait_header;
  number_of_crc_fails = 0;
}

abbrev short_header : Header
short_header = record { receiver_id = 1; sender_id = 2; counter = 0; data_len = 1 }

fresh-IsShaped : IsShaped fresh
fresh-IsShaped = record { raw_size = refl; payload_size = refl; raw_bytes = omega arith }

short_header-IsHeader : IsHeader short_header
short_header-IsHeader = omega arith

program : Unit {0}
unfolding receive receive_from receive_byte switch_on after_switch take_header_byte take_data_byte
    take_first_crc_byte take_second_crc_byte destroy_packet fail_crc has_packet do_crc do_crc_all
    crc16_table
program = tt

abbrev short_message : List ℕ
short_message = 0x7e ∷ 1 ∷ 2 ∷ 0 ∷ 1 ∷ 0x7d ∷ 0x5e ∷ 155 ∷ 129 ∷ 0x7e ∷ []

receive_runs : (receive fresh short_message).1 ≡ 9
unfolding program
receive_runs = refl

receive-encode_example :
    Delivered short_header
      (9 ∷ [])
      (receive fresh (encode little_endian 524 short_header (9 ∷ [])).buffer).0
    × ((receive fresh (encode little_endian 524 short_header (9 ∷ [])).buffer).1 + 1
        ≡ (encode little_endian 524 short_header (9 ∷ [])).wrote)
receive-encode_example =
    receive-encode fresh 524 short_header (9 ∷ []) fresh-IsShaped short_header-IsHeader
      (omega arith) refl (omega arith) (omega arith)

receive-frame_example :
    Delivered short_header
      (9 ∷ [])
      (receive fresh (frame little_endian short_header (9 ∷ []) ++ 1 ∷ 2 ∷ [])).0
    × ((receive fresh (frame little_endian short_header (9 ∷ []) ++ 1 ∷ 2 ∷ [])).1 + 1
        ≡ length (frame little_endian short_header (9 ∷ [])))
    × ((receive fresh
          (frame little_endian short_header (9 ∷ []) ++ 1 ∷ 2 ∷ [])).0.number_of_crc_fails
        ≡ 0)
receive-frame_example =
    receive-frame fresh short_header (9 ∷ []) (1 ∷ 2 ∷ []) fresh-IsShaped short_header-IsHeader
      (omega arith) refl

-- Nothing arrived yet.
fresh-Follows : Follows fresh []
fresh-Follows = record {
  before = [];
  since = [];
  packet = [];
  pending = false;
  split = refl;
  unescapes = nothing;
  represents = unfold program in destroy_packet-Represents fresh fresh-IsShaped;
  flag = λ o. refl;
  closed = λ e. refl;
}

receive-Takes_example : Takes [] (5 ∷ 0x7d ∷ 6 ∷ []) 0 (receive fresh (5 ∷ 0x7d ∷ 6 ∷ []))
receive-Takes_example = receive-Takes fresh (5 ∷ 0x7d ∷ 6 ∷ []) [] tt fresh-Follows (omega arith)

receive-has_packet_example :
    (let (q, count) = receive (destroy_packet fresh) short_message in
      (before : List ℕ) × (since : List ℕ) × (before ++ since ≡ take count short_message)
      × Unescapes since
          (stored q
            ++ do_crc_all crc_initial_value (stored q) % 256
              ∷ do_crc_all crc_initial_value (stored q) / 256
              ∷ [])
          false
      × (q.data_write_pos ≡ announced q))
receive-has_packet_example =
    receive-has_packet fresh short_message fresh-IsShaped (omega arith) (unfold program in refl)

short_body :
    frame_body little_endian short_header (0x7e ∷ [])
    ≡ (1 ∷ 2 ∷ 0 ∷ 1 ∷ []) ++ 0x7e ∷ 155 ∷ 129 ∷ []
unfolding program frame_body crc_bytes
short_body = refl

receive_burst_example :
    Dropped fresh
      (receive fresh
        (0x7e ∷ escape_all ((1 ∷ 2 ∷ 0 ∷ 1 ∷ []) ++ 0x7f ∷ 154 ∷ 129 ∷ []) ++ 0x7e ∷ [])).0
receive_burst_example =
    receive_burst fresh short_header (0x7e ∷ []) (1 ∷ 2 ∷ 0 ∷ 1 ∷ []) (129 ∷ []) 0x7e 155 0x7f 154
      fresh-IsShaped short_header-IsHeader (omega arith) refl short_body (omega arith) refl
      (λ e. omega (arith, e.0))
