-- ===== src/Parser.antt =====
-- src/Parser.c and the declarations of include/ndlcom/Parser.h, for NDLCOM_CRC16. The struct is a
-- record; a write pointer is the index that it points to within its array. A function that changes
-- `*parser` returns the new record.
pub mod Invariant
pub mod Feed
pub mod Run
pub mod Progress
pub mod Sizes
pub mod Unescaping
pub mod Frames
pub mod RoundTrip
pub mod Detection
pub mod Streams
pub mod Traces
use ndlcom.Prelude.{
  ℕ, zero, suc, ◌+◌, ◌%◌, ◌^◌, ◌<◌, Bool, true, false, Option, none, some, List, [], ◌∷◌, bit_xor,
  ltb, ◌==◌, if◌then◌else◌, set,
}
use mathlib.Core.Option
use Prim.Native.String.{String}
use ndlcom.Crc.{do_crc, crc_initial_value, crc_real_good_value}
use ndlcom.Wire.{Header, header_of_raw, header_size, esc_char, start_stop_flag, max_payload_size}

pub data ParserState : Type 0 where
  mc_error mc_wait_header mc_wait_data : ParserState
  mc_wait_first_crc_byte mc_wait_second_crc_byte mc_complete : ParserState
  mc_number_of_states : ParserState

pub record Parser : Type 0 where
  pub raw : List ℕ
  pub data_crc : ℕ
  pub last_was_esc : Bool
  pub header_write_pos : ℕ
  pub payload : List ℕ
  pub data_write_pos : ℕ
  pub state : ParserState
  pub number_of_crc_fails : ℕ

abbrev pub header_of : Parser → Header
header_of p = header_of_raw p.raw

unfoldable pub destroy_packet : Parser → Parser
destroy_packet p = record p {
  state = mc_wait_header;
  data_crc = crc_initial_value;
  header_write_pos = 0;
  data_write_pos = 0;
  last_was_esc = false;
}

unfoldable pub reset_number_of_crc_fails : Parser → Parser
reset_number_of_crc_fails p = record p { number_of_crc_fails = 0 }

-- `memory` is what the buffer holds, `none` for a null pointer; `sizeof_parser` is
-- `sizeof(struct NDLComParser)`, which the compiler chooses.
unfoldable pub parser_create : ℕ → Option Parser → ℕ → Option Parser
parser_create sizeof_parser none buf_size = none
parser_create sizeof_parser (some memory) buf_size =
    if ltb buf_size sizeof_parser
    then none
    else some (reset_number_of_crc_fails (destroy_packet memory))

unfoldable pub parser_destroy : Parser → Parser
parser_destroy p = record p { state = mc_error }

-- How one round of the loop of `ndlcomParserReceive` ends: on to the next byte, by
-- `return dataRead`, or by `return 0`.
pub data Round : Type 0 where
  next returns refuses : Parser → Round

-- `parser->mNumberOfCRCFails++; ndlcomParserDestroyPacket(parser)`
unfoldable pub fail_crc : Parser → Parser
fail_crc p =
    destroy_packet (record p { number_of_crc_fails = (p.number_of_crc_fails + 1) % 2 ^ 32 })

-- `case mcWAIT_HEADER`
unfoldable pub take_header_byte : Parser → ℕ → Parser
take_header_byte p c =
    let raw = set p.raw p.header_write_pos c in
    let q : Parser = record p {
      raw = raw;
      header_write_pos = p.header_write_pos + 1;
      data_crc = do_crc p.data_crc c;
    } in
    let len = (header_of_raw raw).data_len in
    if p.header_write_pos + 1 == header_size
    then (if ltb max_payload_size len
        then record q { state = mc_error }
        else (if len == 0
            then record q { state = mc_wait_first_crc_byte }
            else record q { state = mc_wait_data }))
    else q

-- `case mcWAIT_DATA`
unfoldable pub take_data_byte : Parser → ℕ → Parser
take_data_byte p c =
    let q : Parser = record p {
      payload = set p.payload p.data_write_pos c;
      data_write_pos = p.data_write_pos + 1;
      data_crc = do_crc p.data_crc c;
    } in
    if p.data_write_pos + 1 == (header_of p).data_len
    then record q { state = mc_wait_first_crc_byte }
    else q

-- `case mcWAIT_FIRST_CRC_BYTE`
unfoldable pub take_first_crc_byte : Parser → ℕ → Parser
take_first_crc_byte p c = record p {
  data_crc = do_crc p.data_crc c;
  state = mc_wait_second_crc_byte;
}

-- `case mcWAIT_SECOND_CRC_BYTE`
unfoldable pub take_second_crc_byte : Parser → ℕ → Parser
take_second_crc_byte p c =
    let q : Parser = record p { data_crc = do_crc p.data_crc c } in
    if q.data_crc == crc_real_good_value then record q { state = mc_complete } else fail_crc q

abbrev pub is_complete : ParserState → Bool
is_complete mc_complete = true
is_complete _ = false

-- `if (parser->mState == mcCOMPLETE) return dataRead;`
unfoldable pub after_switch : Parser → Round
after_switch p = if is_complete p.state then returns p else next p

-- The `switch`, on the state that it tests.
unfoldable pub switch_on : ParserState → Parser → ℕ → Round
switch_on mc_wait_header p c = after_switch (take_header_byte p c)
switch_on mc_wait_data p c = after_switch (take_data_byte p c)
switch_on mc_wait_first_crc_byte p c = after_switch (take_first_crc_byte p c)
switch_on mc_wait_second_crc_byte p c = after_switch (take_second_crc_byte p c)
switch_on mc_complete p c = refuses p
switch_on mc_error p c = after_switch (destroy_packet p)
switch_on mc_number_of_states p c = after_switch (destroy_packet p)

abbrev pub switch : Parser → ℕ → Round
switch p c = switch_on p.state p c

-- One round of the loop.
unfoldable pub receive_byte : Parser → ℕ → Round
receive_byte p c =
    if c == start_stop_flag
    then next (destroy_packet p)
    else (if p.last_was_esc
        then switch (record p { last_was_esc = false }) (bit_xor c 0x20)
        else (if c == esc_char then next (record p { last_was_esc = true }) else switch p c))

-- The loop, with the bytes read so far.
unfoldable pub receive_from : Parser → List ℕ → ℕ → Parser × ℕ
receive_from p [] bytes_read = (p, bytes_read)
receive_from p (c ∷ rest) bytes_read = elim (receive_byte p c) [
  | next q ↦ receive_from q rest (bytes_read + 1)
  | returns q ↦ (q, bytes_read + 1)
  | refuses q ↦ (q, 0)
]

unfoldable pub receive : Parser → List ℕ → Parser × ℕ
receive p bytes = receive_from p bytes 0

unfoldable pub has_packet : Parser → Bool
has_packet p = is_complete p.state

unfoldable pub get_header : Parser → Option Header
get_header p = if is_complete p.state then some (header_of p) else none

-- The array that the returned pointer shows; the header says how much of it is the packet.
unfoldable pub get_packet : Parser → Option (List ℕ)
get_packet p = if is_complete p.state then some p.payload else none

-- `ndlcomParserStateName[parser->mState]`; the entry of `mcNUMBER_OF_STATES` is null.
unfoldable pub get_state : Parser → Option String
get_state p = state_name p.state
  where
    state_name : ParserState → Option String
    state_name mc_error = some "ERROR"
    state_name mc_wait_header = some "WAIT_HEADER"
    state_name mc_wait_data = some "WAIT_DATA"
    state_name mc_wait_first_crc_byte = some "WAIT_FIRST_CRC_BYTE"
    state_name mc_wait_second_crc_byte = some "WAIT_SECOND_CRC_BYTE"
    state_name mc_complete = some "COMPLETE"
    state_name mc_number_of_states = none

unfoldable pub get_number_of_crc_fails : Parser → ℕ
get_number_of_crc_fails p = p.number_of_crc_fails

unfoldable pub detect_new_packet : ℕ → Bool
detect_new_packet c = c == start_stop_flag
