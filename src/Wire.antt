-- ===== src/Wire.antt =====
-- include/ndlcom/Types.h: the header of a packet, the reserved bytes of the stream and the sizes, at
-- the defaults of NDLCOM_MAX_NUMBER_OF_DEVICES and NDLCOM_MAX_PAYLOAD_SIZE. `NDLComId`,
-- `NDLComCounter` and `NDLComDataLen` are `uint8_t`: numbers below 256.
use ndlcom.Prelude.{ℕ, ◌+◌, ◌-◌, ◌*◌, ◌^◌, ◌<◌, List, [], ◌∷◌, get_or, All}
use ndlcom.Crc.{IsByte}

pub record Header : Type 0 where
  pub receiver_id : ℕ
  pub sender_id : ℕ
  pub counter : ℕ
  pub data_len : ℕ

pub record IsHeader (h : Header) : Type 0 where
  pub receiver_byte : h.receiver_id < 256
  pub sender_byte : h.sender_id < 256
  pub counter_byte : h.counter < 256
  pub data_len_byte : h.data_len < 256

abbrev pub esc_char : ℕ
esc_char = 0x7d

abbrev pub start_stop_flag : ℕ
start_stop_flag = 0x7e

abbrev pub addr_broadcast : ℕ
addr_broadcast = 0xff

-- `1 << (sizeof(NDLComId) * 8)`
abbrev pub max_number_of_devices : ℕ
max_number_of_devices = 2 ^ 8

-- `(1 << (sizeof(NDLComDataLen) * 8)) - 1`
abbrev pub max_payload_size : ℕ
max_payload_size = 2 ^ 8 - 1

-- `sizeof(struct NDLComHeader)` of the packed struct, and `sizeof(NDLComCrc)`.
abbrev pub header_size : ℕ
header_size = 4

abbrev pub crc_size : ℕ
crc_size = 2

abbrev pub max_decoded_message_size : ℕ
max_decoded_message_size = header_size + max_payload_size + crc_size

abbrev pub max_decoded_message_size_for_packet : Header → ℕ
max_decoded_message_size_for_packet h = header_size + h.data_len + crc_size

abbrev pub max_encoded_message_size : ℕ
max_encoded_message_size = 2 + 2 * max_decoded_message_size

abbrev pub max_encoded_message_size_for_packet : Header → ℕ
max_encoded_message_size_for_packet h = 2 + 2 * max_decoded_message_size_for_packet h

-- The packed struct as memory, and the union of the parser read back as a struct.
abbrev pub header_bytes : Header → List ℕ
header_bytes h = h.receiver_id ∷ h.sender_id ∷ h.counter ∷ h.data_len ∷ []

abbrev pub header_of_raw : List ℕ → Header
header_of_raw raw = record {
  receiver_id = get_or raw 0 0;
  sender_id = get_or raw 1 0;
  counter = get_or raw 2 0;
  data_len = get_or raw 3 0;
}

pub header_bytes-IsByte : (h : Header) → IsHeader h → All IsByte (header_bytes h)
header_bytes-IsByte h v =
    (v.receiver_byte, (v.sender_byte, (v.counter_byte, (v.data_len_byte, tt))))

-- The order of the two bytes of a `uint16_t` in memory.
pub data ByteOrder : Type 0 where
  little_endian big_endian : ByteOrder
