-- ===== src/MissEvents.antt =====
-- The classes BridgeMissEvents and BridgePrintMissEvents of src/BridgeHandler.cpp and
-- include/ndlcom/BridgeHandler.hpp, which count lost packets. A matrix is a function of its two
-- indices, a bit set a function of its index; a line that is written to the stream is given by the
-- values in it.
pub mod Gaps
pub mod Losses
use ndlcom.Prelude.{
  ℕ, ◌+◌, ◌*◌, ◌%◌, ◌^◌, Bool, true, false, not, ◌&&◌, ◌||◌, ◌==◌, ltb, leb, bit_or, List, [], ◌∷◌,
  ◌++◌, if◌then◌else◌,
}
use ndlcom.Prelude.Integers.{ℤ, pos, is_zero, difference}
use ndlcom.Wire.{Header, addr_broadcast, max_number_of_devices}

pub record MissEvents : Type 0 where
  pub number_of_packet_miss_events : ℕ → ℕ → ℕ
  pub expected_next_packet_counter : ℕ → ℕ → ℕ
  pub already_seen : ℕ → Bool

-- The constructor.
unfoldable pub miss_events_init : MissEvents
miss_events_init = record {
  number_of_packet_miss_events = λ a b. 0;
  expected_next_packet_counter = λ a b. 0;
  already_seen = λ i. false;
}

unfoldable pub reset_miss_events : MissEvents → MissEvents
reset_miss_events m = record m { number_of_packet_miss_events = λ a b. 0 }

-- The index of the bit set.
abbrev pub pair_index : ℕ → ℕ → ℕ
pair_index sender receiver = bit_or (sender * 2 ^ 8) receiver

-- `matrix[sender][receiver] = value`
abbrev pub set_entry : (ℕ → ℕ → ℕ) → ℕ → ℕ → ℕ → ℕ → ℕ → ℕ
set_entry matrix sender receiver value a b =
    if (a == sender) && (b == receiver) then value else matrix a b

-- The branch on whether the pair was seen before, with what is returned.
unfoldable pub note_counter : MissEvents → Header → MissEvents × ℤ
note_counter m header =
    let s = header.sender_id in
    let r = header.receiver_id in
    let expected = m.expected_next_packet_counter s r in
    if not (m.already_seen (pair_index s r))
    then (
      record m { already_seen = λ i. (if i == pair_index s r then true else m.already_seen i) },
      pos 0,
    )
    else (if not (expected == header.counter)
        then (
          record m {
            number_of_packet_miss_events =
                set_entry m.number_of_packet_miss_events s r
                  ((m.number_of_packet_miss_events s r + 1) % 2 ^ 32);
          },
          difference header.counter expected,
        )
        else (m, pos 0))

unfoldable pub is_miss : MissEvents → Header → MissEvents × ℤ
is_miss m header =
    let s = header.sender_id in
    let r = header.receiver_id in
    if s == addr_broadcast
    then (m, pos 0)
    else (if ltb max_number_of_devices 255
          && (leb max_number_of_devices s || leb max_number_of_devices r)
        then (m, pos 0)
        else (
          record ((note_counter m header).0) {
            expected_next_packet_counter =
                set_entry m.expected_next_packet_counter s r ((header.counter + 1) % 2 ^ 8);
          },
          (note_counter m header).1,
        ))

unfoldable pub handle : MissEvents → Header → MissEvents
handle m header = (is_miss m header).0

-- The stream with a line for a miss: the sender, the receiver and the difference.
unfoldable pub print_handle : MissEvents → Header → List (ℕ × ℕ × ℤ) → MissEvents × List (ℕ × ℕ × ℤ)
print_handle m header out =
    let (seen, diff) = is_miss m header in
    (seen, if is_zero diff then out else out ++ (header.sender_id, header.receiver_id, diff) ∷ [])
