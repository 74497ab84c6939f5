-- ===== src/Tests/Misses.antt =====
-- Packets that are lost, and what is counted.
use ndlcom.Prelude.{ℕ, ◌≡◌, refl, List, [], ◌∷◌, arith}
use ndlcom.Prelude.Integers.{negsuc, difference}
use ndlcom.Wire.{Header}
use ndlcom.HeaderPrepare.Counters.{Packet}
use ndlcom.MissEvents.{
  miss_events_init, is_miss, note_counter, print_handle, reset_miss_events, handle,
}
use ndlcom.MissEvents.Gaps.{gaps, gaps_from, counters_between, handle_headers, handle_headers-gaps}

abbrev counted : ℕ → Header
counted c = record { receiver_id = 9; sender_id = 2; counter = c; data_len = 0 }

-- From 2 to 9 the counters 254, 255, 0 and then 2.
abbrev one_lost : List Header
one_lost = counted 254 ∷ counted 255 ∷ counted 0 ∷ counted 2 ∷ []

handle_headers-gaps_example :
    (handle_headers miss_events_init one_lost).number_of_packet_miss_events 2 9 ≡ 1
unfolding gaps gaps_from counters_between
handle_headers-gaps_example = handle_headers-gaps one_lost 2 9 (omega arith) (
  (omega arith, omega arith),
  ((omega arith, omega arith), ((omega arith, omega arith), ((omega arith, omega arith), tt))),
)

abbrev to_nine : Packet
to_nine = record { memory = counted 0; receiver = 9; data_length = 0 }

-- One line for the lost packet; the difference is negative where the counter starts again.
printed :
    (print_handle (handle_headers miss_events_init (counted 254 ∷ [])) (counted 3) []).1
    ≡ (2, 9, negsuc 251) ∷ []
unfolding print_handle is_miss note_counter difference handle_headers handle miss_events_init
printed = refl

-- The pair stays known behind a reset: the next gap counts at once.
reset_keeps :
    (handle
        (reset_miss_events (handle_headers miss_events_init (counted 254 ∷ [])))
        (counted 3)).number_of_packet_miss_events
      2 9
    ≡ 1
unfolding reset_miss_events is_miss note_counter handle_headers handle miss_events_init
reset_keeps = refl
