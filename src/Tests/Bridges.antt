-- ===== src/Tests/Bridges.antt =====
-- What a bridge sends, and to whom.
use ndlcom.Prelude.{some, ℕ, ◌≡◌, refl, false, List, [], ◌∷◌, arith}
use ndlcom.Prelude.Counts.{occurrences, keep}
use ndlcom.Wire.{little_endian}
use ndlcom.Encoder.Frame.{frame}
use ndlcom.Routing.{interface_at, get_destination, routing_table_init, routing_table_update}
use ndlcom.Tests.Office.{logging, interface, office, to_all, to_nine, four_five-IsDistinct, noting}
use ndlcom.Tests.Addresses.{addresses}
use ndlcom.ExternalInterface.{is_mirror}
use ndlcom.Bridge.{Bridge, Callbacks, bridge_init, process_outgoing_message}
use ndlcom.Bridge.Recipients.{recipients}
use ndlcom.Bridge.Forwarding.{write_all, process_outgoing_message-recipients}
use ndlcom.Bridge.Deliveries.{
  Sends, process_outgoing_message-no_echo, process_outgoing_message-mirror,
}
use ndlcom.Bridge.Handling.{process_decoded_message}
use ndlcom.Bridge.Dispatch.{handle_all, process_decoded_message-handle_all}
use ndlcom.Bridge.Registration.{
  IsSound, registers, deregisters, routes, adds_route, marks_internal, call_all, AreAllowed,
  call_all-IsSound,
}

broadcast_runs : recipients addresses office 255 (interface_at 0) ≡ 2 ∷ 1 ∷ []
unfolding recipients keep is_mirror get_destination routing_table_init routing_table_update
broadcast_runs = refl

process_outgoing_message-recipients_example :
    process_outgoing_message addresses logging little_endian office to_all (7 ∷ []) (interface_at 0)
    ≡ record office {
      world =
          (2, frame little_endian to_all (7 ∷ [])) ∷ (1, frame little_endian to_all (7 ∷ [])) ∷ [];
    }
unfolding write_all recipients keep is_mirror get_destination routing_table_init
    routing_table_update ndlcom.Bridge.write_interface
process_outgoing_message-recipients_example =
    process_outgoing_message-recipients addresses logging little_endian office to_all (7 ∷ [])
      (interface_at 0) (omega arith) refl

process_outgoing_message-no_echo_example :
    Sends addresses logging office
      (frame little_endian to_all (7 ∷ []))
      (recipients addresses office 255 (interface_at 0))
      (process_outgoing_message addresses logging little_endian office to_all
        (7 ∷ [])
        (interface_at 0))
    × (occurrences 0 (recipients addresses office 255 (interface_at 0)) ≡ 0)
process_outgoing_message-no_echo_example =
    process_outgoing_message-no_echo addresses logging little_endian office to_all (7 ∷ []) 0
      (omega arith) refl

process_outgoing_message-mirror_example :
    Sends addresses logging office
      (frame little_endian to_nine (7 ∷ []))
      (recipients addresses office 9 (interface_at 0))
      (process_outgoing_message addresses logging little_endian office to_nine
        (7 ∷ [])
        (interface_at 0))
    × (occurrences 2 (recipients addresses office 9 (interface_at 0)) ≡ 1)
unfolding occurrences is_mirror get_destination routing_table_init routing_table_update
process_outgoing_message-mirror_example =
    process_outgoing_message-mirror addresses logging little_endian office to_nine (7 ∷ [])
      (interface_at 0) 2 (omega arith) refl refl (λ e. ground arith)

abbrev unconnected : Bridge (List ℕ) (List (ℕ × List ℕ))
unconnected = record office { interfaces = λ a. record (interface a) { has_bridge = false } }

call_all-IsSound_example : IsSound addresses (
    call_all addresses (bridge_init addresses unconnected) (
      registers 1
      ∷ routes 1 9
      ∷ adds_route 4 1
      ∷ registers 0
      ∷ marks_internal 3
      ∷ deregisters 1
      ∷ []))
unfolding AreAllowed ndlcom.Prelude.Counts.has ndlcom.Bridge.Registration.call
    ndlcom.Bridge.set_routing_for_device_id ndlcom.Bridge.register_external_interface
    ndlcom.Bridge.check_external_interface bridge_init ndlcom.Bridge.set_bridge
    ndlcom.Bridge.add_routing_information
call_all-IsSound_example =
    call_all-IsSound addresses unconnected
      (registers 1
        ∷ routes 1 9
        ∷ adds_route 4 1
        ∷ registers 0
        ∷ marks_internal 3
        ∷ deregisters 1
        ∷ [])
      (λ a. refl) (tt, (omega arith, ((omega arith, refl), (tt, (omega arith, (tt, tt))))))

process_decoded_message-handle_all_example :
    process_decoded_message addresses logging noting little_endian 3 office to_all
      (7 ∷ [])
      (interface_at 0)
    ≡ some (
        handle_all addresses noting (4 ∷ 5 ∷ []) to_all (7 ∷ []) (interface_at 0) (
          process_outgoing_message addresses logging little_endian office to_all
            (7 ∷ [])
            (interface_at 0)))
process_decoded_message-handle_all_example =
    process_decoded_message-handle_all addresses logging noting little_endian 3 office to_all
      (7 ∷ []) (interface_at 0) (λ f context h payload origin s. refl) four_five-IsDistinct
      (omega arith)
