-- ===== src/Tests/Nodes.antt =====
-- A node on its bridge.
use ndlcom.Prelude.{
  replicate, sym, length, ◌++◌, ℕ, ◌≡◌, refl, some, false, if◌then◌else◌, ◌==◌, List, [], ◌∷◌,
  arith,
}
use ndlcom.Prelude.Counts.{has, occurrences}
use ndlcom.Wire.{Header, little_endian}
use ndlcom.Encoder.Frame.{frame}
use ndlcom.HeaderPrepare.{header_prepare_init}
use ndlcom.HeaderPrepare.Counters.{packets_to, Packet}
use ndlcom.Routing.{all_interfaces, the_bridge, interface_at, get_destination, routing_table_init}
use ndlcom.ExternalInterface.{is_mirror}
use ndlcom.Bridge.{process_outgoing_message, mark_device_id_as_internal}
use ndlcom.Bridge.Recipients.{recipients}
use ndlcom.Bridge.Deliveries.{Sends}
use ndlcom.Bridge.Forwarding.{write_all}
use ndlcom.Bridge.Handling.{process_decoded_message, register_bridge_handler, check_bridge_handler}
use ndlcom.Bridge.Dispatch.{handle_all}
use mathlib.Core.Path.{subst}
use ndlcom.LinkedList.{IsDistinct}
use ndlcom.Bridge.{Callbacks}
use ndlcom.Bridge.Reading.{set_parser}
use ndlcom.Bridge.Reading.Packets.{dispatched-keeps}
use ndlcom.Bridge.Reading.Arrival.{process_external_interface-frame}
use ndlcom.Bridge.Reading.Internal.{KeepsInternal}
use ndlcom.Node.{Nodes}
use ndlcom.Node.{
  System, node_at, get_own_device_id, set_own_sender_id, node_register, node_deregister, node_send,
  set_node,
}
use ndlcom.Node.Delivery.{given_to_node, process_decoded_message-given_to_node}
use ndlcom.Node.Routes.{
  Reads, at_first, then_reads, node_register-no_forward, set_own_sender_id-get_destination,
}
use ndlcom.Node.Sending.{counted_on, node_send-frame}
use ndlcom.Node.Registration.{IsRegistered, IsReleased, node_deregister-node_register}
use ndlcom.Payload.{node_send_payload, outgoing_payload_init, node_send_payload-node_send}
use ndlcom.Tests.Addresses.{addresses, links}
use ndlcom.Tests.Office.{to_all}
use ndlcom.Tests.Lobby.{
  Log, lobby, lobby_calls, desk, reception, reception-IsPassive, reception_keeps,
  reception-RunsMessageHandler, reception-KeepsHandlers, desk-KeepsNodeHandlers,
  ten_eleven-IsDistinct,
}

process_decoded_message-given_to_node_example :
    process_decoded_message addresses lobby_calls reception little_endian 2 lobby to_all
      (7 ∷ [])
      (interface_at 0)
    ≡ some (
        given_to_node addresses desk reception 0 to_all (7 ∷ []) (some 0) (
          process_outgoing_message addresses lobby_calls little_endian lobby to_all
            (7 ∷ [])
            (interface_at 0)))
process_decoded_message-given_to_node_example =
    process_decoded_message-given_to_node addresses desk lobby_calls reception little_endian 2 4 3 0
      to_all (7 ∷ []) (interface_at 0) lobby reception-RunsMessageHandler
      (record { alone = refl; is_handler = refl; is_context = refl; no_flags = refl })
      reception-KeepsHandlers desk-KeepsNodeHandlers (λ g context bytes w. refl)
      ten_eleven-IsDistinct (omega arith) (omega arith)

-- The node before it registers.
abbrev alone_yet : System (List ℕ) Log
alone_yet = record lobby {
  bridge_handler_list = [];
  handlers = λ b. record { has_bridge = false; context = 0; flags = 0; handler = 3 };
}

node_deregister-node_register_example :
    (t : System (List ℕ) Log) × (node_register addresses alone_yet 0 ≡ some t)
    × IsRegistered addresses alone_yet 0 t
    × ((u : System (List ℕ) Log) × (node_deregister addresses t 0 ≡ some u)
        × IsReleased addresses alone_yet 0 u)
unfolding has routing_table_init header_prepare_init
node_deregister-node_register_example =
    node_deregister-node_register addresses alone_yet 0 refl refl (omega arith)

set_own_sender_id-get_destination_example :
    (t : System (List ℕ) Log) × (set_own_sender_id lobby 0 5 ≡ some t)
    × (get_own_device_id t 0 ≡ 5)
    × ((node_at t 0).header_config ≡ header_prepare_init 5)
    × ((other : ℕ)
        → get_destination t.routing_table other ≡ (
            if 5 == other
            then the_bridge
            else if 2 == other
            then all_interfaces
            else get_destination routing_table_init other))
unfolding routing_table_init header_prepare_init
set_own_sender_id-get_destination_example =
    set_own_sender_id-get_destination lobby 0 5 refl refl (omega arith) (omega arith)

abbrev to_two : Header
to_two = record { receiver_id = 2; sender_id = 9; counter = 0; data_len = 1 }

-- A message from outside with the node's own id as its sender.
abbrev from_two : Header
from_two = record { receiver_id = 9; sender_id = 2; counter = 0; data_len = 1 }

-- Behind the registration of the node.
abbrev arrived_at : System (List ℕ) Log
arrived_at = mark_device_id_as_internal (register_bridge_handler addresses alone_yet 6) 2

-- Every read gives the frame of this message.
abbrev hearing : Callbacks (Nodes (List ℕ) Log)
hearing = record {
  write_bytes = λ f context bytes w. record w { outside = w.outside ++ (context, bytes) ∷ [] };
  read_bytes = λ f context count w. (frame little_endian from_two (7 ∷ []), w);
}

reception-KeepsInternal : KeepsInternal addresses hearing reception little_endian 2
reception-KeepsInternal f context h payload origin s inside =
    subst (λ r. (length r ≡ 256) × (get_destination r 2 ≡ the_bridge))
      (sym (reception_keeps (λ u. u.routing_table) (λ u w. refl) f context h payload origin s))
      inside

arrived_at-IsDistinct : IsDistinct (addresses.entries arrived_at.bridge_handler_list)
unfolding register_bridge_handler check_bridge_handler has mark_device_id_as_internal occurrences
arrived_at-IsDistinct b = ground arith

-- Behind one read of interface 1.
heard :
    (u : System (List ℕ) Log) × Reads addresses hearing reception little_endian arrived_at u
    × (is_mirror (u.interfaces 1) ≡ false)
unfolding links ndlcom.Tests.Addresses.behind ndlcom.Tests.Addresses.first_of is_mirror set_parser
    register_bridge_handler check_bridge_handler has mark_device_id_as_internal
heard =
    let (q, delivered, same, ran) =
      process_external_interface-frame addresses hearing reception little_endian 4 2 arrived_at 1
        from_two (7 ∷ []) reception-IsPassive arrived_at-IsDistinct (omega arith) refl
        (record { raw_size = refl; payload_size = refl; raw_bytes = omega arith }) (omega arith)
        (omega arith) refl (omega arith) refl in
    (
      _,
      then_reads 4 2 1 _ arrived_at _ at_first ran,
      rw
          (dispatched-keeps addresses hearing reception little_endian (λ v. v.interfaces)
            reception-IsPassive.keeps_interfaces (λ v w. refl) (λ v r. refl)
            (set_parser arrived_at 1 q) 1 from_two (7 ∷ []))
          refl,
    )

node_register-no_forward_example :
    Sends addresses hearing
      (heard.0)
      (frame little_endian to_two (7 ∷ []))
      (recipients addresses (heard.0) 2 (interface_at 0))
      (process_outgoing_message addresses hearing little_endian
        (heard.0)
        to_two
        (7 ∷ [])
        (interface_at 0))
    × (occurrences 1 (recipients addresses (heard.0) 2 (interface_at 0)) ≡ 0)
unfolding node_register register_bridge_handler check_bridge_handler has routing_table_init
    header_prepare_init mark_device_id_as_internal
node_register-no_forward_example =
    node_register-no_forward addresses hearing reception little_endian alone_yet arrived_at
      (heard.0) 0 to_two (7 ∷ []) (interface_at 0) 1 refl (omega arith) refl reception-KeepsInternal
      (heard.1) refl (omega arith) refl (heard.2) (λ e. ground arith)

abbrev first_packet : Packet
first_packet = record { memory = to_two; receiver = 9; data_length = 1 }

abbrev second_packet : Packet
second_packet = record { memory = to_all; receiver = 9; data_length = 1 }

-- The node of the lobby has sent one packet to the device 9.
abbrev busy : System (List ℕ) Log
busy = counted_on lobby 0 2 (first_packet ∷ [])

node_send-frame_example :
    (let t = counted_on busy 0 2 (first_packet ∷ second_packet ∷ []) in
      let h : Header = record { receiver_id = 9; sender_id = 2; counter = 1; data_len = 1 } in
      node_send addresses lobby_calls reception little_endian 2 busy 0 to_all 9
        (replicate 257 7)
        257
      ≡ some (
          handle_all addresses reception (6 ∷ []) h (7 ∷ []) the_bridge (record t {
            world =
                (write_all lobby_calls
                  (recipients addresses t 9 the_bridge)
                  (frame little_endian h (7 ∷ []))
                  t).world;
          })))
unfolding set_node packets_to occurrences
node_send-frame_example =
    node_send-frame addresses lobby_calls reception little_endian 2 busy 0 2 (first_packet ∷ [])
      to_all 9 (replicate 257 7) 257 refl refl (omega arith, tt) (omega arith) (omega arith)
      reception-KeepsHandlers (λ a. ground arith) (omega arith)

node_send_payload-node_send_example :
    node_send_payload addresses lobby_calls reception little_endian 2 lobby 0 to_all
      (outgoing_payload_init 9 (replicate 257 7) 257)
    ≡ node_send addresses lobby_calls reception little_endian 2 lobby 0 to_all 9
        (replicate 257 7)
        257
node_send_payload-node_send_example =
    node_send_payload-node_send addresses lobby_calls reception little_endian 2 0 9 257 lobby to_all
      (replicate 257 7) (omega arith)
