-- ===== src/Bridge.antt =====
-- src/Bridge.c and include/ndlcom/Bridge.h: the bridge, what it forwards, and what registers with it.
-- One bridge with its interfaces in memory; a function that changes them returns the new memory.
pub mod Recipients
pub mod Forwarding
pub mod Deliveries
pub mod Registration
pub mod Handling
pub mod Dispatch
pub mod Reading
use ndlcom.Prelude.{
  ℕ, Bool, true, false, not, ◌&&◌, List, [], ◌∷◌, bit_and, ◌==◌, if◌then◌else◌, take,
}
use ndlcom.Prelude.Counts.{has}
use ndlcom.Wire.{Header, ByteOrder, max_encoded_message_size_for_packet}
use ndlcom.Encoder.{encode}
use ndlcom.Routing.{
  Destination, all_interfaces, the_bridge, interface_at, same_destination, RoutingTable,
  routing_table_init, get_destination, routing_table_update, invalidate_interface,
}
use ndlcom.LinkedList.{LinkedList}
use ndlcom.BridgeHandler.{BridgeHandler}
use ndlcom.ExternalInterface.{ExternalInterface, is_mirror}

-- The `write` and `read` callbacks: the function at an address, called with a context and with the
-- bytes or the size of the buffer, changes the world outside the bridge; a read gives the bytes that
-- it stored.
pub record Callbacks (W : Type 0) : Type 0 where
  pub write_bytes : ℕ → ℕ → List ℕ → W → W
  pub read_bytes : ℕ → ℕ → ℕ → W → List ℕ × W

-- `struct NDLComBridge`, the structs of the interfaces and of the handlers by their address, and the world outside.
pub record Bridge (L W : Type 0) : Type 0 where
  pub routing_table : RoutingTable
  pub bridge_handler_list : L
  pub external_interface_list : L
  pub flags : ℕ
  pub interfaces : ℕ → ExternalInterface
  pub handlers : ℕ → BridgeHandler
  pub world : W

abbrev pub flags_forwarding_enabled : ℕ
flags_forwarding_enabled = 0x01

module _ {L W : Type 0} (list : LinkedList L) where
  unfoldable pub bridge_init : Bridge L W → Bridge L W
  bridge_init s = record s {
    bridge_handler_list = list.init_list_head s.bridge_handler_list;
    external_interface_list = list.init_list_head s.external_interface_list;
    routing_table = routing_table_init;
    flags = flags_forwarding_enabled;
  }

  unfoldable pub check_external_interface : Bridge L W → ℕ → Bool
  check_external_interface s a = has a (list.entries s.external_interface_list)

  -- `externalInterface->bridge = …`
  unfoldable pub set_bridge : Bridge L W → ℕ → Bool → Bridge L W
  set_bridge s a connected = record s {
    interfaces = λ b.
        (if b == a then record (s.interfaces b) { has_bridge = connected } else s.interfaces b);
  }

  unfoldable pub register_external_interface : Bridge L W → ℕ → Bridge L W
  register_external_interface s a =
      if check_external_interface s a
      then s
      else set_bridge
          (record s { external_interface_list = list.list_add a s.external_interface_list }) a true

  unfoldable pub deregister_external_interface : Bridge L W → ℕ → Bridge L W
  deregister_external_interface s a =
      if not (check_external_interface s a)
      then s
      else set_bridge
          (record s {
            routing_table = invalidate_interface s.routing_table (interface_at a);
            external_interface_list = list.list_del_init a s.external_interface_list;
          })
          a false

module _ {L W : Type 0} where
  unfoldable pub bridge_set_flags : Bridge L W → ℕ → Bridge L W
  bridge_set_flags s flags = record s { flags = flags }

  unfoldable pub add_routing_information : Bridge L W → ℕ → ℕ → Bridge L W
  add_routing_information s id a = record s {
    routing_table = routing_table_update s.routing_table id (interface_at a);
  }

  unfoldable pub mark_device_id_as_internal : Bridge L W → ℕ → Bridge L W
  mark_device_id_as_internal s id = record s {
    routing_table = routing_table_update s.routing_table id the_bridge;
  }

  unfoldable pub clear_internal_device_id : Bridge L W → ℕ → Bridge L W
  clear_internal_device_id s id = record s {
    routing_table = routing_table_update s.routing_table id all_interfaces;
  }

  -- `ndlcomExternalInterfaceSetRoutingForDeviceId` of src/ExternalInterface.c.
  unfoldable pub set_routing_for_device_id : Bridge L W → ℕ → ℕ → Bridge L W
  set_routing_for_device_id s a id =
      if not (s.interfaces a).has_bridge then s else add_routing_information s id a

  -- The condition of the early return.
  abbrev pub forwarding_suppressed : Bridge L W → Destination → Destination → Bool
  forwarding_suppressed s origin destination =
      (bit_and s.flags flags_forwarding_enabled == 0)
      && not (same_destination origin the_bridge)
      && not (same_destination destination the_bridge)

module _ {L W : Type 0} (callbacks : Callbacks W) where
  unfoldable pub write_interface : List ℕ → Bridge L W → ℕ → Bridge L W
  write_interface bytes s a =
      let i = s.interfaces a in
      record s { world = callbacks.write_bytes i.write i.context bytes s.world }

  -- The loop over the mirrors.
  unfoldable pub write_mirrors : List ℕ → Destination → List ℕ → Bridge L W → Bridge L W
  write_mirrors [] origin bytes s = s
  write_mirrors (a ∷ rest) origin bytes s = write_mirrors rest origin bytes (
      if not (same_destination origin (interface_at a))
      then (if is_mirror (s.interfaces a) then write_interface bytes s a else s)
      else s)

  -- The loop over the other interfaces.
  unfoldable pub write_others : List ℕ → Destination → List ℕ → Bridge L W → Bridge L W
  write_others [] origin bytes s = s
  write_others (a ∷ rest) origin bytes s = write_others rest origin bytes (
      if not (same_destination origin (interface_at a))
      then (if not (is_mirror (s.interfaces a)) then write_interface bytes s a else s)
      else s)

module _ {L W : Type 0} (list : LinkedList L) (callbacks : Callbacks W) where
  -- Both cases behind the check of the forwarding flag.
  unfoldable pub write_destination : Destination → Destination → List ℕ → Bridge L W → Bridge L W
  write_destination all_interfaces origin bytes s =
      write_others callbacks (list.entries s.external_interface_list) origin bytes s
  write_destination the_bridge origin bytes s = s
  write_destination (interface_at a) origin bytes s =
      if same_destination (interface_at a) origin then s else write_interface callbacks bytes s a

  unfoldable pub process_outgoing_message :
      ByteOrder → Bridge L W → Header → List ℕ → Destination → Bridge L W
  process_outgoing_message order s header payload origin =
      let destination = get_destination s.routing_table header.receiver_id in
      let encoded = encode order (max_encoded_message_size_for_packet header) header payload in
      let bytes = take encoded.wrote encoded.buffer in
      let mirrored =
        write_mirrors callbacks (list.entries s.external_interface_list) origin bytes s in
      if forwarding_suppressed s origin destination
      then mirrored
      else write_destination destination origin bytes mirrored
