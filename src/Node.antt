-- ===== src/Node.antt =====
-- src/Node.c and include/ndlcom/Node.h. The nodes and their handlers stand in the world outside of the
-- bridge; `none` stands for a call through the null pointer, where a node has no bridge, and for a loop
-- that needs more rounds than it has.
pub mod Filtering
pub mod Delivery
pub mod Arrival
pub mod Routes
pub mod Sending
pub mod Registration
pub mod Handlers
use ndlcom.Prelude.{
  ℕ, zero, suc, ◌%◌, ◌^◌, Bool, true, false, not, ◌&&◌, ◌||◌, ◌==◌, Option, none, some, List,
  bit_and, if◌then◌else◌, take,
}
use ndlcom.Wire.{Header, ByteOrder, addr_broadcast}
use ndlcom.HeaderPrepare.{HeaderConfig, header_prepare_init, header_prepare}
use ndlcom.LinkedList.{LinkedList, Cursor, head, node}
use ndlcom.BridgeHandler.{init}
use ndlcom.NodeHandler.{NodeHandler, flags_no_messages_from_internal}
use ndlcom.Bridge.{Bridge, Callbacks, mark_device_id_as_internal, clear_internal_device_id}
use ndlcom.Bridge.Handling.{
  HandlerCallbacks, register_bridge_handler, deregister_bridge_handler, send_raw,
}

-- `struct NDLComNode`, with the address of its `bridgeHandler`.
pub record Node (L : Type 0) : Type 0 where
  pub header_config : HeaderConfig
  pub node_handler_list : L
  pub bridge_handler : ℕ

-- The nodes and the handlers of nodes by their address, and what is outside of them.
pub record Nodes (L V : Type 0) : Type 0 where
  pub nodes : ℕ → Node L
  pub node_handlers : ℕ → NodeHandler
  pub outside : V

abbrev pub System : Type 0 → Type 0 → Type 0
System L V = Bridge L (Nodes L V)

-- The handler callbacks of a node, in the manner of `HandlerCallbacks`.
pub record NodeCallbacks (L V : Type 0) : Type 0 where
  pub handle_node : ℕ → ℕ → Header → List ℕ → Option ℕ → System L V → System L V

module _ {L V : Type 0} where
  abbrev pub node_at : System L V → ℕ → Node L
  node_at s n = s.world.nodes n

  abbrev pub own_id : System L V → ℕ → ℕ
  own_id s n = (node_at s n).header_config.own_sender_id

  -- `*node = …`
  unfoldable pub set_node : System L V → ℕ → Node L → System L V
  set_node s n x = record s {
    world = record (s.world) { nodes = λ m. (if m == n then x else s.world.nodes m) };
  }

  -- `nodeHandler->node = …`
  unfoldable pub set_node_pointer : System L V → ℕ → Option ℕ → System L V
  set_node_pointer s a pointer = record s {
    world = record (s.world) {
      node_handlers = λ b.
          (if b == a
            then record (s.world.node_handlers b) { node_pointer = pointer }
            else s.world.node_handlers b);
    };
  }

  -- `node->bridgeHandler.bridge` is not null.
  abbrev pub has_bridge : System L V → ℕ → Bool
  has_bridge s n = (s.handlers (node_at s n).bridge_handler).has_bridge

  unfoldable pub set_own_sender_id : System L V → ℕ → ℕ → Option (System L V)
  set_own_sender_id s n own_sender_id =
      if has_bridge s n
      then (let cleared = clear_internal_device_id s (own_id s n) in
          let named : System L V =
            set_node cleared n
              (record (node_at cleared n) { header_config = header_prepare_init own_sender_id }) in
          some (mark_device_id_as_internal named (own_id named n)))
      else none

  unfoldable pub get_own_device_id : System L V → ℕ → ℕ
  get_own_device_id s n = own_id s n

module _ {L V : Type 0} (list : LinkedList L) where
  -- `message_handler_address` is the address of `ndlcomNodeMessageHandler`.
  unfoldable pub node_init : ℕ → System L V → ℕ → ℕ → System L V
  node_init message_handler_address s n own_sender_id =
      let x = node_at s n in
      let y : Node L = record x {
        node_handler_list = list.init_list_head x.node_handler_list;
        header_config = header_prepare_init own_sender_id;
      } in
      let t = set_node s n y in
      record t {
        handlers =
            λ b. (if b == x.bridge_handler then init message_handler_address 0 n else s.handlers b);
      }

  unfoldable pub node_register : System L V → ℕ → Option (System L V)
  node_register s n =
      let t = register_bridge_handler list s (node_at s n).bridge_handler in
      if has_bridge t n then some (mark_device_id_as_internal t (own_id t n)) else none

  unfoldable pub node_deregister : System L V → ℕ → Option (System L V)
  node_deregister s n =
      if has_bridge s n
      then some (
          deregister_bridge_handler list (clear_internal_device_id s (own_id s n))
            (node_at s n).bridge_handler)
      else none

  unfoldable pub register_node_handler : System L V → ℕ → ℕ → System L V
  register_node_handler s n a =
      let x = node_at s n in
      set_node_pointer
        (set_node s n (record x { node_handler_list = list.list_add a x.node_handler_list })) a
        (some n)

  unfoldable pub deregister_node_handler : System L V → ℕ → ℕ → System L V
  deregister_node_handler s n a =
      let x = node_at s n in
      set_node_pointer
        (set_node s n (record x { node_handler_list = list.list_del_init a x.node_handler_list })) a
        none

abbrev pub is_null : Option ℕ → Bool
is_null none = true
is_null (some a) = false

-- The handler opts out of messages from the inside.
abbrev pub node_skips : NodeHandler → Option ℕ → Bool
node_skips h origin = is_null origin && not (bit_and h.flags flags_no_messages_from_internal == 0)

abbrev pub is_for : ℕ → Header → Bool
is_for own header = (header.receiver_id == own) || (header.receiver_id == addr_broadcast)

module _ {L V : Type 0} (list : LinkedList L) (calls : NodeCallbacks L V) where
  unfoldable pub call_node_handler : ℕ → Header → List ℕ → Option ℕ → System L V → System L V
  call_node_handler a header payload origin s =
      let h = s.world.node_handlers a in
      calls.handle_node h.handler h.context header payload origin s

  -- The loop over the handlers of a node, for at most this many rounds.
  unfoldable pub node_handler_loop :
      ℕ → Cursor → ℕ → Header → List ℕ → Option ℕ → System L V → Option (System L V)
  node_handler_loop zero place n header payload origin s = none
  node_handler_loop (suc rounds) head n header payload origin s = some s
  node_handler_loop (suc rounds) (node a) n header payload origin s =
      let t =
        if node_skips (s.world.node_handlers a) origin
        then s
        else call_node_handler a header payload origin s in
      node_handler_loop rounds (list.next (node_at t n).node_handler_list (node a)) n header payload
        origin t

  unfoldable pub message_handler :
      ℕ → ℕ → Header → List ℕ → Option ℕ → System L V → Option (System L V)
  message_handler rounds n header payload origin s =
      if is_for (own_id s n) header
      then node_handler_loop rounds (list.next (node_at s n).node_handler_list head) n header
          payload origin s
      else some s

module _ {L V : Type 0} (list : LinkedList L) (callbacks : Callbacks (Nodes L V))
    (calls : HandlerCallbacks L (Nodes L V)) (order : ByteOrder) where
  -- The length is cut to the 8 bits of NDLComDataLen. `memory` is what the header's memory held; the
  -- bridge reads as many bytes of the payload as the header says.
  unfoldable pub node_send : ℕ → System L V → ℕ → Header → ℕ → List ℕ → ℕ → Option (System L V)
  node_send rounds s n memory receiver_id payload payload_size =
      let x = node_at s n in
      let (config, header) =
        header_prepare x.header_config memory receiver_id (payload_size % 2 ^ 8) in
      let t = set_node s n (record x { header_config = config }) in
      if has_bridge t n
      then send_raw list callbacks calls order rounds t header (take header.data_len payload)
      else none
