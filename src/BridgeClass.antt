-- ===== src/BridgeClass.antt =====
-- The class Bridge of src/Bridge.cpp and include/ndlcom/Bridge.hpp with the class Node of src/Node.cpp
-- and include/ndlcom/Node.hpp: the objects that they make, own and destroy. An object is given by the
-- address of the struct that it wraps, and a new one by the address that it gets; `none` stands for a
-- call through a null pointer, and for a loop that needs more rounds than it has.
pub mod Counting
pub mod Ownership
pub mod Creation
pub mod Destruction
pub mod Emptying
pub mod Teardown
pub mod Uris
pub mod Upkeep
pub mod Lifetime
pub mod Lookup
pub mod Opened
pub mod Printing
use ndlcom.Prelude.{
  ℕ, zero, suc, Bool, true, false, ◌&&◌, ◌==◌, Option, none, some, List, [], ◌∷◌, ◌++◌, map, length,
  if◌then◌else◌,
}
use ndlcom.Prelude.Counts.{has, without}
use ndlcom.Ids.{set_routing_by_string}
use ndlcom.LinkedList.{LinkedList, head}
use ndlcom.Bridge.{bridge_init, register_external_interface, deregister_external_interface}
use ndlcom.Bridge.Handling.{register_bridge_handler, deregister_bridge_handler, links_to_itself}
use ndlcom.Node.{
  System, node_at, node_init, node_register, node_deregister, set_own_sender_id,
  register_node_handler, deregister_node_handler,
}

-- What the destructors write to `out` when a list of the C library is not empty.
pub data Warning : Type 0 where
  interface_list_is_not_empty handler_list_is_not_empty node_handler_list_is_not_empty : Warning

-- The members of the class, `allHandler` of each Node, and what was written to `out`.
pub record BridgeClass (L V : Type 0) : Type 0 where
  pub bridge : System L V
  pub external_interfaces : List ℕ
  pub bridge_handlers : List ℕ
  pub nodes : List ℕ
  pub all_handler : ℕ → List ℕ
  pub out : List Warning

-- The functions that the constructors hand to the C library, by their address, and the size of the
-- parser's memory.
pub record Wrappers : Type 0 where
  pub write_wrapper : ℕ
  pub read_wrapper : ℕ
  pub bridge_handle_wrapper : ℕ
  pub node_handle_wrapper : ℕ
  pub node_message_handler : ℕ
  pub sizeof_parser : ℕ

module _ {C : Type 0} where
  abbrev pub and_then : Option C → (C → Option C) → Option C
  and_then none f = none
  and_then (some c) f = f c

  -- `while (!owned.empty()) destroy(owned.front())`, for at most this many rounds.
  unfoldable pub destroy_all : (C → List ℕ) → (C → ℕ → Option C) → ℕ → C → Option C
  destroy_all owned destroy zero c = none
  destroy_all owned destroy (suc rounds) c = elim (owned c) [
    | [] ↦ some c
    | a ∷ rest ↦ elim (destroy c a) [ none ↦ none | some d ↦ destroy_all owned destroy rounds d ]
  ]

module _ {L V : Type 0} where
  -- The constructor of ExternalInterfaceBase.
  unfoldable pub construct_interface : Wrappers → System L V → ℕ → ℕ → System L V
  construct_interface w s a flags = record s {
    interfaces = λ b.
        (if b == a
          then ndlcom.ExternalInterface.init w.sizeof_parser (s.interfaces b).parser w.write_wrapper
              w.read_wrapper flags a
          else s.interfaces b);
  }

  -- The constructor of BridgeHandler.
  unfoldable pub construct_bridge_handler : Wrappers → System L V → ℕ → System L V
  construct_bridge_handler w s a = record s {
    handlers = λ b.
        (if b == a then ndlcom.BridgeHandler.init w.bridge_handle_wrapper 0 a else s.handlers b);
  }

  -- The constructor of NodeHandler.
  unfoldable pub construct_node_handler : Wrappers → System L V → ℕ → System L V
  construct_node_handler w s a = record s {
    world = record (s.world) {
      node_handlers = λ b.
          (if b == a
            then ndlcom.NodeHandler.init w.node_handle_wrapper 0 a
            else s.world.node_handlers b);
    };
  }

  unfoldable pub set_all_handler : BridgeClass L V → ℕ → List ℕ → BridgeClass L V
  set_all_handler c n handlers = record c {
    all_handler = λ m. (if m == n then handlers else c.all_handler m);
  }

  unfoldable pub warn : BridgeClass L V → Bool → Warning → BridgeClass L V
  warn c empty warning = if empty then c else record c { out = c.out ++ warning ∷ [] }

  -- Node::setOwnDeviceId.
  unfoldable pub set_own_device_id : BridgeClass L V → ℕ → ℕ → Option (BridgeClass L V)
  set_own_device_id c n own_device_id = elim (set_own_sender_id c.bridge n own_device_id) [
    | none ↦ none
    | some t ↦ some (record c { bridge = t })
  ]

  -- `setRoutingByString`, and whether it returned; what it writes is left out.
  unfoldable pub set_routing : BridgeClass L V → ℕ → List ℕ → Bool × BridgeClass L V
  set_routing c a conn =
      let (returned, s, lines) = set_routing_by_string c.bridge a conn [] in
      (returned, record c { bridge = s })

module _ {L V : Type 0} (list : LinkedList L) where
  -- The constructor of Bridge.
  unfoldable pub bridge_class_init : System L V → BridgeClass L V
  bridge_class_init s = record {
    bridge = bridge_init list s;
    external_interfaces = [];
    bridge_handlers = [];
    nodes = [];
    all_handler = λ n. [];
    out = [];
  }

  -- `opens` is the constructor of the driver behind that of its base: it says whether it returned.
  unfoldable pub create_external_interface :
      Wrappers → (V → Bool × V) → BridgeClass L V → ℕ → ℕ → Bool × BridgeClass L V
  create_external_interface w opens c a flags =
      let s = construct_interface w c.bridge a flags in
      let (opened, v) = opens s.world.outside in
      let t : System L V = record s { world = record (s.world) { outside = v } } in
      if opened
      then (
        true,
        record c {
          bridge = register_external_interface list t a;
          external_interfaces = c.external_interfaces ++ a ∷ [];
        },
      )
      else (false, record c { bridge = t })

  unfoldable pub create_bridge_handler : Wrappers → BridgeClass L V → ℕ → BridgeClass L V
  create_bridge_handler w c a = record c {
    bridge = register_bridge_handler list (construct_bridge_handler w c.bridge a) a;
    bridge_handlers = c.bridge_handlers ++ a ∷ [];
  }

  unfoldable pub create_node : Wrappers → BridgeClass L V → ℕ → ℕ → Option (BridgeClass L V)
  create_node w c n own_device_id =
      elim (node_register list (node_init list w.node_message_handler c.bridge n own_device_id) n) [
        | none ↦ none
        | some t ↦ some (set_all_handler (record c { bridge = t; nodes = c.nodes ++ n ∷ [] }) n [])
      ]

  unfoldable pub create_node_handler : Wrappers → BridgeClass L V → ℕ → ℕ → BridgeClass L V
  create_node_handler w c n a =
      set_all_handler
        (record c { bridge = register_node_handler list (construct_node_handler w c.bridge a) n a })
        n (c.all_handler n ++ a ∷ [])

  unfoldable pub destroy_external_interface : BridgeClass L V → ℕ → Option (BridgeClass L V)
  destroy_external_interface c a =
      if has a c.external_interfaces
      then some (record c {
        bridge = deregister_external_interface list c.bridge a;
        external_interfaces = without a c.external_interfaces;
      })
      else none

  unfoldable pub destroy_bridge_handler : BridgeClass L V → ℕ → Option (BridgeClass L V)
  destroy_bridge_handler c a =
      if has a c.bridge_handlers
      then some (record c {
        bridge = deregister_bridge_handler list c.bridge a;
        bridge_handlers = without a c.bridge_handlers;
      })
      else none

  unfoldable pub destroy_node_handler : ℕ → BridgeClass L V → ℕ → Option (BridgeClass L V)
  destroy_node_handler n c a =
      if has a (c.all_handler n)
      then some (
          set_all_handler (record c { bridge = deregister_node_handler list c.bridge n a }) n
            (without a (c.all_handler n)))
      else none

  -- The destructor of Node.
  unfoldable pub node_destructor : ℕ → BridgeClass L V → Option (BridgeClass L V)
  node_destructor n c =
      elim (destroy_all (λ d. d.all_handler n) (destroy_node_handler n)
        (suc (length (c.all_handler n))) c) [
          | none ↦ none
          | some d ↦ some (
              warn d (links_to_itself list (node_at d.bridge n).node_handler_list head)
                node_handler_list_is_not_empty)
        ]

  -- No other pointer shares the node, so that the vector's is the last one.
  unfoldable pub destroy_node : BridgeClass L V → ℕ → Option (BridgeClass L V)
  destroy_node c n =
      if has n c.nodes
      then elim (node_deregister list c.bridge n) [
        | none ↦ none
        | some t ↦ node_destructor n (record c { bridge = t; nodes = without n c.nodes })
      ]
      else none

  -- The checks at the end of the destructor of Bridge.
  unfoldable pub check_lists : BridgeClass L V → BridgeClass L V
  check_lists c =
      warn
        (warn c (links_to_itself list c.bridge.external_interface_list head)
          interface_list_is_not_empty)
        (links_to_itself list c.bridge.bridge_handler_list head) handler_list_is_not_empty

  -- The destructor of Bridge.
  unfoldable pub bridge_destructor : BridgeClass L V → Option (BridgeClass L V)
  bridge_destructor c =
      and_then
        (and_then
          (and_then
            (destroy_all (λ d. d.external_interfaces) destroy_external_interface
              (suc (length c.external_interfaces)) c)
            (λ d.
              destroy_all (λ e. e.bridge_handlers) destroy_bridge_handler
                (suc (length d.bridge_handlers)) d))
          (λ d. destroy_all (λ e. e.nodes) destroy_node (suc (length d.nodes)) d))
        (λ d. some (check_lists d))

  unfoldable pub enable_own_id :
      Wrappers → BridgeClass L V → ℕ → ℕ → ℕ → Bool → Option (BridgeClass L V)
  enable_own_id w c n a node_device_id print = elim (create_node w c n node_device_id) [
    | none ↦ none
    | some d ↦ some (if print then create_node_handler w d n a else d)
  ]
