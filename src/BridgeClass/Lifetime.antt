-- ===== src/BridgeClass/Lifetime.antt =====
-- A bridge from its constructor to its destructor, whatever is made and destroyed in between.
use ndlcom.Prelude.{All, ℕ, ◌<◌, ◌≡◌, refl, true, false, Option, none, some, List, [], ◌∷◌}
use ndlcom.Prelude.Counts.{has, occurrences}
use ndlcom.LinkedList.{LinkedList}
use ndlcom.Routing.{Destination, all_interfaces, the_bridge, interface_at, get_destination}
use ndlcom.Node.{System, node_at}
use ndlcom.BridgeClass.{
  BridgeClass, Wrappers, bridge_class_init, create_bridge_handler, create_node, create_node_handler,
  destroy_external_interface, destroy_bridge_handler, destroy_node, destroy_node_handler,
  set_routing, set_own_device_id, bridge_destructor, and_then,
}
use ndlcom.BridgeClass.Uris.{Drivers, create_interface}
use ndlcom.BridgeClass.Ownership.{handlers_in, IsOwned, bridge_class_init-IsOwned}
use ndlcom.BridgeClass.Creation.{
  create_bridge_handler-IsOwned, create_node-IsOwned, create_node_handler-IsOwned,
}
use ndlcom.BridgeClass.Destruction.{
  without_interface, without_handler, without_node_handler, destroy_external_interface-IsOwned,
  destroy_bridge_handler-IsOwned, destroy_node_handler-IsOwned,
}
use ndlcom.BridgeClass.Teardown.{IsTornDown, destroy_node-IsOwned, bridge_destructor-IsTornDown}
use ndlcom.BridgeClass.Lookup.{get_interface_by_origin}
use ndlcom.BridgeClass.Opened.{get_interface_by_origin-get_destination}
use ndlcom.BridgeClass.Printing.{
  print_routing_table, shown_for, interface_of, print_routing_table-get_destination,
}
use ndlcom.BridgeClass.Upkeep.{
  set_routing-IsOwned, set_own_device_id-IsOwned, create_interface-IsOwned,
}

-- A call of the classes: the first number is the address of an interface, a handler or a node. A
-- handler of a node comes behind its node.
pub data ClassCall : Type 0 where
  creates_interface : ℕ → ℕ → List ℕ → ClassCall
  creates_handler : ℕ → ClassCall
  creates_node : ℕ → ℕ → ClassCall
  creates_node_handler : ℕ → ℕ → ClassCall
  destroys_interface destroys_handler destroys_node : ℕ → ClassCall
  destroys_node_handler : ℕ → ℕ → ClassCall
  routes_by : ℕ → List ℕ → ClassCall
  renames : ℕ → ℕ → ClassCall

module _ {L V : Type 0} (list : LinkedList L) (w : Wrappers) (drivers : Drivers V) where
  unfoldable pub perform : BridgeClass L V → ClassCall → Option (BridgeClass L V)
  perform c (creates_interface a flags uri) =
      some ((create_interface list w drivers a flags uri c).1)
  perform c (creates_handler a) = some (create_bridge_handler list w c a)
  perform c (creates_node n id) = create_node list w c n id
  perform c (creates_node_handler n a) = some (create_node_handler list w c n a)
  perform c (destroys_interface a) = destroy_external_interface list c a
  perform c (destroys_handler a) = destroy_bridge_handler list c a
  perform c (destroys_node n) = destroy_node list c n
  perform c (destroys_node_handler n a) = destroy_node_handler list n c a
  perform c (routes_by a conn) = some ((set_routing c a conn).1)
  perform c (renames n id) = set_own_device_id c n id

  unfoldable pub perform_all : BridgeClass L V → List ClassCall → Option (BridgeClass L V)
  perform_all c [] = some c
  perform_all c (call ∷ rest) = elim (perform c call) [ none ↦ none | some d ↦ perform_all d rest ]

module _ {L V : Type 0} (place : ℕ → ℕ) where
  -- What is made is at an address where nothing of its kind is, what is used or destroyed is there,
  -- and ids have 8 bits.
  abbrev pub IsAllowed : BridgeClass L V → ClassCall → Type 0
  IsAllowed c (creates_interface a flags uri) = occurrences a c.external_interfaces ≡ 0
  IsAllowed c (creates_handler a) = handlers_in place c.bridge_handlers c.nodes a ≡ 0
  IsAllowed c (creates_node n id) =
      (id < 256)
      × (occurrences n c.nodes ≡ 0)
      × (handlers_in place c.bridge_handlers c.nodes (place n) ≡ 0)
  IsAllowed c (creates_node_handler n a) =
      (has n c.nodes ≡ true) × (occurrences a (c.all_handler n) ≡ 0)
  IsAllowed c (destroys_interface a) = has a c.external_interfaces ≡ true
  IsAllowed c (destroys_handler a) = has a c.bridge_handlers ≡ true
  IsAllowed c (destroys_node n) = has n c.nodes ≡ true
  IsAllowed c (destroys_node_handler n a) =
      (has n c.nodes ≡ true) × (has a (c.all_handler n) ≡ true)
  IsAllowed c (routes_by a conn) = has a c.external_interfaces ≡ true
  IsAllowed c (renames n id) = (has n c.nodes ≡ true) × (id < 256)

module _ {L V : Type 0} (list : LinkedList L) (place : ℕ → ℕ) (w : Wrappers)
    (drivers : Drivers V) where
  -- Each call is allowed behind those before it.
  unfoldable pub AreAllowed : BridgeClass L V → List ClassCall → Type 0
  AreAllowed c [] = Unit
  AreAllowed c (call ∷ rest) =
      IsAllowed place c call
      × elim (perform list w drivers c call) [ none ↦ Unit | some d ↦ AreAllowed d rest ]

  perform-IsOwned :
      (c : BridgeClass L V) (call : ClassCall)
      → IsAllowed place c call
      → IsOwned list place c
      → (d : BridgeClass L V) × (perform list w drivers c call ≡ some d) × IsOwned list place d
  unfolding perform
  perform-IsOwned c (creates_interface a flags uri) new owned =
      (_, refl, create_interface-IsOwned list place w drivers a flags uri c new owned)
  perform-IsOwned c (creates_handler a) new owned =
      (_, refl, create_bridge_handler-IsOwned list place w c a new owned)
  perform-IsOwned c (creates_node n id) (byte, new_node, new) owned =
      create_node-IsOwned list place w c n id byte new_node new owned
  perform-IsOwned c (creates_node_handler n a) (known, new) owned =
      (_, refl, create_node_handler-IsOwned list place w c n a known new owned)
  perform-IsOwned c (destroys_interface a) known owned =
      let (ran, still) = destroy_external_interface-IsOwned list place c a known owned in
      (without_interface list c a, ran, still)
  perform-IsOwned c (destroys_handler a) known owned =
      let (ran, still) = destroy_bridge_handler-IsOwned list place c a known owned in
      (without_handler list c a, ran, still)
  perform-IsOwned c (destroys_node n) known owned =
      let (d, ran, still, others) = destroy_node-IsOwned list place c n known owned in
      (d, ran, still)
  perform-IsOwned c (destroys_node_handler n a) (known, listed) owned =
      let (ran, still, counted, byte) =
        destroy_node_handler-IsOwned list place c n a listed (owned.nodes.bytes n known)
          (owned.nodes.handlers n known) owned in
      (without_node_handler list n c a, ran, still)
  perform-IsOwned c (routes_by a conn) known owned =
      (_, refl, set_routing-IsOwned list place c a conn owned)
  perform-IsOwned c (renames n id) (known, byte) owned =
      set_own_device_id-IsOwned list place c n id known byte owned

  calls-IsOwned :
      (c : BridgeClass L V) (calls : List ClassCall)
      → AreAllowed c calls
      → IsOwned list place c
      → (d : BridgeClass L V) × (perform_all list w drivers c calls ≡ some d) × IsOwned list place d
  unfolding perform_all AreAllowed
  calls-IsOwned c [] allowed owned = (c, refl, owned)
  calls-IsOwned c (call ∷ rest) (here, allowed) owned =
      let (d, ran, still) = perform-IsOwned c call here owned in
      let (e, done, last) = calls-IsOwned d rest (rw ran at allowed) still in
      (e, rw (perform_all, ran) done, last)

  -- Nothing points to a new bridge, and each node has its bridge handler at its place. Interfaces,
  -- handlers, nodes and handlers of nodes are made at fresh addresses and those that are there
  -- destroyed, routes set by any text and nodes named by ids of 8 bits, in any order; the constructor
  -- of an interface may throw. Then all the calls end, and the lists of the bridge and of each of its
  -- nodes hold what the vectors hold, each object once, and the routing table leads to owned
  -- interfaces only.
  pub perform_all-IsOwned :
      (s : System L V) (calls : List ClassCall)
      → ((a : ℕ) → (s.interfaces a).has_bridge ≡ false)
      → ((b : ℕ) → (s.handlers b).has_bridge ≡ false)
      → ((n : ℕ) → (node_at s n).bridge_handler ≡ place n)
      → AreAllowed (bridge_class_init list s) calls
      → (c : BridgeClass L V) × (perform_all list w drivers (bridge_class_init list s) calls
          ≡ some c)
        × IsOwned list place c
  perform_all-IsOwned s calls loose_interfaces loose_handlers placed allowed =
      calls-IsOwned (bridge_class_init list s) calls allowed
        (bridge_class_init-IsOwned list place s loose_interfaces loose_handlers placed)

  -- Behind such calls the destructor ends: it leaves no interface and no handler in a list of the
  -- bridge, none of them points to the bridge, no route leads to an interface, and no destructor has
  -- written a warning.
  pub bridge_destructor-perform_all :
      (s : System L V) (calls : List ClassCall)
      → ((a : ℕ) → (s.interfaces a).has_bridge ≡ false)
      → ((b : ℕ) → (s.handlers b).has_bridge ≡ false)
      → ((n : ℕ) → (node_at s n).bridge_handler ≡ place n)
      → AreAllowed (bridge_class_init list s) calls
      → (d : BridgeClass L V) × (and_then
            (perform_all list w drivers (bridge_class_init list s) calls)
            (bridge_destructor list)
          ≡ some d)
        × IsTornDown list place d
  bridge_destructor-perform_all s calls loose_interfaces loose_handlers placed allowed =
      let (c, ran, owned) =
        perform_all-IsOwned s calls loose_interfaces loose_handlers placed allowed in
      let (d, done, torn_down) = bridge_destructor-IsTornDown list place c owned in
      (d, rw ran done, torn_down)

  -- Nothing points to a new bridge, and each node has its bridge handler at its place. Objects are made
  -- at fresh addresses and those that are there destroyed, routes set by any text and nodes named by
  -- ids of 8 bits, in any order. Then all the calls end, and behind them every route that leads to an
  -- interface leads to one that `getInterfaceByOrigin` finds by its address.
  pub get_interface_by_origin-perform_all :
      (s : System L V) (calls : List ClassCall) (id : ℕ)
      → ((a : ℕ) → (s.interfaces a).has_bridge ≡ false)
      → ((b : ℕ) → (s.handlers b).has_bridge ≡ false)
      → ((n : ℕ) → (node_at s n).bridge_handler ≡ place n)
      → AreAllowed (bridge_class_init list s) calls
      → (c : BridgeClass L V) × (perform_all list w drivers (bridge_class_init list s) calls
          ≡ some c)
        × All
            (λ a. get_interface_by_origin c a ≡ some a)
            (interface_of (get_destination c.bridge.routing_table id))
  get_interface_by_origin-perform_all s calls id loose_interfaces loose_handlers placed allowed =
      let (c, ran, owned) =
        perform_all-IsOwned s calls loose_interfaces loose_handlers placed allowed in
      (c, ran, each c owned (get_destination c.bridge.routing_table id) refl)
    where
      each :
          (c : BridgeClass L V)
          → IsOwned list place c
          → (d : Destination) → get_destination c.bridge.routing_table id ≡ d
          → All (λ a. get_interface_by_origin c a ≡ some a) (interface_of d)
      each c owned all_interfaces leads = tt
      each c owned the_bridge leads = tt
      each c owned (interface_at a) leads =
          (get_interface_by_origin-get_destination list place c id a owned leads, tt)

  -- Nothing points to a new bridge, and each node has its bridge handler at its place. Objects are made
  -- at fresh addresses and those that are there destroyed, routes set by any text and nodes named by
  -- ids of 8 bits, in any order. Then all the calls end, and the table that is printed behind
  -- them shows every id in the line of the interface that its route leads to and in no other, and an id
  -- without such a route in no line.
  pub print_routing_table-perform_all :
      (s : System L V) (calls : List ClassCall) (id : ℕ)
      → ((a : ℕ) → (s.interfaces a).has_bridge ≡ false)
      → ((b : ℕ) → (s.handlers b).has_bridge ≡ false)
      → ((n : ℕ) → (node_at s n).bridge_handler ≡ place n)
      → AreAllowed (bridge_class_init list s) calls
      → (c : BridgeClass L V) × (perform_all list w drivers (bridge_class_init list s) calls
          ≡ some c)
        × (shown_for id (print_routing_table list c)
            ≡ interface_of (get_destination c.bridge.routing_table id))
  print_routing_table-perform_all s calls id loose_interfaces loose_handlers placed allowed =
      let (c, ran, owned) =
        perform_all-IsOwned s calls loose_interfaces loose_handlers placed allowed in
      (c, ran, print_routing_table-get_destination list place c id owned)
