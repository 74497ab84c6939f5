-- ===== src/BridgeClass/Creation.antt =====
-- Making an object keeps the vectors and the lists together.
use ndlcom.Prelude.{
  some, ℕ, ◌+◌, ◌<◌, ◌≤◌, ◌≡◌, refl, inl, inr, Bool, true, false, ◌==◌, ==_iff, ==_refl,
  if◌then◌else◌, List, [], ◌∷◌, ◌++◌, Bool-cases, arith,
}
use ndlcom.Prelude.Counts.{has, occurrences, has-occurrences}
use ndlcom.LinkedList.{LinkedList}
use ndlcom.Bridge.{
  register_external_interface, check_external_interface, set_bridge, mark_device_id_as_internal,
}
use ndlcom.Bridge.Handling.{register_bridge_handler, check_bridge_handler}
use ndlcom.Bridge.Registration.{IsSound, register_external_interface-IsSound, route-IsSound}
use ndlcom.Node.{
  System, node_at, register_node_handler, set_node, set_node_pointer, node_init, own_id,
}
use ndlcom.HeaderPrepare.{header_prepare_init}
use ndlcom.Routing.{the_bridge}
use ndlcom.Node.Registration.{joined, node_register-joined}
use ndlcom.BridgeClass.{
  BridgeClass, Wrappers, construct_interface, construct_bridge_handler, create_external_interface,
  create_bridge_handler, create_node, create_node_handler, construct_node_handler, set_all_handler,
}
use ndlcom.BridgeClass.Counting.{
  has-IsCounted, list_add-IsCounted, occurrences-append_one, occurrences-map-append,
}
use ndlcom.BridgeClass.Ownership.{
  interfaces_of, handlers_in, IsOwned, handlers-IsSound, put-AreNodes,
}

append_once :
    (n m : ℕ) (xs : List ℕ)
    → occurrences n xs ≡ 0
    → occurrences m xs ≤ 1
    → occurrences m (xs ++ n ∷ []) ≤ 1
append_once n m xs absent once = elim (Bool-cases (n == m)) [
  | inl same ↦
      let none_yet : occurrences m xs ≡ 0 = rw (← (==_iff n m).0 same) absent in
      ground (arith, occurrences-append_one n m xs)
  | inr differs ↦ ground (arith, occurrences-append_one n m xs)
]

has-append_other :
    (n m : ℕ) (xs : List ℕ) → (m == n) ≡ false → has m (xs ++ n ∷ []) ≡ true → has m xs ≡ true
has-append_other n m xs differs known = ground (
  arith,
  differs,
  known,
  has-occurrences m xs,
  has-occurrences m (xs ++ n ∷ []),
  occurrences-append_one n m xs,
)

module _ {L V : Type 0} (list : LinkedList L) where
  construct_interface-IsSound :
      (w : Wrappers) (s : System L V) (a flags : ℕ)
      → has a (list.entries s.external_interface_list) ≡ false
      → IsSound list s
      → IsSound list (construct_interface w s a flags)
  unfolding construct_interface ndlcom.ExternalInterface.init
  construct_interface-IsSound w s a flags fresh sound = record {
    distinct = sound.distinct;
    connected = λ b. elim (Bool-cases (b == a)) [
      | inl same ↦ let e : b ≡ a = (==_iff b a).0 same in rw (same, e, fresh) refl
      | inr differs ↦ rw differs (sound.connected b)
    ];
    routed = sound.routed;
    table = sound.table;
  }

module _ {L V : Type 0} (list : LinkedList L) (place : ℕ → ℕ) where
  -- A new interface at a fresh address; its constructor may throw.
  pub create_external_interface-IsOwned :
      (w : Wrappers) (opens : V → Bool × V) (c : BridgeClass L V) (a flags : ℕ)
      → occurrences a c.external_interfaces ≡ 0
      → IsOwned list place c
      → IsOwned list place (create_external_interface list w opens c a flags).1
  unfolding create_external_interface register_external_interface check_external_interface
      construct_interface set_bridge
  create_external_interface-IsOwned w opens c a flags new owned =
      let fresh : has a (list.entries c.bridge.external_interface_list) ≡ false = ground (
        arith,
        has-IsCounted list c.bridge.external_interface_list (interfaces_of c) a owned.interfaces,
      ) in
      let s = construct_interface w c.bridge a flags in
      let (opened, v) = opens s.world.outside in
      let t : System L V = record s { world = record (s.world) { outside = v } } in
      let sound : IsSound list t =
        handlers-IsSound list s s.handlers s.bridge_handler_list t.world
          (construct_interface-IsSound list w c.bridge a flags fresh owned.sound) in
      elim (Bool-cases opened) [
        | inl opens_it ↦
            simp (opens_it, fresh)
              (record {
                sound = simp fresh at (register_external_interface-IsSound list t a sound);
                quiet = owned.quiet;
                interfaces =
                    list_add-IsCounted list c.bridge.external_interface_list (interfaces_of c)
                      (λ b. occurrences b (c.external_interfaces ++ a ∷ [])) a owned.interfaces new
                      (λ b. occurrences-append_one a b c.external_interfaces);
                handlers = owned.handlers;
                linked = owned.linked;
                nodes = owned.nodes;
              })
        | inr throws ↦ simp throws (record {
          sound = sound;
          quiet = owned.quiet;
          interfaces = owned.interfaces;
          handlers = owned.handlers;
          linked = owned.linked;
          nodes = owned.nodes;
        })
      ]

  -- A new handler at a fresh address.
  pub create_bridge_handler-IsOwned :
      (w : Wrappers) (c : BridgeClass L V) (a : ℕ)
      → handlers_in place c.bridge_handlers c.nodes a ≡ 0
      → IsOwned list place c
      → IsOwned list place (create_bridge_handler list w c a)
  unfolding create_bridge_handler register_bridge_handler check_bridge_handler
      construct_bridge_handler ndlcom.BridgeHandler.init
  create_bridge_handler-IsOwned w c a new owned =
      let count = handlers_in place c.bridge_handlers c.nodes in
      let grows : (b : ℕ)
          → handlers_in place (c.bridge_handlers ++ a ∷ []) c.nodes b
            ≡ (if a == b then 1 else 0) + count b =
        λ b. omega (arith, occurrences-append_one a b c.bridge_handlers) in
      let fresh : has a (list.entries c.bridge.bridge_handler_list) ≡ false =
        ground (arith, has-IsCounted list c.bridge.bridge_handler_list count a owned.handlers) in
      simp fresh (record {
        sound = handlers-IsSound list c.bridge _ _ _ owned.sound;
        quiet = owned.quiet;
        interfaces = owned.interfaces;
        handlers =
            list_add-IsCounted list c.bridge.bridge_handler_list count
              (handlers_in place (c.bridge_handlers ++ a ∷ []) c.nodes) a owned.handlers new grows;
        linked = λ b. elim (Bool-cases (b == a)) [
          | inl same ↦ rw (same, grows b) (ground (arith, same))
          | inr differs ↦ rw (differs, grows b) (ground (arith, differs, owned.linked b))
        ];
        nodes = owned.nodes;
      })

  -- A new node at a fresh address.
  pub create_node-IsOwned :
      (w : Wrappers) (c : BridgeClass L V) (n own_device_id : ℕ)
      → own_device_id < 256
      → occurrences n c.nodes ≡ 0
      → handlers_in place c.bridge_handlers c.nodes (place n) ≡ 0
      → IsOwned list place c
      → (d : BridgeClass L V) × (create_node list w c n own_device_id ≡ some d)
        × IsOwned list place d
  unfolding create_node set_all_handler node_init set_node mark_device_id_as_internal joined
      header_prepare_init ndlcom.BridgeHandler.init occurrences
  create_node-IsOwned w c n own_device_id byte new_node new owned =
      let s = node_init list w.node_message_handler c.bridge n own_device_id in
      let x = node_at c.bridge n in
      let count = handlers_in place c.bridge_handlers c.nodes in
      let grows : (b : ℕ)
          → handlers_in place c.bridge_handlers (c.nodes ++ n ∷ []) b
            ≡ (if place n == b then 1 else 0) + count b =
        λ b. omega (arith, occurrences-map-append place n b c.nodes) in
      let fresh : has (place n) (list.entries c.bridge.bridge_handler_list) ≡ false =
        ground
          (arith, has-IsCounted list c.bridge.bridge_handler_list count (place n) owned.handlers) in
      let here : (node_at s n).bridge_handler ≡ place n = rw (==_refl n) (owned.nodes.placed n) in
      let own : own_id s n ≡ own_device_id = rw (own_id, ==_refl n) refl in
      let t = mark_device_id_as_internal (joined list s (place n)) own_device_id in
      (
        set_all_handler (record c { bridge = t; nodes = c.nodes ++ n ∷ [] }) n [],
        rw (create_node, node_register-joined list s n (place n) own_device_id here own fresh) refl,
        record {
          sound =
              route-IsSound list (joined list s (place n)) own_device_id the_bridge
                (λ a e. ground arith) byte (handlers-IsSound list c.bridge _ _ _ owned.sound);
          quiet = owned.quiet;
          interfaces = owned.interfaces;
          handlers =
              list_add-IsCounted list c.bridge.bridge_handler_list count
                (handlers_in place c.bridge_handlers (c.nodes ++ n ∷ [])) (place n) owned.handlers
                new grows;
          linked = λ b. elim (Bool-cases (b == place n)) [
            | inl same ↦ rw (same, grows b) (ground (arith, same))
            | inr differs ↦
                rw (differs, grows b, owned.nodes.placed n, differs)
                  (ground (arith, differs, owned.linked b))
          ];
          nodes =
              put-AreNodes list place c.bridge.world.nodes c.nodes (c.nodes ++ n ∷ []) c.all_handler
                n
                (record x {
                  node_handler_list = list.init_list_head x.node_handler_list;
                  header_config = header_prepare_init own_device_id;
                })
                [] owned.nodes (λ m. append_once n m c.nodes new_node (owned.nodes.once m))
                (λ m. has-append_other n m c.nodes) (owned.nodes.placed n) byte
                (record {
                  once = λ a. omega arith;
                  same = λ a. rw (list.entries-init_list_head x.node_handler_list) refl;
                });
        },
      )

  -- A new handler of a node at a fresh address.
  pub create_node_handler-IsOwned :
      (w : Wrappers) (c : BridgeClass L V) (n a : ℕ)
      → has n c.nodes ≡ true
      → occurrences a (c.all_handler n) ≡ 0
      → IsOwned list place c
      → IsOwned list place (create_node_handler list w c n a)
  unfolding create_node_handler construct_node_handler register_node_handler set_node
      set_node_pointer set_all_handler
  create_node_handler-IsOwned w c n a existing new owned = record {
    sound = handlers-IsSound list c.bridge _ _ _ owned.sound;
    quiet = owned.quiet;
    interfaces = owned.interfaces;
    handlers = owned.handlers;
    linked = owned.linked;
    nodes =
        let x = node_at c.bridge n in
        put-AreNodes list place c.bridge.world.nodes c.nodes c.nodes c.all_handler n
          (record x { node_handler_list = list.list_add a x.node_handler_list })
          (c.all_handler n ++ a ∷ []) owned.nodes owned.nodes.once (λ m differs known. known)
          (owned.nodes.placed n) (owned.nodes.bytes n existing)
          (list_add-IsCounted list x.node_handler_list (λ b. occurrences b (c.all_handler n))
            (λ b. occurrences b (c.all_handler n ++ a ∷ [])) a (owned.nodes.handlers n existing) new
            (λ b. occurrences-append_one a b (c.all_handler n)));
  }
