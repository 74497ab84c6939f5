-- ===== src/BridgeClass/Destruction.antt =====
-- Destroying an object keeps the vectors and the lists together.
use ndlcom.Prelude.{
  ℕ, ◌+◌, ◌<◌, ◌≤◌, ◌≡◌, refl, inl, inr, true, ◌==◌, ==_iff, ==_refl, if◌then◌else◌, List, map,
  Bool-cases, arith, some,
}
use ndlcom.Prelude.Counts.{
  has, occurrences, has-occurrences, has-without, occurrences-without, without,
}
use ndlcom.LinkedList.{LinkedList}
use ndlcom.Routing.{all_interfaces}
use ndlcom.Bridge.{
  deregister_external_interface, check_external_interface, set_bridge, clear_internal_device_id,
}
use ndlcom.Bridge.Handling.{deregister_bridge_handler, check_bridge_handler}
use ndlcom.Bridge.Registration.{deregister_external_interface-IsSound, route-IsSound}
use ndlcom.Node.{
  has_bridge, node_deregister, node_at, own_id, deregister_node_handler, set_node, set_node_pointer,
}
use ndlcom.Node.Registration.{left, node_deregister-left}
use ndlcom.BridgeClass.{
  BridgeClass, destroy_external_interface, destroy_bridge_handler, destroy_node_handler,
  set_all_handler,
}
use ndlcom.BridgeClass.Counting.{
  IsCounted, has-IsCounted, list_del_init-IsCounted, occurrences-map-without,
}
use ndlcom.BridgeClass.Ownership.{
  interfaces_of, handlers_in, IsOwned, handlers-IsSound, put-AreNodes,
}

-- What is there at most once is there once.
occurs_once : (a : ℕ) (xs : List ℕ) → has a xs ≡ true → occurrences a xs ≤ 1 → occurrences a xs ≡ 1
occurs_once a xs known once = ground (arith, has-occurrences a xs, known)

module _ {L V : Type 0} (list : LinkedList L) where
  unfoldable pub without_interface : BridgeClass L V → ℕ → BridgeClass L V
  without_interface c a = record c {
    bridge = deregister_external_interface list c.bridge a;
    external_interfaces = without a c.external_interfaces;
  }

  unfoldable pub without_handler : BridgeClass L V → ℕ → BridgeClass L V
  without_handler c a = record c {
    bridge = deregister_bridge_handler list c.bridge a;
    bridge_handlers = without a c.bridge_handlers;
  }

  unfoldable pub without_node_handler : ℕ → BridgeClass L V → ℕ → BridgeClass L V
  without_node_handler n c a =
      set_all_handler (record c { bridge = deregister_node_handler list c.bridge n a }) n
        (without a (c.all_handler n))

module _ {L V : Type 0} (list : LinkedList L) (place : ℕ → ℕ) where
  -- Taking an owned interface away.
  pub destroy_external_interface-IsOwned :
      (c : BridgeClass L V) (a : ℕ)
      → has a c.external_interfaces ≡ true
      → IsOwned list place c
      → (destroy_external_interface list c a ≡ some (without_interface list c a))
        × IsOwned list place (without_interface list c a)
  unfolding destroy_external_interface without_interface deregister_external_interface
      check_external_interface set_bridge
  destroy_external_interface-IsOwned c a known owned =
      let l = c.bridge.external_interface_list in
      let one : interfaces_of c a ≡ 1 =
        occurs_once a c.external_interfaces known (owned.interfaces.once a) in
      let listed : has a (list.entries l) ≡ true =
        ground (arith, one, has-IsCounted list l (interfaces_of c) a owned.interfaces) in
      (
        rw (destroy_external_interface, known) refl,
        simp listed (record {
          sound =
              simp listed at (deregister_external_interface-IsSound list c.bridge a owned.sound);
          quiet = owned.quiet;
          interfaces =
              list_del_init-IsCounted list l (interfaces_of c)
                (λ b. occurrences b (without a c.external_interfaces)) a owned.interfaces one
                (λ b. occurrences-without b a c.external_interfaces);
          handlers = owned.handlers;
          linked = owned.linked;
          nodes = owned.nodes;
        }),
      )

  -- Taking an owned handler away.
  pub destroy_bridge_handler-IsOwned :
      (c : BridgeClass L V) (a : ℕ)
      → has a c.bridge_handlers ≡ true
      → IsOwned list place c
      → (destroy_bridge_handler list c a ≡ some (without_handler list c a))
        × IsOwned list place (without_handler list c a)
  unfolding destroy_bridge_handler without_handler deregister_bridge_handler check_bridge_handler
  destroy_bridge_handler-IsOwned c a known owned =
      let l = c.bridge.bridge_handler_list in
      let count = handlers_in place c.bridge_handlers c.nodes in
      let once = owned.handlers.once a in
      let one : count a ≡ 1 = ground (arith, known, has-occurrences a c.bridge_handlers) in
      let apart : occurrences a (map place c.nodes) ≡ 0 =
        ground (arith, known, has-occurrences a c.bridge_handlers) in
      let listed : has a (list.entries l) ≡ true =
        ground (arith, one, has-IsCounted list l count a owned.handlers) in
      let shrinks : (b : ℕ)
          → handlers_in place (without a c.bridge_handlers) c.nodes b
            ≡ (if b == a then 0 else count b) =
        λ b. elim (Bool-cases (b == a)) [
          | inl same ↦
              let e : b ≡ a = (==_iff b a).0 same in
              let none_left : occurrences b (map place c.nodes) ≡ 0 = rw e apart in
              ground (arith, same, occurrences-without b a c.bridge_handlers)
          | inr differs ↦ ground (arith, differs, occurrences-without b a c.bridge_handlers)
        ] in
      (
        rw (destroy_bridge_handler, known) refl,
        simp listed (record {
          sound = handlers-IsSound list c.bridge _ _ _ owned.sound;
          quiet = owned.quiet;
          interfaces = owned.interfaces;
          handlers =
              list_del_init-IsCounted list l count
                (handlers_in place (without a c.bridge_handlers) c.nodes) a owned.handlers one
                shrinks;
          linked = λ b. elim (Bool-cases (b == a)) [
            | inl same ↦ rw (same, shrinks b) (ground (arith, same))
            | inr differs ↦ rw (differs, shrinks b) (ground (arith, differs, owned.linked b))
          ];
          nodes = owned.nodes;
        }),
      )

  -- Taking a handler of a node away, whose list holds what it owns.
  pub destroy_node_handler-IsOwned :
      (c : BridgeClass L V) (n a : ℕ)
      → has a (c.all_handler n) ≡ true
      → own_id c.bridge n < 256
      → IsCounted list (node_at c.bridge n).node_handler_list (λ b. occurrences b (c.all_handler n))
      → IsOwned list place c
      → (destroy_node_handler list n c a ≡ some (without_node_handler list n c a))
        × IsOwned list place (without_node_handler list n c a)
        × IsCounted list
            (node_at (without_node_handler list n c a).bridge n).node_handler_list
            (λ b. occurrences b ((without_node_handler list n c a).all_handler n))
        × (own_id (without_node_handler list n c a).bridge n < 256)
  unfolding destroy_node_handler without_node_handler set_all_handler deregister_node_handler
      set_node set_node_pointer
  destroy_node_handler-IsOwned c n a known byte counted owned =
      let x = node_at c.bridge n in
      let fewer : IsCounted list (list.list_del_init a x.node_handler_list)
          (λ b. occurrences b (without a (c.all_handler n))) =
        list_del_init-IsCounted list x.node_handler_list (λ b. occurrences b (c.all_handler n))
          (λ b. occurrences b (without a (c.all_handler n))) a counted
          (occurs_once a (c.all_handler n) known (counted.once a))
          (λ b. occurrences-without b a (c.all_handler n)) in
      (
        rw (destroy_node_handler, known) refl,
        record {
          sound = handlers-IsSound list c.bridge _ _ _ owned.sound;
          quiet = owned.quiet;
          interfaces = owned.interfaces;
          handlers = owned.handlers;
          linked = owned.linked;
          nodes =
              put-AreNodes list place c.bridge.world.nodes c.nodes c.nodes c.all_handler n
                (record x { node_handler_list = list.list_del_init a x.node_handler_list })
                (without a (c.all_handler n)) owned.nodes owned.nodes.once
                (λ m differs known. known) (owned.nodes.placed n) byte fewer;
        },
        rw (==_refl n) fewer,
        rw (own_id, ==_refl n) byte,
      )

  -- The node has left the bridge and the vector; its own handlers are still there.
  unfoldable pub without_node : BridgeClass L V → ℕ → BridgeClass L V
  without_node c n = record c {
    bridge = left list (clear_internal_device_id c.bridge (own_id c.bridge n)) (place n);
    nodes = without n c.nodes;
  }

  -- Taking an owned node away.
  pub without_node-IsOwned :
      (c : BridgeClass L V) (n : ℕ)
      → has n c.nodes ≡ true
      → IsOwned list place c
      → (node_deregister list c.bridge n ≡ some (without_node c n).bridge)
        × IsOwned list place (without_node c n)
  unfolding without_node left clear_internal_device_id
  without_node-IsOwned c n known owned =
      let l = c.bridge.bridge_handler_list in
      let b = place n in
      let count = handlers_in place c.bridge_handlers c.nodes in
      let after = handlers_in place c.bridge_handlers (without n c.nodes) in
      let splits : (x : ℕ) → count x ≡ (if b == x then 1 else 0) + after x =
        λ x. omega (arith, occurrences-map-without place n x c.nodes known owned.nodes.once) in
      let one : count b ≡ 1 = ground (arith, splits b, owned.handlers.once b, ==_refl b) in
      let listed : has b (list.entries l) ≡ true =
        ground (arith, one, has-IsCounted list l count b owned.handlers) in
      let has_it : has_bridge c.bridge n ≡ true =
        rw (has_bridge, owned.nodes.placed n) (ground (arith, one, owned.linked b)) in
      let shrinks : (x : ℕ) → after x ≡ (if x == b then 0 else count x) =
        λ x. ground (arith, splits x, owned.handlers.once x) in
      (
        rw (node_deregister-left list c.bridge n b (owned.nodes.placed n) has_it listed) refl,
        record {
          sound =
              handlers-IsSound list (clear_internal_device_id c.bridge (own_id c.bridge n)) _ _ _ (
                route-IsSound list c.bridge (own_id c.bridge n) all_interfaces (λ a e. ground arith)
                  (owned.nodes.bytes n known) owned.sound);
          quiet = owned.quiet;
          interfaces = owned.interfaces;
          handlers = list_del_init-IsCounted list l count after b owned.handlers one shrinks;
          linked = λ x. elim (Bool-cases (x == b)) [
            | inl same ↦ rw (same, shrinks x) (ground (arith, same))
            | inr differs ↦ rw (differs, shrinks x) (ground (arith, differs, owned.linked x))
          ];
          nodes = record {
            once = λ m. ground (arith, occurrences-without m n c.nodes, owned.nodes.once m);
            placed = owned.nodes.placed;
            bytes = λ m kept. owned.nodes.bytes m (still m kept);
            handlers = λ m kept. owned.nodes.handlers m (still m kept);
          };
        },
      )
    where
      still : (m : ℕ) → has m (without n c.nodes) ≡ true → has m c.nodes ≡ true
      still m kept = ground (arith, kept, has-without m n c.nodes)
