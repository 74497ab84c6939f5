-- ===== src/BridgeClass/Teardown.antt =====
-- The destructors of the classes Node and Bridge.
use ndlcom.Prelude.{
  ℕ, suc, ◌<◌, ◌≡◌, refl, ap, ap₂, ◌≢◌, ◌∙◌, true, false, ==_refl, [], arith, some, length,
}
use ndlcom.Prelude.Counts.{has, occurrences, without}
use ndlcom.LinkedList.{LinkedList, head}
use ndlcom.Routing.{get_destination, interface_at}
use ndlcom.Bridge.Handling.{links_to_itself}
use ndlcom.Node.{Node, System, node_at, own_id, node_deregister}
use ndlcom.BridgeClass.{
  BridgeClass, destroy_all, destroy_external_interface, destroy_bridge_handler,
  destroy_node_handler, node_destructor, destroy_node, bridge_destructor, check_lists, warn,
  and_then,
}
use ndlcom.BridgeClass.Counting.{IsCounted, empty-IsCounted, has-IsCounted, no_occurrences}
use ndlcom.BridgeClass.Emptying.{destroy_all-without}
use ndlcom.BridgeClass.Ownership.{interfaces_of, handlers_in, IsOwned}
use ndlcom.BridgeClass.Destruction.{
  without_interface, without_handler, without_node_handler, without_node,
  destroy_external_interface-IsOwned, destroy_bridge_handler-IsOwned, destroy_node_handler-IsOwned,
  without_node-IsOwned,
}

module _ {L V : Type 0} (list : LinkedList L) (place : ℕ → ℕ) where
  -- What a destructor of a node leaves as it is.
  pub record KeepsOthers (c d : BridgeClass L V) : Type 0 where
    pub external_interfaces : d.external_interfaces ≡ c.external_interfaces
    pub bridge_handlers : d.bridge_handlers ≡ c.bridge_handlers
    pub nodes : d.nodes ≡ c.nodes
    pub out : d.out ≡ c.out

  record IsEmptying (n : ℕ) (c d : BridgeClass L V) : Type 0 where
    owned : IsOwned list place d
    byte : own_id d.bridge n < 256
    counted :
        IsCounted list (node_at d.bridge n).node_handler_list (λ b. occurrences b (d.all_handler n))
    others : KeepsOthers c d

  empty_step :
      (n : ℕ) (c d : BridgeClass L V) (a : ℕ)
      → has a (d.all_handler n) ≡ true
      → IsEmptying n c d
      → (e : BridgeClass L V) × (destroy_node_handler list n d a ≡ some e)
        × IsEmptying n c e
        × (e.all_handler n ≡ without a (d.all_handler n))
  unfolding without_node_handler ndlcom.BridgeClass.set_all_handler
  empty_step n c d a known holds =
      let (ran, owned, counted, byte) =
        destroy_node_handler-IsOwned list place d n a known holds.byte holds.counted holds.owned in
      (
        without_node_handler list n d a,
        ran,
        record {
          owned = owned;
          byte = byte;
          counted = counted;
          others = record {
            external_interfaces = holds.others.external_interfaces;
            bridge_handlers = holds.others.bridge_handlers;
            nodes = holds.others.nodes;
            out = holds.others.out;
          };
        },
        rw (==_refl n) refl,
      )

  -- The destructor of a node destroys all its handlers, and then finds its list empty.
  node_destructor-IsOwned :
      (n : ℕ) (c : BridgeClass L V)
      → own_id c.bridge n < 256
      → IsCounted list (node_at c.bridge n).node_handler_list (λ b. occurrences b (c.all_handler n))
      → IsOwned list place c
      → (d : BridgeClass L V) × (node_destructor list n c ≡ some d)
        × IsOwned list place d
        × KeepsOthers c d
  unfolding node_destructor warn occurrences
  node_destructor-IsOwned n c byte counted owned =
      let (d, ran, holds, nothing) =
        destroy_all-without (λ x. x.all_handler n) (destroy_node_handler list n) (IsEmptying n c)
          (empty_step n c) (suc (length (c.all_handler n))) c (omega arith)
          (record {
            owned = owned;
            byte = byte;
            counted = counted;
            others = record {
              external_interfaces = refl;
              bridge_handlers = refl;
              nodes = refl;
              out = refl;
            };
          }) in
      let empty : links_to_itself list (node_at d.bridge n).node_handler_list head ≡ true =
        empty-IsCounted list (node_at d.bridge n).node_handler_list
          (λ b. occurrences b (d.all_handler n)) (λ b. ap (occurrences b) nothing) holds.counted in
      (d, rw (node_destructor, ran, empty) refl, holds.owned, holds.others)

  pub destroy_node-IsOwned :
      (c : BridgeClass L V) (n : ℕ)
      → has n c.nodes ≡ true
      → IsOwned list place c
      → (d : BridgeClass L V) × (destroy_node list c n ≡ some d)
        × IsOwned list place d
        × KeepsOthers (without_node list place c n) d
  unfolding destroy_node without_node ndlcom.Node.Registration.left
      ndlcom.Bridge.clear_internal_device_id
  destroy_node-IsOwned c n known owned =
      let (ran, still) = without_node-IsOwned list place c n known owned in
      let (d, done, last, others) =
        node_destructor-IsOwned n (without_node list place c n) (owned.nodes.bytes n known)
          (owned.nodes.handlers n known) still in
      (d, rw (destroy_node, known, ran) done, last, others)

  -- Nothing stands in a list of the bridge or points to it any more, no route leads to an interface,
  -- and no warning was written.
  pub record IsTornDown (d : BridgeClass L V) : Type 0 where
    pub no_interfaces : list.entries d.bridge.external_interface_list ≡ []
    pub no_handlers : list.entries d.bridge.bridge_handler_list ≡ []
    pub loose_interfaces : (a : ℕ) → (d.bridge.interfaces a).has_bridge ≡ false
    pub loose_handlers : (b : ℕ) → (d.bridge.handlers b).has_bridge ≡ false
    pub no_routes : (id a : ℕ) → get_destination d.bridge.routing_table id ≢ interface_at a
    pub no_warning : d.out ≡ []

  record IsEmptied (d : BridgeClass L V) : Type 0 where
    owned : IsOwned list place d
    no_interfaces : d.external_interfaces ≡ []
    no_handlers : d.bridge_handlers ≡ []

  -- All vectors are empty.
  empty-IsTornDown :
      (d : BridgeClass L V) → d.nodes ≡ [] → IsEmptied d → (check_lists list d ≡ d) × IsTornDown d
  unfolding check_lists warn occurrences has
  empty-IsTornDown d no_nodes emptied =
      let owned = emptied.owned in
      let none_in : (a : ℕ) → interfaces_of d a ≡ 0 =
        λ a. ap (occurrences a) emptied.no_interfaces in
      let nothing_in : (b : ℕ) → handlers_in place d.bridge_handlers d.nodes b ≡ 0 =
        λ b. ap₂ (λ x y. handlers_in place x y b) emptied.no_handlers no_nodes in
      let interfaces : links_to_itself list d.bridge.external_interface_list head ≡ true =
        empty-IsCounted list d.bridge.external_interface_list (interfaces_of d) none_in
          owned.interfaces in
      let handlers : links_to_itself list d.bridge.bridge_handler_list head ≡ true =
        empty-IsCounted list d.bridge.bridge_handler_list
          (handlers_in place d.bridge_handlers d.nodes) nothing_in owned.handlers in
      let unlisted : (a : ℕ) → has a (list.entries d.bridge.external_interface_list) ≡ false = λ a.
        ground (
          arith,
          none_in a,
          has-IsCounted list d.bridge.external_interface_list (interfaces_of d) a owned.interfaces,
        ) in
      (
        rw (check_lists, warn, interfaces, handlers) refl,
        record {
          no_interfaces =
              no_occurrences (list.entries d.bridge.external_interface_list)
                (λ a. owned.interfaces.same a ∙ none_in a);
          no_handlers =
              no_occurrences (list.entries d.bridge.bridge_handler_list)
                (λ b. owned.handlers.same b ∙ nothing_in b);
          loose_interfaces = λ a. owned.sound.connected a ∙ unlisted a;
          loose_handlers = λ b. ground (arith, owned.linked b, nothing_in b);
          no_routes = λ id a e. absurd (ground (arith, owned.sound.routed id a e, unlisted a));
          no_warning = emptied.owned.quiet;
        },
      )

  interface_step :
      (d : BridgeClass L V) (a : ℕ)
      → has a d.external_interfaces ≡ true
      → IsOwned list place d
      → (e : BridgeClass L V) × (destroy_external_interface list d a ≡ some e)
        × IsOwned list place e
        × (e.external_interfaces ≡ without a d.external_interfaces)
  unfolding without_interface
  interface_step d a known owned =
      let (ran, still) = destroy_external_interface-IsOwned list place d a known owned in
      (without_interface list d a, ran, still, refl)

  handler_step :
      (d : BridgeClass L V) (a : ℕ)
      → has a d.bridge_handlers ≡ true
      → IsOwned list place d × (d.external_interfaces ≡ [])
      → (e : BridgeClass L V) × (destroy_bridge_handler list d a ≡ some e)
        × (IsOwned list place e × (e.external_interfaces ≡ []))
        × (e.bridge_handlers ≡ without a d.bridge_handlers)
  unfolding without_handler
  handler_step d a known (owned, empty) =
      let (ran, still) = destroy_bridge_handler-IsOwned list place d a known owned in
      (without_handler list d a, ran, (still, empty), refl)

  node_step :
      (d : BridgeClass L V) (n : ℕ)
      → has n d.nodes ≡ true
      → IsEmptied d
      → (e : BridgeClass L V) × (destroy_node list d n ≡ some e)
        × IsEmptied e
        × (e.nodes ≡ without n d.nodes)
  unfolding without_node
  node_step d n known emptied =
      let (e, ran, still, others) = destroy_node-IsOwned d n known emptied.owned in
      (
        e,
        ran,
        record {
          owned = still;
          no_interfaces = others.external_interfaces ∙ emptied.no_interfaces;
          no_handlers = others.bridge_handlers ∙ emptied.no_handlers;
        },
        others.nodes,
      )

  -- The destructor destroys every interface, every handler and every node with its handlers; then its
  -- checks find the lists empty.
  pub bridge_destructor-IsTornDown :
      (c : BridgeClass L V)
      → IsOwned list place c
      → (d : BridgeClass L V) × (bridge_destructor list c ≡ some d) × IsTornDown d
  unfolding bridge_destructor
  bridge_destructor-IsTornDown c owned =
      let (d, first, owned_d, no_interfaces) =
        destroy_all-without (λ x. x.external_interfaces) (destroy_external_interface list)
          (IsOwned list place) interface_step (suc (length c.external_interfaces)) c (omega arith)
          owned in
      let (e, second, (owned_e, empty), no_handlers) =
        destroy_all-without (λ x. x.bridge_handlers) (destroy_bridge_handler list)
          (λ x. IsOwned list place x × (x.external_interfaces ≡ [])) handler_step
          (suc (length d.bridge_handlers)) d (omega arith) (owned_d, no_interfaces) in
      let (f, third, emptied, no_nodes) =
        destroy_all-without (λ x. x.nodes) (destroy_node list) IsEmptied node_step
          (suc (length e.nodes)) e (omega arith)
          (record { owned = owned_e; no_interfaces = empty; no_handlers = no_handlers }) in
      let (checked, torn_down) = empty-IsTornDown f no_nodes emptied in
      (f, rw (bridge_destructor, first, second, third) (ap some checked), torn_down)
