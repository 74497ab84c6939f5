-- ===== src/BridgeClass/Upkeep.antt =====
-- The other operations on the objects of a bridge keep the vectors and the lists together.
use ndlcom.Prelude.{
  ℕ, ◌<◌, ◌≡◌, refl, ap, ◌∙◌, inl, inr, true, Option, none, some, List, [], Bool-cases, ==_iff,
  ◌==◌, if◌then◌else◌, ==_refl, arith,
}
use mathlib.Core.Path.{fun_ext}
use ndlcom.Prelude.Counts.{has, occurrences}
use ndlcom.HeaderPrepare.{header_prepare_init}
use ndlcom.Routing.{all_interfaces, the_bridge}
use ndlcom.LinkedList.{LinkedList}
use ndlcom.Bridge.{clear_internal_device_id, mark_device_id_as_internal}
use ndlcom.Bridge.Registration.{IsSound, route-IsSound}
use ndlcom.Ids.{set_routing_by_string}
use ndlcom.Ids.Soundness.{set_routing_by_string-IsSound, set_routing_by_string_elsewhere}
use ndlcom.Node.{System, node_at, own_id, has_bridge, set_own_sender_id, set_node}
use ndlcom.BridgeClass.{
  BridgeClass, Wrappers, set_routing, set_own_device_id, create_external_interface,
}
use ndlcom.BridgeClass.Counting.{occurrences-map-without}
use ndlcom.BridgeClass.Ownership.{IsOwned, handlers-IsSound, put-AreNodes}
use ndlcom.BridgeClass.Creation.{create_external_interface-IsOwned}
use ndlcom.BridgeClass.Uris.{
  Drivers, InterfaceType, create_matched, create_interface, create_interface-first_match,
  from_match, last_group,
}

same_function : (f : ℕ → List ℕ) (n : ℕ) → (λ m. (if m == n then f n else f m)) ≡ f
same_function f n = fun_ext (λ m. elim (Bool-cases (m == n)) [
  | inl same ↦ rw (same, (==_iff m n).0 same) refl
  | inr differs ↦ rw differs refl
])

module _ {L V : Type 0} (list : LinkedList L) (place : ℕ → ℕ) where
  pub set_routing-IsOwned :
      (c : BridgeClass L V) (a : ℕ) (conn : List ℕ)
      → IsOwned list place c
      → IsOwned list place (set_routing c a conn).1
  unfolding set_routing
  set_routing-IsOwned c a conn owned =
      let (table, e) = set_routing_by_string_elsewhere c.bridge a conn [] in
      let sound : IsSound list (set_routing_by_string c.bridge a conn []).1 =
        set_routing_by_string-IsSound list c.bridge a conn [] owned.sound in
      rw e (record {
        sound = rw e at sound;
        quiet = owned.quiet;
        interfaces = owned.interfaces;
        handlers = owned.handlers;
        linked = owned.linked;
        nodes = owned.nodes;
      })

  node_has_bridge :
      (c : BridgeClass L V) (n : ℕ)
      → has n c.nodes ≡ true
      → IsOwned list place c
      → has_bridge c.bridge n ≡ true
  node_has_bridge c n known owned =
      let splits = occurrences-map-without place n (place n) c.nodes known owned.nodes.once in
      rw (has_bridge, owned.nodes.placed n)
        (ground (arith, splits, ==_refl (place n), owned.linked (place n)))

  pub set_own_device_id-IsOwned :
      (c : BridgeClass L V) (n own_device_id : ℕ)
      → has n c.nodes ≡ true
      → own_device_id < 256
      → IsOwned list place c
      → (d : BridgeClass L V) × (set_own_device_id c n own_device_id ≡ some d)
        × IsOwned list place d
  unfolding set_own_device_id set_own_sender_id set_node clear_internal_device_id
      mark_device_id_as_internal header_prepare_init
  set_own_device_id-IsOwned c n own_device_id known byte owned =
      let x = node_at c.bridge n in
      let cleared = clear_internal_device_id c.bridge (own_id c.bridge n) in
      let named : System L V =
        set_node cleared n (record x { header_config = header_prepare_init own_device_id }) in
      let ran : set_own_sender_id c.bridge n own_device_id
          ≡ some (mark_device_id_as_internal named (own_id named n)) =
        rw (node_has_bridge c n known owned) refl in
      let own : own_id named n ≡ own_device_id = rw (own_id, ==_refl n) refl in
      let t = mark_device_id_as_internal named own_device_id in
      let whole : set_own_sender_id c.bridge n own_device_id ≡ some t =
        ran ∙ ap (λ id. some (mark_device_id_as_internal named id)) own in
      (
        record c { bridge = t },
        rw (set_own_device_id, whole) refl,
        record {
          sound =
              route-IsSound list named own_device_id the_bridge (λ a e. ground arith) byte
                (handlers-IsSound list cleared _ _ _ (
                  route-IsSound list c.bridge (own_id c.bridge n) all_interfaces
                    (λ a e. ground arith) (owned.nodes.bytes n known) owned.sound));
          quiet = owned.quiet;
          interfaces = owned.interfaces;
          handlers = owned.handlers;
          linked = owned.linked;
          nodes = rw (same_function c.all_handler n) at (
              put-AreNodes list place c.bridge.world.nodes c.nodes c.nodes c.all_handler n
                (record x { header_config = header_prepare_init own_device_id }) (c.all_handler n)
                owned.nodes owned.nodes.once (λ m differs known. known) (owned.nodes.placed n) byte
                (owned.nodes.handlers n known));
        },
      )

  create_matched-IsOwned :
      (w : Wrappers) (drivers : Drivers V) (a flags : ℕ) (type : InterfaceType)
      (groups : List (List ℕ)) (c : BridgeClass L V)
      → occurrences a c.external_interfaces ≡ 0
      → IsOwned list place c
      → IsOwned list place (create_matched list w drivers a flags type groups c).1
  unfolding create_matched
  create_matched-IsOwned w drivers a flags type groups c new owned =
      let opens = drivers.opens type groups in
      let (opened, d) = create_external_interface list w opens c a flags in
      let made : IsOwned list place d =
        create_external_interface-IsOwned list place w opens c a flags new owned in
      elim (Bool-cases opened) [
        | inl opens_it ↦
            rw (create_matched, opens_it) (set_routing-IsOwned d a (last_group groups) made)
        | inr fails ↦ rw (create_matched, fails) made
      ]

  from_match-IsOwned :
      (w : Wrappers) (drivers : Drivers V) (a flags : ℕ)
      (found : Option (InterfaceType × List (List ℕ))) (c : BridgeClass L V)
      → occurrences a c.external_interfaces ≡ 0
      → IsOwned list place c
      → IsOwned list place (from_match list w drivers a flags found c).1
  from_match-IsOwned w drivers a flags none c new owned = owned
  from_match-IsOwned w drivers a flags (some (type, groups)) c new owned =
      create_matched-IsOwned w drivers a flags type groups c new owned

  -- Whatever the text, and also when the call throws.
  pub create_interface-IsOwned :
      (w : Wrappers) (drivers : Drivers V) (a flags : ℕ) (uri : List ℕ) (c : BridgeClass L V)
      → occurrences a c.external_interfaces ≡ 0
      → IsOwned list place c
      → IsOwned list place (create_interface list w drivers a flags uri c).1
  create_interface-IsOwned w drivers a flags uri c new owned =
      rw (create_interface-first_match list w drivers a flags uri c)
        (from_match-IsOwned w drivers a flags _ c new owned)
