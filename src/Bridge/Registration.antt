-- ===== src/Bridge/Registration.antt =====
-- The list of the interfaces, the pointers back to the bridge and the routing table, under the
-- functions of src/Bridge.c and src/ExternalInterface.c that change one of them.
use ndlcom.Prelude.{
  ℕ, ◌<◌, ◌≤◌, ◌≡◌, sym, ◌∙◌, inl, inr, Bool-cases, Bool, true, false, List, [], ◌∷◌, ◌==◌, arith,
}
use ndlcom.Prelude.Counts.{has, occurrences, occurrences-cons_le, has-without, occurrences-without}
use ndlcom.Routing.{
  Destination, all_interfaces, the_bridge, interface_at, get_destination, routing_table_update,
}
use ndlcom.Routing.Laws.{
  IsTable, routing_table_init-IsTable, routing_table_update-IsTable, invalidate_interface-IsTable,
  get_destination-init, get_destination-update, invalidate_interface-route,
}
use ndlcom.LinkedList.{LinkedList}
use ndlcom.Bridge.{
  Bridge, bridge_init, check_external_interface, set_bridge, register_external_interface,
  deregister_external_interface, bridge_set_flags, add_routing_information,
  mark_device_id_as_internal, clear_internal_device_id, set_routing_for_device_id,
}

module _ {L W : Type 0} (list : LinkedList L) where
  abbrev registered : Bridge L W → ℕ → Bool
  registered s a = has a (list.entries s.external_interface_list)

  -- No interface stands in the list twice, exactly those in the list point back to the bridge, and the
  -- routing table leads to no other interface.
  pub record IsSound (s : Bridge L W) : Type 0 where
    pub distinct : (a : ℕ) → occurrences a (list.entries s.external_interface_list) ≤ 1
    pub connected : (a : ℕ) → (s.interfaces a).has_bridge ≡ registered s a
    pub routed :
        (id a : ℕ) → get_destination s.routing_table id ≡ interface_at a → registered s a ≡ true
    pub table : IsTable s.routing_table

  pub bridge_init-IsSound :
      (s : Bridge L W)
      → ((a : ℕ) → (s.interfaces a).has_bridge ≡ false)
      → IsSound (bridge_init list s)
  unfolding bridge_init has occurrences
  bridge_init-IsSound s alone = record {
    distinct = λ a. rw (list.entries-init_list_head s.external_interface_list) (omega arith);
    connected = λ a. rw (list.entries-init_list_head s.external_interface_list) (alone a);
    routed = λ id a e. absurd (nowhere id a e);
    table = routing_table_init-IsTable;
  }
    where
      nowhere :
          (id a : ℕ) → get_destination (bridge_init list s).routing_table id ≡ interface_at a → ⊥
      nowhere id a e = ground (arith, get_destination-init id)

  pub register_external_interface-IsSound :
      (s : Bridge L W) (a : ℕ) → IsSound s → IsSound (register_external_interface list s a)
  unfolding register_external_interface check_external_interface set_bridge has occurrences
  register_external_interface-IsSound s a sound = elim (Bool-cases (registered s a)) [
    | inl known ↦ simp known sound
    | inr fresh ↦ simp fresh (record {
      distinct = λ b. rw (list.entries-list_add a s.external_interface_list fresh) (
          occurrences-cons_le a b (list.entries s.external_interface_list) fresh
            (sound.distinct b));
      connected = λ b.
          rw (list.entries-list_add a s.external_interface_list fresh)
            (ground (arith, sound.connected b));
      routed = λ id b e.
          rw (list.entries-list_add a s.external_interface_list fresh)
            (ground (arith, sound.routed id b e));
      table = sound.table;
    })
  ]

  pub deregister_external_interface-IsSound :
      (s : Bridge L W) (a : ℕ) → IsSound s → IsSound (deregister_external_interface list s a)
  unfolding deregister_external_interface check_external_interface set_bridge
  deregister_external_interface-IsSound s a sound = elim (Bool-cases (registered s a)) [
    | inl known ↦ simp known (record {
      distinct = λ b. rw (list.entries-list_del_init a s.external_interface_list known) (
          ground (
            arith,
            occurrences-without b a (list.entries s.external_interface_list),
            sound.distinct b,
          ));
      connected = λ b. rw (list.entries-list_del_init a s.external_interface_list known) (
          ground
            (arith, has-without b a (list.entries s.external_interface_list), sound.connected b));
      routed = λ id b e. rw (list.entries-list_del_init a s.external_interface_list known) (
          let (before, differs) = invalidate_interface-route s.routing_table a id b e in
          ground (
            arith,
            has-without b a (list.entries s.external_interface_list),
            sound.routed id b before,
          ));
      table = invalidate_interface-IsTable s.routing_table (interface_at a) ∙ sound.table;
    })
    | inr unknown ↦ simp unknown sound
  ]

  pub route-IsSound :
      (s : Bridge L W) (id : ℕ) (d : Destination)
      → ((a : ℕ) → d ≡ interface_at a → registered s a ≡ true)
      → id < 256
      → IsSound s
      → IsSound (record s { routing_table = routing_table_update s.routing_table id d })
  route-IsSound s id d known byte sound = record {
    distinct = sound.distinct;
    connected = sound.connected;
    routed = λ other a e. elim (Bool-cases (id == other)) [
      | inl same ↦ known a (
          sym (simp same at (get_destination-update s.routing_table id other d sound.table byte))
          ∙ e)
      | inr differs ↦ sound.routed other a (
          sym (simp differs at (get_destination-update s.routing_table id other d sound.table byte))
          ∙ e)
    ];
    table = routing_table_update-IsTable s.routing_table id d sound.table;
  }

  pub set_routing-IsSound :
      (s : Bridge L W) (a id : ℕ)
      → id < 256
      → IsSound s
      → IsSound (set_routing_for_device_id s a id)
  unfolding set_routing_for_device_id add_routing_information
  set_routing-IsSound s a id byte sound = elim (Bool-cases (s.interfaces a).has_bridge) [
    | inl linked ↦
        simp linked (
          route-IsSound s id (interface_at a) (λ b e. ground (arith, sound.connected a)) byte sound)
    | inr loose ↦ simp loose sound
  ]

-- A call of one of the functions on the bridge; `adds_route id a` is the one that does not look whether
-- the interface `a` is registered.
pub data Call : Type 0 where
  registers deregisters : ℕ → Call
  routes adds_route : ℕ → ℕ → Call
  marks_internal clears_internal : ℕ → Call
  sets_flags : ℕ → Call

module _ {L W : Type 0} (list : LinkedList L) where
  unfoldable pub call : Bridge L W → Call → Bridge L W
  call s (registers a) = register_external_interface list s a
  call s (deregisters a) = deregister_external_interface list s a
  call s (routes a id) = set_routing_for_device_id s a id
  call s (adds_route id a) = add_routing_information s id a
  call s (marks_internal id) = mark_device_id_as_internal s id
  call s (clears_internal id) = clear_internal_device_id s id
  call s (sets_flags flags) = bridge_set_flags s flags

  unfoldable pub call_all : Bridge L W → List Call → Bridge L W
  call_all s [] = s
  call_all s (c ∷ rest) = call_all (call s c) rest

  -- Ids have 8 bits, and a route is only added for an interface that the list holds at that time.
  abbrev pub IsAllowed : Bridge L W → Call → Type 0
  IsAllowed s (routes a id) = id < 256
  IsAllowed s (adds_route id a) = (id < 256) × (registered list s a ≡ true)
  IsAllowed s (marks_internal id) = id < 256
  IsAllowed s (clears_internal id) = id < 256
  IsAllowed s _ = Unit

  -- Each call is allowed behind those before it.
  unfoldable pub AreAllowed : Bridge L W → List Call → Type 0
  AreAllowed s [] = Unit
  AreAllowed s (c ∷ rest) = IsAllowed s c × AreAllowed (call s c) rest

  call-IsSound :
      (s : Bridge L W) (c : Call) → IsAllowed s c → IsSound list s → IsSound list (call s c)
  unfolding call mark_device_id_as_internal clear_internal_device_id bridge_set_flags
      add_routing_information
  call-IsSound s (registers a) ok sound = register_external_interface-IsSound list s a sound
  call-IsSound s (deregisters a) ok sound = deregister_external_interface-IsSound list s a sound
  call-IsSound s (routes a id) ok sound = set_routing-IsSound list s a id ok sound
  call-IsSound s (adds_route id a) (byte, known) sound =
      route-IsSound list s id (interface_at a) (λ b e. ground (arith, known)) byte sound
  call-IsSound s (marks_internal id) ok sound =
      route-IsSound list s id the_bridge (λ a e. ground arith) ok sound
  call-IsSound s (clears_internal id) ok sound =
      route-IsSound list s id all_interfaces (λ a e. ground arith) ok sound
  call-IsSound s (sets_flags flags) ok sound = record {
    distinct = sound.distinct;
    connected = sound.connected;
    routed = sound.routed;
    table = sound.table;
  }

  calls-IsSound :
      (s : Bridge L W) (calls : List Call)
      → AreAllowed s calls
      → IsSound list s
      → IsSound list (call_all s calls)
  unfolding call_all AreAllowed
  calls-IsSound s [] ok sound = sound
  calls-IsSound s (c ∷ rest) (here, ok) sound =
      calls-IsSound (call s c) rest ok (call-IsSound s c here sound)

  -- A bridge that no interface points to is initialised. Then interfaces are registered, taken out and
  -- routed to, ids marked and cleared and flags set, in any order, with ids of 8 bits; the call that
  -- adds a route without looking at the interface is only made for one that is registered at that
  -- time. Then no interface stands in the list twice, exactly those in the list point to the bridge,
  -- and the routing table leads to no other interface.
  pub call_all-IsSound :
      (s : Bridge L W) (calls : List Call)
      → ((a : ℕ) → (s.interfaces a).has_bridge ≡ false)
      → AreAllowed (bridge_init list s) calls
      → IsSound list (call_all (bridge_init list s) calls)
  call_all-IsSound s calls alone ok =
      calls-IsSound (bridge_init list s) calls ok (bridge_init-IsSound list s alone)
