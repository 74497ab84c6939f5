-- ===== src/Node/Registration.antt =====
-- A node in the lists: on its bridge, and with its own handlers, of src/Node.c.
use ndlcom.Prelude.{
  ℕ, ◌<◌, ◌≡◌, refl, sym, ap, ap₂, ◌∙◌, true, false, some, ◌∷◌, ◌==◌, ==_refl, if◌then◌else◌, arith,
}
use ndlcom.Prelude.Counts.{has, without, without-cons}
use ndlcom.Routing.{all_interfaces, the_bridge, get_destination}
use ndlcom.Routing.Laws.{IsTable, routing_table_update-IsTable, get_destination-update}
use ndlcom.LinkedList.{LinkedList}
use ndlcom.Bridge.{mark_device_id_as_internal, clear_internal_device_id}
use ndlcom.Bridge.Handling.{
  check_bridge_handler, register_bridge_handler, deregister_bridge_handler,
}
use ndlcom.Node.{System, node_at, own_id, has_bridge, node_register, node_deregister}

module _ {L V : Type 0} (list : LinkedList L) where
  -- The node `n` of `s` has joined the bridge.
  pub record IsRegistered (s : System L V) (n : ℕ) (t : System L V) : Type 0 where
    pub in_front :
        list.entries t.bridge_handler_list
        ≡ (node_at s n).bridge_handler ∷ list.entries s.bridge_handler_list
    pub linked : has_bridge t n ≡ true
    pub same_world : t.world ≡ s.world
    pub routes :
        (other : ℕ)
        → get_destination t.routing_table other
          ≡ (if own_id s n == other then the_bridge else get_destination s.routing_table other)

  -- And it has left it again.
  pub record IsReleased (s : System L V) (n : ℕ) (t : System L V) : Type 0 where
    pub as_before : list.entries t.bridge_handler_list ≡ list.entries s.bridge_handler_list
    pub loose : has_bridge t n ≡ false
    pub same_world : t.world ≡ s.world
    pub routes :
        (other : ℕ)
        → get_destination t.routing_table other
          ≡ (if own_id s n == other then all_interfaces else get_destination s.routing_table other)

  unfoldable pub joined : System L V → ℕ → System L V
  joined s b = record s {
    bridge_handler_list = list.list_add b s.bridge_handler_list;
    handlers = λ c. (if c == b then record (s.handlers c) { has_bridge = true } else s.handlers c);
  }

  pub register_bridge_handler-joined :
      (s : System L V) (b : ℕ)
      → has b (list.entries s.bridge_handler_list) ≡ false
      → register_bridge_handler list s b ≡ joined s b
  unfolding register_bridge_handler check_bridge_handler joined
  register_bridge_handler-joined s b fresh = rw fresh refl

  pub joined-has_bridge :
      (s : System L V) (n : ℕ) → has_bridge (joined s (node_at s n).bridge_handler) n ≡ true
  unfolding joined
  joined-has_bridge s n = rw (has_bridge, ==_refl (node_at s n).bridge_handler) refl

  unfoldable pub left : System L V → ℕ → System L V
  left s b = record s {
    bridge_handler_list = list.list_del_init b s.bridge_handler_list;
    handlers = λ c. (if c == b then record (s.handlers c) { has_bridge = false } else s.handlers c);
  }

  pub deregister_bridge_handler-left :
      (s : System L V) (b : ℕ)
      → has b (list.entries s.bridge_handler_list) ≡ true
      → deregister_bridge_handler list s b ≡ left s b
  unfolding deregister_bridge_handler check_bridge_handler left
  deregister_bridge_handler-left s b known = rw known refl

  pub left-has_bridge :
      (s : System L V) (n : ℕ) → has_bridge (left s (node_at s n).bridge_handler) n ≡ false
  unfolding left
  left-has_bridge s n = rw (has_bridge, ==_refl (node_at s n).bridge_handler) refl

  pub node_register-joined :
      (s : System L V) (n b id : ℕ)
      → (node_at s n).bridge_handler ≡ b
      → own_id s n ≡ id
      → has b (list.entries s.bridge_handler_list) ≡ false
      → node_register list s n ≡ some (mark_device_id_as_internal (joined s b) id)
  unfolding node_register joined
  node_register-joined s n b id place own fresh =
      let base : node_register list s n
          ≡ some (mark_device_id_as_internal (joined s (node_at s n).bridge_handler) (own_id s n)) =
        rw
          (
            register_bridge_handler-joined s (node_at s n).bridge_handler (rw place fresh),
            joined-has_bridge s n,
          )
          refl in
      base ∙ ap₂ (λ x y. some (mark_device_id_as_internal (joined s x) y)) place own

  pub node_deregister-left :
      (s : System L V) (n b : ℕ)
      → (node_at s n).bridge_handler ≡ b
      → has_bridge s n ≡ true
      → has b (list.entries s.bridge_handler_list) ≡ true
      → node_deregister list s n ≡ some (left (clear_internal_device_id s (own_id s n)) b)
  unfolding node_deregister clear_internal_device_id left
  node_deregister-left s n b place linked known =
      let cleared = clear_internal_device_id s (own_id s n) in
      let base : node_deregister list s n ≡ some (left cleared (node_at s n).bridge_handler) =
        rw
          (
            linked,
            deregister_bridge_handler-left cleared (node_at s n).bridge_handler (rw place known),
          )
          refl in
      base ∙ ap (λ x. some (left cleared x)) place

  node_register-IsRegistered :
      (s : System L V) (n : ℕ)
      → has (node_at s n).bridge_handler (list.entries s.bridge_handler_list) ≡ false
      → IsTable s.routing_table
      → own_id s n < 256
      → (t : System L V) × (node_register list s n ≡ some t)
        × IsRegistered s n t
        × IsTable t.routing_table
  unfolding node_register mark_device_id_as_internal joined
  node_register-IsRegistered s n fresh table byte =
      let b = (node_at s n).bridge_handler in
      (
        mark_device_id_as_internal (joined s b) (own_id s n),
        rw (register_bridge_handler-joined s b fresh, joined-has_bridge s n) refl,
        record {
          in_front = list.entries-list_add b s.bridge_handler_list fresh;
          linked = joined-has_bridge s n;
          same_world = refl;
          routes = λ other.
              get_destination-update s.routing_table (own_id s n) other the_bridge table byte;
        },
        routing_table_update-IsTable s.routing_table (own_id s n) the_bridge table,
      )

  node_deregister-IsReleased :
      (s t : System L V) (n : ℕ)
      → has (node_at s n).bridge_handler (list.entries s.bridge_handler_list) ≡ false
      → own_id s n < 256
      → IsRegistered s n t
      → IsTable t.routing_table
      → (u : System L V) × (node_deregister list t n ≡ some u) × IsReleased s n u
  unfolding node_deregister clear_internal_device_id left has
  node_deregister-IsReleased s t n fresh byte registered table =
      let b = (node_at t n).bridge_handler in
      let same : node_at t n ≡ node_at s n = ap (λ w. w.nodes n) registered.same_world in
      let own : own_id t n ≡ own_id s n = ap (λ x. x.header_config.own_sender_id) same in
      let cleared = clear_internal_device_id t (own_id t n) in
      let front : list.entries t.bridge_handler_list ≡ b ∷ list.entries s.bridge_handler_list =
        registered.in_front
        ∙ ap (λ x. x.bridge_handler ∷ list.entries s.bridge_handler_list) (sym same) in
      let known : has b (list.entries t.bridge_handler_list) ≡ true = rw (front, ==_refl b) refl in
      (
        left cleared b,
        rw (registered.linked, deregister_bridge_handler-left cleared b known) refl,
        record {
          as_before =
              list.entries-list_del_init b t.bridge_handler_list known
              ∙ ap (without b) front
              ∙ without-cons b (list.entries s.bridge_handler_list) (
                  ap (λ x. has x.bridge_handler (list.entries s.bridge_handler_list)) same ∙ fresh);
          loose = left-has_bridge cleared n;
          same_world = registered.same_world;
          routes = λ other.
              get_destination-update t.routing_table (own_id t n) other all_interfaces table
                (rw own byte)
              ∙ rw (own, registered.routes other) (ground arith);
        },
      )

  -- A node whose id has 8 bits and whose handler is not in the list of the bridge registers: its
  -- handler stands in front of the list, its own id leads to the bridge, no other route changes. Then
  -- it deregisters: the list is as it was, the node has no bridge, and the own id leads to all
  -- interfaces, wherever it led before; every other route is as it was.
  pub node_deregister-node_register :
      (s : System L V) (n : ℕ)
      → has (node_at s n).bridge_handler (list.entries s.bridge_handler_list) ≡ false
      → IsTable s.routing_table
      → own_id s n < 256
      → (t : System L V) × (node_register list s n ≡ some t)
        × IsRegistered s n t
        × ((u : System L V) × (node_deregister list t n ≡ some u) × IsReleased s n u)
  node_deregister-node_register s n fresh table byte =
      let (t, ran, registered, still) = node_register-IsRegistered s n fresh table byte in
      (t, ran, registered, node_deregister-IsReleased s t n fresh byte registered still)
