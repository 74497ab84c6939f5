-- ===== src/Node/Routes.antt =====
-- The id of a node in the routing table: `ndlcomNodeRegister`, `ndlcomNodeDeregister` and
-- `ndlcomNodeSetOwnSenderId` of src/Node.c, and what messages from outside can do to it.
use mathlib.Core.Option
use ndlcom.Prelude.{
  ℕ, ◌<◌, ◌≡◌, ◌≢◌, refl, sym, ap, ◌∙◌, inl, inr, Bool-cases, true, false, some, List, Bool, ◌==◌,
  ==_refl, if◌then◌else◌, length,
}
use ndlcom.Prelude.Counts.{occurrences}
use ndlcom.Wire.{Header, ByteOrder}
use ndlcom.HeaderPrepare.{header_prepare_init}
use ndlcom.Encoder.Frame.{frame}
use ndlcom.Routing.{
  Destination, all_interfaces, the_bridge, interface_at, get_destination, routing_table_update,
}
use ndlcom.Routing.Laws.{IsTable, routing_table_update-IsTable, get_destination-update}
use ndlcom.LinkedList.{LinkedList}
use ndlcom.ExternalInterface.{is_mirror}
use ndlcom.Bridge.{
  forwarding_suppressed, Callbacks, process_outgoing_message, mark_device_id_as_internal,
  clear_internal_device_id,
}
use ndlcom.Bridge.Recipients.{recipients}
use ndlcom.Bridge.Deliveries.{Sends, process_outgoing_message-ordinary}
use ndlcom.Bridge.Handling.{HandlerCallbacks, register_bridge_handler, check_bridge_handler}
use ndlcom.Bridge.Reading.{process_external_interface}
use ndlcom.Bridge.Reading.Internal.{Internal, KeepsInternal, process_external_interface-Internal}
use ndlcom.Node.{
  Node, get_own_device_id, System, Nodes, node_at, own_id, has_bridge, set_node, node_register,
  set_own_sender_id,
}

module _ {L V : Type 0} (list : LinkedList L) where
  register_bridge_handler-routing_table :
      (s : System L V) (b : ℕ) → (register_bridge_handler list s b).routing_table ≡ s.routing_table
  unfolding register_bridge_handler
  register_bridge_handler-routing_table s b = elim (Bool-cases (check_bridge_handler list s b)) [
    | inl known ↦ simp known refl
    | inr fresh ↦ simp fresh refl
  ]

  register_bridge_handler-world :
      (s : System L V) (b : ℕ) → (register_bridge_handler list s b).world ≡ s.world
  unfolding register_bridge_handler
  register_bridge_handler-world s b = elim (Bool-cases (check_bridge_handler list s b)) [
    | inl known ↦ simp known refl
    | inr fresh ↦ simp fresh refl
  ]

  node_register-Internal :
      (s t : System L V) (n : ℕ)
      → IsTable s.routing_table
      → own_id s n < 256
      → node_register list s n ≡ some t
      → Internal (own_id s n) t
  unfolding node_register mark_device_id_as_internal
  node_register-Internal s t n table byte e =
      let u = register_bridge_handler list s (node_at s n).bridge_handler in
      let same : u.routing_table ≡ s.routing_table =
        register_bridge_handler-routing_table s (node_at s n).bridge_handler in
      let own : own_id u n ≡ own_id s n =
        ap (λ w. (w.nodes n).header_config.own_sender_id)
          (register_bridge_handler-world s (node_at s n).bridge_handler) in
      elim (Bool-cases (has_bridge u n)) [
        | inl linked ↦
            let is_t : mark_device_id_as_internal u (own_id u n) ≡ t =
              Option.some-injective _ _ (simp linked at e) in
            rw (sym is_t, same, own)
              (
                routing_table_update-IsTable s.routing_table (own_id s n) the_bridge table,
                get_destination-update s.routing_table (own_id s n) (own_id s n) the_bridge table
                      byte
                    ∙ rw (==_refl (own_id s n)) refl,
              )
        | inr loose ↦ absurd (Option.none-ne-some t (simp loose at e))
      ]

module _ {L V : Type 0} (list : LinkedList L) (callbacks : Callbacks (Nodes L V))
    (calls : HandlerCallbacks L (Nodes L V)) (order : ByteOrder) where
  -- Interfaces are read, one after the other, with their handlers, from the first state to the second.
  pub data Reads (s : System L V) : System L V → Type 0 where
    at_first : Reads s s
    then_reads :
        (bridge_rounds byte_rounds a k : ℕ) (t u : System L V)
        → Reads s t
        → process_external_interface list callbacks calls order bridge_rounds byte_rounds t a
          ≡ some (u, k)
        → Reads s u

  Reads-Internal :
      (id : ℕ) (s u : System L V)
      → KeepsInternal list callbacks calls order id
      → Reads s u
      → Internal id s
      → Internal id u
  Reads-Internal id s _ keeps at_first inside = inside
  Reads-Internal id s _ keeps (then_reads bridge_rounds byte_rounds a k t u before ran) inside =
      rw ran at (
        process_external_interface-Internal list callbacks calls order id bridge_rounds byte_rounds
          t a keeps (Reads-Internal id s t keeps before inside))

  -- A node whose id has 8 bits has registered with a bridge whose table has its full size, and no
  -- handler takes the mark of the id out of the table. Then interfaces were read, any of them, any
  -- number of times and whatever bytes they gave, also packets with the node's own id as their sender,
  -- with all that the bridge and the handlers did about it. A message for the node, with a payload of
  -- the announced length, from another place is still written to no interface but mirrors.
  pub node_register-no_forward :
      (s t u : System L V) (n : ℕ) (h : Header) (payload : List ℕ) (origin : Destination) (a : ℕ)
      → IsTable s.routing_table
      → own_id s n < 256
      → node_register list s n ≡ some t
      → KeepsInternal list callbacks calls order (own_id s n)
      → Reads t u
      → h.receiver_id ≡ own_id s n
      → h.data_len < 256
      → length payload ≡ h.data_len
      → is_mirror (u.interfaces a) ≡ false
      → origin ≢ interface_at a
      → Sends list callbacks u
          (frame order h payload)
          (recipients list u h.receiver_id origin)
          (process_outgoing_message list callbacks order u h payload origin)
        × (occurrences a (recipients list u h.receiver_id origin) ≡ 0)
  node_register-no_forward s t u n h payload origin a table byte registered keeps reads ours size
        counted ordinary other =
      let (still, inside) =
        Reads-Internal (own_id s n) t u keeps reads
          (node_register-Internal list s t n table byte registered) in
      let (sent, count) =
        process_outgoing_message-ordinary list callbacks order u h payload origin a size counted
          ordinary other in
      let here : get_destination u.routing_table h.receiver_id ≡ the_bridge = rw ours inside in
      (sent, count ∙ rw here (nothing (forwarding_suppressed u origin the_bridge)))
    where
      nothing : (b : Bool) → ◌≡◌ {A = ℕ} (if b then 0 else 0) 0
      nothing true = refl
      nothing false = refl

module _ {L V : Type 0} where
  pub set_node-node_at : (s : System L V) (n : ℕ) (x : Node L) → node_at (set_node s n x) n ≡ x
  unfolding set_node
  set_node-node_at s n x = rw (==_refl n) refl

  -- A node that has a bridge takes a new id: it is the node's id from then on, the counters start
  -- again at 0, the new id leads to the bridge, the old one to all interfaces where it is another, and
  -- no other route changes.
  pub set_own_sender_id-get_destination :
      (s : System L V) (n id : ℕ)
      → has_bridge s n ≡ true
      → IsTable s.routing_table
      → own_id s n < 256
      → id < 256
      → (t : System L V) × (set_own_sender_id s n id ≡ some t)
        × (get_own_device_id t n ≡ id)
        × ((node_at t n).header_config ≡ header_prepare_init id)
        × ((other : ℕ)
            → get_destination t.routing_table other ≡ (
                if id == other
                then the_bridge
                else if own_id s n == other
                then all_interfaces
                else get_destination s.routing_table other))
  unfolding set_own_sender_id get_own_device_id mark_device_id_as_internal clear_internal_device_id
      set_node header_prepare_init
  set_own_sender_id-get_destination s n id linked table old_byte byte =
      let cleared = clear_internal_device_id s (own_id s n) in
      let named : System L V =
        set_node cleared n
          (record (node_at cleared n) { header_config = header_prepare_init id }) in
      let here =
        set_node-node_at cleared n
          (record (node_at cleared n) { header_config = header_prepare_init id }) in
      let first = routing_table_update s.routing_table (own_id s n) all_interfaces in
      (
        mark_device_id_as_internal named id,
        rw linked (
            ap (λ i. some (mark_device_id_as_internal named i))
              (ap (λ x. x.header_config.own_sender_id) here)),
        ap (λ x. x.header_config.own_sender_id) here,
        ap (λ x. x.header_config) here,
        λ other.
            get_destination-update first id other the_bridge
              (routing_table_update-IsTable s.routing_table (own_id s n) all_interfaces table) byte
            ∙ ap (λ d. if id == other then the_bridge else d)
                (get_destination-update s.routing_table (own_id s n) other all_interfaces table
                  old_byte),
      )
