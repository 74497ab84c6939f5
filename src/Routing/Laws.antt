-- ===== src/Routing/Laws.antt =====
-- The routing table as a function from device ids to destinations.
use ndlcom.Prelude.{
  ℕ, zero, suc, ◌<◌, ◌≡◌, refl, sym, ap, ◌∙◌, ◌≢◌, inl, inr, Bool-cases, true, false, [], ◌∷◌, ◌==◌,
  ==_iff, if◌then◌else◌, length, get_or, length-set, get_or-set_self, get_or-set_ne,
  get_or-replicate, arith,
}
use ndlcom.Routing.{
  Destination, all_interfaces, the_bridge, interface_at, same_destination, RoutingTable,
  routing_table_init, get_destination, routing_table_update, invalidate_interface,
}

abbrev pub IsTable : RoutingTable → Type 0
IsTable table = length table ≡ 256

pub same_destination_iff :
    (a b : Destination)
    → (same_destination a b ≡ true → a ≡ b) × (a ≡ b → same_destination a b ≡ true)
same_destination_iff all_interfaces all_interfaces = (λ e. refl, λ e. refl)
same_destination_iff all_interfaces the_bridge = (λ e. cc, λ e. cc)
same_destination_iff all_interfaces (interface_at b) = (λ e. cc, λ e. cc)
same_destination_iff the_bridge all_interfaces = (λ e. cc, λ e. cc)
same_destination_iff the_bridge the_bridge = (λ e. refl, λ e. refl)
same_destination_iff the_bridge (interface_at b) = (λ e. cc, λ e. cc)
same_destination_iff (interface_at a) all_interfaces = (λ e. cc, λ e. cc)
same_destination_iff (interface_at a) the_bridge = (λ e. cc, λ e. cc)
same_destination_iff (interface_at a) (interface_at b) =
    (λ e. ap interface_at ((==_iff a b).0 e), λ e. ground arith)

pub routing_table_init-IsTable : IsTable routing_table_init
unfolding routing_table_init
routing_table_init-IsTable = refl

pub routing_table_update-IsTable :
    (table : RoutingTable) (id : ℕ) (d : Destination)
    → IsTable table
    → IsTable (routing_table_update table id d)
unfolding routing_table_update
routing_table_update-IsTable table id d h = ground (arith, length-set table id d)

pub invalidate_interface-IsTable :
    (table : RoutingTable) (d : Destination) → length (invalidate_interface table d) ≡ length table
unfolding invalidate_interface
invalidate_interface-IsTable [] d = refl
invalidate_interface-IsTable (e ∷ table) d = ap suc (invalidate_interface-IsTable table d)

-- A fresh table sends everything to all interfaces.
pub get_destination-init : (id : ℕ) → get_destination routing_table_init id ≡ all_interfaces
unfolding get_destination routing_table_init
get_destination-init id = rw (get_or-replicate 256 all_interfaces id) (ground arith)

-- After an update the id leads to the given destination, and every other id where it led before.
pub get_destination-update :
    (table : RoutingTable) (id other : ℕ) (d : Destination)
    → IsTable table
    → id < 256
    → get_destination (routing_table_update table id d) other
      ≡ (if id == other then d else get_destination table other)
unfolding get_destination routing_table_update
get_destination-update table id other d h small = ground (
  arith,
  get_or-set_self table id d all_interfaces,
  get_or-set_ne table id other d all_interfaces,
)

get_or-invalidate :
    (table : RoutingTable) (d : Destination) (i : ℕ)
    → get_or (invalidate_interface table d) i all_interfaces ≡ (
        if same_destination (get_or table i all_interfaces) d
        then all_interfaces
        else get_or table i all_interfaces)
unfolding invalidate_interface
get_or-invalidate [] d i = ground arith
get_or-invalidate (e ∷ table) d zero = refl
get_or-invalidate (e ∷ table) d (suc i) = get_or-invalidate table d i

-- After an interface is taken out of the table, every id that led to it leads to all interfaces, and
-- every other id where it led before.
pub get_destination-invalidate :
    (table : RoutingTable) (d : Destination) (id : ℕ)
    → get_destination (invalidate_interface table d) id ≡ (
        if same_destination (get_destination table id) d
        then all_interfaces
        else get_destination table id)
unfolding get_destination
get_destination-invalidate table d id = ground (arith, get_or-invalidate table d id)

-- So no id leads to an interface that was taken out.
pub get_destination-invalidate_ne :
    (table : RoutingTable) (a id : ℕ)
    → get_destination (invalidate_interface table (interface_at a)) id ≢ interface_at a
get_destination-invalidate_ne table a id e = ground (
  arith,
  get_destination-invalidate table (interface_at a) id,
  same_destination_iff (get_destination table id) (interface_at a),
)

-- An id that leads to an interface after another was taken out led there before.
pub invalidate_interface-route :
    (table : RoutingTable) (a id b : ℕ)
    → get_destination (invalidate_interface table (interface_at a)) id ≡ interface_at b
    → (get_destination table id ≡ interface_at b) × ((b == a) ≡ false)
invalidate_interface-route table a id b e =
    elim (Bool-cases (same_destination (get_destination table id) (interface_at a))) [
      | inl taken ↦ absurd (ground (arith, get_destination-invalidate table (interface_at a) id))
      | inr kept ↦
          let same : get_destination table id ≡ interface_at b =
            sym (simp kept at (get_destination-invalidate table (interface_at a) id)) ∙ e in
          (same, rw same at kept)
    ]
