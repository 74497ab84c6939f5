-- ===== src/Routing.antt =====
-- src/Routing.c and include/ndlcom/Routing.h. A `void *` of the table is one of the pointers that the
-- bridge stores there; NDLCOM_ROUTING_ALL_INTERFACES is the null pointer.
pub mod Laws
use ndlcom.Prelude.{
  ℕ, suc, Bool, true, false, List, [], ◌∷◌, ltb, leb, ◌==◌, if◌then◌else◌, get_or, set, replicate,
}
use ndlcom.Wire.{max_number_of_devices}

-- The pointers in the table: null, the bridge itself, or the external interface of this address.
pub data Destination : Type 0 where
  all_interfaces the_bridge : Destination
  interface_at : ℕ → Destination

abbrev pub same_destination : Destination → Destination → Bool
same_destination all_interfaces all_interfaces = true
same_destination the_bridge the_bridge = true
same_destination (interface_at a) (interface_at b) = a == b
same_destination _ _ = false

abbrev pub RoutingTable : Type 0
RoutingTable = List Destination

-- The loop writes every entry of the array, whatever it held.
unfoldable pub routing_table_init : RoutingTable
routing_table_init = replicate max_number_of_devices all_interfaces

unfoldable pub get_destination : RoutingTable → ℕ → Destination
get_destination table receiver_id =
    if ltb receiver_id max_number_of_devices
    then get_or table receiver_id all_interfaces
    else all_interfaces

unfoldable pub routing_table_update : RoutingTable → ℕ → Destination → RoutingTable
routing_table_update table sender_id pointer =
    if leb max_number_of_devices sender_id then table else set table sender_id pointer

-- The loop over the entries.
unfoldable pub invalidate_interface : RoutingTable → Destination → RoutingTable
invalidate_interface [] pointer = []
invalidate_interface (entry ∷ rest) pointer =
    (if same_destination entry pointer then all_interfaces else entry)
    ∷ invalidate_interface rest pointer
