-- ===== src/BridgeClass/Printing.antt =====
-- Bridge::printRoutingTable of src/Bridge.cpp, and what its lines say about the routing table.
use ndlcom.Prelude.{
  ℕ, zero, suc, ◌+◌, ◌<◌, ◌≤◌, ◌≡◌, refl, sym, ap, ◌∙◌, inl, inr, false, ◌==◌, ==_iff, ltb, Option,
  none, some, List, [], ◌∷◌, map, length, get_or, if◌then◌else◌, Bool-cases, arith,
}
use ndlcom.Prelude.Counts.{has, occurrences, keep, has-occurrences}
use ndlcom.Routing.{
  Destination, all_interfaces, the_bridge, interface_at, same_destination, RoutingTable,
  get_destination,
}
use ndlcom.Routing.Laws.{IsTable}
use ndlcom.LinkedList.{LinkedList, head, Visits}
use ndlcom.Bridge.Handling.{links_to_itself}
use ndlcom.BridgeClass.{BridgeClass}
use ndlcom.BridgeClass.Emptying.{List-cases}
use ndlcom.BridgeClass.Ownership.{IsOwned}

-- The loop over the device ids: those whose entry is the interface.
unfoldable pub printed_ids : RoutingTable → ℕ → ℕ → List ℕ
printed_ids [] device_id a = []
printed_ids (entry ∷ rest) device_id a =
    let others = printed_ids rest (suc device_id) a in
    if same_destination entry (interface_at a) then device_id ∷ others else others

module _ {L V : Type 0} (list : LinkedList L) where
  -- No line for an interface, or one for each, with the interface whose label it shows and its ids.
  unfoldable pub print_routing_table : BridgeClass L V → Option (List (ℕ × List ℕ))
  print_routing_table c =
      if links_to_itself list c.bridge.external_interface_list head
      then none
      else some (
          map (λ a. (a, printed_ids c.bridge.routing_table 0 a))
            (list.entries c.bridge.external_interface_list))

-- The interfaces in whose lines an id is printed.
abbrev pub lines_with : ℕ → List (ℕ × List ℕ) → List ℕ
lines_with id [] = []
lines_with id ((a, ids) ∷ rest) = if has id ids then a ∷ lines_with id rest else lines_with id rest

abbrev pub shown_for : ℕ → Option (List (ℕ × List ℕ)) → List ℕ
shown_for id none = []
shown_for id (some lines) = lines_with id lines

-- The interface that a route leads to.
abbrev pub interface_of : Destination → List ℕ
interface_of (interface_at a) = a ∷ []
interface_of _ = []

earlier : (table : RoutingTable) (d a id : ℕ) → id < d → has id (printed_ids table d a) ≡ false
unfolding printed_ids has
earlier [] d a id before = refl
earlier (entry ∷ rest) d a id before = elim (Bool-cases (same_destination entry (interface_at a))) [
  | inl listed ↦ simp listed (ground (arith, earlier rest (suc d) a id (omega arith)))
  | inr other ↦ simp other (earlier rest (suc d) a id (omega arith))
]

printed_ids-has :
    (table : RoutingTable) (d a k : ℕ)
    → has (d + k) (printed_ids table d a)
      ≡ same_destination (get_or table k all_interfaces) (interface_at a)
unfolding printed_ids has
printed_ids-has [] d a k = refl
printed_ids-has (entry ∷ rest) d a zero =
    elim (Bool-cases (same_destination entry (interface_at a))) [
      | inl listed ↦ simp listed (ground arith)
      | inr other ↦ simp other (earlier rest (suc d) a (d + 0) (omega arith))
    ]
printed_ids-has (entry ∷ rest) d a (suc k) =
    let shift : suc d + k ≡ d + suc k = omega arith in
    let below : has (d + suc k) (printed_ids rest (suc d) a)
        ≡ same_destination (get_or rest k all_interfaces) (interface_at a) =
      rw shift at (printed_ids-has rest (suc d) a k) in
    elim (Bool-cases (same_destination entry (interface_at a))) [
      | inl listed ↦
          let differs : (d == d + suc k) ≡ false = ground arith in simp (listed, differs) below
      | inr other ↦ simp other below
    ]

get_or_beyond :
    (table : RoutingTable) (k : ℕ)
    → length table ≤ k
    → get_or table k all_interfaces ≡ all_interfaces
get_or_beyond [] k far = refl
get_or_beyond (x ∷ table) zero far = absurd (omega arith)
get_or_beyond (x ∷ table) (suc k) far = get_or_beyond table k (omega arith)

get_or-get_destination :
    (table : RoutingTable) (id : ℕ)
    → IsTable table
    → get_or table id all_interfaces ≡ get_destination table id
unfolding get_destination
get_or-get_destination table id full = elim (Bool-cases (ltb id 256)) [
  | inl inside ↦ rw inside refl
  | inr outside ↦ rw outside (get_or_beyond table id (ground (arith, outside)))
]

keep_none : (a : ℕ) (xs : List ℕ) → occurrences a xs ≡ 0 → keep (λ b. a == b) xs ≡ []
unfolding keep occurrences
keep_none a [] absent = refl
keep_none a (x ∷ xs) absent =
    let differs : (a == x) ≡ false = ground arith in simp differs (keep_none a xs (ground arith))

keep_one : (a : ℕ) (xs : List ℕ) → occurrences a xs ≡ 1 → keep (λ b. a == b) xs ≡ a ∷ []
unfolding keep occurrences
keep_one a [] there = absurd (omega arith)
keep_one a (x ∷ xs) there = elim (Bool-cases (a == x)) [
  | inl same ↦
      let e : a ≡ x = (==_iff a x).0 same in
      let gone : keep (λ b. a == b) xs ≡ [] = keep_none a xs (ground arith) in
      simp same (rw gone (ap (λ y. y ∷ []) (sym e)))
  | inr differs ↦ simp differs (keep_one a xs (ground arith))
]

-- The lines are those of the interfaces that the route leads to.
lines_with-keep :
    (table : RoutingTable) (id : ℕ) (xs : List ℕ)
    → IsTable table
    → lines_with id (map (λ a. (a, printed_ids table 0 a)) xs)
      ≡ keep (λ b. same_destination (get_destination table id) (interface_at b)) xs
unfolding keep
lines_with-keep table id [] full = refl
lines_with-keep table id (x ∷ xs) full =
    let start : 0 + id ≡ id = omega arith in
    let here : has id (printed_ids table 0 x)
        ≡ same_destination (get_destination table id) (interface_at x) =
      rw start at (printed_ids-has table 0 x id)
      ∙ ap (λ d. same_destination d (interface_at x)) (get_or-get_destination table id full) in
    rw (here, lines_with-keep table id xs full) refl

keep_nowhere : (xs : List ℕ) → keep (λ b. false) xs ≡ []
unfolding keep
keep_nowhere [] = refl
keep_nowhere (x ∷ xs) = keep_nowhere xs

keep-interface_of :
    (d : Destination) (xs : List ℕ)
    → ((a : ℕ) → d ≡ interface_at a → occurrences a xs ≡ 1)
    → keep (λ b. same_destination d (interface_at b)) xs ≡ interface_of d
keep-interface_of all_interfaces xs once = keep_nowhere xs
keep-interface_of the_bridge xs once = keep_nowhere xs
keep-interface_of (interface_at a) xs once = keep_one a xs (once a refl)

module _ {L V : Type 0} (list : LinkedList L) (place : ℕ → ℕ) where
  -- Every id is printed in the line of the interface that its route leads to and in no other, and an
  -- id without such a route is printed in no line.
  pub print_routing_table-get_destination :
      (c : BridgeClass L V) (id : ℕ)
      → IsOwned list place c
      → shown_for id (print_routing_table list c)
        ≡ interface_of (get_destination c.bridge.routing_table id)
  unfolding print_routing_table
  print_routing_table-get_destination c id owned =
      let l = c.bridge.external_interface_list in
      let table = c.bridge.routing_table in
      let once : (a : ℕ)
          → get_destination table id ≡ interface_at a
          → occurrences a (list.entries l) ≡ 1 =
        λ a leads. ground (
          arith,
          owned.sound.routed id a leads,
          has-occurrences a (list.entries l),
          owned.sound.distinct a,
        ) in
      let kept : lines_with id (map (λ a. (a, printed_ids table 0 a)) (list.entries l))
          ≡ interface_of (get_destination table id) =
        lines_with-keep table id (list.entries l) owned.sound.table
        ∙ keep-interface_of (get_destination table id) (list.entries l) once in
      elim (List-cases (list.entries l)) [
        | inl empty ↦ elim (Bool-cases (links_to_itself list l head)) [
          | inl links ↦ rw links (rw empty at kept)
          | inr chained ↦ rw chained kept
        ]
        | inr (a, rest, e) ↦
            let visited : Visits (list.next l) head (a ∷ rest) =
              rw e at (list.next-entries l owned.sound.distinct) in
            let chained : links_to_itself list l head ≡ false = rw (visited.0) refl in
            rw chained kept
      ]
