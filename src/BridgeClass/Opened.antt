-- ===== src/BridgeClass/Opened.antt =====
-- What a text makes of a bridge, and the way back from a route to the object.
use ndlcom.Prelude.{
  ℕ, ◌≡◌, refl, ap, ◌∙◌, inl, inr, Bool, true, false, none, some, length, List, [], ◌∷◌, ◌++◌, ◌==◌,
  ==_iff, ==_refl, if◌then◌else◌, Bool-cases, arith,
}
use ndlcom.Prelude.Counts.{has, occurrences, has-occurrences, without}
use ndlcom.Wire.{addr_broadcast}
use ndlcom.Routing.{get_destination, interface_at}
use ndlcom.Routing.Laws.{IsTable}
use ndlcom.LinkedList.{LinkedList}
use ndlcom.Bridge.{register_external_interface, check_external_interface, set_bridge}
use ndlcom.Ids.{split_string_into_strings}
use ndlcom.Ids.Routes.{
  text_of, all_numbers, set_routing_by_string-text_of, set_routing_by_string-all_numbers,
}
use ndlcom.Ids.Soundness.{AreIds, set_routing_by_string_elsewhere}
use ndlcom.BridgeClass.{
  BridgeClass, Wrappers, create_external_interface, construct_interface, set_routing,
}
use ndlcom.BridgeClass.Lookup.{find_origin, get_interface_by_origin}
use ndlcom.BridgeClass.Counting.{has-IsCounted, occurrences-append_one}
use ndlcom.BridgeClass.Ownership.{interfaces_of, IsOwned}
use ndlcom.BridgeClass.Uris.{
  InterfaceType, serial, udp, fpga, pipe, can, pty, tcp_client, created, throws, Drivers,
  create_matched, create_interface, first_match, last_group, lock_or_throw,
  create_interface-first_match,
}

find_origin-has : (xs : List ℕ) (a : ℕ) → find_origin xs a ≡ (if has a xs then some a else none)
unfolding find_origin has
find_origin-has [] a = refl
find_origin-has (x ∷ xs) a = elim (Bool-cases (x == a)) [
  | inl same ↦ rw (same, (==_iff x a).0 same) refl
  | inr differs ↦ rw differs (find_origin-has xs a)
]

module _ {L V : Type 0} (list : LinkedList L) (place : ℕ → ℕ) where
  -- Every route that leads to an interface leads to one that the bridge owns, and its address is
  -- enough to find the object.
  pub get_interface_by_origin-get_destination :
      (c : BridgeClass L V) (id a : ℕ)
      → IsOwned list place c
      → get_destination c.bridge.routing_table id ≡ interface_at a
      → get_interface_by_origin c a ≡ some a
  unfolding get_interface_by_origin
  get_interface_by_origin-get_destination c id a owned leads =
      let listed = owned.sound.routed id a leads in
      let known : has a c.external_interfaces ≡ true = ground (
        arith,
        listed,
        has-occurrences a c.external_interfaces,
        has-IsCounted list c.bridge.external_interface_list (interfaces_of c) a owned.interfaces,
      ) in
      rw (find_origin-has c.external_interfaces a, known) refl

-- The driver opens behind the constructor of its base.
abbrev pub IsOpened : {V : Type 0} → Bool × V → Type 0
IsOpened result = result.0 ≡ true

abbrev pub all_types : List InterfaceType
all_types = serial ∷ udp ∷ fpga ∷ pipe ∷ can ∷ pty ∷ tcp_client ∷ []

has_behind : (a : ℕ) (xs : List ℕ) → has a (xs ++ a ∷ []) ≡ true
has_behind a xs =
    ground (arith, ==_refl a, has-occurrences a (xs ++ a ∷ []), occurrences-append_one a a xs)

lock_unless_thrown :
    (a : ℕ) (returned : Bool)
    → lock_or_throw (if returned then created a else throws)
      ≡ (if returned then created a else throws)
lock_unless_thrown a true = refl
lock_unless_thrown a false = refl

module _ {L V : Type 0} (list : LinkedList L) (w : Wrappers) (drivers : Drivers V)
    (a flags : ℕ) where
  -- The interface stands in the vector and on the bridge, which has its old routes.
  record IsAdded (c d : BridgeClass L V) : Type 0 where
    in_vector : d.external_interfaces ≡ c.external_interfaces ++ a ∷ []
    on_bridge : (d.bridge.interfaces a).has_bridge ≡ true
    old_routes : d.bridge.routing_table ≡ c.bridge.routing_table

  opened-IsAdded :
      (opens : V → Bool × V) (c : BridgeClass L V)
      → has a (list.entries c.bridge.external_interface_list) ≡ false
      → IsOpened (opens c.bridge.world.outside)
      → IsAdded c (create_external_interface list w opens c a flags).1
  unfolding create_external_interface register_external_interface check_external_interface
      construct_interface set_bridge
  opened-IsAdded opens c fresh opened =
      simp (opened, fresh)
        (record { in_vector = refl; on_bridge = rw (==_refl a) refl; old_routes = refl })

  made_by : InterfaceType → List (List ℕ) → BridgeClass L V → BridgeClass L V
  made_by type groups c = (create_external_interface list w (drivers.opens type groups) c a flags).1

  create_matched-opened :
      (type : InterfaceType) (groups : List (List ℕ)) (c : BridgeClass L V)
      → IsOpened (drivers.opens type groups c.bridge.world.outside)
      → create_matched list w drivers a flags type groups c ≡ (
          let (returned, e) = set_routing (made_by type groups c) a (last_group groups) in
          (if returned then created a else throws, e))
  unfolding made_by create_matched create_external_interface construct_interface
  create_matched-opened type groups c opened =
      let opens = drivers.opens type groups in
      let returns : (create_external_interface list w opens c a flags).0 ≡ true =
        simp opened refl in
      rw (create_matched, returns) refl

  made_by-IsAdded :
      (place : ℕ → ℕ) (type : InterfaceType) (groups : List (List ℕ)) (c : BridgeClass L V)
      → IsOwned list place c
      → occurrences a c.external_interfaces ≡ 0
      → IsOpened (drivers.opens type groups c.bridge.world.outside)
      → IsAdded c (made_by type groups c)
  unfolding made_by
  made_by-IsAdded place type groups c owned new opened =
      let l = c.bridge.external_interface_list in
      let fresh : has a (list.entries l) ≡ false =
        ground (arith, has-IsCounted list l (interfaces_of c) a owned.interfaces) in
      opened-IsAdded (drivers.opens type groups) c fresh opened

  -- A text that matches a type whose driver opens, at an address where no interface is: the interface
  -- is made and stays, and the call returns it exactly if each piece of the last group of the match
  -- starts with a number that fits an `int`; otherwise it throws.
  pub create_interface-all_numbers :
      (place : ℕ → ℕ) (uri : List ℕ) (c : BridgeClass L V) (type : InterfaceType)
      (groups : List (List ℕ))
      → IsOwned list place c
      → occurrences a c.external_interfaces ≡ 0
      → first_match list w drivers a flags all_types uri ≡ some (type, groups)
      → IsOpened (drivers.opens type groups c.bridge.world.outside)
      → (let (outcome, d) = create_interface list w drivers a flags uri c in
          (outcome ≡ (
            if all_numbers (split_string_into_strings (last_group groups) 44)
            then created a
            else throws))
          × (d.external_interfaces ≡ c.external_interfaces ++ a ∷ [])
          × ((d.bridge.interfaces a).has_bridge ≡ true))
  unfolding set_routing
  create_interface-all_numbers place uri c type groups owned new found opened =
      rw
        (
          create_interface-first_match list w drivers a flags uri c,
          found,
          create_matched-opened type groups c opened,
        )
        (let d = made_by type groups c in
          let added = made_by-IsAdded place type groups c owned new opened in
          let conn = last_group groups in
          let reads : (set_routing d a conn).0 ≡ all_numbers (split_string_into_strings conn 44) =
            (set_routing_by_string-all_numbers d.bridge a conn []).0 in
          let (table, e) = set_routing_by_string_elsewhere d.bridge a conn [] in
          (
            rw reads (lock_unless_thrown a (all_numbers (split_string_into_strings conn 44))),
            added.in_vector,
            rw e added.on_bridge,
          ))

  -- A text that matches a type whose driver opens, at an address where no interface is, and whose last
  -- group lists ids of 8 bits in decimal with commas between them: the call returns the interface,
  -- which is found by its address; every id of the list but the broadcast id leads to it, and every
  -- other id leads to where it led before.
  pub create_interface-text_of :
      (place : ℕ → ℕ) (uri ids : List ℕ) (c : BridgeClass L V) (type : InterfaceType)
      (groups : List (List ℕ))
      → IsOwned list place c
      → occurrences a c.external_interfaces ≡ 0
      → first_match list w drivers a flags all_types uri ≡ some (type, groups)
      → IsOpened (drivers.opens type groups c.bridge.world.outside)
      → last_group groups ≡ text_of ids
      → AreIds ids
      → (let (outcome, d) = create_interface list w drivers a flags uri c in
          (outcome ≡ created a)
          × (get_interface_by_origin d a ≡ some a)
          × ((other : ℕ)
              → get_destination d.bridge.routing_table other ≡ (
                  if has other (without addr_broadcast ids)
                  then interface_at a
                  else get_destination c.bridge.routing_table other)))
  unfolding set_routing get_interface_by_origin
  create_interface-text_of place uri ids c type groups owned new found opened lists bytes =
      rw
        (
          create_interface-first_match list w drivers a flags uri c,
          found,
          create_matched-opened type groups c opened,
        )
        (let d = made_by type groups c in
          let added = made_by-IsAdded place type groups c owned new opened in
          let known : has a d.external_interfaces ≡ true =
            rw added.in_vector (has_behind a c.external_interfaces) in
          let table : IsTable d.bridge.routing_table =
            ap length added.old_routes ∙ owned.sound.table in
          let (t, ran, routes) =
            set_routing_by_string-text_of d.bridge a ids [] bytes added.on_bridge table in
          rw (lists, ran)
            (
              refl,
              rw (find_origin-has d.external_interfaces a, known) refl,
              λ other.
                  routes other
                  ∙ ap
                      (λ r.
                        (if has other (without addr_broadcast ids)
                          then interface_at a
                          else get_destination r other))
                      added.old_routes,
            ))
