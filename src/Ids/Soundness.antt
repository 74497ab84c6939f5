-- ===== src/Ids/Soundness.antt =====
-- Whatever a text says, the bridge stays sound, and nothing but its routing table changes.
use ndlcom.Prelude.{
  ℕ, ◌<◌, ◌≡◌, refl, inl, inr, Option, none, some, Option-cases, List, [], ◌∷◌, ◌++◌, All,
  All-append, Bool-cases, arith,
}
use ndlcom.Prelude.Integers.{ℤ, pos, negsuc}
use ndlcom.Routing.{RoutingTable}
use ndlcom.LinkedList.{LinkedList}
use ndlcom.Bridge.{Bridge, set_routing_for_device_id, add_routing_information}
use ndlcom.Bridge.Registration.{IsSound, set_routing-IsSound}
use ndlcom.Ids.{
  Line, uses_for, low_byte, is_broadcast, stoi, convert_number, convert_loop, convert_string_to_ids,
  split_string_into_strings, set_routes, set_converted, set_routing_by_string,
}

abbrev pub AreIds : List ℕ → Type 0
AreIds ids = All (λ id. id < 256) ids

low_byte-lt : (number : ℤ) → low_byte number < 256
low_byte-lt (pos n) = omega arith
low_byte-lt (negsuc n) = omega arith

convert_number-AreIds :
    (it : List ℕ) (number : ℤ) (retval : List ℕ) (out : List Line)
    → AreIds retval
    → AreIds (convert_number it number retval out).0
unfolding convert_number
convert_number-AreIds it number retval out bytes = elim (Bool-cases (is_broadcast number)) [
  | inl skipped ↦ simp skipped bytes
  | inr taken ↦
      simp taken
        (All-append (λ id. id < 256) retval (low_byte number ∷ []) bytes (low_byte-lt number, tt))
]

abbrev AreSomeIds : Option (List ℕ) → Type 0
AreSomeIds none = Unit
AreSomeIds (some ids) = AreIds ids

convert_loop-AreSomeIds :
    (numbers : List (List ℕ)) (retval : List ℕ) (out : List Line)
    → AreIds retval
    → AreSomeIds (convert_loop numbers retval out).0
unfolding convert_loop
convert_loop-AreSomeIds [] retval out bytes = bytes
convert_loop-AreSomeIds (it ∷ rest) retval out bytes = elim (Option-cases (stoi it)) [
  | inl nothing ↦ rw (convert_loop, nothing) tt
  | inr (number, found) ↦
      let (ids, lines) = convert_number it number retval out in
      rw (convert_loop, found)
        (convert_loop-AreSomeIds rest ids lines (convert_number-AreIds it number retval out bytes))
]

module _ {L W : Type 0} (list : LinkedList L) where
  set_routes-IsSound :
      (ids : List ℕ) (a : ℕ) (s : Bridge L W) (out : List Line)
      → AreIds ids
      → IsSound list s
      → IsSound list (set_routes ids a s out).0
  unfolding set_routes
  set_routes-IsSound [] a s out bytes sound = sound
  set_routes-IsSound (id ∷ rest) a s out bytes sound =
      set_routes-IsSound rest a (set_routing_for_device_id s a id) (out ++ uses_for id ∷ []) bytes.1
        (set_routing-IsSound list s a id bytes.0 sound)

  set_converted-IsSound :
      (converted : Option (List ℕ)) (a : ℕ) (s : Bridge L W) (out : List Line)
      → AreSomeIds converted
      → IsSound list s
      → IsSound list (set_converted converted a s out).1
  unfolding set_converted
  set_converted-IsSound none a s out bytes sound = sound
  set_converted-IsSound (some ids) a s out bytes sound = set_routes-IsSound ids a s out bytes sound

  -- Whatever the text, and also when the call throws: no interface stands in the list of the bridge
  -- twice, exactly those in the list point to the bridge, and the routing table leads to no other
  -- interface, if all this held before.
  pub set_routing_by_string-IsSound :
      (s : Bridge L W) (a : ℕ) (text : List ℕ) (out : List Line)
      → IsSound list s
      → IsSound list (set_routing_by_string s a text out).1
  unfolding set_routing_by_string convert_string_to_ids
  set_routing_by_string-IsSound s a text out sound =
      let pieces = split_string_into_strings text 44 in
      let (ids, lines) = convert_loop pieces [] out in
      set_converted-IsSound ids a s lines (convert_loop-AreSomeIds pieces [] out tt) sound

module _ {L W : Type 0} where
  abbrev with_table : Bridge L W → RoutingTable → Bridge L W
  with_table s table = record s { routing_table = table }

  set_routes_elsewhere :
      (ids : List ℕ) (a : ℕ) (s : Bridge L W) (out : List Line)
      → (set_routes ids a s out).0 ≡ with_table s (set_routes ids a s out).0.routing_table
  unfolding set_routes set_routing_for_device_id add_routing_information
  set_routes_elsewhere [] a s out = refl
  set_routes_elsewhere (id ∷ rest) a s out = elim (Bool-cases (s.interfaces a).has_bridge) [
    | inl linked ↦
        simp linked
          (set_routes_elsewhere rest a (add_routing_information s id a) (out ++ uses_for id ∷ []))
    | inr loose ↦ simp loose (set_routes_elsewhere rest a s (out ++ uses_for id ∷ []))
  ]

  set_converted_elsewhere :
      (converted : Option (List ℕ)) (a : ℕ) (s : Bridge L W) (out : List Line)
      → (set_converted converted a s out).1
        ≡ with_table s (set_converted converted a s out).1.routing_table
  unfolding set_converted
  set_converted_elsewhere none a s out = refl
  set_converted_elsewhere (some ids) a s out = set_routes_elsewhere ids a s out

  -- Nothing but the routing table changes.
  pub set_routing_by_string_elsewhere :
      (s : Bridge L W) (a : ℕ) (text : List ℕ) (out : List Line)
      → (t : RoutingTable) × ((set_routing_by_string s a text out).1 ≡ with_table s t)
  unfolding set_routing_by_string convert_string_to_ids
  set_routing_by_string_elsewhere s a text out =
      let (ids, lines) = convert_loop (split_string_into_strings text 44) [] out in
      (_, set_converted_elsewhere ids a s lines)
