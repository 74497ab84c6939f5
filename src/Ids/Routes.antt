-- ===== src/Ids/Routes.antt =====
-- The routes that a text sets, and a text that has no number where one should stand.
use ndlcom.Prelude.{
  ℕ, ◌≡◌, refl, sym, ap, ◌∙◌, ◌⊎◌, inl, inr, Bool, true, false, not, ◌&&◌, ◌==◌, Option, none, some,
  Option-cases, List, [], ◌∷◌, ◌++◌, map, append-nil, append_assoc, if◌then◌else◌, All, length,
  Bool-cases, arith,
}
use ndlcom.Prelude.Counts.{has, keep, without}
use ndlcom.Prelude.Integers.{ℤ}
use ndlcom.Wire.{addr_broadcast}
use ndlcom.Routing.{interface_at, get_destination}
use ndlcom.Routing.Laws.{IsTable, routing_table_update-IsTable, get_destination-update}
use ndlcom.Bridge.{Bridge, set_routing_for_device_id, add_routing_information}
use ndlcom.Ids.{
  Line, uses_for, stoi, convert_number, convert_loop, convert_string_to_ids,
  split_string_into_strings, set_routes, set_converted, set_routing_by_string,
}
use ndlcom.Ids.Pieces.{IsPiece, join, split_string_into_strings-join}
use ndlcom.Ids.Soundness.{AreIds}
use ndlcom.Ids.Decimals.{decimal, decimal-IsPiece, ignored, convert_loop-decimal}

-- The ids in decimal, with commas between them.
abbrev pub text_of : List ℕ → List ℕ
text_of ids = join 44 (map decimal ids)

abbrev pub is_some : Option ℤ → Bool
is_some none = false
is_some (some number) = true

-- Each piece has a number in front that fits.
abbrev pub all_numbers : List (List ℕ) → Bool
all_numbers [] = true
all_numbers (it ∷ rest) = is_some (stoi it) && all_numbers rest

abbrev returned : Option (List ℕ) → Bool
returned none = false
returned (some ids) = true

convert_loop-all_numbers :
    (numbers : List (List ℕ)) (retval : List ℕ) (out : List Line)
    → returned (convert_loop numbers retval out).0 ≡ all_numbers numbers
unfolding convert_loop
convert_loop-all_numbers [] retval out = refl
convert_loop-all_numbers (it ∷ rest) retval out = elim (Option-cases (stoi it)) [
  | inl nothing ↦ rw (convert_loop, nothing) refl
  | inr (number, found) ↦
      let (ids, lines) = convert_number it number retval out in
      rw (convert_loop, found) (convert_loop-all_numbers rest ids lines)
]

decimals-ArePieces : (ids : List ℕ) → AreIds ids → All (IsPiece 44) (map decimal ids)
decimals-ArePieces [] bytes = tt
decimals-ArePieces (id ∷ rest) bytes = (decimal-IsPiece id bytes.0, decimals-ArePieces rest bytes.1)

keep-AreIds : (p : ℕ → Bool) (ids : List ℕ) → AreIds ids → AreIds (keep p ids)
unfolding keep
keep-AreIds p [] bytes = tt
keep-AreIds p (id ∷ rest) bytes = elim (Bool-cases (p id)) [
  | inl kept ↦ simp kept (bytes.0, keep-AreIds p rest bytes.1)
  | inr dropped ↦ simp dropped (keep-AreIds p rest bytes.1)
]

module _ {L W : Type 0} where
  set_converted-returned :
      (converted : Option (List ℕ)) (a : ℕ) (s : Bridge L W) (out : List Line)
      → ((set_converted converted a s out).0 ≡ returned converted)
        × ((returned converted ≡ true) ⊎ ((set_converted converted a s out).1 ≡ s))
  unfolding set_converted
  set_converted-returned none a s out = (refl, inr refl)
  set_converted-returned (some ids) a s out = (refl, inl refl)

  -- The call returns exactly if each piece of the text starts with a number that fits an `int`.
  -- Otherwise it throws, and no route has changed.
  pub set_routing_by_string-all_numbers :
      (s : Bridge L W) (a : ℕ) (text : List ℕ) (out : List Line)
      → ((set_routing_by_string s a text out).0 ≡ all_numbers (split_string_into_strings text 44))
        × ((all_numbers (split_string_into_strings text 44) ≡ true)
            ⊎ ((set_routing_by_string s a text out).1 ≡ s))
  unfolding set_routing_by_string convert_string_to_ids
  set_routing_by_string-all_numbers s a text out =
      let pieces = split_string_into_strings text 44 in
      let (ids, lines) = convert_loop pieces [] out in
      rw (← convert_loop-all_numbers pieces [] out) (set_converted-returned ids a s lines)

  set_routes_lines :
      (ids : List ℕ) (a : ℕ) (s : Bridge L W) (out : List Line)
      → (set_routes ids a s out).1 ≡ out ++ map uses_for ids
  unfolding set_routes
  set_routes_lines [] a s out = sym (append-nil out)
  set_routes_lines (id ∷ rest) a s out =
      set_routes_lines rest a (set_routing_for_device_id s a id) (out ++ uses_for id ∷ [])
      ∙ append_assoc out (uses_for id ∷ []) (map uses_for rest)

  set_routes-get_destination :
      (ids : List ℕ) (a other : ℕ) (s : Bridge L W) (out : List Line)
      → AreIds ids
      → (s.interfaces a).has_bridge ≡ true
      → IsTable s.routing_table
      → get_destination (set_routes ids a s out).0.routing_table other
        ≡ (if has other ids then interface_at a else get_destination s.routing_table other)
  unfolding set_routes set_routing_for_device_id add_routing_information has
  set_routes-get_destination [] a other s out bytes linked table = refl
  set_routes-get_destination (id ∷ rest) a other s out bytes linked table =
      let t = set_routing_for_device_id s a id in
      let same : t ≡ add_routing_information s id a = rw linked refl in
      let back = interface_at a in
      set_routes-get_destination rest a other t (out ++ uses_for id ∷ []) bytes.1
        (ap (λ u. (u.interfaces a).has_bridge) same ∙ linked)
        (ap (λ u. length u.routing_table) same
          ∙ routing_table_update-IsTable s.routing_table id back table)
      ∙ ap (λ u. (if has other rest then back else get_destination u.routing_table other)) same
      ∙ rw (get_destination-update s.routing_table id other back table bytes.0) (ground arith)

  -- The text lists ids of 8 bits in decimal with commas between them, and the interface stands on the
  -- bridge. Then the call returns, every id of the text but the broadcast id leads to the interface,
  -- and every other id leads to where it led before. It writes one line for each broadcast id, and
  -- behind them one line for each route.
  pub set_routing_by_string-text_of :
      (s : Bridge L W) (a : ℕ) (ids : List ℕ) (out : List Line)
      → AreIds ids
      → (s.interfaces a).has_bridge ≡ true
      → IsTable s.routing_table
      → (t : Bridge L W) × (set_routing_by_string s a (text_of ids) out
          ≡ (true, t, (out ++ ignored ids) ++ map uses_for (without addr_broadcast ids)))
        × ((other : ℕ)
            → get_destination t.routing_table other ≡ (
                if has other (without addr_broadcast ids)
                then interface_at a
                else get_destination s.routing_table other))
  unfolding set_routing_by_string convert_string_to_ids set_converted without
  set_routing_by_string-text_of s a ids out bytes linked table =
      let split : split_string_into_strings (text_of ids) 44 ≡ map decimal ids =
        split_string_into_strings-join 44 (map decimal ids) (decimals-ArePieces ids bytes) in
      let kept = without addr_broadcast ids in
      let (t, lines) = set_routes kept a s (out ++ ignored ids) in
      (
        t,
        rw (split, convert_loop-decimal ids [] out bytes)
            (ap (λ x. (true, t, x)) (set_routes_lines kept a s (out ++ ignored ids))),
        λ other.
            set_routes-get_destination kept a other s (out ++ ignored ids)
              (keep-AreIds (λ id. not (id == addr_broadcast)) ids bytes) linked table,
      )
