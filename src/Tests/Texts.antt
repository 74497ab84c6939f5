-- ===== src/Tests/Texts.antt =====
-- Lists of ids in texts.
use ndlcom.Prelude.{ℕ, ◌≡◌, ◌⊎◌, refl, true, some, List, [], ◌∷◌, ◌++◌, map, if◌then◌else◌, arith}
use ndlcom.Prelude.Counts.{has, without}
use ndlcom.Prelude.Integers.{negsuc}
use ndlcom.Wire.{addr_broadcast}
use ndlcom.Routing.{get_destination, interface_at, routing_table_init}
use ndlcom.Bridge.{Bridge}
use ndlcom.Ids.{
  Line, uses_for, ignores_broadcast, too_large, too_small, stoi, split_string_into_strings,
  convert_string_to_ids, set_routing_by_string,
}
use ndlcom.Ids.Decimals.{ignored}
use ndlcom.Ids.Routes.{
  text_of, all_numbers, set_routing_by_string-text_of, set_routing_by_string-all_numbers,
}
use ndlcom.Tests.Office.{office}

-- `,a,,` has an empty piece in front and one in the middle, and none at the end.
pieces_of : split_string_into_strings (44 ∷ 97 ∷ 44 ∷ 44 ∷ []) 44 ≡ [] ∷ (97 ∷ []) ∷ [] ∷ []
unfolding split_string_into_strings ndlcom.Ids.split_loop ndlcom.Ids.getline ndlcom.Ids.up_to
pieces_of = refl

-- ` -12x` is read as -12.
reads_sign : stoi (32 ∷ 45 ∷ 49 ∷ 50 ∷ 120 ∷ []) ≡ some (negsuc 11)
unfolding stoi ndlcom.Ids.after_spaces ndlcom.Ids.skip_spaces ndlcom.Ids.number_of
    ndlcom.Ids.digits_value
reads_sign = refl

-- `-1` becomes the broadcast id, and `300` the id 44.
wraps :
    convert_string_to_ids ((45 ∷ 49 ∷ []) ∷ (51 ∷ 48 ∷ 48 ∷ []) ∷ []) []
    ≡ (some (255 ∷ 44 ∷ []), too_small (45 ∷ 49 ∷ []) ∷ too_large (51 ∷ 48 ∷ 48 ∷ []) ∷ [])
unfolding convert_string_to_ids ndlcom.Ids.convert_loop ndlcom.Ids.convert_number stoi
    ndlcom.Ids.after_spaces ndlcom.Ids.skip_spaces ndlcom.Ids.number_of ndlcom.Ids.digits_value
wraps = refl

abbrev Office : Type 0
Office = Bridge (List ℕ) (List (ℕ × List ℕ))

abbrev some_ids : List ℕ
some_ids = 3 ∷ 255 ∷ 66 ∷ []

set_routing_by_string-text_of_example :
    (t : Office) × (set_routing_by_string office 1 (text_of some_ids) []
      ≡ (true, t, ([] ++ ignored some_ids) ++ map uses_for (without addr_broadcast some_ids)))
    × ((other : ℕ)
        → get_destination t.routing_table other ≡ (
            if has other (without addr_broadcast some_ids)
            then interface_at 1
            else get_destination office.routing_table other))
unfolding routing_table_init ndlcom.Routing.routing_table_update
set_routing_by_string-text_of_example =
    set_routing_by_string-text_of office 1 some_ids []
      (omega arith, (omega arith, (omega arith, tt))) refl refl

-- `7,x`
abbrev broken : List ℕ
broken = 55 ∷ 44 ∷ 120 ∷ []

set_routing_by_string-all_numbers_example :
    ((set_routing_by_string office 1 broken []).0
      ≡ all_numbers (split_string_into_strings broken 44))
    × ((all_numbers (split_string_into_strings broken 44) ≡ true)
        ⊎ ((set_routing_by_string office 1 broken []).1 ≡ office))
set_routing_by_string-all_numbers_example = set_routing_by_string-all_numbers office 1 broken []
