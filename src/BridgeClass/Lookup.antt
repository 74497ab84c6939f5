-- ===== src/BridgeClass/Lookup.antt =====
-- The functions of the class Bridge that look an interface up, of src/Bridge.cpp.
use ndlcom.Prelude.{
  ℕ, Bool, true, false, ◌&&◌, ◌==◌, Option, none, some, List, [], ◌∷◌, map, length, if◌then◌else◌,
}
use ndlcom.BridgeClass.{BridgeClass}

abbrev pub same_text : List ℕ → List ℕ → Bool
same_text [] [] = true
same_text (x ∷ xs) (y ∷ ys) = (x == y) && same_text xs ys
same_text _ _ = false

-- The loop over the interfaces; `label` is the member of the object at an address.
unfoldable pub find_name : (ℕ → List ℕ) → List ℕ → List ℕ → Option ℕ
find_name label [] name = none
find_name label (a ∷ rest) name =
    let found = find_name label rest name in if same_text (label a) name then some a else found

unfoldable pub find_origin : List ℕ → ℕ → Option ℕ
find_origin [] origin = none
find_origin (a ∷ rest) origin =
    let found = find_origin rest origin in if a == origin then some a else found

module _ {L V : Type 0} where
  unfoldable pub get_interface_by_name : (ℕ → List ℕ) → BridgeClass L V → List ℕ → Option ℕ
  get_interface_by_name label c name = find_name label c.external_interfaces name

  unfoldable pub get_interface_by_origin : BridgeClass L V → ℕ → Option ℕ
  get_interface_by_origin c origin = find_origin c.external_interfaces origin

  unfoldable pub get_interface_names : (ℕ → List ℕ) → BridgeClass L V → List (List ℕ)
  get_interface_names label c = map label c.external_interfaces

  unfoldable pub get_interface_count : BridgeClass L V → ℕ
  get_interface_count c = length c.external_interfaces
