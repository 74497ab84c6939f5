-- ===== src/BridgeClass/Uris.antt =====
-- Bridge::createInterface of src/Bridge.cpp, with the recursion over the types of interfaces of
-- include/ndlcom/Bridge.hpp. Whether a text matches the regular expression of a type, and with which
-- groups, is a parameter, as are the constructors of the drivers.
use ndlcom.Prelude.{
  ℕ, ◌≡◌, refl, ap, inl, inr, Bool, Option, none, some, Option-cases, List, [], ◌∷◌, if◌then◌else◌,
}
use ndlcom.LinkedList.{LinkedList}
use ndlcom.BridgeClass.{BridgeClass, Wrappers, create_external_interface, set_routing}

pub data InterfaceType : Type 0 where
  serial udp fpga pipe can pty tcp_client : InterfaceType

-- The pointer to the interface at an address, a null pointer, or an exception.
pub data Outcome : Type 0 where
  created : ℕ → Outcome
  null_pointer throws : Outcome

-- The groups of `std::regex_match` with `T::uri`, and the constructor of the type with these groups.
pub record Drivers (V : Type 0) : Type 0 where
  pub matches : InterfaceType → List ℕ → Option (List (List ℕ))
  pub opens : InterfaceType → List (List ℕ) → V → Bool × V

-- `match[match.size() - 1].str()`
abbrev pub last_group : List (List ℕ) → List ℕ
last_group [] = []
last_group (g ∷ []) = g
last_group (g ∷ h ∷ rest) = last_group (h ∷ rest)

-- What becomes of a null pointer in the constructor of `std::shared_ptr`, `std::bad_weak_ptr`.
abbrev pub lock_or_throw : Outcome → Outcome
lock_or_throw (created a) = created a
lock_or_throw _ = throws

module _ {L V : Type 0} (list : LinkedList L) (w : Wrappers) (drivers : Drivers V)
    (a flags : ℕ) where
  -- The specialisation for one type, behind a match; the interface gets the address `a`.
  unfoldable pub create_matched :
      InterfaceType → List (List ℕ) → BridgeClass L V → Outcome × BridgeClass L V
  create_matched type groups c =
      let (opened, d) = create_external_interface list w (drivers.opens type groups) c a flags in
      let (returned, e) = set_routing d a (last_group groups) in
      if opened then (if returned then created a else throws, e) else (throws, d)

  -- It is called with two types at least.
  unfoldable pub create_interface_by_match :
      List InterfaceType → List ℕ → BridgeClass L V → Outcome × BridgeClass L V
  create_interface_by_match (first ∷ second ∷ []) uri c = elim (drivers.matches first uri) [
    | some groups ↦ create_matched first groups c
    | none ↦ elim (drivers.matches second uri) [
      | some groups ↦ create_matched second groups c
      | none ↦ (null_pointer, c)
    ]
  ]
  create_interface_by_match (first ∷ second ∷ third ∷ rest) uri c =
      elim (drivers.matches first uri) [
        | some groups ↦ create_matched first groups c
        | none ↦ create_interface_by_match (second ∷ third ∷ rest) uri c
      ]
  create_interface_by_match _ uri c = (null_pointer, c)

  unfoldable pub create_interface : List ℕ → BridgeClass L V → Outcome × BridgeClass L V
  create_interface uri c =
      let (outcome, d) =
        create_interface_by_match (serial ∷ udp ∷ fpga ∷ pipe ∷ can ∷ pty ∷ tcp_client ∷ []) uri
          c in
      (lock_or_throw outcome, d)

  -- The first of the types that match, with its groups.
  abbrev pub first_match : List InterfaceType → List ℕ → Option (InterfaceType × List (List ℕ))
  first_match [] uri = none
  first_match (type ∷ rest) uri = elim (drivers.matches type uri) [
    | some groups ↦ some (type, groups)
    | none ↦ first_match rest uri
  ]

  abbrev pub from_match :
      Option (InterfaceType × List (List ℕ)) → BridgeClass L V → Outcome × BridgeClass L V
  from_match none c = (null_pointer, c)
  from_match (some (type, groups)) c = create_matched type groups c

  create_interface_by_match-first_match :
      (first second : InterfaceType) (rest : List InterfaceType) (uri : List ℕ)
      (c : BridgeClass L V)
      → create_interface_by_match (first ∷ second ∷ rest) uri c
        ≡ from_match (first_match (first ∷ second ∷ rest) uri) c
  unfolding create_interface_by_match
  create_interface_by_match-first_match first second [] uri c =
      elim (Option-cases (drivers.matches first uri)) [
        | inr (groups, found) ↦ rw (create_interface_by_match, first_match, found) refl
        | inl nothing ↦ elim (Option-cases (drivers.matches second uri)) [
          | inr (groups, found) ↦ rw (create_interface_by_match, first_match, nothing, found) refl
          | inl nothing_else ↦
              rw (create_interface_by_match, first_match, nothing, nothing_else) refl
        ]
      ]
  create_interface_by_match-first_match first second (third ∷ rest) uri c =
      elim (Option-cases (drivers.matches first uri)) [
        | inr (groups, found) ↦ rw (create_interface_by_match, first_match, found) refl
        | inl nothing ↦
            rw (create_interface_by_match, first_match, nothing)
              (create_interface_by_match-first_match second third rest uri c)
      ]

  -- A text becomes an interface of the first of the seven types that it matches, and if it matches none,
  -- the call throws and the bridge is as it was.
  pub create_interface-first_match :
      (uri : List ℕ) (c : BridgeClass L V)
      → create_interface uri c ≡ (
          let (outcome, d) =
            from_match
              (first_match (serial ∷ udp ∷ fpga ∷ pipe ∷ can ∷ pty ∷ tcp_client ∷ []) uri)
              c in
          (lock_or_throw outcome, d))
  unfolding create_interface
  create_interface-first_match uri c =
      ap (λ x. (lock_or_throw (x.0), x.1))
        (create_interface_by_match-first_match serial udp
          (fpga ∷ pipe ∷ can ∷ pty ∷ tcp_client ∷ []) uri c)
