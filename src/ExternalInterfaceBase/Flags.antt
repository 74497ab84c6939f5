-- ===== src/ExternalInterfaceBase/Flags.antt =====
-- `setFlag` of src/ExternalInterfaceBase.cpp.
use ndlcom.Prelude.{
  ℕ, ◌<◌, ◌≡◌, refl, Bool, true, false, ◌&&◌, not, ◌==◌, ltb, bit_and, bit_or, by_test, test_below,
  arith,
}
use ndlcom.ExternalInterface.{ExternalInterface, flags_debug_mirror, is_mirror, set_flags}
use ndlcom.ExternalInterfaceBase.{set_flag}

-- The flags of 8 bits with the mirror's set or not, and the other bits as they were.
abbrev sets : ℕ → Bool
sets f =
    not (bit_and (bit_or f 1) 1 == 0)
    && (bit_and (bit_or f 1) 254 == bit_and f 254)
    && ltb (bit_or f 1) 256

abbrev clears : ℕ → Bool
clears f =
    (bit_and (bit_and f 254) 1 == 0)
    && (bit_and (bit_and f 254) 254 == bit_and f 254)
    && ltb (bit_and f 254) 256

-- Setting the flag of a mirror makes the interface a mirror, taking it away makes it an ordinary one;
-- every other flag stays as it is, and the flags still have 8 bits.
pub set_flag-is_mirror :
    (i : ExternalInterface) (value : Bool)
    → i.flags < 256
    → (is_mirror (set_flag i flags_debug_mirror value) ≡ value)
      × (bit_and (set_flag i flags_debug_mirror value).flags 254 ≡ bit_and i.flags 254)
      × (set_flag i flags_debug_mirror value).flags < 256
unfolding set_flag set_flags is_mirror test_below
set_flag-is_mirror i true byte =
    let tested : sets i.flags ≡ true = by_test sets 256 i.flags refl byte in ground (arith, tested)
set_flag-is_mirror i false byte =
    let tested : clears i.flags ≡ true = by_test clears 256 i.flags refl byte in
    ground (arith, tested)
