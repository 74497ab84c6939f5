-- ===== src/ExternalInterfaceBase.antt =====
-- The class ExternalInterfaceBase of src/ExternalInterfaceBase.cpp and
-- include/ndlcom/ExternalInterfaceBase.hpp, the base of the drivers: pausing, counting, flags. The two
-- virtual functions are the driver, a parameter: each changes the world outside and may throw.
-- `unsigned long` has 64 bits.
pub mod Traffic
pub mod Flags
use ndlcom.Prelude.{
  ℕ, ◌+◌, ◌-◌, ◌%◌, ◌^◌, Bool, true, false, bit_and, bit_or, Option, none, some, List, [], length,
  if◌then◌else◌,
}
use ndlcom.LinkedList.{LinkedList}
use ndlcom.Parser.{reset_number_of_crc_fails, get_number_of_crc_fails}
use ndlcom.ExternalInterface.{ExternalInterface, set_flags}
use ndlcom.Bridge.{
  Bridge, register_external_interface, deregister_external_interface, set_routing_for_device_id,
}

-- The members of the class; the wrapped struct stands in the memory of the bridge.
pub record Base : Type 0 where
  pub paused : Bool
  pub bytes_transmitted : ℕ
  pub bytes_received : ℕ

-- The virtual functions. A write says whether it returned, a read gives what it stored in a buffer of
-- this size, or nothing when it throws.
pub record Driver (W : Type 0) : Type 0 where
  pub write_escaped_bytes : List ℕ → W → Bool × W
  pub read_escaped_bytes : ℕ → W → Option (List ℕ) × W

unfoldable pub base_init : Base
base_init = record { paused = false; bytes_transmitted = 0; bytes_received = 0 }

unfoldable pub note_incoming_bytes : Base → ℕ → Base
note_incoming_bytes b count = record b { bytes_received = (b.bytes_received + count) % 2 ^ 64 }

unfoldable pub note_outgoing_bytes : Base → ℕ → Base
note_outgoing_bytes b count = record b {
  bytes_transmitted = (b.bytes_transmitted + count) % 2 ^ 64;
}

-- What becomes of the bytes that were read.
unfoldable pub pass_on : Base → Option (List ℕ) → Base × Option (List ℕ)
pass_on b none = (b, none)
pass_on b (some bytes) =
    let passed_on = if b.paused then [] else bytes in
    (note_incoming_bytes b (length passed_on), some passed_on)

module _ {W : Type 0} (driver : Driver W) where
  -- The object and the world, and whether the call returned.
  unfoldable pub write_wrapper : Base → List ℕ → W → Base × Bool × W
  write_wrapper b bytes w =
      if b.paused
      then (b, true, w)
      else (let (returned, after) = driver.write_escaped_bytes bytes w in
          (if returned then note_outgoing_bytes b (length bytes) else b, returned, after))

  -- The object and the world, with the bytes that the caller gets; the call of the driver comes first.
  unfoldable pub read_wrapper : Base → ℕ → W → Base × Option (List ℕ) × W
  read_wrapper b count w =
      let (read, after) = driver.read_escaped_bytes count w in
      let (c, result) = pass_on b read in (c, result, after)

-- The flags have 8 bits: `~flag` keeps those of the other bits.
unfoldable pub set_flag : ExternalInterface → ℕ → Bool → ExternalInterface
set_flag i flag value =
    if value
    then set_flags i (bit_or i.flags flag)
    else set_flags i (bit_and i.flags (2 ^ 8 - 1 - flag))

unfoldable pub reset_crc_fails : ExternalInterface → ExternalInterface
reset_crc_fails i = record i { parser = reset_number_of_crc_fails i.parser }

module _ {L W : Type 0} (list : LinkedList L) where
  unfoldable pub register_handler : Bridge L W → ℕ → Bridge L W
  register_handler s a = register_external_interface list s a

  unfoldable pub deregister_handler : Bridge L W → ℕ → Bridge L W
  deregister_handler s a = deregister_external_interface list s a
