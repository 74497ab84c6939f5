-- ===== src/BridgeHandler.antt =====
-- src/BridgeHandler.c and include/ndlcom/BridgeHandler.h, in the manner of ndlcom.ExternalInterface.
use ndlcom.Prelude.{ℕ, Bool, false}

pub record BridgeHandler : Type 0 where
  pub has_bridge : Bool
  pub context : ℕ
  pub flags : ℕ
  pub handler : ℕ

abbrev pub flags_no_messages_from_internal : ℕ
flags_no_messages_from_internal = 0x01

unfoldable pub set_flags : BridgeHandler → ℕ → BridgeHandler
set_flags h flags = record h { flags = flags }

unfoldable pub init : ℕ → ℕ → ℕ → BridgeHandler
init handler flags context = record {
  has_bridge = false;
  context = context;
  flags = flags;
  handler = handler;
}
