-- ===== src/NodeHandler.antt =====
-- src/NodeHandler.c and include/ndlcom/NodeHandler.h, in the manner of ndlcom.BridgeHandler. The
-- pointer to the node is null or the address of a node.
use ndlcom.Prelude.{ℕ, Option, none}

pub record NodeHandler : Type 0 where
  pub node_pointer : Option ℕ
  pub context : ℕ
  pub flags : ℕ
  pub handler : ℕ

abbrev pub flags_no_messages_from_internal : ℕ
flags_no_messages_from_internal = 0x01

unfoldable pub set_flags : NodeHandler → ℕ → NodeHandler
set_flags h flags = record h { flags = flags }

unfoldable pub init : ℕ → ℕ → ℕ → NodeHandler
init handler flags context =
    set_flags (record { node_pointer = none; context = context; flags = 0; handler = handler })
      flags
