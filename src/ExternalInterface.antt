-- ===== src/ExternalInterface.antt =====
-- src/ExternalInterface.c and include/ndlcom/ExternalInterface.h. There is one bridge, so that the
-- pointer `bridge` is either null or set; `context`, `read` and `write` are addresses. The node of the
-- list of the bridge is kept with that list.
use ndlcom.Prelude.{ℕ, Bool, false, not, ◌==◌, Option, some, none, bit_and}
use ndlcom.Parser.{Parser, parser_create, get_number_of_crc_fails}

pub record ExternalInterface : Type 0 where
  pub has_bridge : Bool
  pub context : ℕ
  pub flags : ℕ
  pub parser : Parser
  pub read : ℕ
  pub write : ℕ

abbrev pub flags_debug_mirror : ℕ
flags_debug_mirror = 0x01

unfoldable pub is_mirror : ExternalInterface → Bool
is_mirror i = not (bit_and i.flags flags_debug_mirror == 0)

unfoldable pub set_flags : ExternalInterface → ℕ → ExternalInterface
set_flags i flags = record i { flags = flags }

-- `memory` is what the parser's memory holds before. What `ndlcomParserCreate` returns is not looked
-- at.
unfoldable pub init : ℕ → Parser → ℕ → ℕ → ℕ → ℕ → ExternalInterface
init sizeof_parser memory write read flags context = record {
  has_bridge = false;
  context = context;
  flags = flags;
  parser = created (parser_create sizeof_parser (some memory) sizeof_parser);
  read = read;
  write = write;
}
  where
    created : Option Parser → Parser
    created none = memory
    created (some parser) = parser

unfoldable pub get_crc_fails : ExternalInterface → ℕ
get_crc_fails i = get_number_of_crc_fails i.parser
