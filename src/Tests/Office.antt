-- ===== src/Tests/Office.antt =====
-- A bridge with two ordinary interfaces, a mirror and two handlers.
use ndlcom.Prelude.{ℕ, false, true, List, [], ◌∷◌, ◌++◌, replicate, if◌then◌else◌, ◌==◌, arith}
use ndlcom.Prelude.Counts.{occurrences}
use ndlcom.Wire.{Header}
use ndlcom.Parser.{Parser, mc_wait_header}
use ndlcom.Routing.{interface_at, routing_table_init, routing_table_update}
use ndlcom.LinkedList.{IsDistinct}
use ndlcom.ExternalInterface.{ExternalInterface}
use ndlcom.Bridge.{Bridge, Callbacks}
use ndlcom.Bridge.Handling.{HandlerCallbacks}

abbrev pub fresh_parser : Parser
fresh_parser = record {
  raw = replicate 4 0;
  data_crc = 0xffff;
  last_was_esc = false;
  header_write_pos = 0;
  payload = replicate 255 0;
  data_write_pos = 0;
  state = mc_wait_header;
  number_of_crc_fails = 0;
}

-- The world is a log of the writes: which context, which bytes.
abbrev pub logging : Callbacks (List (ℕ × List ℕ))
logging = record {
  write_bytes = λ f context bytes log. log ++ (context, bytes) ∷ [];
  read_bytes = λ f context count log. ([], log);
}

abbrev pub interface : ℕ → ExternalInterface
interface a = record {
  has_bridge = true;
  context = a;
  flags = if a == 2 then 1 else 0;
  parser = fresh_parser;
  read = 0;
  write = 0;
}

abbrev pub office : Bridge (List ℕ) (List (ℕ × List ℕ))
office = record {
  routing_table = routing_table_update routing_table_init 9 (interface_at 1);
  bridge_handler_list = 4 ∷ 5 ∷ [];
  external_interface_list = 0 ∷ 1 ∷ 2 ∷ [];
  flags = 1;
  interfaces = interface;
  handlers = λ a. record { has_bridge = true; context = a; flags = 0; handler = 0 };
  world = [];
}

abbrev pub to_all : Header
to_all = record { receiver_id = 255; sender_id = 2; counter = 0; data_len = 1 }

abbrev pub to_nine : Header
to_nine = record { receiver_id = 9; sender_id = 2; counter = 0; data_len = 1 }

pub four_five-IsDistinct : IsDistinct (4 ∷ 5 ∷ [])
unfolding occurrences
four_five-IsDistinct a = ground arith

-- Each handler notes its context and the payload in the log.
abbrev pub noting : HandlerCallbacks (List ℕ) (List (ℕ × List ℕ))
noting = record {
  handle = λ f context h payload origin s. record s { world = s.world ++ (context, payload) ∷ [] };
}
