-- ===== src/Tests/Lobby.antt =====
-- A bridge with two ordinary interfaces and one node with two handlers.
use ndlcom.Prelude.{
  ◌∙◌, ℕ, zero, suc, ◌≡◌, refl, ap, inl, inr, Bool-cases, Option, none, some, true, List, [], ◌∷◌,
  ◌++◌, arith,
}
use ndlcom.Prelude.Counts.{occurrences}
use ndlcom.Wire.{Header}
use ndlcom.HeaderPrepare.{header_prepare_init}
use ndlcom.Routing.{routing_table_init}
use ndlcom.LinkedList.{Cursor, head, node, IsDistinct}
use ndlcom.Bridge.{Callbacks}
use ndlcom.Bridge.Handling.{HandlerCallbacks}
use ndlcom.Bridge.Dispatch.{KeepsHandlers}
use ndlcom.Bridge.Reading.Packets.{IsPassive}
use ndlcom.Node.{
  System, Nodes, NodeCallbacks, node_at, own_id, node_skips, call_node_handler, node_handler_loop,
  is_for, message_handler,
}
use ndlcom.Node.Filtering.{KeepsNodeHandlers}
use ndlcom.Node.Delivery.{RunsMessageHandler}
use ndlcom.Tests.Addresses.{addresses, links}
use ndlcom.Tests.Office.{fresh_parser}

abbrev pub Log : Type 0
Log = List (ℕ × List ℕ)

abbrev pub lobby : System (List ℕ) Log
lobby = record {
  routing_table = routing_table_init;
  bridge_handler_list = 6 ∷ [];
  external_interface_list = 0 ∷ 1 ∷ [];
  flags = 1;
  interfaces = λ a. record {
    has_bridge = true;
    context = a;
    flags = 0;
    parser = fresh_parser;
    read = 0;
    write = 0;
  };
  handlers = λ b. record { has_bridge = true; context = 0; flags = 0; handler = 3 };
  world = record {
    nodes = λ n. record {
      header_config = header_prepare_init 2;
      node_handler_list = 10 ∷ 11 ∷ [];
      bridge_handler = 6;
    };
    node_handlers = λ a. record { node_pointer = some 0; context = a; flags = 0; handler = 0 };
    outside = [];
  };
}

-- A write is logged with the context of the interface.
abbrev pub lobby_calls : Callbacks (Nodes (List ℕ) Log)
lobby_calls = record {
  write_bytes = λ f context bytes w. record w { outside = w.outside ++ (context, bytes) ∷ [] };
  read_bytes = λ f context count w. ([], w);
}

-- A handler of a node logs its context and the payload.
abbrev pub desk : NodeCallbacks (List ℕ) Log
desk = record {
  handle_node = λ f context h payload origin s. record s {
    world = record (s.world) { outside = s.world.outside ++ (context, payload) ∷ [] };
  };
}

abbrev or_same : Option (System (List ℕ) Log) → System (List ℕ) Log → System (List ℕ) Log
or_same none s = s
or_same (some t) s = t

-- Every handler of the bridge is `ndlcomNodeMessageHandler`.
abbrev pub reception : HandlerCallbacks (List ℕ) (Nodes (List ℕ) Log)
reception = record {
  handle = λ f context h payload origin s.
      or_same (message_handler addresses desk 4 context h payload origin s) s;
}

pub reception-RunsMessageHandler : RunsMessageHandler addresses desk reception 3 4
reception-RunsMessageHandler n h payload origin s t e = ap (λ m. or_same m s) e

pub desk-KeepsNodeHandlers : KeepsNodeHandlers addresses desk 0
desk-KeepsNodeHandlers f context h payload origin s = refl

-- What stands outside of the world is the same behind the handlers.
abbrev IsOutside : {X : Type 0} → (System (List ℕ) Log → X) → Type 0
IsOutside get =
    (s : System (List ℕ) Log) (w : Nodes (List ℕ) Log) → get (record s { world = w }) ≡ get s

loop_keeps :
    {X : Type 0} (get : System (List ℕ) Log → X) (outside : IsOutside get) (rounds n : ℕ)
    (place : Cursor) (h : Header) (payload : List ℕ) (origin : Option ℕ) (s u : System (List ℕ) Log)
    (x : X)
    → get s ≡ x
    → get u ≡ x
    → get (or_same (node_handler_loop addresses desk rounds place n h payload origin s) u) ≡ x
unfolding node_handler_loop call_node_handler
loop_keeps get outside zero n place h payload origin s u x same other = other
loop_keeps get outside (suc rounds) n head h payload origin s u x same other = same
loop_keeps get outside (suc rounds) n (node a) h payload origin s u x same other =
    elim (Bool-cases (node_skips (s.world.node_handlers a) origin)) [
      | inl skipped ↦ simp skipped (
          loop_keeps get outside rounds n (links (node_at s n).node_handler_list (node a)) h payload
            origin s u x same other)
      | inr called ↦ simp called (
          loop_keeps get outside rounds n (links (node_at s n).node_handler_list (node a)) h payload
            origin (call_node_handler addresses desk a h payload origin s) u x (outside s _ ∙ same)
            other)
    ]

pub reception_keeps :
    {X : Type 0} (get : System (List ℕ) Log → X) (outside : IsOutside get) (f n : ℕ) (h : Header)
    (payload : List ℕ) (origin : Option ℕ) (s : System (List ℕ) Log)
    → get (reception.handle f n h payload origin s) ≡ get s
unfolding message_handler
reception_keeps get outside f n h payload origin s = elim (Bool-cases (is_for (own_id s n) h)) [
  | inl ours ↦ simp ours (
      loop_keeps get outside 4 n (links (node_at s n).node_handler_list head) h payload origin s s
        (get s) refl refl)
  | inr others ↦ simp others refl
]

pub reception-KeepsHandlers : KeepsHandlers addresses reception
reception-KeepsHandlers = reception_keeps (λ s. s.bridge_handler_list) (λ s w. refl)

pub reception-IsPassive : IsPassive reception
reception-IsPassive = record {
  keeps_handlers = reception-KeepsHandlers;
  keeps_list = reception_keeps (λ s. s.external_interface_list) (λ s w. refl);
  keeps_interfaces = reception_keeps (λ s. s.interfaces) (λ s w. refl);
}

pub ten_eleven-IsDistinct : IsDistinct (10 ∷ 11 ∷ [])
unfolding occurrences
ten_eleven-IsDistinct a = ground arith
