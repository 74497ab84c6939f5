-- ===== src/Tests/Deliveries.antt =====
-- A message that arrives at an interface for a node.
use ndlcom.Prelude.{ℕ, List, [], ◌∷◌, ◌++◌}
use ndlcom.Wire.{little_endian}
use ndlcom.Encoder.Frame.{frame}
use ndlcom.Parser.{Parser}
use ndlcom.Bridge.{Callbacks}
use ndlcom.Node.{Nodes}
use ndlcom.Tests.Office.{to_all}
use ndlcom.Tests.Lobby.{Log}

-- Every read gives the frame of one message.
abbrev sending : Callbacks (Nodes (List ℕ) Log)
sending = record {
  write_bytes = λ f context bytes w. record w { outside = w.outside ++ (context, bytes) ∷ [] };
  read_bytes = λ f context count w. (frame little_endian to_all (7 ∷ []), w);
}
