-- ===== src/Node/Arrival.antt =====
-- From the bytes that an interface reads to the handlers of a node: src/Bridge.c and src/Node.c
-- together.
use mathlib.Core.Option
use ndlcom.Prelude.{ℕ, ◌≡◌, List}
use ndlcom.Wire.{ByteOrder}
use ndlcom.Parser.{Parser}
use ndlcom.LinkedList.{LinkedList}
use ndlcom.Bridge.{Callbacks}
use ndlcom.Bridge.Handling.{HandlerCallbacks}
use ndlcom.Node.{Nodes, NodeCallbacks}

module _ {L V : Type 0} (list : LinkedList L) (node_calls : NodeCallbacks L V)
    (callbacks : Callbacks (Nodes L V)) (calls : HandlerCallbacks L (Nodes L V))
    (order : ByteOrder) where
  -- The read and write callbacks leave the nodes alone.
  pub record KeepsNodes : Type 0 where
    pub writes :
        (f context : ℕ) (bytes : List ℕ) (w : Nodes L V)
        → (callbacks.write_bytes f context bytes w).nodes ≡ w.nodes
    pub reads :
        (f context count : ℕ) (w : Nodes L V)
        → (callbacks.read_bytes f context count w).1.nodes ≡ w.nodes
