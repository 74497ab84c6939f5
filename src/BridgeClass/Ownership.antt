-- ===== src/BridgeClass/Ownership.antt =====
-- The vectors of the classes against the lists of the C library.
use ndlcom.Prelude.{
  ℕ, ◌+◌, ◌<◌, ◌≤◌, ◌≡◌, refl, true, false, List, [], map, arith, inl, inr, Bool-cases, ◌==◌,
  ==_iff, if◌then◌else◌, false,
}
use ndlcom.Prelude.Counts.{has, occurrences}
use ndlcom.LinkedList.{LinkedList}
use ndlcom.BridgeHandler.{BridgeHandler}
use ndlcom.Bridge.{Bridge, bridge_init}
use ndlcom.Bridge.Registration.{IsSound, bridge_init-IsSound}
use ndlcom.Node.{Node, System, node_at}
use ndlcom.BridgeClass.{BridgeClass, bridge_class_init}
use ndlcom.BridgeClass.Counting.{IsCounted, IsLinked}

module _ (place : ℕ → ℕ) where
  -- The handlers of the bridge, and those inside of the nodes.
  abbrev pub handlers_in : List ℕ → List ℕ → ℕ → ℕ
  handlers_in bridge_handlers nodes b =
      occurrences b bridge_handlers + occurrences b (map place nodes)

module _ {L : Type 0} (list : LinkedList L) (place : ℕ → ℕ) where
  -- No node is owned twice, each has its bridge handler at its place and an id of 8 bits, and its list
  -- holds the handlers that it owns, each once.
  pub record AreNodes (at : ℕ → Node L) (owned : List ℕ) (all_handler : ℕ → List ℕ) : Type 0 where
    pub once : (n : ℕ) → occurrences n owned ≤ 1
    pub placed : (n : ℕ) → (at n).bridge_handler ≡ place n
    pub bytes : (n : ℕ) → has n owned ≡ true → (at n).header_config.own_sender_id < 256
    pub handlers :
        (n : ℕ)
        → has n owned ≡ true
        → IsCounted list (at n).node_handler_list (λ a. occurrences a (all_handler n))

module _ {L V : Type 0} where
  abbrev pub interfaces_of : BridgeClass L V → ℕ → ℕ
  interfaces_of c a = occurrences a c.external_interfaces

module _ {L V : Type 0} (list : LinkedList L) (place : ℕ → ℕ) where
  -- The lists of the bridge and of its nodes hold what the objects own, each once, and each of these
  -- points back; the routing table leads to owned interfaces only, and no warning was written.
  pub record IsOwned (c : BridgeClass L V) : Type 0 where
    pub sound : IsSound list c.bridge
    pub quiet : c.out ≡ []
    pub interfaces : IsCounted list c.bridge.external_interface_list (interfaces_of c)
    pub handlers :
        IsCounted list c.bridge.bridge_handler_list (handlers_in place c.bridge_handlers c.nodes)
    pub linked :
        IsLinked
          (λ b. (c.bridge.handlers b).has_bridge)
          (handlers_in place c.bridge_handlers c.nodes)
    pub nodes : AreNodes list place c.bridge.world.nodes c.nodes c.all_handler

module _ {L W : Type 0} (list : LinkedList L) where
  -- The handlers and the world outside do not matter to the interfaces.
  pub handlers-IsSound :
      (s : Bridge L W) (handlers : ℕ → BridgeHandler) (l : L) (w : W)
      → IsSound list s
      → IsSound list (record s { handlers = handlers; bridge_handler_list = l; world = w })
  handlers-IsSound s handlers l w sound = record {
    distinct = sound.distinct;
    connected = sound.connected;
    routed = sound.routed;
    table = sound.table;
  }

module _ {L V : Type 0} (list : LinkedList L) (place : ℕ → ℕ) where
  -- Nothing points to the bridge before, and each node has its bridge handler at its place.
  pub bridge_class_init-IsOwned :
      (s : System L V)
      → ((a : ℕ) → (s.interfaces a).has_bridge ≡ false)
      → ((b : ℕ) → (s.handlers b).has_bridge ≡ false)
      → ((n : ℕ) → (node_at s n).bridge_handler ≡ place n)
      → IsOwned list place (bridge_class_init list s)
  unfolding bridge_class_init bridge_init occurrences has
  bridge_class_init-IsOwned s loose_interfaces loose_handlers placed = record {
    sound = bridge_init-IsSound list s loose_interfaces;
    quiet = refl;
    interfaces = record {
      once = λ a. omega arith;
      same = λ a. rw (list.entries-init_list_head s.external_interface_list) refl;
    };
    handlers = record {
      once = λ a. omega arith;
      same = λ a. rw (list.entries-init_list_head s.bridge_handler_list) refl;
    };
    linked = loose_handlers;
    nodes = record {
      once = λ n. omega arith;
      placed = placed;
      bytes = λ n owned. absurd (ground (arith, owned));
      handlers = λ n owned. absurd (ground (arith, owned));
    };
  }

module _ {L : Type 0} (list : LinkedList L) (place : ℕ → ℕ) where
  -- The node at `n` is another one, and no other node has become owned.
  pub put-AreNodes :
      (at : ℕ → Node L) (owned after : List ℕ) (all_handler : ℕ → List ℕ) (n : ℕ) (x : Node L)
      (handlers : List ℕ)
      → AreNodes list place at owned all_handler
      → ((m : ℕ) → occurrences m after ≤ 1)
      → ((m : ℕ) → (m == n) ≡ false → has m after ≡ true → has m owned ≡ true)
      → x.bridge_handler ≡ place n
      → x.header_config.own_sender_id < 256
      → IsCounted list x.node_handler_list (λ a. occurrences a handlers)
      → AreNodes list place
          (λ m. (if m == n then x else at m))
          after
          (λ m. (if m == n then handlers else all_handler m))
  put-AreNodes at owned after all_handler n x handlers nodes once older here byte counted = record {
    once = once;
    placed = λ m. elim (Bool-cases (m == n)) [
      | inl same ↦ rw (same, (==_iff m n).0 same) here
      | inr differs ↦ rw differs (nodes.placed m)
    ];
    bytes = λ m known. elim (Bool-cases (m == n)) [
      | inl same ↦ rw same byte
      | inr differs ↦ rw differs (nodes.bytes m (older m differs known))
    ];
    handlers = λ m known. elim (Bool-cases (m == n)) [
      | inl same ↦ rw same counted
      | inr differs ↦ rw differs (nodes.handlers m (older m differs known))
    ];
  }
