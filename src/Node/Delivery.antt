-- ===== src/Node/Delivery.antt =====
-- A node on its bridge: `ndlcomBridgeProcessDecodedMessage` of src/Bridge.c calls
-- `ndlcomNodeMessageHandler` of src/Node.c.
use ndlcom.Prelude.Counts.{occurrences}
use ndlcom.Prelude.{
  ap₂, refl, sym, ◌∙◌, arith, ap, some, ℕ, ◌<◌, ◌≡◌, Option, some, List, [], ◌∷◌, if◌then◌else◌,
  length,
}
use ndlcom.Wire.{ByteOrder, Header}
use ndlcom.Routing.{Destination}
use ndlcom.LinkedList.{LinkedList, IsDistinct}
use ndlcom.Bridge.{Callbacks, process_outgoing_message}
use ndlcom.Bridge.Forwarding.{process_outgoing_message-world, process_outgoing_message-keeps}
use ndlcom.Bridge.Handling.{process_decoded_message, HandlerCallbacks, call_handler, origin_or_null}
use ndlcom.Bridge.Dispatch.{KeepsHandlers, process_decoded_message-handle_all, handle_all}
use ndlcom.Node.{System, Nodes, NodeCallbacks, node_at, own_id, message_handler}
use ndlcom.Node.Filtering.{concerns, KeepsNodeHandlers, handle_each, message_handler-handle_each}

module _ {L V : Type 0} (list : LinkedList L) (node_calls : NodeCallbacks L V)
    (calls : HandlerCallbacks L (Nodes L V)) where
  -- The handler callback at the address `f` is `ndlcomNodeMessageHandler`, where it returns within
  -- this many rounds.
  abbrev pub RunsMessageHandler : ℕ → ℕ → Type 0
  RunsMessageHandler f rounds =
      (n : ℕ) (h : Header) (payload : List ℕ) (origin : Option ℕ) (s t : System L V)
      → message_handler list node_calls rounds n h payload origin s ≡ some t
      → calls.handle f n h payload origin s ≡ t

  -- The bridge handler of the node `n` stands alone in the list of the bridge, as
  -- `ndlcomNodeInit` sets it up.
  pub record IsAttached (f n : ℕ) (s : System L V) : Type 0 where
    pub alone : list.entries s.bridge_handler_list ≡ (node_at s n).bridge_handler ∷ []
    pub is_handler : (s.handlers (node_at s n).bridge_handler).handler ≡ f
    pub is_context : (s.handlers (node_at s n).bridge_handler).context ≡ n
    pub no_flags : (s.handlers (node_at s n).bridge_handler).flags ≡ 0

  -- What the node does with a message.
  abbrev pub given_to_node : ℕ → Header → List ℕ → Option ℕ → System L V → System L V
  given_to_node n h payload origin s =
      if concerns (own_id s n) h
      then handle_each list node_calls (list.entries (node_at s n).node_handler_list) h payload
          origin s
      else s

  call_handler-given_to_node :
      (f rounds n : ℕ) (h : Header) (payload : List ℕ) (origin : Destination) (s : System L V)
      → RunsMessageHandler f rounds
      → IsAttached f n s
      → KeepsNodeHandlers list node_calls n
      → IsDistinct (list.entries (node_at s n).node_handler_list)
      → length (list.entries (node_at s n).node_handler_list) < rounds
      → call_handler list calls (node_at s n).bridge_handler h payload origin s
        ≡ given_to_node n h payload (origin_or_null list calls origin) s
  unfolding call_handler
  call_handler-given_to_node f rounds n h payload origin s runs attached keeps distinct enough =
      let from = origin_or_null list calls origin in
      ap₂ (λ g c. calls.handle g c h payload from s) attached.is_handler attached.is_context
      ∙ runs n h payload from s (given_to_node n h payload from s) (
          message_handler-handle_each list node_calls rounds n h payload from s keeps distinct
            enough)

  handle_all-alone :
      (b : ℕ) (h : Header) (payload : List ℕ) (origin : Destination) (s : System L V)
      → (s.handlers b).flags ≡ 0
      → handle_all list calls (b ∷ []) h payload origin s
        ≡ call_handler list calls b h payload origin s
  unfolding handle_all
  handle_all-alone b h payload origin s no_flags = rw no_flags refl

module _ {L V : Type 0} (list : LinkedList L) (node_calls : NodeCallbacks L V)
    (callbacks : Callbacks (Nodes L V)) (calls : HandlerCallbacks L (Nodes L V))
    (order : ByteOrder) where
  -- A node is the only handler of its bridge, none of its handlers stands twice in its list, no
  -- handler changes the list of the bridge or of the node, a write leaves the nodes alone, and there
  -- are two rounds for the bridge and one more than there are handlers for the node. Then a message is
  -- passed on first, and if it is for the node's own id or for all devices it is then given to every
  -- handler of the node that does not opt out, once and in the order of the list; a message that the
  -- node sent itself to all devices is no exception.
  pub process_decoded_message-given_to_node :
      (bridge_rounds rounds f n : ℕ) (h : Header) (payload : List ℕ) (origin : Destination)
      (s : System L V)
      → RunsMessageHandler list node_calls calls f rounds
      → IsAttached list node_calls calls f n s
      → KeepsHandlers list calls
      → KeepsNodeHandlers list node_calls n
      → ((g context : ℕ) (bytes : List ℕ) (w : Nodes L V)
          → (callbacks.write_bytes g context bytes w).nodes ≡ w.nodes)
      → IsDistinct (list.entries (node_at s n).node_handler_list)
      → length (list.entries (node_at s n).node_handler_list) < rounds
      → 1 < bridge_rounds
      → process_decoded_message list callbacks calls order bridge_rounds s h payload origin
        ≡ some (
            given_to_node list node_calls calls n h payload
              (origin_or_null list calls origin)
              (process_outgoing_message list callbacks order s h payload origin))
  unfolding occurrences
  process_decoded_message-given_to_node bridge_rounds rounds f n h payload origin s runs attached
        keeps keeps_node writes distinct enough two =
      let t = process_outgoing_message list callbacks order s h payload origin in
      let changed : t ≡ record s { world = t.world } =
        process_outgoing_message-world list callbacks order s h payload origin in
      let same : t.world.nodes ≡ s.world.nodes =
        process_outgoing_message-keeps list callbacks (λ w. w.nodes) writes order s h payload
          origin in
      let same_handlers : t.handlers ≡ s.handlers = ap (λ u. u.handlers) changed in
      let still : IsAttached list node_calls calls f n t = record {
        alone = ap (λ u. list.entries u.bridge_handler_list) changed ∙ rw same attached.alone;
        is_handler = rw (same_handlers, same) attached.is_handler;
        is_context = rw (same_handlers, same) attached.is_context;
        no_flags = rw (same_handlers, same) attached.no_flags;
      } in
      process_decoded_message-handle_all list callbacks calls order bridge_rounds s h payload origin
        keeps (rw attached.alone (λ a. ground arith)) (rw attached.alone (omega arith))
      ∙ ap some (
          rw attached.alone (
            rw (sym (ap (λ k. (k n).bridge_handler) same)) (
              handle_all-alone list node_calls calls (node_at t n).bridge_handler h payload origin t
                still.no_flags
              ∙ call_handler-given_to_node list node_calls calls f rounds n h payload origin t runs
                  still keeps_node (rw same distinct) (rw same enough))))
