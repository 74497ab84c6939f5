-- ===== src/Node/Filtering.antt =====
-- `ndlcomNodeMessageHandler` of src/Node.c, when the handlers of the node leave its list of handlers
-- alone.
use ndlcom.Prelude.{
  Bool, true, false, not, bit_and, none, ◌==◌, ℕ, zero, suc, ◌<◌, ◌≡◌, refl, ap, ◌∙◌, inl, inr,
  Bool-cases, Option, some, List, [], ◌∷◌, if◌then◌else◌, length, arith,
}
use ndlcom.Wire.{Header}
use ndlcom.LinkedList.{LinkedList, Cursor, head, node, Visits, IsDistinct}
use ndlcom.NodeHandler.{NodeHandler}
use ndlcom.Node.{
  System, NodeCallbacks, node_at, own_id, node_skips, call_node_handler, node_handler_loop, is_for,
  message_handler,
}

-- The handler wants no messages from the inside, which bit 0 of its flags says, and this is one: it
-- has no interface as its origin.
abbrev pub opts_out : NodeHandler → Option ℕ → Bool
opts_out h none = not (bit_and h.flags 0x01 == 0)
opts_out h (some a) = false

node_skips-opts_out :
    (h : NodeHandler) (origin : Option ℕ) → node_skips h origin ≡ opts_out h origin
node_skips-opts_out h none = refl
node_skips-opts_out h (some a) = refl

-- The message is for this id, or for all devices.
abbrev pub concerns : ℕ → Header → Bool
concerns own h = if h.receiver_id == own then true else h.receiver_id == 0xff

is_for-concerns : (own : ℕ) (h : Header) → is_for own h ≡ concerns own h
is_for-concerns own h = elim (Bool-cases (h.receiver_id == own)) [
  | inl ours ↦ rw ours refl
  | inr others ↦ rw others refl
]

module _ {L V : Type 0} (list : LinkedList L) (calls : NodeCallbacks L V) where
  -- No handler of a node adds a handler to the node `n` or takes one out.
  abbrev pub KeepsNodeHandlers : ℕ → Type 0
  KeepsNodeHandlers n =
      (f context : ℕ) (h : Header) (payload : List ℕ) (origin : Option ℕ) (s : System L V)
      → (node_at (calls.handle_node f context h payload origin s) n).node_handler_list
        ≡ (node_at s n).node_handler_list

  abbrev pub handle_one_at : Header → List ℕ → Option ℕ → System L V → ℕ → System L V
  handle_one_at h payload origin s a =
      if opts_out (s.world.node_handlers a) origin
      then s
      else call_node_handler list calls a h payload origin s

  -- Every handler of the list that does not opt out is called once, in order.
  unfoldable pub handle_each : List ℕ → Header → List ℕ → Option ℕ → System L V → System L V
  handle_each [] h payload origin s = s
  handle_each (a ∷ rest) h payload origin s =
      handle_each rest h payload origin (handle_one_at h payload origin s a)

  handle_one_at-list :
      (n a : ℕ) (h : Header) (payload : List ℕ) (origin : Option ℕ) (s : System L V)
      → KeepsNodeHandlers n
      → (node_at (handle_one_at h payload origin s a) n).node_handler_list
        ≡ (node_at s n).node_handler_list
  unfolding call_node_handler
  handle_one_at-list n a h payload origin s keeps =
      elim (Bool-cases (opts_out (s.world.node_handlers a) origin)) [
        | inl skipped ↦ simp skipped refl
        | inr called ↦ simp called (keeps _ _ h payload origin s)
      ]

  node_handler_loop-suc :
      (rounds n a : ℕ) (h : Header) (payload : List ℕ) (origin : Option ℕ) (s : System L V)
      → KeepsNodeHandlers n
      → node_handler_loop list calls (suc rounds) (node a) n h payload origin s
        ≡ node_handler_loop list calls rounds
            (list.next (node_at s n).node_handler_list (node a))
            n
            h
            payload
            origin
            (handle_one_at h payload origin s a)
  unfolding node_handler_loop
  node_handler_loop-suc rounds n a h payload origin s keeps =
      rw (node_skips-opts_out (s.world.node_handlers a) origin) (
        ap
          (λ l.
            node_handler_loop list calls rounds (list.next l (node a)) n h payload origin
              (handle_one_at h payload origin s a))
          (handle_one_at-list n a h payload origin s keeps))

  node_handler_loop-handle_each :
      (xs : List ℕ) (rounds n : ℕ) (place : Cursor) (h : Header) (payload : List ℕ)
      (origin : Option ℕ) (s : System L V) (l : L)
      → KeepsNodeHandlers n
      → (node_at s n).node_handler_list ≡ l
      → Visits (list.next l) place xs
      → length xs < rounds
      → node_handler_loop list calls rounds (list.next l place) n h payload origin s
        ≡ some (handle_each xs h payload origin s)
  unfolding handle_each node_handler_loop
  node_handler_loop-handle_each xs zero n place h payload origin s l keeps same v enough =
      absurd (omega arith)
  node_handler_loop-handle_each [] (suc rounds) n place h payload origin s l keeps same e enough =
      rw e refl
  node_handler_loop-handle_each (a ∷ rest) (suc rounds) n place h payload origin s l keeps same
        (e, v) enough =
      let t = handle_one_at h payload origin s a in
      rw e (
        node_handler_loop-suc rounds n a h payload origin s keeps
        ∙ ap (λ k. node_handler_loop list calls rounds (list.next k (node a)) n h payload origin t)
            same
        ∙ node_handler_loop-handle_each rest rounds n (node a) h payload origin t l keeps
            (handle_one_at-list n a h payload origin s keeps ∙ same) v (omega arith))

  -- When no handler is added to the node or taken out of it by a handler and none stands in its list
  -- twice, one round more than there are handlers is enough, and a message for the node's own id or for
  -- all devices is given to every handler of the node that does not opt out, once and in the order of
  -- the list; any other message changes nothing.
  pub message_handler-handle_each :
      (rounds n : ℕ) (h : Header) (payload : List ℕ) (origin : Option ℕ) (s : System L V)
      → KeepsNodeHandlers n
      → IsDistinct (list.entries (node_at s n).node_handler_list)
      → length (list.entries (node_at s n).node_handler_list) < rounds
      → message_handler list calls rounds n h payload origin s
        ≡ some (
            if concerns (own_id s n) h
            then handle_each (list.entries (node_at s n).node_handler_list) h payload origin s
            else s)
  unfolding message_handler
  message_handler-handle_each rounds n h payload origin s keeps distinct enough =
      rw (is_for-concerns (own_id s n) h) (elim (Bool-cases (concerns (own_id s n) h)) [
        | inl ours ↦ simp ours (
            node_handler_loop-handle_each (list.entries (node_at s n).node_handler_list) rounds n
              head h payload origin s (node_at s n).node_handler_list keeps refl
              (list.next-entries (node_at s n).node_handler_list distinct) enough)
        | inr others ↦ simp others refl
      ])
