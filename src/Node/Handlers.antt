-- ===== src/Node/Handlers.antt =====
-- The handlers of a node from its initialisation on: `ndlcomNodeInit`,
-- `ndlcomNodeRegisterNodeHandler` and `ndlcomNodeDeregisterNodeHandler` of src/Node.c.
use ndlcom.Prelude.{
  ℕ, ◌+◌, ◌<◌, ◌≤◌, ◌≡◌, refl, ap, ◌∙◌, false, some, Option, ◌∷◌, [], ==_refl, if◌then◌else◌, List,
  length, arith,
}
use ndlcom.Prelude.Counts.{has, occurrences, has-occurrences}
use ndlcom.Wire.{Header}
use ndlcom.HeaderPrepare.{header_prepare_init}
use ndlcom.LinkedList.{LinkedList, IsDistinct}
use ndlcom.Node.{
  System, NodeCallbacks, node_at, own_id, set_node_pointer, node_init, register_node_handler,
  message_handler,
}
use ndlcom.Node.Routes.{set_node-node_at}
use ndlcom.Node.Filtering.{concerns, KeepsNodeHandlers, handle_each, message_handler-handle_each}

-- The list with each in front of those before it.
unfoldable pub newest_first : List ℕ → List ℕ → List ℕ
newest_first [] old = old
newest_first (a ∷ rest) old = newest_first rest (a ∷ old)

newest_first-occurrences :
    (b : ℕ) (xs old : List ℕ)
    → occurrences b (newest_first xs old) ≡ occurrences b xs + occurrences b old
unfolding newest_first occurrences
newest_first-occurrences b [] old = omega arith
newest_first-occurrences b (a ∷ rest) old =
    ground (arith, newest_first-occurrences b rest (a ∷ old))

newest_first-length : (xs old : List ℕ) → length (newest_first xs old) ≡ length xs + length old
unfolding newest_first
newest_first-length [] old = omega arith
newest_first-length (a ∷ rest) old = omega (arith, newest_first-length rest (a ∷ old))

module _ {L V : Type 0} (list : LinkedList L) where
  abbrev pub handlers_of : System L V → ℕ → List ℕ
  handlers_of s n = list.entries (node_at s n).node_handler_list

  register_node_handler-node_at :
      (s : System L V) (n a : ℕ)
      → node_at (register_node_handler list s n a) n ≡ record (node_at s n) {
        node_handler_list = list.list_add a (node_at s n).node_handler_list;
      }
  unfolding register_node_handler set_node_pointer
  register_node_handler-node_at s n a =
      set_node-node_at s n (record (node_at s n) {
        node_handler_list = list.list_add a (node_at s n).node_handler_list;
      })

  -- These handlers, one after the other.
  unfoldable pub register_all : System L V → ℕ → List ℕ → System L V
  register_all s n [] = s
  register_all s n (a ∷ rest) = register_all (register_node_handler list s n a) n rest

  register_all-own_id :
      (s : System L V) (n : ℕ) (xs : List ℕ) → own_id (register_all s n xs) n ≡ own_id s n
  unfolding register_all
  register_all-own_id s n [] = refl
  register_all-own_id s n (a ∷ rest) =
      register_all-own_id (register_node_handler list s n a) n rest
      ∙ ap (λ x. x.header_config.own_sender_id) (register_node_handler-node_at s n a)

  register_all-newest_first :
      (s : System L V) (n : ℕ) (xs : List ℕ)
      → ((b : ℕ) → occurrences b xs + occurrences b (handlers_of s n) ≤ 1)
      → handlers_of (register_all s n xs) n ≡ newest_first xs (handlers_of s n)
  unfolding register_all newest_first occurrences
  register_all-newest_first s n [] fresh = refl
  register_all-newest_first s n (a ∷ rest) fresh =
      let absent : has a (handlers_of s n) ≡ false =
        ground (arith, has-occurrences a (handlers_of s n), fresh a, ==_refl a) in
      let one : handlers_of (register_node_handler list s n a) n ≡ a ∷ handlers_of s n =
        ap (λ x. list.entries x.node_handler_list) (register_node_handler-node_at s n a)
        ∙ list.entries-list_add a (node_at s n).node_handler_list absent in
      register_all-newest_first (register_node_handler list s n a) n rest
        (λ b. rw one (ground (arith, fresh b)))
      ∙ ap (newest_first rest) one

  node_init-node_at :
      (f : ℕ) (s : System L V) (n id : ℕ)
      → node_at (node_init list f s n id) n ≡ record (node_at s n) {
        node_handler_list = list.init_list_head (node_at s n).node_handler_list;
        header_config = header_prepare_init id;
      }
  unfolding node_init
  node_init-node_at f s n id = set_node-node_at s n (record (node_at s n) {
    node_handler_list = list.init_list_head (node_at s n).node_handler_list;
    header_config = header_prepare_init id;
  })

module _ {L V : Type 0} (list : LinkedList L) (calls : NodeCallbacks L V) where
  -- A node is initialised with an id, whatever its memory held, and then different handlers are
  -- registered, which do not change the list of the node when they are called. A message for this id
  -- or for all devices is given to each of them that does not opt out, once, the handler that was
  -- registered last being the first, and one round more than there are handlers is enough; any other
  -- message changes nothing.
  pub message_handler-newest_first :
      (f rounds n id : ℕ) (xs : List ℕ) (h : Header) (payload : List ℕ) (origin : Option ℕ)
      (s : System L V)
      → KeepsNodeHandlers list calls n
      → IsDistinct xs
      → length xs < rounds
      → (let t = register_all list (node_init list f s n id) n xs in
          message_handler list calls rounds n h payload origin t
          ≡ some (
              if concerns id h
              then handle_each list calls (newest_first xs []) h payload origin t
              else t))
  unfolding occurrences header_prepare_init
  message_handler-newest_first f rounds n id xs h payload origin s keeps distinct enough =
      let u = node_init list f s n id in
      let t = register_all list u n xs in
      let none_yet : handlers_of list u n ≡ [] =
        ap (λ x. list.entries x.node_handler_list) (node_init-node_at list f s n id)
        ∙ list.entries-init_list_head (node_at s n).node_handler_list in
      let own : own_id t n ≡ id =
        register_all-own_id list u n xs
        ∙ ap (λ x. x.header_config.own_sender_id) (node_init-node_at list f s n id) in
      let all : handlers_of list t n ≡ newest_first xs [] =
        register_all-newest_first list u n xs (λ b. rw none_yet (ground (arith, distinct b)))
        ∙ ap (newest_first xs) none_yet in
      message_handler-handle_each list calls rounds n h payload origin t keeps
        (λ b. rw all (ground (arith, newest_first-occurrences b xs [], distinct b)))
        (rw all (omega (arith, newest_first-length xs [])))
      ∙ ap
          (λ i. some (
            if concerns i h
            then handle_each list calls (handlers_of list t n) h payload origin t
            else t))
          own
      ∙ ap (λ ys. some (if concerns id h then handle_each list calls ys h payload origin t else t))
          all
