-- ===== src/Bridge/Dispatch.antt =====
-- The loop over the handlers of a bridge, when the handlers leave the list of the handlers alone.
use ndlcom.Prelude.{
  ℕ, zero, suc, ◌+◌, ◌<◌, ◌≡◌, refl, ap, ◌∙◌, inl, inr, Bool-cases, false, Option, some, List, [],
  ◌∷◌, if◌then◌else◌, length, arith,
}
use ndlcom.Prelude.Counts.{occurrences}
use ndlcom.Wire.{Header, ByteOrder}
use ndlcom.Routing.{Destination}
use ndlcom.LinkedList.{LinkedList, Cursor, head, node, Visits, IsDistinct}
use ndlcom.Bridge.{Bridge, Callbacks, process_outgoing_message}
use ndlcom.Bridge.Forwarding.{process_outgoing_message-world}
use ndlcom.Bridge.Handling.{
  HandlerCallbacks, links_to_itself, step_in_loop, skips, call_handler, handler_loop,
  process_decoded_message,
}

module _ {L W : Type 0} (list : LinkedList L) (calls : HandlerCallbacks L W) where
  -- No handler registers or takes out a handler.
  abbrev pub KeepsHandlers : Type 0
  KeepsHandlers =
      (f context : ℕ) (h : Header) (payload : List ℕ) (origin : Option ℕ) (s : Bridge L W)
      → (calls.handle f context h payload origin s).bridge_handler_list ≡ s.bridge_handler_list

  abbrev pub handle_one : Header → List ℕ → Destination → Bridge L W → ℕ → Bridge L W
  handle_one h payload origin s a =
      if skips list calls (s.handlers a) origin
      then s
      else call_handler list calls a h payload origin s

  -- Every handler of the list that does not opt out is called once, in order.
  unfoldable pub handle_all : List ℕ → Header → List ℕ → Destination → Bridge L W → Bridge L W
  handle_all [] h payload origin s = s
  handle_all (a ∷ rest) h payload origin s =
      handle_all rest h payload origin (handle_one h payload origin s a)

  one_round :
      (rounds a : ℕ) (second : Cursor) (h : Header) (payload : List ℕ) (origin : Destination)
      (s : Bridge L W) (l : L)
      → KeepsHandlers
      → s.bridge_handler_list ≡ l
      → links_to_itself list l (node a) ≡ false
      → links_to_itself list l second ≡ false
      → handler_loop list calls (suc rounds) (node a) second h payload origin s
        ≡ handler_loop list calls rounds second
            (list.next l second)
            h
            payload
            origin
            (handle_one h payload origin s a)
  unfolding handler_loop step_in_loop call_handler
  one_round rounds a second h payload origin s l keeps same linked second_linked =
      elim (Bool-cases (skips list calls (s.handlers a) origin)) [
        | inl skipped ↦ simp (skipped, same) refl
        | inr called ↦ simp (called, keeps, same, linked, second_linked) refl
      ]

  -- What no handler changes is the same behind all of them.
  pub handle_all-keeps :
      {X : Type 0} (get : Bridge L W → X)
      → ((f context : ℕ) (h : Header) (payload : List ℕ) (origin : Option ℕ) (s : Bridge L W)
          → get (calls.handle f context h payload origin s) ≡ get s)
      → (xs : List ℕ) (h : Header) (payload : List ℕ) (origin : Destination) (s : Bridge L W)
      → get (handle_all xs h payload origin s) ≡ get s
  unfolding handle_all call_handler
  handle_all-keeps get keeps [] h payload origin s = refl
  handle_all-keeps get keeps (a ∷ rest) h payload origin s =
      handle_all-keeps get keeps rest h payload origin (handle_one h payload origin s a)
      ∙ elim (Bool-cases (skips list calls (s.handlers a) origin)) [
        | inl skipped ↦ simp skipped refl
        | inr called ↦ simp called (keeps _ _ h payload _ s)
      ]

  handle_one-list :
      (a : ℕ) (h : Header) (payload : List ℕ) (origin : Destination) (s : Bridge L W)
      → KeepsHandlers
      → (handle_one h payload origin s a).bridge_handler_list ≡ s.bridge_handler_list
  unfolding call_handler
  handle_one-list a h payload origin s keeps =
      elim (Bool-cases (skips list calls (s.handlers a) origin)) [
        | inl skipped ↦ simp skipped refl
        | inr called ↦ simp (called, keeps) refl
      ]

  links_to_itself-Visits :
      (l : L) (a : ℕ) (xs : List ℕ)
      → Visits (list.next l) (node a) xs
      → IsDistinct (a ∷ xs)
      → links_to_itself list l (node a) ≡ false
  unfolding occurrences
  links_to_itself-Visits l a [] e distinct = rw e refl
  links_to_itself-Visits l a (b ∷ rest) (e, v) distinct = rw e (ground (arith, distinct a))

  tail-IsDistinct : (a : ℕ) (xs : List ℕ) → IsDistinct (a ∷ xs) → IsDistinct xs
  unfolding occurrences
  tail-IsDistinct a xs distinct b = ground (arith, distinct b)

  handler_loop-handle_all :
      (xs : List ℕ) (a rounds : ℕ) (h : Header) (payload : List ℕ) (origin : Destination)
      (s : Bridge L W) (l : L)
      → KeepsHandlers
      → s.bridge_handler_list ≡ l
      → Visits (list.next l) (node a) xs
      → IsDistinct (a ∷ xs)
      → links_to_itself list l head ≡ false
      → length xs + 1 < rounds
      → handler_loop list calls rounds (node a) (list.next l (node a)) h payload origin s
        ≡ some (handle_all (a ∷ xs) h payload origin s)
  unfolding handle_all handler_loop
  handler_loop-handle_all xs a zero h payload origin s l keeps same v distinct top enough =
      absurd (omega arith)
  handler_loop-handle_all [] a (suc zero) h payload origin s l keeps same e distinct top enough =
      absurd (omega arith)
  handler_loop-handle_all [] a (suc (suc rounds)) h payload origin s l keeps same e distinct top
        enough =
      rw e (
        one_round (suc rounds) a head h payload origin s l keeps same
          (links_to_itself-Visits l a [] e distinct) top)
  handler_loop-handle_all (b ∷ rest) a (suc rounds) h payload origin s l keeps same (e, v) distinct
        top enough =
      rw e (
        one_round rounds a (node b) h payload origin s l keeps same
          (links_to_itself-Visits l a (b ∷ rest) (e, v) distinct)
          (links_to_itself-Visits l b rest v (tail-IsDistinct a (b ∷ rest) distinct))
        ∙ handler_loop-handle_all rest b rounds h payload origin (handle_one h payload origin s a) l
            keeps (handle_one-list a h payload origin s keeps ∙ same) v
            (tail-IsDistinct a (b ∷ rest) distinct) top (omega arith))

  whole_loop :
      (xs : List ℕ) (rounds : ℕ) (h : Header) (payload : List ℕ) (origin : Destination)
      (s : Bridge L W)
      → KeepsHandlers
      → Visits (list.next s.bridge_handler_list) head xs
      → IsDistinct xs
      → length xs < rounds
      → (let first = list.next s.bridge_handler_list head in
          handler_loop list calls rounds first
            (list.next s.bridge_handler_list first)
            h
            payload
            origin
            s)
        ≡ some (handle_all xs h payload origin s)
  unfolding handler_loop handle_all
  whole_loop xs zero h payload origin s keeps v distinct enough = absurd (omega arith)
  whole_loop [] (suc rounds) h payload origin s keeps e distinct enough = rw e refl
  whole_loop (a ∷ rest) (suc rounds) h payload origin s keeps (e, v) distinct enough = rw e (
      handler_loop-handle_all rest a (suc rounds) h payload origin s s.bridge_handler_list keeps
        refl v distinct (rw e refl) (omega arith))

module _ {L W : Type 0} (list : LinkedList L) (callbacks : Callbacks W)
    (calls : HandlerCallbacks L W) (order : ByteOrder) where
  -- When no handler registers or takes out a handler and the list holds no handler twice, the loop
  -- over the handlers ends within one round more than there are handlers, and a message is passed on
  -- first and then given to every handler that does not opt out, once and in the order of the list.
  pub process_decoded_message-handle_all :
      (rounds : ℕ) (s : Bridge L W) (h : Header) (payload : List ℕ) (origin : Destination)
      → KeepsHandlers list calls
      → IsDistinct (list.entries s.bridge_handler_list)
      → length (list.entries s.bridge_handler_list) < rounds
      → process_decoded_message list callbacks calls order rounds s h payload origin
        ≡ some (
            handle_all list calls
              (list.entries s.bridge_handler_list)
              h
              payload
              origin
              (process_outgoing_message list callbacks order s h payload origin))
  unfolding process_decoded_message
  process_decoded_message-handle_all rounds s h payload origin keeps distinct enough =
      let t = process_outgoing_message list callbacks order s h payload origin in
      let same : t.bridge_handler_list ≡ s.bridge_handler_list =
        ap (λ u. u.bridge_handler_list)
          (process_outgoing_message-world list callbacks order s h payload origin) in
      whole_loop list calls (list.entries s.bridge_handler_list) rounds h payload origin t keeps
        (rw same (list.next-entries s.bridge_handler_list distinct)) distinct enough
