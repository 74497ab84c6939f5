-- ===== src/Bridge/Handling.antt =====
-- The handlers of a bridge, of src/Bridge.c: `ndlcomBridgeProcessDecodedMessage`,
-- `ndlcomBridgeSendRaw` and the registration of handlers.
use ndlcom.Prelude.{
  ℕ, zero, suc, Bool, true, false, not, ◌&&◌, ◌==◌, Option, none, some, List, bit_and,
  if◌then◌else◌,
}
use ndlcom.Prelude.Counts.{has}
use ndlcom.Wire.{Header, ByteOrder}
use ndlcom.Routing.{Destination, the_bridge, interface_at, same_destination}
use ndlcom.LinkedList.{LinkedList, Cursor, head, node}
use ndlcom.BridgeHandler.{BridgeHandler, flags_no_messages_from_internal}
use ndlcom.Bridge.{Bridge, Callbacks, process_outgoing_message}

-- The handler callbacks: the function at an address, called with a context, the message and where it
-- came from, null for the inside. It may do anything to the bridge.
pub record HandlerCallbacks (L W : Type 0) : Type 0 where
  pub handle : ℕ → ℕ → Header → List ℕ → Option ℕ → Bridge L W → Bridge L W

module _ {L W : Type 0} (list : LinkedList L) where
  unfoldable pub check_bridge_handler : Bridge L W → ℕ → Bool
  check_bridge_handler s a = has a (list.entries s.bridge_handler_list)

  unfoldable pub register_bridge_handler : Bridge L W → ℕ → Bridge L W
  register_bridge_handler s a = if check_bridge_handler s a then s else record s {
    bridge_handler_list = list.list_add a s.bridge_handler_list;
    handlers = λ b. (if b == a then record (s.handlers b) { has_bridge = true } else s.handlers b);
  }

  unfoldable pub deregister_bridge_handler : Bridge L W → ℕ → Bridge L W
  deregister_bridge_handler s a = if not (check_bridge_handler s a) then s else record s {
    bridge_handler_list = list.list_del_init a s.bridge_handler_list;
    handlers = λ b. (if b == a then record (s.handlers b) { has_bridge = false } else s.handlers b);
  }

abbrev pub same_cursor : Cursor → Cursor → Bool
same_cursor head head = true
same_cursor (node a) (node b) = a == b
same_cursor _ _ = false

module _ {L : Type 0} (list : LinkedList L) where
  -- `list_empty(&c->list)`: a link to itself.
  abbrev pub links_to_itself : L → Cursor → Bool
  links_to_itself l c = same_cursor (list.next l c) c

  -- CHECK_LIST_IN_LOOP, and the step of `list_for_each_entry_safe` behind it: where the loop stands
  -- next, with what it holds as the one after.
  unfoldable pub step_in_loop : L → Cursor → Cursor → Cursor × Cursor
  step_in_loop l first second =
      if links_to_itself l first
      then (second, list.next l second)
      else if links_to_itself l second
      then (first, list.next l first)
      else (second, list.next l second)

module _ {L W : Type 0} (list : LinkedList L) (calls : HandlerCallbacks L W) where
  -- The handler opts out of messages from the inside.
  abbrev pub skips : BridgeHandler → Destination → Bool
  skips h origin =
      not (bit_and h.flags flags_no_messages_from_internal == 0)
      && same_destination origin the_bridge

  abbrev pub origin_or_null : Destination → Option ℕ
  origin_or_null (interface_at a) = some a
  origin_or_null _ = none

  unfoldable pub call_handler : ℕ → Header → List ℕ → Destination → Bridge L W → Bridge L W
  call_handler a header payload origin s =
      let h = s.handlers a in
      calls.handle h.handler h.context header payload (origin_or_null origin) s

  -- The loop over the handlers, for at most this many rounds; `none` when they are not enough.
  unfoldable pub handler_loop :
      ℕ → Cursor → Cursor → Header → List ℕ → Destination → Bridge L W → Option (Bridge L W)
  handler_loop zero first second header payload origin s = none
  handler_loop (suc rounds) head second header payload origin s = some s
  handler_loop (suc rounds) (node a) second header payload origin s =
      let skipped = skips (s.handlers a) origin in
      let t = if skipped then s else call_handler a header payload origin s in
      let (following, after) =
        if skipped
        then (second, list.next s.bridge_handler_list second)
        else step_in_loop list t.bridge_handler_list (node a) second in
      handler_loop rounds following after header payload origin t

module _ {L W : Type 0} (list : LinkedList L) (callbacks : Callbacks W)
    (calls : HandlerCallbacks L W) (order : ByteOrder) where
  unfoldable pub process_decoded_message :
      ℕ → Bridge L W → Header → List ℕ → Destination → Option (Bridge L W)
  process_decoded_message rounds s header payload origin =
      let t = process_outgoing_message list callbacks order s header payload origin in
      let first = list.next t.bridge_handler_list head in
      handler_loop list calls rounds first (list.next t.bridge_handler_list first) header payload
        origin t

  unfoldable pub send_raw : ℕ → Bridge L W → Header → List ℕ → Option (Bridge L W)
  send_raw rounds s header payload = process_decoded_message rounds s header payload the_bridge
