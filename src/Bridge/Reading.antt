-- ===== src/Bridge/Reading.antt =====
-- The loops of src/Bridge.c that read: `ndlcomBridgeProcessExternalInterface`,
-- `ndlcomBridgeProcessOnce` and `ndlcomBridgeProcess`. Each runs for at most a number of rounds, and
-- `none` says that one of them was not enough.
pub mod Packets
pub mod Draining
pub mod Rounds
pub mod Arrival
pub mod Internal
use mathlib.Core.Option
use ndlcom.Prelude.{
  ℕ, zero, suc, ◌+◌, Bool, true, false, not, ◌||◌, ◌==◌, ltb, Option, none, some, List,
  if◌then◌else◌, length, take, drop,
}
use ndlcom.Wire.{Header, ByteOrder, max_encoded_message_size}
use ndlcom.Encoder.{size_t}
use ndlcom.Parser.{Parser, receive, has_packet, get_header, get_packet, destroy_packet}
use ndlcom.Routing.{the_bridge, interface_at, same_destination, get_destination}
use ndlcom.LinkedList.{LinkedList, Cursor, head, node}
use ndlcom.ExternalInterface.{is_mirror}
use ndlcom.Bridge.{Bridge, Callbacks, add_routing_information}
use ndlcom.Bridge.Handling.{
  HandlerCallbacks, links_to_itself, step_in_loop, process_decoded_message,
}

abbrev pub temporary_rxbuffer_size : ℕ
temporary_rxbuffer_size = max_encoded_message_size

infixl 5 ◌>>=◌
abbrev pub ◌>>=◌ : {A B : Type 0} → Option A → (A → Option B) → Option B
none >>= f = none
some a >>= f = f a

module _ {L W : Type 0} where
  unfoldable pub device_id_is_not_internally_used : Bridge L W → ℕ → Bool
  device_id_is_not_internally_used s id =
      not (same_destination (get_destination s.routing_table id) the_bridge)

  -- `externalInterface->parser = …`
  unfoldable pub set_parser : Bridge L W → ℕ → Parser → Bridge L W
  set_parser s a p = record s {
    interfaces = λ b. (if b == a then record (s.interfaces b) { parser = p } else s.interfaces b);
  }

  unfoldable pub learn_route : Bridge L W → ℕ → Header → Bridge L W
  learn_route s a header =
      if not (is_mirror (s.interfaces a))
      then (if device_id_is_not_internally_used s header.sender_id
          then add_routing_information s header.sender_id a
          else s)
      else s

module _ {L W : Type 0} (list : LinkedList L) (callbacks : Callbacks W)
    (calls : HandlerCallbacks L W) (order : ByteOrder) (handler_rounds : ℕ) where
  -- The body of `if (ndlcomParserHasPacket(…))`, up to the check of the list. The payload is the part
  -- of the buffer that the header speaks of.
  unfoldable pub process_packet : Bridge L W → ℕ → Option (Bridge L W)
  process_packet s a = do
    header ← get_header (s.interfaces a).parser
    buffer ← get_packet (s.interfaces a).parser
    t ←
        process_decoded_message list callbacks calls order handler_rounds (learn_route s a header)
          header (take header.data_len buffer) (interface_at a)
    some (set_parser t a (destroy_packet (t.interfaces a).parser))

  -- One round of the `do` loop behind the call of the parser: the memory, and whether to `break`.
  unfoldable pub after_receive : Bridge L W → ℕ → Option (Bridge L W × Bool)
  after_receive s a =
      if has_packet (s.interfaces a).parser
      then Option.map (λ t. (t, links_to_itself list t.external_interface_list (node a)))
          (process_packet s a)
      else some (s, false)

  -- The `do` loop, with the bytes that were read and how many of them are processed.
  unfoldable pub process_bytes : ℕ → Bridge L W → ℕ → List ℕ → ℕ → Option (Bridge L W × ℕ)
  process_bytes zero s a bytes processed = none
  process_bytes (suc rounds) s a bytes processed =
      let (parser, count) = receive (s.interfaces a).parser (drop processed bytes) in
      let now = processed + count in
      elim (after_receive (set_parser s a parser) a) [
        | none ↦ none
        | some (t, gone) ↦
            let rest = process_bytes rounds t a bytes now in
            if gone || length bytes == now then some (t, now) else rest
      ]

  unfoldable pub process_external_interface : ℕ → Bridge L W → ℕ → Option (Bridge L W × ℕ)
  process_external_interface rounds s a =
      let i = s.interfaces a in
      let (bytes, world) = callbacks.read_bytes i.read i.context temporary_rxbuffer_size s.world in
      let t : Bridge L W = record s { world = world } in
      if length bytes == 0 then some (t, 0) else process_bytes rounds t a bytes 0

  -- The loop over the interfaces, with the number of bytes so far.
  unfoldable pub interface_loop : ℕ → ℕ → Cursor → Cursor → Bridge L W → ℕ → Option (Bridge L W × ℕ)
  interface_loop byte_rounds zero first second s overall = none
  interface_loop byte_rounds (suc rounds) head second s overall = some (s, overall)
  interface_loop byte_rounds (suc rounds) (node a) second s overall =
      elim (process_external_interface byte_rounds s a) [
        | none ↦ none
        | some (t, read) ↦
            let (following, after) = step_in_loop list t.external_interface_list (node a) second in
            interface_loop byte_rounds rounds following after t (size_t (overall + read))
      ]

  unfoldable pub process_once : ℕ → ℕ → Bridge L W → Option (Bridge L W × ℕ)
  process_once byte_rounds rounds s =
      let first = list.next s.external_interface_list head in
      interface_loop byte_rounds rounds first (list.next s.external_interface_list first) s 0

  unfoldable pub process : ℕ → ℕ → ℕ → Bridge L W → ℕ → Option (Bridge L W × ℕ)
  process byte_rounds rounds zero s overall = none
  process byte_rounds rounds (suc passes) s overall = elim (process_once byte_rounds rounds s) [
    | none ↦ none
    | some (t, read) ↦
        let total = size_t (overall + read) in
        let rest = process byte_rounds rounds passes t total in
        if ltb 0 read then rest else some (t, total)
  ]
