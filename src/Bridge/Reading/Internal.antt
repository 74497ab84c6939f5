-- ===== src/Bridge/Reading/Internal.antt =====
-- An id that leads to the bridge itself, under what src/Bridge.c does when it reads an interface.
use ndlcom.Prelude.{
  ℕ, zero, suc, ◌+◌, ◌<◌, ◌≡◌, sym, ◌∙◌, inl, inr, Bool-cases, Bool, true, ◌||◌, Option, none, some,
  List, drop, length, ◌==◌, leb, take, if◌then◌else◌, arith,
}
use mathlib.Core.Option
use mathlib.Core.Path.{subst}
use ndlcom.Wire.{Header, ByteOrder, max_number_of_devices}
use ndlcom.Parser.{receive, has_packet, get_header, get_packet}
use ndlcom.Routing.{
  Destination, the_bridge, interface_at, same_destination, get_destination, routing_table_update,
}
use ndlcom.Routing.Laws.{IsTable, routing_table_update-IsTable, get_destination-update}
use ndlcom.LinkedList.{LinkedList, Cursor, head, node}
use ndlcom.ExternalInterface.{is_mirror}
use ndlcom.Bridge.{Bridge, Callbacks, add_routing_information}
use ndlcom.Bridge.Forwarding.{process_outgoing_message-world}
use ndlcom.Bridge.Handling.{
  HandlerCallbacks, links_to_itself, skips, call_handler, handler_loop, process_decoded_message,
}
use ndlcom.Bridge.Reading.{
  device_id_is_not_internally_used, set_parser, learn_route, process_packet, after_receive,
  process_bytes, process_external_interface, ◌>>=◌, temporary_rxbuffer_size,
}

module _ {L W : Type 0} (id : ℕ) where
  -- The id leads to the bridge, and the table has its full size.
  abbrev pub Internal : Bridge L W → Type 0
  Internal s = IsTable s.routing_table × (get_destination s.routing_table id ≡ the_bridge)

  learn_byte-Internal :
      (s : Bridge L W) (a : ℕ) (h : Header)
      → h.sender_id < 256
      → Internal s
      → Internal (learn_route s a h)
  unfolding learn_route add_routing_information device_id_is_not_internally_used
  learn_byte-Internal s a h byte (table, inside) = elim (Bool-cases (is_mirror (s.interfaces a))) [
    | inl mirror ↦ simp mirror (table, inside)
    | inr ordinary ↦
        elim (Bool-cases
          (same_destination (get_destination s.routing_table h.sender_id) the_bridge)) [
            | inl ours ↦ simp (ordinary, ours) (table, inside)
            | inr others ↦
                simp (ordinary, others)
                  (
                    routing_table_update-IsTable s.routing_table h.sender_id (interface_at a) table,
                    get_destination-update s.routing_table h.sender_id id (interface_at a) table
                          byte
                        ∙ elim (Bool-cases (h.sender_id == id)) [
                          | inl same ↦ absurd (ground (arith, others, inside))
                          | inr differs ↦ simp differs inside
                        ],
                  )
          ]
  ]

  learn_large-Internal :
      (s : Bridge L W) (a : ℕ) (h : Header)
      → leb max_number_of_devices h.sender_id ≡ true
      → Internal s
      → Internal (learn_route s a h)
  unfolding learn_route add_routing_information routing_table_update
  learn_large-Internal s a h large (table, inside) =
      elim (Bool-cases (is_mirror (s.interfaces a))) [
        | inl mirror ↦ simp mirror (table, inside)
        | inr ordinary ↦ elim (Bool-cases (device_id_is_not_internally_used s h.sender_id)) [
          | inl outside ↦ simp (ordinary, outside, large) (table, inside)
          | inr ours ↦ simp (ordinary, ours) (table, inside)
        ]
      ]

  learn_route-Internal :
      (s : Bridge L W) (a : ℕ) (h : Header) → Internal s → Internal (learn_route s a h)
  learn_route-Internal s a h inside = elim (Bool-cases (leb max_number_of_devices h.sender_id)) [
    | inl large ↦ learn_large-Internal s a h large inside
    | inr byte ↦ learn_byte-Internal s a h (ground arith) inside
  ]

module _ {L W : Type 0} (list : LinkedList L) (callbacks : Callbacks W)
    (calls : HandlerCallbacks L W) (order : ByteOrder) (id : ℕ) where
  -- No handler takes the mark of the id out of the table.
  abbrev pub KeepsInternal : Type 0
  KeepsInternal =
      (f context : ℕ) (h : Header) (payload : List ℕ) (origin : Option ℕ) (s : Bridge L W)
      → Internal id s
      → Internal id (calls.handle f context h payload origin s)

  -- The bridge that a call returns, where it returns.
  abbrev Ends : {X : Type 0} → (X → Bridge L W) → Option X → Type 0
  Ends get none = Unit
  Ends get (some x) = Internal id (get x)

  -- The same where it returns a number or a Boolean value too.
  abbrev pub EndsFirst : {X : Type 0} → Option (Bridge L W × X) → Type 0
  EndsFirst none = Unit
  EndsFirst (some x) = Internal id (x.0)

  handler_loop-Internal :
      (rounds : ℕ) (first second : Cursor) (h : Header) (payload : List ℕ) (origin : Destination)
      (s : Bridge L W)
      → KeepsInternal
      → Internal id s
      → Ends (λ t. t) (handler_loop list calls rounds first second h payload origin s)
  unfolding handler_loop call_handler
  handler_loop-Internal zero first second h payload origin s keeps inside = tt
  handler_loop-Internal (suc rounds) head second h payload origin s keeps inside = inside
  handler_loop-Internal (suc rounds) (node a) second h payload origin s keeps inside =
      elim (Bool-cases (skips list calls (s.handlers a) origin)) [
        | inl skipped ↦
            rw skipped (handler_loop-Internal rounds second _ h payload origin s keeps inside)
        | inr called ↦ rw called (
            handler_loop-Internal rounds _ _ h payload origin _ keeps
              (keeps _ _ h payload _ s inside))
      ]

  process_decoded_message-Internal :
      (rounds : ℕ) (s : Bridge L W) (h : Header) (payload : List ℕ) (origin : Destination)
      → KeepsInternal
      → Internal id s
      → Ends (λ t. t) (process_decoded_message list callbacks calls order rounds s h payload origin)
  unfolding process_decoded_message
  process_decoded_message-Internal rounds s h payload origin keeps inside =
      handler_loop-Internal rounds _ _ h payload origin _ keeps (
        subst (λ (t : Bridge L W). Internal id t)
          (sym (process_outgoing_message-world list callbacks order s h payload origin)) inside)

  then-Ends :
      {X Y : Type 0} (get : X → Bridge L W) (put : Y → Bridge L W) (m : Option X) (f : X → Option Y)
      → Ends get m
      → ((x : X) → Internal id (get x) → Ends put (f x))
      → Ends put (m >>= f)
  then-Ends get put none f here more = tt
  then-Ends get put (some x) f here more = more x here

  process_packet-Internal :
      (rounds : ℕ) (s : Bridge L W) (a : ℕ)
      → KeepsInternal
      → Internal id s
      → Ends (λ t. t) (process_packet list callbacks calls order rounds s a)
  unfolding process_packet set_parser
  process_packet-Internal rounds s a keeps inside =
      then-Ends (λ h. s) (λ t. t) (get_header (s.interfaces a).parser) _
        (anything (get_header (s.interfaces a).parser))
        (λ h i.
          then-Ends (λ b. s) (λ t. t) (get_packet (s.interfaces a).parser) _
            (anything (get_packet (s.interfaces a).parser))
            (λ buffer j.
              then-Ends (λ t. t) (λ t. t) _ _
                (process_decoded_message-Internal rounds (learn_route s a h) h
                  (take h.data_len buffer) (interface_at a) keeps
                  (learn_route-Internal id s a h inside))
                (λ t k. k)))
    where
      anything : {X : Type 0} (m : Option X) → Ends (λ x. s) m
      anything none = tt
      anything (some x) = inside

  after_receive-Internal :
      (rounds : ℕ) (s : Bridge L W) (a : ℕ)
      → KeepsInternal
      → Internal id s
      → EndsFirst (after_receive list callbacks calls order rounds s a)
  unfolding after_receive
  after_receive-Internal rounds s a keeps inside =
      elim (Bool-cases (has_packet (s.interfaces a).parser)) [
        | inl done ↦ rw done (
            paired (process_packet list callbacks calls order rounds s a)
              (process_packet-Internal rounds s a keeps inside))
        | inr idle ↦ rw idle inside
      ]
    where
      paired :
          (m : Option (Bridge L W))
          → Ends (λ t. t) m
          → EndsFirst
              (Option.map (λ t. (t, links_to_itself list t.external_interface_list (node a))) m)
      paired none here = tt
      paired (some t) here = here

  process_bytes-Internal :
      (rounds byte_rounds : ℕ) (s : Bridge L W) (a : ℕ) (bytes : List ℕ) (processed : ℕ)
      → KeepsInternal
      → Internal id s
      → EndsFirst (process_bytes list callbacks calls order rounds byte_rounds s a bytes processed)
  unfolding process_bytes set_parser
  process_bytes-Internal rounds zero s a bytes processed keeps inside = tt
  process_bytes-Internal rounds (suc byte_rounds) s a bytes processed keeps inside =
      let read = receive (s.interfaces a).parser (drop processed bytes) in
      go (processed + read.1) _
        (after_receive-Internal rounds (set_parser s a read.0) a keeps inside)
        (λ t k. process_bytes-Internal rounds byte_rounds t a bytes (processed + read.1) keeps k)
    where
      go :
          (now : ℕ) (m : Option (Bridge L W × Bool))
          → EndsFirst m
          → ((t : Bridge L W)
              → Internal id t
              → EndsFirst
                  (process_bytes list callbacks calls order rounds byte_rounds t a bytes now))
          → EndsFirst (
              let out : Option (Bridge L W × ℕ) = elim m [
                | none ↦ none
                | some (t, gone) ↦
                    let rest =
                      process_bytes list callbacks calls order rounds byte_rounds t a bytes now in
                    if gone || length bytes == now then some (t, now) else rest
              ] in
              out)
      go now none here more = tt
      go now (some (t, gone)) here more = elim (Bool-cases (gone || length bytes == now)) [
        | inl ends ↦ rw ends here
        | inr on ↦ rw on (more t here)
      ]

  -- Reading an interface, whatever bytes it gives, leaves the id where it was.
  pub process_external_interface-Internal :
      (rounds byte_rounds : ℕ) (s : Bridge L W) (a : ℕ)
      → KeepsInternal
      → Internal id s
      → EndsFirst (process_external_interface list callbacks calls order rounds byte_rounds s a)
  unfolding process_external_interface
  process_external_interface-Internal rounds byte_rounds s a keeps inside =
      let i = s.interfaces a in
      let bytes = (callbacks.read_bytes i.read i.context temporary_rxbuffer_size s.world).0 in
      elim (Bool-cases (length bytes == 0)) [
        | inl nothing ↦ rw nothing inside
        | inr something ↦
            rw something (process_bytes-Internal rounds byte_rounds _ a bytes 0 keeps inside)
      ]
