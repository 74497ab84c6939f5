-- ===== src/Bridge/Reading/Packets.antt =====
-- One packet that an interface has received, when the handlers leave the lists and the interfaces
-- alone.
use ndlcom.Prelude.{
  ℕ, ◌<◌, ◌≡◌, refl, ap, ◌∙◌, inl, inr, Bool-cases, true, false, Option, some, List, ==_refl,
  length, take,
}
use ndlcom.Wire.{Header, ByteOrder}
use ndlcom.Parser.{Parser, has_packet, get_header, get_packet, destroy_packet, header_of}
use ndlcom.ExternalInterface.{is_mirror}
use ndlcom.Routing.{RoutingTable, interface_at}
use ndlcom.LinkedList.{LinkedList, IsDistinct}
use ndlcom.Bridge.{Bridge, Callbacks, process_outgoing_message, add_routing_information}
use ndlcom.Bridge.Forwarding.{process_outgoing_message-world}
use ndlcom.Bridge.Handling.{HandlerCallbacks, process_decoded_message}
use ndlcom.Bridge.Dispatch.{handle_all, handle_all-keeps, process_decoded_message-handle_all}
use ndlcom.Bridge.Reading.{
  device_id_is_not_internally_used, set_parser, learn_route, process_packet,
}

pub complete_packet :
    (p : Parser)
    → has_packet p ≡ true
    → (get_header p ≡ some (header_of p)) × (get_packet p ≡ some p.payload)
unfolding has_packet get_header get_packet
complete_packet p done = (rw done refl, rw done refl)

pub has_packet-destroy_packet : (p : Parser) → has_packet (destroy_packet p) ≡ false
unfolding has_packet destroy_packet
has_packet-destroy_packet p = refl

module _ {L W : Type 0} where
  -- No handler changes the lists of the bridge or one of its interfaces.
  pub record IsPassive (calls : HandlerCallbacks L W) : Type 0 where
    pub keeps_handlers :
        (f context : ℕ) (h : Header) (payload : List ℕ) (origin : Option ℕ) (s : Bridge L W)
        → (calls.handle f context h payload origin s).bridge_handler_list ≡ s.bridge_handler_list
    pub keeps_list :
        (f context : ℕ) (h : Header) (payload : List ℕ) (origin : Option ℕ) (s : Bridge L W)
        → (calls.handle f context h payload origin s).external_interface_list
          ≡ s.external_interface_list
    pub keeps_interfaces :
        (f context : ℕ) (h : Header) (payload : List ℕ) (origin : Option ℕ) (s : Bridge L W)
        → (calls.handle f context h payload origin s).interfaces ≡ s.interfaces

  pub set_parser-parser :
      (s : Bridge L W) (a : ℕ) (p : Parser) → ((set_parser s a p).interfaces a).parser ≡ p
  unfolding set_parser
  set_parser-parser s a p = rw (==_refl a) refl

  -- Learning a route changes the routing table only.
  pub learn_route-routing_table :
      (s : Bridge L W) (a : ℕ) (h : Header)
      → learn_route s a h ≡ record s { routing_table = (learn_route s a h).routing_table }
  unfolding learn_route add_routing_information
  learn_route-routing_table s a h = elim (Bool-cases (is_mirror (s.interfaces a))) [
    | inl mirror ↦ simp mirror refl
    | inr ordinary ↦ elim (Bool-cases (device_id_is_not_internally_used s h.sender_id)) [
      | inl outside ↦ simp (ordinary, outside) refl
      | inr inside ↦ simp (ordinary, inside) refl
    ]
  ]

module _ {L W : Type 0} (list : LinkedList L) (callbacks : Callbacks W)
    (calls : HandlerCallbacks L W) (order : ByteOrder) where
  -- The bridge behind one packet: the sender's route, the message passed on, the handlers called.
  abbrev pub dispatched : Bridge L W → ℕ → Header → List ℕ → Bridge L W
  dispatched s a h payload =
      handle_all list calls (list.entries s.bridge_handler_list) h payload (interface_at a) (
        process_outgoing_message list callbacks order (learn_route s a h) h payload
          (interface_at a))

  pub dispatched-keeps :
      {X : Type 0} (get : Bridge L W → X)
      → ((f context : ℕ) (h : Header) (payload : List ℕ) (origin : Option ℕ) (s : Bridge L W)
          → get (calls.handle f context h payload origin s) ≡ get s)
      → ((s : Bridge L W) (w : W) → get (record s { world = w }) ≡ get s)
      → ((s : Bridge L W) (r : RoutingTable) → get (record s { routing_table = r }) ≡ get s)
      → (s : Bridge L W) (a : ℕ) (h : Header) (payload : List ℕ)
      → get (dispatched s a h payload) ≡ get s
  dispatched-keeps get handlers worlds tables s a h payload =
      let learned = learn_route s a h in
      handle_all-keeps list calls get handlers (list.entries s.bridge_handler_list) h payload
        (interface_at a)
        (process_outgoing_message list callbacks order learned h payload (interface_at a))
      ∙ ap get
          (process_outgoing_message-world list callbacks order learned h payload (interface_at a))
      ∙ worlds learned _
      ∙ ap get (learn_route-routing_table s a h)
      ∙ tables s _

module _ {L W : Type 0} (list : LinkedList L) (callbacks : Callbacks W)
    (calls : HandlerCallbacks L W) (order : ByteOrder) (handler_rounds : ℕ) where
  pub process_packet-dispatched :
      (s : Bridge L W) (a : ℕ) (h : Header) (buffer : List ℕ)
      → IsPassive calls
      → IsDistinct (list.entries s.bridge_handler_list)
      → length (list.entries s.bridge_handler_list) < handler_rounds
      → get_header (s.interfaces a).parser ≡ some h
      → get_packet (s.interfaces a).parser ≡ some buffer
      → process_packet list callbacks calls order handler_rounds s a
        ≡ some (
            set_parser
              (dispatched list callbacks calls order s a h (take h.data_len buffer))
              a
              (destroy_packet (s.interfaces a).parser))
  unfolding process_packet
  process_packet-dispatched s a h buffer passive distinct enough head_is packet_is =
      let payload = take h.data_len buffer in
      let learned = learn_route s a h in
      let same : learned.bridge_handler_list ≡ s.bridge_handler_list =
        ap (λ u. u.bridge_handler_list) (learn_route-routing_table s a h) in
      let ran : process_decoded_message list callbacks calls order handler_rounds learned h payload
            (interface_at a)
          ≡ some (dispatched list callbacks calls order s a h payload) =
        process_decoded_message-handle_all list callbacks calls order handler_rounds learned h
          payload (interface_at a) passive.keeps_handlers (rw same distinct) (rw same enough)
        ∙ ap
            (λ l. some (
              handle_all list calls (list.entries l) h payload (interface_at a)
                (process_outgoing_message list callbacks order learned h payload (interface_at a))))
            same in
      let kept : (dispatched list callbacks calls order s a h payload).interfaces ≡ s.interfaces =
        dispatched-keeps list callbacks calls order (λ u. u.interfaces) passive.keeps_interfaces
          (λ u w. refl) (λ u r. refl) s a h payload in
      rw (head_is, packet_is, ran)
        (ap
          (λ g. some (
            set_parser (dispatched list callbacks calls order s a h payload) a
              (destroy_packet (g a).parser)))
          kept)
