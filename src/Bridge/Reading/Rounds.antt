-- ===== src/Bridge/Reading/Rounds.antt =====
-- The rounds of the loop over the bytes of one read that are a frame.
use mathlib.Core.Option
use mathlib.Core.Path.{fun_ext}
use ndlcom.Prelude.{
  ℕ, zero, suc, ◌+◌, ◌<◌, ◌≤◌, ◌≡◌, refl, ap, ◌∙◌, inl, inr, Bool-cases, true, false, some, List,
  [], ◌∷◌, ◌++◌, append-nil, ◌==◌, ==_refl, ==_ne, if◌then◌else◌, length, length-append, take, drop,
  All, arith,
}
use ndlcom.Crc.{IsByte}
use ndlcom.Wire.{Header, IsHeader, start_stop_flag, ByteOrder, little_endian}
use ndlcom.Encoder.Frame.{frame, escape_all, frame_body}
use ndlcom.Parser.{
  Parser, receive, receive_from, receive_byte, has_packet, get_header, get_packet, destroy_packet,
}
use ndlcom.Parser.Invariant.{IsShaped}
use ndlcom.Parser.RoundTrip.{Delivered, receive-frame}
use ndlcom.LinkedList.{LinkedList, node, IsDistinct}
use ndlcom.Bridge.{Bridge, Callbacks}
use ndlcom.Bridge.Handling.{HandlerCallbacks, links_to_itself}
use ndlcom.Bridge.Reading.{set_parser, process_packet, after_receive, process_bytes}
use ndlcom.Bridge.Reading.Packets.{
  IsPassive, set_parser-parser, dispatched, dispatched-keeps, process_packet-dispatched,
  has_packet-destroy_packet,
}
use ndlcom.Bridge.Reading.Draining.{process_bytes-suc}

Delivered-packet :
    (h : Header) (payload : List ℕ) (q : Parser)
    → Delivered h payload q
    → (has_packet q ≡ true)
      × (get_packet q ≡ some q.payload)
      × (take h.data_len q.payload ≡ payload)
unfolding has_packet get_header get_packet
Delivered-packet h payload q (head_is, packet_is) = elim (Bool-cases (has_packet q)) [
  | inl done ↦ (done, rw done refl, Option.some-injective _ _ (simp done at packet_is))
  | inr not_yet ↦ absurd (Option.none-ne-some h (simp not_yet at head_is))
]

drop-append : (xs ys : List ℕ) → drop (length xs) (xs ++ ys) ≡ ys
drop-append [] ys = refl
drop-append (x ∷ xs) ys = drop-append xs ys

-- All of a frame but its closing flag.
closing_flag :
    (order : ByteOrder) (h : Header) (payload : List ℕ) (n : ℕ)
    → n + 1 ≡ length (frame order h payload)
    → drop n (frame order h payload) ≡ start_stop_flag ∷ []
unfolding frame
closing_flag order h payload n e =
    let front = start_stop_flag ∷ escape_all (frame_body order h payload) in
    let at_flag : n ≡ length front = omega (arith, length-append front (start_stop_flag ∷ [])) in
    rw at_flag (drop-append front (start_stop_flag ∷ []))

receive_flag : (p : Parser) → receive p (start_stop_flag ∷ []) ≡ (destroy_packet p, 1)
unfolding receive receive_from receive_byte
receive_flag p = refl

module _ {L W : Type 0} where
  set_parser-external_interface_list :
      (s : Bridge L W) (a : ℕ) (p : Parser)
      → (set_parser s a p).external_interface_list ≡ s.external_interface_list
  unfolding set_parser
  set_parser-external_interface_list s a p = refl

  set_parser_twice :
      (s : Bridge L W) (a : ℕ) (p q : Parser) → set_parser (set_parser s a p) a q ≡ set_parser s a q
  unfolding set_parser
  set_parser_twice s a p q =
      ap (λ g. record s { interfaces = g })
        (fun_ext (λ b. elim (Bool-cases (b == a)) [
          | inl same ↦ simp same refl
          | inr other ↦ simp other refl
        ]))

module _ {L W : Type 0} (list : LinkedList L) (callbacks : Callbacks W)
    (calls : HandlerCallbacks L W) (order : ByteOrder) (handler_rounds : ℕ) where
  packet_round :
      (s : Bridge L W) (a : ℕ) (h : Header) (payload : List ℕ) (q : Parser)
      → IsPassive calls
      → IsDistinct (list.entries s.bridge_handler_list)
      → length (list.entries s.bridge_handler_list) < handler_rounds
      → links_to_itself list s.external_interface_list (node a) ≡ false
      → Delivered h payload q
      → after_receive list callbacks calls order handler_rounds (set_parser s a q) a
        ≡ some (
          set_parser
              (dispatched list callbacks calls order (set_parser s a q) a h payload)
              a
              (destroy_packet q),
          false,
        )
  unfolding after_receive
  packet_round s a h payload q passive distinct enough connected delivered =
      let s1 = set_parser s a q in
      let own = set_parser-parser s a q in
      let (done, packet_is, payload_is) = Delivered-packet h payload q delivered in
      let ran =
        process_packet-dispatched list callbacks calls order handler_rounds s1 a h q.payload passive
          (unfold set_parser in distinct) (unfold set_parser in enough)
          (ap get_header own ∙ delivered.0) (ap get_packet own ∙ packet_is) in
      let ends : process_packet list callbacks calls order handler_rounds s1 a
          ≡ some (
              set_parser (dispatched list callbacks calls order s1 a h payload) a
                (destroy_packet q)) =
        ran
        ∙ ap
            (λ x. some (
              set_parser (dispatched list callbacks calls order s1 a h x) a
                (destroy_packet (s1.interfaces a).parser)))
            payload_is
        ∙ ap
            (λ x. some (
              set_parser (dispatched list callbacks calls order s1 a h payload) a
                (destroy_packet x)))
            own in
      let behind = dispatched list callbacks calls order s1 a h payload in
      let lists =
        set_parser-external_interface_list behind a (destroy_packet q)
        ∙ dispatched-keeps list callbacks calls order (λ u. u.external_interface_list)
            passive.keeps_list (λ u w. refl) (λ u r. refl) s1 a h payload
        ∙ set_parser-external_interface_list s a q in
      rw (own, done, ends)
        (ap (λ b. some (set_parser behind a (destroy_packet q), b))
          (ap (λ l. links_to_itself list l (node a)) lists ∙ connected))

  idle_round :
      (s : Bridge L W) (a : ℕ) (q : Parser)
      → has_packet q ≡ false
      → after_receive list callbacks calls order handler_rounds (set_parser s a q) a
        ≡ some (set_parser s a q, false)
  unfolding after_receive
  idle_round s a q idle = rw (set_parser-parser s a q, idle) refl

  -- The round that reads the last byte, which completes no packet.
  last_round :
      (rounds : ℕ) (t : Bridge L W) (a : ℕ) (bytes : List ℕ) (k : ℕ) (r : Parser)
      → receive (t.interfaces a).parser (drop k bytes) ≡ (r, 1)
      → has_packet r ≡ false
      → k + 1 ≡ length bytes
      → (if length bytes == k
          then some (t, k)
          else process_bytes list callbacks calls order handler_rounds (suc rounds) t a bytes k)
        ≡ some (set_parser t a r, length bytes)
  last_round rounds t a bytes k r flag idle last =
      let read = receive (t.interfaces a).parser (drop k bytes) in
      let after : after_receive list callbacks calls order handler_rounds (set_parser t a read.0) a
          ≡ some (set_parser t a r, false) =
        ap
          (λ (x : Parser × ℕ).
            after_receive list callbacks calls order handler_rounds (set_parser t a x.0) a)
          flag
        ∙ idle_round t a r idle in
      let all : k + read.1 ≡ length bytes = ap (λ (x : Parser × ℕ). k + x.1) flag ∙ last in
      rw (==_ne (length bytes) k (omega arith)) (
        process_bytes-suc list callbacks calls order handler_rounds rounds t a bytes k
          (set_parser t a r) after
        ∙ rw (all, ==_refl (length bytes)) refl)

  -- A frame in one read, from a parser of any state: two rounds.
  pub frame_rounds :
      (rounds : ℕ) (s : Bridge L W) (a : ℕ) (h : Header) (payload : List ℕ)
      → IsPassive calls
      → IsDistinct (list.entries s.bridge_handler_list)
      → length (list.entries s.bridge_handler_list) < handler_rounds
      → links_to_itself list s.external_interface_list (node a) ≡ false
      → IsShaped (s.interfaces a).parser
      → IsHeader h
      → All IsByte payload
      → length payload ≡ h.data_len
      → 2 ≤ rounds
      → (q : Parser) × Delivered h payload q
        × (q.number_of_crc_fails ≡ (s.interfaces a).parser.number_of_crc_fails)
        × (process_bytes list callbacks calls order handler_rounds rounds s a
              (frame little_endian h payload)
              0
            ≡ some (
              set_parser
                  (dispatched list callbacks calls order (set_parser s a q) a h payload)
                  a
                  (destroy_packet (destroy_packet q)),
              length (frame little_endian h payload),
            ))
  frame_rounds zero s a h payload passive distinct enough connected shaped hv bytes counted two =
      absurd (omega arith)
  frame_rounds (suc zero) s a h payload passive distinct enough connected shaped hv bytes counted
        two =
      absurd (omega arith)
  frame_rounds (suc (suc rounds)) s a h payload passive distinct enough connected shaped hv bytes
        counted two =
      let sent = frame little_endian h payload in
      let p = (s.interfaces a).parser in
      let read = rw (append-nil sent) at (receive-frame p h payload [] shaped hv bytes counted) in
      let q = (receive p sent).0 in
      let k = 0 + (receive p sent).1 in
      let last : k + 1 ≡ length sent = omega (arith, read.1) in
      let behind = dispatched list callbacks calls order (set_parser s a q) a h payload in
      let t = set_parser behind a (destroy_packet q) in
      let flag : receive (t.interfaces a).parser (drop k sent)
          ≡ (destroy_packet (destroy_packet q), 1) =
        ap (λ x. receive x (drop k sent)) (set_parser-parser behind a (destroy_packet q))
        ∙ ap (receive (destroy_packet q)) (closing_flag little_endian h payload k last)
        ∙ receive_flag (destroy_packet q) in
      (
        q,
        read.0,
        read.2,
        process_bytes-suc list callbacks calls order handler_rounds (suc rounds) s a sent 0 t
              (packet_round s a h payload q passive distinct enough connected read.0)
            ∙ last_round rounds t a sent k (destroy_packet (destroy_packet q)) flag
                (has_packet-destroy_packet (destroy_packet q)) last
            ∙ ap (λ u. some (u, length sent))
                (set_parser_twice behind a (destroy_packet q) (destroy_packet (destroy_packet q))),
      )
