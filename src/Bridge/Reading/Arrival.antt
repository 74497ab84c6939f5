-- ===== src/Bridge/Reading/Arrival.antt =====
-- A message that arrives at an interface in one read: from its bytes to the handlers.
use ndlcom.Prelude.{ℕ, ◌<◌, ◌≤◌, ◌≡◌, false, some, List, ==_ne, length, All, arith}
use ndlcom.Crc.{IsByte}
use ndlcom.Wire.{Header, IsHeader, ByteOrder, little_endian}
use ndlcom.Encoder.Frame.{length-frame, frame}
use ndlcom.Parser.{Parser, destroy_packet}
use ndlcom.Parser.Invariant.{IsShaped}
use ndlcom.Parser.RoundTrip.{Delivered}
use ndlcom.LinkedList.{LinkedList, node, IsDistinct}
use ndlcom.Bridge.{Bridge, Callbacks}
use ndlcom.Bridge.Handling.{HandlerCallbacks, links_to_itself}
use ndlcom.Bridge.Reading.{set_parser, process_external_interface}
use ndlcom.Bridge.Reading.Packets.{IsPassive, dispatched}
use ndlcom.Bridge.Reading.Draining.{read_of, arrived}
use ndlcom.Bridge.Reading.Rounds.{frame_rounds}

module _ {L W : Type 0} (list : LinkedList L) (callbacks : Callbacks W)
    (calls : HandlerCallbacks L W) (order : ByteOrder) (handler_rounds : ℕ) where
  pub process_external_interface-frame :
      (rounds : ℕ) (s : Bridge L W) (a : ℕ) (h : Header) (payload : List ℕ)
      → IsPassive calls
      → IsDistinct (list.entries s.bridge_handler_list)
      → length (list.entries s.bridge_handler_list) < handler_rounds
      → links_to_itself list s.external_interface_list (node a) ≡ false
      → IsShaped (s.interfaces a).parser
      → IsHeader h
      → All IsByte payload
      → length payload ≡ h.data_len
      → 2 ≤ rounds
      → arrived callbacks s a ≡ frame little_endian h payload
      → (q : Parser) × Delivered h payload q
        × (q.number_of_crc_fails ≡ (s.interfaces a).parser.number_of_crc_fails)
        × (process_external_interface list callbacks calls order handler_rounds rounds s a
            ≡ some (
              set_parser
                  (dispatched list callbacks calls order
                    (set_parser (record s { world = (read_of callbacks s a).1 }) a q)
                    a
                    h
                    payload)
                  a
                  (destroy_packet (destroy_packet q)),
              length (frame little_endian h payload),
            ))
  unfolding process_external_interface
  process_external_interface-frame rounds s a h payload passive distinct enough connected shaped hv
        bytes counted two sent =
      let read : Bridge L W = record s { world = (read_of callbacks s a).1 } in
      let (q, given, same, ran) =
        frame_rounds list callbacks calls order handler_rounds rounds read a h payload passive
          distinct enough connected shaped hv bytes counted two in
      (
        q,
        given,
        same,
        rw
            (
              sent,
              ==_ne (length (frame little_endian h payload)) 0
                  (λ e. absurd (omega (arith, e, length-frame little_endian h payload))),
            )
            ran,
      )
