-- ===== src/Node/Sending.antt =====
-- `ndlcomNodeSend` of src/Node.c: from the payload to the bytes on the interfaces and the handlers.
use ndlcom.Prelude.{
  ℕ, ◌%◌, ◌<◌, ◌≤◌, ◌≡◌, refl, sym, ap, ◌∙◌, true, some, List, [], ◌∷◌, ◌++◌, ap₂, length-take_le,
  length, take, All, arith,
}
use ndlcom.Wire.{Header, ByteOrder}
use ndlcom.Encoder.Frame.{frame}
use ndlcom.HeaderPrepare.{header_prepare_init}
use ndlcom.HeaderPrepare.Counters.{
  prepare_all-append, prepare_all_one, Packet, prepare, prepare_all, packets_to, HasByteReceiver,
  header_prepare-packets_to,
}
use ndlcom.Routing.{the_bridge}
use ndlcom.LinkedList.{LinkedList, IsDistinct}
use ndlcom.Bridge.{Callbacks}
use ndlcom.Bridge.Recipients.{recipients}
use ndlcom.Bridge.Forwarding.{write_all, process_outgoing_message-recipients}
use ndlcom.Bridge.Handling.{HandlerCallbacks, send_raw}
use ndlcom.Bridge.Dispatch.{KeepsHandlers, handle_all, process_decoded_message-handle_all}
use ndlcom.Node.{System, Nodes, node_at, has_bridge, set_node, node_send}
use ndlcom.Node.Routes.{set_node-node_at}

-- The header of the next packet of a node with this id that has sent these packets.
abbrev pub next_header : ℕ → List Packet → ℕ → ℕ → Header
next_header id packets receiver size = record {
  receiver_id = receiver;
  sender_id = id;
  counter = packets_to receiver packets % 256;
  data_len = size % 256;
}

module _ {L V : Type 0} where
  -- The node has sent these packets since it took this id.
  abbrev pub HasSent : System L V → ℕ → ℕ → List Packet → Type 0
  HasSent s n id packets =
      (node_at s n).header_config ≡ prepare_all (header_prepare_init id) packets

  -- The node counts one packet more.
  abbrev pub counted_on : System L V → ℕ → ℕ → List Packet → System L V
  counted_on s n id packets =
      set_node s n
        (record (node_at s n) { header_config = prepare_all (header_prepare_init id) packets })

module _ {L V : Type 0} (list : LinkedList L) (callbacks : Callbacks (Nodes L V))
    (calls : HandlerCallbacks L (Nodes L V)) (order : ByteOrder) where
  node_send-send_raw :
      (rounds : ℕ) (s : System L V) (n : ℕ) (p : Packet) (payload : List ℕ) (size : ℕ)
      → p.data_length ≡ size % 256
      → has_bridge s n ≡ true
      → node_send list callbacks calls order rounds s n p.memory p.receiver payload size ≡ (
          let prepared = prepare (node_at s n).header_config p in
          send_raw list callbacks calls order rounds
            (set_node s n (record (node_at s n) { header_config = prepared.0 }))
            prepared.1
            (take (prepared.1).data_len payload))
  unfolding node_send set_node send_raw
  node_send-send_raw rounds s n p payload size same linked =
      rw (sym same, set_node-node_at, linked) refl

  -- A node has a bridge and has sent some packets since it took its id; no handler of the bridge adds
  -- a handler or takes one out, none stands twice in the list, and there is one round more than there
  -- are handlers. Then sending counts one packet more, writes one frame to its recipients, and gives
  -- the message to the handlers of the bridge. The frame has the receiver, the id of the node and as
  -- its counter the number of earlier packets to this receiver modulo 256. Of the payload it holds the
  -- first bytes only, as many as the size modulo 256: of 256 bytes it holds none.
  pub node_send-frame :
      (rounds : ℕ) (s : System L V) (n id : ℕ) (packets : List Packet) (memory : Header)
      (receiver : ℕ) (payload : List ℕ) (size : ℕ)
      → has_bridge s n ≡ true
      → HasSent s n id packets
      → All HasByteReceiver packets
      → receiver < 256
      → size ≤ length payload
      → KeepsHandlers list calls
      → IsDistinct (list.entries s.bridge_handler_list)
      → length (list.entries s.bridge_handler_list) < rounds
      → node_send list callbacks calls order rounds s n memory receiver payload size ≡ (
          let p : Packet = record {
            memory = memory;
            receiver = receiver;
            data_length = size % 256;
          } in
          let t = counted_on s n id (packets ++ p ∷ []) in
          let h = next_header id packets receiver size in
          let sent = take (size % 256) payload in
          some (
            handle_all list calls (list.entries s.bridge_handler_list) h sent the_bridge (record t {
              world =
                  (write_all callbacks
                    (recipients list t receiver the_bridge)
                    (frame order h sent)
                    t).world;
            })))
  unfolding set_node send_raw
  node_send-frame rounds s n id packets memory receiver payload size linked has_sent receivers byte
        held keeps distinct enough =
      let p : Packet = record { memory = memory; receiver = receiver; data_length = size % 256 } in
      let t = counted_on s n id (packets ++ p ∷ []) in
      let h = next_header id packets receiver size in
      let sent = take (size % 256) payload in
      let counted : (prepare (node_at s n).header_config p).0
          ≡ prepare_all (header_prepare_init id) (packets ++ p ∷ []) =
        ap (λ c. (prepare c p).0) has_sent
        ∙ sym (
            prepare_all-append (header_prepare_init id) packets (p ∷ [])
            ∙ prepare_all_one (prepare_all (header_prepare_init id) packets) p) in
      let filled : (prepare (node_at s n).header_config p).1 ≡ h =
        ap (λ c. (prepare c p).1) has_sent
        ∙ header_prepare-packets_to id packets p receivers byte in
      node_send-send_raw rounds s n p payload size refl linked
      ∙ ap₂
          (λ c k.
            send_raw list callbacks calls order rounds
              (set_node s n (record (node_at s n) { header_config = c })) k
              (take k.data_len payload))
          counted filled
      ∙ process_decoded_message-handle_all list callbacks calls order rounds t h sent the_bridge
          keeps distinct enough
      ∙ ap
          (λ u.
            some (handle_all list calls (list.entries s.bridge_handler_list) h sent the_bridge u))
          (process_outgoing_message-recipients list callbacks order t h sent the_bridge
            (omega arith) (length-take_le (size % 256) payload (omega arith)))
