-- ===== src/Bridge/Deliveries.antt =====
-- Which interfaces `ndlcomBridgeProcessOutgoingMessage` of src/Bridge.c writes a message to, and how
-- often.
use ndlcom.Prelude.{◌&&◌, not}
use ndlcom.Bridge.Forwarding.{write_all, process_outgoing_message-recipients}
use ndlcom.Prelude.{◌+◌, ◌==◌, ◌≢◌, ℕ, ◌<◌, ◌≡◌, true, false, List, if◌then◌else◌, length}
use ndlcom.Prelude.Counts.{occurrences}
use ndlcom.Wire.{Header, ByteOrder}
use ndlcom.Encoder.Frame.{frame}
use ndlcom.Routing.{
  Destination, all_interfaces, the_bridge, interface_at, same_destination, get_destination,
}
use ndlcom.LinkedList.{LinkedList}
use ndlcom.ExternalInterface.{is_mirror}
use ndlcom.Bridge.Recipients.{
  recipients, recipients-no_echo, recipients-mirror, recipients-ordinary,
}
use ndlcom.Bridge.{Bridge, Callbacks, forwarding_suppressed, process_outgoing_message}

module _ {L W : Type 0} (list : LinkedList L) (callbacks : Callbacks W) where
  -- `t` is `s` after these bytes went to these interfaces, in this order, and nothing else happened.
  abbrev pub Sends : Bridge L W → List ℕ → List ℕ → Bridge L W → Type 0
  Sends s bytes receivers t = t ≡ record s { world = (write_all callbacks receivers bytes s).world }

  -- A message is written to its recipients, and the interface that it came from is not one of them.
  pub process_outgoing_message-no_echo :
      (order : ByteOrder) (s : Bridge L W) (h : Header) (payload : List ℕ) (a : ℕ)
      → h.data_len < 256
      → length payload ≡ h.data_len
      → Sends s
          (frame order h payload)
          (recipients list s h.receiver_id (interface_at a))
          (process_outgoing_message list callbacks order s h payload (interface_at a))
        × (occurrences a (recipients list s h.receiver_id (interface_at a)) ≡ 0)
  process_outgoing_message-no_echo order s h payload a byte counted = (
    process_outgoing_message-recipients list callbacks order s h payload (interface_at a) byte
        counted,
    recipients-no_echo list s h.receiver_id a,
  )

  -- A message is written to its recipients. A mirror that it did not come from is among them as often
  -- as it stands in the list of the interfaces, whatever the destination and the flags of the bridge
  -- are, and once more when the routing table names this mirror as the destination and forwarding is
  -- not suppressed.
  pub process_outgoing_message-mirror :
      (order : ByteOrder) (s : Bridge L W) (h : Header) (payload : List ℕ) (origin : Destination)
      (a : ℕ)
      → h.data_len < 256
      → length payload ≡ h.data_len
      → is_mirror (s.interfaces a) ≡ true
      → origin ≢ interface_at a
      → Sends s
          (frame order h payload)
          (recipients list s h.receiver_id origin)
          (process_outgoing_message list callbacks order s h payload origin)
        × (occurrences a (recipients list s h.receiver_id origin)
            ≡ occurrences a (list.entries s.external_interface_list)
              + (if same_destination
                      (get_destination s.routing_table h.receiver_id)
                      (interface_at a)
                    && not (forwarding_suppressed s origin (interface_at a))
                  then 1
                  else 0))
  process_outgoing_message-mirror order s h payload origin a byte counted mirror other = (
    process_outgoing_message-recipients list callbacks order s h payload origin byte counted,
    recipients-mirror list s h.receiver_id a origin mirror other,
  )

  -- A message is written to its recipients. An interface that is no mirror and that it did not come
  -- from is among them: not at all when forwarding is suppressed or the destination is the bridge; as
  -- often as it stands in the list when the destination is all interfaces; and when the destination
  -- is one interface, once if it is this one and else not at all.
  pub process_outgoing_message-ordinary :
      (order : ByteOrder) (s : Bridge L W) (h : Header) (payload : List ℕ) (origin : Destination)
      (a : ℕ)
      → h.data_len < 256
      → length payload ≡ h.data_len
      → is_mirror (s.interfaces a) ≡ false
      → origin ≢ interface_at a
      → Sends s
          (frame order h payload)
          (recipients list s h.receiver_id origin)
          (process_outgoing_message list callbacks order s h payload origin)
        × (occurrences a (recipients list s h.receiver_id origin) ≡ (
            if forwarding_suppressed s origin (get_destination s.routing_table h.receiver_id)
            then 0
            else elim (get_destination s.routing_table h.receiver_id) [
              | all_interfaces ↦ occurrences a (list.entries s.external_interface_list)
              | the_bridge ↦ 0
              | interface_at b ↦ if b == a then 1 else 0
            ]))
  process_outgoing_message-ordinary order s h payload origin a byte counted ordinary other = (
    process_outgoing_message-recipients list callbacks order s h payload origin byte counted,
    recipients-ordinary list s h.receiver_id a origin ordinary other,
  )
