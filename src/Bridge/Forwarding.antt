-- ===== src/Bridge/Forwarding.antt =====
-- `ndlcomBridgeProcessOutgoingMessage` of src/Bridge.c against the list of the interfaces that a
-- message is to reach.
use ndlcom.Prelude.{
  take, ℕ, ◌<◌, ◌≡◌, refl, sym, ap, ◌∙◌, append-nil, inl, inr, Bool-cases, Bool, true, false, List,
  [], ◌∷◌, ◌++◌, if◌then◌else◌, length, arith,
}
use ndlcom.Prelude.Counts.{keep}
use ndlcom.Wire.{Header, ByteOrder}
use ndlcom.Encoder.{encode}
use ndlcom.Encoder.Frame.{frame}
use ndlcom.Routing.{
  Destination, all_interfaces, the_bridge, interface_at, same_destination, get_destination,
}
use ndlcom.LinkedList.{LinkedList}
use ndlcom.ExternalInterface.{is_mirror}
use ndlcom.Encoder.Sections.{encode-frame}
use ndlcom.Wire.{max_encoded_message_size_for_packet}
use native.Mathlib.Nat.{le_refl}
use ndlcom.Prelude.{take-length}
use ndlcom.Bridge.Recipients.{gets_copy, gets_broadcast, directed, recipients}
use ndlcom.Bridge.{
  Bridge, Callbacks, write_interface, write_mirrors, write_others, write_destination,
  forwarding_suppressed, process_outgoing_message,
}

module _ {L W : Type 0} (callbacks : Callbacks W) where
  -- The same bytes to one interface after the other.
  unfoldable pub write_all : List ℕ → List ℕ → Bridge L W → Bridge L W
  write_all [] bytes s = s
  write_all (a ∷ rest) bytes s = write_all rest bytes (write_interface callbacks bytes s a)

  write_mirrors-write_all :
      (xs : List ℕ) (origin : Destination) (bytes : List ℕ) (s : Bridge L W)
      → write_mirrors callbacks xs origin bytes s ≡ write_all (keep (gets_copy s origin) xs) bytes s
  unfolding write_mirrors write_all keep write_interface
  write_mirrors-write_all [] origin bytes s = refl
  write_mirrors-write_all (a ∷ rest) origin bytes s =
      elim (Bool-cases (same_destination origin (interface_at a))) [
        | inl echo ↦ simp echo (write_mirrors-write_all rest origin bytes s)
        | inr other ↦ elim (Bool-cases (is_mirror (s.interfaces a))) [
          | inl mirror ↦
              simp (other, mirror)
                (write_mirrors-write_all rest origin bytes (write_interface callbacks bytes s a))
          | inr ordinary ↦ simp (other, ordinary) (write_mirrors-write_all rest origin bytes s)
        ]
      ]

  write_others-write_all :
      (xs : List ℕ) (origin : Destination) (bytes : List ℕ) (s : Bridge L W)
      → write_others callbacks xs origin bytes s
        ≡ write_all (keep (gets_broadcast s origin) xs) bytes s
  unfolding write_others write_all keep write_interface
  write_others-write_all [] origin bytes s = refl
  write_others-write_all (a ∷ rest) origin bytes s =
      elim (Bool-cases (same_destination origin (interface_at a))) [
        | inl echo ↦ simp echo (write_others-write_all rest origin bytes s)
        | inr other ↦ elim (Bool-cases (is_mirror (s.interfaces a))) [
          | inl mirror ↦ simp (other, mirror) (write_others-write_all rest origin bytes s)
          | inr ordinary ↦
              simp (other, ordinary)
                (write_others-write_all rest origin bytes (write_interface callbacks bytes s a))
        ]
      ]

  write_all-append :
      (xs ys : List ℕ) (bytes : List ℕ) (s : Bridge L W)
      → write_all (xs ++ ys) bytes s ≡ write_all ys bytes (write_all xs bytes s)
  unfolding write_all
  write_all-append [] ys bytes s = refl
  write_all-append (x ∷ xs) ys bytes s =
      write_all-append xs ys bytes (write_interface callbacks bytes s x)

  -- Writing changes the world and nothing else.
  write_all-world :
      (xs : List ℕ) (bytes : List ℕ) (s : Bridge L W)
      → write_all xs bytes s ≡ record s { world = (write_all xs bytes s).world }
  unfolding write_all write_interface
  write_all-world [] bytes s = refl
  write_all-world (x ∷ xs) bytes s = write_all-world xs bytes (write_interface callbacks bytes s x)

  -- What the callbacks leave alone.
  write_all-keeps :
      {X : Type 0} (get : W → X)
      → ((f context : ℕ) (bytes : List ℕ) (w : W)
          → get (callbacks.write_bytes f context bytes w) ≡ get w)
      → (xs : List ℕ) (bytes : List ℕ) (s : Bridge L W)
      → get (write_all xs bytes s).world ≡ get s.world
  unfolding write_all write_interface
  write_all-keeps get keeps [] bytes s = refl
  write_all-keeps get keeps (x ∷ xs) bytes s =
      write_all-keeps get keeps xs bytes (write_interface callbacks bytes s x)
      ∙ keeps (s.interfaces x).write (s.interfaces x).context bytes s.world

module _ {L W : Type 0} (list : LinkedList L) (callbacks : Callbacks W) where
  write_destination-write_all :
      (s : Bridge L W) (d origin : Destination) (bytes : List ℕ) (w : W)
      → write_destination list callbacks d origin bytes (record s { world = w })
        ≡ write_all callbacks (directed list s d origin) bytes (record s { world = w })
  unfolding write_destination write_all
  write_destination-write_all s all_interfaces origin bytes w =
      write_others-write_all callbacks (list.entries s.external_interface_list) origin bytes
        (record s { world = w })
  write_destination-write_all s the_bridge origin bytes w = refl
  write_destination-write_all s (interface_at a) origin bytes w =
      elim (Bool-cases (same_destination (interface_at a) origin)) [
        | inl back ↦ simp back refl
        | inr forth ↦ simp forth refl
      ]

  copied_then_directed :
      (suppressed : Bool) (s : Bridge L W) (d origin : Destination) (bytes : List ℕ)
      → (if suppressed
          then write_mirrors callbacks (list.entries s.external_interface_list) origin bytes s
          else write_destination list callbacks d origin bytes
              (write_mirrors callbacks (list.entries s.external_interface_list) origin bytes s))
        ≡ write_all callbacks
            (keep (gets_copy s origin) (list.entries s.external_interface_list)
              ++ (if suppressed then [] else directed list s d origin))
            bytes
            s
  copied_then_directed true s d origin bytes =
      rw (append-nil (keep (gets_copy s origin) (list.entries s.external_interface_list)))
        (write_mirrors-write_all callbacks (list.entries s.external_interface_list) origin bytes s)
  copied_then_directed false s d origin bytes =
      let copies = keep (gets_copy s origin) (list.entries s.external_interface_list) in
      let copied = write_all callbacks copies bytes s in
      let changed : copied ≡ record s { world = copied.world } =
        write_all-world callbacks copies bytes s in
      ap (write_destination list callbacks d origin bytes) (
        write_mirrors-write_all callbacks (list.entries s.external_interface_list) origin bytes s
        ∙ changed)
      ∙ write_destination-write_all s d origin bytes copied.world
      ∙ ap (write_all callbacks (directed list s d origin) bytes) (sym changed)
      ∙ sym (write_all-append callbacks copies (directed list s d origin) bytes s)

  -- A message with a payload of the announced length is written as its frame, whole, to one recipient
  -- after the other; nothing but the world outside changes.
  pub process_outgoing_message-recipients :
      (order : ByteOrder) (s : Bridge L W) (h : Header) (payload : List ℕ) (origin : Destination)
      → h.data_len < 256
      → length payload ≡ h.data_len
      → process_outgoing_message list callbacks order s h payload origin ≡ record s {
        world =
            (write_all callbacks
              (recipients list s h.receiver_id origin)
              (frame order h payload)
              s).world;
      }
  unfolding process_outgoing_message recipients write_all
  process_outgoing_message-recipients order s h payload origin byte counted =
      rw
        (
          encode-frame order (max_encoded_message_size_for_packet h) h payload (omega arith) byte
              counted (le_refl (max_encoded_message_size_for_packet h)),
          take-length (frame order h payload),
        )
        (copied_then_directed
            (forwarding_suppressed s origin (get_destination s.routing_table h.receiver_id)) s
            (get_destination s.routing_table h.receiver_id) origin (frame order h payload)
          ∙ write_all-world callbacks (recipients list s h.receiver_id origin)
              (frame order h payload) s)

  process_outgoing_message-write_all :
      (order : ByteOrder) (s : Bridge L W) (h : Header) (payload : List ℕ) (origin : Destination)
      → (receivers : List ℕ) × (bytes : List ℕ) × (process_outgoing_message list callbacks order s h
            payload origin
          ≡ write_all callbacks receivers bytes s)
  unfolding process_outgoing_message recipients
  process_outgoing_message-write_all order s h payload origin =
      let destination = get_destination s.routing_table h.receiver_id in
      let encoded = encode order (max_encoded_message_size_for_packet h) h payload in
      let bytes = take encoded.wrote encoded.buffer in
      (
        recipients list s h.receiver_id origin,
        bytes,
        copied_then_directed (forwarding_suppressed s origin destination) s destination origin
            bytes,
      )

  -- Whatever the payload is, nothing but the world outside changes.
  pub process_outgoing_message-world :
      (order : ByteOrder) (s : Bridge L W) (h : Header) (payload : List ℕ) (origin : Destination)
      → process_outgoing_message list callbacks order s h payload origin ≡ record s {
        world = (process_outgoing_message list callbacks order s h payload origin).world;
      }
  process_outgoing_message-world order s h payload origin =
      let (receivers, bytes, written) =
        process_outgoing_message-write_all order s h payload origin in
      written
      ∙ write_all-world callbacks receivers bytes s
      ∙ ap (λ w. record s { world = w }) (sym (ap (λ u. u.world) written))

  -- And of the world what the write callbacks leave alone is the same.
  pub process_outgoing_message-keeps :
      {X : Type 0} (get : W → X)
      → ((f context : ℕ) (bytes : List ℕ) (w : W)
          → get (callbacks.write_bytes f context bytes w) ≡ get w)
      → (order : ByteOrder) (s : Bridge L W) (h : Header) (payload : List ℕ) (origin : Destination)
      → get (process_outgoing_message list callbacks order s h payload origin).world ≡ get s.world
  process_outgoing_message-keeps get keeps order s h payload origin =
      let (receivers, bytes, written) =
        process_outgoing_message-write_all order s h payload origin in
      ap (λ u. get u.world) written ∙ write_all-keeps callbacks get keeps receivers bytes s
