-- ===== src/Payload.antt =====
-- The classes of src/Payload.cpp and include/ndlcom/Payload.hpp, vectors of bytes with what is to
-- become of them, and the functions of the classes Node and Bridge that send them. The bytes behind a
-- pointer are a list; the time of arrival is left out.
use ndlcom.Prelude.{
  ℕ, zero, suc, ◌%◌, ◌^◌, ◌≤◌, ◌≡◌, refl, ap, inl, inr, ltb, Option, List, [], ◌∷◌, length, take,
  length-take_le, Bool-cases, arith,
}
use ndlcom.Wire.{Header, ByteOrder, max_number_of_devices}
use ndlcom.HeaderPrepare.{HeaderConfig, header_prepare}
use ndlcom.LinkedList.{LinkedList}
use ndlcom.Bridge.{Callbacks}
use ndlcom.Bridge.Handling.{HandlerCallbacks, send_raw}
use ndlcom.Node.{System, Nodes, node_send}

abbrev pub Payload : Type 0
Payload = List ℕ

-- `size` has the 8 bits of NDLComDataLen.
unfoldable pub payload_init : List ℕ → ℕ → Payload
payload_init payload size = take size payload

unfoldable pub data_len : Payload → ℕ
data_len p = length p % 2 ^ 8

pub record RawPayload : Type 0 where
  pub contents : Payload
  pub header : Header

unfoldable pub raw_payload_init : Header → List ℕ → RawPayload
raw_payload_init header payload = record {
  contents = payload_init payload header.data_len;
  header = header;
}

pub record IncomingPayload : Type 0 where
  pub raw : RawPayload
  pub origin : Option ℕ

unfoldable pub incoming_payload_init : Header → List ℕ → Option ℕ → IncomingPayload
incoming_payload_init header payload origin = record {
  raw = raw_payload_init header payload;
  origin = origin;
}

pub record OutgoingPayload : Type 0 where
  pub contents : Payload
  pub destination_id : ℕ

-- The size is a `size_t`, which the constructor of Payload cuts to 8 bits.
unfoldable pub outgoing_payload_init : ℕ → List ℕ → ℕ → OutgoingPayload
outgoing_payload_init destination_id payload size = record {
  contents = payload_init payload (size % 2 ^ 8);
  destination_id = destination_id;
}

module _ {L V : Type 0} (list : LinkedList L) (callbacks : Callbacks (Nodes L V))
    (calls : HandlerCallbacks L (Nodes L V)) (order : ByteOrder) where
  -- Node::send with an OutgoingPayload.
  unfoldable pub node_send_payload :
      ℕ → System L V → ℕ → Header → OutgoingPayload → Option (System L V)
  node_send_payload rounds s n memory msg =
      node_send list callbacks calls order rounds s n memory msg.destination_id msg.contents
        (data_len msg.contents)

  -- Bridge::sendMessageRaw with a RawPayload.
  unfoldable pub send_message_raw : ℕ → System L V → RawPayload → Option (System L V)
  send_message_raw rounds s msg =
      send_raw list callbacks calls order rounds s msg.header msg.contents

header_prepare-data_len :
    (config : HeaderConfig) (memory : Header) (receiver_id size : ℕ)
    → (header_prepare config memory receiver_id size).1.data_len ≡ size
unfolding header_prepare
header_prepare-data_len config memory receiver_id size =
    elim (Bool-cases (ltb receiver_id max_number_of_devices)) [
      | inl known ↦ rw known refl
      | inr unknown ↦ rw unknown refl
    ]

take_twice : (n : ℕ) (xs : List ℕ) → take n (take n xs) ≡ take n xs
take_twice zero xs = refl
take_twice (suc n) [] = refl
take_twice (suc n) (x ∷ xs) = ap (◌∷◌ x) (take_twice n xs)

module _ {L V : Type 0} (list : LinkedList L) (callbacks : Callbacks (Nodes L V))
    (calls : HandlerCallbacks L (Nodes L V)) (order : ByteOrder) where
  -- The size is not larger than what the pointer points to: sending the bytes wrapped as an
  -- OutgoingPayload is the same as sending them with their size.
  pub node_send_payload-node_send :
      (rounds n receiver_id size : ℕ) (s : System L V) (memory : Header) (payload : List ℕ)
      → size ≤ length payload
      → node_send_payload list callbacks calls order rounds s n memory
          (outgoing_payload_init receiver_id payload size)
        ≡ node_send list callbacks calls order rounds s n memory receiver_id payload size
  unfolding node_send_payload outgoing_payload_init payload_init data_len node_send
  node_send_payload-node_send rounds n receiver_id size s memory payload inside =
      let cut = size % 2 ^ 8 in
      let kept : length (take cut payload) ≡ cut = length-take_le cut payload (omega arith) in
      let again : length (take cut payload) % 2 ^ 8 % 2 ^ 8 ≡ cut = omega (arith, kept) in
      rw
        (node_send, again, header_prepare-data_len _ memory receiver_id cut, take_twice cut payload)
        refl
