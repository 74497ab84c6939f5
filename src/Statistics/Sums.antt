-- ===== src/Statistics/Sums.antt =====
-- The counts of bytes against the sum of the sizes of the messages.
use ndlcom.Prelude.{ℕ, ◌+◌, ◌%◌, ◌^◌, ◌<◌, ◌≡◌, Option, none, some, List, [], ◌∷◌, arith}
use ndlcom.Wire.{Header, header_size}
use ndlcom.Statistics.{
  BridgeStatistics, handle_statistics, current_bytes_tx, current_bytes_rx, reset_bytes,
  reset_node_bytes, handle_node_statistics,
}

-- A message with where it came from.
abbrev pub Message : Type 0
Message = Header × Option ℕ

unfoldable pub handle_messages : BridgeStatistics → List Message → BridgeStatistics
handle_messages b [] = b
handle_messages b ((h, origin) ∷ rest) = handle_messages (handle_statistics b h origin) rest

unfoldable pub handle_node_messages : ℕ → List Message → ℕ
handle_node_messages bytes [] = bytes
handle_node_messages bytes ((h, origin) ∷ rest) =
    handle_node_messages (handle_node_statistics bytes h origin) rest

-- The bytes of the messages from the inside, and of those from interfaces.
unfoldable pub sent_inside : List Message → ℕ
sent_inside [] = 0
sent_inside ((h, none) ∷ rest) = header_size + h.data_len + sent_inside rest
sent_inside ((h, some a) ∷ rest) = sent_inside rest

unfoldable pub came_from_outside : List Message → ℕ
came_from_outside [] = 0
came_from_outside ((h, none) ∷ rest) = came_from_outside rest
came_from_outside ((h, some a) ∷ rest) = header_size + h.data_len + came_from_outside rest

handle_messages-sums :
    (b : BridgeStatistics) (ms : List Message)
    → b.bytes_transmitted < 2 ^ 64
    → b.bytes_received < 2 ^ 64
    → ((handle_messages b ms).bytes_transmitted ≡ (b.bytes_transmitted + sent_inside ms) % 2 ^ 64)
      × ((handle_messages b ms).bytes_received ≡ (b.bytes_received + came_from_outside ms) % 2 ^ 64)
unfolding handle_messages handle_statistics sent_inside came_from_outside
handle_messages-sums b [] p q = (omega arith, omega arith)
handle_messages-sums b ((h, none) ∷ rest) p q =
    let (tx, rx) = handle_messages-sums (handle_statistics b h none) rest (omega arith) q in
    (omega (arith, tx), rx)
handle_messages-sums b ((h, some a) ∷ rest) p q =
    let (tx, rx) = handle_messages-sums (handle_statistics b h (some a)) rest p (omega arith) in
    (tx, omega (arith, rx))

handle_node_messages-sum :
    (bytes : ℕ) (ms : List Message)
    → bytes < 2 ^ 64
    → handle_node_messages bytes ms ≡ (bytes + came_from_outside ms) % 2 ^ 64
unfolding handle_node_messages handle_node_statistics came_from_outside
handle_node_messages-sum bytes [] p = omega arith
handle_node_messages-sum bytes ((h, none) ∷ rest) p = handle_node_messages-sum bytes rest p
handle_node_messages-sum bytes ((h, some a) ∷ rest) p =
    omega
      (arith, handle_node_messages-sum (handle_node_statistics bytes h (some a)) rest (omega arith))

-- Behind a reset, whatever was counted before, the two counts of a bridge are the sums of the decoded
-- sizes of the messages since then, from the inside and from interfaces, modulo 2 ^ 64; and a node that
-- sees the same messages behind its own reset counts what the bridge counts as received.
pub handle_messages-sent_inside :
    (b : BridgeStatistics) (bytes : ℕ) (ms : List Message)
    → (let c = handle_messages (reset_bytes b) ms in
        (current_bytes_tx c ≡ sent_inside ms % 2 ^ 64)
        × (current_bytes_rx c ≡ came_from_outside ms % 2 ^ 64)
        × (handle_node_messages (reset_node_bytes bytes) ms ≡ current_bytes_rx c))
unfolding reset_bytes current_bytes_tx current_bytes_rx reset_node_bytes
handle_messages-sent_inside b bytes ms =
    let (tx, rx) = handle_messages-sums (reset_bytes b) ms (omega arith) (omega arith) in
    let own = handle_node_messages-sum 0 ms (omega arith) in
    (omega (arith, tx), omega (arith, rx), omega (arith, rx, own))
