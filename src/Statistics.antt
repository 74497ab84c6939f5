-- ===== src/Statistics.antt =====
-- The counts of bytes: the classes BridgeHandlerStatistics of src/BridgeHandler.cpp and
-- NodeHandlerStatistics of src/NodeHandler.cpp. `unsigned long` has 64 bits; the origin is null for a
-- message from the inside.
pub mod Sums
use ndlcom.Prelude.{ℕ, ◌+◌, ◌%◌, ◌^◌, Option, none, some}
use ndlcom.Wire.{Header, header_size}

pub record BridgeStatistics : Type 0 where
  pub bytes_transmitted : ℕ
  pub bytes_received : ℕ

unfoldable pub bridge_statistics_init : BridgeStatistics
bridge_statistics_init = record { bytes_transmitted = 0; bytes_received = 0 }

unfoldable pub handle_statistics : BridgeStatistics → Header → Option ℕ → BridgeStatistics
handle_statistics b header (some a) = record b {
  bytes_received = (b.bytes_received + (header_size + header.data_len)) % 2 ^ 64;
}
handle_statistics b header none = record b {
  bytes_transmitted = (b.bytes_transmitted + (header_size + header.data_len)) % 2 ^ 64;
}

unfoldable pub current_bytes_tx : BridgeStatistics → ℕ
current_bytes_tx b = b.bytes_transmitted

unfoldable pub current_bytes_rx : BridgeStatistics → ℕ
current_bytes_rx b = b.bytes_received

unfoldable pub reset_bytes : BridgeStatistics → BridgeStatistics
reset_bytes b = record b { bytes_transmitted = 0; bytes_received = 0 }

-- The number of bytes that a node has received, of the class NodeHandlerStatistics.
unfoldable pub handle_node_statistics : ℕ → Header → Option ℕ → ℕ
handle_node_statistics bytes_received header (some a) =
    (bytes_received + (header_size + header.data_len)) % 2 ^ 64
handle_node_statistics bytes_received header none = bytes_received

unfoldable pub reset_node_bytes : ℕ → ℕ
reset_node_bytes bytes_received = 0
