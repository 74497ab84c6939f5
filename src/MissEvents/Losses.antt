-- ===== src/MissEvents/Losses.antt =====
-- What the miss events of src/BridgeHandler.cpp say of the packets that a node sends with
-- src/HeaderPrepare.c, when some of them are lost.
use ndlcom.Prelude.{ℕ, zero, suc, ◌+◌, ◌%◌, List, [], ◌∷◌}
use ndlcom.Wire.{Header}
use ndlcom.HeaderPrepare.{HeaderConfig}
use ndlcom.HeaderPrepare.Counters.{Packet, prepare}

-- The headers of packets that are prepared one after the other.
unfoldable pub headers_of : HeaderConfig → List Packet → List Header
headers_of config [] = []
headers_of config (p ∷ rest) = (prepare config p).1 ∷ headers_of (prepare config p).0 rest

-- Counters that follow each other.
unfoldable run : ℕ → ℕ → List ℕ
run c zero = []
run c (suc k) = c ∷ run ((c + 1) % 256) k
