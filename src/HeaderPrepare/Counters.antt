-- ===== src/HeaderPrepare/Counters.antt =====
-- The packet counters of src/HeaderPrepare.c against a count of the packets.
use ndlcom.Prelude.{
  ℕ, ◌+◌, ◌%◌, ◌<◌, ◌≡◌, refl, ◌∙◌, List, [], ◌∷◌, ◌++◌, ◌==◌, if◌then◌else◌, length, get_or, All,
  length-set, get_or-set_self, get_or-set_ne, get_or-replicate, arith,
}
use ndlcom.Wire.{Header}
use ndlcom.HeaderPrepare.{HeaderConfig, header_prepare_init, header_prepare}

-- One call: where its header stands, the receiver and the length of the payload.
pub record Packet : Type 0 where
  pub memory : Header
  pub receiver : ℕ
  pub data_length : ℕ

abbrev pub prepare : HeaderConfig → Packet → HeaderConfig × Header
prepare config p = header_prepare config p.memory p.receiver p.data_length

-- The calls one after the other.
unfoldable pub prepare_all : HeaderConfig → List Packet → HeaderConfig
prepare_all config [] = config
prepare_all config (p ∷ rest) = prepare_all (prepare config p).0 rest

unfoldable pub packets_to : ℕ → List Packet → ℕ
packets_to r [] = 0
packets_to r (p ∷ rest) = (if p.receiver == r then 1 else 0) + packets_to r rest

abbrev pub HasByteReceiver : Packet → Type 0
HasByteReceiver p = p.receiver < 256

abbrev counter_of : HeaderConfig → ℕ → ℕ
counter_of config r = get_or config.counter_for_receiver r 0

header_prepare-counter_of :
    (config : HeaderConfig) (p : Packet) (r : ℕ)
    → length config.counter_for_receiver ≡ 256
    → p.receiver < 256
    → counter_of (prepare config p).0 r
      ≡ (if p.receiver == r then (counter_of config r + 1) % 256 else counter_of config r)
unfolding header_prepare
header_prepare-counter_of config p r size small = ground (
  arith,
  get_or-set_self config.counter_for_receiver p.receiver ((counter_of config p.receiver + 1) % 256)
      0,
  get_or-set_ne config.counter_for_receiver p.receiver r ((counter_of config p.receiver + 1) % 256)
      0,
)

header_prepare-length :
    (config : HeaderConfig) (p : Packet)
    → length config.counter_for_receiver ≡ 256
    → length (prepare config p).0.counter_for_receiver ≡ 256
unfolding header_prepare
header_prepare-length config p size = ground (
  arith,
  length-set config.counter_for_receiver p.receiver ((counter_of config p.receiver + 1) % 256),
)

prepare_all-counter_of :
    (config : HeaderConfig) (packets : List Packet) (r : ℕ)
    → length config.counter_for_receiver ≡ 256
    → counter_of config r < 256
    → All HasByteReceiver packets
    → counter_of (prepare_all config packets) r ≡ (counter_of config r + packets_to r packets) % 256
unfolding prepare_all packets_to
prepare_all-counter_of config [] r size small all = omega arith
prepare_all-counter_of config (p ∷ rest) r size small (here, all) = ground (
  arith,
  header_prepare-counter_of config p r size here,
  prepare_all-counter_of (prepare config p).0 rest r (header_prepare-length config p size)
      next_small all,
)
  where
    next_small : counter_of (prepare config p).0 r < 256
    next_small = ground (arith, header_prepare-counter_of config p r size here)

pub prepare_all-append :
    (config : HeaderConfig) (packets more : List Packet)
    → prepare_all config (packets ++ more) ≡ prepare_all (prepare_all config packets) more
unfolding prepare_all
prepare_all-append config [] more = refl
prepare_all-append config (p ∷ rest) more = prepare_all-append (prepare config p).0 rest more

pub prepare_all_one :
    (config : HeaderConfig) (p : Packet) → prepare_all config (p ∷ []) ≡ (prepare config p).0
unfolding prepare_all
prepare_all_one config p = refl

prepare-own_sender_id :
    (config : HeaderConfig) (p : Packet) → (prepare config p).0.own_sender_id ≡ config.own_sender_id
unfolding header_prepare
prepare-own_sender_id config p = ground arith

prepare_all-own_sender_id :
    (config : HeaderConfig) (packets : List Packet)
    → (prepare_all config packets).own_sender_id ≡ config.own_sender_id
unfolding prepare_all
prepare_all-own_sender_id config [] = refl
prepare_all-own_sender_id config (p ∷ rest) =
    prepare_all-own_sender_id (prepare config p).0 rest ∙ prepare-own_sender_id config p

filled_header :
    (config : HeaderConfig) (p : Packet)
    → p.receiver < 256
    → (prepare config p).1 ≡ record {
      receiver_id = p.receiver;
      sender_id = config.own_sender_id;
      counter = counter_of config p.receiver;
      data_len = p.data_length;
    }
unfolding header_prepare
filled_header config p small = ground arith

counter_of-init : (id r : ℕ) → counter_of (header_prepare_init id) r ≡ 0
unfolding header_prepare_init
counter_of-init id r = get_or-replicate 256 0 r

prepared-counter_of :
    (id : ℕ) (packets : List Packet) (r : ℕ)
    → All HasByteReceiver packets
    → counter_of (prepare_all (header_prepare_init id) packets) r ≡ packets_to r packets % 256
unfolding header_prepare_init
prepared-counter_of id packets r all = ground (
  arith,
  counter_of-init id r,
  prepare_all-counter_of (header_prepare_init id) packets r refl
      (omega (arith, counter_of-init id r)) all,
)

-- After any packets were prepared since the initialisation, the next packet carries the receiver, the
-- id of the node, the length it was given, and as its counter the number of earlier packets to the
-- same receiver, modulo 256.
pub header_prepare-packets_to :
    (id : ℕ) (packets : List Packet) (p : Packet)
    → All HasByteReceiver packets
    → p.receiver < 256
    → (prepare (prepare_all (header_prepare_init id) packets) p).1 ≡ record {
      receiver_id = p.receiver;
      sender_id = id;
      counter = packets_to p.receiver packets % 256;
      data_len = p.data_length;
    }
unfolding header_prepare_init
header_prepare-packets_to id packets p all small =
    rw
      (
        filled_header (prepare_all (header_prepare_init id) packets) p small,
        prepared-counter_of id packets p.receiver all,
        prepare_all-own_sender_id (header_prepare_init id) packets,
      )
      refl
