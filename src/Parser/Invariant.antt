-- ===== src/Parser/Invariant.antt =====
-- What the parser's record means: the bytes of the packet at hand, unescaped, since the last flag.
use ndlcom.Prelude.{
  ℕ, ◌<◌, ◌≡◌, refl, sym, ap, ◌∙◌, ◌≢◌, List, [], ◌∷◌, ◌++◌, length, take, get_or, All, arith,
}
use mathlib.Core.Path.{subst}
use ndlcom.Crc.{IsByte, do_crc, do_crc_all, crc_initial_value, crc_real_good_value}
use ndlcom.Crc.Linear.{do_crc_all-append}
use ndlcom.Wire.{max_payload_size}
use ndlcom.Parser.{
  Parser, ParserState, mc_error, mc_wait_header, mc_wait_data, mc_wait_first_crc_byte,
  mc_wait_second_crc_byte, mc_complete, mc_number_of_states, Round, next, returns, destroy_packet,
  fail_crc,
}

-- The two arrays have their declared sizes and hold bytes.
pub record IsShaped (p : Parser) : Type 0 where
  pub raw_size : length p.raw ≡ 4
  pub payload_size : length p.payload ≡ max_payload_size
  pub raw_bytes : All IsByte p.raw

-- The length byte of the header, and the header with the part of the payload that is there.
abbrev pub announced : Parser → ℕ
announced p = get_or p.raw 3 0

abbrev pub stored : Parser → List ℕ
stored p = p.raw ++ take p.data_write_pos p.payload

abbrev pub Summed : Parser → List ℕ → Type 0
Summed p xs = p.data_crc ≡ do_crc_all crc_initial_value xs

-- In state `s` the record stands for the bytes `xs`: the write positions are in range, the arrays
-- hold the bytes, and the checksum is that of the bytes.
abbrev pub Holds : ParserState → Parser → List ℕ → Type 0
Holds mc_wait_header p xs =
    (p.header_write_pos < 4)
    × (p.data_write_pos ≡ 0)
    × (take p.header_write_pos p.raw ≡ xs)
    × Summed p xs
Holds mc_wait_data p xs =
    (p.header_write_pos ≡ 4) × (p.data_write_pos < announced p) × (stored p ≡ xs) × Summed p xs
Holds mc_wait_first_crc_byte p xs =
    (p.header_write_pos ≡ 4) × (p.data_write_pos ≡ announced p) × (stored p ≡ xs) × Summed p xs
Holds mc_wait_second_crc_byte p xs =
    (x : ℕ) × IsByte x × (p.data_write_pos ≡ announced p) × (stored p ++ x ∷ [] ≡ xs) × Summed p xs
Holds mc_complete p xs =
    (x y : ℕ) × IsByte x
    × IsByte y
    × (p.data_write_pos ≡ announced p)
    × (stored p ++ x ∷ y ∷ [] ≡ xs)
    × (do_crc_all crc_initial_value xs ≡ crc_real_good_value)
Holds mc_error p xs = Unit {0}
Holds mc_number_of_states p xs = ⊥

pub record Represents (p : Parser) (xs : List ℕ) : Type 0 where
  pub shape : IsShaped p
  pub holds : Holds p.state p xs

-- The states in which a packet is being read.
abbrev pub IsOpen : ParserState → Type 0
IsOpen mc_wait_header = Unit {0}
IsOpen mc_wait_data = Unit {0}
IsOpen mc_wait_first_crc_byte = Unit {0}
IsOpen mc_wait_second_crc_byte = Unit {0}
IsOpen mc_complete = ⊥
IsOpen mc_error = ⊥
IsOpen mc_number_of_states = ⊥

-- What one unescaped byte does to an open packet.
pub data Feeds (p : Parser) (xs : List ℕ) (d : ℕ) : Round → Type 0 where
  grows :
      (q : Parser)
      → Represents q (xs ++ d ∷ [])
      → IsOpen q.state
      → q.last_was_esc ≡ p.last_was_esc
      → q.number_of_crc_fails ≡ p.number_of_crc_fails
      → Feeds p xs d (next q)
  completes :
      (q : Parser)
      → Represents q (xs ++ d ∷ [])
      → q.state ≡ mc_complete
      → q.number_of_crc_fails ≡ p.number_of_crc_fails
      → Feeds p xs d (returns q)
  fails :
      (q : Parser)
      → q ≡ fail_crc (record p { data_crc = do_crc p.data_crc d })
      → p.state ≡ mc_wait_second_crc_byte
      → do_crc_all crc_initial_value (xs ++ d ∷ []) ≢ crc_real_good_value
      → Feeds p xs d (next q)

pub Summed-snoc :
    (p : Parser) (xs : List ℕ) (d : ℕ)
    → Summed p xs
    → do_crc p.data_crc d ≡ do_crc_all crc_initial_value (xs ++ d ∷ [])
unfolding do_crc_all
Summed-snoc p xs d e =
    ap (λ c. do_crc c d) e ∙ sym (do_crc_all-append crc_initial_value xs (d ∷ []))

-- A record whose state is known by an equation.
pub Represents-at :
    {p : Parser} {xs : List ℕ} (s : ParserState)
    → p.state ≡ s
    → IsShaped p
    → Holds s p xs
    → Represents p xs
Represents-at {p} {xs} s e shape h = record {
  shape = shape;
  holds = subst (λ t. Holds t p xs) (sym e) h;
}

pub destroy_packet-Represents : (p : Parser) → IsShaped p → Represents (destroy_packet p) []
unfolding destroy_packet do_crc_all
destroy_packet-Represents p v = record {
  shape = record { raw_size = v.raw_size; payload_size = v.payload_size; raw_bytes = v.raw_bytes };
  holds = (omega arith, refl, refl, refl);
}
