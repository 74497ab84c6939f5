-- ===== src/Parser/Sizes.antt =====
-- How many bytes of a packet src/Parser.c has read in each state, and how many are still to come.
use ndlcom.Prelude.{
  ℕ, ◌+◌, ◌≤◌, ◌<◌, ◌≡◌, ◌⊎◌, inl, inr, List, [], ◌∷◌, ◌++◌, append_assoc, length, length-append,
  length-take_le, get_or, get_or-append_left, get_or-All, take, arith,
}
use mathlib.Core.Path.{subst}
use ndlcom.Crc.{IsByte}
use ndlcom.Parser.{
  Parser, ParserState, mc_error, mc_wait_header, mc_wait_data, mc_wait_first_crc_byte,
  mc_wait_second_crc_byte, mc_complete, mc_number_of_states,
}
use ndlcom.Parser.Invariant.{IsShaped, announced, stored, Holds, Represents, IsOpen}

abbrev pub announced_by : List ℕ → ℕ
announced_by xs = get_or xs 3 0

-- How many bytes of the packet are there in each state.
abbrev pub Sized : ParserState → List ℕ → Type 0
Sized mc_wait_header xs = length xs < 4
Sized mc_wait_data xs = (4 ≤ length xs) × (length xs < 4 + announced_by xs)
Sized mc_wait_first_crc_byte xs = length xs ≡ 4 + announced_by xs
Sized mc_wait_second_crc_byte xs = length xs ≡ 5 + announced_by xs
Sized mc_complete xs = length xs ≡ 6 + announced_by xs
Sized mc_error xs = Unit {0}
Sized mc_number_of_states xs = ⊥

pub length-stored :
    (p : Parser)
    → IsShaped p
    → p.data_write_pos ≤ announced p
    → (length (stored p) ≡ 4 + p.data_write_pos) × (announced_by (stored p) ≡ announced p)
length-stored p v h =
    let b : announced p < 256 = get_or-All IsByte p.raw 3 0 v.raw_bytes (omega arith) in
    (
      omega (
        arith,
        v.raw_size,
        v.payload_size,
        length-append p.raw (take p.data_write_pos p.payload),
        length-take_le p.data_write_pos p.payload (omega (arith, v.payload_size)),
      ),
      get_or-append_left p.raw (take p.data_write_pos p.payload) 3 0 (omega (arith, v.raw_size)),
    )

Holds-Sized : (s : ParserState) (p : Parser) (xs : List ℕ) → IsShaped p → Holds s p xs → Sized s xs
Holds-Sized mc_wait_header p xs v (inside, at_start, content, summed) =
    rw (← content)
      (omega (arith, length-take_le p.header_write_pos p.raw (omega (arith, v.raw_size))))
Holds-Sized mc_wait_data p xs v (positions, before_end, content, summed) =
    rw (← content) (omega (arith, length-stored p v (omega arith)))
Holds-Sized mc_wait_first_crc_byte p xs v (positions, at_end, content, summed) =
    rw (← content) (omega (arith, length-stored p v (omega arith)))
Holds-Sized mc_wait_second_crc_byte p xs v (x, x_byte, at_end, content, summed) = rw (← content) (
    omega (
      arith,
      length-stored p v (omega arith),
      length-append (stored p) (x ∷ []),
      get_or-append_left (stored p) (x ∷ []) 3 0 (omega (arith, length-stored p v (omega arith))),
    ))
Holds-Sized mc_complete p xs v (x, y, x_byte, y_byte, at_end, content, good) = rw (← content) (
    omega (
      arith,
      length-stored p v (omega arith),
      length-append (stored p) (x ∷ y ∷ []),
      get_or-append_left (stored p) (x ∷ y ∷ []) 3 0
          (omega (arith, length-stored p v (omega arith))),
    ))
Holds-Sized mc_error p xs v h = tt
Holds-Sized mc_number_of_states p xs v h = absurd h

-- An open packet lacks a byte at least.
open-lt :
    (s : ParserState) (xs : List ℕ)
    → IsOpen s
    → Sized s xs
    → (length xs < 4) ⊎ ((4 ≤ length xs) × (length xs < 6 + announced_by xs))
open-lt mc_wait_header xs o h = inl h
open-lt mc_wait_data xs o h = inr (h.0, omega arith)
open-lt mc_wait_first_crc_byte xs o h = inr (omega arith, omega arith)
open-lt mc_wait_second_crc_byte xs o h = inr (omega arith, omega arith)
open-lt mc_complete xs o h = absurd o
open-lt mc_error xs o h = absurd o
open-lt mc_number_of_states xs o h = absurd o

-- The packet read so far, what is still to come, and the length that the header announces agree.
abbrev pub Fits : List ℕ → List ℕ → Type 0
Fits xs ds = length xs + length ds ≡ 6 + announced_by (xs ++ ds)

-- A packet that has its length already leaves nothing to come.
pub Fits-full :
    (xs ds : List ℕ) → Fits xs ds → 4 ≤ length xs → length xs ≡ 6 + announced_by xs → length ds ≡ 0
Fits-full xs ds fits long full = omega (arith, get_or-append_left xs ds 3 0 (omega arith))

pub Fits-next : (xs : List ℕ) (d : ℕ) (ds : List ℕ) → Fits xs (d ∷ ds) → Fits (xs ++ d ∷ []) ds
Fits-next xs d ds fits = rw (append_assoc xs (d ∷ []) ds) (omega (arith, length-append xs (d ∷ [])))

-- An open packet is not the whole packet.
pub Fits-open : (p : Parser) (xs : List ℕ) → Represents p xs → IsOpen p.state → ¬ Fits xs []
Fits-open p xs r is_open fits =
    elim (open-lt p.state xs is_open (Holds-Sized p.state p xs r.shape r.holds)) [
      | inl short ↦ omega arith
      | inr (long, lacks) ↦ omega (arith, get_or-append_left xs [] 3 0 (omega arith))
    ]

pub Represents-Sized :
    (p : Parser) (xs : List ℕ) (s : ParserState) → Represents p xs → p.state ≡ s → Sized s xs
Represents-Sized p xs s r e = subst (λ t. Sized t xs) e (Holds-Sized p.state p xs r.shape r.holds)
