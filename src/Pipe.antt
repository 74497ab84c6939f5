-- ===== src/Pipe.antt =====
-- The class ExternalInterfacePipe of src/ExternalInterface.cpp: bytes as hexadecimal text in a pipe. A
-- text is a list of character codes; `fscanf` and `fgets` are written out as far as the class uses
-- them, a text that was read to its end being at its end of file.
pub mod Progress
pub mod RoundTrip
use ndlcom.Prelude.{
  ℕ, zero, suc, ◌+◌, ◌-◌, ◌*◌, ◌/◌, ◌%◌, ◌^◌, Bool, true, false, ◌&&◌, ◌||◌, ◌==◌, ltb, leb, Option,
  none, some, List, [], ◌∷◌, ◌++◌, length, if◌then◌else◌,
}
use ndlcom.Ids.{skip_spaces, is_digit}

abbrev pub is_hex_digit : ℕ → Bool
is_hex_digit c = is_digit c || (leb 97 c && leb c 102) || (leb 65 c && leb c 70)

abbrev pub hex_value : ℕ → ℕ
hex_value c = if leb 97 c then c - 87 else if leb 65 c then c - 55 else c - 48

-- What `fscanf` with ` 0x%02x%n` does: it comes to the end of the text, it finds something else, or it
-- stores a number; the last two leave a text.
pub data Scan : Type 0 where
  end_of_file : Scan
  no_match : List ℕ → Scan
  matched : ℕ → List ℕ → Scan

-- Behind the first character of the number, a digit, of two at most. `0x` is the start of a number
-- that has no room left.
unfoldable pub scan_second : ℕ → List ℕ → Scan
scan_second c [] = matched (hex_value c) []
scan_second c (d ∷ rest) =
    if is_hex_digit d
    then matched (hex_value c * 16 + hex_value d) rest
    else if (c == 48) && ((d == 120) || (d == 88))
    then no_match rest
    else matched (hex_value c) (d ∷ rest)

-- Behind a sign.
unfoldable pub scan_signed : Bool → List ℕ → Scan
scan_signed negative [] = no_match []
scan_signed negative (d ∷ rest) =
    if is_hex_digit d
    then matched (if negative then (2 ^ 32 - hex_value d) % 2 ^ 32 else hex_value d) rest
    else no_match (d ∷ rest)

unfoldable pub scan_number : List ℕ → Scan
scan_number [] = end_of_file
scan_number (c ∷ rest) =
    if is_hex_digit c
    then scan_second c rest
    else if c == 45
    then scan_signed true rest
    else if c == 43
    then scan_signed false rest
    else no_match (c ∷ rest)

unfoldable pub scan_letter : List ℕ → Scan
scan_letter [] = end_of_file
scan_letter (c ∷ rest) = if c == 120 then scan_number (skip_spaces rest) else no_match (c ∷ rest)

unfoldable pub scan_zero : List ℕ → Scan
scan_zero [] = end_of_file
scan_zero (c ∷ rest) = if c == 48 then scan_letter rest else no_match (c ∷ rest)

unfoldable pub scan : List ℕ → Scan
scan text = scan_zero (skip_spaces text)

-- The loop, for at most this many rounds: the bytes, or nothing when it throws, and what is left.
unfoldable pub pipe_read_loop : ℕ → ℕ → List ℕ → List ℕ → Option (Option (List ℕ) × List ℕ)
pipe_read_loop zero count text buf = none
pipe_read_loop (suc rounds) count text buf = elim (ltb (length buf) count) [
  | false ↦ some (some buf, text)
  | true ↦ elim (scan text) [
    | end_of_file ↦ some (some buf, [])
    | no_match [] ↦ some (none, [])
    | no_match (c ∷ rest) ↦ pipe_read_loop rounds count rest buf
    | matched byte rest ↦ pipe_read_loop rounds count rest (buf ++ byte % 2 ^ 8 ∷ [])
  ]
]

-- Each round takes at least one character.
unfoldable pub pipe_read : ℕ → List ℕ → Option (Option (List ℕ) × List ℕ)
pipe_read count text = pipe_read_loop (suc (length text)) count text []

abbrev pub hex_digit : ℕ → ℕ
hex_digit n = if ltb n 10 then 48 + n else 87 + n

-- The loop with `0x%02x `, and the end of the line.
unfoldable pub pipe_write : List ℕ → List ℕ
pipe_write [] = 10 ∷ []
pipe_write (b ∷ rest) = 48 ∷ 120 ∷ hex_digit (b / 16) ∷ hex_digit (b % 16) ∷ 32 ∷ pipe_write rest
