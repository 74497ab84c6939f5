-- ===== src/Ids.antt =====
-- The functions of src/Bridge.cpp that read a list of device ids from a text and set the routes of an
-- interface by it. A text is a list of character codes; `std::getline` and `std::stoi` are written
-- out as far as these functions use them. What is written to a stream is a list of lines.
pub mod Pieces
pub mod Decimals
pub mod Soundness
pub mod Routes
use ndlcom.Prelude.{
  ℕ, zero, suc, ◌+◌, ◌-◌, ◌*◌, ◌%◌, ◌^◌, Bool, true, false, ◌&&◌, ◌||◌, ◌==◌, ltb, leb, Option,
  none, some, List, [], ◌∷◌, ◌++◌, length, if◌then◌else◌,
}
use ndlcom.Prelude.Integers.{ℤ, pos, negsuc}
use ndlcom.Wire.{addr_broadcast}
use ndlcom.Bridge.{Bridge, set_routing_for_device_id}

-- What stands in front of the first delimiter, and what is left behind it.
unfoldable pub up_to : ℕ → List ℕ → List ℕ × List ℕ
up_to delim [] = ([], [])
up_to delim (c ∷ rest) =
    let (item, left) = up_to delim rest in if c == delim then ([], rest) else (c ∷ item, left)

-- `std::getline` fails when the stream has no character left.
unfoldable pub getline : ℕ → List ℕ → Option (List ℕ × List ℕ)
getline delim [] = none
getline delim (c ∷ rest) = some (up_to delim (c ∷ rest))

-- The loop, for at most this many rounds.
unfoldable pub split_loop : ℕ → ℕ → List ℕ → List (List ℕ) → List (List ℕ)
split_loop zero delim stream elems = elems
split_loop (suc rounds) delim stream elems = elim (getline delim stream) [
  | none ↦ elems
  | some (item, left) ↦ split_loop rounds delim left (elems ++ item ∷ [])
]

-- Each round takes at least one character.
unfoldable pub split_string_into_strings : List ℕ → ℕ → List (List ℕ)
split_string_into_strings s delim = split_loop (suc (length s)) delim s []

abbrev pub is_space : ℕ → Bool
is_space c = (c == 32) || (leb 9 c && leb c 13)

abbrev pub is_digit : ℕ → Bool
is_digit c = leb 48 c && leb c 57

unfoldable pub skip_spaces : List ℕ → List ℕ
skip_spaces [] = []
skip_spaces (c ∷ rest) = let skipped = skip_spaces rest in if is_space c then skipped else c ∷ rest

-- The value of the digits in front, behind digits of the value `n`.
unfoldable pub digits_value : ℕ → List ℕ → ℕ
digits_value n [] = n
digits_value n (c ∷ rest) =
    let value = digits_value (n * 10 + (c - 48)) rest in if is_digit c then value else n

abbrev pub starts_with_digit : List ℕ → Bool
starts_with_digit [] = false
starts_with_digit (c ∷ rest) = is_digit c

abbrev pub signed : Bool → ℕ → ℤ
signed true (suc n) = negsuc n
signed _ n = pos n

-- `int` has 32 bits.
abbrev pub fits_int : ℤ → Bool
fits_int (pos n) = ltb n (2 ^ 31)
fits_int (negsuc n) = ltb n (2 ^ 31)

unfoldable pub number_of : Bool → List ℕ → Option ℤ
number_of negative text =
    let number = signed negative (digits_value 0 text) in
    if starts_with_digit text && fits_int number then some number else none

unfoldable pub after_spaces : List ℕ → Option ℤ
after_spaces [] = none
after_spaces (c ∷ rest) =
    if c == 45
    then number_of true rest
    else if c == 43
    then number_of false rest
    else number_of false (c ∷ rest)

-- `std::stoi`, which throws where there is no number in front or it does not fit.
unfoldable pub stoi : List ℕ → Option ℤ
stoi text = after_spaces (skip_spaces text)

-- What these functions write to `out`.
pub data Line : Type 0 where
  ignores_broadcast : Line
  too_small too_large : List ℕ → Line
  uses_for : ℕ → Line

abbrev pub is_broadcast : ℤ → Bool
is_broadcast (pos n) = n == addr_broadcast
is_broadcast (negsuc n) = false

-- The conversion to NDLComId keeps the lowest 8 bits.
abbrev pub low_byte : ℤ → ℕ
low_byte (pos n) = n % 2 ^ 8
low_byte (negsuc n) = 2 ^ 8 - 1 - n % 2 ^ 8

abbrev pub range_lines : List ℕ → ℤ → List Line
range_lines it (pos n) = if ltb 255 n then too_large it ∷ [] else []
range_lines it (negsuc n) = too_small it ∷ []

-- The body of the loop behind `std::stoi`.
unfoldable pub convert_number : List ℕ → ℤ → List ℕ → List Line → List ℕ × List Line
convert_number it number retval out =
    if is_broadcast number
    then (retval, out ++ ignores_broadcast ∷ [])
    else (retval ++ low_byte number ∷ [], out ++ range_lines it number)

-- No ids when `std::stoi` throws.
unfoldable pub convert_loop : List (List ℕ) → List ℕ → List Line → Option (List ℕ) × List Line
convert_loop [] retval out = (some retval, out)
convert_loop (it ∷ rest) retval out = elim (stoi it) [
  | none ↦ (none, out)
  | some number ↦
      let (ids, lines) = convert_number it number retval out in convert_loop rest ids lines
]

unfoldable pub convert_string_to_ids : List (List ℕ) → List Line → Option (List ℕ) × List Line
convert_string_to_ids numbers out = convert_loop numbers [] out

module _ {L W : Type 0} where
  -- The loop over the ids.
  unfoldable pub set_routes : List ℕ → ℕ → Bridge L W → List Line → Bridge L W × List Line
  set_routes [] a s out = (s, out)
  set_routes (id ∷ rest) a s out =
      set_routes rest a (set_routing_for_device_id s a id) (out ++ uses_for id ∷ [])

  unfoldable pub set_converted :
      Option (List ℕ) → ℕ → Bridge L W → List Line → Bool × Bridge L W × List Line
  set_converted none a s out = (false, s, out)
  set_converted (some ids) a s out = let (t, lines) = set_routes ids a s out in (true, t, lines)

  -- Whether the call returned, the bridge and the lines.
  unfoldable pub set_routing_by_string :
      Bridge L W → ℕ → List ℕ → List Line → Bool × Bridge L W × List Line
  set_routing_by_string s a conn out =
      let (ids, lines) = convert_string_to_ids (split_string_into_strings conn 44) out in
      set_converted ids a s lines
