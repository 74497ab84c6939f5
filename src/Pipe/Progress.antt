-- ===== src/Pipe/Progress.antt =====
-- Reading from a pipe ends, whatever text is in it.
use ndlcom.Prelude.{
  ℕ, zero, suc, ◌%◌, ◌^◌, ◌<◌, ◌≤◌, ◌≡◌, refl, inl, inr, Bool, true, false, ◌==◌, ◌&&◌, ◌||◌, ltb,
  Option, some, none, List, [], ◌∷◌, ◌++◌, length, length-append, All-append, Bool-cases,
  if◌then◌else◌, arith,
}
use ndlcom.Ids.{skip_spaces}
use ndlcom.Pipe.{
  Scan, end_of_file, no_match, matched, is_hex_digit, scan, scan_zero, scan_letter, scan_number,
  scan_second, scan_signed, pipe_read_loop, pipe_read,
}
use ndlcom.Pipe.RoundTrip.{AreBytes}

-- What the scan leaves of a text of this length.
abbrev IsShorter : Scan → ℕ → Type 0
IsShorter end_of_file n = Unit
IsShorter (no_match rest) n = length rest ≤ n
IsShorter (matched byte rest) n = length rest < n

IsShorter-le : (s : Scan) (m n : ℕ) → m ≤ n → IsShorter s m → IsShorter s n
IsShorter-le end_of_file m n below short = tt
IsShorter-le (no_match rest) m n below short = omega arith
IsShorter-le (matched byte rest) m n below short = omega arith

skip_spaces-le : (text : List ℕ) → length (skip_spaces text) ≤ length text
unfolding skip_spaces
skip_spaces-le [] = omega arith
skip_spaces-le (c ∷ rest) = ground (arith, skip_spaces-le rest)

if-IsShorter :
    (b : Bool) (s t : Scan) (n : ℕ)
    → IsShorter s n
    → IsShorter t n
    → IsShorter (if b then s else t) n
if-IsShorter true s t n p q = p
if-IsShorter false s t n p q = q

scan_second-IsShorter : (c : ℕ) (rest : List ℕ) → IsShorter (scan_second c rest) (suc (length rest))
unfolding scan_second
scan_second-IsShorter c [] = omega arith
scan_second-IsShorter c (d ∷ rest) =
    if-IsShorter (is_hex_digit d) _ _ (suc (suc (length rest))) (omega arith) (
      if-IsShorter ((c == 48) && ((d == 120) || (d == 88))) _ _ (suc (suc (length rest)))
        (omega arith) (omega arith))

scan_signed-IsShorter :
    (negative : Bool) (rest : List ℕ) → IsShorter (scan_signed negative rest) (suc (length rest))
unfolding scan_signed
scan_signed-IsShorter negative [] = omega arith
scan_signed-IsShorter negative (d ∷ rest) =
    if-IsShorter (is_hex_digit d) _ _ (suc (suc (length rest))) (omega arith) (omega arith)

scan_number-IsShorter : (text : List ℕ) → IsShorter (scan_number text) (length text)
unfolding scan_number
scan_number-IsShorter [] = tt
scan_number-IsShorter (c ∷ rest) =
    let n = suc (length rest) in
    if-IsShorter (is_hex_digit c) _ _ n (scan_second-IsShorter c rest) (
      if-IsShorter (c == 45) _ _ n (scan_signed-IsShorter true rest)
        (if-IsShorter (c == 43) _ _ n (scan_signed-IsShorter false rest) (omega arith)))

scan_letter-IsShorter : (text : List ℕ) → IsShorter (scan_letter text) (length text)
unfolding scan_letter
scan_letter-IsShorter [] = tt
scan_letter-IsShorter (c ∷ rest) =
    if-IsShorter (c == 120) _ _ (suc (length rest))
      (IsShorter-le (scan_number (skip_spaces rest)) (length (skip_spaces rest)) (suc (length rest))
        (omega (arith, skip_spaces-le rest)) (scan_number-IsShorter (skip_spaces rest)))
      (omega arith)

scan_zero-IsShorter : (text : List ℕ) → IsShorter (scan_zero text) (length text)
unfolding scan_zero
scan_zero-IsShorter [] = tt
scan_zero-IsShorter (c ∷ rest) =
    if-IsShorter (c == 48) _ _ (suc (length rest))
      (IsShorter-le (scan_letter rest) (length rest) (suc (length rest)) (omega arith)
        (scan_letter-IsShorter rest))
      (omega arith)

scan-IsShorter : (text : List ℕ) → IsShorter (scan text) (length text)
unfolding scan
scan-IsShorter text =
    IsShorter-le (scan_zero (skip_spaces text)) (length (skip_spaces text)) (length text)
      (skip_spaces-le text) (scan_zero-IsShorter (skip_spaces text))

-- The function throws, or stored so many bytes at most.
abbrev pub IsBounded : ℕ → Option (List ℕ) → Type 0
IsBounded count none = Unit
IsBounded count (some bytes) = AreBytes bytes × (length bytes ≤ count)

abbrev Ends : ℕ → Option (Option (List ℕ) × List ℕ) → Type 0
Ends count o =
    (result : Option (List ℕ)) × (rest : List ℕ) × (o ≡ some (result, rest))
    × IsBounded count result

Continues : ℕ → ℕ → Type 0
Continues rounds count =
    (text buf : List ℕ)
    → length text < rounds
    → AreBytes buf
    → length buf ≤ count
    → Ends count (pipe_read_loop rounds count text buf)

-- One round, by what the scan gives.
after_scan :
    (rounds count : ℕ) (s : Scan) (text buf : List ℕ)
    → Continues rounds count
    → scan text ≡ s
    → IsShorter s (length text)
    → length text < suc rounds
    → AreBytes buf
    → length buf < count
    → Ends count (pipe_read_loop (suc rounds) count text buf)
unfolding pipe_read_loop Continues
after_scan rounds count end_of_file text buf next e short enough bytes below =
    let room : ltb (length buf) count ≡ true = ground arith in
    (some buf, [], rw (pipe_read_loop, room, e) refl, (bytes, omega arith))
after_scan rounds count (no_match []) text buf next e short enough bytes below =
    let room : ltb (length buf) count ≡ true = ground arith in
    (none, [], rw (pipe_read_loop, room, e) refl, tt)
after_scan rounds count (no_match (c ∷ rest)) text buf next e short enough bytes below =
    let room : ltb (length buf) count ≡ true = ground arith in
    let (result, left, ran, bounded) = next rest buf (omega arith) bytes (omega arith) in
    (result, left, rw (pipe_read_loop, room, e) ran, bounded)
after_scan rounds count (matched byte rest) text buf next e short enough bytes below =
    let room : ltb (length buf) count ≡ true = ground arith in
    let more = buf ++ byte % 2 ^ 8 ∷ [] in
    let small : byte % 2 ^ 8 < 256 = omega arith in
    let (result, left, ran, bounded) =
      next rest more (omega arith)
        (All-append (λ b. b < 256) buf (byte % 2 ^ 8 ∷ []) bytes (small, tt))
        (omega (arith, length-append buf (byte % 2 ^ 8 ∷ []))) in
    (result, left, rw (pipe_read_loop, room, e) ran, bounded)

loop-Ends : (rounds count : ℕ) → Continues rounds count
unfolding Continues pipe_read_loop
loop-Ends zero count text buf enough bytes below = absurd (omega arith)
loop-Ends (suc rounds) count text buf enough bytes below =
    elim (Bool-cases (ltb (length buf) count)) [
      | inl room ↦
          after_scan rounds count (scan text) text buf (loop-Ends rounds count) refl
            (scan-IsShorter text) enough bytes (ground (arith, room))
      | inr full ↦ (some buf, text, rw (pipe_read_loop, full) refl, (bytes, below))
    ]

-- Whatever text is in the pipe, the rounds are enough: the function throws, or it stores at most as many
-- bytes as it was asked for.
pub pipe_read-IsBounded :
    (count : ℕ) (text : List ℕ)
    → (result : Option (List ℕ)) × (rest : List ℕ) × (pipe_read count text ≡ some (result, rest))
      × IsBounded count result
unfolding pipe_read Continues
pipe_read-IsBounded count text =
    loop-Ends (suc (length text)) count text [] (omega arith) tt (omega arith)
