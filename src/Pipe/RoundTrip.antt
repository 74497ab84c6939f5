-- ===== src/Pipe/RoundTrip.antt =====
-- Bytes that were written to a pipe are read again, in pieces of any size.
use ndlcom.Prelude.{
  ℕ, zero, suc, ◌+◌, ◌*◌, ◌/◌, ◌%◌, ◌^◌, ◌<◌, ◌≤◌, ◌≡◌, ◌⊎◌, refl, sym, ap, ◌∙◌, inl, inr, Bool,
  true, false, ◌==◌, ltb, some, List, [], ◌∷◌, ◌++◌, append-nil, append_assoc, length, take, drop,
  All, length-append, by_test, test_below, not, arith,
}
use ndlcom.Ids.{skip_spaces, is_space}
use ndlcom.Pipe.{
  end_of_file, matched, is_hex_digit, hex_value, hex_digit, scan, scan_zero, scan_letter,
  scan_number, scan_second, pipe_read_loop, pipe_read, pipe_write,
}

abbrev pub AreBytes : List ℕ → Type 0
AreBytes bytes = All (λ b. b < 256) bytes

hex_digit-is_hex_digit : (n : ℕ) → n < 16 → is_hex_digit (hex_digit n) ≡ true
unfolding test_below
hex_digit-is_hex_digit n small = by_test (λ k. is_hex_digit (hex_digit k)) 16 n refl small

no_space : (n : ℕ) → n < 16 → is_space (hex_digit n) ≡ false
unfolding test_below
no_space n small = ground (arith, by_test (λ k. not (is_space (hex_digit k))) 16 n refl small)

hex_value-hex_digit : (n : ℕ) → n < 16 → hex_value (hex_digit n) ≡ n
unfolding test_below
hex_value-hex_digit n small =
    ground (arith, by_test (λ k. hex_value (hex_digit k) == k) 16 n refl small)

-- With or without a blank in front.
abbrev led : Bool → List ℕ → List ℕ
led true text = 32 ∷ text
led false text = text

scan_number-hex_digit :
    (b : ℕ) (rest : List ℕ)
    → b < 256
    → scan_number (skip_spaces (hex_digit (b / 16) ∷ hex_digit (b % 16) ∷ rest)) ≡ matched b rest
unfolding scan_number scan_second skip_spaces
scan_number-hex_digit b rest byte =
    let high : b / 16 < 16 = omega arith in
    let low : b % 16 < 16 = omega arith in
    let whole : b / 16 * 16 + b % 16 ≡ b = omega arith in
    rw
      (
        no_space (b / 16) high,
        scan_number,
        hex_digit-is_hex_digit (b / 16) high,
        scan_second,
        hex_digit-is_hex_digit (b % 16) low,
        hex_value-hex_digit (b / 16) high,
        hex_value-hex_digit (b % 16) low,
      )
      (ap (λ v. matched v rest) whole)

scan-pipe_write :
    (blank : Bool) (b : ℕ) (rest : List ℕ)
    → b < 256
    → scan (led blank (pipe_write (b ∷ rest))) ≡ matched b (32 ∷ pipe_write rest)
unfolding scan scan_zero scan_letter pipe_write skip_spaces
scan-pipe_write true b rest byte = scan_number-hex_digit b (32 ∷ pipe_write rest) byte
scan-pipe_write false b rest byte = scan_number-hex_digit b (32 ∷ pipe_write rest) byte

scan-end : (blank : Bool) → scan (led blank (pipe_write [])) ≡ end_of_file
unfolding scan scan_zero pipe_write skip_spaces
scan-end true = refl
scan-end false = refl

-- What is left behind `count` bytes.
abbrev left_behind : Bool → ℕ → List ℕ → List ℕ
left_behind blank zero bytes = led blank (pipe_write bytes)
left_behind blank (suc count) [] = []
left_behind blank (suc count) (b ∷ rest) = left_behind true count rest

loop-pipe_write :
    (rounds count : ℕ) (blank : Bool) (bytes buf : List ℕ)
    → AreBytes bytes
    → length bytes < rounds
    → pipe_read_loop rounds (length buf + count) (led blank (pipe_write bytes)) buf
      ≡ some (some (buf ++ take count bytes), left_behind blank count bytes)
unfolding pipe_read_loop
loop-pipe_write zero count blank bytes buf ok enough = absurd (omega arith)
loop-pipe_write (suc rounds) zero blank bytes buf ok enough =
    let full : ltb (length buf) (length buf + 0) ≡ false = ground arith in
    rw (pipe_read_loop, full)
      (ap (λ x. some (some x, led blank (pipe_write bytes))) (sym (append-nil buf)))
loop-pipe_write (suc rounds) (suc count) blank [] buf ok enough =
    let room : ltb (length buf) (length buf + suc count) ≡ true = ground arith in
    rw (pipe_read_loop, room, scan-end blank) (ap (λ x. some (some x, [])) (sym (append-nil buf)))
loop-pipe_write (suc rounds) (suc count) blank (b ∷ rest) buf (byte, ok) enough =
    let room : ltb (length buf) (length buf + suc count) ≡ true = ground arith in
    let same : b % 2 ^ 8 ≡ b = omega arith in
    let next : length (buf ++ b ∷ []) + count ≡ length buf + suc count =
      omega (arith, length-append buf (b ∷ [])) in
    rw (pipe_read_loop, room, scan-pipe_write blank b rest byte, same, ← next)
      (loop-pipe_write rounds count true rest (buf ++ b ∷ []) ok (omega arith)
        ∙ ap (λ x. some (some x, left_behind true count rest))
            (append_assoc buf (b ∷ []) (take count rest)))

length-pipe_write : (bytes : List ℕ) → length bytes < length (pipe_write bytes)
unfolding pipe_write
length-pipe_write [] = omega arith
length-pipe_write (b ∷ rest) = omega (arith, length-pipe_write rest)

length-led : (blank : Bool) (text : List ℕ) → length text ≤ length (led blank text)
length-led true text = omega arith
length-led false text = omega arith

read-led :
    (count : ℕ) (blank : Bool) (bytes : List ℕ)
    → AreBytes bytes
    → pipe_read count (led blank (pipe_write bytes))
      ≡ some (some (take count bytes), left_behind blank count bytes)
unfolding pipe_read
read-led count blank bytes ok =
    let text = led blank (pipe_write bytes) in
    let none_yet : count ≡ 0 + count = omega arith in
    ap (λ k. pipe_read_loop (suc (length text)) k text []) none_yet
    ∙ loop-pipe_write (suc (length (led blank (pipe_write bytes)))) count blank bytes [] ok
        (omega (arith, length-pipe_write bytes, length-led blank (pipe_write bytes)))

-- Nothing is left, or the rest of the bytes is.
left_behind-led :
    (count : ℕ) (blank : Bool) (bytes : List ℕ)
    → ((left_behind blank count bytes ≡ []) × (drop count bytes ≡ []))
      ⊎ ((b : Bool) × (left_behind blank count bytes ≡ led b (pipe_write (drop count bytes))))
left_behind-led zero blank bytes = inr (blank, refl)
left_behind-led (suc count) blank [] = inl (refl, refl)
left_behind-led (suc count) blank (b ∷ rest) = left_behind-led count true rest

drop-AreBytes : (n : ℕ) (bytes : List ℕ) → AreBytes bytes → AreBytes (drop n bytes)
drop-AreBytes zero bytes ok = ok
drop-AreBytes (suc n) [] ok = ok
drop-AreBytes (suc n) (b ∷ rest) ok = drop-AreBytes n rest ok.1

read_nothing : (count : ℕ) → pipe_read count [] ≡ some (some (take count []), [])
unfolding pipe_read pipe_read_loop scan scan_zero skip_spaces
read_nothing zero = refl
read_nothing (suc count) =
    let room : ltb 0 (suc count) ≡ true = ground arith in rw (pipe_read_loop, room) refl

-- What was written to the pipe is read again, whatever is asked for: a first read gives as many of the
-- bytes as it asks for, or all of them, and a second one goes on behind them.
pub pipe_read-pipe_write :
    (count more : ℕ) (bytes : List ℕ)
    → AreBytes bytes
    → (text : List ℕ) × (pipe_read count (pipe_write bytes) ≡ some (some (take count bytes), text))
      × ((rest : List ℕ) × (pipe_read more text ≡ some (some (take more (drop count bytes)), rest)))
pipe_read-pipe_write count more bytes ok = (
  left_behind false count bytes,
  read-led count false bytes ok,
  elim (left_behind-led count false bytes) [
    | inl (empty, done) ↦ ([], rw (empty, done) (read_nothing more))
    | inr (blank, e) ↦ (
      left_behind blank more (drop count bytes),
      rw e (read-led more blank (drop count bytes) (drop-AreBytes count bytes ok)),
    )
  ],
)
