-- ===== src/Tests/Pipes.antt =====
-- Bytes as hexadecimal text.
use ndlcom.Prelude.{ℕ, ◌≡◌, refl, Option, some, none, List, [], ◌∷◌, take, drop, arith}
use ndlcom.Pipe.{pipe_read, pipe_write}
use ndlcom.Pipe.RoundTrip.{pipe_read-pipe_write}
use ndlcom.Pipe.Progress.{IsBounded, pipe_read-IsBounded}

abbrev three_bytes : List ℕ
three_bytes = 255 ∷ 0 ∷ 126 ∷ []

pipe_read-pipe_write_example :
    (text : List ℕ) × (pipe_read 2 (pipe_write three_bytes)
      ≡ some (some (take 2 three_bytes), text))
    × ((rest : List ℕ) × (pipe_read 9 text ≡ some (some (take 9 (drop 2 three_bytes)), rest)))
pipe_read-pipe_write_example =
    pipe_read-pipe_write 2 9 three_bytes (omega arith, (omega arith, (omega arith, tt)))

-- `x 0xA 0x-1 7`
abbrev noise : List ℕ
noise = 120 ∷ 32 ∷ 48 ∷ 120 ∷ 65 ∷ 32 ∷ 48 ∷ 120 ∷ 45 ∷ 49 ∷ 32 ∷ 55 ∷ []

pipe_read-IsBounded_example :
    (result : Option (List ℕ)) × (rest : List ℕ) × (pipe_read 4 noise ≡ some (result, rest))
    × IsBounded 4 result
pipe_read-IsBounded_example = pipe_read-IsBounded 4 noise

reads_noise : pipe_read 4 noise ≡ some (some (10 ∷ 255 ∷ []), [])
unfolding pipe_read ndlcom.Pipe.pipe_read_loop ndlcom.Pipe.scan ndlcom.Pipe.scan_zero
    ndlcom.Pipe.scan_letter ndlcom.Pipe.scan_number ndlcom.Pipe.scan_second ndlcom.Pipe.scan_signed
    ndlcom.Ids.skip_spaces
reads_noise = refl

-- A token of which only `0x` has arrived is lost.
loses_start : pipe_read 4 (48 ∷ 120 ∷ []) ≡ some (some [], [])
unfolding pipe_read ndlcom.Pipe.pipe_read_loop ndlcom.Pipe.scan ndlcom.Pipe.scan_zero
    ndlcom.Pipe.scan_letter ndlcom.Pipe.scan_number ndlcom.Ids.skip_spaces
loses_start = refl

-- `0x-` at the end makes `fgets` fail.
throws_at_end : pipe_read 4 (48 ∷ 120 ∷ 45 ∷ []) ≡ some (none, [])
unfolding pipe_read ndlcom.Pipe.pipe_read_loop ndlcom.Pipe.scan ndlcom.Pipe.scan_zero
    ndlcom.Pipe.scan_letter ndlcom.Pipe.scan_number ndlcom.Pipe.scan_signed ndlcom.Ids.skip_spaces
throws_at_end = refl
