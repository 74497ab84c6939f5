-- ===== src/Sockets/Frames.antt =====
-- Bytes as CAN frames and back, of src/ExternalInterface.cpp.
use ndlcom.Prelude.{
  ℕ, zero, suc, ◌+◌, ◌^◌, ◌<◌, ◌≤◌, ◌≡◌, refl, sym, ap, ◌∙◌, inl, inr, Bool-cases, true, false, ltb,
  some, Option, List, [], ◌∷◌, ◌++◌, length, take, drop, replicate, append_assoc, append-nil,
  length-append, All, arith,
}
use ndlcom.Encoder.{sub_size}
use ndlcom.Sockets.{
  Answer, takes, interrupted, broken_pipe, failed, Written, returns, CanFrame, can_write_loop,
  can_write, Arrival, frame_of, signal, would_block, can_read_loop, can_read,
}
use ndlcom.Sockets.Streams.{IsProgress, takings, drop_all, next_piece}

-- The data of the frames, one behind the other.
unfoldable pub joined : List CanFrame → List ℕ
joined [] = []
joined (f ∷ fs) = f.data_bytes ++ joined fs

-- The other side receives these frames, with so many signals before each, and then nothing more.
unfoldable pub arrivals_of : List ℕ → List CanFrame → List Arrival → List Arrival
arrivals_of ks [] more = would_block ∷ more
arrivals_of [] (f ∷ fs) more = frame_of f ∷ arrivals_of [] fs more
arrivals_of (k ∷ ks) (f ∷ fs) more = replicate k signal ++ frame_of f ∷ arrivals_of ks fs more

abbrev all_in : List CanFrame → Option (Written (List CanFrame))
all_in fs = some (record { wrote = fs; returned = true })

Framed : ℕ → ℕ → List Answer → List ℕ → ℕ → Type 0
Framed id max answers buf m =
    (fs : List CanFrame) × (can_write_loop id max answers buf m ≡ all_in fs)
    × (joined fs ≡ drop m buf)

over-Framed :
    (id max : ℕ) (answers : List Answer) (buf : List ℕ) (m : ℕ)
    → can_write_loop id max answers buf m ≡ returns true
    → ltb m (length buf) ≡ false
    → Framed id max answers buf m
unfolding Framed joined
over-Framed id max answers buf m ended over = ([], ended, sym (drop_all m buf (ground arith)))

can_write_loop-Framed :
    (id max : ℕ) (answers : List Answer) (buf : List ℕ) (m : ℕ)
    → 1 ≤ max
    → All IsProgress answers
    → m ≤ length buf
    → length buf ≤ m + takings answers
    → Framed id max answers buf m
unfolding can_write_loop takings Framed joined
can_write_loop-Framed id max [] buf m one progress within enough =
    let over : ltb m (length buf) ≡ false = ground arith in
    over-Framed id max [] buf m (rw over refl) over
can_write_loop-Framed id max (takes n ∷ answers) buf m one (taken, progress) within enough =
    elim (Bool-cases (ltb m (length buf))) [
      | inl left ↦
          let sent = take max (drop m buf) in
          let (whole, on, some_sent, few) = next_piece max m buf (ground arith) one in
          let (fs, ran, rest) =
            can_write_loop-Framed id max answers buf (m + length sent) one progress on
              (omega arith) in
          (
            record { can_id = id; data_bytes = sent } ∷ fs,
            rw (left, ran) refl,
            ap (λ ys. sent ++ ys) rest ∙ whole,
          )
      | inr over ↦ over-Framed id max (takes n ∷ answers) buf m (rw over refl) over
    ]
can_write_loop-Framed id max (interrupted ∷ answers) buf m one (no_bytes, progress) within enough =
    elim (Bool-cases (ltb m (length buf))) [
      | inl left ↦
          let (fs, ran, rest) =
            can_write_loop-Framed id max answers buf m one progress within enough in
          (fs, rw left ran, rest)
      | inr over ↦ over-Framed id max (interrupted ∷ answers) buf m (rw over refl) over
    ]
can_write_loop-Framed id max (broken_pipe ∷ answers) buf m one (no_way, progress) within enough =
    absurd no_way
can_write_loop-Framed id max (failed ∷ answers) buf m one (no_way, progress) within enough =
    absurd no_way

room : (count n : ℕ) → n + 64 < count → count < 2 ^ 64 → ltb n (sub_size count 64) ≡ true
room count n small word = ground arith

can_read_loop-signals :
    (k : ℕ) (arrivals : List Arrival) (count : ℕ) (buf : List ℕ)
    → length buf + 64 < count
    → count < 2 ^ 64
    → can_read_loop (replicate k signal ++ arrivals) count buf ≡ can_read_loop arrivals count buf
unfolding can_read_loop
can_read_loop-signals zero arrivals count buf small word = refl
can_read_loop-signals (suc k) arrivals count buf small word =
    rw (room count (length buf) small word) (can_read_loop-signals k arrivals count buf small word)

can_read_loop-frame :
    (f : CanFrame) (arrivals : List Arrival) (count : ℕ) (buf : List ℕ)
    → length buf + 64 < count
    → count < 2 ^ 64
    → can_read_loop (frame_of f ∷ arrivals) count buf
      ≡ can_read_loop arrivals count (buf ++ f.data_bytes)
unfolding can_read_loop
can_read_loop-frame f arrivals count buf small word = rw (room count (length buf) small word) refl

joined_size :
    (buf : List ℕ) (f : CanFrame) (fs : List CanFrame)
    → length (buf ++ f.data_bytes) + length (joined fs) ≡ length buf + length (joined (f ∷ fs))
unfolding joined
joined_size buf f fs =
    omega (arith, length-append buf f.data_bytes, length-append f.data_bytes (joined fs))

joined_behind :
    (buf : List ℕ) (f : CanFrame) (fs : List CanFrame)
    → (buf ++ f.data_bytes) ++ joined fs ≡ buf ++ joined (f ∷ fs)
unfolding joined
joined_behind buf f fs = append_assoc buf f.data_bytes (joined fs)

can_read_loop-joined :
    (ks : List ℕ) (fs : List CanFrame) (more : List Arrival) (count : ℕ) (buf : List ℕ)
    → length buf + length (joined fs) + 64 < count
    → count < 2 ^ 64
    → can_read_loop (arrivals_of ks fs more) count buf ≡ some (some (buf ++ joined fs), more)
unfolding can_read_loop arrivals_of joined
can_read_loop-joined ks [] more count buf small word =
    rw (room count (length buf) (omega arith) word)
      (ap (λ b. some (some b, more)) (sym (append-nil buf)))
can_read_loop-joined [] (f ∷ fs) more count buf small word =
    can_read_loop-frame f (arrivals_of [] fs more) count buf (omega arith) word
    ∙ can_read_loop-joined [] fs more count (buf ++ f.data_bytes)
        (omega (arith, joined_size buf f fs)) word
    ∙ ap (λ b. some (some b, more)) (joined_behind buf f fs)
can_read_loop-joined (k ∷ ks) (f ∷ fs) more count buf small word =
    can_read_loop-signals k (frame_of f ∷ arrivals_of ks fs more) count buf (omega arith) word
    ∙ can_read_loop-frame f (arrivals_of ks fs more) count buf (omega arith) word
    ∙ can_read_loop-joined ks fs more count (buf ++ f.data_bytes)
        (omega (arith, joined_size buf f fs)) word
    ∙ ap (λ b. some (some b, more)) (joined_behind buf f fs)

-- A frame holds at least one byte, and while the bytes are written the system sends frames or is
-- interrupted by signals, and sends at least as many as there are bytes. Then the function returns,
-- and an interface that receives those frames, with any signals before each, and whose buffer is more
-- than 64 bytes larger than the message gets the bytes that were written, in one read; what arrives
-- later is left.
pub can_read-can_write :
    (id max : ℕ) (answers : List Answer) (buf : List ℕ) (signals : List ℕ) (more : List Arrival)
    (count : ℕ)
    → 1 ≤ max
    → All IsProgress answers
    → length buf ≤ takings answers
    → length buf + 64 < count
    → count < 2 ^ 64
    → (fs : List CanFrame) × (can_write id max answers buf
        ≡ some (record { wrote = fs; returned = true }))
      × (can_read (arrivals_of signals fs more) count ≡ some (some buf, more))
unfolding can_write can_read Framed
can_read-can_write id max answers buf signals more count one progress enough small word =
    let (fs, ran, whole) =
      can_write_loop-Framed id max answers buf 0 one progress (omega arith) (omega arith) in
    let size : length (joined fs) ≡ length buf = ap length whole in
    (
      fs,
      ran,
      can_read_loop-joined signals fs more count [] (omega (arith, size)) word
          ∙ ap (λ b. some (some b, more)) whole,
    )
