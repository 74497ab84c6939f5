-- ===== src/Sockets/Bounds.antt =====
-- The buffer of a read from a CAN socket of src/ExternalInterface.cpp.
use mathlib.Core.Option
use ndlcom.Prelude.{
  ℕ, ◌+◌, ◌^◌, ◌<◌, ◌≤◌, ◌≡◌, sym, ap, inl, inr, Bool-cases, true, ltb, none, some, Option, List,
  [], ◌∷◌, ◌++◌, length, length-append, All, arith,
}
use ndlcom.Encoder.{sub_size}
use ndlcom.Sockets.{
  Arrival, frame_of, signal, would_block, receive_failed, wrong_size, can_read_loop, can_read,
}

-- Each frame has at most 64 bytes of data.
abbrev pub FitsFrame : Arrival → Type 0
FitsFrame (frame_of f) = length f.data_bytes ≤ 64
FitsFrame _ = Unit

below :
    (count n : ℕ) → 64 ≤ count → count < 2 ^ 64 → ltb n (sub_size count 64) ≡ true → n + 64 < count
below count n large word e = ground arith

ended :
    (count : ℕ) (buf result : List ℕ) {left rest : List Arrival}
    → length buf ≤ count
    → ◌≡◌ {A = Option (Option (List ℕ) × List Arrival)}
        (some (some buf, left))
        (some (some result, rest))
    → length result ≤ count
ended count buf result within e =
    let same : some buf ≡ some result = ap (λ p. p.0) (Option.some-injective _ _ e) in
    rw (sym (Option.some-injective _ _ same)) within

no_result :
    (result : List ℕ) {left rest : List Arrival}
    → ◌≡◌ {A = Option (Option (List ℕ) × List Arrival)}
        (some (none, left))
        (some (some result, rest))
    → ⊥
no_result result e = Option.none-ne-some result (ap (λ p. p.0) (Option.some-injective _ _ e))

can_read_loop-bound :
    (arrivals : List Arrival) (count : ℕ) (buf result : List ℕ) (rest : List Arrival)
    → All FitsFrame arrivals
    → 64 ≤ count
    → count < 2 ^ 64
    → length buf ≤ count
    → can_read_loop arrivals count buf ≡ some (some result, rest)
    → length result ≤ count
unfolding can_read_loop
can_read_loop-bound [] count buf result rest fit large word within e =
    elim (Bool-cases (ltb (length buf) (sub_size count 64))) [
      | inl free ↦ absurd (Option.none-ne-some (some result, rest) (simp free at e))
      | inr full ↦ ended count buf result within (simp full at e)
    ]
can_read_loop-bound (frame_of f ∷ arrivals) count buf result rest (short, fit) large word within e =
    elim (Bool-cases (ltb (length buf) (sub_size count 64))) [
      | inl free ↦
          can_read_loop-bound arrivals count (buf ++ f.data_bytes) result rest fit large word
            (omega
              (arith, below count (length buf) large word free, length-append buf f.data_bytes))
            (simp free at e)
      | inr full ↦ ended count buf result within (simp full at e)
    ]
can_read_loop-bound (signal ∷ arrivals) count buf result rest (none_here, fit) large word within e =
    elim (Bool-cases (ltb (length buf) (sub_size count 64))) [
      | inl free ↦
          can_read_loop-bound arrivals count buf result rest fit large word within (simp free at e)
      | inr full ↦ ended count buf result within (simp full at e)
    ]
can_read_loop-bound (would_block ∷ arrivals) count buf result rest fit large word within e =
    elim (Bool-cases (ltb (length buf) (sub_size count 64))) [
      | inl free ↦ ended count buf result within (simp free at e)
      | inr full ↦ ended count buf result within (simp full at e)
    ]
can_read_loop-bound (receive_failed ∷ arrivals) count buf result rest fit large word within e =
    elim (Bool-cases (ltb (length buf) (sub_size count 64))) [
      | inl free ↦ absurd (no_result result (simp free at e))
      | inr full ↦ ended count buf result within (simp full at e)
    ]
can_read_loop-bound (wrong_size ∷ arrivals) count buf result rest fit large word within e =
    elim (Bool-cases (ltb (length buf) (sub_size count 64))) [
      | inl free ↦ absurd (no_result result (simp free at e))
      | inr full ↦ ended count buf result within (simp full at e)
    ]

-- A read from a CAN socket into a buffer of at least 64 bytes stores no byte behind its end, whatever
-- arrives in frames of at most 64 bytes.
pub can_read_bound :
    (arrivals : List Arrival) (count : ℕ) (result : List ℕ) (rest : List Arrival)
    → All FitsFrame arrivals
    → 64 ≤ count
    → count < 2 ^ 64
    → can_read arrivals count ≡ some (some result, rest)
    → length result ≤ count
unfolding can_read
can_read_bound arrivals count result rest fit large word e =
    can_read_loop-bound arrivals count [] result rest fit large word (omega arith) e
