-- ===== src/Encoder/Frame.antt =====
-- What an encoded message is: the specification that the encoder is held to.
use ndlcom.Prelude.{
  ℕ, ◌+◌, ◌*◌, ◌≤◌, ◌≡◌, refl, sym, ap, ◌∙◌, ◌≢◌, ◌⊎◌, inl, inr, List, [], ◌∷◌, ◌++◌, length,
  length-append, All, All-append, append_assoc, arith,
}
use ndlcom.Crc.{do_crc_all, crc_initial_value}
use ndlcom.Wire.{Header, header_bytes, start_stop_flag, ByteOrder}
use ndlcom.Encoder.{escape, crc_bytes}

unfoldable pub escape_all : List ℕ → List ℕ
escape_all [] = []
escape_all (d ∷ ds) = escape d ++ escape_all ds

abbrev pub checksum : Header → List ℕ → ℕ
checksum h payload = do_crc_all crc_initial_value (header_bytes h ++ payload)

-- Header, payload and checksum, before escaping.
unfoldable pub frame_body : ByteOrder → Header → List ℕ → List ℕ
frame_body order h payload = header_bytes h ++ payload ++ crc_bytes order (checksum h payload)

-- The whole message between its two flags.
unfoldable pub frame : ByteOrder → Header → List ℕ → List ℕ
frame order h payload =
    start_stop_flag ∷ (escape_all (frame_body order h payload) ++ start_stop_flag ∷ [])

pub escape-cases :
    (d : ℕ)
    → ((d ≡ 0x7d) × (escape d ≡ 0x7d ∷ 0x5d ∷ []))
      ⊎ ((d ≡ 0x7e) × (escape d ≡ 0x7d ∷ 0x5e ∷ []))
      ⊎ ((d ≢ 0x7d) × (d ≢ 0x7e) × (escape d ≡ d ∷ []))
unfolding escape
escape-cases d = ground arith

pub escape_all-append : (xs ys : List ℕ) → escape_all (xs ++ ys) ≡ escape_all xs ++ escape_all ys
unfolding escape_all
escape_all-append [] ys = refl
escape_all-append (x ∷ xs) ys =
    ap (◌++◌ (escape x)) (escape_all-append xs ys)
    ∙ sym (append_assoc (escape x) (escape_all xs) (escape_all ys))

length-escape : (d : ℕ) → (1 ≤ length (escape d)) × (length (escape d) ≤ 2)
length-escape d = ground (arith, escape-cases d)

pub length-escape_all :
    (xs : List ℕ) → (length xs ≤ length (escape_all xs)) × (length (escape_all xs) ≤ 2 * length xs)
unfolding escape_all
length-escape_all [] = omega arith
length-escape_all (x ∷ xs) =
    omega (arith, length-escape x, length-append (escape x) (escape_all xs), length-escape_all xs)

abbrev pub IsNoFlag : ℕ → Type 0
IsNoFlag b = b ≢ start_stop_flag

escape-IsNoFlag : (d : ℕ) → All IsNoFlag (escape d)
escape-IsNoFlag d = elim (escape-cases d) [
  | inl (_, e) ↦ rw e (omega arith)
  | inr (inl (_, e)) ↦ rw e (omega arith)
  | inr (inr (_, ne, e)) ↦ rw e (ne, tt)
]

-- Escaped bytes never contain the flag, so a flag in the stream is always the edge of a message.
pub escape_all-IsNoFlag : (xs : List ℕ) → All IsNoFlag (escape_all xs)
unfolding escape_all
escape_all-IsNoFlag [] = tt
escape_all-IsNoFlag (x ∷ xs) =
    All-append IsNoFlag (escape x) (escape_all xs) (escape-IsNoFlag x) (escape_all-IsNoFlag xs)

pub length-frame :
    (order : ByteOrder) (h : Header) (payload : List ℕ)
    → length (frame order h payload) ≡ length (escape_all (frame_body order h payload)) + 2
unfolding frame
length-frame order h payload =
    omega (arith, length-append (escape_all (frame_body order h payload)) (start_stop_flag ∷ []))
