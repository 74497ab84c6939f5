-- ===== src/Parser/Unescaping.antt =====
-- What src/Parser.c does with the bytes that stand for one byte of a packet.
use ndlcom.Prelude.{
  ℕ, ◌+◌, ◌≡◌, refl, sym, ap, ◌∙◌, ◌≢◌, inl, inr, true, false, List, ◌∷◌, ◌++◌, length, bit_xor,
  ==_ne, arith,
}
use ndlcom.Wire.{start_stop_flag}
use ndlcom.Encoder.{escape}
use ndlcom.Encoder.Frame.{escape-cases}
use ndlcom.Parser.{
  Parser, Round, next, returns, refuses, destroy_packet, switch, receive_byte, receive_from,
}

abbrev pub continue_with : List ℕ → ℕ → Round → Parser × ℕ
continue_with rest k (next q) = receive_from q rest k
continue_with rest k (returns q) = (q, k)
continue_with rest k (refuses q) = (q, 0)

pub receive_from-cons :
    (p : Parser) (c : ℕ) (rest : List ℕ) (n : ℕ)
    → receive_from p (c ∷ rest) n ≡ continue_with rest (n + 1) (receive_byte p c)
unfolding receive_from
receive_from-cons p c rest n = ground arith

pub receive_byte_flag : (p : Parser) → receive_byte p start_stop_flag ≡ next (destroy_packet p)
unfolding receive_byte
receive_byte_flag p = refl

receive_byte_plain :
    (p : Parser) (d : ℕ)
    → p.last_was_esc ≡ false
    → d ≢ 0x7e
    → d ≢ 0x7d
    → receive_byte p d ≡ switch p d
unfolding receive_byte
receive_byte_plain p d plain no_flag no_esc =
    rw (==_ne d 0x7e no_flag) (simp (plain, ==_ne d 0x7d no_esc))

receive_byte_esc :
    (p : Parser)
    → p.last_was_esc ≡ false
    → receive_byte p 0x7d ≡ next (record p { last_was_esc = true })
unfolding receive_byte
receive_byte_esc p plain = simp plain

receive_byte_escaped :
    (p : Parser) (c : ℕ)
    → p.last_was_esc ≡ false
    → c ≢ 0x7e
    → receive_byte (record p { last_was_esc = true }) c ≡ switch p (bit_xor c 0x20)
unfolding receive_byte
receive_byte_escaped p c plain no_flag =
    rw (==_ne c 0x7e no_flag)
      (ap (λ t. switch (record p { last_was_esc = t }) (bit_xor c 0x20)) (sym plain))

receive_from_pair :
    (p : Parser) (c d : ℕ) (rest : List ℕ) (n : ℕ)
    → p.last_was_esc ≡ false
    → c ≢ 0x7e
    → bit_xor c 0x20 ≡ d
    → receive_from p (0x7d ∷ c ∷ rest) n ≡ continue_with rest (n + 2) (switch p d)
receive_from_pair p c d rest n plain no_flag e =
    receive_from-cons p 0x7d (c ∷ rest) n
    ∙ ap (continue_with (c ∷ rest) (n + 1)) (receive_byte_esc p plain)
    ∙ receive_from-cons (record p { last_was_esc = true }) c rest (n + 1)
    ∙ ap (continue_with rest (n + 1 + 1)) (receive_byte_escaped p c plain no_flag)
    ∙ ap (λ k. continue_with rest k (switch p (bit_xor c 0x20))) (omega arith)
    ∙ ap (λ t. continue_with rest (n + 2) (switch p t)) e

-- The two ways to send a byte come to the same.
pub receive_from-escape :
    (p : Parser) (d : ℕ) (rest : List ℕ) (n : ℕ)
    → p.last_was_esc ≡ false
    → receive_from p (escape d ++ rest) n ≡ continue_with rest (n + length (escape d)) (switch p d)
receive_from-escape p d rest n plain = elim (escape-cases d) [
  | inl (e, f) ↦ rw f (receive_from_pair p 0x5d d rest n plain (omega arith) (sym e))
  | inr (inl (e, f)) ↦ rw f (receive_from_pair p 0x5e d rest n plain (omega arith) (sym e))
  | inr (inr (no_esc, no_flag, f)) ↦ rw f (
      receive_from-cons p d rest n
      ∙ ap (continue_with rest (n + 1)) (receive_byte_plain p d plain no_flag no_esc))
]
