-- ===== src/Parser/Run.antt =====
-- `ndlcomParserReceive` on any bytes: the invariant, the number of bytes read, and reading in pieces.
use ndlcom.Prelude.{
  ℕ, ◌+◌, ◌%◌, ◌/◌, ◌≡◌, refl, sym, ap, ap₂, ◌∙◌, Bool, Bool-cases, inl, inr, true, false, List, [],
  ◌∷◌, ◌++◌, length, All, bit_xor, ◌==◌, arith,
}
use mathlib.Core.Path.{subst}
use ndlcom.Prelude.Xor.{bit_xor-lt}
use ndlcom.Crc.{IsByte, do_crc_all, crc_initial_value}
use ndlcom.Crc.Residue.{do_crc_all-good_iff}
use ndlcom.Wire.{start_stop_flag, esc_char}
use ndlcom.Parser.{
  Parser, ParserState, mc_error, mc_wait_header, mc_wait_data, mc_wait_first_crc_byte,
  mc_wait_second_crc_byte, mc_complete, mc_number_of_states, Round, next, returns, refuses,
  destroy_packet, fail_crc, after_switch, switch_on, switch, receive_byte, receive_from, receive,
  is_complete, has_packet,
}
use ndlcom.Parser.Invariant.{
  IsShaped, announced, stored, Holds, Represents, IsOpen, Feeds, grows, completes, fails,
  destroy_packet-Represents,
}
use ndlcom.Parser.Feed.{switch-Feeds}

-- The parser stands for some bytes.
abbrev pub IsValid : Parser → Type 0
IsValid p = (xs : List ℕ) × Represents p xs

abbrev pub parser_of : Round → Parser
parser_of (next q) = q
parser_of (returns q) = q
parser_of (refuses q) = q

IsShaped-fields : {p q : Parser} → IsShaped p → p.raw ≡ q.raw → p.payload ≡ q.payload → IsShaped q
IsShaped-fields v e f = record {
  raw_size = ap (λ t. length t) (sym e) ∙ v.raw_size;
  payload_size = ap (λ t. length t) (sym f) ∙ v.payload_size;
  raw_bytes = subst (All IsByte) e v.raw_bytes;
}

fail_crc-IsValid : (p : Parser) → IsShaped p → IsValid (fail_crc p)
unfolding fail_crc
fail_crc-IsValid p v = ([], destroy_packet-Represents _ (IsShaped-fields v refl refl))

Feeds-IsValid :
    {p : Parser} {xs : List ℕ} {d : ℕ} {r : Round}
    → IsShaped p
    → Feeds p xs d r
    → IsValid (parser_of r)
Feeds-IsValid v (grows q r is_open same fails_same) = (_, r)
Feeds-IsValid v (completes q r is_complete fails_same) = (_, r)
Feeds-IsValid v (fails q e at_second bad) = rw e (fail_crc-IsValid _ (IsShaped-fields v refl refl))

after_switch-destroy : (p : Parser) → after_switch (destroy_packet p) ≡ next (destroy_packet p)
unfolding after_switch destroy_packet
after_switch-destroy p = refl

switch_on-IsValid :
    (s : ParserState) (p : Parser) (xs : List ℕ) (d : ℕ)
    → p.state ≡ s
    → Represents p xs
    → IsByte d
    → (IsOpen p.state → Feeds p xs d (switch_on s p d))
    → IsValid (parser_of (switch_on s p d))
unfolding switch_on
switch_on-IsValid mc_wait_header p xs d e r b feeds =
    Feeds-IsValid r.shape (feeds (subst IsOpen (sym e) tt))
switch_on-IsValid mc_wait_data p xs d e r b feeds =
    Feeds-IsValid r.shape (feeds (subst IsOpen (sym e) tt))
switch_on-IsValid mc_wait_first_crc_byte p xs d e r b feeds =
    Feeds-IsValid r.shape (feeds (subst IsOpen (sym e) tt))
switch_on-IsValid mc_wait_second_crc_byte p xs d e r b feeds =
    Feeds-IsValid r.shape (feeds (subst IsOpen (sym e) tt))
switch_on-IsValid mc_complete p xs d e r b feeds = (xs, r)
switch_on-IsValid mc_error p xs d e r b feeds =
    rw (after_switch-destroy p) ([], destroy_packet-Represents p r.shape)
switch_on-IsValid mc_number_of_states p xs d e r b feeds =
    rw (after_switch-destroy p) ([], destroy_packet-Represents p r.shape)

switch-IsValid : (p : Parser) (d : ℕ) → IsValid p → IsByte d → IsValid (parser_of (switch p d))
switch-IsValid p d (xs, r) b =
    switch_on-IsValid p.state p xs d refl r b (λ is_open. switch-Feeds p xs d r is_open b)

-- The invariant does not speak of the escape flag.
Holds-esc_flag :
    (s : ParserState) (p : Parser) (esc : Bool) (xs : List ℕ)
    → Holds s p xs
    → Holds s (record p { last_was_esc = esc }) xs
Holds-esc_flag mc_wait_header p esc xs h = h
Holds-esc_flag mc_wait_data p esc xs h = h
Holds-esc_flag mc_wait_first_crc_byte p esc xs h = h
Holds-esc_flag mc_wait_second_crc_byte p esc xs h = h
Holds-esc_flag mc_complete p esc xs h = h
Holds-esc_flag mc_error p esc xs h = h
Holds-esc_flag mc_number_of_states p esc xs h = h

pub esc_flag-Represents :
    (p : Parser) (esc : Bool) (xs : List ℕ)
    → Represents p xs
    → Represents (record p { last_was_esc = esc }) xs
esc_flag-Represents p esc xs r = record {
  shape = IsShaped-fields r.shape refl refl;
  holds = Holds-esc_flag p.state p esc xs r.holds;
}

receive_byte-IsValid :
    (p : Parser) (c : ℕ) → IsValid p → IsByte c → IsValid (parser_of (receive_byte p c))
unfolding receive_byte
receive_byte-IsValid p c (xs, r) b = elim (Bool-cases (c == start_stop_flag)) [
  | inl flag ↦ rw flag ([], destroy_packet-Represents p r.shape)
  | inr no_flag ↦ elim (Bool-cases p.last_was_esc) [
    | inl escaped ↦ rw no_flag (
        simp escaped (
          switch-IsValid (record p { last_was_esc = false }) (bit_xor c 0x20)
            (xs, esc_flag-Represents p false xs r) (bit_xor-lt 8 c 0x20 b (omega arith))))
    | inr plain ↦ elim (Bool-cases (c == esc_char)) [
      | inl esc ↦ rw no_flag (simp (plain, esc) (xs, esc_flag-Represents p true xs r))
      | inr data_byte ↦ rw no_flag (simp (plain, data_byte) (switch-IsValid p c (xs, r) b))
    ]
  ]
]

-- Whatever bytes arrive, in whatever pieces: the write positions stay inside the two arrays, the
-- arrays hold the unescaped bytes of the packet at hand, and the checksum is theirs.
pub receive_from-IsValid :
    (p : Parser) (bytes : List ℕ) (n : ℕ)
    → IsValid p
    → All IsByte bytes
    → IsValid (receive_from p bytes n).0
unfolding receive_from
receive_from-IsValid p [] n v b = v
receive_from-IsValid p (c ∷ rest) n v b =
    go (receive_byte p c) (receive_byte-IsValid p c v b.0)
      (λ q w. receive_from-IsValid q rest (n + 1) w b.1)
  where
    go :
        (r : Round)
        → IsValid (parser_of r)
        → ((q : Parser) → IsValid q → IsValid (receive_from q rest (n + 1)).0)
        → IsValid
            (let out : Parser × ℕ = elim r [
              | next q ↦ receive_from q rest (n + 1)
              | returns q ↦ (q, n + 1)
              | refuses q ↦ (q, 0)
            ] in
              out).0
    go (next q) w more = more q w
    go (returns q) w more = w
    go (refuses q) w more = w

-- From any valid parser, for any bytes in whatever pieces they arrive: the write positions stay
-- inside the two arrays, which hold the unescaped bytes of the packet at hand, and the checksum is
-- theirs.
pub receive-IsValid :
    (p : Parser) (bytes : List ℕ) → IsValid p → All IsByte bytes → IsValid (receive p bytes).0
unfolding receive
receive-IsValid p bytes v b = receive_from-IsValid p bytes 0 v b

-- A packet that a valid parser hands out has as many payload bytes as its header says, and the two
-- bytes that followed them were the checksum over header and payload, low byte first.
pub has_packet-checksum :
    (p : Parser) (xs : List ℕ)
    → Represents p xs
    → has_packet p ≡ true
    → (p.data_write_pos ≡ announced p)
      × (xs
          ≡ stored p
            ++ do_crc_all crc_initial_value (stored p) % 256
              ∷ do_crc_all crc_initial_value (stored p) / 256
              ∷ [])
unfolding has_packet
has_packet-checksum p xs r done = go p.state done r.holds
  where
    go :
        (s : ParserState)
        → is_complete s ≡ true
        → Holds s p xs
        → (p.data_write_pos ≡ announced p)
          × (xs
              ≡ stored p
                ++ do_crc_all crc_initial_value (stored p) % 256
                  ∷ do_crc_all crc_initial_value (stored p) / 256
                  ∷ [])
    go mc_complete e (x, y, hx, hy, at_end, content, good) =
        let split =
          (do_crc_all-good_iff crc_initial_value (stored p) x y (omega arith) hx hy).0
            (ap (do_crc_all crc_initial_value) content ∙ good) in
        (at_end, sym content ∙ ap₂ (λ a b. stored p ++ a ∷ b ∷ []) split.0 split.1)
    go mc_error e h = cc
    go mc_wait_header e h = cc
    go mc_wait_data e h = cc
    go mc_wait_first_crc_byte e h = cc
    go mc_wait_second_crc_byte e h = cc
    go mc_number_of_states e h = cc
