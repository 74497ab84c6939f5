-- ===== src/Parser/Progress.antt =====
-- How many bytes `ndlcomParserReceive` reads, and that pieces of the stream may be read one by one.
use ndlcom.Prelude.{
  ℕ, ◌+◌, ◌≤◌, ◌≡◌, refl, ap, ◌∙◌, Bool-cases, inl, inr, true, false, List, [], ◌∷◌, length,
  bit_xor, ◌==◌, arith,
}
use ndlcom.Wire.{start_stop_flag, esc_char}
use ndlcom.Parser.{
  Parser, ParserState, mc_error, mc_wait_header, mc_wait_data, mc_wait_first_crc_byte,
  mc_wait_second_crc_byte, mc_complete, mc_number_of_states, Round, next, returns, refuses,
  destroy_packet, after_switch, switch_on, receive_byte, receive_from, receive, is_complete,
  has_packet,
}

-- A round that starts without a complete packet ends the call exactly when it completes one.
abbrev Ends : Round → Type 0
Ends (next q) = is_complete q.state ≡ false
Ends (returns q) = is_complete q.state ≡ true
Ends (refuses q) = ⊥

after_switch-Ends : (p : Parser) → Ends (after_switch p)
unfolding after_switch
after_switch-Ends p = elim (Bool-cases (is_complete p.state)) [ inl e ↦ rw e e | inr e ↦ rw e e ]

switch_on-Ends :
    (s : ParserState) (p : Parser) (d : ℕ) → is_complete s ≡ false → Ends (switch_on s p d)
unfolding switch_on
switch_on-Ends mc_error p d e = after_switch-Ends _
switch_on-Ends mc_wait_header p d e = after_switch-Ends _
switch_on-Ends mc_wait_data p d e = after_switch-Ends _
switch_on-Ends mc_wait_first_crc_byte p d e = after_switch-Ends _
switch_on-Ends mc_wait_second_crc_byte p d e = after_switch-Ends _
switch_on-Ends mc_complete p d e = cc
switch_on-Ends mc_number_of_states p d e = after_switch-Ends _

receive_byte-Ends : (p : Parser) (c : ℕ) → has_packet p ≡ false → Ends (receive_byte p c)
unfolding receive_byte has_packet destroy_packet
receive_byte-Ends p c e = elim (Bool-cases (c == start_stop_flag)) [
  | inl flag ↦ rw flag refl
  | inr no_flag ↦ elim (Bool-cases p.last_was_esc) [
    | inl escaped ↦ rw no_flag (
        simp escaped
          (switch_on-Ends p.state (record p { last_was_esc = false }) (bit_xor c 0x20) e))
    | inr plain ↦ elim (Bool-cases (c == esc_char)) [
      | inl esc ↦ rw no_flag (simp (plain, esc) e)
      | inr data_byte ↦ rw no_flag (simp (plain, data_byte) (switch_on-Ends p.state p c e))
    ]
  ]
]

-- What a call that starts without a complete packet returns, `n` bytes into the stream.
abbrev Reads : List ℕ → ℕ → Parser × ℕ → Type 0
Reads bytes n (q, m) =
    (n ≤ m)
    × (m ≤ n + length bytes)
    × (has_packet q ≡ false → m ≡ n + length bytes)
    × (has_packet q ≡ true → n + 1 ≤ m)

receive_from-Reads :
    (p : Parser) (bytes : List ℕ) (n : ℕ)
    → has_packet p ≡ false
    → Reads bytes n (receive_from p bytes n)
unfolding receive_from has_packet
receive_from-Reads p [] n e = (omega arith, omega arith, λ f. omega arith, λ f. cc)
receive_from-Reads p (c ∷ rest) n e =
    go (receive_byte p c) (receive_byte-Ends p c e) (λ q f. receive_from-Reads q rest (n + 1) f)
  where
    go :
        (r : Round)
        → Ends r
        → ((q : Parser) → has_packet q ≡ false → Reads rest (n + 1) (receive_from q rest (n + 1)))
        → Reads (c ∷ rest) n (elim r [
          | next q ↦ receive_from q rest (n + 1)
          | returns q ↦ (q, n + 1)
          | refuses q ↦ (q, 0)
        ])
    go (next q) f more =
        let (a, b, full, done) = more q f in
        (omega arith, omega arith, λ g. omega (arith, full g), λ g. omega (arith, done g))
    go (returns q) f more = (omega arith, omega arith, λ g. cc, λ g. omega arith)
    go (refuses q) f more = absurd f

-- A call that starts without a complete packet reads no more bytes than it is given; all of them
-- unless a packet was completed, and at least one in any case, if there is one.
pub receive_progress :
    (p : Parser) (bytes : List ℕ)
    → has_packet p ≡ false
    → ((receive p bytes).1 ≤ length bytes)
      × (has_packet (receive p bytes).0 ≡ false → (receive p bytes).1 ≡ length bytes)
      × (1 ≤ length bytes → 1 ≤ (receive p bytes).1)
unfolding receive
receive_progress p bytes e =
    let (a, b, full, done) = receive_from-Reads p bytes 0 e in
    (
      omega arith,
      λ f. omega (arith, full f),
      λ some_byte. elim (Bool-cases (has_packet (receive_from p bytes 0).0)) [
        | inl f ↦ omega (arith, done f)
        | inr f ↦ omega (arith, full f)
      ],
    )

-- The bytes read before the call are only added.
pub receive_from-shift :
    (p : Parser) (bytes : List ℕ) (m n : ℕ)
    → has_packet p ≡ false
    → receive_from p bytes (m + n) ≡ ((receive_from p bytes n).0, m + (receive_from p bytes n).1)
unfolding receive_from has_packet
receive_from-shift p [] m n e = refl
receive_from-shift p (c ∷ rest) m n e =
    go (receive_byte p c) (receive_byte-Ends p c e) (λ q g. receive_from-shift q rest m (n + 1) g)
  where
    after : ℕ → Round → Parser × ℕ
    after k r = elim r [
      | next q ↦ receive_from q rest (k + 1)
      | returns q ↦ (q, k + 1)
      | refuses q ↦ (q, 0)
    ]

    go :
        (r : Round)
        → Ends r
        → ((q : Parser)
            → has_packet q ≡ false
            → receive_from q rest (m + (n + 1))
              ≡ ((receive_from q rest (n + 1)).0, m + (receive_from q rest (n + 1)).1))
        → after (m + n) r ≡ ((after n r).0, m + (after n r).1)
    go (next q) g more = ap (receive_from q rest) (omega arith) ∙ more q g
    go (returns q) g more = ap (λ k. let r : Parser × ℕ = (q, k) in r) (omega arith)
    go (refuses q) g more = absurd g
