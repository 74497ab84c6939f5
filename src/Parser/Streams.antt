-- ===== src/Parser/Streams.antt =====
-- What the packet at hand of src/Parser.c is, in terms of the bytes that arrived: an unescaping of the
-- stream that does not speak of the parser, and one byte more.
use ndlcom.Prelude.{
  ℕ, ◌≡◌, refl, sym, ap, ◌∙◌, ==_iff, Bool, Bool-cases, inl, inr, true, false, List, [], ◌∷◌, ◌++◌,
  append-nil, append_assoc, bit_xor, ◌==◌, arith,
}
use mathlib.Core.Path.{subst}
use ndlcom.Prelude.Xor.{bit_xor-lt}
use ndlcom.Crc.{IsByte, do_crc}
use ndlcom.Wire.{start_stop_flag, esc_char}
use ndlcom.Parser.{
  Parser, ParserState, mc_complete, Round, next, returns, destroy_packet, fail_crc, receive_byte,
}
use ndlcom.Parser.Invariant.{
  IsShaped, Represents, IsOpen, Feeds, grows, completes, fails, destroy_packet-Represents,
}
use ndlcom.Parser.Feed.{switch-Feeds}
use ndlcom.Parser.Run.{esc_flag-Represents}

-- The bytes on the line, the bytes that they stand for, and whether an escape byte came last.
pub data Unescapes : List ℕ → List ℕ → Bool → Type 0 where
  nothing : Unescapes [] [] false
  as_itself :
      (line xs : List ℕ) (c : ℕ)
      → Unescapes line xs false
      → (c == 0x7e) ≡ false
      → (c == 0x7d) ≡ false
      → Unescapes (line ++ c ∷ []) (xs ++ c ∷ []) false
  half : (line xs : List ℕ) → Unescapes line xs false → Unescapes (line ++ 0x7d ∷ []) xs true
  undone :
      (line xs : List ℕ) (c : ℕ)
      → Unescapes line xs true
      → (c == 0x7e) ≡ false
      → Unescapes (line ++ c ∷ []) (xs ++ bit_xor c 0x20 ∷ []) false

-- The parser stands for the packet that the last bytes of a stream are the escaped form of.
pub record Follows (p : Parser) (stream : List ℕ) : Type 0 where
  pub before : List ℕ
  pub since : List ℕ
  pub packet : List ℕ
  pub pending : Bool
  pub split : before ++ since ≡ stream
  pub unescapes : Unescapes since packet pending
  pub represents : Represents p packet
  pub flag : IsOpen p.state → p.last_was_esc ≡ pending
  pub closed : p.state ≡ mc_complete → pending ≡ false

pub data Step (stream : List ℕ) : Round → Type 0 where
  goes_on : (q : Parser) → IsOpen q.state → Follows q stream → Step stream (next q)
  stops : (q : Parser) → q.state ≡ mc_complete → Follows q stream → Step stream (returns q)

-- A parser that starts a packet behind this stream.
pub starts : (p : Parser) (stream : List ℕ) → IsShaped p → Follows (destroy_packet p) stream
unfolding destroy_packet
starts p stream v = record {
  before = stream;
  since = [];
  packet = [];
  pending = false;
  split = append-nil stream;
  unescapes = nothing;
  represents = unfold destroy_packet in destroy_packet-Represents p v;
  flag = λ o. refl;
  closed = λ e. refl;
}

pub IsOpen-destroy : (p : Parser) → IsOpen (destroy_packet p).state
unfolding destroy_packet
IsOpen-destroy p = tt

open_not_complete : (s : ParserState) → IsOpen s → s ≡ mc_complete → ⊥
open_not_complete s o e = subst IsOpen e o

-- One more byte of the packet, in its escaped form.
continues :
    (p : Parser) (before since xs more : List ℕ) (d : ℕ) {r : Round}
    → p.last_was_esc ≡ false
    → IsShaped p
    → Unescapes (since ++ more) (xs ++ d ∷ []) false
    → Feeds p xs d r
    → Step (before ++ (since ++ more)) r
continues p before since xs more d plain v u (grows q w is_open same fails_same) =
    goes_on q is_open (record {
      before = before;
      since = since ++ more;
      packet = xs ++ d ∷ [];
      pending = false;
      split = refl;
      unescapes = u;
      represents = w;
      flag = λ o. same ∙ plain;
      closed = λ e. refl;
    })
continues p before since xs more d plain v u (completes q w done fails_same) =
    stops q done (record {
      before = before;
      since = since ++ more;
      packet = xs ++ d ∷ [];
      pending = false;
      split = refl;
      unescapes = u;
      represents = w;
      flag = λ o. absurd (open_not_complete q.state o done);
      closed = λ e. refl;
    })
continues p before since xs more d plain v u (fails q e at_second bad) = rw e (
    restarts (record p { data_crc = do_crc p.data_crc d })
      (record { raw_size = v.raw_size; payload_size = v.payload_size; raw_bytes = v.raw_bytes }))
  where
    restarts : (o : Parser) → IsShaped o → Step (before ++ (since ++ more)) (next (fail_crc o))
    restarts o w =
        unfold fail_crc in
        goes_on _ (IsOpen-destroy _) (
          starts _ (before ++ (since ++ more)) (record {
            raw_size = w.raw_size;
            payload_size = w.payload_size;
            raw_bytes = w.raw_bytes;
          }))

-- The next byte on the line, when a packet is being read.
pub receive_byte-Step :
    (p : Parser) (c : ℕ) (stream : List ℕ)
    → IsOpen p.state
    → Follows p stream
    → IsByte c
    → Step (stream ++ c ∷ []) (receive_byte p c)
unfolding receive_byte
receive_byte-Step p c stream is_open f b = subst (λ t. Step t (receive_byte p c)) longer go
  where
    longer : f.before ++ (f.since ++ c ∷ []) ≡ stream ++ c ∷ []
    longer = sym (append_assoc f.before f.since (c ∷ [])) ∙ ap (λ t. t ++ c ∷ []) f.split

    pending_is : (t : Bool) → p.last_was_esc ≡ t → Unescapes f.since f.packet t
    pending_is t e = subst (Unescapes f.since f.packet) (sym (f.flag is_open) ∙ e) f.unescapes

    go : Step (f.before ++ (f.since ++ c ∷ [])) (receive_byte p c)
    go = elim (Bool-cases (c == start_stop_flag)) [
      | inl flag ↦ rw flag (
          goes_on (destroy_packet p) (IsOpen-destroy p)
            (starts p (f.before ++ (f.since ++ c ∷ [])) f.represents.shape))
      | inr no_flag ↦ elim (Bool-cases p.last_was_esc) [
        | inl escaped ↦ rw no_flag (
            simp escaped (
              continues (record p { last_was_esc = false }) f.before f.since f.packet (c ∷ [])
                (bit_xor c 0x20) refl (esc_flag-Represents p false f.packet f.represents).shape
                (undone f.since f.packet c (pending_is true escaped) no_flag)
                (switch-Feeds (record p { last_was_esc = false }) f.packet (bit_xor c 0x20)
                  (esc_flag-Represents p false f.packet f.represents) is_open
                  (bit_xor-lt 8 c 0x20 b (omega arith)))))
        | inr plain ↦ elim (Bool-cases (c == esc_char)) [
          | inl esc ↦ rw no_flag (
              simp (plain, esc)
                (goes_on (record p { last_was_esc = true }) is_open
                  (record {
                    before = f.before;
                    since = f.since ++ c ∷ [];
                    packet = f.packet;
                    pending = true;
                    split = refl;
                    unescapes =
                        rw ((==_iff c 0x7d).0 esc) (half f.since f.packet (pending_is false plain));
                    represents = esc_flag-Represents p true f.packet f.represents;
                    flag = λ o. refl;
                    closed = λ e. absurd (open_not_complete p.state is_open e);
                  })))
          | inr data_byte ↦ rw no_flag (
              simp (plain, data_byte)
                (continues p f.before f.since f.packet (c ∷ []) c plain f.represents.shape
                  (as_itself f.since f.packet c (pending_is false plain) no_flag data_byte)
                  (switch-Feeds p f.packet c f.represents is_open b)))
        ]
      ]
    ]
