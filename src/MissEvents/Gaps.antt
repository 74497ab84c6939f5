-- ===== src/MissEvents/Gaps.antt =====
-- The miss events of src/BridgeHandler.cpp against the gaps in the counters of the packets.
use ndlcom.Prelude.{
  ℕ, ◌+◌, ◌*◌, ◌%◌, ◌^◌, ◌<◌, ◌≡◌, ◌≢◌, refl, ap, ◌∙◌, inl, inr, Bool-cases, Bool, true, ◌&&◌, ◌==◌,
  ==_iff, List, [], ◌∷◌, not, if◌then◌else◌, All, arith,
}
use ndlcom.Prelude.Or.{bit_or-shifted}
use ndlcom.Wire.{Header}
use ndlcom.MissEvents.{MissEvents, miss_events_init, pair_index, note_counter, is_miss, handle}

-- How many of these counters do not follow the one before, the first being held against `expected`.
unfoldable pub gaps_from : ℕ → List ℕ → ℕ
gaps_from expected [] = 0
gaps_from expected (c ∷ rest) = (if expected == c then 0 else 1) + gaps_from ((c + 1) % 256) rest

-- With nothing to hold the first against.
unfoldable pub gaps : List ℕ → ℕ
gaps [] = 0
gaps (c ∷ rest) = gaps_from ((c + 1) % 256) rest

abbrev pub is_between : ℕ → ℕ → Header → Bool
is_between s r h = (h.sender_id == s) && (h.receiver_id == r)

-- The counters of the packets from one device to another.
unfoldable pub counters_between : ℕ → ℕ → List Header → List ℕ
counters_between s r [] = []
counters_between s r (h ∷ rest) =
    if is_between s r h then h.counter ∷ counters_between s r rest else counters_between s r rest

unfoldable pub handle_headers : MissEvents → List Header → MissEvents
handle_headers m [] = m
handle_headers m (h ∷ rest) = handle_headers (handle m h) rest

abbrev pub HasByteIds : Header → Type 0
HasByteIds h = (h.sender_id < 256) × (h.receiver_id < 256)

pair_index-sum : (s r : ℕ) → r < 256 → pair_index s r ≡ s * 256 + r
pair_index-sum s r small = bit_or-shifted 8 s r small

same_index :
    (s r : ℕ) (h : Header)
    → r < 256
    → h.receiver_id < 256
    → (pair_index s r == pair_index h.sender_id h.receiver_id) ≡ is_between s r h
same_index s r h small byte =
    rw (pair_index-sum s r small, pair_index-sum h.sender_id h.receiver_id byte) (ground arith)

-- What is kept for one pair of devices.
pub record Entry : Type 0 where
  pub seen : Bool
  pub expected : ℕ
  pub misses : ℕ

abbrev entry : MissEvents → ℕ → ℕ → Entry
entry m s r = record {
  seen = m.already_seen (pair_index s r);
  expected = m.expected_next_packet_counter s r;
  misses = m.number_of_packet_miss_events s r;
}

-- What one packet between them does to it.
abbrev step_entry : Entry → ℕ → Entry
step_entry e c = record {
  seen = true;
  expected = (c + 1) % 256;
  misses = if e.seen && not (e.expected == c) then (e.misses + 1) % 2 ^ 32 else e.misses;
}

module _ (m : MissEvents) (s r : ℕ) (h : Header) (named : s ≢ 255) (small : r < 256)
    (byte : h.receiver_id < 256) where
  handle-seen :
      (entry (handle m h) s r).seen ≡ (if is_between s r h then true else (entry m s r).seen)
  unfolding handle is_miss note_counter
  handle-seen = ground (arith, named, same_index s r h small byte)

  handle-expected :
      (entry (handle m h) s r).expected
      ≡ (if is_between s r h then (h.counter + 1) % 256 else (entry m s r).expected)
  unfolding handle is_miss note_counter
  handle-expected = ground (arith, named)

  handle-misses : (entry (handle m h) s r).misses ≡ (
      if is_between s r h
      then (step_entry (entry m s r) h.counter).misses
      else (entry m s r).misses)
  unfolding handle is_miss note_counter
  handle-misses = ground (arith, named)

  handle-entry :
      entry (handle m h) s r
      ≡ (if is_between s r h then step_entry (entry m s r) h.counter else entry m s r)
  handle-entry = elim (Bool-cases (is_between s r h)) [
    | inl ours ↦ rw (ours, handle-seen, handle-expected, handle-misses, ours) refl
    | inr others ↦ rw (others, handle-seen, handle-expected, handle-misses, others) refl
  ]

abbrev pub gaps_behind : Entry → List ℕ → ℕ
gaps_behind e cs = if e.seen then gaps_from e.expected cs else gaps cs

step_entry-gaps :
    (e : Entry) (c : ℕ) (cs : List ℕ)
    → ((step_entry e c).misses + gaps_behind (step_entry e c) cs) % 2 ^ 32
      ≡ (e.misses + gaps_behind e (c ∷ cs)) % 2 ^ 32
unfolding gaps gaps_from
step_entry-gaps e c cs = ground arith

gaps_behind-nil : (e : Entry) → gaps_behind e [] ≡ 0
unfolding gaps gaps_from
gaps_behind-nil e = ground arith

abbrev total : Entry → List ℕ → ℕ
total e cs = (e.misses + gaps_behind e cs) % 2 ^ 32

handle-bound :
    (m : MissEvents) (s r : ℕ) (h : Header)
    → s ≢ 255
    → r < 256
    → h.receiver_id < 256
    → (entry m s r).misses < 2 ^ 32
    → (entry (handle m h) s r).misses < 2 ^ 32
handle-bound m s r h named small byte bound = ground (arith, handle-misses m s r h named small byte)

handle_headers-total :
    (hs : List Header) (m : MissEvents) (s r : ℕ)
    → s ≢ 255
    → r < 256
    → All HasByteIds hs
    → (entry m s r).misses < 2 ^ 32
    → (entry (handle_headers m hs) s r).misses ≡ total (entry m s r) (counters_between s r hs)
unfolding handle_headers counters_between
handle_headers-total [] m s r named small all bound = omega (arith, gaps_behind-nil (entry m s r))
handle_headers-total (h ∷ rest) m s r named small ((sender, receiver), all) bound =
    let cs = counters_between s r rest in
    let stepped = handle-entry m s r h named small receiver in
    let after =
      handle_headers-total rest (handle m h) s r named small all
        (handle-bound m s r h named small receiver bound) in
    elim (Bool-cases (is_between s r h)) [
      | inl ours ↦ rw ours (
          after
          ∙ ap (λ e. total e cs) (simp ours at stepped)
          ∙ step_entry-gaps (entry m s r) h.counter cs)
      | inr others ↦ rw others (after ∙ ap (λ e. total e cs) (simp others at stepped))
    ]

handle-unnamed :
    (m : MissEvents) (r : ℕ) (h : Header)
    → (handle m h).number_of_packet_miss_events 255 r ≡ m.number_of_packet_miss_events 255 r
unfolding handle is_miss note_counter
handle-unnamed m r h = ground arith

handle_headers-unnamed :
    (hs : List Header) (m : MissEvents) (r : ℕ)
    → (handle_headers m hs).number_of_packet_miss_events 255 r
      ≡ m.number_of_packet_miss_events 255 r
unfolding handle_headers
handle_headers-unnamed [] m r = refl
handle_headers-unnamed (h ∷ rest) m r =
    handle_headers-unnamed rest (handle m h) r ∙ handle-unnamed m r h

-- After any packets with ids of 8 bits since the construction, the number that is kept for a sender
-- and a receiver is the number of gaps, modulo 2 ^ 32, in the counters of the packets between them: of
-- packets whose counter does not follow that of the packet before, modulo 256, the first packet not
-- counted; and 0 for a sender with the id of broadcasts.
pub handle_headers-gaps :
    (hs : List Header) (s r : ℕ)
    → r < 256
    → All HasByteIds hs
    → (handle_headers miss_events_init hs).number_of_packet_miss_events s r
      ≡ (if s == 255 then 0 else gaps (counters_between s r hs) % 2 ^ 32)
unfolding miss_events_init
handle_headers-gaps hs s r small all = elim (Bool-cases (s == 255)) [
  | inl unnamed ↦
      rw (unnamed, (==_iff s 255).0 unnamed) (handle_headers-unnamed hs miss_events_init r)
  | inr named ↦ rw named (
      handle_headers-total hs miss_events_init s r (λ e. ground arith) small all (omega arith)
      ∙ omega arith)
]
