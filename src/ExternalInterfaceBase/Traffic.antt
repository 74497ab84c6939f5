-- ===== src/ExternalInterfaceBase/Traffic.antt =====
-- What goes through an interface of src/ExternalInterfaceBase.cpp, and what is counted.
use ndlcom.Prelude.{
  not, ◌||◌, ℕ, ◌+◌, ◌%◌, ◌^◌, ◌≡◌, refl, ◌∙◌, true, Option, none, some, List, [], ◌∷◌, length,
  if◌then◌else◌, arith,
}
use ndlcom.ExternalInterfaceBase.{
  Base, Driver, note_incoming_bytes, note_outgoing_bytes, pass_on, write_wrapper, read_wrapper,
}

-- A call of one of the two wrappers.
pub data Call : Type 0 where
  writes : List ℕ → Call
  reads : ℕ → Call

-- The object and the world, with the numbers of bytes that went out and came in so far.
pub record Run (W : Type 0) : Type 0 where
  pub base : Base
  pub world : W
  pub went_out : ℕ
  pub came_in : ℕ

abbrev size_of : Option (List ℕ) → ℕ
size_of none = 0
size_of (some bytes) = length bytes

pass_on_paused :
    (b : Base) (read : Option (List ℕ))
    → b.paused ≡ true
    → ((pass_on b read).0.paused ≡ true) × (size_of (pass_on b read).1 ≡ 0)
unfolding pass_on note_incoming_bytes
pass_on_paused b none paused = (paused, refl)
pass_on_paused b (some bytes) paused = (paused, rw paused refl)

module _ {W : Type 0} (driver : Driver W) where
  -- A write counts where the driver was called and returned, a read by what the caller got.
  unfoldable pub call : Run W → Call → Run W
  call r (writes bytes) =
      let (b, returned, w) = write_wrapper driver r.base bytes r.world in
      record {
        base = b;
        world = w;
        went_out = r.went_out + (if r.base.paused || not returned then 0 else length bytes);
        came_in = r.came_in;
      }
  call r (reads count) =
      let (b, read, w) = read_wrapper driver r.base count r.world in
      record { base = b; world = w; went_out = r.went_out; came_in = r.came_in + size_of read }

  unfoldable pub call_all : Run W → List Call → Run W
  call_all r [] = r
  call_all r (c ∷ rest) = call_all (call r c) rest

  -- Every read is done, and no write.
  unfoldable pub drained : W → List Call → W
  drained w [] = w
  drained w (writes bytes ∷ rest) = drained w rest
  drained w (reads count ∷ rest) = drained (driver.read_escaped_bytes count w).1 rest

  -- The counters hold what went through.
  abbrev pub IsCounted : Run W → Type 0
  IsCounted r =
      (r.base.bytes_transmitted ≡ r.went_out % 2 ^ 64)
      × (r.base.bytes_received ≡ r.came_in % 2 ^ 64)

  call-IsCounted : (r : Run W) (c : Call) → IsCounted r → IsCounted (call r c)
  unfolding call write_wrapper read_wrapper pass_on note_incoming_bytes note_outgoing_bytes
  call-IsCounted r (writes bytes) (tx, rx) = (ground (arith, tx), ground (arith, rx))
  call-IsCounted r (reads count) (tx, rx) = (ground (arith, tx), ground (arith, rx))

  call_paused :
      (r : Run W) (c : Call)
      → r.base.paused ≡ true
      → ((call r c).base.paused ≡ true)
        × ((call r c).went_out ≡ r.went_out)
        × ((call r c).came_in ≡ r.came_in)
        × ((rest : List Call) → drained (call r c).world rest ≡ drained r.world (c ∷ rest))
  unfolding call write_wrapper read_wrapper drained
  call_paused r (writes bytes) paused =
      (rw paused refl, rw paused (omega arith), refl, λ rest. rw paused refl)
  call_paused r (reads count) paused =
      let (still, nothing) =
        pass_on_paused r.base (driver.read_escaped_bytes count r.world).0 paused in
      (still, refl, rw nothing (omega arith), λ rest. refl)

  -- While an interface is paused, however the bridge writes and reads, nothing goes out and the bridge
  -- gets nothing, and the driver is called for every read and for nothing else.
  pub call_all-drained :
      (r : Run W) (cs : List Call)
      → r.base.paused ≡ true
      → ((call_all r cs).went_out ≡ r.went_out)
        × ((call_all r cs).came_in ≡ r.came_in)
        × ((call_all r cs).world ≡ drained r.world cs)
  unfolding call_all drained
  call_all-drained r [] paused = (refl, refl, refl)
  call_all-drained r (c ∷ rest) paused =
      let (still, out, into, drains) = call_paused r c paused in
      let (outs, intos, world) = call_all-drained (call r c) rest still in
      (outs ∙ out, intos ∙ into, world ∙ drains rest)

  -- However the bridge writes and reads through an interface whose counters are right, they are right
  -- behind it: they hold, modulo 2 ^ 64, the bytes of the writes that the driver returned from, and
  -- the bytes that the bridge got.
  pub call_all-IsCounted : (r : Run W) (cs : List Call) → IsCounted r → IsCounted (call_all r cs)
  unfolding call_all
  call_all-IsCounted r [] right = right
  call_all-IsCounted r (c ∷ rest) right =
      call_all-IsCounted (call r c) rest (call-IsCounted r c right)
