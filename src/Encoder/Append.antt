-- ===== src/Encoder/Append.antt =====
-- What one call of `ndlcomEncodeAppendPayload` writes.
use ndlcom.Prelude.{
  ℕ, ◌+◌, ◌-◌, ◌*◌, ◌%◌, ◌^◌, ◌≤◌, ◌<◌, ◌≡◌, ◌∙◌, Bool-cases, inl, inr, Option, none, some, List,
  [], ◌∷◌, ◌++◌, append-nil, append_assoc, length, length-append, ltb, if◌then◌else◌, false, arith,
}
use ndlcom.Crc.{do_crc, do_crc_all}
use ndlcom.Encoder.{escape, append_loop, append_payload, Progress, room, append_at}
use ndlcom.Encoder.Frame.{escape_all, length-escape_all}

-- The checksum behind its pointer after a run of bytes.
abbrev pub crc_after : Option ℕ → List ℕ → Option ℕ
crc_after none ds = none
crc_after (some c) ds = some (do_crc_all c ds)

append_loop_lem :
    (written ds : List ℕ) (crc : Option ℕ)
    → append_loop written ds crc ≡ (written ++ escape_all ds, crc_after crc ds)
unfolding append_loop escape_all do_crc_all
append_loop_lem written [] none = rw (append-nil written)
append_loop_lem written [] (some c) = rw (append-nil written)
append_loop_lem written (d ∷ ds) none =
    rw (
      append_loop_lem (written ++ escape d) ds none,
      append_assoc written (escape d) (escape_all ds),
    )
append_loop_lem written (d ∷ ds) (some c) = rw (
  append_loop_lem (written ++ escape d) ds (some (do_crc c d)),
  append_assoc written (escape d) (escape_all ds),
)

-- With the worst-case space at hand a run of bytes is written escaped and enters the checksum,
-- unless the checksum's pointer is null; with less space nothing is written and the checksum stays.
pub append_payload_lem :
    (output_size : ℕ) (ds : List ℕ) (crc : Option ℕ)
    → 2 * length ds < 2 ^ 64
    → append_payload output_size ds crc
      ≡ (if ltb output_size (2 * length ds) then ([], crc) else (escape_all ds, crc_after crc ds))
unfolding append_payload
append_payload_lem output_size ds crc h =
    let e : 2 * length ds % 2 ^ 64 ≡ 2 * length ds = omega arith in
    rw (e, append_loop_lem [] ds crc)

pub append_payload_fits :
    (output_size : ℕ) (ds : List ℕ) (crc : Option ℕ)
    → output_size < 2 ^ 64
    → 2 * length ds ≤ output_size
    → append_payload output_size ds crc ≡ (escape_all ds, crc_after crc ds)
append_payload_fits output_size ds crc small h =
    let big : ltb output_size (2 * length ds) ≡ false = ground arith in
    append_payload_lem output_size ds crc (omega arith) ∙ rw big

-- What is written never exceeds the space, and does not depend on the checksum's pointer.
pub append_payload_bound :
    (output_size : ℕ) (ds : List ℕ) (crc : Option ℕ)
    → 2 * length ds < 2 ^ 64
    → length (append_payload output_size ds crc).0 ≤ output_size
append_payload_bound output_size ds crc h = elim (Bool-cases (ltb output_size (2 * length ds))) [
  | inl e ↦ rw (append_payload_lem output_size ds crc h, e) (omega arith)
  | inr e ↦ rw (append_payload_lem output_size ds crc h, e) (ground (arith, length-escape_all ds))
]

pub room_lem :
    (output_size : ℕ) (buffer : List ℕ)
    → output_size < 2 ^ 64
    → length buffer ≤ output_size
    → room output_size buffer ≡ output_size - length buffer
room_lem output_size buffer small h = omega arith

pub append_at_fits :
    (output_size : ℕ) (ds : List ℕ) (p : Progress)
    → output_size < 2 ^ 64
    → length p.buffer + 2 * length ds ≤ output_size
    → append_at output_size ds p
      ≡ record p { buffer = p.buffer ++ escape_all ds; crc = do_crc_all p.crc ds }
unfolding append_at
append_at_fits output_size ds p small h =
    let fits : append_payload (room output_size p.buffer) ds (some p.crc)
        ≡ (escape_all ds, some (do_crc_all p.crc ds)) =
      append_payload_fits (room output_size p.buffer) ds (some p.crc) (omega arith) (omega arith) in
    rw fits

pub append_at_bound :
    (output_size : ℕ) (ds : List ℕ) (p : Progress)
    → output_size < 2 ^ 64
    → 2 * length ds < 2 ^ 64
    → length p.buffer ≤ output_size
    → (length p.buffer ≤ length (append_at output_size ds p).buffer)
      × (length (append_at output_size ds p).buffer ≤ output_size)
unfolding append_at
append_at_bound output_size ds p small short h =
    let written : List ℕ = (append_payload (room output_size p.buffer) ds (some p.crc)).0 in
    omega (
      arith,
      append_payload_bound (room output_size p.buffer) ds (some p.crc) short,
      length-append p.buffer written,
    )
