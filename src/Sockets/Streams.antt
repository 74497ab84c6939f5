-- ===== src/Sockets/Streams.antt =====
-- Writing to a TCP or UDP socket of src/ExternalInterface.cpp: what arrives on the other side.
use mathlib.Core.Option
use ndlcom.Prelude.{
  ◌⊎◌, ℕ, zero, suc, ◌+◌, ◌<◌, ◌≤◌, ◌≡◌, refl, sym, ap, ◌∙◌, inl, inr, Bool-cases, Bool, true,
  false, ltb, none, some, Option, List, [], ◌∷◌, ◌++◌, length, take, drop, append_assoc,
  length-drop, All, arith,
}
use ndlcom.Sockets.{
  Answer, takes, interrupted, broken_pipe, failed, Written, returns, ahead_of, send_loop, tcp_write,
  udp_write,
}

-- The system takes at least one byte, or is interrupted by a signal.
abbrev pub IsProgress : Answer → Type 0
IsProgress (takes n) = 1 ≤ n
IsProgress interrupted = Unit
IsProgress _ = ⊥

-- How often it takes something.
unfoldable pub takings : List Answer → ℕ
takings [] = 0
takings (takes n ∷ rest) = 1 + takings rest
takings (_ ∷ rest) = takings rest

pub drop_all : (n : ℕ) (xs : List ℕ) → length xs ≤ n → drop n xs ≡ []
drop_all zero [] h = refl
drop_all zero (x ∷ xs) h = absurd (omega arith)
drop_all (suc n) [] h = refl
drop_all (suc n) (x ∷ xs) h = drop_all n xs (omega arith)

drop-sum : (m n : ℕ) (xs : List ℕ) → drop (m + n) xs ≡ drop n (drop m xs)
drop-sum zero n xs = let e : 0 + n ≡ n = omega arith in ap (λ k. drop k xs) e
drop-sum (suc m) n [] =
    let e : suc m + n ≡ suc (m + n) = omega arith in
    ap (λ k. drop k []) e ∙ sym (drop_all n [] (omega arith))
drop-sum (suc m) n (x ∷ xs) =
    let e : suc m + n ≡ suc (m + n) = omega arith in ap (λ k. drop k (x ∷ xs)) e ∙ drop-sum m n xs

take_then_drop : (n : ℕ) (xs : List ℕ) → take n xs ++ drop (length (take n xs)) xs ≡ xs
take_then_drop zero xs = refl
take_then_drop (suc n) [] = refl
take_then_drop (suc n) (x ∷ xs) = ap (◌∷◌ x) (take_then_drop n xs)

length-take_bounds :
    (n : ℕ) (xs : List ℕ)
    → length (take n xs) ≤ length xs
      × length (take n xs) ≤ n
      × (1 ≤ n → 1 ≤ length xs → 1 ≤ length (take n xs))
length-take_bounds zero xs = (omega arith, omega arith, λ h k. absurd (omega arith))
length-take_bounds (suc n) [] = (omega arith, omega arith, λ h k. absurd (omega arith))
length-take_bounds (suc n) (x ∷ xs) =
    let (short, few, some_left) = length-take_bounds n xs in
    (omega arith, omega arith, λ h k. omega arith)

-- One piece more, and where the loop stands behind it.
pub next_piece :
    (n m : ℕ) (buf : List ℕ)
    → m < length buf
    → 1 ≤ n
    → (let sent = take n (drop m buf) in
        (sent ++ drop (m + length sent) buf ≡ drop m buf)
        × (m + length sent ≤ length buf)
        × (1 ≤ length sent)
        × (length sent ≤ n))
next_piece n m buf left some_taken =
    let asked = drop m buf in
    let sent = take n asked in
    let size : length asked + m ≡ length buf = length-drop m buf (omega arith) in
    let (short, few, one) = length-take_bounds n asked in
    (
      ap (λ ys. sent ++ ys) (drop-sum m (length sent) buf) ∙ take_then_drop n asked,
      omega arith,
      one some_taken (omega arith),
      few,
    )

-- The loop is over: nothing is left.
abbrev pub all_of : List ℕ → Option (Written (List ℕ))
all_of xs = some (record { wrote = xs; returned = true })

nothing_left :
    (m : ℕ) (buf : List ℕ) → ltb m (length buf) ≡ false → returns true ≡ all_of (drop m buf)
nothing_left m buf over = ap all_of (sym (drop_all m buf (ground arith)))

send_loop_enough :
    (ignores : Bool) (answers : List Answer) (buf : List ℕ) (m : ℕ)
    → All IsProgress answers
    → m ≤ length buf
    → length buf ≤ m + takings answers
    → send_loop ignores answers buf m ≡ all_of (drop m buf)
unfolding send_loop takings
send_loop_enough ignores [] buf m progress within enough =
    let over : ltb m (length buf) ≡ false = ground arith in rw over (nothing_left m buf over)
send_loop_enough ignores (takes n ∷ answers) buf m (one, progress) within enough =
    elim (Bool-cases (ltb m (length buf))) [
      | inl left ↦
          let (whole, on, some_sent, few) = next_piece n m buf (ground arith) one in
          let sent = take n (drop m buf) in
          rw
            (left, send_loop_enough ignores answers buf (m + length sent) progress on (omega arith))
            (ap all_of whole)
      | inr over ↦ rw over (nothing_left m buf over)
    ]
send_loop_enough ignores (interrupted ∷ answers) buf m (none_taken, progress) within enough =
    elim (Bool-cases (ltb m (length buf))) [
      | inl left ↦ rw left (send_loop_enough ignores answers buf m progress within enough)
      | inr over ↦ rw over (nothing_left m buf over)
    ]
send_loop_enough ignores (broken_pipe ∷ answers) buf m (no_way, progress) within enough =
    absurd no_way
send_loop_enough ignores (failed ∷ answers) buf m (no_way, progress) within enough = absurd no_way

-- While the system takes at least one byte at each call or is interrupted by a signal, and it takes
-- something at least as often as there are bytes: both sockets write every byte, once and in order,
-- and the function returns.
pub tcp_write-takes :
    (answers : List Answer) (buf : List ℕ)
    → All IsProgress answers
    → length buf ≤ takings answers
    → (tcp_write answers buf ≡ all_of buf) × (udp_write answers buf ≡ all_of buf)
unfolding tcp_write udp_write
tcp_write-takes answers buf progress enough = (
  send_loop_enough false answers buf 0 progress (omega arith) (omega arith),
  send_loop_enough true answers buf 0 progress (omega arith) (omega arith),
)

-- Bytes that are not written are missing at the end, and then the function has thrown.
Prefix : List ℕ → Written (List ℕ) → Type 0
Prefix asked w =
    (missing : List ℕ) × (w.wrote ++ missing ≡ asked) × ((missing ≡ []) ⊎ (w.returned ≡ false))

over-Prefix :
    (m : ℕ) (buf : List ℕ) (w : Written (List ℕ))
    → ltb m (length buf) ≡ false
    → returns true ≡ some w
    → Prefix (drop m buf) w
unfolding Prefix
over-Prefix m buf w over e =
    let is_w = Option.some-injective _ _ e in
    let nothing : drop m buf ≡ [] = drop_all m buf (ground arith) in
    ([], ap (λ v. v.wrote ++ []) (sym is_w) ∙ sym nothing, inl refl)

thrown-Prefix : (asked : List ℕ) (w : Written (List ℕ)) → returns false ≡ some w → Prefix asked w
unfolding Prefix
thrown-Prefix asked w e =
    let is_w = Option.some-injective _ _ e in
    (asked, ap (λ v. v.wrote ++ asked) (sym is_w), inr (ap (λ v. v.returned) (sym is_w)))

ahead_of-Prefix :
    (sent asked after : List ℕ) (o : Option (Written (List ℕ))) (w : Written (List ℕ))
    → ((v : Written (List ℕ)) → o ≡ some v → Prefix after v)
    → sent ++ after ≡ asked
    → ahead_of sent o ≡ some w
    → Prefix asked w
unfolding Prefix
ahead_of-Prefix sent asked after none w known whole e = absurd (Option.none-ne-some w e)
ahead_of-Prefix sent asked after (some v) w known whole e =
    let is_w = Option.some-injective _ _ e in
    let (missing, prefix, thrown) = known v refl in
    (
      missing,
      ap (λ u. u.wrote ++ missing) (sym is_w)
          ∙ append_assoc sent v.wrote missing
          ∙ ap (λ ys. sent ++ ys) prefix
          ∙ whole,
      elim thrown [ inl all ↦ inl all | inr t ↦ inr (ap (λ u. u.returned) (sym is_w) ∙ t) ],
    )

send_loop-Prefix :
    (answers : List Answer) (buf : List ℕ) (m : ℕ) (w : Written (List ℕ))
    → m ≤ length buf
    → send_loop false answers buf m ≡ some w
    → Prefix (drop m buf) w
unfolding send_loop
send_loop-Prefix [] buf m w within e = elim (Bool-cases (ltb m (length buf))) [
  | inl left ↦ absurd (Option.none-ne-some w (simp left at e))
  | inr over ↦ over-Prefix m buf w over (simp over at e)
]
send_loop-Prefix (takes n ∷ answers) buf m w within e = elim (Bool-cases (ltb m (length buf))) [
  | inl left ↦
      let asked = drop m buf in
      let sent = take n asked in
      let (short, few, some_left) = length-take_bounds n asked in
      let on : m + length sent ≤ length buf = omega (arith, length-drop m buf within) in
      ahead_of-Prefix sent asked (drop (m + length sent) buf)
        (send_loop false answers buf (m + length sent)) w
        (λ v ran. send_loop-Prefix answers buf (m + length sent) v on ran)
        (ap (λ ys. sent ++ ys) (drop-sum m (length sent) buf) ∙ take_then_drop n asked)
        (simp left at e)
  | inr over ↦ over-Prefix m buf w over (simp over at e)
]
send_loop-Prefix (interrupted ∷ answers) buf m w within e = elim (Bool-cases (ltb m (length buf))) [
  | inl left ↦ send_loop-Prefix answers buf m w within (simp left at e)
  | inr over ↦ over-Prefix m buf w over (simp over at e)
]
send_loop-Prefix (broken_pipe ∷ answers) buf m w within e = elim (Bool-cases (ltb m (length buf))) [
  | inl left ↦ thrown-Prefix (drop m buf) w (simp left at e)
  | inr over ↦ over-Prefix m buf w over (simp over at e)
]
send_loop-Prefix (failed ∷ answers) buf m w within e = elim (Bool-cases (ltb m (length buf))) [
  | inl left ↦ thrown-Prefix (drop m buf) w (simp left at e)
  | inr over ↦ over-Prefix m buf w over (simp over at e)
]

-- Whatever the system answers, also where it takes nothing or fails: when a write to a TCP socket
-- ends, the bytes that were written are the first ones of the buffer, each once and in order, and if
-- any is missing the function has thrown.
pub tcp_write_prefix :
    (answers : List Answer) (buf : List ℕ) (w : Written (List ℕ))
    → tcp_write answers buf ≡ some w
    → (missing : List ℕ) × (w.wrote ++ missing ≡ buf) × ((missing ≡ []) ⊎ (w.returned ≡ false))
unfolding tcp_write Prefix
tcp_write_prefix answers buf w e = send_loop-Prefix answers buf 0 w (omega arith) e
