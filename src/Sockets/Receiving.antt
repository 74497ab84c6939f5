-- ===== src/Sockets/Receiving.antt =====
-- Reading from a UDP or TCP socket, and where the UDP socket then writes to: the functions of
-- src/ExternalInterface.cpp, with one reply of the operating system for each call.
use mathlib.Core.Option
use ndlcom.Sockets.{Answer, Written, udp_write}
use ndlcom.Sockets.Streams.{IsProgress, takings, tcp_write-takes}
use ndlcom.Prelude.{
  not, true, map, All, length, ℕ, zero, suc, ◌+◌, ◌≤◌, ◌≡◌, refl, sym, append_assoc, ap, ◌∙◌, inl,
  inr, ◌==◌, ==_iff, Option, none, some, List, [], ◌∷◌, ◌++◌, take, if◌then◌else◌, Bool-cases,
  arith,
}

-- `struct sockaddr_in`: the IP address and the port.
pub record Address : Type 0 where
  pub sin_addr : ℕ
  pub sin_port : ℕ

-- What `recvfrom` and `recv` answer: bytes and whom they are from, or an error.
pub data Reply : Type 0 where
  holds : Address → List ℕ → Reply
  eintr eagain enotconn other_error : Reply

-- The bytes in the buffer, or nothing when the function throws, `addr_out`, and the replies that are
-- left.
pub record UdpRead : Type 0 where
  pub stored : Option (List ℕ)
  pub addr_out : Address
  pub replies : List Reply

abbrev read_as : Option (List ℕ) → Address → List Reply → Option UdpRead
read_as stored addr_out replies =
    some (record { stored = stored; addr_out = addr_out; replies = replies })

-- The port of `addr_out` stays as it is: the line that would set it is commented out.
unfoldable pub switch_outgoing : Address → Address → Address
switch_outgoing addr_out addr_recv =
    if not (addr_out.sin_addr == addr_recv.sin_addr)
    then record addr_out { sin_addr = addr_recv.sin_addr }
    else addr_out

-- What does not fit into the buffer is lost. `none` says that there were more calls than replies.
unfoldable pub udp_read : List Reply → ℕ → Address → Option UdpRead
udp_read [] count addr_out = none
udp_read (holds addr_recv bytes ∷ rest) count addr_out =
    read_as (some (take count bytes)) (switch_outgoing addr_out addr_recv) rest
udp_read (eintr ∷ rest) count addr_out = udp_read rest count addr_out
udp_read (eagain ∷ rest) count addr_out = read_as (some []) addr_out rest
udp_read (enotconn ∷ rest) count addr_out = read_as (some []) addr_out rest
udp_read (other_error ∷ rest) count addr_out = read_as none addr_out rest

unfoldable pub tcp_read : List Reply → ℕ → Option (Option (List ℕ) × List Reply)
tcp_read [] count = none
tcp_read (holds addr_recv bytes ∷ rest) count = some (some (take count bytes), rest)
tcp_read (eintr ∷ rest) count = tcp_read rest count
tcp_read (eagain ∷ rest) count = some (some [], rest)
tcp_read (enotconn ∷ rest) count = some (none, rest)
tcp_read (other_error ∷ rest) count = some (none, rest)

-- `writeEscapedBytes`, with the address that `sendto` is given for each byte.
unfoldable pub udp_write_to : Address → List Answer → List ℕ → Option (Written (List (Address × ℕ)))
udp_write_to addr_out answers buf =
    Option.map (λ w. record { wrote = map (λ b. (addr_out, b)) w.wrote; returned = w.returned })
      (udp_write answers buf)

-- Several reads in a row.
unfoldable pub udp_reads : ℕ → List Reply → ℕ → Address → Option UdpRead
udp_reads zero replies count addr_out = read_as (some []) addr_out replies
udp_reads (suc calls) replies count addr_out = elim (udp_read replies count addr_out) [
  | none ↦ none
  | some r ↦ udp_reads calls r.replies count r.addr_out
]

abbrev pub at_old_port : Address → ℕ → Address
at_old_port addr a = record { sin_addr = a; sin_port = addr.sin_port }

-- The IP address that the last of the messages is from, or `addr` when there is none.
abbrev pub last_sender : ℕ → List Reply → ℕ
last_sender addr [] = addr
last_sender addr (holds from bytes ∷ rest) = last_sender from.sin_addr rest
last_sender addr (_ ∷ rest) = last_sender addr rest

-- The number of calls of `udp_read` that these replies are enough for.
abbrev pub answered : List Reply → ℕ
answered [] = 0
answered (eintr ∷ rest) = answered rest
answered (_ ∷ rest) = suc (answered rest)

-- So many calls have used up these replies, and the socket writes to the last sender among them, at the
-- old port.
record Follows (calls : ℕ) (addr : Address) (replies : List Reply) (r : UdpRead) : Type 0 where
  used : List Reply
  together : used ++ r.replies ≡ replies
  counted : answered used ≡ calls
  last : r.addr_out ≡ at_old_port addr (last_sender addr.sin_addr used)

switch_outgoing-sin_addr :
    (addr from : Address) → switch_outgoing addr from ≡ at_old_port addr from.sin_addr
unfolding switch_outgoing
switch_outgoing-sin_addr addr from = elim (Bool-cases (addr.sin_addr == from.sin_addr)) [
  | inl same ↦ rw same (ap (at_old_port addr) ((==_iff addr.sin_addr from.sin_addr).0 same))
  | inr differs ↦ rw differs refl
]

udp_read-Follows :
    (replies : List Reply) (count : ℕ) (addr : Address)
    → 1 ≤ answered replies
    → (r : UdpRead) × (udp_read replies count addr ≡ some r) × Follows 1 addr replies r
unfolding udp_read
udp_read-Follows [] count addr enough = absurd (omega arith)
udp_read-Follows (holds from bytes ∷ rest) count addr enough = (
  _,
  refl,
  record {
    used = holds from bytes ∷ [];
    together = refl;
    counted = refl;
    last = switch_outgoing-sin_addr addr from;
  },
)
udp_read-Follows (eintr ∷ rest) count addr enough =
    let (r, ran, follows) = udp_read-Follows rest count addr enough in
    (
      r,
      ran,
      record {
        used = eintr ∷ follows.used;
        together = ap (◌∷◌ eintr) follows.together;
        counted = follows.counted;
        last = follows.last;
      },
    )
udp_read-Follows (eagain ∷ rest) count addr enough =
    (_, refl, record { used = eagain ∷ []; together = refl; counted = refl; last = refl })
udp_read-Follows (enotconn ∷ rest) count addr enough =
    (_, refl, record { used = enotconn ∷ []; together = refl; counted = refl; last = refl })
udp_read-Follows (other_error ∷ rest) count addr enough =
    (_, refl, record { used = other_error ∷ []; together = refl; counted = refl; last = refl })

answered-append : (xs ys : List Reply) → answered (xs ++ ys) ≡ answered xs + answered ys
answered-append [] ys = omega arith
answered-append (holds from bytes ∷ xs) ys = omega (arith, answered-append xs ys)
answered-append (eintr ∷ xs) ys = answered-append xs ys
answered-append (eagain ∷ xs) ys = omega (arith, answered-append xs ys)
answered-append (enotconn ∷ xs) ys = omega (arith, answered-append xs ys)
answered-append (other_error ∷ xs) ys = omega (arith, answered-append xs ys)

last_sender-append :
    (addr : ℕ) (xs ys : List Reply)
    → last_sender addr (xs ++ ys) ≡ last_sender (last_sender addr xs) ys
last_sender-append addr [] ys = refl
last_sender-append addr (holds from bytes ∷ xs) ys = last_sender-append from.sin_addr xs ys
last_sender-append addr (eintr ∷ xs) ys = last_sender-append addr xs ys
last_sender-append addr (eagain ∷ xs) ys = last_sender-append addr xs ys
last_sender-append addr (enotconn ∷ xs) ys = last_sender-append addr xs ys
last_sender-append addr (other_error ∷ xs) ys = last_sender-append addr xs ys

udp_reads-Follows :
    (calls : ℕ) (replies : List Reply) (count : ℕ) (addr : Address)
    → calls ≤ answered replies
    → (r : UdpRead) × (udp_reads calls replies count addr ≡ some r) × Follows calls addr replies r
unfolding udp_reads
udp_reads-Follows zero replies count addr enough =
    (_, refl, record { used = []; together = refl; counted = refl; last = refl })
udp_reads-Follows (suc calls) replies count addr enough =
    let (r, ran, first) = udp_read-Follows replies count addr (omega arith) in
    let split : answered first.used + answered r.replies ≡ answered replies =
      rw (← answered-append first.used r.replies) (ap answered first.together) in
    let (s, done, more) =
      udp_reads-Follows calls r.replies count r.addr_out (omega (arith, split, first.counted)) in
    (
      s,
      rw (udp_reads, ran) done,
      record {
        used = first.used ++ more.used;
        together =
            append_assoc first.used more.used s.replies
            ∙ ap (λ x. first.used ++ x) more.together
            ∙ first.together;
        counted = answered-append first.used more.used ∙ omega (arith, first.counted, more.counted);
        last =
            more.last
            ∙ ap (λ b. at_old_port b (last_sender b.sin_addr more.used)) first.last
            ∙ ap (at_old_port addr) (sym (last_sender-append addr.sin_addr first.used more.used));
      },
    )

-- The replies are enough for so many reads, and then a buffer is written while the system takes at
-- least one byte at each call or is interrupted by a signal, and takes something at least as often as
-- there are bytes. Then all the reads end, also behind one that throws, and use up the replies from the
-- front, and every byte of the buffer is sent, once and in order, to the IP address that the last
-- message among those is from, or to the old one when there was none; the port is always the old one,
-- whatever port a message is from.
pub udp_write_to-last_sender :
    (calls : ℕ) (replies : List Reply) (count : ℕ) (addr : Address) (answers : List Answer)
    (buf : List ℕ)
    → calls ≤ answered replies
    → All IsProgress answers
    → length buf ≤ takings answers
    → (r : UdpRead) × (udp_reads calls replies count addr ≡ some r)
      × ((used : List Reply) × (used ++ r.replies ≡ replies)
          × (answered used ≡ calls)
          × (udp_write_to r.addr_out answers buf
              ≡ some (record {
                wrote = map (λ b. (at_old_port addr (last_sender addr.sin_addr used), b)) buf;
                returned = true;
              })))
unfolding udp_write_to
udp_write_to-last_sender calls replies count addr answers buf enough progress takes_all =
    let (r, ran, follows) = udp_reads-Follows calls replies count addr enough in
    (
      r,
      ran,
      (
        follows.used,
        follows.together,
        follows.counted,
        rw (follows.last, (tcp_write-takes answers buf progress takes_all).1) refl,
      ),
    )
