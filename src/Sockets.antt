-- ===== src/Sockets.antt =====
-- The loops of src/ExternalInterface.cpp around the calls of the operating system: writing to a TCP or
-- UDP socket, and writing to and reading from a CAN socket. What the system answers is a parameter, a
-- list with one answer for each call, in order; `none` says that there were more calls than answers.
pub mod Streams
pub mod Frames
pub mod Bounds
pub mod Receiving
use ndlcom.Prelude.{
  ℕ, ◌+◌, ◌^◌, Bool, true, false, ltb, Option, none, some, List, [], ◌∷◌, ◌++◌, if◌then◌else◌,
  length, take, drop,
}
use ndlcom.Encoder.{size_t, sub_size}

-- What `send` and `sendto` answer: they take up to so many of the bytes, or fail with EINTR, with
-- EPIPE or with another error.
pub data Answer : Type 0 where
  takes : ℕ → Answer
  interrupted broken_pipe failed : Answer

-- What was written, and whether the function returned; it throws otherwise.
pub record Written (A : Type 0) : Type 0 where
  pub wrote : A
  pub returned : Bool

abbrev ahead_of : {A : Type 0} → List A → Option (Written (List A)) → Option (Written (List A))
ahead_of xs none = none
ahead_of xs (some w) = some (record { wrote = xs ++ w.wrote; returned = w.returned })

abbrev pub returns : {A : Type 0} → Bool → Option (Written (List A))
returns ok = some (record { wrote = []; returned = ok })

module _ (ignores_broken_pipe : Bool) where
  -- The loop of both sockets; they differ in what they do on EPIPE.
  unfoldable pub send_loop : List Answer → List ℕ → ℕ → Option (Written (List ℕ))
  send_loop [] buf already_written = if ltb already_written (length buf) then none else returns true
  send_loop (takes n ∷ answers) buf already_written =
      let sent = take n (drop already_written buf) in
      let rest = send_loop answers buf (already_written + length sent) in
      if ltb already_written (length buf) then ahead_of sent rest else returns true
  send_loop (interrupted ∷ answers) buf already_written =
      let again = send_loop answers buf already_written in
      if ltb already_written (length buf) then again else returns true
  send_loop (broken_pipe ∷ answers) buf already_written =
      if ltb already_written (length buf) then returns ignores_broken_pipe else returns true
  send_loop (failed ∷ answers) buf already_written =
      if ltb already_written (length buf) then returns false else returns true

unfoldable pub tcp_write : List Answer → List ℕ → Option (Written (List ℕ))
tcp_write answers buf = send_loop false answers buf 0

unfoldable pub udp_write : List Answer → List ℕ → Option (Written (List ℕ))
udp_write answers buf = send_loop true answers buf 0

-- `struct canfd_frame`: the data up to `len`.
pub record CanFrame : Type 0 where
  pub can_id : ℕ
  pub data_bytes : List ℕ

-- A frame is sent whole or not at all: the number of an answer does not matter.
module _ (can_id_tx max_data_len : ℕ) where
  unfoldable pub can_write_loop : List Answer → List ℕ → ℕ → Option (Written (List CanFrame))
  can_write_loop [] buf already_written =
      if ltb already_written (length buf) then none else returns true
  can_write_loop (takes n ∷ answers) buf already_written =
      let sent = take max_data_len (drop already_written buf) in
      let rest = can_write_loop answers buf (already_written + length sent) in
      if ltb already_written (length buf)
      then ahead_of (record { can_id = can_id_tx; data_bytes = sent } ∷ []) rest
      else returns true
  can_write_loop (interrupted ∷ answers) buf already_written =
      let again = can_write_loop answers buf already_written in
      if ltb already_written (length buf) then again else returns true
  can_write_loop (broken_pipe ∷ answers) buf already_written =
      if ltb already_written (length buf) then returns false else returns true
  can_write_loop (failed ∷ answers) buf already_written =
      if ltb already_written (length buf) then returns false else returns true

  unfoldable pub can_write : List Answer → List ℕ → Option (Written (List CanFrame))
  can_write answers buf = can_write_loop answers buf 0

-- What `recvfrom` answers: a frame, EINTR, EAGAIN, another error, or something of another size.
pub data Arrival : Type 0 where
  frame_of : CanFrame → Arrival
  signal would_block receive_failed wrong_size : Arrival

-- `sizeof(frame.data)`
abbrev pub can_data_size : ℕ
can_data_size = 64

-- What is in the buffer when it returns, or that it throws, and the answers that are left.
unfoldable pub can_read_loop : List Arrival → ℕ → List ℕ → Option (Option (List ℕ) × List Arrival)
can_read_loop [] count buf =
    if ltb (length buf) (sub_size count can_data_size) then none else some (some buf, [])
can_read_loop (frame_of f ∷ arrivals) count buf =
    let rest = can_read_loop arrivals count (buf ++ f.data_bytes) in
    if ltb (length buf) (sub_size count can_data_size)
    then rest
    else some (some buf, frame_of f ∷ arrivals)
can_read_loop (signal ∷ arrivals) count buf =
    let again = can_read_loop arrivals count buf in
    if ltb (length buf) (sub_size count can_data_size)
    then again
    else some (some buf, signal ∷ arrivals)
can_read_loop (would_block ∷ arrivals) count buf =
    if ltb (length buf) (sub_size count can_data_size)
    then some (some buf, arrivals)
    else some (some buf, would_block ∷ arrivals)
can_read_loop (receive_failed ∷ arrivals) count buf =
    if ltb (length buf) (sub_size count can_data_size)
    then some (none, arrivals)
    else some (some buf, receive_failed ∷ arrivals)
can_read_loop (wrong_size ∷ arrivals) count buf =
    if ltb (length buf) (sub_size count can_data_size)
    then some (none, arrivals)
    else some (some buf, wrong_size ∷ arrivals)

unfoldable pub can_read : List Arrival → ℕ → Option (Option (List ℕ) × List Arrival)
can_read arrivals count = can_read_loop arrivals count []
