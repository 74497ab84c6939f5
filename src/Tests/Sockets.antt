-- ===== src/Tests/Sockets.antt =====
-- Writing to sockets, and CAN frames.
use ndlcom.Prelude.{
  ℕ, ◌≡◌, ◌≤◌, refl, true, some, List, [], ◌∷◌, ◌++◌, length, map, replicate, arith,
}
use ndlcom.Sockets.Receiving.{
  Address, Reply, holds, eintr, eagain, UdpRead, udp_reads, udp_write_to, at_old_port, last_sender,
  answered, udp_write_to-last_sender,
}
use ndlcom.Sockets.{
  Answer, takes, interrupted, tcp_write, udp_write, CanFrame, can_write, frame_of, can_read,
  can_read_loop,
}
use ndlcom.Sockets.Streams.{all_of, takings, tcp_write-takes}
use ndlcom.Sockets.Frames.{arrivals_of, can_read-can_write}
use ndlcom.Sockets.Bounds.{can_read_bound}

abbrev three : List ℕ
three = 7 ∷ 8 ∷ 9 ∷ []

abbrev answers : List Answer
answers = takes 1 ∷ interrupted ∷ takes 1 ∷ takes 5 ∷ []

tcp_write-takes_example :
    (tcp_write answers three ≡ all_of three) × (udp_write answers three ≡ all_of three)
unfolding takings
tcp_write-takes_example =
    tcp_write-takes answers three (omega arith, (tt, (omega arith, (omega arith, tt))))
      (omega arith)

can_read-can_write_example :
    (fs : List CanFrame) × (can_write 43 2 answers three
      ≡ some (record { wrote = fs; returned = true }))
    × (can_read (arrivals_of (1 ∷ 0 ∷ 2 ∷ []) fs []) 530 ≡ some (some three, []))
unfolding takings
can_read-can_write_example =
    can_read-can_write 43 2 answers three (1 ∷ 0 ∷ 2 ∷ []) [] 530 (omega arith)
      (omega arith, (tt, (omega arith, (omega arith, tt)))) (omega arith) (omega arith)
      (omega arith)

abbrev full_frame : CanFrame
full_frame = record { can_id = 42; data_bytes = replicate 64 1 }

-- One frame fills the room, the other is left.
can_read_bound_example : length full_frame.data_bytes ≤ 100
unfolding can_read can_read_loop
can_read_bound_example =
    can_read_bound (frame_of full_frame ∷ frame_of full_frame ∷ []) 100 full_frame.data_bytes
      (frame_of full_frame ∷ []) (omega arith, (omega arith, tt)) (omega arith) (omega arith) refl

abbrev peer : ℕ → ℕ → Address
peer a port = record { sin_addr = a; sin_port = port }

-- Two messages of different senders around a signal, and one behind them.
abbrev conversation : List Reply
conversation =
    holds (peer 7 70) (1 ∷ 2 ∷ [])
    ∷ eintr
    ∷ holds (peer 8 80) (3 ∷ [])
    ∷ eagain
    ∷ holds (peer 9 90) (4 ∷ [])
    ∷ []

udp_write_to-last_sender_example :
    (r : UdpRead) × (udp_reads 3 conversation 1 (peer 5 50) ≡ some r)
    × ((used : List Reply) × (used ++ r.replies ≡ conversation)
        × (answered used ≡ 3)
        × (udp_write_to r.addr_out answers three
            ≡ some (record {
              wrote = map (λ b. (at_old_port (peer 5 50) (last_sender 5 used), b)) three;
              returned = true;
            })))
unfolding takings
udp_write_to-last_sender_example =
    udp_write_to-last_sender 3 conversation 1 (peer 5 50) answers three (omega arith)
      (omega arith, (tt, (omega arith, (omega arith, tt)))) (omega arith)
