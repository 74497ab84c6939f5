-- ===== src/Bridge/Reading/Draining.antt =====
-- The loop over the bytes of one read, when the handlers leave the lists and the interfaces alone.
use ndlcom.Prelude.{
  ℕ, zero, suc, ◌+◌, ◌<◌, ◌≤◌, ◌≡◌, refl, sym, ap, ◌∙◌, inl, inr, Bool-cases, false, some, List,
  ◌==◌, ==_iff, if◌then◌else◌, length, take, drop, length-drop, arith,
}
use ndlcom.Wire.{ByteOrder}
use ndlcom.Parser.{receive, has_packet, destroy_packet, header_of}
use ndlcom.Parser.Progress.{receive_progress}
use ndlcom.LinkedList.{LinkedList, node, IsDistinct}
use ndlcom.Bridge.{Bridge, Callbacks}
use ndlcom.Bridge.Handling.{HandlerCallbacks, links_to_itself}
use ndlcom.Bridge.Reading.{
  set_parser, after_receive, process_bytes, process_external_interface, temporary_rxbuffer_size,
}
use ndlcom.Bridge.Reading.Packets.{
  IsPassive, set_parser-parser, dispatched, dispatched-keeps, process_packet-dispatched,
  complete_packet, has_packet-destroy_packet,
}

module _ {L W : Type 0} where
  -- The lists are those of `s`, and the parser of the interface holds no packet.
  pub record IsSettled (s : Bridge L W) (a : ℕ) (t : Bridge L W) : Type 0 where
    pub handlers_same : t.bridge_handler_list ≡ s.bridge_handler_list
    pub list_same : t.external_interface_list ≡ s.external_interface_list
    pub idle : has_packet (t.interfaces a).parser ≡ false

module _ {L W : Type 0} (callbacks : Callbacks W) where
  -- What the `read` callback of the interface returns, and the bytes in it.
  abbrev pub read_of : Bridge L W → ℕ → List ℕ × W
  read_of s a =
      let i = s.interfaces a in
      callbacks.read_bytes i.read i.context temporary_rxbuffer_size s.world

  abbrev pub arrived : Bridge L W → ℕ → List ℕ
  arrived s a = (read_of s a).0

module _ {L W : Type 0} (list : LinkedList L) (callbacks : Callbacks W)
    (calls : HandlerCallbacks L W) (order : ByteOrder) (handler_rounds : ℕ) where
  after_receive-IsSettled :
      (s : Bridge L W) (a : ℕ)
      → IsPassive calls
      → IsDistinct (list.entries s.bridge_handler_list)
      → length (list.entries s.bridge_handler_list) < handler_rounds
      → links_to_itself list s.external_interface_list (node a) ≡ false
      → (t : Bridge L W) × (after_receive list callbacks calls order handler_rounds s a
          ≡ some (t, false))
        × IsSettled s a t
  unfolding after_receive set_parser
  after_receive-IsSettled s a passive distinct enough connected =
      let p = (s.interfaces a).parser in
      elim (Bool-cases (has_packet p)) [
        | inl done ↦
            let (head_is, packet_is) = complete_packet p done in
            let h = header_of p in
            let payload = take h.data_len p.payload in
            let lists : (dispatched list callbacks calls order s a h
                  payload).external_interface_list
                ≡ s.external_interface_list =
              dispatched-keeps list callbacks calls order (λ u. u.external_interface_list)
                passive.keeps_list (λ u w. refl) (λ u r. refl) s a h payload in
            let t =
              set_parser (dispatched list callbacks calls order s a h payload) a
                (destroy_packet p) in
            (
              t,
              rw
                  (
                    done,
                    process_packet-dispatched list callbacks calls order handler_rounds s a h
                        p.payload passive distinct enough head_is packet_is,
                  )
                  (ap (λ b. some (t, b))
                    (ap (λ l. links_to_itself list l (node a)) lists ∙ connected)),
              record {
                handlers_same =
                    dispatched-keeps list callbacks calls order (λ u. u.bridge_handler_list)
                      passive.keeps_handlers (λ u w. refl) (λ u r. refl) s a h payload;
                list_same = lists;
                idle =
                    ap has_packet (
                      set_parser-parser (dispatched list callbacks calls order s a h payload) a
                        (destroy_packet p))
                    ∙ has_packet-destroy_packet p;
              },
            )
        | inr open_still ↦ (
          s,
          rw open_still refl,
          record { handlers_same = refl; list_same = refl; idle = open_still },
        )
      ]

  pub process_bytes-suc :
      (rounds : ℕ) (s : Bridge L W) (a : ℕ) (bytes : List ℕ) (processed : ℕ) (t : Bridge L W)
      → (let p = (s.interfaces a).parser in
          after_receive list callbacks calls order handler_rounds
            (set_parser s a (receive p (drop processed bytes)).0)
            a
          ≡ some (t, false))
      → process_bytes list callbacks calls order handler_rounds (suc rounds) s a bytes processed ≡ (
          let now = processed + (receive (s.interfaces a).parser (drop processed bytes)).1 in
          if length bytes == now
          then some (t, now)
          else process_bytes list callbacks calls order handler_rounds rounds t a bytes now)
  unfolding process_bytes
  process_bytes-suc rounds s a bytes processed t e = rw (e, process_bytes) refl

  Drained : ℕ → Bridge L W → ℕ → List ℕ → ℕ → Type 0
  Drained rounds s a bytes processed =
      (t : Bridge L W) × (process_bytes list callbacks calls order handler_rounds rounds s a bytes
          processed
        ≡ some (t, length bytes))
      × IsSettled s a t

  process_bytes-Drained :
      (rounds : ℕ) (s : Bridge L W) (a : ℕ) (bytes : List ℕ) (processed : ℕ)
      → IsPassive calls
      → IsDistinct (list.entries s.bridge_handler_list)
      → length (list.entries s.bridge_handler_list) < handler_rounds
      → links_to_itself list s.external_interface_list (node a) ≡ false
      → has_packet (s.interfaces a).parser ≡ false
      → processed < length bytes
      → length bytes ≤ rounds + processed
      → Drained rounds s a bytes processed
  unfolding Drained set_parser
  process_bytes-Drained zero s a bytes processed passive distinct enough connected idle left fuel =
      absurd (omega arith)
  process_bytes-Drained (suc rounds) s a bytes processed passive distinct enough connected idle left
        fuel =
      let p = (s.interfaces a).parser in
      let rest = drop processed bytes in
      let q = (receive p rest).0 in
      let count = (receive p rest).1 in
      let (within, full, progress) = receive_progress p rest idle in
      let size = length-drop processed bytes (omega arith) in
      let (t, ran, settled) =
        after_receive-IsSettled (set_parser s a q) a passive distinct enough connected in
      elim (Bool-cases (length bytes == processed + count)) [
        | inl all ↦ (
          t,
          process_bytes-suc rounds s a bytes processed t ran
              ∙ rw all
                  (ap (λ n. some (t, n)) (sym ((==_iff (length bytes) (processed + count)).0 all))),
          record {
            handlers_same = settled.handlers_same;
            list_same = settled.list_same;
            idle = settled.idle;
          },
        )
        | inr more ↦
            let one : 1 ≤ count = progress (omega arith) in
            let (u, last, done) =
              process_bytes-Drained rounds t a bytes (processed + count) passive
                (rw settled.handlers_same distinct) (rw settled.handlers_same enough)
                (ap (λ l. links_to_itself list l (node a)) settled.list_same ∙ connected)
                settled.idle (ground arith) (omega arith) in
            (
              u,
              process_bytes-suc rounds s a bytes processed t ran ∙ rw more last,
              record {
                handlers_same = done.handlers_same ∙ settled.handlers_same;
                list_same = done.list_same ∙ settled.list_same;
                idle = done.idle;
              },
            )
      ]

  -- When no handler changes the lists of the bridge or an interface, the handlers stand in their list
  -- once and are fewer than their rounds, the interface is connected and its parser holds no packet:
  -- one round for each byte is enough, every byte that was read is processed, the lists are as before,
  -- and the parser holds no packet.
  pub process_external_interface-IsSettled :
      (rounds : ℕ) (s : Bridge L W) (a : ℕ)
      → IsPassive calls
      → IsDistinct (list.entries s.bridge_handler_list)
      → length (list.entries s.bridge_handler_list) < handler_rounds
      → links_to_itself list s.external_interface_list (node a) ≡ false
      → has_packet (s.interfaces a).parser ≡ false
      → length (arrived callbacks s a) ≤ rounds
      → (t : Bridge L W) × (process_external_interface list callbacks calls order handler_rounds
            rounds s a
          ≡ some (t, length (arrived callbacks s a)))
        × IsSettled s a t
  unfolding process_external_interface Drained
  process_external_interface-IsSettled rounds s a passive distinct enough connected idle fuel =
      let bytes = arrived callbacks s a in
      let read : Bridge L W = record s { world = (read_of callbacks s a).1 } in
      elim (Bool-cases (length bytes == 0)) [
        | inl nothing ↦ (
          read,
          rw nothing (ap (λ n. some (read, n)) (sym ((==_iff (length bytes) 0).0 nothing))),
          record { handlers_same = refl; list_same = refl; idle = idle },
        )
        | inr something ↦
            let (t, ran, settled) =
              process_bytes-Drained rounds read a bytes 0 passive distinct enough connected idle
                (ground arith) (omega arith) in
            (
              t,
              rw something ran,
              record {
                handlers_same = settled.handlers_same;
                list_same = settled.list_same;
                idle = settled.idle;
              },
            )
      ]
