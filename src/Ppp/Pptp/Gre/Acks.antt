-- ===== src/Ppp/Pptp/Gre/Acks.antt =====
-- The acknowledgements and the keys of what ppp/pptp/gre.go sends.
use mathlib.Core.Path.{subst}
use mathlib.Core.Path.{subst}
use mathlib.Core.Path.{subst}
use ipxbox.Common.{ℕ, ◌<◌, ◌≤◌, ◌≡◌, sym, arith, true, List, [], ◌∷◌, ◌++◌, if◌then◌else◌}
use ipxbox.Ppp.Pptp.Gre.{GrePacket, GreSession, recv_packet, read_loop, read, send_packet}

-- What one session does: it reads, or writes a frame.
pub data Action : Type 0 where
  reads_one : List GrePacket → Action
  writes : List ℕ → Action

-- A session, and the packets that it has written. New packets may have arrived before a read.
abbrev pub act : Action → GreSession → GreSession × List GrePacket
act (reads_one arrived) s = ((read (record s { recv_queue = s.recv_queue ++ arrived })).0, [])
act (writes bytes) s = let r = send_packet bytes s in (r.0, r.1 ∷ [])

abbrev pub acts : List Action → GreSession → GreSession × List GrePacket
acts [] s = (s, [])
acts (a ∷ actions) s = let r = act a s in let more = acts actions r.0 in (more.0, r.1 ++ more.1)

-- The acknowledgements of a list of packets increase, each being above `low`.
abbrev pub Increasing : ℕ → List GrePacket → Type 0
Increasing low [] = Unit
Increasing low (p ∷ ps) =
    (p.header.ack_present ≡ true → low < p.header.ack)
    × Increasing (if p.header.ack_present then p.header.ack else low) ps

read_loop-grows :
    (q : List GrePacket) (s : GreSession)
    → (s.recv_seq ≤ (read_loop q s).0.recv_seq) × ((read_loop q s).0.recv_acked ≡ s.recv_acked)
unfolding read_loop recv_packet
read_loop-grows [] s = ground arith
read_loop-grows (p ∷ q) s =
    ground (arith, read_loop-grows q s, read_loop-grows q (record s { recv_seq = p.header.seq }))

-- A packet acknowledges what was received, if that is more than what was acknowledged.
send_packet-acks :
    (bytes : List ℕ) (s : GreSession)
    → s.recv_acked ≤ s.recv_seq
    → ((send_packet bytes s).1.header.ack_present ≡ true
        → s.recv_acked < (send_packet bytes s).1.header.ack)
      × ((if (send_packet bytes s).1.header.ack_present
            then (send_packet bytes s).1.header.ack
            else s.recv_acked)
          ≡ (send_packet bytes s).0.recv_acked)
      × ((send_packet bytes s).0.recv_acked ≤ (send_packet bytes s).0.recv_seq)
unfolding send_packet
send_packet-acks bytes s l = (λ e. ground (arith, e), ground (arith, l), ground (arith, l))

-- Whatever a session reads and writes, in any order: it acknowledges a number above all that it
-- acknowledged before, and never one that it has not received.
pub acts-Increasing :
    (actions : List Action) (s : GreSession)
    → s.recv_acked ≤ s.recv_seq
    → Increasing s.recv_acked (acts actions s).1
      × ((acts actions s).0.recv_acked ≤ (acts actions s).0.recv_seq)
unfolding read send_packet
acts-Increasing [] s l = (tt, l)
acts-Increasing (reads_one arrived ∷ actions) s l =
    let t = record s { recv_queue = s.recv_queue ++ arrived } in
    let g = read_loop-grows (s.recv_queue ++ arrived) t in
    let more =
      acts-Increasing actions (read_loop (s.recv_queue ++ arrived) t).0
        (omega (arith, g.0, g.1, l)) in
    (
      subst (λ n. Increasing n (acts actions (read_loop (s.recv_queue ++ arrived) t).0).1) g.1
          more.0,
      more.1,
    )
acts-Increasing (writes bytes ∷ actions) s l =
    let a = send_packet-acks bytes s l in
    let more = acts-Increasing actions (send_packet bytes s).0 a.2 in
    (
      (a.0, subst (λ n. Increasing n (acts actions (send_packet bytes s).0).1) (sym a.1) more.0),
      more.1,
    )
