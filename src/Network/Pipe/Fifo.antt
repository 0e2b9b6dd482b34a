-- ===== src/Network/Pipe/Fifo.antt =====
-- The pipe of network/pipe/pipe.go against what its users may rely on: an ordered, bounded queue
-- that loses a packet only by telling the writer.
use ipxbox.Common.{
  ◌+◌, ◌≤◌, ◌≡◌, refl, arith, Bool, true, false, List, [], ◌∷◌, ◌++◌, length, Option, none, some,
  length-append, append_assoc, append-nil,
}
use ipxbox.Ipx.{Packet}
use ipxbox.Network.Pipe.{
  Pipe, Error, Read, packet, closed_error, cancelled, blocked, max_buffered_packets, new, close,
  write, select, read,
}

-- What goroutines do to a pipe. `resume` is a reader that has passed the check of `closed`.
pub data Op : Type 0 where
  write_op : Packet → Op
  read_op : (done pick : Bool) → Op
  resume_op : (done pick : Bool) → Op
  close_op : Op

-- The pipe, the packets that writers were told were accepted, and those that readers got.
pub record Run : Type 0 where
  pub pipe : Pipe
  pub accepted : List Packet
  pub delivered : List Packet

abbrev pub note_write : Packet → Run → Option Error → List Packet
note_write pkt r none = r.accepted ++ (pkt ∷ [])
note_write pkt r (some e) = r.accepted

abbrev pub note_read : Run → Read → List Packet
note_read r (packet pkt) = r.delivered ++ (pkt ∷ [])
note_read r closed_error = r.delivered
note_read r cancelled = r.delivered
note_read r blocked = r.delivered

unfoldable pub step : Op → Run → Run
unfolding write read select close
step (write_op pkt) r =
    let (p, e) = write pkt r.pipe in record r { pipe = p; accepted = note_write pkt r e }
step (read_op done pick) r =
    let (p, o) = read done pick r.pipe in record r { pipe = p; delivered = note_read r o }
step (resume_op done pick) r =
    let (p, o) = select done pick r.pipe in record r { pipe = p; delivered = note_read r o }
step close_op r = record r { pipe = close r.pipe }

unfoldable pub run : List Op → Run → Run
unfolding step
run [] r = r
run (op ∷ ops) r = run ops (step op r)

abbrev pub start : Run
start = record { pipe = new; accepted = []; delivered = [] }

pub record IsFifo (r : Run) : Type 0 where
  pub in_order : r.accepted ≡ r.delivered ++ r.pipe.ch
  pub bounded : length r.pipe.ch ≤ max_buffered_packets

receive-IsFifo : (done pick : Bool) (r : Run) → IsFifo r → IsFifo (step (resume_op done pick) r)
unfolding step
receive-IsFifo done pick r f = split r.pipe.ch refl
  where
    split : (l : List Packet) → r.pipe.ch ≡ l → IsFifo (step (resume_op done pick) r)
    split [] e = ground arith
    split (pkt ∷ rest) e = ground (arith, append_assoc r.delivered (pkt ∷ []) rest)

step-IsFifo : (op : Op) (r : Run) → IsFifo r → IsFifo (step op r)
unfolding step
step-IsFifo (write_op pkt) r f =
    ground
      (arith, append_assoc r.delivered r.pipe.ch (pkt ∷ []), length-append r.pipe.ch (pkt ∷ []))
step-IsFifo (read_op done pick) r f = ground (arith, receive-IsFifo done pick r f)
step-IsFifo (resume_op done pick) r f = receive-IsFifo done pick r f
step-IsFifo close_op r f = ground arith

-- Whatever goroutines do to a pipe, and in whatever order, the packets that writers were told were
-- accepted are exactly those delivered to readers followed by those still buffered, in the order
-- of writing, and at most 16 packets are buffered.
pub run-IsFifo : (ops : List Op) (r : Run) → IsFifo r → IsFifo (run ops r)
unfolding run
run-IsFifo [] r f = f
run-IsFifo (op ∷ ops) r f = run-IsFifo ops (step op r) (step-IsFifo op r f)

step-closed :
    (op : Op) (r : Run)
    → r.pipe.closed ≡ true
    → ((step op r).pipe.closed ≡ true) × ((step op r).accepted ≡ r.accepted)
unfolding step
step-closed (write_op pkt) r c = ground arith
step-closed (read_op done pick) r c = ground arith
step-closed (resume_op done pick) r c = split r.pipe.ch refl
  where
    split :
        (l : List Packet)
        → r.pipe.ch ≡ l
        → ((step (resume_op done pick) r).pipe.closed ≡ true)
          × ((step (resume_op done pick) r).accepted ≡ r.accepted)
    split [] e = ground arith
    split (pkt ∷ rest) e = ground arith
step-closed close_op r c = ground arith

-- Once a pipe is closed it stays closed, and no later write is accepted.
pub run-closed :
    (ops : List Op) (r : Run)
    → r.pipe.closed ≡ true
    → ((run ops r).pipe.closed ≡ true) × ((run ops r).accepted ≡ r.accepted)
unfolding run
run-closed [] r c = (c, refl)
run-closed (op ∷ ops) r c = ground (arith, step-closed op r c, run-closed ops (step op r))

abbrev pub writes : List Packet → List Op
writes [] = []
writes (pkt ∷ pkts) = write_op pkt ∷ writes pkts

-- A burst of writes that fits into the free room of an open pipe is accepted whole and in order.
pub run-writes :
    (pkts : List Packet) (r : Run)
    → r.pipe.closed ≡ false
    → length r.pipe.ch + length pkts ≤ max_buffered_packets
    → ((run (writes pkts) r).accepted ≡ r.accepted ++ pkts)
      × ((run (writes pkts) r).pipe.ch ≡ r.pipe.ch ++ pkts)
unfolding run
run-writes [] r c h = ground (arith, append-nil r.accepted, append-nil r.pipe.ch)
run-writes (pkt ∷ pkts) r c h = ground (
  arith,
  length-append r.pipe.ch (pkt ∷ []),
  append_assoc r.accepted (pkt ∷ []) pkts,
  append_assoc r.pipe.ch (pkt ∷ []) pkts,
  run-writes pkts (step (write_op pkt) r),
)
