-- ===== src/Network/Pipe/Examples.antt =====
-- Concrete runs of the pipe.
use ipxbox.Common.{◌≡◌, refl, arith, true, false, List, [], ◌∷◌, some, replicate}
use ipxbox.Ipx.{Packet, zero_header}
use ipxbox.Network.Pipe.{write, pipe_full}
use ipxbox.Network.Pipe.Fifo.{
  Run, IsFifo, Op, write_op, read_op, resume_op, close_op, run, start, writes, run-IsFifo,
  run-closed, run-writes,
}

abbrev hello : Packet
hello = record { header = zero_header; payload = 104 ∷ 105 ∷ [] }

abbrev bye : Packet
bye = record { header = zero_header; payload = 98 ∷ [] }

abbrev busy : List Op
busy = write_op hello ∷ write_op bye ∷ read_op false false ∷ close_op ∷ resume_op false true ∷ []

start-IsFifo : IsFifo start
start-IsFifo = record { in_order = refl; bounded = omega arith }

run-IsFifo_example : IsFifo (run busy start)
run-IsFifo_example = run-IsFifo busy start start-IsFifo

-- A reader that passed the check before the pipe was closed still gets what is buffered.
late_reader : (run busy start).delivered ≡ hello ∷ bye ∷ []
unfolding run
late_reader = refl

full_pipe : (write bye (record { ch = replicate 16 hello; closed = false })).1 ≡ some pipe_full
unfolding write
full_pipe = refl

abbrev shut : Run
shut = record {
  pipe = record { ch = hello ∷ []; closed = true };
  accepted = hello ∷ [];
  delivered = [];
}

run-closed_example : ((run busy shut).pipe.closed ≡ true) × ((run busy shut).accepted ≡ hello ∷ [])
run-closed_example = run-closed busy shut refl

run-writes_example :
    ((run (writes (bye ∷ hello ∷ [])) start).accepted ≡ bye ∷ hello ∷ [])
    × ((run (writes (bye ∷ hello ∷ [])) start).pipe.ch ≡ bye ∷ hello ∷ [])
run-writes_example = run-writes (bye ∷ hello ∷ []) start refl (omega arith)
