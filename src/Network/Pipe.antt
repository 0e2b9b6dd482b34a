-- ===== src/Network/Pipe.antt =====
-- network/pipe/pipe.go: the bounded packet queue that every receiver reads from.
-- The channel is the list of buffered packets, oldest first. A method that holds the mutex is one
-- step; ReadPacket's check of `closed` and its `select` are two, since the mutex is released
-- between them.
pub mod Fifo
mod Examples
use ipxbox.Common.{
  ℕ, Bool, true, false, ◌&&◌, ◌||◌, not, List, [], ◌∷◌, ◌++◌, ltb, if◌then◌else◌, length, Option,
  none, some,
}
use ipxbox.Ipx.{Packet}

abbrev pub max_buffered_packets : ℕ
max_buffered_packets = 16

pub record Pipe : Type 0 where
  pub ch : List Packet
  pub closed : Bool

pub data Error : Type 0 where
  closed_pipe : Error
  pipe_full : Error

-- `New`
abbrev pub new : Pipe
new = record { ch = []; closed = false }

-- `Close`: closing a closed pipe again is harmless.
unfoldable pub close : Pipe → Pipe
close p = if not p.closed then record p { closed = true } else p

-- `WritePacket` returns the pipe and the error, if any.
unfoldable pub write : Packet → Pipe → Pipe × Option Error
write pkt p =
    if p.closed
    then (p, some closed_pipe)
    else if ltb (length p.ch) max_buffered_packets
    then (record p { ch = p.ch ++ (pkt ∷ []) }, none)
    else (p, some pipe_full)

-- `blocked` is no return: the reader is still waiting in its `select`.
pub data Read : Type 0 where
  packet : Packet → Read
  closed_error : Read
  cancelled : Read
  blocked : Read

receive : Bool → List Packet → Pipe → Pipe × Read
receive is_closed [] p = (p, if is_closed then closed_error else blocked)
receive is_closed (pkt ∷ rest) p = (record p { ch = rest }, packet pkt)

-- The `select` of `ReadPacket`. `done` says that the context is done, and `pick` which case is
-- taken when both are ready. A closed channel still yields what it buffers.
unfoldable pub select : (done pick : Bool) → Pipe → Pipe × Read
unfolding receive
select done pick p =
    if done && (pick || (ltb (length p.ch) 1 && not p.closed))
    then (p, cancelled)
    else receive p.closed p.ch p

unfoldable pub read : (done pick : Bool) → Pipe → Pipe × Read
unfolding select
read done pick p = if p.closed then (p, closed_error) else select done pick p
