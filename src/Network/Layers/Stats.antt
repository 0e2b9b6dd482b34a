-- ===== src/Network/Layers/Stats.antt =====
-- network/stats/stats.go: a node that counts what passes through it. Counters are 64-bit words.
use ipxbox.Common.{ℕ, ◌+◌, ◌%◌, ◌≡◌, arith, List, [], ◌∷◌, Result, ok, err, length}
use ipxbox.Ipx.{Packet, header_length}
use ipxbox.Network.Layers.{Error}

pub record Statistics : Type 0 where
  pub rx_packets : ℕ
  pub tx_packets : ℕ
  pub rx_bytes : ℕ
  pub tx_bytes : ℕ
  pub connect_time : ℕ

-- NewNode at a time.
abbrev pub new_statistics : (now : ℕ) → Statistics
new_statistics now = record {
  rx_packets = 0;
  tx_packets = 0;
  rx_bytes = 0;
  tx_bytes = 0;
  connect_time = now;
}

-- `x += y` on a uint64.
abbrev pub plus64 : ℕ → ℕ → ℕ
plus64 x y = (x + y) % 18446744073709551616

-- node.ReadPacket on what the inner node returns.
unfoldable pub stats_read : Result Error Packet → Statistics → Statistics × Result Error Packet
stats_read (err e) s = (s, err e)
stats_read (ok packet) s = (
  record s {
    tx_packets = plus64 s.tx_packets 1;
    tx_bytes = plus64 s.tx_bytes (length packet.payload + header_length);
  },
  ok packet,
)

-- node.WritePacket, given the inner node's result.
unfoldable pub stats_write :
    Result Error (Unit {0}) → Packet → Statistics → Statistics × Result Error (Unit {0})
stats_write (err e) packet s = (s, err e)
stats_write (ok _) packet s = (
  record s {
    rx_packets = plus64 s.rx_packets 1;
    rx_bytes = plus64 s.rx_bytes (length packet.payload + header_length);
  },
  ok tt,
)

-- The calls of a node with what the inner node returned.
pub data Call : Type 0 where
  reads : Result Error Packet → Call
  writes : Result Error (Unit {0}) → Packet → Call

unfoldable pub calls : List Call → Statistics → Statistics
calls [] s = s
calls (reads r ∷ cs) s = calls cs (stats_read r s).0
calls (writes r packet ∷ cs) s = calls cs (stats_write r packet s).0

-- The packets that were read, and that were written, without an error.
abbrev pub read_packets : List Call → List Packet
read_packets [] = []
read_packets (reads (ok packet) ∷ cs) = packet ∷ read_packets cs
read_packets (reads (err e) ∷ cs) = read_packets cs
read_packets (writes r packet ∷ cs) = read_packets cs

abbrev pub written_packets : List Call → List Packet
written_packets [] = []
written_packets (writes (ok _) packet ∷ cs) = packet ∷ written_packets cs
written_packets (writes (err e) packet ∷ cs) = written_packets cs
written_packets (reads r ∷ cs) = written_packets cs

-- The length of packets on the wire.
abbrev pub wire_bytes : List Packet → ℕ
wire_bytes [] = 0
wire_bytes (p ∷ ps) = length p.payload + header_length + wire_bytes ps

-- The counters count, modulo 2 ^ 64, the packets that were read (as sent) and written (as received)
-- without an error since the counters stood where they did, and their bytes on the wire.
pub stats-calls :
    (cs : List Call) (s : Statistics)
    → ((calls cs s).tx_packets % 18446744073709551616
        ≡ (s.tx_packets + length (read_packets cs)) % 18446744073709551616)
      × ((calls cs s).rx_packets % 18446744073709551616
          ≡ (s.rx_packets + length (written_packets cs)) % 18446744073709551616)
      × ((calls cs s).tx_bytes % 18446744073709551616
          ≡ (s.tx_bytes + wire_bytes (read_packets cs)) % 18446744073709551616)
      × ((calls cs s).rx_bytes % 18446744073709551616
          ≡ (s.rx_bytes + wire_bytes (written_packets cs)) % 18446744073709551616)
      × ((calls cs s).connect_time ≡ s.connect_time)
unfolding calls stats_read stats_write
stats-calls [] s = ground arith
stats-calls (reads (ok packet) ∷ cs) s = ground (arith, stats-calls cs (stats_read (ok packet) s).0)
stats-calls (reads (err e) ∷ cs) s = stats-calls cs s
stats-calls (writes (ok _) packet ∷ cs) s =
    ground (arith, stats-calls cs (stats_write (ok tt) packet s).0)
stats-calls (writes (err e) packet ∷ cs) s = stats-calls cs s
