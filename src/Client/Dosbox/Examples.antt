-- ===== src/Client/Dosbox/Examples.antt =====
-- client/dosbox/client.go on a registration and on pings.
use ipxbox.Common.{◌≡◌, refl, arith, List, [], ◌∷◌, ◌++◌, Option, none, some, ok}
use ipxbox.Ipx.{Addr, Packet, zero_header}
use ipxbox.Network.Pipe
use ipxbox.Server.Dosbox.{running, start_client, registration_reply, ping, addr_ping_reply}
use ipxbox.Client.{Turn, got, timed_out}
use ipxbox.Client.Dosbox.{registration_packet, handshake_connect, Connection, ping_reply, recv_loop}
use ipxbox.Client.Dosbox.Registration.{registration_agrees, ping-Ignored}
use ipxbox.Client.Dosbox.Receiving.{replies, recv_loop-replies, recv_loop-passed_on}

abbrev own : Addr
own = record { a0 = 2; a1 = 0; a2 = 0; a3 = 0; a4 = 0; a5 = 9 }

-- A ping and a time-out before the reply.
abbrev noise : List Turn
noise = record { now = 1; event = got ping } ∷ record { now = 3; event = timed_out } ∷ []

registration_agrees_example :
    (start_client (ok own) 5 ((1, ok registration_packet) ∷ [])
      ≡ running
          (record { node_addr = own; last_recv_time = 5; written = registration_reply own ∷ [] })
          [])
    × ((handshake_connect 1 0
          (noise ++ (record { now = 1; event = got (registration_reply own) } ∷ []))).result
        ≡ some (ok own))
registration_agrees_example =
    registration_agrees 1 0 5 1 own [] noise [] (λ e. ground (arith, e)) (ping-Ignored, (tt, tt))
      (omega arith)

abbrev connection : Connection
connection = record { addr = own; rxpipe = Pipe.new; written = [] }

abbrev game : Packet
game = record { header = zero_header; payload = 1 ∷ [] }

abbrev arrivals : List (Option Packet)
arrivals = some game ∷ some ping ∷ none ∷ some game ∷ []

recv_loop-replies_example :
    ((recv_loop arrivals connection).written ≡ [] ++ replies own arrivals)
    × ((recv_loop arrivals connection).addr ≡ own)
recv_loop-replies_example = recv_loop-replies arrivals connection

ping_test : (recv_loop arrivals connection).written ≡ ping_reply own addr_ping_reply ∷ []
unfolding recv_loop ipxbox.Client.Dosbox.send_ping_reply ipxbox.Client.Dosbox.is_ping
ping_test = ground arith

passed_on_test : (recv_loop arrivals connection).rxpipe.ch ≡ game ∷ game ∷ []
unfolding ipxbox.Client.Dosbox.is_ping
passed_on_test = ground (arith, recv_loop-passed_on arrivals connection refl (ground arith))
