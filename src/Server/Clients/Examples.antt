-- ===== src/Server/Clients/Examples.antt =====
-- The clients of server/server.go at concrete packets.
use ipxbox.Common.{ℕ, ◌+◌, ◌≤◌, ◌≡◌, refl, true, List, [], ◌∷◌, some, ok, ℕ_discrete, replicate}
use ipxbox.Common.Assoc.{find, put, delete}
use ipxbox.Ipx.{Packet}
use ipxbox.Ipx
use ipxbox.Network.Pipe
use ipxbox.Network.Pipe.{Pipe}
use ipxbox.Server.Clients.{
  Server, Config, new, close_client, find_protocol, new_client, receive, register, dispatch,
  process_packet, check_client_timeouts, datagram, poll, poll_timeouts,
}
use ipxbox.Server.Clients.Valid.{
  IsValid, new-IsValid, Event, polled, client_closed, step, run, run-IsValid,
}
use ipxbox.Server.Clients.Timeouts.{check_client_timeouts_lem, process_packet_lem}

-- A protocol that takes every packet, and a timeout of a minute.
abbrev config : Config
config = record { protocols = (λ _. true) ∷ []; client_timeout = 60 }

abbrev zeros : List ℕ
zeros = replicate 30 0

-- Client 0 connects, is closed and connects again as client 1, and client 0 is closed once more.
abbrev reconnect : List Event
reconnect =
    polled config 5 5 (datagram zeros 9)
    ∷ client_closed 0
    ∷ polled config 6 6 (datagram zeros 9)
    ∷ client_closed 0
    ∷ []

abbrev reconnected : Server
reconnected = run reconnect (new 0)

reconnected-clients : reconnected.clients ≡ (9, 1) ∷ []
unfolding run step poll poll_timeouts process_packet dispatch register new_client receive
    find_protocol close_client find put delete Ipx.unmarshal Ipx.unmarshal_header Ipx.unmarshal_addr
    Pipe.close ℕ_discrete
reconnected-clients = refl

run-IsValid_example : IsValid reconnected
run-IsValid_example = run-IsValid reconnect (new 0) (new-IsValid 0)

check_client_timeouts_example : (check_client_timeouts config 100 reconnected).1 ≤ 100 + 10
check_client_timeouts_example =
    (check_client_timeouts_lem config 100 reconnected run-IsValid_example 9 1).2

abbrev zero_packet : Packet
zero_packet = record { header = Ipx.zero_header; payload = [] }

zeros-unmarshal : Ipx.unmarshal zeros ≡ ok zero_packet
unfolding Ipx.unmarshal Ipx.unmarshal_header Ipx.unmarshal_addr
zeros-unmarshal = refl

find-reconnected : find ℕ_discrete 9 reconnected.clients ≡ some 1
unfolding find ℕ_discrete
find-reconnected = rw (reconnected-clients) refl

process_packet_example :
    ((process_packet config 7 zeros 9 reconnected).0.objects 1).rxpipe
    ≡ (Pipe.write zero_packet (reconnected.objects 1).rxpipe).0
process_packet_example =
    ((process_packet_lem config 7 zeros zero_packet 9 reconnected zeros-unmarshal
        run-IsValid_example).1
      1 find-reconnected).1
