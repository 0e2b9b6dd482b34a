-- ===== src/Server/Uplink/Examples.antt =====
-- server/uplink/protocol.go with a toy encoding and a toy hash.
use ipxbox.Common.{ℕ, ◌≡◌, refl, true, false, List, [], ◌∷◌, Option, some, ok, length, replicate}
use ipxbox.Ipx.{Packet, zero_header, zero_header_addr}
use ipxbox.Server.Uplink.{
  submit_solution, get_challenge_request, Message, bare, address, Client, start_client,
  solve_challenge, client_side, read_packet,
}
use ipxbox.Server.Uplink.Handshake.{
  Answers, IsLocked, NoneSolved, Call, reads, writes, ticks, calls, calls-IsLocked,
  read_packet-accepted,
}
use ipxbox.Common.{ap}
use ipxbox.Ipx.{Addr-discrete}
use ipxbox.Common.{arith}
use ipxbox.Ipx.{addr_eq}

abbrev secret : List ℕ
secret = 1 ∷ 2 ∷ []

abbrev toy_sum : List ℕ → List ℕ
toy_sum bytes = length bytes ∷ []

abbrev challenge_bytes : List ℕ
challenge_bytes = replicate 64 7

abbrev answer : Message
answer = record {
  message_type = submit_solution;
  challenge = challenge_bytes;
  solution = solve_challenge toy_sum client_side secret challenge_bytes;
}

-- An empty payload asks for the challenge, every other one is the right answer.
abbrev toy_decode : List ℕ → Option Message
toy_decode [] = some (bare get_challenge_request)
toy_decode (b ∷ bytes) = some answer

abbrev toy_encode : Message → List ℕ
toy_encode msg = msg.challenge

abbrev to_server : List ℕ → Packet
to_server bytes = record {
  header = record zero_header { dest = record zero_header_addr { addr = address } };
  payload = bytes;
}

abbrev fresh : Client
fresh = start_client challenge_bytes

fresh-IsLocked : IsLocked toy_decode toy_encode toy_sum secret challenge_bytes fresh
unfolding start_client
fresh-IsLocked = record { not_authenticated = refl; same_challenge = refl; only_control = tt }

abbrev one_request : List (Call toy_decode toy_encode toy_sum secret)
one_request = reads ((5, ok (to_server [])) ∷ []) ∷ writes 6 (ok tt) (to_server []) ∷ ticks 1 9 ∷ []

request-NoneSolved : NoneSolved toy_decode toy_encode toy_sum secret challenge_bytes one_request
request-NoneSolved = (((λ (d, (m, e, (t, long, right))). ground (arith, e, t)), tt), tt)

calls-IsLocked_example :
    IsLocked toy_decode toy_encode toy_sum secret challenge_bytes
      (calls toy_decode toy_encode toy_sum secret one_request fresh)
calls-IsLocked_example =
    calls-IsLocked toy_decode toy_encode toy_sum secret challenge_bytes one_request fresh
      fresh-IsLocked request-NoneSolved

fresh-authenticated : fresh.authenticated ≡ false
unfolding start_client
fresh-authenticated = refl

to_server-address : addr_eq (to_server (1 ∷ [])).header.dest.addr address ≡ true
unfolding Addr-discrete
to_server-address = refl

answer-Answers : Answers toy_decode toy_encode toy_sum secret fresh.challenge answer
unfolding start_client
answer-Answers = (refl, omega arith, refl)

read_packet-accepted_example :
    (read_packet toy_decode toy_encode toy_sum secret
      ((5, ok (to_server (1 ∷ []))) ∷ [])
      fresh).result
    ≡ some (ok (to_server (1 ∷ [])))
read_packet-accepted_example =
    ap (λ r. r.result)
      (read_packet-accepted toy_decode toy_encode toy_sum secret 5 answer (to_server (1 ∷ [])) []
        fresh fresh-authenticated to_server-address refl answer-Answers)
