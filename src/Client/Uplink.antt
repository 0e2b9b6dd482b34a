-- ===== src/Client/Uplink.antt =====
-- client/uplink/client.go: the client of an uplink server. encoding/json and crypto/sha256 are
-- parameters, and so are the random challenge and the length of a second.
pub mod Handshake
pub mod Agreement
mod Examples
use ipxbox.Common.{
  ℕ, ◌+◌, Bool, true, false, not, ◌&&◌, List, [], ◌∷◌, ◌++◌, Option, none, some, Result, ok, err,
  ltb, if◌then◌else◌, length, replicate,
}
use ipxbox.Common.Bytes.{bytes_equal}
use ipxbox.Ipx.{Packet, addr_eq}
use ipxbox.Network.Pipe.{Pipe}
use ipxbox.Network.Pipe
use ipxbox.Server.Uplink.{
  MessageType, get_challenge_request, get_challenge_response, submit_solution,
  submit_solution_accepted, submit_solution_rejected, keepalive, close_connection, other_type,
  Message, bare, address, min_challenge_length, client_side, server_side, solve_challenge,
  control_packet,
}
use ipxbox.Client.{Turn, Outcome, waiting, no_response, read_failed, answered, Attempts, await}

-- The errors of the handshake.
pub data Error : Type 0 where
  gave_up : Error
  read_error : ℕ → Error
  invalid_json : Error
  wrong_response : Error
  challenge_too_short : Error
  permission_denied : Error
  wrong_solution : Error

-- What is sent, and the result, or `none` while the client waits.
pub record Connecting : Type 0 where
  pub sent : List Packet
  pub result : Option (Result Error (Unit {0}))

-- The checks of handshakeConnect on the two responses.
abbrev pub check_challenge : MessageType → (challenge : List ℕ) → Result Error (List ℕ)
check_challenge get_challenge_response challenge =
    if ltb (length challenge) min_challenge_length then err challenge_too_short else ok challenge
check_challenge _ challenge = err wrong_response

abbrev pub check_solution :
    MessageType → (solution client_solution : List ℕ) → Result Error (Unit {0})
check_solution submit_solution_rejected solution client_solution = err permission_denied
check_solution submit_solution_accepted solution client_solution =
    if not (bytes_equal solution client_solution) then err wrong_solution else ok tt
check_solution _ solution client_solution = err wrong_response

abbrev pub is_keepalive : MessageType → Bool
is_keepalive keepalive = true
is_keepalive _ = false

-- A control packet, as recvLoop tells it from the packets that it hands on.
abbrev pub is_control : Packet → Bool
is_control packet = addr_eq packet.header.dest.addr address

-- recvLoop on what its ReadPacket returns; `none` for an error that does not end it.
unfoldable pub recv_loop : List (Option Packet) → Pipe → Pipe
recv_loop [] rxpipe = rxpipe
recv_loop (none ∷ reads) rxpipe = recv_loop reads rxpipe
recv_loop (some packet ∷ reads) rxpipe =
    if is_control packet
    then recv_loop reads rxpipe
    else recv_loop reads (Pipe.write packet rxpipe).0

module _ (decode : List ℕ → Option Message) (encode : Message → List ℕ) (sum256 : List ℕ → List ℕ)
    (second : ℕ) (password client_challenge : List ℕ) where
  -- What sendUntilResponse makes of a packet; `none` if it reads on.
  abbrev pub response : Packet → Option (Result Error Message)
  response packet = if not (is_control packet) then none else elim (decode packet.payload) [
    | none ↦ some (err invalid_json)
    | some msg ↦ if is_keepalive msg.message_type then none else some (ok msg)
  ]

  -- sendUntilResponse, begun at the time `start`.
  unfoldable pub send_until_response : (start : ℕ) → List Turn → Attempts (Result Error Message)
  send_until_response start turns = await response second start 0 turns

  -- The message that answers the server's challenge.
  abbrev pub solution_message : (challenge : List ℕ) → Message
  solution_message challenge = record {
    message_type = submit_solution;
    challenge = client_challenge;
    solution = solve_challenge sum256 client_side password challenge;
  }

  abbrev pub client_solution : List ℕ
  client_solution = solve_challenge sum256 server_side password client_challenge

  -- The result of an exchange that ended without a message to go on with.
  abbrev pub unanswered : Outcome (Result Error Message) → Option (Result Error (Unit {0}))
  unanswered waiting = none
  unanswered no_response = some (err gave_up)
  unanswered (read_failed e) = some (err (read_error e))
  unanswered (answered (err e) rest) = some (err e)
  unanswered (answered (ok msg) rest) = none

  -- The second half of handshakeConnect.
  unfoldable pub submit : (start : ℕ) → (challenge : List ℕ) → List Turn → Connecting
  submit start challenge turns =
      let r = send_until_response start turns in
      record {
        sent = replicate r.sent (control_packet encode (solution_message challenge));
        result = elim r.outcome [
          | waiting ↦ unanswered waiting
          | no_response ↦ unanswered no_response
          | read_failed e ↦ unanswered (read_failed e)
          | answered m rest ↦ elim m [
            | err e ↦ some (err e)
            | ok msg ↦ some (check_solution msg.message_type msg.solution client_solution)
          ]
        ];
      }

  -- handshakeConnect; the two exchanges begin at the times `start` and `later`.
  unfoldable pub handshake_connect : (start later : ℕ) → List Turn → Connecting
  handshake_connect start later turns =
      let r = send_until_response start turns in
      let asked = replicate r.sent (control_packet encode (bare get_challenge_request)) in
      elim r.outcome [
        | waiting ↦ record { sent = asked; result = unanswered waiting }
        | no_response ↦ record { sent = asked; result = unanswered no_response }
        | read_failed e ↦ record { sent = asked; result = unanswered (read_failed e) }
        | answered m rest ↦ elim m [
          | err e ↦ record { sent = asked; result = some (err e) }
          | ok msg ↦ elim (check_challenge msg.message_type msg.challenge) [
            | err e ↦ record { sent = asked; result = some (err e) }
            | ok challenge ↦
                let second_half = submit later challenge rest in
                record { sent = asked ++ second_half.sent; result = second_half.result }
          ]
        ]
      ]
