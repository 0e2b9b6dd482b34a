-- ===== src/Client/Uplink/Examples.antt =====
-- client/uplink/client.go with a toy encoding and a toy hash.
use ipxbox.Common.{
  ℕ, ◌≡◌, ◌≢◌, refl, ap, arith, true, false, List, [], ◌∷◌, ◌++◌, Option, none, some, ok, err,
  length, replicate, take, drop, take-append, drop-append, ◌==◌, if◌then◌else◌,
}
use ipxbox.Common.Bytes.{byte_at, IsByte}
use ipxbox.Ipx.{zero_header}
use ipxbox.Server.Uplink.{
  MessageType, get_challenge_request, get_challenge_response, submit_solution,
  submit_solution_accepted, submit_solution_rejected, keepalive, close_connection, other_type,
  Message, bare, solve_challenge, control_packet,
}
use ipxbox.Client.{Turn, got, timed_out}
use ipxbox.Client.Uplink.{permission_denied, handshake_connect}
use ipxbox.Client.Uplink.Handshake.{Proven, handshake_connect-Proven}
use ipxbox.Client.Uplink.Agreement.{
  Encodes, challenge_packet, accepted_packet, rejected_packet, served, hears,
  same_password_connects, wrong_password_refused,
}
use ipxbox.Common.{All}
use ipxbox.Common.{◌%◌}

-- A message in bytes: its type, two lengths, and its three lists.
abbrev tag : MessageType → ℕ
tag get_challenge_request = 0
tag get_challenge_response = 1
tag submit_solution = 2
tag submit_solution_accepted = 3
tag submit_solution_rejected = 4
tag keepalive = 5
tag close_connection = 6
tag (other_type _) = 7

abbrev name : MessageType → List ℕ
name (other_type bytes) = bytes
name _ = []

abbrev message_type : ℕ → List ℕ → MessageType
message_type n bytes =
    if n == 0
    then get_challenge_request
    else if n == 1
    then get_challenge_response
    else if n == 2
    then submit_solution
    else if n == 3
    then submit_solution_accepted
    else if n == 4
    then submit_solution_rejected
    else if n == 5
    then keepalive
    else if n == 6
    then close_connection
    else other_type bytes

abbrev encode : Message → List ℕ
encode m =
    tag m.message_type
    ∷ length (name m.message_type)
    ∷ length m.challenge
    ∷ (name m.message_type ++ (m.challenge ++ m.solution))

abbrev decode : List ℕ → Option Message
decode (t ∷ n ∷ c ∷ bytes) = some (record {
  message_type = message_type t (take n bytes);
  challenge = take c (drop n bytes);
  solution = drop c (drop n bytes);
})
decode _ = none

message_type-tag : (k : MessageType) → message_type (tag k) (name k) ≡ k
message_type-tag get_challenge_request = refl
message_type-tag get_challenge_response = refl
message_type-tag submit_solution = refl
message_type-tag submit_solution_accepted = refl
message_type-tag submit_solution_rejected = refl
message_type-tag keepalive = refl
message_type-tag close_connection = refl
message_type-tag (other_type bytes) = refl

decode-encode : (m : Message) → decode (encode m) ≡ some m
decode-encode m =
    rw
      (
        take-append (name m.message_type) (m.challenge ++ m.solution),
        drop-append (name m.message_type) (m.challenge ++ m.solution),
        take-append m.challenge m.solution,
        drop-append m.challenge m.solution,
        message_type-tag m.message_type,
      )
      refl

-- The bytes themselves, in eight bits.
abbrev toy_sum : List ℕ → List ℕ
toy_sum [] = []
toy_sum (b ∷ bytes) = b % 256 ∷ toy_sum bytes

toy_sum-bytes : (bytes : List ℕ) → All IsByte (toy_sum bytes)
toy_sum-bytes [] = tt
toy_sum-bytes (b ∷ bytes) = (omega arith, toy_sum-bytes bytes)

abbrev secret : List ℕ
secret = 1 ∷ 2 ∷ []

abbrev server_bytes : List ℕ
server_bytes = replicate 64 7

abbrev client_bytes : List ℕ
client_bytes = replicate 64 8

toy-Encodes : Encodes decode encode toy_sum client_bytes server_bytes
toy-Encodes = record {
  decodes = λ m n c s. decode-encode m;
  hash_bytes = toy_sum-bytes;
  client_bytes = omega arith;
  server_bytes = omega arith;
}

-- A packet that is not for the client, and a keepalive after a time-out.
abbrev early_noise : List Turn
early_noise = record { now = 1; event = got (record { header = zero_header; payload = [] }) } ∷ []

abbrev late_noise : List Turn
late_noise =
    record { now = 5; event = timed_out }
    ∷ record { now = 6; event = got (control_packet encode (bare keepalive)) }
    ∷ []

-- The turns of a client that connects.
abbrev turns : List Turn
turns =
    hears decode encode toy_sum 1 secret client_bytes secret server_bytes early_noise late_noise 2 7
      (accepted_packet decode encode toy_sum 1 secret client_bytes secret server_bytes)

same_password_connects_example :
    ((served decode encode toy_sum 1 secret client_bytes secret server_bytes 2 7).authenticated
      ≡ true)
    × ((served decode encode toy_sum 1 secret client_bytes secret server_bytes 2 7).written
        ≡ challenge_packet decode encode toy_sum 1 secret client_bytes secret server_bytes
          ∷ accepted_packet decode encode toy_sum 1 secret client_bytes secret server_bytes
          ∷ [])
    × ((handshake_connect decode encode toy_sum 1 secret client_bytes 0 4 turns).result
        ≡ some (ok tt))
same_password_connects_example =
    same_password_connects decode encode toy_sum 1 secret client_bytes secret server_bytes 0 4 2 7
      early_noise late_noise toy-Encodes (omega arith) (omega arith) refl
      ((ground arith, tt), omega arith) ((tt, (ground arith, tt)), omega arith)

turns_test :
    (handshake_connect decode encode toy_sum 1 secret client_bytes 0 4 turns).result ≡ some (ok tt)
turns_test =
    (same_password_connects decode encode toy_sum 1 secret client_bytes secret server_bytes 0 4 2 7
      early_noise late_noise toy-Encodes (omega arith) (omega arith) refl
      ((ground arith, tt), omega arith) ((tt, (ground arith, tt)), omega arith)).2

handshake_connect-Proven_example : Proven decode encode toy_sum 1 secret client_bytes turns
handshake_connect-Proven_example =
    handshake_connect-Proven decode encode toy_sum 1 secret client_bytes 0 4 turns turns_test

abbrev guess : List ℕ
guess = 3 ∷ 2 ∷ []

first_letters_differ : (a b : ℕ) → a ≡ 3 → b ≡ 1 → a ≢ b
first_letters_differ a b p q e = omega (arith, p, q, e)

wrong_password_refused_example :
    ((served decode encode toy_sum 1 guess client_bytes secret server_bytes 2 7).authenticated
      ≡ false)
    × ((served decode encode toy_sum 1 guess client_bytes secret server_bytes 2 7).closed ≡ true)
    × ((served decode encode toy_sum 1 guess client_bytes secret server_bytes 2 7).written
        ≡ challenge_packet decode encode toy_sum 1 guess client_bytes secret server_bytes
          ∷ rejected_packet decode encode toy_sum 1 guess client_bytes secret server_bytes
          ∷ [])
    × ((handshake_connect decode encode toy_sum 1 guess client_bytes 0 4 (
          hears decode encode toy_sum 1 guess client_bytes secret server_bytes early_noise
            late_noise 2 7
            (rejected_packet decode encode toy_sum 1 guess client_bytes secret
              server_bytes))).result
        ≡ some (err permission_denied))
unfolding solve_challenge
wrong_password_refused_example =
    wrong_password_refused decode encode toy_sum 1 guess client_bytes secret server_bytes 0 4 2 7
      early_noise late_noise toy-Encodes (omega arith) (omega arith)
      (λ e. first_letters_differ 3 1 refl refl (ap (λ bytes. byte_at bytes 70) e))
      ((ground arith, tt), omega arith) ((tt, (ground arith, tt)), omega arith)
