-- ===== src/Client/Uplink/Agreement.antt =====
-- A client of client/uplink/client.go that connects to a server of server/uplink/protocol.go.
use ipxbox.Common.{
  ℕ, ◌<◌, ◌≤◌, ◌≡◌, ◌≢◌, refl, ap, ◌∙◌, arith, true, false, List, [], ◌∷◌, ◌++◌, Option, some, ok,
  err, length, All, Bool-cases, le→ltb, inl, inr,
}
use ipxbox.Common.Bytes.{IsByte, bytes_equal, bytes_equal_sound, bytes_equal_refl}
use ipxbox.Ipx.{Packet}
use ipxbox.Server.Uplink.{
  MessageType, get_challenge_request, get_challenge_response, submit_solution,
  submit_solution_accepted, submit_solution_rejected, keepalive, close_connection, other_type,
  Message, bare, address, min_challenge_length, client_side, server_side, solve_challenge,
  control_packet, start_client, handle_packet, handle_uplink_packet, authenticate,
  send_uplink_message,
}
use ipxbox.Server.Uplink
use ipxbox.Client.{Turn, got, max_connect_attempts}
use ipxbox.Client.Retries.{Ignored, await_answered}
use ipxbox.Client.Uplink.{
  permission_denied, check_solution, is_keepalive, is_control, response, send_until_response,
  solution_message, client_solution, submit, handshake_connect,
}

bytes_unequal : (xs ys : List ℕ) → xs ≢ ys → bytes_equal xs ys ≡ false
bytes_unequal xs ys n = elim (Bool-cases (bytes_equal xs ys)) [
  | inl e ↦ elim (n (bytes_equal_sound xs ys e)) [ ]
  | inr e ↦ e
]

-- The message types that the protocol names.
abbrev pub IsNamed : MessageType → Type 0
IsNamed (other_type name) = ⊥
IsNamed _ = Unit

-- What the two sides rely on: a message with a type that the protocol names, and with lists of
-- bytes, is decoded as it was; a hash consists of bytes, and so do the two challenges.
pub record Encodes (decode : List ℕ → Option Message) (encode : Message → List ℕ)
    (sum256 : List ℕ → List ℕ) (client_challenge server_challenge : List ℕ) : Type 0 where
  pub decodes :
      (m : Message)
      → IsNamed m.message_type
      → All IsByte m.challenge
      → All IsByte m.solution
      → decode (encode m) ≡ some m
  pub hash_bytes : (bytes : List ℕ) → All IsByte (sum256 bytes)
  pub client_bytes : All IsByte client_challenge
  pub server_bytes : All IsByte server_challenge

solve_challenge-bytes :
    (sum256 : List ℕ → List ℕ) (side password challenge : List ℕ)
    → ((bytes : List ℕ) → All IsByte (sum256 bytes))
    → All IsByte (solve_challenge sum256 side password challenge)
unfolding solve_challenge
solve_challenge-bytes sum256 side password challenge h = h _

module _ (decode : List ℕ → Option Message) (encode : Message → List ℕ) (sum256 : List ℕ → List ℕ)
    (second : ℕ) (password client_challenge server_password server_challenge : List ℕ) where
  -- What the server sends for the client's first message, and for its second one if it accepts it.
  abbrev pub challenge_packet : Packet
  challenge_packet =
      control_packet encode (record (bare get_challenge_response) { challenge = server_challenge })

  abbrev pub accepted_packet : Packet
  accepted_packet = control_packet encode (record (bare submit_solution_accepted) {
    solution = solve_challenge sum256 server_side server_password client_challenge;
  })

  abbrev pub rejected_packet : Packet
  rejected_packet = control_packet encode (bare submit_solution_rejected)

  -- The server's side after it has read the client's two messages, at two times.
  abbrev pub served : (t u : ℕ) → Uplink.Client
  served t u =
      handle_packet decode encode sum256 server_password u
        (control_packet encode
          (solution_message decode encode sum256 second password client_challenge server_challenge))
        (handle_packet decode encode sum256 server_password t
          (control_packet encode (bare get_challenge_request)) (start_client server_challenge))

  abbrev NoiseOf : List Turn → Type 0
  NoiseOf noise =
      All
        (λ t.
          Ignored (response decode encode sum256 second password client_challenge) second t.event)
        noise
      × (length noise < max_connect_attempts)

  -- The client's turns: some noise, the first answer, some noise again, and the second answer.
  abbrev pub hears : (noise more : List Turn) → (t u : ℕ) → (second_answer : Packet) → List Turn
  hears noise more t u second_answer =
      noise
      ++ (record { now = t; event = got challenge_packet }
          ∷ (more ++ (record { now = u; event = got second_answer } ∷ [])))

  control_packet-control : (m : Message) → is_control (control_packet encode m) ≡ true
  control_packet-control m = ground arith

  -- The client comes to the check of the second answer.
  handshake_checks :
      (start later t u : ℕ) (noise more : List Turn) (msg : Message)
      → Encodes decode encode sum256 client_challenge server_challenge
      → decode (encode msg) ≡ some msg
      → min_challenge_length ≤ length server_challenge
      → is_keepalive msg.message_type ≡ false
      → NoiseOf noise
      → NoiseOf more
      → (handshake_connect decode encode sum256 second password client_challenge start later
          (hears noise more t u (control_packet encode msg))).result
        ≡ some (
            check_solution msg.message_type msg.solution
              (client_solution decode encode sum256 second password client_challenge))
  unfolding handshake_connect submit send_until_response
  handshake_checks start later t u noise more msg r d l k n m =
      let first =
        await_answered (response decode encode sum256 second password client_challenge) second start
          0 noise t challenge_packet
          (ok (record (bare get_challenge_response) { challenge = server_challenge }))
          (more ++ (record { now = u; event = got (control_packet encode msg) } ∷ [])) n.0
          (rw
            (
              control_packet-control
                  (record (bare get_challenge_response) { challenge = server_challenge }),
              r.decodes (record (bare get_challenge_response) { challenge = server_challenge }) tt
                  r.server_bytes tt,
            )
            refl)
          (omega (arith, n.1)) in
      let last =
        await_answered (response decode encode sum256 second password client_challenge) second later
          0 more u (control_packet encode msg) (ok msg) [] m.0
          (rw (control_packet-control msg, d, k) refl) (omega (arith, m.1)) in
      rw
        (
          handshake_connect,
          first,
          le→ltb (length server_challenge) min_challenge_length l,
          submit,
          last,
        )
        refl

  -- The server's side after the client's first message.
  abbrev asked : Uplink.Client
  asked = record (start_client server_challenge) { written = challenge_packet ∷ [] }

  request_lem :
      (t : ℕ)
      → Encodes decode encode sum256 client_challenge server_challenge
      → handle_packet decode encode sum256 server_password t
          (control_packet encode (bare get_challenge_request))
          (start_client server_challenge)
        ≡ asked
  unfolding handle_uplink_packet send_uplink_message start_client
  request_lem t r =
      rw
        (
          control_packet-control (bare get_challenge_request),
          handle_uplink_packet,
          r.decodes (bare get_challenge_request) tt tt tt,
        )
        refl

  submission_lem :
      (u : ℕ)
      → Encodes decode encode sum256 client_challenge server_challenge
      → handle_packet decode encode sum256 server_password u
          (control_packet encode (
            solution_message decode encode sum256 second password client_challenge
              server_challenge))
          asked
        ≡ (authenticate decode encode sum256 server_password u
            (solution_message decode encode sum256 second password client_challenge
              server_challenge)
            asked).client
  unfolding handle_uplink_packet
  submission_lem u r =
      let msg =
        solution_message decode encode sum256 second password client_challenge server_challenge in
      rw
        (
          control_packet-control msg,
          handle_uplink_packet,
          r.decodes msg tt r.client_bytes
              (solve_challenge-bytes sum256 client_side password server_challenge r.hash_bytes),
        )
        refl

  served_lem :
      (t u : ℕ)
      → Encodes decode encode sum256 client_challenge server_challenge
      → served t u
        ≡ (authenticate decode encode sum256 server_password u
            (solution_message decode encode sum256 second password client_challenge
              server_challenge)
            asked).client
  served_lem t u r =
      ap
        (λ c.
          handle_packet decode encode sum256 server_password u
            (control_packet encode (
              solution_message decode encode sum256 second password client_challenge
                server_challenge))
            c)
        (request_lem t r)
      ∙ submission_lem u r

  -- A client and a server with the same password and with challenges of 64 bytes at least, over an
  -- encoding that gives the messages of the protocol's own types back and a hash of bytes: after the
  -- server has read the client's two messages the client is authenticated there, and what the server
  -- has written are two answers, with which the client's handshake succeeds, whatever few packets of
  -- other kinds and time-outs come before each.
  pub same_password_connects :
      (start later t u : ℕ) (noise more : List Turn)
      → Encodes decode encode sum256 client_challenge server_challenge
      → min_challenge_length ≤ length server_challenge
      → min_challenge_length ≤ length client_challenge
      → server_password ≡ password
      → NoiseOf noise
      → NoiseOf more
      → ((served t u).authenticated ≡ true)
        × ((served t u).written ≡ challenge_packet ∷ accepted_packet ∷ [])
        × ((handshake_connect decode encode sum256 second password client_challenge start later
              (hears noise more t u accepted_packet)).result
            ≡ some (ok tt))
  unfolding authenticate send_uplink_message start_client
  same_password_connects start later t u noise more r l c p n m =
      let e = bytes_equal_refl (solve_challenge sum256 client_side password server_challenge) in
      let s = served_lem t u r in
      let k =
        handshake_checks start later t u noise more
          (record (bare submit_solution_accepted) {
            solution = solve_challenge sum256 server_side server_password client_challenge;
          })
          r
          (r.decodes
            (record (bare submit_solution_accepted) {
              solution = solve_challenge sum256 server_side server_password client_challenge;
            })
            tt tt
            (solve_challenge-bytes sum256 server_side server_password client_challenge
              r.hash_bytes))
          l refl n m in
      (
        rw (s, authenticate, le→ltb (length client_challenge) min_challenge_length c, p, e) refl,
        rw (s, authenticate, le→ltb (length client_challenge) min_challenge_length c, p, e) refl,
        k
            ∙ rw
                (p, bytes_equal_refl (solve_challenge sum256 server_side password client_challenge))
                refl,
      )

  -- With challenges of 64 bytes at least, over an encoding that gives the messages of the protocol's
  -- own types back and a hash of bytes, when the client's solution for its password is not the one
  -- for the server's: after the server has read the client's two messages the client is closed there
  -- and not authenticated, and with the two answers that the server has written the handshake fails
  -- for want of permission, whatever few packets of other kinds and time-outs come before each.
  pub wrong_password_refused :
      (start later t u : ℕ) (noise more : List Turn)
      → Encodes decode encode sum256 client_challenge server_challenge
      → min_challenge_length ≤ length server_challenge
      → min_challenge_length ≤ length client_challenge
      → solve_challenge sum256 client_side password server_challenge
        ≢ solve_challenge sum256 client_side server_password server_challenge
      → NoiseOf noise
      → NoiseOf more
      → ((served t u).authenticated ≡ false)
        × ((served t u).closed ≡ true)
        × ((served t u).written ≡ challenge_packet ∷ rejected_packet ∷ [])
        × ((handshake_connect decode encode sum256 second password client_challenge start later
              (hears noise more t u rejected_packet)).result
            ≡ some (err permission_denied))
  unfolding authenticate send_uplink_message start_client
  wrong_password_refused start later t u noise more r l c p n m =
      let e =
        bytes_unequal (solve_challenge sum256 client_side password server_challenge)
          (solve_challenge sum256 client_side server_password server_challenge) p in
      let s = served_lem t u r in
      let k = le→ltb (length client_challenge) min_challenge_length c in
      (
        rw (s, authenticate, k, e) refl,
        rw (s, authenticate, k, e) refl,
        rw (s, authenticate, k, e) refl,
        handshake_checks start later t u noise more (bare submit_solution_rejected) r
            (r.decodes (bare submit_solution_rejected) tt tt tt) l refl n m,
      )
