-- ===== src/Client/Uplink/Handshake.antt =====
-- The handshake of client/uplink/client.go, alone and with the server of server/uplink/protocol.go.
use ipxbox.Common.{
  ℕ, ◌≤◌, ◌≡◌, refl, sym, arith, true, List, ◌∷◌, Option, none, some, Result, ok, err, ltb, length,
  Bool-cases,
}
use mathlib.Core.Path.{subst}
use ipxbox.Common.Bytes.{bytes_equal_sound}
use ipxbox.Ipx.{Packet}
use ipxbox.Server.Uplink.{
  MessageType, get_challenge_request, get_challenge_response, submit_solution,
  submit_solution_accepted, submit_solution_rejected, keepalive, close_connection, other_type,
  Message, min_challenge_length,
}
use ipxbox.Client.{Turn, got, Outcome, waiting, no_response, read_failed, answered, await}
use ipxbox.Client.Retries.{EndsAt, here, there, await-EndsAt}
use ipxbox.Client.Uplink.{
  Error, check_challenge, check_solution, is_control, response, send_until_response,
  client_solution, submit, handshake_connect,
}
use ipxbox.Common.{inl}
use ipxbox.Common.{inr}

module _ (decode : List ℕ → Option Message) (encode : Message → List ℕ) (sum256 : List ℕ → List ℕ)
    (second : ℕ) (password client_challenge : List ℕ) where
  -- A control message of a type that is read in a turn, with its challenge and its solution.
  pub record Says (kind : MessageType) (challenge solution : List ℕ) (t : Turn) : Type 0 where
    pub packet : Packet
    pub message : Message
    pub reads : t.event ≡ got packet
    pub control : is_control packet ≡ true
    pub decodes : decode packet.payload ≡ some message
    pub says_kind : message.message_type ≡ kind
    pub says_challenge : message.challenge ≡ challenge
    pub says_solution : message.solution ≡ solution

  -- The turns contain one that accepts the client and solves the client's challenge.
  pub data Accepted : List Turn → Type 0 where
    passed : (t : Turn) (turns : List Turn) → Accepted turns → Accepted (t ∷ turns)
    accepted :
        (t : Turn) (turns : List Turn) (challenge : List ℕ)
        → Says submit_solution_accepted challenge
            (client_solution decode encode sum256 second password client_challenge)
            t
        → Accepted (t ∷ turns)

  -- The turns contain one with a challenge that is long enough and, after it, one that accepts the
  -- client and solves the client's own challenge.
  pub data Proven : List Turn → Type 0 where
    before : (t : Turn) (turns : List Turn) → Proven turns → Proven (t ∷ turns)
    challenged :
        (t : Turn) (turns : List Turn) (challenge solution : List ℕ)
        → min_challenge_length ≤ length challenge
        → Says get_challenge_response challenge solution t
        → Accepted turns
        → Proven (t ∷ turns)

  check_challenge_sound :
      (kind : MessageType) (c challenge : List ℕ)
      → check_challenge kind c ≡ ok challenge
      → (kind ≡ get_challenge_response)
        × (c ≡ challenge)
        × (min_challenge_length ≤ length challenge)
  check_challenge_sound get_challenge_response c challenge e =
      elim (Bool-cases (ltb (length c) min_challenge_length)) [
        | inl l ↦ let x : ⊥ = ground (arith, e, l) in elim x [ ]
        | inr l ↦
            let q : c ≡ challenge = ground (arith, e, l) in
            (refl, q, subst (λ x. min_challenge_length ≤ length x) q (ground (arith, l)))
      ]
  check_challenge_sound get_challenge_request c challenge e = ground (arith, e)
  check_challenge_sound submit_solution c challenge e = ground (arith, e)
  check_challenge_sound submit_solution_accepted c challenge e = ground (arith, e)
  check_challenge_sound submit_solution_rejected c challenge e = ground (arith, e)
  check_challenge_sound keepalive c challenge e = ground (arith, e)
  check_challenge_sound close_connection c challenge e = ground (arith, e)
  check_challenge_sound (other_type x) c challenge e = ground (arith, e)

  check_solution_sound :
      (kind : MessageType) (s t : List ℕ)
      → check_solution kind s t ≡ ok tt
      → (kind ≡ submit_solution_accepted) × (s ≡ t)
  check_solution_sound submit_solution_accepted s t e =
      (refl, bytes_equal_sound s t (ground (arith, e)))
  check_solution_sound submit_solution_rejected s t e = ground (arith, e)
  check_solution_sound get_challenge_response s t e = ground (arith, e)
  check_solution_sound get_challenge_request s t e = ground (arith, e)
  check_solution_sound submit_solution s t e = ground (arith, e)
  check_solution_sound keepalive s t e = ground (arith, e)
  check_solution_sound close_connection s t e = ground (arith, e)
  check_solution_sound (other_type x) s t e = ground (arith, e)

  -- What a response comes from.
  response_sound :
      (packet : Packet) (msg : Message)
      → response decode encode sum256 second password client_challenge packet ≡ some (ok msg)
      → (is_control packet ≡ true) × (decode packet.payload ≡ some msg)
  response_sound packet msg e = split (decode packet.payload) refl
    where
      split :
          (m : Option Message)
          → decode packet.payload ≡ m
          → (is_control packet ≡ true) × (decode packet.payload ≡ some msg)
      split none f = ground (arith, e, f)
      split (some m) f = ground (arith, e, f)

  says :
      (t : Turn) (packet : Packet) (msg : Message)
      → t.event ≡ got packet
      → response decode encode sum256 second password client_challenge packet ≡ some (ok msg)
      → Says msg.message_type msg.challenge msg.solution t
  says t packet msg e r =
      let s = response_sound packet msg r in
      record {
        packet = packet;
        message = msg;
        reads = e;
        control = s.0;
        decodes = s.1;
        says_kind = refl;
        says_challenge = refl;
        says_solution = refl;
      }

  ends-Accepted :
      (msg : Message) (rest turns : List Turn)
      → EndsAt
          (response decode encode sum256 second password client_challenge)
          second
          (ok msg)
          rest
          turns
      → msg.message_type ≡ submit_solution_accepted
      → msg.solution ≡ client_solution decode encode sum256 second password client_challenge
      → Accepted turns
  ends-Accepted msg rest turns (there t ts n) k s = passed t ts (ends-Accepted msg rest ts n k s)
  ends-Accepted msg rest turns (here t packet e r) k s = accepted t rest msg.challenge (
      subst (λ x. Says submit_solution_accepted msg.challenge x t) s
        (subst (λ x. Says x msg.challenge msg.solution t) k (says t packet msg e r)))

  ends-Proven :
      (msg : Message) (rest turns : List Turn)
      → EndsAt
          (response decode encode sum256 second password client_challenge)
          second
          (ok msg)
          rest
          turns
      → msg.message_type ≡ get_challenge_response
      → min_challenge_length ≤ length msg.challenge
      → Accepted rest
      → Proven turns
  ends-Proven msg rest turns (there t ts n) k l a = before t ts (ends-Proven msg rest ts n k l a)
  ends-Proven msg rest turns (here t packet e r) k l a =
      challenged t rest msg.challenge msg.solution l
        (subst (λ x. Says x msg.challenge msg.solution t) k (says t packet msg e r)) a

  submit-Accepted :
      (start : ℕ) (challenge : List ℕ) (turns : List Turn)
      → (submit decode encode sum256 second password client_challenge start challenge turns).result
        ≡ some (ok tt)
      → Accepted turns
  unfolding submit send_until_response
  submit-Accepted start challenge turns e =
      split
        (await (response decode encode sum256 second password client_challenge) second start 0
          turns).outcome
        refl
    where
      split :
          (o : Outcome (Result Error Message))
          → (await
              (response decode encode sum256 second password client_challenge)
              second
              start
              0
              turns).outcome
            ≡ o
          → Accepted turns
      split waiting f = let x : ⊥ = ground (arith, e, f) in elim x [ ]
      split no_response f = let x : ⊥ = ground (arith, e, f) in elim x [ ]
      split (read_failed n) f = let x : ⊥ = ground (arith, e, f) in elim x [ ]
      split (answered (err n) rest) f = let x : ⊥ = ground (arith, e, f) in elim x [ ]
      split (answered (ok msg) rest) f =
          let c =
            check_solution_sound msg.message_type msg.solution
              (client_solution decode encode sum256 second password client_challenge)
              (ground (arith, e, f)) in
          ends-Accepted msg rest turns
            (await-EndsAt (response decode encode sum256 second password client_challenge) second
              start 0 turns (ok msg) rest f)
            c.0 c.1

  -- The client takes a connection as made only after a control packet with a challenge of 64 bytes
  -- at least and, later, one that accepts it and carries the solution of the client's own challenge
  -- for the password.
  pub handshake_connect-Proven :
      (start later : ℕ) (turns : List Turn)
      → (handshake_connect decode encode sum256 second password client_challenge start later
          turns).result
        ≡ some (ok tt)
      → Proven turns
  unfolding handshake_connect send_until_response
  handshake_connect-Proven start later turns e =
      split
        (await (response decode encode sum256 second password client_challenge) second start 0
          turns).outcome
        refl
    where
      checked :
          (msg : Message) (rest : List Turn)
          → (await
              (response decode encode sum256 second password client_challenge)
              second
              start
              0
              turns).outcome
            ≡ answered (ok msg) rest
          → (c : Result Error (List ℕ)) → check_challenge msg.message_type msg.challenge ≡ c
          → Proven turns
      checked msg rest f (err n) g = let x : ⊥ = ground (arith, e, f, g) in elim x [ ]
      checked msg rest f (ok challenge) g =
          let c = check_challenge_sound msg.message_type msg.challenge challenge g in
          let q = sym c.1 in
          ends-Proven msg rest turns
            (await-EndsAt (response decode encode sum256 second password client_challenge) second
              start 0 turns (ok msg) rest f)
            c.0 (subst (λ x. min_challenge_length ≤ length x) q c.2)
            (submit-Accepted later challenge rest (ground (arith, e, f, g)))

      split :
          (o : Outcome (Result Error Message))
          → (await
              (response decode encode sum256 second password client_challenge)
              second
              start
              0
              turns).outcome
            ≡ o
          → Proven turns
      split waiting f = let x : ⊥ = ground (arith, e, f) in elim x [ ]
      split no_response f = let x : ⊥ = ground (arith, e, f) in elim x [ ]
      split (read_failed n) f = let x : ⊥ = ground (arith, e, f) in elim x [ ]
      split (answered (err n) rest) f = let x : ⊥ = ground (arith, e, f) in elim x [ ]
      split (answered (ok msg) rest) f =
          checked msg rest f (check_challenge msg.message_type msg.challenge) refl
