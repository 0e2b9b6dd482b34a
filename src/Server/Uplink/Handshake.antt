-- ===== src/Server/Uplink/Handshake.antt =====
-- Authentication in server/uplink/protocol.go.
use ipxbox.Common.{
  ℕ, ◌≤◌, ◌≡◌, refl, ◌∙◌, arith, true, false, List, [], ◌∷◌, ◌++◌, Option, none, some, Result, ok,
  err, length, All, ◌⊎◌, inl, inr,
}
use ipxbox.Common.Bytes.{All-append}
use ipxbox.Common.Bytes.{bytes_equal_sound, bytes_equal_refl}
use ipxbox.Ipx.{addr_eq, Packet}
use ipxbox.Server.Uplink.{
  submit_solution, submit_solution_accepted, Message, bare, address, min_challenge_length, Error,
  Client, client_side, server_side, solve_challenge, control_packet, send_uplink_message,
  authenticate, handle_uplink_packet, handle_packet, read_packet, write_packet, send_keepalive,
}
use ipxbox.Server.Uplink.{get_challenge_response}
use ipxbox.Server.Uplink.{submit_solution_rejected}

module _ (decode : List ℕ → Option Message) (encode : Message → List ℕ) (sum256 : List ℕ → List ℕ)
    (password : List ℕ) where
  -- A message is a right answer to the challenge.
  abbrev pub Answers : List ℕ → Message → Type 0
  Answers challenge msg =
      (msg.message_type ≡ submit_solution)
      × (min_challenge_length ≤ length msg.challenge)
      × (msg.solution ≡ solve_challenge sum256 client_side password challenge)

  -- A packet is a control packet with a right answer to the challenge.
  abbrev pub Solves : List ℕ → Packet → Type 0
  Solves challenge packet =
      (addr_eq packet.header.dest.addr address ≡ true)
      × ((msg : Message) × (decode packet.payload ≡ some msg) × Answers challenge msg)

  abbrev pub IsControl : Packet → Type 0
  IsControl packet = packet.header.dest.addr ≡ address

  authenticate-locked :
      (now : ℕ) (msg : Message) (c : Client)
      → c.authenticated ≡ false
      → msg.message_type ≡ submit_solution
      → ((authenticate decode encode sum256 password now msg c).client.authenticated ≡ false)
        ⊎ Answers c.challenge msg
  unfolding authenticate send_uplink_message
  authenticate-locked now msg c a t = ground (
    arith,
    a,
    t,
    bytes_equal_sound msg.solution (solve_challenge sum256 client_side password c.challenge),
  )

  authenticate-challenge :
      (now : ℕ) (msg : Message) (c : Client)
      → (authenticate decode encode sum256 password now msg c).client.challenge ≡ c.challenge
  unfolding authenticate send_uplink_message
  authenticate-challenge now msg c = ground arith

  handle_packet-challenge :
      (now : ℕ) (packet : Packet) (c : Client)
      → (handle_packet decode encode sum256 password now packet c).challenge ≡ c.challenge
  unfolding handle_uplink_packet send_uplink_message
  handle_packet-challenge now packet c = split (decode packet.payload) refl
    where
      split :
          (m : Option Message)
          → decode packet.payload ≡ m
          → (handle_packet decode encode sum256 password now packet c).challenge ≡ c.challenge
      split none e = ground (arith, e)
      split (some msg) e = ground (arith, e, authenticate-challenge now msg c)

  written-Control :
      (msg : Message) (c : Client)
      → All IsControl c.written
      → All IsControl (c.written ++ (control_packet encode msg ∷ []))
  written-Control msg c a =
      All-append IsControl c.written (control_packet encode msg ∷ []) a (refl, tt)

  authenticate-Control :
      (now : ℕ) (msg : Message) (c : Client)
      → All IsControl c.written
      → All IsControl (authenticate decode encode sum256 password now msg c).client.written
  unfolding authenticate send_uplink_message
  authenticate-Control now msg c a = ground (
    arith,
    a,
    written-Control (bare submit_solution_rejected) c a,
    written-Control
        (record (bare submit_solution_accepted) {
          solution = solve_challenge sum256 server_side password msg.challenge;
        })
        c a,
  )

  handle_packet-locked :
      (now : ℕ) (packet : Packet) (c : Client)
      → c.authenticated ≡ false
      → ((handle_packet decode encode sum256 password now packet c).authenticated ≡ false)
        ⊎ Solves c.challenge packet
  unfolding handle_uplink_packet send_uplink_message
  handle_packet-locked now packet c a = split (decode packet.payload) refl
    where
      split :
          (m : Option Message)
          → decode packet.payload ≡ m
          → ((handle_packet decode encode sum256 password now packet c).authenticated ≡ false)
            ⊎ Solves c.challenge packet
      split none e = inl (ground (arith, a, e))
      split (some msg) e = ground (arith, a, e, authenticate-locked now msg c a)

  handle_packet-Control :
      (now : ℕ) (packet : Packet) (c : Client)
      → All IsControl c.written
      → All IsControl (handle_packet decode encode sum256 password now packet c).written
  unfolding handle_uplink_packet send_uplink_message
  handle_packet-Control now packet c a = split (decode packet.payload) refl
    where
      split :
          (m : Option Message)
          → decode packet.payload ≡ m
          → All IsControl (handle_packet decode encode sum256 password now packet c).written
      split none e = ground (arith, a, e)
      split (some msg) e = ground (
        arith,
        a,
        e,
        authenticate-Control now msg c a,
        written-Control (record (bare get_challenge_response) { challenge = c.challenge }) c a,
      )

  -- None of the packets that the inner connection returns solves the challenge.
  abbrev pub NoneSolves : List ℕ → List (ℕ × Result Error Packet) → Type 0
  NoneSolves challenge [] = Unit
  NoneSolves challenge ((now, err e) ∷ rest) = NoneSolves challenge rest
  NoneSolves challenge ((now, ok packet) ∷ rest) =
      (Solves challenge packet → ⊥) × NoneSolves challenge rest

  -- Not authenticated, with a challenge, and only control messages written so far.
  pub record IsLocked (challenge : List ℕ) (c : Client) : Type 0 where
    pub not_authenticated : c.authenticated ≡ false
    pub same_challenge : c.challenge ≡ challenge
    pub only_control : All IsControl c.written

  handle_packet-IsLocked :
      (challenge : List ℕ) (now : ℕ) (packet : Packet) (c : Client)
      → IsLocked challenge c
      → (Solves challenge packet → ⊥)
      → IsLocked challenge (handle_packet decode encode sum256 password now packet c)
  handle_packet-IsLocked challenge now packet c l n = record {
    not_authenticated = elim (handle_packet-locked now packet c l.not_authenticated) [
      | inl p ↦ p
      | inr q ↦ elim (n (rw (← l.same_challenge) q)) [ ]
    ];
    same_challenge = handle_packet-challenge now packet c ∙ l.same_challenge;
    only_control = handle_packet-Control now packet c l.only_control;
  }

  -- Nothing read: the call still waits, or the inner connection returned an error.
  abbrev pub GivesNoPacket : Option (Result Error Packet) → Type 0
  GivesNoPacket none = Unit
  GivesNoPacket (some (err e)) = Unit
  GivesNoPacket (some (ok packet)) = ⊥

  read_packet-IsLocked :
      (challenge : List ℕ) (incoming : List (ℕ × Result Error Packet)) (c : Client)
      → IsLocked challenge c
      → NoneSolves challenge incoming
      → IsLocked challenge (read_packet decode encode sum256 password incoming c).client
        × GivesNoPacket (read_packet decode encode sum256 password incoming c).result
  unfolding read_packet
  read_packet-IsLocked challenge [] c l n = (l, tt)
  read_packet-IsLocked challenge ((now, err e) ∷ rest) c l n = (l, tt)
  read_packet-IsLocked challenge ((now, ok packet) ∷ rest) c l (n, ns) =
      let c' = handle_packet decode encode sum256 password now packet c in
      let l' = handle_packet-IsLocked challenge now packet c l n in
      rw l'.not_authenticated (read_packet-IsLocked challenge rest c' l' ns)

  -- What happens to a client: ReadPacket, WritePacket and the turns of sendKeepalives.
  pub data Call : Type 0 where
    reads : List (ℕ × Result Error Packet) → Call
    writes : (now : ℕ) → Result Error (Unit {0}) → Packet → Call
    ticks : (keepalive_time now : ℕ) → Call

  unfoldable pub call : Call → Client → Client
  call (reads incoming) c = (read_packet decode encode sum256 password incoming c).client
  call (writes now inner packet) c = (write_packet now inner packet c).client
  call (ticks keepalive_time now) c = send_keepalive encode keepalive_time now c

  unfoldable pub calls : List Call → Client → Client
  calls [] c = c
  calls (x ∷ xs) c = calls xs (call x c)

  -- None of the calls reads a packet that solves the challenge.
  abbrev pub NoneSolved : List ℕ → List Call → Type 0
  NoneSolved challenge [] = Unit
  NoneSolved challenge (reads incoming ∷ xs) =
      NoneSolves challenge incoming × NoneSolved challenge xs
  NoneSolved challenge (writes _ _ _ ∷ xs) = NoneSolved challenge xs
  NoneSolved challenge (ticks _ _ ∷ xs) = NoneSolved challenge xs

  write_packet-IsLocked :
      (challenge : List ℕ) (now : ℕ) (inner : Result Error (Unit {0})) (packet : Packet)
      (c : Client)
      → IsLocked challenge c
      → IsLocked challenge (write_packet now inner packet c).client
  unfolding write_packet
  write_packet-IsLocked challenge now inner packet c l = record {
    not_authenticated = ground (arith, l.not_authenticated);
    same_challenge = ground (arith, l.not_authenticated, l.same_challenge);
    only_control = ground (arith, l.not_authenticated, l.only_control);
  }

  send_keepalive-IsLocked :
      (challenge : List ℕ) (keepalive_time now : ℕ) (c : Client)
      → IsLocked challenge c
      → IsLocked challenge (send_keepalive encode keepalive_time now c)
  unfolding send_keepalive
  send_keepalive-IsLocked challenge keepalive_time now c l = record {
    not_authenticated = ground (arith, l.not_authenticated);
    same_challenge = ground (arith, l.not_authenticated, l.same_challenge);
    only_control = ground (arith, l.not_authenticated, l.only_control);
  }

  -- As long as no packet that is read is a right answer to the client's challenge, the client stays
  -- unauthenticated through any sequence of reads, writes and keepalive turns, and all that was
  -- written to it are control messages.
  pub calls-IsLocked :
      (challenge : List ℕ) (xs : List Call) (c : Client)
      → IsLocked challenge c
      → NoneSolved challenge xs
      → IsLocked challenge (calls xs c)
  unfolding calls call
  calls-IsLocked challenge [] c l n = l
  calls-IsLocked challenge (reads incoming ∷ xs) c l (n, ns) =
      calls-IsLocked challenge xs (call (reads incoming) c)
        (read_packet-IsLocked challenge incoming c l n).0 ns
  calls-IsLocked challenge (writes now inner packet ∷ xs) c l ns =
      calls-IsLocked challenge xs (call (writes now inner packet) c)
        (write_packet-IsLocked challenge now inner packet c l) ns
  calls-IsLocked challenge (ticks keepalive_time now ∷ xs) c l ns =
      calls-IsLocked challenge xs (call (ticks keepalive_time now) c)
        (send_keepalive-IsLocked challenge keepalive_time now c l) ns

  -- An unauthenticated client that sends the right answer becomes authenticated, is sent the answer
  -- to its own challenge, and ReadPacket returns that control packet itself to its caller.
  pub read_packet-accepted :
      (now : ℕ) (msg : Message) (packet : Packet) (rest : List (ℕ × Result Error Packet))
      (c : Client)
      → c.authenticated ≡ false
      → addr_eq packet.header.dest.addr address ≡ true
      → decode packet.payload ≡ some msg
      → Answers c.challenge msg
      → read_packet decode encode sum256 password ((now, ok packet) ∷ rest) c ≡ record {
        client = record c {
          authenticated = true;
          last_send_time = now;
          written =
              c.written
              ++ (control_packet encode (record (bare submit_solution_accepted) {
                solution = solve_challenge sum256 server_side password msg.challenge;
              })
                  ∷ []);
        };
        result = some (ok packet);
      }
  unfolding read_packet handle_uplink_packet authenticate send_uplink_message
  read_packet-accepted now msg packet rest c a d e (t, long, right) = ground (
    arith,
    a,
    d,
    e,
    t,
    long,
    right,
    bytes_equal_refl (solve_challenge sum256 client_side password c.challenge),
  )
