-- ===== src/Server/Uplink.antt =====
-- server/uplink/protocol.go: IPX in UDP behind a challenge and a response.
-- encoding/json and crypto/sha256 are parameters. The inner connection's WritePacket is a list of
-- the packets given to it, its ReadPacket a list of what it returns, its Close a flag. Times are
-- numbers, and the time of a call is an argument. The locks are held for single accesses only.
pub mod Handshake
mod Examples
use ipxbox.Common.{
  ℕ, ◌+◌, ◌<◌, Bool, true, false, not, ◌&&◌, List, [], ◌∷◌, ◌++◌, Option, none, some, Result, ok,
  err, ltb, ◌==◌, if◌then◌else◌, length,
}
use ipxbox.Common.Bytes.{bytes_equal}
use ipxbox.Ipx.{Addr, addr_eq, Header, HeaderAddr, Packet, zero_header, zero_header_addr}
use ipxbox.Common.{◌-◌}

-- The strings of the message types.
pub data MessageType : Type 0 where
  get_challenge_request : MessageType
  get_challenge_response : MessageType
  submit_solution : MessageType
  submit_solution_accepted : MessageType
  submit_solution_rejected : MessageType
  keepalive : MessageType
  close_connection : MessageType
  other_type : List ℕ → MessageType

pub record Message : Type 0 where
  pub message_type : MessageType
  pub challenge : List ℕ
  pub solution : List ℕ

-- A message with only its type.
abbrev pub bare : MessageType → Message
bare t = record { message_type = t; challenge = []; solution = [] }

-- `Address`, the letters of UpLiNK.
abbrev pub address : Addr
address = record { a0 = 85; a1 = 112; a2 = 76; a3 = 105; a4 = 78; a5 = 75 }

abbrev pub min_challenge_length : ℕ
min_challenge_length = 64

pub data Error : Type 0 where
  client_challenge_too_short : ℕ → Error
  invalid_json : Error
  inner_error : ℕ → Error

pub record Client : Type 0 where
  pub authenticated : Bool
  pub challenge : List ℕ
  pub last_send_time : ℕ
  pub written : List Packet
  pub closed : Bool

-- A call's result beside the client.
pub record Returned (A : Type 0) : Type 0 where
  pub client : Client
  pub result : A

abbrev pub close : Client → Client
close c = record c { closed = true }

-- The two sides' labels, "client" and "server".
abbrev pub client_side : List ℕ
client_side = 99 ∷ 108 ∷ 105 ∷ 101 ∷ 110 ∷ 116 ∷ []

abbrev pub server_side : List ℕ
server_side = 115 ∷ 101 ∷ 114 ∷ 118 ∷ 101 ∷ 114 ∷ []

-- Protocol.IsRegistrationPacket
unfoldable pub is_registration_packet : (decode : List ℕ → Option Message) → Packet → Bool
is_registration_packet decode packet =
    if not (addr_eq packet.header.dest.addr address) then false else elim (decode packet.payload) [
      | none ↦ false
      | some msg ↦ elim msg.message_type [
        | get_challenge_request ↦ true
        | get_challenge_response ↦ false
        | submit_solution ↦ false
        | submit_solution_accepted ↦ false
        | submit_solution_rejected ↦ false
        | keepalive ↦ false
        | close_connection ↦ false
        | other_type _ ↦ false
      ]
    ]

-- `client` of StartClient, once a challenge is drawn.
unfoldable pub start_client : (challenge : List ℕ) → Client
start_client challenge = record {
  authenticated = false;
  challenge = challenge;
  last_send_time = 0;
  written = [];
  closed = false;
}

unfoldable pub solve_challenge :
    (sum256 : List ℕ → List ℕ) → (side password challenge : List ℕ) → List ℕ
solve_challenge sum256 side password challenge =
    sum256 (side ++ (challenge ++ (password ++ challenge)))

-- The packet that carries a control message.
abbrev pub control_packet : (encode : Message → List ℕ) → Message → Packet
control_packet encode msg = record {
  header = record zero_header { dest = record zero_header_addr { addr = address } };
  payload = encode msg;
}

unfoldable pub send_uplink_message : (encode : Message → List ℕ) → Message → Client → Client
send_uplink_message encode msg c = record c {
  written = c.written ++ (control_packet encode msg ∷ []);
}

unfoldable pub write_packet :
    (now : ℕ) (inner : Result Error (Unit {0}))
    → Packet
    → Client
    → Returned (Result Error (Unit {0}))
write_packet now inner packet c =
    if not c.authenticated then record { client = c; result = ok tt } else record {
      client = record c { last_send_time = now; written = c.written ++ (packet ∷ []) };
      result = inner;
    }

-- One turn of sendKeepalives.
unfoldable pub send_keepalive :
    (encode : Message → List ℕ) (keepalive_time now : ℕ) → Client → Client
send_keepalive encode keepalive_time now c =
    if c.authenticated && ltb keepalive_time (now - c.last_send_time)
    then send_uplink_message encode (bare keepalive) c
    else c

module _ (decode : List ℕ → Option Message) (encode : Message → List ℕ) (sum256 : List ℕ → List ℕ)
    (password : List ℕ) where
  unfoldable pub authenticate : (now : ℕ) → Message → Client → Returned (Result Error (Unit {0}))
  authenticate now msg c =
      if ltb (length msg.challenge) min_challenge_length
      then record { client = c; result = err (client_challenge_too_short (length msg.challenge)) }
      else if not
          (bytes_equal msg.solution (solve_challenge sum256 client_side password c.challenge))
      then record {
        client = send_uplink_message encode (bare submit_solution_rejected) (close c);
        result = ok tt;
      }
      else record {
        client =
            send_uplink_message encode
              (record (bare submit_solution_accepted) {
                solution = solve_challenge sum256 server_side password msg.challenge;
              })
              (if not c.authenticated
                then record c { authenticated = true; last_send_time = now }
                else c);
        result = ok tt;
      }

  unfoldable pub handle_uplink_packet :
      (now : ℕ) → Packet → Client → Returned (Result Error (Unit {0}))
  handle_uplink_packet now packet c = elim (decode packet.payload) [
    | none ↦ record { client = c; result = err invalid_json }
    | some msg ↦ elim msg.message_type [
      | get_challenge_request ↦ record {
        client =
            send_uplink_message encode
              (record (bare get_challenge_response) { challenge = c.challenge }) c;
        result = ok tt;
      }
      | submit_solution ↦ authenticate now msg c
      | close_connection ↦ record { client = close c; result = ok tt }
      | get_challenge_response ↦ record { client = c; result = ok tt }
      | submit_solution_accepted ↦ record { client = c; result = ok tt }
      | submit_solution_rejected ↦ record { client = c; result = ok tt }
      | keepalive ↦ record { client = c; result = ok tt }
      | other_type _ ↦ record { client = c; result = ok tt }
    ]
  ]

  -- The body of ReadPacket's loop on a packet: the control messages are handled.
  abbrev pub handle_packet : (now : ℕ) → Packet → Client → Client
  handle_packet now packet c =
      if addr_eq packet.header.dest.addr address
      then (handle_uplink_packet now packet c).client
      else c

  -- ReadPacket on what the inner ReadPacket returns, each with its time; `none` if it still waits.
  unfoldable pub read_packet :
      List (ℕ × Result Error Packet) → Client → Returned (Option (Result Error Packet))
  read_packet [] c = record { client = c; result = none }
  read_packet ((now, err e) ∷ rest) c = record { client = c; result = some (err e) }
  read_packet ((now, ok packet) ∷ rest) c =
      let c' = handle_packet now packet c in
      let more = read_packet rest c' in
      if not c'.authenticated then more else record { client = c'; result = some (ok packet) }
