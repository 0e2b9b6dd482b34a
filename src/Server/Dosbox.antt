-- ===== src/Server/Dosbox.antt =====
-- server/dosbox/protocol.go: the server side of the protocol of DOSBox. The inner connection's
-- ReadPacket is a list of what it returns, its WritePacket a list of the packets given to it. Times
-- are numbers, and the time of a call is an argument.
mod Examples
use ipxbox.Common.{
  ℕ, ◌+◌, ◌<◌, ◌≡◌, ◌≢◌, refl, sym, ap, ◌∙◌, arith, Bool, true, false, not, ◌&&◌, List, [], ◌∷◌,
  ◌++◌, Option, none, some, Result, ok, err, ltb, ◌==◌, if◌then◌else◌, All, append-nil,
  append_assoc, Bool-cases, ◌⊎◌, inl, inr,
}
use ipxbox.Ipx.{
  Addr, HeaderAddr, Header, Packet, addr_eq, network_eq, addr_null, addr_broadcast, zero_network,
  zero_header, zero_header_addr,
}

pub data Error : Type 0 where
  inner_error : ℕ → Error

pub record Client : Type 0 where
  pub node_addr : Addr
  pub last_recv_time : ℕ
  pub written : List Packet

-- `addrPingReply`
abbrev pub addr_ping_reply : Addr
addr_ping_reply = record { a0 = 0x02; a1 = 0xff; a2 = 0xff; a3 = 0xff; a4 = 0x00; a5 = 0x00 }

unfoldable pub is_registration_packet : Packet → Bool
is_registration_packet packet =
    packet.header.dest.socket == 2
    && (network_eq packet.header.dest.network zero_network
        && addr_eq packet.header.dest.addr addr_null)

-- The packet that sendRegistrationReply writes.
abbrev pub registration_reply : Addr → Packet
registration_reply addr = record {
  header = record {
    checksum = 0xffff;
    len = 30;
    trans_control = 0;
    packet_type = 0;
    dest = record { network = zero_network; addr = addr; socket = 2 };
    src = record { network = record zero_network { n3 = 1 }; addr = addr_broadcast; socket = 2 };
  };
  payload = [];
}

unfoldable pub send_registration_reply : Client → Client
send_registration_reply c = record c {
  written = c.written ++ (registration_reply c.node_addr ∷ []);
}

-- The packet that sendPing writes.
abbrev pub ping : Packet
ping = record {
  header = record zero_header {
    dest = record zero_header_addr { addr = addr_broadcast; socket = 2 };
    src = record zero_header_addr { addr = addr_ping_reply };
  };
  payload = [];
}

unfoldable pub send_ping : Client → Client
send_ping c = record c { written = c.written ++ (ping ∷ []) }

-- One turn of sendKeepalives.
unfoldable pub send_keepalive : (check_period now : ℕ) → Client → Client
send_keepalive check_period now c =
    if ltb (c.last_recv_time + check_period) now then send_ping c else c

-- What a ReadPacket returns, or `none` while it waits, and what the inner connection has not been
-- asked for yet.
pub record Reading : Type 0 where
  pub client : Client
  pub result : Option (Result Error Packet)
  pub rest : List (ℕ × Result Error Packet)

-- client.ReadPacket
unfoldable pub read_packet : List (ℕ × Result Error Packet) → Client → Reading
read_packet [] c = record { client = c; result = none; rest = [] }
read_packet ((now, err e) ∷ rest) c = record { client = c; result = some (err e); rest = rest }
read_packet ((now, ok packet) ∷ rest) c =
    let c' = record c { last_recv_time = now } in
    let more = read_packet rest (send_registration_reply c') in
    if is_registration_packet packet
    then more
    else record { client = c'; result = some (ok packet); rest = rest }

-- What StartClient has when it starts to copy packets, or its result if it returns before.
pub data Started : Type 0 where
  running : Client → (rest : List (ℕ × Result Error Packet)) → Started
  failed : Error → Started
  refused : Started
  reading : Started

-- StartClient up to the copying of packets: the first packet has to be a registration. `made` is
-- what NewNode gives, and the address of the node.
unfoldable pub start_client :
    (made : Result Error Addr) (now : ℕ) → List (ℕ × Result Error Packet) → Started
start_client made now [] = reading
start_client made now ((_, err e) ∷ rest) = failed e
start_client made now ((_, ok packet) ∷ rest) =
    if not (is_registration_packet packet) then refused else elim made [
      | err e ↦ failed e
      | ok addr ↦
          running
            (send_registration_reply
              (record { node_addr = addr; last_recv_time = now; written = [] }))
            rest
    ]

-- A registration packet that was received.
abbrev pub Registers : ℕ × Result Error Packet → Type 0
Registers (_, ok packet) = is_registration_packet packet ≡ true
Registers (_, err _) = ⊥

-- A result that is not a registration packet.
abbrev pub PassedOn : Result Error Packet → Type 0
PassedOn (ok packet) = is_registration_packet packet ≡ false
PassedOn (err _) = Unit

-- One reply per registration.
abbrev pub replies : Addr → List (ℕ × Result Error Packet) → List Packet
replies addr [] = []
replies addr (x ∷ xs) = registration_reply addr ∷ replies addr xs

-- What ReadPacket does to what is received: registrations are answered, one reply each, up to the
-- first error or other packet, which is returned.
pub data Answers (incoming : List (ℕ × Result Error Packet)) (c : Client) (r : Reading)
    : Type 0 where
  returned :
      (registrations : List (ℕ × Result Error Packet)) (now : ℕ) (x : Result Error Packet)
      → incoming ≡ registrations ++ ((now, x) ∷ r.rest)
      → All Registers registrations
      → PassedOn x
      → r.result ≡ some x
      → r.client.written ≡ c.written ++ replies c.node_addr registrations
      → Answers incoming c r
  waiting :
      All Registers incoming
      → r.result ≡ none
      → r.rest ≡ []
      → r.client.written ≡ c.written ++ replies c.node_addr incoming
      → Answers incoming c r

skip :
    (now : ℕ) (packet : Packet) (incoming : List (ℕ × Result Error Packet)) (c : Client)
    (r : Reading)
    → is_registration_packet packet ≡ true
    → Answers incoming (send_registration_reply (record c { last_recv_time = now })) r
    → Answers ((now, ok packet) ∷ incoming) c r
unfolding send_registration_reply
skip now packet incoming c r k (returned registrations t x e a p f w) =
    returned ((now, ok packet) ∷ registrations) t x (ap (λ z. (now, ok packet) ∷ z) e) (k, a) p f
      (w
        ∙ append_assoc c.written (registration_reply c.node_addr ∷ [])
            (replies c.node_addr registrations))
skip now packet incoming c r k (waiting a f g w) =
    waiting (k, a) f g
      (w
        ∙ append_assoc c.written (registration_reply c.node_addr ∷ [])
            (replies c.node_addr incoming))

-- ReadPacket answers the registration packets it meets with one reply each, hands none of them on,
-- and returns the first error or other packet, in order.
pub read_packet-Answers :
    (incoming : List (ℕ × Result Error Packet)) (c : Client)
    → Answers incoming c (read_packet incoming c)
unfolding read_packet
read_packet-Answers [] c = waiting tt refl refl (sym (append-nil c.written))
read_packet-Answers ((now, err e) ∷ rest) c =
    returned [] now (err e) refl tt tt refl (sym (append-nil c.written))
read_packet-Answers ((now, ok packet) ∷ rest) c =
    elim (Bool-cases (is_registration_packet packet)) [
      | inl k ↦
          let c' : Client = send_registration_reply (record c { last_recv_time = now }) in
          rw k (skip now packet rest c (read_packet rest c') k (read_packet-Answers rest c'))
      | inr k ↦ rw k (returned [] now (ok packet) refl tt k refl (sym (append-nil c.written)))
    ]

-- A packet that answers a ping, which goes to the address that pings come from, is no registration
-- packet, whatever its network and socket.
pub ping_reply_lem :
    (packet : Packet)
    → packet.header.dest.addr ≡ ping.header.src.addr
    → is_registration_packet packet ≡ false
unfolding is_registration_packet
ping_reply_lem packet e = ground (arith, e)
