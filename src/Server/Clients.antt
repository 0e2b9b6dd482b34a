-- ===== src/Server/Clients.antt =====
-- server/server.go: the clients of the UDP server. Clients are objects that are named by numbers;
-- the map holds the number of the client of an address, and a goroutine of a client can still close
-- it after it has left the map. Times are numbers of seconds, given as an argument where the code
-- asks for the time. UDP addresses are numbers, which stand for the strings that the code uses as
-- keys. A protocol is its IsRegistrationPacket; StartClient is not run but its start is returned.
-- A Go map is ranged over in the order of the association list.
pub mod Valid
pub mod Timeouts
mod Examples
use ipxbox.Common.{
  ℕ, ◌+◌, ◌<◌, Bool, true, false, not, List, [], ◌∷◌, ◌++◌, Option, none, some, Result, ok, err,
  ltb, ◌==◌, if◌then◌else◌, ℕ_discrete,
}
use ipxbox.Common.Assoc.{Assoc, find, put, delete}
use ipxbox.Ipx.{Packet}
use ipxbox.Ipx
use ipxbox.Network.Pipe
use ipxbox.Network.Pipe.{Pipe}

pub record Client : Type 0 where
  pub rxpipe : Pipe
  pub addr : ℕ
  pub last_receive_time : ℕ
  pub closed : Bool

-- `made` is the number of clients made so far; the objects from there on are blank.
pub record Server : Type 0 where
  pub clients : Assoc ℕ ℕ
  pub objects : ℕ → Client
  pub made : ℕ
  pub timeout_check_time : ℕ

pub record Config : Type 0 where
  pub protocols : List (Packet → Bool)
  pub client_timeout : ℕ

abbrev pub update : ℕ → Client → (ℕ → Client) → ℕ → Client
update id c objects n = if n == id then c else objects n

abbrev pub blank : Client
blank = record { rxpipe = Pipe.new; addr = 0; last_receive_time = 0; closed = true }

-- `New`, apart from the socket.
abbrev pub new : (now : ℕ) → Server
new now = record { clients = []; objects = λ _. blank; made = 0; timeout_check_time = now + 10 }

-- client.Close
unfoldable pub close_client : ℕ → Server → Server
close_client id s =
    let c = s.objects id in
    let c' = record c { rxpipe = Pipe.close c.rxpipe; closed = true } in
    record s {
      clients = if not c.closed then delete ℕ_discrete c.addr s.clients else s.clients;
      objects = update id c' s.objects;
    }

-- findProtocol gives the position of the protocol.
unfoldable pub find_protocol : List (Packet → Bool) → Packet → Option ℕ
find_protocol [] packet = none
find_protocol (p ∷ ps) packet =
    if p packet
    then some 0
    else elim (find_protocol ps packet) [ none ↦ none | some n ↦ some (n + 1) ]

-- newClient returns the server and the number of the new client.
unfoldable pub new_client : (now addr : ℕ) → Server → Server × ℕ
new_client now addr s = (
  record s {
    clients = put ℕ_discrete addr s.made s.clients;
    objects =
        update s.made
          (record { rxpipe = Pipe.new; addr = addr; last_receive_time = now; closed = false })
          s.objects;
    made = s.made + 1;
  },
  s.made,
)

-- The end of processPacket: the packet goes to the client's pipe, whose error is dropped.
unfoldable pub receive : (now : ℕ) → Packet → ℕ → Server → Server
receive now packet id s =
    let c = s.objects id in
    record s {
      objects =
          update id (record c { last_receive_time = now; rxpipe = (Pipe.write packet c.rxpipe).0 })
            s.objects;
    }

-- processPacket on a decoded packet from an address that no client has: a client is started if a
-- protocol takes the packet for a registration.
unfoldable pub register :
    Config → (now : ℕ) → Packet → (addr : ℕ) → Server → Server × Option (ℕ × ℕ)
register config now packet addr s = elim (find_protocol config.protocols packet) [
  | none ↦ (s, none)
  | some protocol ↦
      let n = new_client now addr s in (receive now packet n.1 n.0, some (n.1, protocol))
]

-- processPacket on a decoded packet.
unfoldable pub dispatch :
    Config → (now : ℕ) → Packet → (addr : ℕ) → Server → Server × Option (ℕ × ℕ)
dispatch config now packet addr s = elim (find ℕ_discrete addr s.clients) [
  | some id ↦ (receive now packet id s, none)
  | none ↦ register config now packet addr s
]

-- processPacket returns the server and the client that was started, with its protocol's position.
unfoldable pub process_packet :
    Config → (now : ℕ) → List ℕ → (addr : ℕ) → Server → Server × Option (ℕ × ℕ)
process_packet config now bytes addr s = elim (Ipx.unmarshal bytes) [
  | err _ ↦ (s, none)
  | ok packet ↦ dispatch config now packet addr s
]

-- allClients
unfoldable pub all_clients : Assoc ℕ ℕ → List ℕ
all_clients [] = []
all_clients ((addr, id) ∷ clients) = id ∷ all_clients clients

-- The loop of checkClientTimeouts, with the next time to check.
unfoldable pub check_loop : (client_timeout now : ℕ) → List ℕ → (next : ℕ) → Server → Server × ℕ
check_loop client_timeout now [] next s = (s, next)
check_loop client_timeout now (id ∷ ids) next s =
    let timeout_time = (s.objects id).last_receive_time + client_timeout in
    check_loop client_timeout now ids (if ltb timeout_time next then timeout_time else next)
      (if ltb timeout_time now then close_client id s else s)

-- checkClientTimeouts
unfoldable pub check_client_timeouts : Config → (now : ℕ) → Server → Server × ℕ
check_client_timeouts config now s =
    check_loop config.client_timeout now (all_clients s.clients) (now + 10) s

-- What `ReadFromUDP` gives to `poll`.
pub data Received : Type 0 where
  datagram : List ℕ → (addr : ℕ) → Received
  timeout_error : Received
  network_error : Received
  other_error : Received

-- The end of `poll`.
unfoldable pub poll_timeouts : Config → (now : ℕ) → Server → Server
poll_timeouts config now s =
    if ltb s.timeout_check_time now
    then (let t = check_client_timeouts config now s in record t.0 { timeout_check_time = t.1 })
    else s

-- `poll`: false if it returns the error, which ends `Run`.
unfoldable pub poll : Config → (now later : ℕ) → Received → Server → Server × Bool
poll config now later (datagram bytes addr) s =
    (poll_timeouts config later (process_packet config now bytes addr s).0, true)
poll config now later timeout_error s = (poll_timeouts config later s, true)
poll config now later network_error s = (s, false)
poll config now later other_error s = (poll_timeouts config later s, true)

-- The loop of Close.
unfoldable pub close_all : List ℕ → Server → Server
close_all [] s = s
close_all (id ∷ ids) s = close_all ids (close_client id s)

-- Close, apart from the socket.
unfoldable pub close : Server → Server
close s = close_all (all_clients s.clients) s
