-- ===== src/Qproxy/Proxy.antt =====
-- module/qproxy/proxy.go: the proxy between IPX clients and a Quake server. The connections that are
-- open stand in the map, under the address of their client; one that is closed does nothing more.
-- Datagrams and packets that are sent are kept in lists; whether sending succeeds, the resolved
-- address of the server, whether a socket can be opened, and what stands after a packet in its array,
-- up to the slice's capacity, are arguments. A panic is `none`.
pub mod Valid
pub mod Panics
pub mod Collecting
mod Examples
use ipxbox.Common.{
  ℕ, ◌+◌, ◌-◌, ◌*◌, ◌/◌, ◌%◌, Bool, true, false, not, ◌&&◌, ◌||◌, List, [], ◌∷◌, ◌++◌, map, Option,
  none, some, Result, ok, err, ltb, ◌==◌, if◌then◌else◌, length, drop, set, replicate,
}
use ipxbox.Common.Bytes.{byte_at}
use ipxbox.Common.Assoc.{Assoc, find, put, delete}
use ipxbox.Ipx.{Addr, HeaderAddr, HeaderAddr-discrete, Header, Packet, zero_network, zero_header}
use ipxbox.Qproxy.Sharder.{
  Sharder, Outcome, ReliableMessage, Error, message_too_short, transmit_failed, slice_out_of_range,
  init, receive_from_upstream, receive_from_downstream,
}
use ipxbox.Qproxy.Sharder

abbrev pub quake_ipx_socket : ℕ
quake_ipx_socket = 26000

abbrev pub connected_ipx_socket : ℕ
connected_ipx_socket = 26001

abbrev pub quake_header_bytes : ℕ
quake_header_bytes = 4

abbrev pub accept_header_min_len : ℕ
accept_header_min_len = 9

abbrev pub cc_rep_accept : ℕ
cc_rep_accept = 0x81

-- A UDP address.
pub record UdpAddr : Type 0 where
  pub ip : ℕ
  pub port : ℕ

-- A datagram that the socket of a client's connection sends.
pub record Datagram : Type 0 where
  pub sender : HeaderAddr
  pub receiver : UdpAddr
  pub bytes : List ℕ

-- `connectedPort` is `none` for -1.
pub record Connection : Type 0 where
  pub rs : Sharder
  pub ipx_addr : HeaderAddr
  pub last_rx_time : ℕ
  pub connected_port : Option ℕ
  pub ipx_socket : ℕ

pub record Proxy : Type 0 where
  pub conns : Assoc HeaderAddr Connection
  pub address : UdpAddr
  pub udp : List Datagram
  pub to_node : List Packet

-- What a connection's code does: the connection, and what it sends either way.
pub record Effects : Type 0 where
  pub connection : Connection
  pub datagrams : List Datagram
  pub packets : List Packet

-- New
abbrev pub new : Proxy
new = record { conns = []; address = record { ip = 0; port = 0 }; udp = []; to_node = [] }

-- `connection` of newConnection.
abbrev pub new_connection : (now : ℕ) → HeaderAddr → Connection
new_connection now ipx_addr = record {
  rs = init;
  ipx_addr = ipx_addr;
  last_rx_time = now;
  connected_port = none;
  ipx_socket = connected_ipx_socket;
}

-- closeConnection
abbrev pub close_connection : HeaderAddr → Proxy → Proxy
close_connection addr p = record p { conns = delete HeaderAddr-discrete addr p.conns }

-- The packet with the connection's socket in place of the server's port.
abbrev pub with_socket : (socket : ℕ) → List ℕ → List ℕ
with_socket socket packet = set (set packet 5 (socket % 256)) 6 (socket / 256 % 256)

-- handleAccept on a packet that accepts the connection.
abbrev pub accepted : (server : UdpAddr) → List ℕ → Connection → List ℕ × Connection × List Datagram
accepted server packet c =
    let port = byte_at packet 6 * 256 + byte_at packet 5 in
    let socket = if port == server.port then quake_ipx_socket else c.ipx_socket in
    (
      with_socket socket packet,
      record c { rs = init; connected_port = some port; ipx_socket = socket },
      if port == server.port
          then []
          else record { sender = c.ipx_addr; receiver = record server { port = port }; bytes = [] }
            ∷ [],
    )

-- handleAccept returns the packet, which it may change.
unfoldable pub handle_accept :
    (server : UdpAddr) → List ℕ → Connection → List ℕ × Connection × List Datagram
handle_accept server packet c =
    if ltb (length packet) accept_header_min_len
    then (packet, c, [])
    else if not (byte_at packet 4 == cc_rep_accept)
    then (packet, c, [])
    else accepted server packet c

module _ (node_addr : Addr) where
  -- The packet of sendToDownstreamSocket.
  abbrev pub downstream_packet : (socket : ℕ) → List ℕ → Connection → Packet
  downstream_packet socket payload c = record {
    header = record zero_header {
      len = (30 + (length payload + 4)) % 65536;
      dest = c.ipx_addr;
      src = record { network = zero_network; addr = node_addr; socket = socket };
    };
    payload = replicate quake_header_bytes 0 ++ payload;
  }

  -- sendToUpstream, when the write succeeds.
  abbrev pub upstream : (server : UdpAddr) → List ℕ → Connection → List Datagram
  upstream server payload c = elim c.connected_port [
    | none ↦ []
    | some port ↦
        record { sender = c.ipx_addr; receiver = record server { port = port }; bytes = payload }
        ∷ []
  ]

  abbrev pub upstream_all : (server : UdpAddr) → List ReliableMessage → Connection → List Datagram
  upstream_all server [] c = []
  upstream_all server (m ∷ ms) c = upstream server (Sharder.marshal m) c ++ upstream_all server ms c

  abbrev pub downstream_all : List ReliableMessage → Connection → List Packet
  downstream_all [] c = []
  downstream_all (m ∷ ms) c =
      downstream_packet c.ipx_socket (Sharder.marshal m) c ∷ downstream_all ms c

  -- What the sharder of a connection sends with its two callbacks.
  abbrev pub sharder_effects :
      (up_ok down_ok : Bool) → (server : UdpAddr) → Outcome Bool → Connection → Effects
  sharder_effects up_ok down_ok server o c = record {
    connection = record c { rs = o.sharder };
    datagrams = if up_ok then upstream_all server o.up c else [];
    packets = if down_ok then downstream_all o.down c else [];
  }

  -- What receivePackets does after the sharder: it sends the packet on if the sharder has neither
  -- failed nor handled it.
  abbrev pub after_upstream :
      (down_ok : Bool)
      → (now : ℕ) → List ℕ
      → Connection
      → Result Error Bool
      → Effects
      → Option Effects
  after_upstream down_ok now bytes c (err slice_out_of_range) e = none
  after_upstream down_ok now bytes c (err message_too_short) e = some e
  after_upstream down_ok now bytes c (err transmit_failed) e = some e
  after_upstream down_ok now bytes c (ok true) e = some e
  after_upstream down_ok now bytes c (ok false) e = some (record e {
    connection = record e.connection { last_rx_time = now };
    packets = if down_ok then downstream_packet c.ipx_socket bytes c ∷ [] else [];
  })

  -- The case of `c.connectedPort`.
  abbrev pub on_port : Option ℕ → (from : ℕ) → (otherwise same : Option Effects) → Option Effects
  on_port none from otherwise same = otherwise
  on_port (some port) from otherwise same = if not (from == port) then otherwise else same

  -- A turn of receivePackets, on a connection that is open.
  unfoldable pub receive :
      (up_ok down_ok : Bool)
      → (now : ℕ) → (server from : UdpAddr) → (spare bytes : List ℕ) → Connection
      → Option Effects
  receive up_ok down_ok now server from spare bytes c =
      let nothing : Option Effects =
        some (record { connection = c; datagrams = []; packets = [] }) in
      let a = handle_accept server bytes c in
      let o = receive_from_upstream up_ok down_ok spare bytes c.rs in
      let e = sharder_effects up_ok down_ok server o c in
      if not (from.ip == server.ip)
      then nothing
      else if from.port == server.port
      then some (record {
        connection = record a.1 { last_rx_time = now };
        datagrams = if up_ok then a.2 else [];
        packets = if down_ok then downstream_packet quake_ipx_socket a.0 a.1 ∷ [] else [];
      })
      else on_port c.connected_port from.port nothing
          (after_upstream down_ok now bytes c o.result e)

  -- The effects of an open connection's code on the proxy.
  abbrev pub apply : HeaderAddr → Effects → Proxy → Proxy
  apply addr e p = record p {
    conns = put HeaderAddr-discrete addr e.connection p.conns;
    udp = p.udp ++ e.datagrams;
    to_node = p.to_node ++ e.packets;
  }

  -- A datagram at the socket of a client's connection.
  unfoldable pub receive_udp :
      (up_ok down_ok : Bool)
      → (now : ℕ) → (addr : HeaderAddr) → (from : UdpAddr) → (spare bytes : List ℕ) → Proxy
      → Option Proxy
  receive_udp up_ok down_ok now addr from spare bytes p =
      elim (find HeaderAddr-discrete addr p.conns) [
        | none ↦ some p
        | some c ↦ elim (receive up_ok down_ok now p.address from spare bytes c) [
          | none ↦ none
          | some e ↦ some (apply addr e p)
        ]
      ]

  -- The end of processPacket, with the connection of the client.
  abbrev pub forward : (udp_ok : Bool) → (now : ℕ) → Packet → Connection → Proxy → Option Proxy
  forward udp_ok now packet c p =
      let src = packet.header.src in
      if ltb (length packet.payload) quake_header_bytes
      then none
      else if udp_ok
      then some (
          apply src
            (record {
              connection = record c { last_rx_time = now };
              datagrams =
                  record {
                    sender = c.ipx_addr;
                    receiver = p.address;
                    bytes = drop quake_header_bytes packet.payload;
                  }
                  ∷ [];
              packets = [];
            })
            p)
      else some (close_connection src p)

  -- processPacket once the server's address is known.
  abbrev pub process_resolved : (opens udp_ok : Bool) → (now : ℕ) → Packet → Proxy → Option Proxy
  process_resolved opens udp_ok now packet p =
      elim (find HeaderAddr-discrete packet.header.src p.conns) [
        | some c ↦ forward udp_ok now packet c p
        | none ↦
            if opens
            then forward udp_ok now packet (new_connection now packet.header.src) p
            else some p
      ]

  abbrev pub is_empty : Assoc HeaderAddr Connection → Bool
  is_empty [] = true
  is_empty (e ∷ conns) = false

  -- processPacket
  unfoldable pub process_packet :
      (resolved : Option UdpAddr)
      → (opens udp_ok : Bool) → (now : ℕ) → Packet
      → Proxy
      → Option Proxy
  process_packet resolved opens udp_ok now packet p =
      if not (is_empty p.conns) then process_resolved opens udp_ok now packet p else elim resolved [
        | none ↦ some p
        | some address ↦ process_resolved opens udp_ok now packet (record p { address = address })
      ]

  abbrev pub has_port : Option ℕ → Bool
  has_port none = false
  has_port (some port) = true

  -- What processConnectedPacket does after the sharder; on a closed socket the write fails.
  abbrev pub after_sharder :
      (up_ok : Bool)
      → (src : HeaderAddr) → (msg : List ℕ) → Result Error Bool
      → Effects
      → Proxy
      → Option Proxy
  after_sharder up_ok src msg (err slice_out_of_range) e p = none
  after_sharder up_ok src msg (err message_too_short) e p =
      some (close_connection src (apply src e p))
  after_sharder up_ok src msg (err transmit_failed) e p =
      some (close_connection src (apply src e p))
  after_sharder up_ok src msg (ok true) e p = some (apply src e p)
  after_sharder up_ok src msg (ok false) e p =
      if up_ok || not (has_port e.connection.connected_port)
      then some (
          apply src (record e { datagrams = e.datagrams ++ upstream p.address msg e.connection }) p)
      else some (close_connection src (apply src e p))

  -- processConnectedPacket
  unfoldable pub process_connected_packet :
      (up_ok down_ok : Bool) → (now : ℕ) → (spare : List ℕ) → Packet → Proxy → Option Proxy
  process_connected_packet up_ok down_ok now spare packet p =
      let src = packet.header.src in
      elim (find HeaderAddr-discrete src p.conns) [
        | none ↦ some p
        | some c ↦
            let msg = drop quake_header_bytes packet.payload in
            let c' = record c { last_rx_time = now } in
            let o = receive_from_downstream up_ok down_ok spare msg c.rs in
            if ltb (length packet.payload) quake_header_bytes
            then none
            else after_sharder up_ok src msg o.result (sharder_effects up_ok down_ok p.address o c')
                p
      ]

  -- A turn of garbageCollect.
  unfoldable pub collect :
      (idle_timeout now : ℕ) → Assoc HeaderAddr Connection → Assoc HeaderAddr Connection
  collect idle_timeout now [] = []
  collect idle_timeout now ((addr, c) ∷ conns) =
      let rest = collect idle_timeout now conns in
      if ltb idle_timeout (now - c.last_rx_time) then rest else (addr, c) ∷ rest

  abbrev pub garbage_collect : (idle_timeout now : ℕ) → Proxy → Proxy
  garbage_collect idle_timeout now p = record p { conns = collect idle_timeout now p.conns }

  -- What Run does with a packet of the node.
  unfoldable pub dispatch :
      (resolved : Option UdpAddr)
      → (opens up_ok down_ok : Bool) → (now : ℕ) → (spare : List ℕ) → Packet
      → Proxy
      → Option Proxy
  dispatch resolved opens up_ok down_ok now spare packet p =
      if packet.header.dest.socket == quake_ipx_socket
      then process_packet resolved opens up_ok now packet p
      else if packet.header.dest.socket == connected_ipx_socket
      then process_connected_packet up_ok down_ok now spare packet p
      else some p
