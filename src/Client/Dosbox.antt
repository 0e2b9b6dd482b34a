-- ===== src/Client/Dosbox.antt =====
-- client/dosbox/client.go: the client of a DOSBox server. What a Read returns is a list, and what
-- is written to the inner connection is returned.
pub mod Registration
pub mod Receiving
mod Examples
use ipxbox.Common.{
  ℕ, ◌+◌, Bool, true, false, not, ◌&&◌, List, [], ◌∷◌, ◌++◌, Option, none, some, Result, ok, err,
  ltb, ◌==◌, if◌then◌else◌, replicate,
}
use ipxbox.Ipx.{
  Addr, Header, HeaderAddr, Packet, addr_eq, addr_null, addr_broadcast, zero_header,
  zero_header_addr,
}
use ipxbox.Network.Pipe.{Pipe}
use ipxbox.Network.Pipe
use ipxbox.Client.{Turn, Outcome, waiting, no_response, read_failed, answered, Attempts, await}

-- The errors of the handshake.
pub data Error : Type 0 where
  connect_failure : Error
  read_error : ℕ → Error

-- The packet of sendRegistrationPacket.
abbrev pub registration_packet : Packet
registration_packet = record {
  header = record zero_header {
    dest = record zero_header_addr { addr = addr_null; socket = 2 };
    src = record zero_header_addr { addr = addr_null; socket = 2 };
  };
  payload = [];
}

unfoldable pub is_registration_response : Header → Bool
is_registration_response hdr =
    hdr.dest.socket == 2 && (hdr.src.socket == 2 && not (addr_eq hdr.dest.addr addr_broadcast))

-- The packet of sendPingReply of a client with the address `own`.
abbrev pub ping_reply : (own addr : Addr) → Packet
ping_reply own addr = record {
  header = record zero_header {
    dest = record zero_header_addr { addr = addr; socket = 2 };
    src = record zero_header_addr { addr = own; socket = 0 };
  };
  payload = [];
}

unfoldable pub is_ping : Header → Bool
is_ping hdr = addr_eq hdr.dest.addr addr_broadcast && hdr.dest.socket == 2

-- The answer that handshakeConnect waits for.
abbrev pub registration_answer : Packet → Option Addr
registration_answer packet =
    if is_registration_response packet.header then some packet.header.dest.addr else none

-- What is sent, and the address, or `none` while the client waits.
pub record Connecting : Type 0 where
  pub sent : List Packet
  pub result : Option (Result Error Addr)

-- handshakeConnect, begun at the time `start`.
unfoldable pub handshake_connect : (second start : ℕ) → List Turn → Connecting
handshake_connect second start turns =
    let r = await registration_answer second start 0 turns in
    record {
      sent = replicate r.sent registration_packet;
      result = elim r.outcome [
        | waiting ↦ none
        | no_response ↦ some (err connect_failure)
        | read_failed e ↦ some (err (read_error e))
        | answered addr rest ↦ some (ok addr)
      ];
    }

-- A connection: its address, its pipe, and what it has written to the inner connection.
pub record Connection : Type 0 where
  pub addr : Addr
  pub rxpipe : Pipe
  pub written : List Packet

unfoldable pub send_ping_reply : Addr → Connection → Connection
send_ping_reply addr c = record c { written = c.written ++ (ping_reply c.addr addr ∷ []) }

-- recvLoop on what its ReadPacket returns up to the end of the inner connection; `none` for an
-- error that does not end it.
unfoldable pub recv_loop : List (Option Packet) → Connection → Connection
recv_loop [] c = c
recv_loop (none ∷ reads) c = recv_loop reads c
recv_loop (some packet ∷ reads) c =
    if is_ping packet.header
    then recv_loop reads (send_ping_reply packet.header.src.addr c)
    else recv_loop reads (record c { rxpipe = (Pipe.write packet c.rxpipe).0 })
