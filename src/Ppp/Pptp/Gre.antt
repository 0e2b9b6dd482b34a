-- ===== src/Ppp/Pptp/Gre.antt =====
-- ppp/pptp/gre.go: the GRE sessions that carry PPP frames. Sessions are objects that are named by
-- numbers; the map holds the number of the session of a key. IP addresses are numbers, which stand
-- for the strings of the code. A uint32 is a number below 2 ^ 32. What gopacket decodes of a packet
-- is a list of layers, with the fields that the code reads. Sending on the IP socket is returned. A
-- panic, of a channel that is closed twice, is `none`.
pub mod Reading
pub mod Acks
pub mod Sessions
pub mod Shutdown
pub mod Transfer
mod Examples
use ipxbox.Common.{
  ℕ, ◌+◌, ◌*◌, ◌%◌, ◌<◌, Bool, true, false, not, ◌&&◌, ◌||◌, List, [], ◌∷◌, ◌++◌, Option, none,
  some, ltb, ◌==◌, if◌then◌else◌, length, ℕ_discrete,
}
use ipxbox.Common.Assoc.{Assoc, find, put, delete}

abbrev pub recv_queue_size : ℕ
recv_queue_size = 16

-- The EtherType of PPP, of gopacket.
abbrev pub ethernet_type_ppp : ℕ
ethernet_type_ppp = 0x880b

-- The fields of gopacket's GRE layer.
pub record GreHeader : Type 0 where
  pub version : ℕ
  pub protocol : ℕ
  pub key_present : Bool
  pub key : ℕ
  pub seq_present : Bool
  pub seq : ℕ
  pub ack_present : Bool
  pub ack : ℕ

pub record GrePacket : Type 0 where
  pub header : GreHeader
  pub payload : List ℕ

-- The layers of a packet.
pub data Layer : Type 0 where
  ipv4 : (src_ip : ℕ) → Layer
  gre : GrePacket → Layer
  other_layer : Layer

pub data Error : Type 0 where
  wrong_layers : Error
  wrong_gre_fields : Error
  unknown_session : Error
  recv_queue_overflow : Error

pub record SessionKey : Type 0 where
  pub ip : ℕ
  pub call_id : ℕ

unfoldable pub SessionKey-discrete : Discrete SessionKey
unfolding ℕ_discrete
SessionKey-discrete = hlevel ℕ_discrete

pub record GreSession : Type 0 where
  pub closed : Bool
  pub recv_queue : List GrePacket
  pub addr : ℕ
  pub send_call_id : ℕ
  pub recv_call_id : ℕ
  pub sent_seq : ℕ
  pub recv_seq : ℕ
  pub recv_acked : ℕ

abbrev pub session_key : GreSession → SessionKey
session_key s = record { ip = s.addr; call_id = s.recv_call_id }

-- `len(frame) > 0`
abbrev pub has_bytes : List ℕ → Bool
has_bytes [] = false
has_bytes (b ∷ bytes) = true

-- recvPacket on a packet of the queue: the session, and the payload unless it is out of sequence.
unfoldable pub recv_packet : GrePacket → GreSession → GreSession × Option (List ℕ)
recv_packet p s =
    if p.header.seq_present
    then (if ltb p.header.seq s.recv_seq
        then (s, none)
        else (record s { recv_seq = p.header.seq }, some p.payload))
    else (s, some p.payload)

-- The result of Read; `blocked` while it waits for the queue.
pub data ReadResult : Type 0 where
  frame : List ℕ → ReadResult
  eof : ReadResult
  blocked : ReadResult

-- Read, on what the queue holds.
unfoldable pub read_loop : List GrePacket → GreSession → GreSession × ReadResult
read_loop [] s = (record s { recv_queue = [] }, if s.closed then eof else blocked)
read_loop (p ∷ rest) s =
    let r = recv_packet p s in
    let more = read_loop rest r.0 in
    elim r.1 [
      | none ↦ more
      | some bytes ↦
          if has_bytes bytes then (record r.0 { recv_queue = rest }, frame bytes) else more
    ]

unfoldable pub read : GreSession → GreSession × ReadResult
read s = read_loop s.recv_queue s

-- sendPacket returns the session and the packet that it writes.
unfoldable pub send_packet : List ℕ → GreSession → GreSession × GrePacket
send_packet bytes s =
    let sequenced : Bool = has_bytes bytes in
    let acks : Bool = ltb s.recv_acked s.recv_seq in
    (
      record s {
        sent_seq = if sequenced then (s.sent_seq + 1) % 4294967296 else s.sent_seq;
        recv_acked = if acks then s.recv_seq else s.recv_acked;
      },
      record {
        header = record {
          version = 1;
          protocol = ethernet_type_ppp;
          key_present = true;
          key = (length bytes * 65536) % 4294967296 + s.send_call_id;
          seq_present = sequenced;
          seq = if sequenced then s.sent_seq else 0;
          ack_present = acks;
          ack = if acks then s.recv_seq else 0;
        };
        payload = bytes;
      },
    )

pub record GreServer : Type 0 where
  pub sessions : Assoc SessionKey ℕ
  pub objects : ℕ → GreSession
  pub made : ℕ

abbrev pub update : ℕ → GreSession → (ℕ → GreSession) → ℕ → GreSession
update id s objects n = if n == id then s else objects n

abbrev pub blank : GreSession
blank = record {
  closed = true;
  recv_queue = [];
  addr = 0;
  send_call_id = 0;
  recv_call_id = 0;
  sent_seq = 0;
  recv_seq = 0;
  recv_acked = 0;
}

-- startGREServer, apart from the socket; the objects that are no sessions yet are blank.
abbrev pub start_gre_server : GreServer
start_gre_server = record { sessions = []; objects = λ _. blank; made = 0 }

-- startSession returns the server and the number of the new session.
unfoldable pub start_session :
    (remote_addr send_call_id recv_call_id : ℕ) → GreServer → GreServer × ℕ
start_session remote_addr send_call_id recv_call_id g =
    let s : GreSession = record {
      closed = false;
      recv_queue = [];
      addr = remote_addr;
      send_call_id = send_call_id;
      recv_call_id = recv_call_id;
      sent_seq = 0;
      recv_seq = 0;
      recv_acked = 0;
    } in
    (
      record {
        sessions = put SessionKey-discrete (session_key s) g.made g.sessions;
        objects = update g.made s g.objects;
        made = g.made + 1;
      },
      g.made,
    )

-- greSession.Close
unfoldable pub close_session : ℕ → GreServer → GreServer
close_session id g =
    let s = g.objects id in
    if not s.closed
    then record g {
      sessions = delete SessionKey-discrete (session_key s) g.sessions;
      objects = update id (record s { closed = true }) g.objects;
    }
    else g

-- The end of processPacket: the packet goes to the session's queue if there is room.
unfoldable pub enqueue : GrePacket → ℕ → GreServer → GreServer × Option Error
enqueue p id g =
    let s = g.objects id in
    if s.closed
    then (g, some unknown_session)
    else if ltb (length s.recv_queue) recv_queue_size
    then (
      record g {
        objects = update id (record s { recv_queue = s.recv_queue ++ (p ∷ []) }) g.objects;
      },
      none,
    )
    else (g, some recv_queue_overflow)

-- processPacket on its two layers.
unfoldable pub process_gre : (src_ip : ℕ) → GrePacket → GreServer → GreServer × Option Error
process_gre src_ip p g =
    if not (p.header.version == 1) || not (p.header.protocol == ethernet_type_ppp)
    then (g, some wrong_gre_fields)
    else if not p.header.key_present
    then (g, some wrong_gre_fields)
    else elim (find SessionKey-discrete (record { ip = src_ip; call_id = p.header.key % 65536 })
        g.sessions) [ none ↦ (g, some unknown_session) | some id ↦ enqueue p id g ]

-- processPacket
unfoldable pub process_packet : List Layer → GreServer → GreServer × Option Error
process_packet (ipv4 src_ip ∷ gre p ∷ rest) g = process_gre src_ip p g
process_packet _ g = (g, some wrong_layers)

-- The loop of greServer.Close over the sessions of the map.
unfoldable pub close_each : Assoc SessionKey ℕ → GreServer → Option GreServer
close_each [] g = some g
close_each ((key, id) ∷ sessions) g =
    let s = g.objects id in
    let more =
      close_each sessions
        (record g { objects = update id (record s { closed = true }) g.objects }) in
    if s.closed then none else more

-- greServer.Close, apart from the socket; the map stays as it is.
unfoldable pub close_server : GreServer → Option GreServer
close_server g = close_each g.sessions g
