-- ===== src/Ipxpkt/Router.antt =====
-- module/ipxpkt/router.go: Ethernet frames to and from IPX packets. The network node is a parameter:
-- its address, and a write that returns whether it succeeded. ReadPacketData returns the first
-- frame that `unwrap_frame` completes; a packet that does not complete one is logged and skipped.
pub mod Transfer
use ipxbox.Common.{
  ℕ, zero, suc, ◌+◌, ◌-◌, ◌%◌, ◌<◌, ◌≤◌, Bool, true, false, not, List, [], ◌∷◌, ◌++◌, Option, none,
  some, Result, ok, err, ltb, ◌==◌, if◌then◌else◌, length, drop, replicate,
}
use ipxbox.Ipx
use ipxbox.Ipx.{Addr, Packet, zero_network, addr_of}
use ipxbox.Ipxpkt
use ipxbox.Ipxpkt.{Header}
use ipxbox.Ipxpkt.Fragment.{fragment_frame}
use ipxbox.Ipxpkt.Reassembly.{Frames, reassemble}

abbrev pub ipx_socket : ℕ
ipx_socket = 0x6181

abbrev pub trail_bytes : ℕ
trail_bytes = 32

pub data Error : Type 0 where
  wrong_socket : ℕ → Error
  payload_too_short : ℕ → Error
  fragment_header : Ipxpkt.Error → Error
  incomplete : Error

pub record Router : Type 0 where
  pub packet_counter : ℕ
  pub frames : Frames

-- `NewRouter`
abbrev pub new_router : Router
new_router = record { packet_counter = 0; frames = [] }

abbrev pub completed : Frames × Option (List ℕ) → Frames × Result Error (List ℕ)
completed (frames, none) = (frames, err incomplete)
completed (frames, some frame) = (frames, ok frame)

-- `unwrapFrame`
unfoldable pub unwrap_frame : (now : ℕ) → Packet → Frames → Frames × Result Error (List ℕ)
unwrap_frame now packet frames =
    let payload = drop trail_bytes packet.payload in
    if not (packet.header.dest.socket == ipx_socket)
    then (frames, err (wrong_socket packet.header.dest.socket))
    else if ltb (length packet.payload) (trail_bytes + Ipxpkt.header_length)
    then (frames, err (payload_too_short (length packet.payload)))
    else elim (Ipxpkt.unmarshal payload) [
      | err e ↦ (frames, err (fragment_header e))
      | ok hdr ↦
          completed
            (reassemble now packet.header.src hdr (drop Ipxpkt.header_length payload) frames)
    ]

-- The packet for one fragment: `hdr1` and `hdr2` of the source in one. `index` counts from 0 and
-- `count` is the number of fragments.
unfoldable pub packet_of : (src dest : Addr) → (packet_id count index : ℕ) → List ℕ → Packet
packet_of src dest packet_id count index frag = record {
  header = record {
    checksum = 0xffff;
    len = (Ipx.header_length + Ipxpkt.header_length + trail_bytes + length frag) % 65536;
    trans_control = 0;
    packet_type = 0;
    dest = record { network = zero_network; addr = dest; socket = ipx_socket };
    src = record { network = zero_network; addr = src; socket = ipx_socket };
  };
  payload =
      replicate trail_bytes 0
      ++ (Ipxpkt.marshal (record {
        fragment = (index + 1) % 256;
        num_fragments = count % 256;
        packet_id = packet_id;
      })
          ++ frag);
}

unfoldable pub packets_of :
    (src dest : Addr) → (packet_id count index : ℕ) → List (List ℕ) → List Packet
packets_of src dest packet_id count index [] = []
packets_of src dest packet_id count index (frag ∷ frags) =
    packet_of src dest packet_id count index frag
    ∷ packets_of src dest packet_id count (index + 1) frags

module _ {S : Type 0} (node_write : Packet → S → S × Bool) (node_address : Addr) where
  -- The packets are written one by one, until a write fails.
  unfoldable pub write_all : List Packet → S → S
  write_all [] s = s
  write_all (packet ∷ packets) s =
      let (s', written) = node_write packet s in
      let rest = write_all packets s' in if written then rest else s'

  -- `WritePacketData`; none is the panic at `frame[0:6]`.
  unfoldable pub write_packet_data : List ℕ → Router → S → Option (Router × S)
  write_packet_data frame r s =
      let packet_id = (r.packet_counter + 1) % 65536 in
      let fragments = fragment_frame frame in
      if ltb (length frame) 6
      then none
      else some (
        record r { packet_counter = packet_id },
        write_all (packets_of node_address (addr_of frame) packet_id (length fragments) 0 fragments)
            s,
      )
