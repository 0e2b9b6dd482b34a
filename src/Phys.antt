-- ===== src/Phys.antt =====
-- phys/framing.go and the Sink and Phys of phys/phys.go: IPX packets in Ethernet frames. Layers are
-- those of gopacket; what it decodes of the layers that it has serialized is a parameter of the
-- theorems.
pub mod Loopback
mod Examples
use ipxbox.Common.{
  ℕ, ◌+◌, ◌%◌, Bool, true, false, not, ◌&&◌, ◌||◌, List, [], ◌∷◌, Option, none, some, Result, ok,
  err, ◌==◌, if◌then◌else◌, length,
}
use ipxbox.Common.Bytes.{byte_at}
use ipxbox.Ipx.{Addr, Packet}
use ipxbox.Ipx
use ipxbox.Network.Pipe.{Pipe}
use ipxbox.Network.Pipe

abbrev pub ether_type_ipx : ℕ
ether_type_ipx = 0x8137

-- gopacket's layers.EthernetTypeLLC.
abbrev pub ether_type_llc : ℕ
ether_type_llc = 0

abbrev pub lsap_novell : ℕ
lsap_novell = 0xe0

abbrev pub lsap_snap : ℕ
lsap_snap = 0xaa

abbrev pub loopback_detect_value : ℕ
loopback_detect_value = 127

-- The layers that are serialized after the Ethernet header.
pub data Serializable : Type 0 where
  llc_header : (dsap ssap control : ℕ) → Serializable
  snap_header : (type : ℕ) → Serializable
  payload_bytes : List ℕ → Serializable

-- The Ethernet header and the layers after it.
pub record OutFrame : Type 0 where
  pub src_mac : Addr
  pub dst_mac : Addr
  pub ethernet_type : ℕ
  pub len : ℕ
  pub layers : List Serializable

-- The layers of a decoded frame after the Ethernet header.
pub data Layer : Type 0 where
  llc : (dsap ssap : ℕ) → (contents payload : List ℕ) → Layer
  snap : (type : ℕ) → (payload : List ℕ) → Layer
  other_layer : Layer

pub record InFrame : Type 0 where
  pub ethernet_type : ℕ
  pub payload : List ℕ
  pub next_layers : List Layer

-- The framers, and the automatic one with the framer that it has detected.
pub data Framer : Type 0 where
  framer802_2 : Framer
  framer802_3_raw : Framer
  framer_ethernet_ii : Framer
  framer_snap : Framer

-- The Frame methods. The header of the packet gives the source.
abbrev pub frame802_2 : (dest : Addr) → Packet → OutFrame
frame802_2 dest packet = record {
  src_mac = packet.header.src.addr;
  dst_mac = dest;
  ethernet_type = ether_type_llc;
  len = (length (Ipx.marshal packet) + 3) % 65536;
  layers = llc_header lsap_novell lsap_novell 3 ∷ payload_bytes (Ipx.marshal packet) ∷ [];
}

abbrev pub frame802_3_raw : (dest : Addr) → Packet → OutFrame
frame802_3_raw dest packet = record {
  src_mac = packet.header.src.addr;
  dst_mac = dest;
  ethernet_type = 0;
  len = length (Ipx.marshal packet) % 65536;
  layers = payload_bytes (Ipx.marshal packet) ∷ [];
}

abbrev pub frame_ethernet_ii : (dest : Addr) → Packet → OutFrame
frame_ethernet_ii dest packet = record {
  src_mac = packet.header.src.addr;
  dst_mac = dest;
  ethernet_type = ether_type_ipx;
  len = 0;
  layers = payload_bytes (Ipx.marshal packet) ∷ [];
}

abbrev pub frame_snap : (dest : Addr) → Packet → OutFrame
frame_snap dest packet = record {
  src_mac = packet.header.src.addr;
  dst_mac = dest;
  ethernet_type = ether_type_llc;
  len = (length (Ipx.marshal packet) + 8) % 65536;
  layers =
      llc_header lsap_snap lsap_snap 3
      ∷ snap_header ether_type_ipx
      ∷ payload_bytes (Ipx.marshal packet)
      ∷ [];
}

unfoldable pub frame : Framer → (dest : Addr) → Packet → OutFrame
frame framer802_2 dest packet = frame802_2 dest packet
frame framer802_3_raw dest packet = frame802_3_raw dest packet
frame framer_ethernet_ii dest packet = frame_ethernet_ii dest packet
frame framer_snap dest packet = frame_snap dest packet

-- The Unframe methods on the layers.
abbrev pub novell_payload : List Layer → Option (List ℕ)
novell_payload (llc dsap ssap contents payload ∷ rest) =
    if not (dsap == lsap_novell) || not (ssap == lsap_novell) then none else some payload
novell_payload _ = none

abbrev pub raw_payload : (whole : List ℕ) → List Layer → Option (List ℕ)
raw_payload whole (llc dsap ssap contents payload ∷ rest) =
    if not (dsap == lsap_novell) || not (ssap == lsap_novell)
    then none
    else if not (byte_at contents 0 == 0xff) || not (byte_at contents 1 == 0xff)
    then none
    else some whole
raw_payload whole _ = none

abbrev pub snap_payload : List Layer → Option (List ℕ)
snap_payload (llc dsap ssap contents payload ∷ snap type bytes ∷ rest) =
    if not (dsap == lsap_snap) || not (ssap == lsap_snap)
    then none
    else if not (type == ether_type_ipx)
    then none
    else some bytes
snap_payload _ = none

abbrev pub unframe802_2 : InFrame → Option (List ℕ)
unframe802_2 f =
    if not (f.ethernet_type == ether_type_llc) then none else novell_payload f.next_layers

abbrev pub unframe802_3_raw : InFrame → Option (List ℕ)
unframe802_3_raw f =
    if not (f.ethernet_type == ether_type_llc) then none else raw_payload f.payload f.next_layers

abbrev pub unframe_ethernet_ii : InFrame → Option (List ℕ)
unframe_ethernet_ii f = if not (f.ethernet_type == ether_type_ipx) then none else some f.payload

abbrev pub unframe_snap : InFrame → Option (List ℕ)
unframe_snap f =
    if not (f.ethernet_type == ether_type_llc) then none else snap_payload f.next_layers

unfoldable pub unframe : Framer → InFrame → Option (List ℕ)
unframe framer802_2 f = unframe802_2 f
unframe framer802_3_raw f = unframe802_3_raw f
unframe framer_ethernet_ii f = unframe_ethernet_ii f
unframe framer_snap f = unframe_snap f

-- The automatic framer: the framer that it has detected, if any.
abbrev pub AutomaticFramer : Type 0
AutomaticFramer = Option Framer

-- Its Frame, with 802.2 to fall back on.
abbrev pub automatic_frame : AutomaticFramer → (dest : Addr) → Packet → OutFrame
automatic_frame none dest packet = frame framer802_2 dest packet
automatic_frame (some framer) dest packet = frame framer dest packet

-- detectedFramer
unfoldable pub detected_framer : Framer → List ℕ → AutomaticFramer → AutomaticFramer
detected_framer detected payload (some framer) = some framer
detected_framer detected payload none = elim (Ipx.unmarshal payload) [
  | err e ↦ none
  | ok packet ↦ if packet.header.trans_control == loopback_detect_value then none else some detected
]

abbrev pub all_framers : List Framer
all_framers = framer802_2 ∷ framer802_3_raw ∷ framer_ethernet_ii ∷ framer_snap ∷ []

-- The loop of its Unframe.
unfoldable pub try_framers :
    List Framer → InFrame → AutomaticFramer → AutomaticFramer × Option (List ℕ)
try_framers [] f a = (a, none)
try_framers (framer ∷ framers) f a =
    let rest = try_framers framers f a in
    elim (unframe framer f) [
      | none ↦ rest
      | some result ↦ (detected_framer framer result a, some result)
    ]

abbrev pub automatic_unframe : InFrame → AutomaticFramer → AutomaticFramer × Option (List ℕ)
automatic_unframe f a = try_framers all_framers f a

-- The packet that Sink.WritePacket frames.
abbrev pub sink_packet : Packet → Packet
sink_packet packet = record packet {
  header = record packet.header { checksum = 0; trans_control = loopback_detect_value };
}

-- Sink.WritePacket with an automatic framer: the frame that it writes.
unfoldable pub sink_write : AutomaticFramer → Packet → OutFrame
sink_write a packet = automatic_frame a packet.header.dest.addr (sink_packet packet)

-- A turn of Phys.Run with an automatic framer; the Boolean says whether Run ends.
unfoldable pub run_turn : InFrame → AutomaticFramer → Pipe → AutomaticFramer × Pipe × Bool
run_turn f a rxpipe =
    let r = automatic_unframe f a in
    elim r.1 [
      | none ↦ (r.0, rxpipe, false)
      | some payload ↦ elim (Ipx.unmarshal payload) [
        | err e ↦ (r.0, rxpipe, true)
        | ok packet ↦
            if packet.header.trans_control == loopback_detect_value
            then (r.0, rxpipe, false)
            else (r.0, (Pipe.write packet rxpipe).0, false)
      ]
    ]
