-- ===== src/Phys/Examples.antt =====
-- Frames on a network card that decodes what it is given.
use ipxbox.Common.{ℕ, ◌≡◌, refl, List, [], ◌∷◌, false, none, some, arith}
use ipxbox.Ipx.{Header, Packet, HeaderFits, zero_network, addr_broadcast, zero_header}
use ipxbox.Ipx
use ipxbox.Network.Pipe
use ipxbox.Phys.{
  ether_type_llc, framer802_3_raw, run_turn, sink_write, try_framers, detected_framer, Serializable,
  llc_header, snap_header, payload_bytes, OutFrame, InFrame, Layer, llc, snap, framer_snap, frame,
  unframe,
}
use ipxbox.Phys.Loopback.{Decodes, own_frame_ignored, raw_unframes_nothing}
use ipxbox.Common.{ap}
use ipxbox.Phys.{run_turn}
use ipxbox.Phys.{ether_type_llc}
use ipxbox.Phys.{Packet}
use ipxbox.Phys.{framer802_3_raw}
use ipxbox.Phys.Loopback.{raw_unframes_nothing}
use ipxbox.Phys.{sink_write}
use ipxbox.Phys.{try_framers}
use ipxbox.Phys.{detected_framer}
use ipxbox.Common.{replicate}
use ipxbox.Common.{◌++◌}
use ipxbox.Phys.{framer_ethernet_ii}
use ipxbox.Common.{◌-◌}
use ipxbox.Common.{length}

abbrev decoded_layers : List Serializable → List Layer
decoded_layers (llc_header dsap ssap control ∷ payload_bytes bytes ∷ []) =
    llc dsap ssap (dsap ∷ ssap ∷ control ∷ []) bytes ∷ []
decoded_layers (llc_header dsap ssap control ∷ snap_header type ∷ payload_bytes bytes ∷ []) =
    llc dsap ssap (dsap ∷ ssap ∷ control ∷ []) [] ∷ snap type bytes ∷ []
decoded_layers _ = []

-- A frame without a length is filled up to 60 bytes.
abbrev decoded_payload : List Serializable → List ℕ
decoded_payload (payload_bytes bytes ∷ []) = bytes ++ replicate (46 - length bytes) 0
decoded_payload _ = []

abbrev card : OutFrame → InFrame
card f = record {
  ethernet_type = f.ethernet_type;
  payload = decoded_payload f.layers;
  next_layers = decoded_layers f.layers;
}

card-Decodes : Decodes card
card-Decodes = record {
  plain = λ f bytes t n l. (t, (replicate (46 - length bytes) 0, ap decoded_payload l));
  novell = λ f bytes t n b l. (t, ([], ap decoded_layers l));
  snapped = λ f bytes t n b l. (t, ([], [], ap decoded_layers l));
}

abbrev header : Header
header = record zero_header {
  checksum = 0xffff;
  len = 32;
  dest = record { network = zero_network; addr = addr_broadcast; socket = 0x869c };
}

abbrev packet : Packet
packet = record { header = header; payload = 1 ∷ 2 ∷ [] }

header-HeaderFits : HeaderFits header
header-HeaderFits = omega arith

own_frame_ignored_example :
    run_turn (card (sink_write (some framer_ethernet_ii) packet)) (some framer_ethernet_ii) Pipe.new
    ≡ (some framer_ethernet_ii, Pipe.new, false)
own_frame_ignored_example =
    own_frame_ignored card (some framer_ethernet_ii) packet Pipe.new card-Decodes tt
      header-HeaderFits (omega arith)

undetected_test : run_turn (card (sink_write none packet)) none Pipe.new ≡ (none, Pipe.new, false)
undetected_test =
    own_frame_ignored card none packet Pipe.new card-Decodes tt header-HeaderFits (omega arith)

-- A frame of raw 802.3 as gopacket decodes it: FF FF, the checksum of the packet, is taken for the
-- start of an LLC header.
abbrev raw_frame : InFrame
raw_frame = record {
  ethernet_type = ether_type_llc;
  payload = Ipx.marshal packet;
  next_layers = llc 254 255 (255 ∷ 255 ∷ 0 ∷ []) (32 ∷ 0 ∷ []) ∷ [];
}

raw_frame_lost : unframe framer802_3_raw raw_frame ≡ none
raw_frame_lost = raw_unframes_nothing raw_frame (refl, tt)

-- The first frame of another machine decides how the automatic framer frames from then on.
detects_snap :
    (run_turn (card (frame framer_snap addr_broadcast packet)) none Pipe.new).0 ≡ some framer_snap
unfolding run_turn try_framers frame unframe detected_framer Ipx.marshal Ipx.unmarshal
    Ipx.unmarshal_header Ipx.marshal_header
detects_snap = refl
