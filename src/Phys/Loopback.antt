-- ===== src/Phys/Loopback.antt =====
-- Frames of phys/framing.go that are decoded again.
use ipxbox.Common.{
  ◌+◌, ℕ, ◌-◌, ◌%◌, ◌≡◌, refl, ap, ◌∙◌, arith, false, List, [], ◌∷◌, none, some, ok, All,
}
use ipxbox.Common.Bytes.{byte_at}
use ipxbox.Ipx.{Addr, Packet, HeaderFits}
use ipxbox.Ipx
use ipxbox.Ipx.RoundTrip.{ipx_unmarshal-marshal}
use ipxbox.Network.Pipe.{Pipe}
use ipxbox.Phys.{
  ether_type_ipx, ether_type_llc, lsap_novell, lsap_snap, loopback_detect_value, llc_header,
  snap_header, payload_bytes, OutFrame, Layer, llc, snap, other_layer, InFrame, Framer, framer802_2,
  framer802_3_raw, framer_ethernet_ii, framer_snap, frame, raw_payload, unframe, AutomaticFramer,
  automatic_frame, detected_framer, try_framers, automatic_unframe, sink_packet, sink_write,
  run_turn,
}
use ipxbox.Common.{◌++◌}
use ipxbox.Common.{sym}
use ipxbox.Common.{length}
use ipxbox.Common.{append_assoc}
use ipxbox.Common.{append-nil}
use ipxbox.Common.{◌<◌}

-- What gopacket decodes of the frames of three of the framers. Serialization fills short frames up;
-- decoding cuts what comes after the length, where a frame has one, which is below 1536.
pub record Decodes (decode : OutFrame → InFrame) : Type 0 where
  pub plain :
      (f : OutFrame) (bytes : List ℕ)
      → f.ethernet_type ≡ ether_type_ipx
      → f.len ≡ 0
      → f.layers ≡ payload_bytes bytes ∷ []
      → ((decode f).ethernet_type ≡ ether_type_ipx)
        × ((padding : List ℕ) × ((decode f).payload ≡ bytes ++ padding))
  pub novell :
      (f : OutFrame) (bytes : List ℕ)
      → f.ethernet_type ≡ ether_type_llc
      → f.len ≡ length bytes + 3
      → f.len < 1536
      → f.layers ≡ llc_header lsap_novell lsap_novell 3 ∷ payload_bytes bytes ∷ []
      → ((decode f).ethernet_type ≡ ether_type_llc)
        × ((rest : List Layer) × ((decode f).next_layers
              ≡ llc lsap_novell lsap_novell (lsap_novell ∷ lsap_novell ∷ 3 ∷ []) bytes ∷ rest))
  pub snapped :
      (f : OutFrame) (bytes : List ℕ)
      → f.ethernet_type ≡ ether_type_llc
      → f.len ≡ length bytes + 8
      → f.len < 1536
      → f.layers
        ≡ llc_header lsap_snap lsap_snap 3 ∷ snap_header ether_type_ipx ∷ payload_bytes bytes ∷ []
      → ((decode f).ethernet_type ≡ ether_type_llc)
        × ((rest : List Layer) × (inner : List ℕ) × ((decode f).next_layers
              ≡ llc lsap_snap lsap_snap (lsap_snap ∷ lsap_snap ∷ 3 ∷ []) inner
                ∷ snap ether_type_ipx bytes
                ∷ rest))

-- The framers whose frames are recognised.
abbrev pub IsRecognised : Framer → Type 0
IsRecognised framer802_2 = Unit
IsRecognised framer802_3_raw = ⊥
IsRecognised framer_ethernet_ii = Unit
IsRecognised framer_snap = Unit

-- The packet with what a frame was filled up with after its payload.
abbrev padded : List ℕ → Packet → Packet
padded padding packet = record packet { payload = packet.payload ++ padding }

marshal-padded :
    (padding : List ℕ) (packet : Packet)
    → Ipx.marshal packet ++ padding ≡ Ipx.marshal (padded padding packet)
unfolding Ipx.marshal
marshal-padded padding packet =
    append_assoc (Ipx.marshal_header packet.header) packet.payload padding

-- A packet that is not too long for the length of a frame with an LLC header.
abbrev pub FitsFrame : Packet → Type 0
FitsFrame packet = length packet.payload + 38 < 1536

length-marshal : (packet : Packet) → length (Ipx.marshal packet) ≡ length packet.payload + 30
unfolding Ipx.marshal Ipx.marshal_header Ipx.marshal_addr
length-marshal packet = omega arith

module _ (decode : OutFrame → InFrame) where
  -- A frame of one of the three framers is found by the automatic one, which gives the packet's
  -- bytes, with the padding of the frame, and takes note of the framer.
  automatic_unframe-frame :
      (framer : Framer) (dest : Addr) (packet : Packet) (a : AutomaticFramer)
      → Decodes decode
      → IsRecognised framer
      → FitsFrame packet
      → (padding : List ℕ) × (automatic_unframe (decode (frame framer dest packet)) a ≡ (
        detected_framer framer (Ipx.marshal (padded padding packet)) a,
        some (Ipx.marshal (padded padding packet)),
      ))
  unfolding try_framers frame unframe
  automatic_unframe-frame framer802_2 dest packet a d r l =
      let (e, (rest, q)) =
        d.novell (frame framer802_2 dest packet) (Ipx.marshal packet) refl
          (omega (arith, l, length-marshal packet)) (omega (arith, l, length-marshal packet))
          refl in
      ([], rw (e, q, sym (marshal-padded [] packet), append-nil (Ipx.marshal packet)) refl)
  automatic_unframe-frame framer_ethernet_ii dest packet a d r l =
      let (e, (padding, q)) =
        d.plain (frame framer_ethernet_ii dest packet) (Ipx.marshal packet) refl refl refl in
      (padding, rw (e, q, marshal-padded padding packet) refl)
  automatic_unframe-frame framer_snap dest packet a d r l =
      let (e, (rest, inner, q)) =
        d.snapped (frame framer_snap dest packet) (Ipx.marshal packet) refl
          (omega (arith, l, length-marshal packet)) (omega (arith, l, length-marshal packet))
          refl in
      ([], rw (e, q, sym (marshal-padded [] packet), append-nil (Ipx.marshal packet)) refl)
  automatic_unframe-frame framer802_3_raw dest packet a d r l = elim r [ ]

sink_fits : (packet : Packet) → HeaderFits packet.header → HeaderFits (sink_packet packet).header
sink_fits packet f = record {
  checksum_fits = omega arith;
  len_fits = f.len_fits;
  trans_control_fits = omega arith;
  packet_type_fits = f.packet_type_fits;
  dest_fits = f.dest_fits;
  src_fits = f.src_fits;
}

-- A packet of the Sink does not count as one of another machine.
detected_framer-sink_packet :
    (framer : Framer) (packet : Packet) (a : AutomaticFramer)
    → HeaderFits packet.header
    → detected_framer framer (Ipx.marshal (sink_packet packet)) a ≡ a
unfolding detected_framer
detected_framer-sink_packet framer packet (some x) f = refl
detected_framer-sink_packet framer packet none f =
    let e = ipx_unmarshal-marshal (sink_packet packet) (sink_fits packet f) in
    rw (detected_framer, e) refl

-- The framer that an automatic one uses.
abbrev pub framer_used : AutomaticFramer → Framer
framer_used none = framer802_2
framer_used (some framer) = framer

-- A captured packet that bears the mark of the Sink is dropped.
run_turn-marked :
    (f : InFrame) (a : AutomaticFramer) (rxpipe : Pipe) (b : AutomaticFramer) (packet : Packet)
    (payload : List ℕ)
    → automatic_unframe f a ≡ (b, some payload)
    → Ipx.unmarshal payload ≡ ok packet
    → packet.header.trans_control ≡ loopback_detect_value
    → run_turn f a rxpipe ≡ (b, rxpipe, false)
unfolding run_turn
run_turn-marked f a rxpipe b packet payload found read marked = ground (arith, found, read, marked)

-- With the automatic framer, a frame that the Sink wrote and that Phys.Run captures again changes
-- nothing, if the framer in use is not raw 802.3, the fields of the packet's header are in their
-- ranges, its payload is short enough for a frame with an LLC header, and gopacket decodes the
-- layers that it has serialized, up to padding: the framer is not taken for the one of another
-- machine, nothing is put into the pipe, and the loop goes on.
pub own_frame_ignored :
    (decode : OutFrame → InFrame) (a : AutomaticFramer) (packet : Packet) (rxpipe : Pipe)
    → Decodes decode
    → IsRecognised (framer_used a)
    → HeaderFits packet.header
    → FitsFrame packet
    → run_turn (decode (sink_write a packet)) a rxpipe ≡ (a, rxpipe, false)
unfolding sink_write
own_frame_ignored decode a packet rxpipe d r f l =
    let (padding, found) = framed a r in
    run_turn-marked (decode (sink_write a packet)) a rxpipe a (sink_packet (padded padding packet))
      (Ipx.marshal (sink_packet (padded padding packet))) found
      (ipx_unmarshal-marshal (sink_packet (padded padding packet))
        (sink_fits (padded padding packet) f))
      refl
  where
    with_framer :
        (framer : Framer)
        → IsRecognised framer
        → (padding : List ℕ) × (automatic_unframe
              (decode (frame framer packet.header.dest.addr (sink_packet packet)))
              a
            ≡ (a, some (Ipx.marshal (sink_packet (padded padding packet)))))
    with_framer framer r =
        let (padding, found) =
          automatic_unframe-frame decode framer packet.header.dest.addr (sink_packet packet) a d r
            l in
        (
          padding,
          found
              ∙ ap (λ b. (b, some (Ipx.marshal (sink_packet (padded padding packet)))))
                  (detected_framer-sink_packet framer (padded padding packet) a f),
        )

    framed :
        (b : AutomaticFramer)
        → IsRecognised (framer_used b)
        → (padding : List ℕ) × (automatic_unframe
              (decode (automatic_frame b packet.header.dest.addr (sink_packet packet)))
              a
            ≡ (a, some (Ipx.marshal (sink_packet (padded padding packet)))))
    framed none r = with_framer framer802_2 r
    framed (some framer) r = with_framer framer r

-- LLC layers whose DSAP is the first byte without its lowest bit, as gopacket decodes them.
abbrev pub IsMasked : Layer → Type 0
IsMasked (llc dsap ssap contents payload) = dsap ≡ byte_at contents 0 - byte_at contents 0 % 2
IsMasked (snap type payload) = Unit
IsMasked other_layer = Unit

-- The raw 802.3 framer recognises no frame at all, if the DSAP of an LLC layer is its first byte
-- without the lowest bit: it asks for a DSAP of 0xe0 and a first byte of 0xff.
pub raw_unframes_nothing :
    (f : InFrame) → All IsMasked f.next_layers → unframe framer802_3_raw f ≡ none
unfolding unframe
raw_unframes_nothing f m = either f.next_layers m refl
  where
    layers : (ls : List Layer) → All IsMasked ls → raw_payload f.payload ls ≡ none
    layers [] m = refl
    layers (llc dsap ssap contents payload ∷ rest) (m, ms) = ground (arith, m)
    layers (snap type payload ∷ rest) m = refl
    layers (other_layer ∷ rest) m = refl

    either :
        (ls : List Layer) → All IsMasked ls → f.next_layers ≡ ls → unframe framer802_3_raw f ≡ none
    either ls m e = ground (arith, e, layers ls m)
