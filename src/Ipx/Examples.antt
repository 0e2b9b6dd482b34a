-- ===== src/Ipx/Examples.antt =====
-- Concrete packets on the wire.
use ipxbox.Common.{◌≡◌, refl, arith, [], ◌∷◌, ◌++◌, ok, replicate}
use ipxbox.Ipx.{
  Header, Packet, HeaderFits, zero_network, addr_broadcast, zero_header, marshal, unmarshal,
}
use ipxbox.Ipx.RoundTrip.{ipx_unmarshal-marshal, ipx_marshal-unmarshal}
use ipxbox.Common.{List}
use ipxbox.Ipx.{unmarshal_header}
use ipxbox.Common.{ℕ}

abbrev header : Header
header = record zero_header {
  checksum = 0xffff;
  len = 32;
  dest = record { network = zero_network; addr = addr_broadcast; socket = 0x869c };
}

abbrev packet : Packet
packet = record { header = header; payload = 1 ∷ 2 ∷ [] }

header-HeaderFits : HeaderFits header
header-HeaderFits = omega arith

ipx_unmarshal-marshal_example : unmarshal (marshal packet) ≡ ok packet
ipx_unmarshal-marshal_example = ipx_unmarshal-marshal packet header-HeaderFits

abbrev wire : List ℕ
wire =
    255
    ∷ 255
    ∷ 0
    ∷ 32
    ∷ (replicate 6 0 ++ (replicate 6 255 ++ (0x86 ∷ 0x9c ∷ (replicate 12 0 ++ (1 ∷ 2 ∷ [])))))

unmarshal-wire : unmarshal wire ≡ ok packet
unfolding unmarshal unmarshal_header
unmarshal-wire = refl

ipx_marshal-unmarshal_example : marshal packet ≡ wire
ipx_marshal-unmarshal_example = ipx_marshal-unmarshal wire packet (omega arith) unmarshal-wire
