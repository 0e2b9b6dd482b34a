-- ===== src/Ipx/RoundTrip.antt =====
-- The wire format of ipx/ipx.go and ipx/packet.go, both ways.
use ipxbox.Common.{ℕ, ◌≡◌, refl, arith, List, ◌∷◌, ◌++◌}
use ipxbox.Common.{ok, drop, All}
use ipxbox.Common.Bytes.{IsByte}
use ipxbox.Ipx.{
  HeaderAddr, Header, Packet, HeaderAddrFits, HeaderFits, unmarshal_addr, marshal_addr,
  unmarshal_header, marshal_header, marshal, unmarshal, header_length,
}

unmarshal-marshal_addr :
    (a : HeaderAddr) (rest : List ℕ)
    → HeaderAddrFits a
    → unmarshal_addr (marshal_addr a ++ rest) ≡ ok a
unfolding unmarshal_addr marshal_addr
unmarshal-marshal_addr a rest f = ground arith

unmarshal-marshal_header :
    (h : Header) (rest : List ℕ) → HeaderFits h → unmarshal_header (marshal_header h ++ rest) ≡ ok h
unfolding unmarshal_header marshal_header
unmarshal-marshal_header h rest f = ground arith

drop-marshal_header :
    (h : Header) (rest : List ℕ) → drop header_length (marshal_header h ++ rest) ≡ rest
unfolding marshal_header
drop-marshal_header h rest = refl

-- Decoding what was encoded gives the packet back, header fields and payload alike, for every
-- packet whose header fields fit their widths.
pub ipx_unmarshal-marshal : (p : Packet) → HeaderFits p.header → unmarshal (marshal p) ≡ ok p
unfolding unmarshal marshal
ipx_unmarshal-marshal p f =
    rw (unmarshal-marshal_header p.header p.payload f, drop-marshal_header) refl

marshal-unmarshal_header :
    (bytes : List ℕ) (h : Header)
    → All IsByte bytes
    → unmarshal_header bytes ≡ ok h
    → marshal_header h ++ drop header_length bytes ≡ bytes
unfolding unmarshal_header marshal_header
marshal-unmarshal_header
      (b0 ∷ b1 ∷ b2 ∷ b3 ∷ b4 ∷ b5 ∷ b6 ∷ b7 ∷ b8 ∷ b9 ∷ b10 ∷ b11 ∷ b12 ∷ b13 ∷ b14 ∷ b15 ∷ b16
        ∷ b17 ∷ b18 ∷ b19 ∷ b20 ∷ b21 ∷ b22 ∷ b23 ∷ b24 ∷ b25 ∷ b26 ∷ b27 ∷ b28 ∷ b29 ∷ rest)
      h bs e =
    ground arith
marshal-unmarshal_header _ h bs e = ground arith

-- Every byte sequence that decodes is the encoding of what it decodes to.
pub ipx_marshal-unmarshal :
    (bytes : List ℕ) (p : Packet) → All IsByte bytes → unmarshal bytes ≡ ok p → marshal p ≡ bytes
unfolding unmarshal marshal
ipx_marshal-unmarshal bytes p bs e = ground (arith, marshal-unmarshal_header bytes p.header bs)
