-- ===== src/Ipxpkt/HeaderFormat.antt =====
-- The fragment header of module/ipxpkt/header.go on the wire.
use ipxbox.Common.{ℕ, ◌≤◌, ◌≡◌, arith, List, ◌∷◌, ◌++◌, ok, drop, All}
use ipxbox.Common.Bytes.{IsByte, IsU16}
use ipxbox.Ipxpkt.{Header, marshal, unmarshal, header_length}

-- What UnmarshalBinary guarantees: the fragment's number lies between 1 and the count.
pub record IsValid (h : Header) : Type 0 where
  pub at_least_one : 1 ≤ h.fragment
  pub at_most_count : h.fragment ≤ h.num_fragments

-- A valid header with a 16-bit packet number decodes from its encoding, whatever follows it.
pub fragment_header_unmarshal-marshal :
    (h : Header) (rest : List ℕ)
    → IsValid h
    → IsU16 h.packet_id
    → unmarshal (marshal h ++ rest) ≡ ok h
unfolding unmarshal marshal
fragment_header_unmarshal-marshal h rest v f = ground arith

-- A header that decodes is valid, and its encoding is the first four bytes of the input.
pub fragment_header_unmarshal-IsValid :
    (bytes : List ℕ) (h : Header)
    → All IsByte bytes
    → unmarshal bytes ≡ ok h
    → IsValid h × (marshal h ++ drop header_length bytes ≡ bytes)
unfolding unmarshal marshal
fragment_header_unmarshal-IsValid (b0 ∷ b1 ∷ b2 ∷ b3 ∷ rest) h bs e = (ground arith, ground arith)
fragment_header_unmarshal-IsValid _ h bs e = absurd (ground arith)
