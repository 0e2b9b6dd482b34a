-- ===== src/Ipxpkt.antt =====
-- module/ipxpkt: Ethernet frames cut into fragments and carried in IPX packets. This file has the
-- fragment header of header.go; the children model fragment.go and router.go.
pub mod Fragment
pub mod Reassembly
pub mod Router
pub mod HeaderFormat
mod Examples
use ipxbox.Common.{
  ℕ, ◌+◌, ◌*◌, ◌<◌, ◌≤◌, Bool, ◌||◌, List, [], ◌∷◌, ◌++◌, Result, ok, err, ltb, if◌then◌else◌,
  length,
}
use ipxbox.Common.Bytes.{byte_at, slice, le16, put_le16}

abbrev pub header_length : ℕ
header_length = 4

pub record Header : Type 0 where
  pub fragment : ℕ
  pub num_fragments : ℕ
  pub packet_id : ℕ

pub data Error : Type 0 where
  too_short : ℕ → Error
  bad_header : Header → Error

-- Header.MarshalBinary
unfoldable pub marshal : Header → List ℕ
marshal h = h.fragment ∷ h.num_fragments ∷ put_le16 h.packet_id

abbrev pub check_header : Header → Result Error Header
check_header h =
    if ltb h.fragment 1 || (ltb h.num_fragments 1 || ltb h.num_fragments h.fragment)
    then err (bad_header h)
    else ok h

-- Header.UnmarshalBinary
unfoldable pub unmarshal : List ℕ → Result Error Header
unmarshal packet =
    if ltb (length packet) header_length
    then err (too_short (length packet))
    else check_header (record {
      fragment = byte_at packet 0;
      num_fragments = byte_at packet 1;
      packet_id = le16 (slice packet 2 4) 0;
    })
