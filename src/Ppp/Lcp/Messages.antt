-- ===== src/Ppp/Lcp/Messages.antt =====
-- Whole messages of ppp/lcp/lcp.go: the round trip, and which errors there are.
use ipxbox.Common.{
  ℕ, ◌+◌, ◌<◌, ◌≡◌, ◌≢◌, arith, true, false, List, Option, none, some, ok, err, ◌==◌, length, drop,
  All,
}
use ipxbox.Common.Bytes.{IsU16, IsU32}
use ipxbox.Ppp.Lcp.{
  out_of_fuel, Lcp, PerTypeData, configure, terminate, echo, protocol_reject, unmarshal_echo,
  unmarshal_protocol_reject, marshal_data, unmarshal_data, unmarshal, marshal, extra_bytes,
  is_configure, is_terminate, is_echo, protocol_reject_type,
}
use ipxbox.Ppp.Lcp.Options.{
  OptionFits, unmarshal_configure-marshal, unmarshal_configure-ne-out_of_fuel,
}

-- The data is of the kind that the type says, and its numbers fit their widths.
abbrev pub BodyFits : ℕ → Option PerTypeData → Type 0
BodyFits t none =
    (is_configure t ≡ false)
    × (is_terminate t ≡ false)
    × (is_echo t ≡ false)
    × ((t == protocol_reject_type) ≡ false)
BodyFits t (some (configure options)) = (is_configure t ≡ true) × All OptionFits options
BodyFits t (some (terminate bytes)) = is_terminate t ≡ true
BodyFits t (some (echo magic_number bytes)) = (is_echo t ≡ true) × IsU32 magic_number
BodyFits t (some (protocol_reject ppp_type bytes)) = (t ≡ protocol_reject_type) × IsU16 ppp_type

pub record LcpFits (l : Lcp) : Type 0 where
  pub body_fits : BodyFits l.type l.body
  pub length_fits : length (extra_bytes l.body) + 4 < 65536

unmarshal-marshal_data :
    (t : ℕ) (d : Option PerTypeData) → BodyFits t d → unmarshal_data t (extra_bytes d) ≡ ok d
unfolding unmarshal_data marshal_data unmarshal_echo unmarshal_protocol_reject
unmarshal-marshal_data t none f = ground arith
unmarshal-marshal_data t (some (configure options)) f =
    ground (arith, unmarshal_configure-marshal options f.1)
unmarshal-marshal_data t (some (terminate bytes)) f = ground arith
unmarshal-marshal_data t (some (echo magic_number bytes)) f = ground arith
unmarshal-marshal_data t (some (protocol_reject ppp_type bytes)) f = ground arith

-- A message whose data is of the kind that its type says, and which fits its length field, is what
-- its encoding decodes to.
pub lcp_unmarshal-marshal :
    (l : Lcp) → LcpFits l → unmarshal (marshal l) ≡ ok (record l { contents = marshal l })
unfolding unmarshal marshal
lcp_unmarshal-marshal l f = ground (arith, unmarshal-marshal_data l.type l.body f.body_fits)

-- Decoding a message always ends by itself, with a message, an error or a panic.
pub lcp_unmarshal-ne-out_of_fuel : (bytes : List ℕ) → unmarshal bytes ≢ err out_of_fuel
unfolding unmarshal unmarshal_data unmarshal_echo unmarshal_protocol_reject
lcp_unmarshal-ne-out_of_fuel bytes =
    ground (arith, unmarshal_configure-ne-out_of_fuel (drop 4 bytes))
