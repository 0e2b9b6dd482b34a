-- ===== src/Qproxy/Sharder/MessageFormat.antt =====
-- The reliable messages of module/qproxy/protocol.go on the wire.
use ipxbox.Common.{◌≡◌, arith, ok}
use ipxbox.Common.Bytes.{IsU16, IsU32}
use ipxbox.Qproxy.Sharder.{ReliableMessage, marshal, unmarshal}

-- A reliable message whose flags and sequence number fit their widths is what its encoding
-- decodes to.
pub sharder_unmarshal-marshal :
    (m : ReliableMessage) → IsU16 m.flags → IsU32 m.sequence → unmarshal (marshal m) ≡ ok m
unfolding unmarshal marshal
sharder_unmarshal-marshal m f s = ground arith
