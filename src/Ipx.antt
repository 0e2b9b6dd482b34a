-- ===== src/Ipx.antt =====
-- ipx/ipx.go and ipx/packet.go: addresses, headers, packets and their wire format.
-- A byte is a number below 256. The wire format is a list of bytes; UnmarshalBinary's length checks
-- are kept, and the slices behind them are in range.
pub mod RoundTrip
mod Examples
use ipxbox.Common.{ℕ, ◌*◌, ◌<◌, ◌≡◌, Bool, ◌&&◌, List, [], ◌∷◌, ◌++◌, map, ◌+◌}
use ipxbox.Common.{Result, ok, err, ◌>>=◌, ltb, if◌then◌else◌, test, length, drop, ℕ_discrete}
use ipxbox.Common.{All}
use ipxbox.Common.Bytes.{IsByte, IsU16, byte_at, slice, be16, put_be16}

-- `[6]byte`
pub record Addr : Type 0 where
  pub a0 : ℕ
  pub a1 : ℕ
  pub a2 : ℕ
  pub a3 : ℕ
  pub a4 : ℕ
  pub a5 : ℕ

unfoldable pub Addr-discrete : Discrete Addr
unfolding ℕ_discrete
Addr-discrete = hlevel ℕ_discrete

-- `[4]byte`
pub record NetworkNumber : Type 0 where
  pub n0 : ℕ
  pub n1 : ℕ
  pub n2 : ℕ
  pub n3 : ℕ

unfoldable pub NetworkNumber-discrete : Discrete NetworkNumber
unfolding ℕ_discrete
NetworkNumber-discrete = hlevel ℕ_discrete

pub record HeaderAddr : Type 0 where
  pub network : NetworkNumber
  pub addr : Addr
  pub socket : ℕ

unfoldable pub HeaderAddr-discrete : Discrete HeaderAddr
unfolding ℕ_discrete Addr-discrete NetworkNumber-discrete
HeaderAddr-discrete = hlevel (ℕ_discrete, Addr-discrete, NetworkNumber-discrete)

pub record Header : Type 0 where
  pub checksum : ℕ
  pub len : ℕ
  pub trans_control : ℕ
  pub packet_type : ℕ
  pub dest : HeaderAddr
  pub src : HeaderAddr

pub record Packet : Type 0 where
  pub header : Header
  pub payload : List ℕ

abbrev pub zero_network : NetworkNumber
zero_network = record { n0 = 0; n1 = 0; n2 = 0; n3 = 0 }

abbrev pub addr_null : Addr
addr_null = record { a0 = 0; a1 = 0; a2 = 0; a3 = 0; a4 = 0; a5 = 0 }

abbrev pub addr_broadcast : Addr
addr_broadcast = record { a0 = 0xff; a1 = 0xff; a2 = 0xff; a3 = 0xff; a4 = 0xff; a5 = 0xff }

abbrev pub header_length : ℕ
header_length = 30

abbrev pub min_header_address_length : ℕ
min_header_address_length = 12

-- `a == b` on addresses and on networks.
abbrev pub addr_eq : Addr → Addr → Bool
addr_eq a b = test (Addr-discrete a b)

abbrev pub network_eq : NetworkNumber → NetworkNumber → Bool
network_eq a b = test (NetworkNumber-discrete a b)

-- The zero values of the structs.
abbrev pub zero_header_addr : HeaderAddr
zero_header_addr = record { network = zero_network; addr = addr_null; socket = 0 }

abbrev pub zero_header : Header
zero_header = record {
  checksum = 0;
  len = 0;
  trans_control = 0;
  packet_type = 0;
  dest = zero_header_addr;
  src = zero_header_addr;
}

-- Both errors carry the length that was found.
pub data Error : Type 0 where
  header_address_too_short : ℕ → Error
  header_too_short : ℕ → Error

-- The six and the four bytes that `copy` takes from a slice.
abbrev pub addr_of : List ℕ → Addr
addr_of b = record {
  a0 = byte_at b 0;
  a1 = byte_at b 1;
  a2 = byte_at b 2;
  a3 = byte_at b 3;
  a4 = byte_at b 4;
  a5 = byte_at b 5;
}

abbrev pub addr_bytes : Addr → List ℕ
addr_bytes a = a.a0 ∷ a.a1 ∷ a.a2 ∷ a.a3 ∷ a.a4 ∷ a.a5 ∷ []

abbrev pub network_of : List ℕ → NetworkNumber
network_of b = record { n0 = byte_at b 0; n1 = byte_at b 1; n2 = byte_at b 2; n3 = byte_at b 3 }

abbrev pub network_bytes : NetworkNumber → List ℕ
network_bytes n = n.n0 ∷ n.n1 ∷ n.n2 ∷ n.n3 ∷ []

unfoldable pub unmarshal_addr : List ℕ → Result Error HeaderAddr
unmarshal_addr bytes =
    if ltb (length bytes) min_header_address_length
    then err (header_address_too_short (length bytes))
    else ok (record {
      network = network_of (slice bytes 0 4);
      addr = addr_of (slice bytes 4 10);
      socket = be16 (slice bytes 10 12) 0;
    })

unfoldable pub marshal_addr : HeaderAddr → List ℕ
marshal_addr a = network_bytes a.network ++ (addr_bytes a.addr ++ put_be16 a.socket)

unfoldable pub unmarshal_header : List ℕ → Result Error Header
unfolding unmarshal_addr
unmarshal_header packet =
    if ltb (length packet) header_length then err (header_too_short (length packet)) else do
      dest ← unmarshal_addr (slice packet 6 18)
      src ← unmarshal_addr (slice packet 18 30)
      ok (record {
        checksum = be16 (slice packet 0 2) 0;
        len = be16 (slice packet 2 4) 0;
        trans_control = byte_at packet 4;
        packet_type = byte_at packet 5;
        dest = dest;
        src = src;
      })

unfoldable pub marshal_header : Header → List ℕ
unfolding marshal_addr
marshal_header h =
    put_be16 h.checksum
    ++ (put_be16 h.len
        ++ (h.trans_control ∷ h.packet_type ∷ (marshal_addr h.dest ++ marshal_addr h.src)))

unfoldable pub is_broadcast : Header → Bool
is_broadcast h = addr_eq h.dest.addr addr_broadcast

unfoldable pub marshal : Packet → List ℕ
marshal p = marshal_header p.header ++ p.payload

unfoldable pub unmarshal : List ℕ → Result Error Packet
unmarshal bytes = do
  h ← unmarshal_header bytes
  ok (record { header = h; payload = drop header_length bytes })

-- What a Go value of the types satisfies: every field fits its width.
abbrev pub AddrFits : Addr → Type 0
AddrFits a = IsByte a.a0 × IsByte a.a1 × IsByte a.a2 × IsByte a.a3 × IsByte a.a4 × IsByte a.a5

abbrev pub HeaderAddrFits : HeaderAddr → Type 0
HeaderAddrFits a =
    IsByte a.network.n0
    × IsByte a.network.n1
    × IsByte a.network.n2
    × IsByte a.network.n3
    × AddrFits a.addr
    × IsU16 a.socket

pub record HeaderFits (h : Header) : Type 0 where
  pub checksum_fits : IsU16 h.checksum
  pub len_fits : IsU16 h.len
  pub trans_control_fits : IsByte h.trans_control
  pub packet_type_fits : IsByte h.packet_type
  pub dest_fits : HeaderAddrFits h.dest
  pub src_fits : HeaderAddrFits h.src
