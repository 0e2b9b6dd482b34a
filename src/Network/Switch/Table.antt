-- ===== src/Network/Switch/Table.antt =====
-- network/ipxswitch/table.go: which port an address was last seen on.
pub mod Learning
pub mod Consistent
pub mod Ports
use ipxbox.Common.{
  ℕ, ◌+◌, ◌-◌, ◌*◌, ◌<◌, ◌≡◌, ◌≢◌, refl, arith, Bool, true, false, ◌&&◌, ◌||◌, List, [], ◌∷◌,
  Option, none, some, ltb, ◌==◌, if◌then◌else◌, ℕ_discrete,
}
use ipxbox.Common.Assoc.{Assoc, find, put, delete}
use ipxbox.Ipx.{
  HeaderAddr, HeaderAddr-discrete as key_dec, Addr-discrete, addr_eq, addr_broadcast, addr_null,
}

-- A port number, or the constant `broadcastDest`, which is -1 and no port's number.
pub data Dest : Type 0 where
  broadcast_dest : Dest
  port_dest : ℕ → Dest

pub record AddressData : Type 0 where
  pub last_rx_time : ℕ
  pub port_id : ℕ

-- The set of addresses of a port, a map to Booleans.
pub record PortData : Type 0 where
  pub addrs : Assoc HeaderAddr Bool

pub record RoutingTable : Type 0 where
  pub addrs : Assoc HeaderAddr AddressData
  pub ports : Assoc ℕ PortData

abbrev pub make_routing_table : RoutingTable
make_routing_table = record { addrs = []; ports = [] }

-- 5 seconds.
abbrev pub fresh_time : ℕ
fresh_time = 5000000000

abbrev pub make_key : HeaderAddr → HeaderAddr
make_key a = record a { socket = 0 }

-- Reads and writes of the two maps.
abbrev pub address : HeaderAddr → RoutingTable → Option AddressData
address key t = find key_dec key t.addrs

abbrev pub port : ℕ → RoutingTable → Option PortData
port id t = find ℕ_discrete id t.ports

-- `delete(pd.addrs, key)` and `pd.addrs[key] = true` for the port data that `id` is mapped to.
unfoldable pub drop_from_port : ℕ → HeaderAddr → RoutingTable → RoutingTable
drop_from_port id key t = elim (port id t) [
  | none ↦ t
  | some pd ↦ record t {
    ports = put ℕ_discrete id (record pd { addrs = delete key_dec key pd.addrs }) t.ports;
  }
]

unfoldable pub add_to_port : ℕ → HeaderAddr → RoutingTable → RoutingTable
add_to_port id key t = elim (port id t) [
  | none ↦ t
  | some pd ↦ record t {
    ports = put ℕ_discrete id (record pd { addrs = put key_dec key true pd.addrs }) t.ports;
  }
]

unfoldable pub set_address : HeaderAddr → AddressData → RoutingTable → RoutingTable
set_address key ad t = record t { addrs = put key_dec key ad t.addrs }

-- `checkDestPort`
unfoldable pub check_dest_port : (now : ℕ) → HeaderAddr → ℕ → RoutingTable → Bool
check_dest_port now key dest_port t = elim (address key t) [
  | none ↦ false
  | some ad ↦ ad.port_id == dest_port && ltb (now - ad.last_rx_time) fresh_time
]

-- The part of `Record` under the write lock, for a port that exists. The branch for an address
-- of another port assigns `portID` before it looks that port up, so the port from which it
-- deletes the key is the new one.
unfoldable pub learn : (now : ℕ) → ℕ → HeaderAddr → RoutingTable → RoutingTable
learn now source_port key t = elim (address key t) [
  | none ↦
      set_address key (record { last_rx_time = now; port_id = source_port })
        (add_to_port source_port key t)
  | some ad ↦
      set_address key (record { last_rx_time = now; port_id = source_port })
        (if ad.port_id == source_port
          then t
          else add_to_port source_port key (drop_from_port source_port key t))
]

unfoldable pub locked_record : (now : ℕ) → ℕ → HeaderAddr → RoutingTable → RoutingTable
locked_record now source_port key t = elim (port source_port t) [
  | none ↦ t
  | some _ ↦ learn now source_port key t
]

-- `Record`
unfoldable pub record_src : (now : ℕ) → ℕ → HeaderAddr → RoutingTable → RoutingTable
record_src now source_port src t =
    if addr_eq src.addr addr_broadcast || addr_eq src.addr addr_null
    then t
    else if check_dest_port now (make_key src) source_port t
    then t
    else locked_record now source_port (make_key src) t

-- `LookupDest`
unfoldable pub lookup_dest : HeaderAddr → RoutingTable → Dest
lookup_dest dest t =
    if addr_eq dest.addr addr_broadcast
    then broadcast_dest
    else elim (address (make_key dest) t) [ none ↦ broadcast_dest | some ad ↦ port_dest ad.port_id ]

-- `AddPort`
unfoldable pub add_port : ℕ → RoutingTable → RoutingTable
add_port id t = record t { ports = put ℕ_discrete id (record { addrs = [] }) t.ports }

-- The loop of `DeletePort` over the keys of the port.
unfoldable pub forget_keys :
    ℕ → Assoc HeaderAddr Bool → Assoc HeaderAddr AddressData → Assoc HeaderAddr AddressData
forget_keys id [] m = m
forget_keys id ((key, _) ∷ keys) m = forget_keys id keys (elim (find key_dec key m) [
  | none ↦ m
  | some ad ↦ if ad.port_id == id then delete key_dec key m else m
])

-- `DeletePort`; the port itself stays in the map.
unfoldable pub delete_port : ℕ → RoutingTable → RoutingTable
unfolding forget_keys
delete_port id t = elim (port id t) [
  | none ↦ t
  | some pd ↦ record t { addrs = forget_keys id pd.addrs t.addrs }
]
