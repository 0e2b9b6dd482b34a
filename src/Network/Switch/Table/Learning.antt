-- ===== src/Network/Switch/Table/Learning.antt =====
-- What a lookup finds after an address was recorded.
use ipxbox.Common.{ℕ, ◌≡◌, ◌≢◌, arith, false, Option, none, some}
use ipxbox.Common.Assoc.{find-put}
use ipxbox.Ipx.{HeaderAddr, HeaderAddr-discrete as key_dec, addr_eq, addr_broadcast, addr_null}
use ipxbox.Network.Switch.Table.{
  port_dest, PortData, RoutingTable, make_key, address, port, drop_from_port, add_to_port,
  set_address, check_dest_port, learn, locked_record, record_src, lookup_dest,
}
use ipxbox.Common.{ite}

add_to_port-addrs :
    (id : ℕ) (key : HeaderAddr) (t : RoutingTable) → (add_to_port id key t).addrs ≡ t.addrs
unfolding add_to_port
add_to_port-addrs id key t = ground arith

drop_from_port-addrs :
    (id : ℕ) (key : HeaderAddr) (t : RoutingTable) → (drop_from_port id key t).addrs ≡ t.addrs
unfolding drop_from_port
drop_from_port-addrs id key t = ground arith

-- What a lookup of any key finds after `learn`: the learned port for the key, else what was there.
pub address-learn :
    (now id : ℕ) (key q : HeaderAddr) (t : RoutingTable)
    → address q (learn now id key t)
      ≡ ite (key_dec key q) (some (record { last_rx_time = now; port_id = id })) (address q t)
unfolding learn set_address
address-learn now id key q t = ground (
  arith,
  find-put key_dec q key (record { last_rx_time = now; port_id = id }) t.addrs,
  add_to_port-addrs id key t,
  add_to_port-addrs id key (drop_from_port id key t),
  drop_from_port-addrs id key t,
)

-- A source address that is neither the broadcast nor the null address.
abbrev pub IsUnicast : HeaderAddr → Type 0
IsUnicast a = (addr_eq a.addr addr_broadcast ≡ false) × (addr_eq a.addr addr_null ≡ false)

-- The port that an address is mapped to.
abbrev pub owner : HeaderAddr → RoutingTable → Option ℕ
owner key t = elim (address key t) [ none ↦ none | some ad ↦ some ad.port_id ]

pub owner-record_src :
    (now id : ℕ) (src q : HeaderAddr) (t : RoutingTable) {pd : PortData}
    → IsUnicast src
    → port id t ≡ some pd
    → owner q (record_src now id src t) ≡ ite (key_dec (make_key src) q) (some id) (owner q t)
unfolding record_src check_dest_port locked_record
owner-record_src now id src q t u h = ground (arith, address-learn now id (make_key src) q t)

-- After a unicast source address was recorded for a port of the table, packets for that network
-- and node address go to that port, whatever their socket, and whether the address was new, known
-- or moved from another port.
pub lookup_dest-record_src :
    (now id : ℕ) (src : HeaderAddr) (socket : ℕ) (t : RoutingTable) {pd : PortData}
    → IsUnicast src
    → port id t ≡ some pd
    → lookup_dest (record src { socket = socket }) (record_src now id src t) ≡ port_dest id
unfolding lookup_dest
lookup_dest-record_src now id src socket t u h =
    ground (arith, owner-record_src now id src (make_key src) t u h)

-- Recording an address leaves every other destination where it was: for a destination of another
-- network or node address the lookup gives the same answer as before.
pub lookup_dest-record_src_ne :
    (now id : ℕ) (src dest : HeaderAddr) (t : RoutingTable)
    → make_key src ≢ make_key dest
    → lookup_dest dest (record_src now id src t) ≡ lookup_dest dest t
unfolding lookup_dest record_src check_dest_port locked_record
lookup_dest-record_src_ne now id src dest t h =
    ground (arith, address-learn now id (make_key src) (make_key dest) t)
