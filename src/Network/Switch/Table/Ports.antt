-- ===== src/Network/Switch/Table/Ports.antt =====
-- Ports that come and go in network/ipxswitch/table.go.
use ipxbox.Common.{
  ℕ, suc, ◌<◌, ◌≡◌, ◌≢◌, refl, arith, Bool, true, false, ◌||◌, [], ◌∷◌, Option, none, some, ◌==◌,
  if◌then◌else◌, ℕ_discrete,
}
use ipxbox.Common.Assoc.{Assoc, find, put, delete, find-put, find-delete}
use ipxbox.Ipx.{HeaderAddr, HeaderAddr-discrete as key_dec}
use ipxbox.Network.Switch.Table.{
  RoutingTable, make_routing_table, AddressData, PortData, make_key, address, port, add_port,
  forget_keys, delete_port, drop_from_port, add_to_port, learn, record_src, locked_record,
}
use ipxbox.Network.Switch.Table.Learning.{owner}
use ipxbox.Network.Switch.Table.Consistent.{IsConsistent, listed, is_some}
use ipxbox.Network.Switch.Table.{set_address}

-- What remains of an entry when the port `id` goes, and whether its key was in the port's set.
abbrev remains : ℕ → Bool → Option AddressData → Option AddressData
remains id false o = o
remains id true none = none
remains id true (some ad) = if ad.port_id == id then none else some ad

find-forget_keys :
    (id : ℕ) (q : HeaderAddr) (keys : Assoc HeaderAddr Bool) (m : Assoc HeaderAddr AddressData)
    → find key_dec q (forget_keys id keys m)
      ≡ remains id (is_some (find key_dec q keys)) (find key_dec q m)
unfolding forget_keys find
find-forget_keys id q [] m = refl
find-forget_keys id q ((key, b) ∷ keys) m =
    let m' : Assoc HeaderAddr AddressData = elim (find key_dec key m) [
      | none ↦ m
      | some ad ↦ if ad.port_id == id then delete key_dec key m else m
    ] in
    ground (arith, find-forget_keys id q keys m', find-delete key_dec q key m)

address-delete_port :
    (id : ℕ) (q : HeaderAddr) (t : RoutingTable)
    → address q (delete_port id t) ≡ remains id (listed id q t) (address q t)
unfolding delete_port
address-delete_port id q t = split (port id t) refl
  where
    split :
        (o : Option PortData)
        → port id t ≡ o
        → address q (delete_port id t) ≡ remains id (listed id q t) (address q t)
    split none e = ground arith
    split (some pd) e = ground (arith, find-forget_keys id q pd.addrs t.addrs)

-- When the maps agree, deleting a port forgets exactly the addresses that were mapped to it: every
-- address that was mapped to another port, or to none, is found as before.
pub owner-delete_port :
    (id next : ℕ) (q : HeaderAddr) (t : RoutingTable)
    → IsConsistent next t
    → owner q (delete_port id t)
      ≡ elim (owner q t) [ none ↦ none | some p ↦ if p == id then none else some p ]
owner-delete_port id next q t c = split (address q t) refl
  where
    split :
        (o : Option AddressData)
        → address q t ≡ o
        → owner q (delete_port id t)
          ≡ elim (owner q t) [ none ↦ none | some p ↦ if p == id then none else some p ]
    split none e = ground (arith, address-delete_port id q t)
    split (some ad) e = ground (arith, address-delete_port id q t, c.owners_listed q ad e)

pub ports-delete_port : (id : ℕ) (t : RoutingTable) → (delete_port id t).ports ≡ t.ports
unfolding delete_port
ports-delete_port id t = ground arith

-- Deleting a port keeps the two maps in agreement.
pub delete_port-IsConsistent :
    (id next : ℕ) (t : RoutingTable) → IsConsistent next t → IsConsistent next (delete_port id t)
delete_port-IsConsistent id next t c = record {
  owners_listed = λ key ad e.
      ground (arith, ports-delete_port id t, address-delete_port id key t, c.owners_listed key ad);
  ports_below = λ q pd e. c.ports_below q pd (ground (arith, ports-delete_port id t));
}

-- Adding a port under the next number keeps the two maps in agreement.
pub add_port-IsConsistent :
    (next : ℕ) (t : RoutingTable) → IsConsistent next t → IsConsistent (suc next) (add_port next t)
unfolding add_port
add_port-IsConsistent next t c = record {
  owners_listed =
      λ key ad e. listed_still key ad (c.owners_listed key ad e) (port ad.port_id t) refl;
  ports_below = λ q pd e. below q pd e;
}
  where
    listed_still :
        (key : HeaderAddr) (ad : AddressData)
        → listed ad.port_id key t ≡ true
        → (o : Option PortData) → port ad.port_id t ≡ o
        → listed ad.port_id key (add_port next t) ≡ true
    listed_still key ad h none e = ground arith
    listed_still key ad h (some pd) e = ground (
      arith,
      c.ports_below ad.port_id pd e,
      find-put ℕ_discrete ad.port_id next (record { addrs = [] }) t.ports,
    )

    below : (q : ℕ) (pd : PortData) → port q (add_port next t) ≡ some pd → q < suc next
    below q pd e =
        ground
          (arith, c.ports_below q pd, find-put ℕ_discrete q next (record { addrs = [] }) t.ports)

pub make_routing_table-IsConsistent : IsConsistent 0 make_routing_table
unfolding find
make_routing_table-IsConsistent = record {
  owners_listed = λ key ad e. ground arith;
  ports_below = λ q pd e. ground arith;
}

port-add_to_port_ne :
    (id other : ℕ) (key : HeaderAddr) (t : RoutingTable)
    → other ≢ id
    → port other (add_to_port id key t) ≡ port other t
unfolding add_to_port
port-add_to_port_ne id other key t ne = split (port id t) refl
  where
    split : (o : Option PortData) → port id t ≡ o → port other (add_to_port id key t) ≡ port other t
    split none e = ground arith
    split (some pd) e = ground (
      arith,
      find-put ℕ_discrete other id (record pd { addrs = put key_dec key true pd.addrs }) t.ports,
    )

port-drop_from_port_ne :
    (id other : ℕ) (key : HeaderAddr) (t : RoutingTable)
    → other ≢ id
    → port other (drop_from_port id key t) ≡ port other t
unfolding drop_from_port
port-drop_from_port_ne id other key t ne = split (port id t) refl
  where
    split :
        (o : Option PortData) → port id t ≡ o → port other (drop_from_port id key t) ≡ port other t
    split none e = ground arith
    split (some pd) e = ground (
      arith,
      find-put ℕ_discrete other id (record pd { addrs = delete key_dec key pd.addrs }) t.ports,
    )

port-learn_ne :
    (now id other : ℕ) (key : HeaderAddr) (t : RoutingTable)
    → other ≢ id
    → port other (learn now id key t) ≡ port other t
unfolding learn set_address
port-learn_ne now id other key t ne = ground (
  arith,
  port-add_to_port_ne id other key t ne,
  port-add_to_port_ne id other key (drop_from_port id key t) ne,
  port-drop_from_port_ne id other key t ne,
)

-- `Record` changes the address set of no port but the one it is called for: when an address moves
-- to that port, the set of the port that had it keeps the address.
pub port-record_src_ne :
    (now id other : ℕ) (src : HeaderAddr) (t : RoutingTable)
    → other ≢ id
    → port other (record_src now id src t) ≡ port other t
unfolding record_src locked_record
port-record_src_ne now id other src t ne =
    ground (arith, port-learn_ne now id other (make_key src) t ne)

pub ports-add_port :
    (next id : ℕ) (t : RoutingTable)
    → is_some (port id (add_port next t)) ≡ (next == id || is_some (port id t))
unfolding add_port
ports-add_port next id t =
    ground (arith, find-put ℕ_discrete id next (record { addrs = [] }) t.ports)
