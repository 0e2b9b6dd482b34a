-- ===== src/Network/Switch/Table/Consistent.antt =====
-- The two maps of the routing table agree: an address that is mapped to a port is in the set of
-- that port, so that deleting the port finds it.
use ipxbox.Common.{ℕ, ◌<◌, ◌≡◌, ◌≢◌, refl, arith, Bool, true, false, Option, none, some, ℕ_discrete}
use ipxbox.Common.Assoc.{find, put, delete, find-put, find-delete}
use ipxbox.Ipx.{HeaderAddr, HeaderAddr-discrete as key_dec}
use ipxbox.Network.Switch.Table.{
  AddressData, PortData, RoutingTable, make_key, address, port, drop_from_port, add_to_port,
  set_address, learn, locked_record, record_src,
}
use ipxbox.Network.Switch.Table.Learning.{address-learn}
use ipxbox.Common.{sym}
use ipxbox.Common.{◌⊎◌}

abbrev pub is_some {ℓ} : {A : Type ℓ} → Option A → Bool
is_some none = false
is_some (some a) = true

-- The port's set holds the key.
abbrev pub listed : ℕ → HeaderAddr → RoutingTable → Bool
listed id key t = elim (port id t) [ none ↦ false | some pd ↦ is_some (find key_dec key pd.addrs) ]

pub record IsConsistent (next : ℕ) (t : RoutingTable) : Type 0 where
  pub owners_listed :
      (key : HeaderAddr) (ad : AddressData)
      → address key t ≡ some ad
      → listed ad.port_id key t ≡ true
  pub ports_below : (id : ℕ) (pd : PortData) → port id t ≡ some pd → id < next

listed-add_to_port :
    (id q : ℕ) (key k : HeaderAddr) (t : RoutingTable)
    → listed q k t ≡ true ⊎ (q ≡ id) × (k ≡ key) × (is_some (port id t) ≡ true)
    → listed q k (add_to_port id key t) ≡ true
unfolding add_to_port
listed-add_to_port id q key k t h = split (port id t) refl
  where
    split : (o : Option PortData) → port id t ≡ o → listed q k (add_to_port id key t) ≡ true
    split none e = ground arith
    split (some pd) e = ground (
      arith,
      find-put ℕ_discrete q id (record pd { addrs = put key_dec key true pd.addrs }) t.ports,
      find-put key_dec k key true pd.addrs,
    )

listed-drop_from_port_ne :
    (id q : ℕ) (key k : HeaderAddr) (t : RoutingTable)
    → k ≢ key
    → listed q k t ≡ true
    → listed q k (drop_from_port id key t) ≡ true
unfolding drop_from_port
listed-drop_from_port_ne id q key k t ne h = split (port id t) refl
  where
    split : (o : Option PortData) → port id t ≡ o → listed q k (drop_from_port id key t) ≡ true
    split none e = ground arith
    split (some pd) e = ground (
      arith,
      find-put ℕ_discrete q id (record pd { addrs = delete key_dec key pd.addrs }) t.ports,
      find-delete key_dec k key pd.addrs,
    )

ports-add_to_port :
    (id q : ℕ) (key : HeaderAddr) (t : RoutingTable)
    → is_some (port q (add_to_port id key t)) ≡ is_some (port q t)
unfolding add_to_port
ports-add_to_port id q key t = split (port id t) refl
  where
    split :
        (o : Option PortData)
        → port id t ≡ o
        → is_some (port q (add_to_port id key t)) ≡ is_some (port q t)
    split none e = ground arith
    split (some pd) e = ground (
      arith,
      find-put ℕ_discrete q id (record pd { addrs = put key_dec key true pd.addrs }) t.ports,
    )

ports-drop_from_port :
    (id q : ℕ) (key : HeaderAddr) (t : RoutingTable)
    → is_some (port q (drop_from_port id key t)) ≡ is_some (port q t)
unfolding drop_from_port
ports-drop_from_port id q key t = split (port id t) refl
  where
    split :
        (o : Option PortData)
        → port id t ≡ o
        → is_some (port q (drop_from_port id key t)) ≡ is_some (port q t)
    split none e = ground arith
    split (some pd) e = ground (
      arith,
      find-put ℕ_discrete q id (record pd { addrs = delete key_dec key pd.addrs }) t.ports,
    )

ports-learn :
    (now id q : ℕ) (key : HeaderAddr) (t : RoutingTable)
    → is_some (port q (learn now id key t)) ≡ is_some (port q t)
unfolding learn set_address
ports-learn now id q key t = ground (
  arith,
  ports-add_to_port id q key t,
  ports-add_to_port id q key (drop_from_port id key t),
  ports-drop_from_port id q key t,
)

-- A key that is listed stays listed where it is, except under a port that it moves to, where it is
-- listed too.
listed-learn :
    (now id q : ℕ) (key k : HeaderAddr) (t : RoutingTable)
    → k ≢ key
    → listed q k t ≡ true
    → listed q k (learn now id key t) ≡ true
unfolding learn set_address
listed-learn now id q key k t ne h = ground (
  arith,
  listed-add_to_port id q key k t,
  listed-add_to_port id q key k (drop_from_port id key t),
  listed-drop_from_port_ne id q key k t ne h,
)

listed-learn_self :
    (now id : ℕ) (key : HeaderAddr) (next : ℕ) (t : RoutingTable)
    → IsConsistent next t
    → is_some (port id t) ≡ true
    → listed id key (learn now id key t) ≡ true
unfolding learn set_address
listed-learn_self now id key next t c h = split (address key t) refl
  where
    split : (o : Option AddressData) → address key t ≡ o → listed id key (learn now id key t) ≡ true
    split none e = ground (arith, listed-add_to_port id id key key t)
    split (some ad) e = ground (
      arith,
      c.owners_listed key ad e,
      listed-add_to_port id id key key (drop_from_port id key t),
      ports-drop_from_port id id key t,
    )

learn-IsConsistent :
    (now id : ℕ) (key : HeaderAddr) (next : ℕ) (t : RoutingTable)
    → IsConsistent next t
    → is_some (port id t) ≡ true
    → IsConsistent next (learn now id key t)
learn-IsConsistent now id key next t c h = record {
  owners_listed = λ k ad e. owners k ad e (key_dec key k);
  ports_below = λ q pd e. below q (port q t) refl (ground (arith, ports-learn now id q key t));
}
  where
    owners :
        (k : HeaderAddr) (ad : AddressData)
        → address k (learn now id key t) ≡ some ad
        → Dec (key ≡ k)
        → listed ad.port_id k (learn now id key t) ≡ true
    owners k ad e (yes p) =
        ground (arith, p, address-learn now id key k t, listed-learn_self now id key next t c h)
    owners k ad e (no p) =
        listed-learn now id ad.port_id key k t (λ r. p (sym r))
          (c.owners_listed k ad (ground (arith, address-learn now id key k t)))

    below : (q : ℕ) (o : Option PortData) → port q t ≡ o → is_some (port q t) ≡ true → q < next
    below q none e s = ground arith
    below q (some pd) e s = c.ports_below q pd e

-- `Record` keeps the two maps in agreement, for any source address, port and time.
pub record_src-IsConsistent :
    (now id : ℕ) (src : HeaderAddr) (next : ℕ) (t : RoutingTable)
    → IsConsistent next t
    → IsConsistent next (record_src now id src t)
unfolding record_src locked_record
record_src-IsConsistent now id src next t c =
    grind (arith, learn-IsConsistent now id (make_key src) next t c)

pub ports-record_src :
    (now id q : ℕ) (src : HeaderAddr) (t : RoutingTable)
    → is_some (port q (record_src now id src t)) ≡ is_some (port q t)
unfolding record_src locked_record
ports-record_src now id q src t = ground (arith, ports-learn now id q (make_key src) t)
