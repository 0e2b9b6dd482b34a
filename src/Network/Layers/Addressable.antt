-- ===== src/Network/Layers/Addressable.antt =====
-- network/addressable/addressable.go: every node gets an IPX address of its own.
-- Nodes are named by numbers. `crypto/rand` is the list of what it gives, five bytes at a time, as
-- addresses whose first byte is not used. Whether a node is open, and whether Close was
-- called on it again after that, is kept for the proofs only. Close frees the node's address each time.
use ipxbox.Common.{
  ℕ, ◌+◌, ◌≤◌, ◌≡◌, ◌≢◌, refl, sym, ◌∙◌, arith, Bool, true, false, not, ◌&&◌, ◌||◌, List, [], ◌∷◌,
  Option, none, some, Result, err, ◌==◌, if◌then◌else◌,
}
use mathlib.Core.Path.{subst}
use ipxbox.Common.Assoc.{Assoc, find, put, delete, find-put, find-delete}
use ipxbox.Ipx.{Addr, Addr-discrete, addr_eq, network_eq, addr_broadcast, zero_network, Packet}
use ipxbox.Network.Layers.{Error, wrong_address, Reading, read_until}
use ipxbox.Network.Layers.Filter.{IsFirst, read_until-IsFirst}
use ipxbox.Common.{◌⊎◌}
use ipxbox.Common.{◌<◌}
use ipxbox.Common.{ℕ_discrete}

pub record AddressableNetwork : Type 0 where
  pub nodes_by_ipx : Assoc Addr ℕ
  pub addrs : ℕ → Addr
  pub is_open : ℕ → Bool
  pub is_closed_again : ℕ → Bool
  pub made : ℕ

-- `Wrap`
abbrev pub wrap : (addrs : ℕ → Addr) → AddressableNetwork
wrap addrs = record {
  nodes_by_ipx = [];
  addrs = addrs;
  is_open = λ _. false;
  is_closed_again = λ _. false;
  made = 0;
}

-- The loop of NewNode: draw until the address is free; `none` if the draws run out.
unfoldable pub draw_address : List Addr → Assoc Addr ℕ → Option Addr
draw_address [] m = none
draw_address (d ∷ draws) m =
    let addr : Addr = record d { a0 = 2 } in
    let more = draw_address draws m in
    elim (find Addr-discrete addr m) [ none ↦ some addr | some _ ↦ more ]

abbrev pub update : {A : Type 0} → (ℕ → A) → ℕ → A → ℕ → A
update f id x n = if n == id then x else f n

-- The new node gets the next number.
abbrev pub add_node : Addr → AddressableNetwork → AddressableNetwork
add_node addr n = record {
  nodes_by_ipx = put Addr-discrete addr n.made n.nodes_by_ipx;
  addrs = update n.addrs n.made addr;
  is_open = update n.is_open n.made true;
  is_closed_again = n.is_closed_again;
  made = n.made + 1;
}

-- NewNode, once the inner network has made its node.
unfoldable pub new_node : List Addr → AddressableNetwork → AddressableNetwork × Option ℕ
new_node draws n = elim (draw_address draws n.nodes_by_ipx) [
  | none ↦ (n, none)
  | some addr ↦ (add_node addr n, some n.made)
]

-- node.Close
unfoldable pub close_node : ℕ → AddressableNetwork → AddressableNetwork
close_node id n = record n {
  nodes_by_ipx = delete Addr-discrete (n.addrs id) n.nodes_by_ipx;
  is_open = update n.is_open id false;
  is_closed_again = update n.is_closed_again id (n.is_closed_again id || not (n.is_open id));
}

-- The test in ReadPacket's loop.
unfoldable pub destined_for : Addr → Packet → Bool
destined_for addr packet =
    network_eq packet.header.dest.network zero_network
    && (addr_eq packet.header.dest.addr addr || addr_eq packet.header.dest.addr addr_broadcast)

-- node.ReadPacket
unfoldable pub addressable_read : Addr → List (Result Error Packet) → Reading
addressable_read addr incoming = read_until (destined_for addr) incoming

-- node.WritePacket
unfoldable pub addressable_write :
    {S : Type 0}
    → (Packet → S → S × Result Error (Unit {0}))
    → Addr
    → Packet
    → S
    → S × Result Error (Unit {0})
addressable_write inner addr packet s =
    if not (network_eq packet.header.src.network zero_network)
      || not (addr_eq packet.header.src.addr addr)
    then (s, err wrong_address)
    else inner packet s

-- The steps of the network: a node is made from some draws, or a node is closed, open or not.
pub data Step : AddressableNetwork → AddressableNetwork → Type 0 where
  made : (draws : List Addr) (n : AddressableNetwork) → Step n (new_node draws n).0
  closed : (id : ℕ) (n : AddressableNetwork) → id < n.made → Step n (close_node id n)

pub data Reach : AddressableNetwork → Type 0 where
  start : (addrs : ℕ → Addr) → Reach (wrap addrs)
  then_step : (n n' : AddressableNetwork) → Reach n → Step n n' → Reach n'

-- No node that has the address was closed again.
abbrev pub IsKept : AddressableNetwork → Addr → Type 0
IsKept n addr = (k : ℕ) → n.addrs k ≡ addr → n.is_closed_again k ≡ false

-- The map names nothing but open nodes under their addresses, and all of those whose address no
-- node that was closed again has had; the addresses have the prefix 02.
pub record IsValid (n : AddressableNetwork) : Type 0 where
  pub named :
      (addr : Addr) (id : ℕ)
      → find Addr-discrete addr n.nodes_by_ipx ≡ some id
      → (n.addrs id ≡ addr) × (n.is_open id ≡ true)
  pub listed :
      (id : ℕ)
      → n.is_open id ≡ true
      → IsKept n (n.addrs id)
      → find Addr-discrete (n.addrs id) n.nodes_by_ipx ≡ some id
  pub prefixed : (id : ℕ) → n.is_open id ≡ true → (n.addrs id).a0 ≡ 2
  pub unmade : (id : ℕ) → n.made ≤ id → n.is_open id ≡ false
  pub unmade_again : (id : ℕ) → n.made ≤ id → n.is_closed_again id ≡ false

draw_address-free :
    (draws : List Addr) (m : Assoc Addr ℕ) (addr : Addr)
    → draw_address draws m ≡ some addr
    → (find Addr-discrete addr m ≡ none) × (addr.a0 ≡ 2)
unfolding draw_address
draw_address-free [] m addr e = ground (arith, e)
draw_address-free (d ∷ draws) m addr e = ground (arith, e, draw_address-free draws m addr)

add_node-listed :
    (addr : Addr) (n : AddressableNetwork)
    → IsValid n
    → find Addr-discrete addr n.nodes_by_ipx ≡ none
    → (q : ℕ) → (add_node addr n).is_open q ≡ true
    → IsKept (add_node addr n) ((add_node addr n).addrs q)
    → find Addr-discrete ((add_node addr n).addrs q) (add_node addr n).nodes_by_ipx ≡ some q
add_node-listed addr n v free q o k = elim (ℕ_discrete q n.made) [
  | yes e ↦ ground (arith, e, find-put Addr-discrete addr addr n.made n.nodes_by_ipx)
  | no d ↦
      let kept : IsKept n (n.addrs q) = λ m e. ground (arith, d, e, k m, v.unmade_again m) in
      ground (
        arith,
        o,
        d,
        free,
        v.listed q (ground (arith, o, d)) kept,
        find-put Addr-discrete (n.addrs q) addr n.made n.nodes_by_ipx,
      )
]

add_node-IsValid :
    (addr : Addr) (n : AddressableNetwork)
    → IsValid n
    → find Addr-discrete addr n.nodes_by_ipx ≡ none
    → addr.a0 ≡ 2
    → IsValid (add_node addr n)
add_node-IsValid addr n v free p = record {
  named = λ a q e. ground (
    arith,
    e,
    free,
    find-put Addr-discrete a addr n.made n.nodes_by_ipx,
    v.named a q,
    v.unmade n.made,
  );
  listed = add_node-listed addr n v free;
  prefixed = λ q o. ground (arith, o, p, v.prefixed q);
  unmade = λ q l. ground (arith, l, v.unmade q);
  unmade_again = λ q l. v.unmade_again q (omega (arith, l));
}

close_node-listed :
    (id : ℕ) (n : AddressableNetwork)
    → IsValid n
    → (q : ℕ) → (close_node id n).is_open q ≡ true
    → IsKept (close_node id n) ((close_node id n).addrs q)
    → find Addr-discrete ((close_node id n).addrs q) (close_node id n).nodes_by_ipx ≡ some q
unfolding close_node
close_node-listed id n v q p k =
    let kept : IsKept n (n.addrs q) = λ m e. ground (arith, e, k m) in
    let there = v.listed q (ground (arith, p)) kept in
    let apart : n.addrs q ≢ n.addrs id = λ e.
      let was_open : n.is_open id ≡ true = ground (arith, k id (sym e)) in
      ground (arith, p, e, there, v.listed id was_open (subst (IsKept n) e kept)) in
    ground
      (arith, p, there, apart, find-delete Addr-discrete (n.addrs q) (n.addrs id) n.nodes_by_ipx)

close_node-IsValid :
    (id : ℕ) (n : AddressableNetwork) → IsValid n → id < n.made → IsValid (close_node id n)
unfolding close_node
close_node-IsValid id n v o = record {
  named = λ a q e.
      ground (arith, e, find-delete Addr-discrete a (n.addrs id) n.nodes_by_ipx, v.named a q);
  listed = close_node-listed id n v;
  prefixed = λ q p. ground (arith, p, v.prefixed q);
  unmade = λ q l. ground (arith, l, v.unmade q);
  unmade_again = λ q l. ground (arith, l, o, v.unmade_again q);
}

new_node-IsValid :
    (draws : List Addr) (n : AddressableNetwork) → IsValid n → IsValid (new_node draws n).0
unfolding new_node
new_node-IsValid draws n v = split (draw_address draws n.nodes_by_ipx) refl
  where
    split : (a : Option Addr) → draw_address draws n.nodes_by_ipx ≡ a → IsValid (new_node draws n).0
    split none e = rw (new_node, e) v
    split (some addr) e =
        let f = draw_address-free draws n.nodes_by_ipx addr e in
        rw (new_node, e) (add_node-IsValid addr n v f.0 f.1)

pub Reach-IsValid : (n : AddressableNetwork) → Reach n → IsValid n
unfolding find
Reach-IsValid _ (start addrs) = record {
  named = λ addr id e. ground (arith, e);
  listed = λ id o k. ground (arith, o);
  prefixed = λ id o. ground (arith, o);
  unmade = λ id l. refl;
  unmade_again = λ id l. refl;
}
Reach-IsValid _ (then_step n _ r (made draws _)) = new_node-IsValid draws n (Reach-IsValid n r)
Reach-IsValid _ (then_step n _ r (closed id _ o)) = close_node-IsValid id n (Reach-IsValid n r) o

-- In a network that nodes were made in and closed, some of them more than once, however the random
-- addresses fell: two open nodes with the same address are the same node, if no node that has had
-- the address was closed again after its first Close; and the address is a locally administered
-- unicast one.
pub Reach-addresses :
    (n : AddressableNetwork) (id id' : ℕ)
    → Reach n
    → n.is_open id ≡ true
    → n.is_open id' ≡ true
    → IsKept n (n.addrs id)
    → n.addrs id ≡ n.addrs id'
    → (id ≡ id') × ((n.addrs id).a0 ≡ 2)
Reach-addresses n id id' r o o' k e =
    let v = Reach-IsValid n r in
    (ground (arith, e, v.listed id o k, v.listed id' o' (subst (IsKept n) e k)), v.prefixed id o)

destined_for_broadcast :
    (addr : Addr) (packet : Packet)
    → destined_for addr packet ≡ true
    → packet.header.dest.addr ≢ addr_broadcast
    → packet.header.dest.addr ≡ addr
unfolding destined_for
destined_for_broadcast addr packet d b = ground (arith, d, b)

-- In such a network, a packet that is not a broadcast is read by at most one of the open nodes with
-- such an address.
pub unicast_reader :
    (n : AddressableNetwork) (id id' : ℕ) (packet : Packet)
    → Reach n
    → n.is_open id ≡ true
    → n.is_open id' ≡ true
    → IsKept n (n.addrs id)
    → packet.header.dest.addr ≢ addr_broadcast
    → destined_for (n.addrs id) packet ≡ true
    → destined_for (n.addrs id') packet ≡ true
    → id ≡ id'
unicast_reader n id id' packet r o o' k b d d' =
    let e = destined_for_broadcast (n.addrs id) packet d b in
    let e' = destined_for_broadcast (n.addrs id') packet d' b in
    (Reach-addresses n id id' r o o' k (sym e ∙ e')).0

-- A node hands on exactly the packets that carry its own address on the zero network as their
-- source, and reads the first packet, or error, that its test lets through.
pub addressable_lem :
    {S : Type 0} (inner : Packet → S → S × Result Error (Unit {0})) (addr : Addr) (packet : Packet)
    (s : S) (incoming : List (Result Error Packet))
    → IsFirst (destined_for addr) incoming (addressable_read addr incoming)
      × (packet.header.src.network ≡ zero_network
          → packet.header.src.addr ≡ addr
          → addressable_write inner addr packet s ≡ inner packet s)
      × ((packet.header.src.network ≢ zero_network) ⊎ (packet.header.src.addr ≢ addr)
          → addressable_write inner addr packet s ≡ (s, err wrong_address))
unfolding addressable_read addressable_write
addressable_lem inner addr packet s incoming = (
  read_until-IsFirst (destined_for addr) incoming,
  (λ e f. ground (arith, e, f)),
  (λ e. ground (arith, e)),
)
