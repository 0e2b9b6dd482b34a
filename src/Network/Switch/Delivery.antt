-- ===== src/Network/Switch/Delivery.antt =====
-- Who gets a packet that a node writes to the switch of network/ipxswitch/ipxswitch.go.
use ipxbox.Common.{
  ℕ, ◌≡◌, refl, arith, Bool, false, not, ◌&&◌, List, [], ◌∷◌, ◌++◌, none, some, ◌==◌, if◌then◌else◌,
}
use ipxbox.Ipx.{Packet}
use ipxbox.Network.Pipe
use ipxbox.Network.Pipe.{Pipe}
use ipxbox.Network.Switch.{
  Network, contains, without, update, broadcast_loop, broadcast_packet, deliver, forward_packet,
  write,
}
use ipxbox.Network.Switch.Table.{Dest, broadcast_dest, port_dest, record_src, lookup_dest}

-- No number occurs twice.
abbrev pub IsDistinct : List ℕ → Type 0
IsDistinct [] = Unit
IsDistinct (n ∷ ns) = (contains n ns ≡ false) × IsDistinct ns

pub contains-without :
    (id m : ℕ) (ns : List ℕ) → contains m (without id ns) ≡ (contains m ns && not (m == id))
contains-without id m [] = refl
contains-without id m (n ∷ ns) = ground (arith, contains-without id m ns)

pub without-IsDistinct : (id : ℕ) (ns : List ℕ) → IsDistinct ns → IsDistinct (without id ns)
without-IsDistinct id [] d = tt
without-IsDistinct id (n ∷ ns) d =
    ground (arith, contains-without id n ns, without-IsDistinct id ns d.1)

broadcast_loop-pipes :
    (pkt : Packet) (ids : List ℕ) (pipes : ℕ → Pipe) (errs : List Pipe.Error) (m : ℕ)
    → IsDistinct ids
    → (broadcast_loop pkt ids pipes errs).0 m
      ≡ (if contains m ids then (Pipe.write pkt (pipes m)).0 else pipes m)
unfolding broadcast_loop
broadcast_loop-pipes pkt [] pipes errs m d = refl
broadcast_loop-pipes pkt (id ∷ ids) pipes errs m d =
    let (p, e) = Pipe.write pkt (pipes id) in
    ground (
      arith,
      broadcast_loop-pipes pkt ids (update pipes id p)
          (elim e [ none ↦ errs | some x ↦ errs ++ (x ∷ []) ]) m d.1,
    )

-- Who should get a packet: an attached node other than the sender, and where the table knows the
-- destination only the node that it names.
abbrev pub receives : ℕ → Dest → List ℕ → ℕ → Bool
receives src broadcast_dest nodes m = contains m nodes && not (m == src)
receives src (port_dest id) nodes m = contains m nodes && not (m == src) && m == id

forward_packet-pipes :
    (pkt : Packet) (src m : ℕ) (n : Network)
    → IsDistinct n.nodes_by_id
    → (forward_packet pkt src n).0.pipes m ≡ (
        if receives src (lookup_dest pkt.header.dest n.table) n.nodes_by_id m
        then (Pipe.write pkt (n.pipes m)).0
        else n.pipes m)
unfolding forward_packet deliver broadcast_packet
forward_packet-pipes pkt src m n d = split (lookup_dest pkt.header.dest n.table) refl
  where
    split :
        (dest : Dest)
        → lookup_dest pkt.header.dest n.table ≡ dest
        → (forward_packet pkt src n).0.pipes m ≡ (
            if receives src (lookup_dest pkt.header.dest n.table) n.nodes_by_id m
            then (Pipe.write pkt (n.pipes m)).0
            else n.pipes m)
    split broadcast_dest e = ground (
      arith,
      broadcast_loop-pipes pkt (without src n.nodes_by_id) n.pipes [] m
          (without-IsDistinct src n.nodes_by_id d),
      contains-without src m n.nodes_by_id,
    )
    split (port_dest id) e = ground arith

-- Writing a packet puts it once into the pipe of every node that should get it (all attached nodes
-- but the sender for a broadcast or an unknown destination, only the node that the table names for
-- a known one) and changes no other pipe. The table is the one that has learned the source.
pub pipes-write :
    (now : ℕ) (pkt : Packet) (src m : ℕ) (n : Network)
    → IsDistinct n.nodes_by_id
    → (write now pkt src n).0.pipes m ≡ (
        if receives src
          (lookup_dest pkt.header.dest (record_src now src pkt.header.src n.table))
          n.nodes_by_id
          m
        then (Pipe.write pkt (n.pipes m)).0
        else n.pipes m)
unfolding write
pipes-write now pkt src m n d = forward_packet-pipes pkt src m _ d

nodes-forward_packet :
    (pkt : Packet) (src : ℕ) (n : Network)
    → ((forward_packet pkt src n).0.nodes_by_id ≡ n.nodes_by_id)
      × ((forward_packet pkt src n).0.table ≡ n.table)
      × ((forward_packet pkt src n).0.next_node_id ≡ n.next_node_id)
unfolding forward_packet deliver broadcast_packet
nodes-forward_packet pkt src n = ground arith

pub nodes-write :
    (now : ℕ) (pkt : Packet) (src : ℕ) (n : Network)
    → ((write now pkt src n).0.nodes_by_id ≡ n.nodes_by_id)
      × ((write now pkt src n).0.table ≡ record_src now src pkt.header.src n.table)
      × ((write now pkt src n).0.next_node_id ≡ n.next_node_id)
unfolding write
nodes-write now pkt src n = nodes-forward_packet pkt src _
