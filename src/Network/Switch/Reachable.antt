-- ===== src/Network/Switch/Reachable.antt =====
-- What holds of every switch that its operations can produce.
use ipxbox.Common.{
  ℕ, ◌<◌, ◌≡◌, ◌≢◌, refl, arith, Bool, true, false, ◌||◌, List, [], ◌∷◌, ◌++◌, Option, none, some,
  ◌==◌, if◌then◌else◌,
}
use ipxbox.Ipx.{Packet}
use ipxbox.Network.Pipe
use ipxbox.Network.Pipe.{Pipe}
use ipxbox.Network.Switch.{
  Network, new, contains, without, new_node, close, read, write, deliver, update,
}
use ipxbox.Network.Switch.Delivery.{
  IsDistinct, contains-without, without-IsDistinct, nodes-write, pipes-write,
}
use ipxbox.Network.Switch.Table.{record_src, delete_port, lookup_dest, PortData, port, port_dest}
use ipxbox.Network.Switch.Table.Consistent.{
  IsConsistent, is_some, record_src-IsConsistent, ports-record_src,
}
use ipxbox.Network.Switch.Table.Ports.{
  delete_port-IsConsistent, add_port-IsConsistent, make_routing_table-IsConsistent,
  ports-delete_port,
}
use ipxbox.Network.Switch.Table.Learning.{IsUnicast, lookup_dest-record_src}
use ipxbox.Network.Switch.Table.Ports.{ports-add_port}
use ipxbox.Network.Switch.Table.{make_key}
use ipxbox.Network.Switch.Table.Learning.{lookup_dest-record_src_ne}
use ipxbox.Common.{◌∙◌}

-- One call on the network, or on a node that was made before, open or closed; or a part of such a
-- call between two of its locks, while other calls go on: WritePacket notes the source, and then
-- puts the packet into the pipe of a node; Close detaches the node, and then closes its pipe.
pub data Step (n : Network) : Network → Type 0 where
  make : Step n (new_node n).0
  shut : (id : ℕ) → id < n.next_node_id → Step n (close id n)
  receive : (id : ℕ) (done pick : Bool) → id < n.next_node_id → Step n (read id done pick n).0
  send : (now : ℕ) (pkt : Packet) (id : ℕ) → id < n.next_node_id → Step n (write now pkt id n).0
  note :
      (now : ℕ) (pkt : Packet) (id : ℕ)
      → id < n.next_node_id
      → Step n (record n { table = record_src now id pkt.header.src n.table })
  hand_over : (pkt : Packet) (id : ℕ) → id < n.next_node_id → Step n (deliver pkt id n).0
  detach :
      (id : ℕ)
      → id < n.next_node_id
      → Step n (record n { nodes_by_id = without id n.nodes_by_id; table = delete_port id n.table })
  close_pipe :
      (id : ℕ)
      → id < n.next_node_id
      → Step n (record n { pipes = update n.pipes id (Pipe.close (n.pipes id)) })

pub data Reach : Network → Type 0 where
  start : Reach new
  next : {n m : Network} → Reach n → Step n m → Reach m

pub record IsValid (n : Network) : Type 0 where
  pub distinct : IsDistinct n.nodes_by_id
  pub below : (id : ℕ) → contains id n.nodes_by_id ≡ true → id < n.next_node_id
  pub has_port : (id : ℕ) → id < n.next_node_id → is_some (port id n.table) ≡ true
  pub consistent : IsConsistent n.next_node_id n.table

contains-append : (m k : ℕ) (ns : List ℕ) → contains m (ns ++ (k ∷ [])) ≡ (contains m ns || k == m)
contains-append m k [] = ground arith
contains-append m k (n ∷ ns) = ground (arith, contains-append m k ns)

append-IsDistinct :
    (k : ℕ) (ns : List ℕ) → contains k ns ≡ false → IsDistinct ns → IsDistinct (ns ++ (k ∷ []))
append-IsDistinct k [] h d = (refl, tt)
append-IsDistinct k (n ∷ ns) h d = ground (arith, contains-append n k ns, append-IsDistinct k ns)

without-below : (id m : ℕ) (ns : List ℕ) → contains m (without id ns) ≡ true → contains m ns ≡ true
without-below id m ns h = ground (arith, contains-without id m ns)

new_node-IsValid : (n : Network) → IsValid n → IsValid (new_node n).0
unfolding new_node
new_node-IsValid n v = record {
  distinct = append-IsDistinct k n.nodes_by_id (fresh (contains k n.nodes_by_id) refl) v.distinct;
  below = λ id h. ground (arith, contains-append id k n.nodes_by_id, v.below id);
  has_port = λ id h. ground (arith, ports-add_port k id n.table, v.has_port id);
  consistent = ground (arith, add_port-IsConsistent k n.table v.consistent);
}
  where
    open n use {next_node_id as k}

    fresh : (b : Bool) → contains k n.nodes_by_id ≡ b → contains k n.nodes_by_id ≡ false
    fresh true e = absurd (omega (arith, v.below k e))
    fresh false e = e

close-IsValid : (id : ℕ) (n : Network) → IsValid n → IsValid (close id n)
unfolding close
close-IsValid id n v = record {
  distinct = without-IsDistinct id n.nodes_by_id v.distinct;
  below = λ m h. v.below m (without-below id m n.nodes_by_id h);
  has_port = λ m h. ground (arith, ports-delete_port id n.table, v.has_port m h);
  consistent = delete_port-IsConsistent id n.next_node_id n.table v.consistent;
}

write-IsValid :
    (now : ℕ) (pkt : Packet) (id : ℕ) (n : Network) → IsValid n → IsValid (write now pkt id n).0
write-IsValid now pkt id n v =
    let (nodes, table, made) = nodes-write now pkt id n in
    record {
      distinct = rw nodes v.distinct;
      below = rw (nodes, made) v.below;
      has_port = λ m h. rw (table, ports-record_src) (v.has_port m (rw made at h));
      consistent =
          rw (table, made)
            (record_src-IsConsistent now id pkt.header.src n.next_node_id n.table v.consistent);
    }

note-IsValid :
    (now : ℕ) (pkt : Packet) (id : ℕ) (n : Network)
    → IsValid n
    → IsValid (record n { table = record_src now id pkt.header.src n.table })
note-IsValid now pkt id n v = record {
  distinct = v.distinct;
  below = v.below;
  has_port = λ m h. rw ports-record_src (v.has_port m h);
  consistent = record_src-IsConsistent now id pkt.header.src n.next_node_id n.table v.consistent;
}

-- Validity does not look at the pipes.
other_pipes-IsValid :
    (pipes : ℕ → Pipe) (n : Network) → IsValid n → IsValid (record n { pipes = pipes })
other_pipes-IsValid pipes n v = record {
  distinct = v.distinct;
  below = v.below;
  has_port = v.has_port;
  consistent = v.consistent;
}

Step-IsValid : {n m : Network} → Step n m → IsValid n → IsValid m
unfolding read close deliver
Step-IsValid {n} make v = new_node-IsValid n v
Step-IsValid {n} (shut id h) v = close-IsValid id n v
Step-IsValid {n} (receive id done pick h) v = record {
  distinct = v.distinct;
  below = v.below;
  has_port = v.has_port;
  consistent = v.consistent;
}
Step-IsValid {n} (send now pkt id h) v = write-IsValid now pkt id n v
Step-IsValid {n} (note now pkt id h) v = note-IsValid now pkt id n v
Step-IsValid {n} (hand_over pkt id h) v = other_pipes-IsValid _ n v
Step-IsValid {n} (detach id h) v = other_pipes-IsValid n.pipes (close id n) (close-IsValid id n v)
Step-IsValid {n} (close_pipe id h) v = other_pipes-IsValid _ n v

-- However nodes are made, closed, read and written, in any order, also after they were closed and
-- between the parts of other calls of WritePacket and Close: the attached nodes are distinct and
-- were made by `NewNode`, every node that was made has a port, and each address of the routing table
-- is in the set of the port that it is mapped to.
pub Reach-IsValid : {n : Network} → Reach n → IsValid n
Reach-IsValid start = record {
  distinct = tt;
  below = λ id h. ground arith;
  has_port = λ id h. absurd (omega arith);
  consistent = make_routing_table-IsConsistent;
}
Reach-IsValid (next r s) = Step-IsValid s (Reach-IsValid r)

lookup_dest_after_learning :
    {n : Network} (now later a b : ℕ) (pkt reply : Packet) (socket : ℕ)
    → IsValid n
    → contains a n.nodes_by_id ≡ true
    → IsUnicast pkt.header.src
    → reply.header.dest ≡ record pkt.header.src { socket = socket }
    → make_key reply.header.src ≢ make_key pkt.header.src
    → lookup_dest reply.header.dest
        (record_src later b reply.header.src (write now pkt a n).0.table)
      ≡ port_dest a
lookup_dest_after_learning {n} now later a b pkt reply socket v attached u dest other =
    split (port a n.table) refl
  where
    split :
        (o : Option PortData)
        → port a n.table ≡ o
        → lookup_dest reply.header.dest
            (record_src later b reply.header.src (write now pkt a n).0.table)
          ≡ port_dest a
    split none e = absurd (ground (arith, v.has_port a (v.below a attached)))
    split (some pd) e =
        lookup_dest-record_src_ne later b reply.header.src reply.header.dest _ (rw dest other)
        ∙ rw ((nodes-write now pkt a n).1, dest)
            (lookup_dest-record_src now a pkt.header.src socket n.table u e)

-- In every network that can arise, once an attached node `a` has sent a packet from a unicast
-- address, a packet that another node `b` sends from another address to that network and node
-- address goes into the pipe of `a` and into no other.
pub unicast_after_learning :
    {n : Network} (now later a b m : ℕ) (pkt reply : Packet) (socket : ℕ)
    → Reach n
    → contains a n.nodes_by_id ≡ true
    → a ≢ b
    → IsUnicast pkt.header.src
    → reply.header.dest ≡ record pkt.header.src { socket = socket }
    → make_key reply.header.src ≢ make_key pkt.header.src
    → (write later reply b (write now pkt a n).0).0.pipes m ≡ (
        if m == a
        then (Pipe.write reply ((write now pkt a n).0.pipes m)).0
        else (write now pkt a n).0.pipes m)
unicast_after_learning {n} now later a b m pkt reply socket r attached ne u dest other =
    let v = Reach-IsValid r in
    ground (
      arith,
      pipes-write later reply b m (write now pkt a n).0 (write-IsValid now pkt a n v).distinct,
      lookup_dest_after_learning now later a b pkt reply socket v attached u dest other,
      nodes-write now pkt a n,
    )
