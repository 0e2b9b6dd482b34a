-- ===== src/Network/Switch.antt =====
-- network/ipxswitch/ipxswitch.go: the switch that connects the nodes. Times are nanoseconds of a
-- monotonic clock, given as an argument where the code asks for the time. A Go map is an
-- association list.
-- The node that `nodesByID` holds under a number is named by that number, so the map is the list of
-- its keys, and `pipes` holds the receive pipe of every node made so far. A node that was closed
-- has left the list, but its owner can still call its methods.
pub mod Table
pub mod Delivery
pub mod Reachable
mod Examples
use ipxbox.Common.{
  ℕ, suc, ◌+◌, ◌≡◌, Bool, true, false, not, ◌&&◌, ◌||◌, List, [], ◌∷◌, ◌++◌, Option, none, some,
  ◌==◌, if◌then◌else◌,
}
use ipxbox.Ipx.{Packet}
use ipxbox.Network.Pipe
use ipxbox.Network.Pipe.{Pipe}
use Table.{
  Dest, broadcast_dest, port_dest, RoutingTable, make_routing_table, record_src, lookup_dest,
  add_port, delete_port,
}

pub record Network : Type 0 where
  pub nodes_by_id : List ℕ
  pub next_node_id : ℕ
  pub table : RoutingTable
  pub pipes : ℕ → Pipe

-- `New`
abbrev pub new : Network
new = record {
  nodes_by_id = [];
  next_node_id = 0;
  table = make_routing_table;
  pipes = λ _. Pipe.new;
}

abbrev pub contains : ℕ → List ℕ → Bool
contains id [] = false
contains id (n ∷ ns) = n == id || contains id ns

abbrev pub without : ℕ → List ℕ → List ℕ
without id [] = []
without id (n ∷ ns) = if n == id then without id ns else n ∷ without id ns

abbrev pub update : (ℕ → Pipe) → ℕ → Pipe → ℕ → Pipe
update pipes id p n = if n == id then p else pipes n

-- `NewNode` returns the network and the number of the new node.
unfoldable pub new_node : Network → Network × ℕ
new_node n = (
  record n {
    nodes_by_id = n.nodes_by_id ++ (n.next_node_id ∷ []);
    next_node_id = n.next_node_id + 1;
    table = add_port n.next_node_id n.table;
    pipes = update n.pipes n.next_node_id Pipe.new;
  },
  n.next_node_id,
)

-- `node.Close`
unfoldable pub close : ℕ → Network → Network
close id n = record n {
  nodes_by_id = without id n.nodes_by_id;
  table = delete_port id n.table;
  pipes = update n.pipes id (Pipe.close (n.pipes id));
}

-- `node.ReadPacket`
unfoldable pub read : ℕ → (done pick : Bool) → Network → Network × Pipe.Read
read id done pick n =
    let (p, r) = Pipe.read done pick (n.pipes id) in (record n { pipes = update n.pipes id p }, r)

-- The loop of `broadcastPacket` over the nodes that are not the sender: the pipes, and the errors
-- that the message lists.
unfoldable pub broadcast_loop :
    Packet → List ℕ → (ℕ → Pipe) → List Pipe.Error → (ℕ → Pipe) × List Pipe.Error
broadcast_loop pkt [] pipes errs = (pipes, errs)
broadcast_loop pkt (id ∷ ids) pipes errs =
    let (p, e) = Pipe.write pkt (pipes id) in
    broadcast_loop pkt ids (update pipes id p) (elim e [ none ↦ errs | some x ↦ errs ++ (x ∷ []) ])

-- `broadcastPacket` and `forwardPacket`; an empty list of errors is the result nil.
unfoldable pub broadcast_packet : Packet → ℕ → Network → Network × List Pipe.Error
broadcast_packet pkt src n =
    let (pipes, errs) = broadcast_loop pkt (without src n.nodes_by_id) n.pipes [] in
    (record n { pipes = pipes }, errs)

unfoldable pub deliver : Packet → ℕ → Network → Network × List Pipe.Error
deliver pkt id n =
    let (p, e) = Pipe.write pkt (n.pipes id) in
    (record n { pipes = update n.pipes id p }, elim e [ none ↦ [] | some x ↦ x ∷ [] ])

unfoldable pub forward_packet : Packet → ℕ → Network → Network × List Pipe.Error
forward_packet pkt src n = elim (lookup_dest pkt.header.dest n.table) [
  | broadcast_dest ↦ broadcast_packet pkt src n
  | port_dest id ↦
      if not (contains id n.nodes_by_id) || id == src then (n, []) else deliver pkt id n
]

-- `node.WritePacket`
unfoldable pub write : (now : ℕ) → Packet → ℕ → Network → Network × List Pipe.Error
write now pkt id n =
    forward_packet pkt id (record n { table = record_src now id pkt.header.src n.table })
