-- ===== src/Network/Switch/Examples.antt =====
-- A switch with three nodes, and its table at work.
use ipxbox.Common.{ℕ, ◌≡◌, refl, arith, true, false, [], ◌∷◌, some, none, ℕ_discrete}
use ipxbox.Common.Assoc.{find, put, delete}
use ipxbox.Ipx.{
  HeaderAddr, Packet, Addr-discrete, NetworkNumber-discrete, HeaderAddr-discrete, zero_network,
  zero_header, addr_broadcast,
}
use ipxbox.Network.Pipe
use ipxbox.Network.Pipe.{Pipe}
use ipxbox.Network.Switch.{
  Network, new, new_node, write, forward_packet, deliver, broadcast_packet, broadcast_loop,
}
use ipxbox.Network.Switch.Delivery.{pipes-write}
use ipxbox.Network.Switch.Reachable.{
  Reach, start, next, make, IsValid, Reach-IsValid, unicast_after_learning,
}
use ipxbox.Network.Switch.Table.{
  RoutingTable, make_key, port, port_dest, make_routing_table, record_src, lookup_dest, add_port,
  delete_port, locked_record, learn, set_address, add_to_port, drop_from_port, check_dest_port,
  forget_keys,
}
use ipxbox.Network.Switch.Table.Learning.{
  IsUnicast, owner, lookup_dest-record_src, lookup_dest-record_src_ne,
}
use ipxbox.Network.Switch.Table.Consistent.{IsConsistent, record_src-IsConsistent}
use ipxbox.Network.Switch.Table.Ports.{
  owner-delete_port, add_port-IsConsistent, make_routing_table-IsConsistent, port-record_src_ne,
}

program : Unit {0}
unfolding find put delete ℕ_discrete Addr-discrete NetworkNumber-discrete HeaderAddr-discrete
    record_src lookup_dest add_port delete_port locked_record learn set_address add_to_port
    drop_from_port check_dest_port forget_keys new_node write forward_packet deliver
    broadcast_packet broadcast_loop Pipe.write
program = tt

abbrev host : ℕ → HeaderAddr
host k = record {
  network = zero_network;
  addr = record { a0 = 2; a1 = 0; a2 = 0; a3 = 0; a4 = 0; a5 = k };
  socket = 0x4002;
}

abbrev from_to : HeaderAddr → HeaderAddr → Packet
from_to src dest = record {
  header = record zero_header { src = src; dest = dest };
  payload = 7 ∷ [];
}

-- Two ports, and the first host on port 0.
abbrev ports2 : RoutingTable
ports2 = add_port 1 (add_port 0 make_routing_table)

abbrev learned : RoutingTable
learned = record_src 5 0 (host 1) ports2

ports2-IsConsistent : IsConsistent 2 ports2
ports2-IsConsistent =
    add_port-IsConsistent 1 (add_port 0 make_routing_table)
      (add_port-IsConsistent 0 make_routing_table make_routing_table-IsConsistent)

learned-IsConsistent : IsConsistent 2 learned
learned-IsConsistent = record_src-IsConsistent 5 0 (host 1) 2 ports2 ports2-IsConsistent

owner-delete_port_example : owner (make_key (host 1)) (delete_port 0 learned) ≡ none
unfolding program
owner-delete_port_example = owner-delete_port 0 2 (make_key (host 1)) learned learned-IsConsistent

port_0 : port 0 ports2 ≡ some (record { addrs = [] })
unfolding program
port_0 = refl

host_1-IsUnicast : IsUnicast (host 1)
unfolding program
host_1-IsUnicast = (refl, refl)

lookup_dest-record_src_example : lookup_dest (record (host 1) { socket = 2 }) learned ≡ port_dest 0
lookup_dest-record_src_example =
    lookup_dest-record_src 5 0 (host 1) 2 ports2 host_1-IsUnicast port_0

lookup_dest-record_src_ne_example : lookup_dest (host 2) learned ≡ lookup_dest (host 2) ports2
lookup_dest-record_src_ne_example =
    lookup_dest-record_src_ne 5 0 (host 1) (host 2) ports2 (λ e. ground arith)

-- The host moves to port 1, and port 0 still lists it.
port-record_src_ne_example :
    port 0 (record_src 9 1 (host 1) learned)
    ≡ some (record { addrs = (make_key (host 1), true) ∷ [] })
unfolding program
port-record_src_ne_example = port-record_src_ne 9 1 0 (host 1) learned (omega arith)

abbrev three : Network
three = (new_node (new_node (new_node new).0).0).0

three-Reach : Reach three
three-Reach = next (next (next start make) make) make

Reach-IsValid_example : IsValid three
Reach-IsValid_example = Reach-IsValid three-Reach

abbrev question : Packet
question = from_to (host 1) (record { network = zero_network; addr = addr_broadcast; socket = 2 })

abbrev answer : Packet
answer = from_to (host 2) (host 1)

-- A broadcast by node 0 reaches node 2.
pipes-write_example :
    (write 5 question 0 three).0.pipes 2 ≡ record { ch = question ∷ []; closed = false }
unfolding program
pipes-write_example = pipes-write 5 question 0 2 three (Reach-IsValid three-Reach).distinct

-- Node 1 answers to node 0 alone: the pipe of node 2 stays as it was.
unicast_after_learning_example :
    (write 6 answer 1 (write 5 question 0 three).0).0.pipes 2 ≡ (write 5 question 0 three).0.pipes 2
unicast_after_learning_example =
    unicast_after_learning 5 6 0 1 2 question answer 0x4002 three-Reach (unfold program in refl)
      (omega arith) host_1-IsUnicast refl (λ e. ground arith)
