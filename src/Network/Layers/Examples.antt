-- ===== src/Network/Layers/Examples.antt =====
-- The layers of network/ at concrete packets.
use ipxbox.Common.{
  ℕ, ◌≡◌, ◌≢◌, refl, arith, true, false, List, [], ◌∷◌, some, Result, ok, err, ℕ_discrete,
}
use ipxbox.Common.Assoc.{find}
use ipxbox.Ipx.{
  Addr, Addr-discrete, addr_null, addr_broadcast, Packet, zero_header, zero_header_addr,
  NetworkNumber-discrete,
}
use ipxbox.Network.Pipe
use ipxbox.Network.Layers.{Error, filtered_packet, wrong_address}
use ipxbox.Network.Layers.Filter.{passes, should_filter, filter_write, filter_lem}
use ipxbox.Network.Layers.Addressable
use ipxbox.Network.Layers.Addressable.{
  AddressableNetwork, Reach, IsKept, start, then_step, made, close_node, new_node, draw_address,
  destined_for, addressable_write, Reach-addresses, unicast_reader, addressable_lem,
}
use ipxbox.Network.Layers.Tappable
use ipxbox.Network.Layers.Tappable.{
  TappableNetwork, new_tap, delete_tap, tappable_write, written, tappable_write_lem,
  new_tap-delete_tap,
}
use ipxbox.Network.Layers.Stats.{new_statistics, reads, calls, stats-calls}
use ipxbox.Common.{inr}

-- An inner network that keeps what is written to it.
abbrev keep : Packet → List Packet → List Packet × Result Error (Unit {0})
keep packet s = (packet ∷ s, ok tt)

abbrev node_addr : Addr
node_addr = record addr_null { a0 = 2; a5 = 7 }

-- A packet to a port, for the node that is made below.
abbrev to_port : ℕ → Packet
to_port port = record {
  header = record zero_header {
    dest = record zero_header_addr { addr = node_addr; socket = port };
  };
  payload = 1 ∷ [];
}

netbios-passes : passes (to_port 0x455) ≡ false
unfolding should_filter
netbios-passes = refl

filter_example : filter_write keep (to_port 0x455) [] ≡ ([], err filtered_packet)
filter_example = (filter_lem keep (to_port 0x455) [] (ok (to_port 0x455) ∷ [])).2 netbios-passes

abbrev first : ℕ
first = 0

abbrev one_node : AddressableNetwork
one_node = (new_node (node_addr ∷ []) (Addressable.wrap (λ _. addr_null))).0

one_node-Reach : Reach one_node
one_node-Reach =
    then_step (Addressable.wrap (λ _. addr_null)) one_node (start (λ _. addr_null))
      (made (node_addr ∷ []) (Addressable.wrap (λ _. addr_null)))

one_node-open : one_node.is_open 0 ≡ true
unfolding new_node draw_address find
one_node-open = refl

one_node-IsKept : IsKept one_node (one_node.addrs 0)
unfolding new_node draw_address find
one_node-IsKept k e = refl

Reach-addresses_example : (first ≡ first) × ((one_node.addrs 0).a0 ≡ 2)
Reach-addresses_example =
    Reach-addresses one_node 0 0 one_node-Reach one_node-open one_node-open one_node-IsKept refl

-- A node is closed, another takes its address, the first one is closed again, and a third takes the
-- same address.
abbrev shared : AddressableNetwork
shared =
    (new_node (node_addr ∷ [])
      (close_node 0 (new_node (node_addr ∷ []) (close_node 0 one_node)).0)).0

closed_again_test :
    (shared.is_open 1 ≡ true) × (shared.is_open 2 ≡ true) × (shared.addrs 1 ≡ shared.addrs 2)
unfolding new_node draw_address close_node find Addr-discrete ipxbox.Common.Assoc.delete
    ipxbox.Common.Assoc.put
closed_again_test = (refl, refl, refl)

node_addr-unicast : node_addr ≢ addr_broadcast
node_addr-unicast e = ground (arith, e)

destined : destined_for (one_node.addrs 0) (to_port 5) ≡ true
unfolding destined_for new_node draw_address find Addr-discrete NetworkNumber-discrete
destined = refl

unicast_reader_example : first ≡ first
unicast_reader_example =
    unicast_reader one_node 0 0 (to_port 5) one_node-Reach one_node-open one_node-open
      one_node-IsKept node_addr-unicast destined destined

addressable_example : addressable_write keep node_addr (to_port 5) [] ≡ ([], err wrong_address)
addressable_example =
    (addressable_lem keep node_addr (to_port 5) [] []).2 (inr (λ e. ground (arith, e)))

abbrev one_tap : TappableNetwork
one_tap = (new_tap Tappable.wrap).0

tappable_write_example : (tappable_write keep (to_port 5) (one_tap, [])).1 ≡ ok tt
tappable_write_example = (tappable_write_lem keep (to_port 5) one_tap []).2

wrap-IsValid : Tappable.IsValid Tappable.wrap
unfolding find
wrap-IsValid = record { below = λ id l. refl }

new_tap-delete_tap_example : find ℕ_discrete 0 (new_tap Tappable.wrap).0.taps ≡ some Pipe.new
unfolding new_tap
new_tap-delete_tap_example = (new_tap-delete_tap Tappable.wrap 3 wrap-IsValid).3

stats-calls_example : (calls (reads (ok (to_port 5)) ∷ []) (new_statistics 0)).connect_time ≡ 0
stats-calls_example = (stats-calls (reads (ok (to_port 5)) ∷ []) (new_statistics 0)).4
