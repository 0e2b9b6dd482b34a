-- ===== src/Qproxy/Proxy/Panics.antt =====
-- When module/qproxy/proxy.go panics: only on packets that are too short.
use ipxbox.Common.{ℕ, ◌+◌, ◌≤◌, ◌≡◌, List, Option, none, some, length}
use ipxbox.Ipx.{Addr}
use ipxbox.Qproxy.Proxy.{quake_ipx_socket, connected_ipx_socket, Proxy}
use ipxbox.Qproxy.Proxy.Collecting.{Event, from_node, from_server, collects}

-- The operation does not panic.
abbrev Goes : {A : Type 0} → Option A → Type 0
Goes none = ⊥
Goes (some x) = Unit

module _ (node_addr : Addr) where
  -- A payload holds Quake's header and, in its array, two bytes more.
  abbrev pub HasRoom : (spare payload : List ℕ) → Type 0
  HasRoom spare payload = (4 ≤ length payload) × (6 ≤ length payload + length spare)

  -- What a packet for one of the two sockets of Quake, and a datagram in the buffer of 9000 bytes of
  -- receivePackets, leave to the proxy.
  abbrev pub Fits : Event → Type 0
  Fits (from_node resolved opens up_ok down_ok now spare packet) =
      (packet.header.dest.socket ≡ quake_ipx_socket → 4 ≤ length packet.payload)
      × (packet.header.dest.socket ≡ connected_ipx_socket → HasRoom spare packet.payload)
  Fits (from_server up_ok down_ok now addr from spare bytes) = length bytes + length spare ≡ 9000
  Fits (collects idle_timeout now) = Unit
