-- ===== src/Qproxy/Proxy/Valid.antt =====
-- The map of connections of module/qproxy/proxy.go, and what it sends to the clients.
use ipxbox.Common.{
  ℕ, ◌+◌, ◌*◌, ◌≡◌, refl, Bool, true, false, not, ◌||◌, List, [], ◌∷◌, Option, none, some, Result,
  ok, err, ltb, ◌==◌, if◌then◌else◌, length, drop, All, Bool-cases, ◌⊎◌, inl, inr,
}
use ipxbox.Common.Bytes.{All-append, byte_at}
use ipxbox.Common.Assoc.{find, Unique, put-Unique, delete-Unique, All-put, All-delete, All-find}
use ipxbox.Ipx.{Addr, HeaderAddr, HeaderAddr-discrete, Packet}
use ipxbox.Qproxy.Sharder.{
  Outcome, ReliableMessage, Error, message_too_short, transmit_failed, slice_out_of_range,
  receive_from_upstream, receive_from_downstream,
}
use ipxbox.Qproxy.Proxy.{
  quake_ipx_socket, connected_ipx_socket, quake_header_bytes, UdpAddr, Connection, Proxy, Effects,
  new_connection, close_connection, handle_accept, downstream_packet, downstream_all,
  sharder_effects, receive, on_port, after_upstream, accept_header_min_len, cc_rep_accept, apply,
  receive_udp, forward, process_resolved, is_empty, process_packet, has_port, after_sharder,
  process_connected_packet, dispatch,
}

abbrev pub IsQuakeSocket : ℕ → Type 0
IsQuakeSocket socket = (socket ≡ quake_ipx_socket) ⊎ (socket ≡ connected_ipx_socket)

-- A connection is filed under the address of its client.
abbrev pub IsFiled : HeaderAddr × Connection → Type 0
IsFiled e = (e.1.ipx_addr ≡ e.0) × IsQuakeSocket e.1.ipx_socket

module _ (node_addr : Addr) where
  -- A packet comes from the proxy's node and one of its two sockets.
  abbrev pub IsOurs : Packet → Type 0
  IsOurs packet = (packet.header.src.addr ≡ node_addr) × IsQuakeSocket packet.header.src.socket

  pub record IsValid (p : Proxy) : Type 0 where
    pub filed : All IsFiled p.conns
    pub unique : Unique HeaderAddr-discrete p.conns
    pub ours : All IsOurs p.to_node

  -- What the code of a connection under an address leaves is fit to be filed there.
  abbrev IsFit : HeaderAddr → Effects → Type 0
  IsFit addr e = IsFiled (addr, e.connection) × All IsOurs e.packets

  apply-IsValid :
      (addr : HeaderAddr) (e : Effects) (p : Proxy)
      → IsFit addr e
      → IsValid p
      → IsValid (apply node_addr addr e p)
  apply-IsValid addr e p (f, o) v = record {
    filed = All-put HeaderAddr-discrete addr e.connection p.conns (λ e f. f) f v.filed;
    unique = put-Unique HeaderAddr-discrete addr e.connection p.conns v.unique;
    ours = All-append IsOurs p.to_node e.packets v.ours o;
  }

  close_connection-IsValid :
      (addr : HeaderAddr) (p : Proxy) → IsValid p → IsValid (close_connection addr p)
  close_connection-IsValid addr p v = record {
    filed = All-delete HeaderAddr-discrete addr p.conns (λ e f n. f) v.filed;
    unique = delete-Unique HeaderAddr-discrete addr p.conns v.unique;
    ours = v.ours;
  }

  downstream_all-IsOurs :
      (ms : List ReliableMessage) (c : Connection)
      → IsQuakeSocket c.ipx_socket
      → All IsOurs (downstream_all node_addr ms c)
  downstream_all-IsOurs [] c s = tt
  downstream_all-IsOurs (m ∷ ms) c s = ((refl, s), downstream_all-IsOurs ms c s)

  if-IsOurs :
      (b : Bool) (packets : List Packet)
      → All IsOurs packets
      → All IsOurs (if b then packets else [])
  if-IsOurs true packets a = a
  if-IsOurs false packets a = tt

  sharder_effects-IsFit :
      (up_ok down_ok : Bool) (server : UdpAddr) (addr : HeaderAddr) (o : Outcome Bool)
      (c : Connection)
      → IsFiled (addr, c)
      → IsFit addr (sharder_effects node_addr up_ok down_ok server o c)
  sharder_effects-IsFit up_ok down_ok server addr o c f = (
    f,
    if-IsOurs down_ok (downstream_all node_addr o.down c) (downstream_all-IsOurs o.down c f.1),
  )

  handle_accept-IsFiled :
      (server : UdpAddr) (bytes : List ℕ) (addr : HeaderAddr) (c : Connection)
      → IsFiled (addr, c)
      → IsFiled (addr, (handle_accept server bytes c).1)
  unfolding handle_accept
  handle_accept-IsFiled server bytes addr c f =
      split (Bool-cases (ltb (length bytes) accept_header_min_len))
        (Bool-cases (byte_at bytes 4 == cc_rep_accept))
        (Bool-cases (byte_at bytes 6 * 256 + byte_at bytes 5 == server.port))
    where
      split :
          (ltb (length bytes) accept_header_min_len ≡ true)
            ⊎ (ltb (length bytes) accept_header_min_len ≡ false)
          → ((byte_at bytes 4 == cc_rep_accept) ≡ true)
            ⊎ ((byte_at bytes 4 == cc_rep_accept) ≡ false)
          → ((byte_at bytes 6 * 256 + byte_at bytes 5 == server.port) ≡ true)
            ⊎ ((byte_at bytes 6 * 256 + byte_at bytes 5 == server.port) ≡ false)
          → IsFiled (addr, (handle_accept server bytes c).1)
      split (inl a) b d = rw (handle_accept, a) f
      split (inr a) (inr b) d = rw (handle_accept, a, b) f
      split (inr a) (inl b) (inl d) = rw (handle_accept, a, b, d) (f.0, inl refl)
      split (inr a) (inl b) (inr d) = rw (handle_accept, a, b, d) f

  -- What may come of a turn of receivePackets.
  abbrev MayFit : HeaderAddr → Option Effects → Type 0
  MayFit addr none = Unit
  MayFit addr (some e) = IsFit addr e

  if-MayFit :
      (b : Bool) (addr : HeaderAddr) (x y : Option Effects)
      → MayFit addr x
      → MayFit addr y
      → MayFit addr (if b then x else y)
  if-MayFit true addr x y f g = f
  if-MayFit false addr x y f g = g

  on_port-MayFit :
      (o : Option ℕ) (from : ℕ) (addr : HeaderAddr) (x y : Option Effects)
      → MayFit addr x
      → MayFit addr y
      → MayFit addr (on_port node_addr o from x y)
  on_port-MayFit none from addr x y f g = f
  on_port-MayFit (some port) from addr x y f g = if-MayFit (not (from == port)) addr x y f g

  after_upstream-MayFit :
      (down_ok : Bool) (now : ℕ) (bytes : List ℕ) (addr : HeaderAddr) (c : Connection)
      (r : Result Error Bool) (e : Effects)
      → IsFiled (addr, c)
      → IsFit addr e
      → MayFit addr (after_upstream node_addr down_ok now bytes c r e)
  after_upstream-MayFit down_ok now bytes addr c (err slice_out_of_range) e f g = tt
  after_upstream-MayFit down_ok now bytes addr c (err message_too_short) e f g = g
  after_upstream-MayFit down_ok now bytes addr c (err transmit_failed) e f g = g
  after_upstream-MayFit down_ok now bytes addr c (ok true) e f g = g
  after_upstream-MayFit down_ok now bytes addr c (ok false) e f g = (
    g.0,
    if-IsOurs down_ok (downstream_packet node_addr c.ipx_socket bytes c ∷ []) ((refl, f.1), tt),
  )

  receive-MayFit :
      (up_ok down_ok : Bool) (now : ℕ) (server from : UdpAddr) (spare bytes : List ℕ)
      (addr : HeaderAddr) (c : Connection)
      → IsFiled (addr, c)
      → MayFit addr (receive node_addr up_ok down_ok now server from spare bytes c)
  unfolding receive
  receive-MayFit up_ok down_ok now server from spare bytes addr c f =
      let a = handle_accept server bytes c in
      let o = receive_from_upstream up_ok down_ok spare bytes c.rs in
      let e = sharder_effects node_addr up_ok down_ok server o c in
      if-MayFit (not (from.ip == server.ip)) addr _ _ (f, tt)
        (if-MayFit (from.port == server.port) addr _ _
          (
            handle_accept-IsFiled server bytes addr c f,
            if-IsOurs down_ok (downstream_packet node_addr quake_ipx_socket a.0 a.1 ∷ [])
                ((refl, inl refl), tt),
          )
          (on_port-MayFit c.connected_port from.port addr _ _ (f, tt)
            (after_upstream-MayFit down_ok now bytes addr c o.result e f
              (sharder_effects-IsFit up_ok down_ok server addr o c f))))

  -- What may come of an operation.
  abbrev pub MayBeValid : Option Proxy → Type 0
  MayBeValid none = Unit
  MayBeValid (some p) = IsValid p

  found-IsFiled :
      (addr : HeaderAddr) (c : Connection) (p : Proxy)
      → find HeaderAddr-discrete addr p.conns ≡ some c
      → IsValid p
      → IsFiled (addr, c)
  found-IsFiled addr c p e v = All-find HeaderAddr-discrete IsFiled addr c p.conns e v.filed

  pub receive_udp-MayBeValid :
      (up_ok down_ok : Bool) (now : ℕ) (addr : HeaderAddr) (from : UdpAddr) (spare bytes : List ℕ)
      (p : Proxy)
      → IsValid p
      → MayBeValid (receive_udp node_addr up_ok down_ok now addr from spare bytes p)
  unfolding receive_udp
  receive_udp-MayBeValid up_ok down_ok now addr from spare bytes p v =
      split (find HeaderAddr-discrete addr p.conns) refl
    where
      applied :
          (o : Option Effects)
          → MayFit addr o
          → MayBeValid (elim o [ none ↦ none | some e ↦ some (apply node_addr addr e p) ])
      applied none f = tt
      applied (some e) f = apply-IsValid addr e p f v

      split :
          (o : Option Connection)
          → find HeaderAddr-discrete addr p.conns ≡ o
          → MayBeValid (receive_udp node_addr up_ok down_ok now addr from spare bytes p)
      split none e = rw (receive_udp, e) v
      split (some c) e =
          rw (receive_udp, e)
            (applied (receive node_addr up_ok down_ok now p.address from spare bytes c) (
              receive-MayFit up_ok down_ok now p.address from spare bytes addr c
                (found-IsFiled addr c p e v)))

  if-MayBeValid :
      (b : Bool) (x y : Option Proxy)
      → MayBeValid x
      → MayBeValid y
      → MayBeValid (if b then x else y)
  if-MayBeValid true x y f g = f
  if-MayBeValid false x y f g = g

  forward-MayBeValid :
      (udp_ok : Bool) (now : ℕ) (packet : Packet) (c : Connection) (p : Proxy)
      → IsFiled (packet.header.src, c)
      → IsValid p
      → MayBeValid (forward node_addr udp_ok now packet c p)
  forward-MayBeValid udp_ok now packet c p f v =
      if-MayBeValid (ltb (length packet.payload) quake_header_bytes) _ _ tt (
        if-MayBeValid udp_ok _ _ (apply-IsValid packet.header.src _ p (f, tt) v)
          (close_connection-IsValid packet.header.src p v))

  process_resolved-MayBeValid :
      (opens udp_ok : Bool) (now : ℕ) (packet : Packet) (p : Proxy)
      → IsValid p
      → MayBeValid (process_resolved node_addr opens udp_ok now packet p)
  process_resolved-MayBeValid opens udp_ok now packet p v =
      split (find HeaderAddr-discrete packet.header.src p.conns) refl
    where
      split :
          (o : Option Connection)
          → find HeaderAddr-discrete packet.header.src p.conns ≡ o
          → MayBeValid (process_resolved node_addr opens udp_ok now packet p)
      split none e =
          rw (MayBeValid, e)
            (if-MayBeValid opens _ _
              (forward-MayBeValid udp_ok now packet (new_connection now packet.header.src) p
                (refl, inr refl) v)
              v)
      split (some c) e =
          rw (MayBeValid, e)
            (forward-MayBeValid udp_ok now packet c p (found-IsFiled packet.header.src c p e v) v)

  process_packet-MayBeValid :
      (resolved : Option UdpAddr) (opens udp_ok : Bool) (now : ℕ) (packet : Packet) (p : Proxy)
      → IsValid p
      → MayBeValid (process_packet node_addr resolved opens udp_ok now packet p)
  unfolding process_packet
  process_packet-MayBeValid resolved opens udp_ok now packet p v =
      if-MayBeValid (not (is_empty node_addr p.conns)) _ _
        (process_resolved-MayBeValid opens udp_ok now packet p v) (split resolved)
    where
      split :
          (r : Option UdpAddr)
          → MayBeValid (elim r [
            | none ↦ some p
            | some address ↦
                process_resolved node_addr opens udp_ok now packet (record p { address = address })
          ])
      split none = v
      split (some address) =
          process_resolved-MayBeValid opens udp_ok now packet (record p { address = address })
            (record { filed = v.filed; unique = v.unique; ours = v.ours })

  after_sharder-MayBeValid :
      (up_ok : Bool) (src : HeaderAddr) (msg : List ℕ) (r : Result Error Bool) (e : Effects)
      (p : Proxy)
      → IsFit src e
      → IsValid p
      → MayBeValid (after_sharder node_addr up_ok src msg r e p)
  after_sharder-MayBeValid up_ok src msg (err slice_out_of_range) e p f v = tt
  after_sharder-MayBeValid up_ok src msg (err message_too_short) e p f v =
      close_connection-IsValid src _ (apply-IsValid src e p f v)
  after_sharder-MayBeValid up_ok src msg (err transmit_failed) e p f v =
      close_connection-IsValid src _ (apply-IsValid src e p f v)
  after_sharder-MayBeValid up_ok src msg (ok true) e p f v = apply-IsValid src e p f v
  after_sharder-MayBeValid up_ok src msg (ok false) e p f v =
      if-MayBeValid (up_ok || not (has_port node_addr e.connection.connected_port)) _ _
        (apply-IsValid src _ p f v) (close_connection-IsValid src _ (apply-IsValid src e p f v))

  process_connected_packet-MayBeValid :
      (up_ok down_ok : Bool) (now : ℕ) (spare : List ℕ) (packet : Packet) (p : Proxy)
      → IsValid p
      → MayBeValid (process_connected_packet node_addr up_ok down_ok now spare packet p)
  unfolding process_connected_packet
  process_connected_packet-MayBeValid up_ok down_ok now spare packet p v =
      split (find HeaderAddr-discrete packet.header.src p.conns) refl
    where
      split :
          (o : Option Connection)
          → find HeaderAddr-discrete packet.header.src p.conns ≡ o
          → MayBeValid (process_connected_packet node_addr up_ok down_ok now spare packet p)
      split none e = rw (process_connected_packet, e) v
      split (some c) e =
          let msg = drop quake_header_bytes packet.payload in
          let c' = record c { last_rx_time = now } in
          let o = receive_from_downstream up_ok down_ok spare msg c.rs in
          rw (process_connected_packet, e)
            (if-MayBeValid (ltb (length packet.payload) quake_header_bytes) _ _ tt (
              after_sharder-MayBeValid up_ok packet.header.src msg o.result
                (sharder_effects node_addr up_ok down_ok p.address o c') p
                (sharder_effects-IsFit up_ok down_ok p.address packet.header.src o c'
                  (found-IsFiled packet.header.src c p e v))
                v))

  pub dispatch-MayBeValid :
      (resolved : Option UdpAddr) (opens up_ok down_ok : Bool) (now : ℕ) (spare : List ℕ)
      (packet : Packet) (p : Proxy)
      → IsValid p
      → MayBeValid (dispatch node_addr resolved opens up_ok down_ok now spare packet p)
  unfolding dispatch
  dispatch-MayBeValid resolved opens up_ok down_ok now spare packet p v =
      if-MayBeValid (packet.header.dest.socket == quake_ipx_socket) _ _
        (process_packet-MayBeValid resolved opens up_ok now packet p v)
        (if-MayBeValid (packet.header.dest.socket == connected_ipx_socket) _ _
          (process_connected_packet-MayBeValid up_ok down_ok now spare packet p v) v)
