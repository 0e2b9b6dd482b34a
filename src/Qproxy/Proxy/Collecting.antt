-- ===== src/Qproxy/Proxy/Collecting.antt =====
-- garbageCollect of module/qproxy/proxy.go, and whole runs of the proxy.
use ipxbox.Common.{
  ℕ, ◌-◌, ◌≡◌, refl, arith, Bool, List, [], ◌∷◌, Option, none, some, ltb, if◌then◌else◌, All,
  Bool-cases, inl, inr,
}
use ipxbox.Common.Assoc.{Assoc, find, Unique}
use mathlib.Core.Path.{subst}
use ipxbox.Ipx.{Addr, HeaderAddr, HeaderAddr-discrete, Packet}
use ipxbox.Qproxy.Proxy.{
  UdpAddr, Connection, Proxy, new, receive_udp, collect, garbage_collect, dispatch,
}
use ipxbox.Qproxy.Proxy.Valid.{
  IsFiled, IsValid, MayBeValid, receive_udp-MayBeValid, dispatch-MayBeValid,
}

-- What is left of a connection.
abbrev pub kept : (idle_timeout now : ℕ) → Option Connection → Option Connection
kept idle_timeout now none = none
kept idle_timeout now (some c) = if ltb idle_timeout (now - c.last_rx_time) then none else some c

-- What happens at a proxy.
pub data Event : Type 0 where
  from_node :
      (resolved : Option UdpAddr) (opens up_ok down_ok : Bool) (now : ℕ)
      → (spare : List ℕ) → Packet
      → Event
  from_server :
      (up_ok down_ok : Bool) (now : ℕ) (addr : HeaderAddr) (from : UdpAddr)
      → (spare bytes : List ℕ) → Event
  collects : (idle_timeout now : ℕ) → Event

module _ (node_addr : Addr) where
  -- Garbage collection removes the connections that have been idle for longer than the timeout and
  -- no others, if no key stands twice in the map.
  pub find-collect :
      (idle_timeout now : ℕ) (addr : HeaderAddr) (conns : Assoc HeaderAddr Connection)
      → Unique HeaderAddr-discrete conns
      → find HeaderAddr-discrete addr (collect node_addr idle_timeout now conns)
        ≡ kept idle_timeout now (find HeaderAddr-discrete addr conns)
  unfolding collect find
  find-collect idle_timeout now addr [] u = refl
  find-collect idle_timeout now addr ((a, c) ∷ conns) (n, u) =
      let ih = find-collect idle_timeout now addr conns u in
      elim (HeaderAddr-discrete a addr) [
        | yes q ↦
            let f : find HeaderAddr-discrete addr conns ≡ none =
              subst (λ x. find HeaderAddr-discrete x conns ≡ none) q n in
            ground (arith, ih, q, f)
        | no q ↦ ground (arith, ih, q)
      ]

  collect-absent :
      (idle_timeout now : ℕ) (addr : HeaderAddr) (conns : Assoc HeaderAddr Connection)
      → find HeaderAddr-discrete addr conns ≡ none
      → find HeaderAddr-discrete addr (collect node_addr idle_timeout now conns) ≡ none
  unfolding collect find
  collect-absent idle_timeout now addr [] e = refl
  collect-absent idle_timeout now addr ((a, c) ∷ conns) e = elim (HeaderAddr-discrete a addr) [
    | yes q ↦ ground (arith, e, q)
    | no q ↦ ground (arith, e, q, collect-absent idle_timeout now addr conns)
  ]

  collect-Unique :
      (idle_timeout now : ℕ) (conns : Assoc HeaderAddr Connection)
      → Unique HeaderAddr-discrete conns
      → Unique HeaderAddr-discrete (collect node_addr idle_timeout now conns)
  unfolding collect
  collect-Unique idle_timeout now [] u = tt
  collect-Unique idle_timeout now ((a, c) ∷ conns) (n, u) =
      elim (Bool-cases (ltb idle_timeout (now - c.last_rx_time))) [
        | inl t ↦ rw (collect, t) (collect-Unique idle_timeout now conns u)
        | inr t ↦
            rw (collect, t)
              (collect-absent idle_timeout now a conns n, collect-Unique idle_timeout now conns u)
      ]

  collect-IsFiled :
      (idle_timeout now : ℕ) (conns : Assoc HeaderAddr Connection)
      → All IsFiled conns
      → All IsFiled (collect node_addr idle_timeout now conns)
  unfolding collect
  collect-IsFiled idle_timeout now [] a = tt
  collect-IsFiled idle_timeout now ((a, c) ∷ conns) (f, fs) =
      elim (Bool-cases (ltb idle_timeout (now - c.last_rx_time))) [
        | inl t ↦ rw (collect, t) (collect-IsFiled idle_timeout now conns fs)
        | inr t ↦ rw (collect, t) (f, collect-IsFiled idle_timeout now conns fs)
      ]

  abbrev pub step : Event → Proxy → Option Proxy
  step (from_node resolved opens up_ok down_ok now spare packet) p =
      dispatch node_addr resolved opens up_ok down_ok now spare packet p
  step (from_server up_ok down_ok now addr from spare bytes) p =
      receive_udp node_addr up_ok down_ok now addr from spare bytes p
  step (collects idle_timeout now) p = some (garbage_collect node_addr idle_timeout now p)

  -- The run ends with a panic.
  abbrev pub proxy_run : List Event → Proxy → Option Proxy
  proxy_run [] p = some p
  proxy_run (e ∷ es) p = elim (step e p) [ none ↦ none | some q ↦ proxy_run es q ]

  step-MayBeValid : (e : Event) (p : Proxy) → IsValid node_addr p → MayBeValid node_addr (step e p)
  step-MayBeValid (from_node resolved opens up_ok down_ok now spare packet) p v =
      dispatch-MayBeValid node_addr resolved opens up_ok down_ok now spare packet p v
  step-MayBeValid (from_server up_ok down_ok now addr from spare bytes) p v =
      receive_udp-MayBeValid node_addr up_ok down_ok now addr from spare bytes p v
  step-MayBeValid (collects idle_timeout now) p v = record {
    filed = collect-IsFiled idle_timeout now p.conns v.filed;
    unique = collect-Unique idle_timeout now p.conns v.unique;
    ours = v.ours;
  }

  -- From the start of a proxy, whatever packets and datagrams arrive and whenever garbage is
  -- collected, unless the proxy panics: every connection is filed under its own client's address,
  -- no address stands twice, the socket of each is one of the two of Quake, and all that was written
  -- to the node comes from the node's address and one of these sockets.
  pub proxy_run-IsValid :
      (es : List Event) (p : Proxy) → proxy_run es new ≡ some p → IsValid node_addr p
  proxy_run-IsValid es p e =
      subst (MayBeValid node_addr) e
        (onwards es new (record { filed = tt; unique = tt; ours = tt }))
    where
      onwards :
          (es : List Event) (p : Proxy)
          → IsValid node_addr p
          → MayBeValid node_addr (proxy_run es p)
      onwards [] p v = v
      onwards (e ∷ es) p v = split (step e p) (step-MayBeValid e p v) (λ q w. onwards es q w)
        where
          split :
              (o : Option Proxy)
              → MayBeValid node_addr o
              → ((q : Proxy) → IsValid node_addr q → MayBeValid node_addr (proxy_run es q))
              → MayBeValid node_addr (elim o [ none ↦ none | some q ↦ proxy_run es q ])
          split none m k = tt
          split (some q) m k = k q m
