-- ===== src/Server/Clients/Timeouts.antt =====
-- checkClientTimeouts and the delivery of packets in server/server.go.
use ipxbox.Common.{
  ℕ, ◌+◌, ◌<◌, ◌≤◌, ◌≡◌, ◌≢◌, arith, true, false, List, [], ◌∷◌, Option, none, some, ok, ltb,
  if◌then◌else◌, ℕ_discrete, ◌⊎◌,
}
use ipxbox.Common.Assoc.{Assoc, find, find-put}
use ipxbox.Ipx.{Packet}
use ipxbox.Ipx
use ipxbox.Network.Pipe
use ipxbox.Network.Pipe.{Pipe}
use ipxbox.Server.Clients.{
  Server, Config, close_client, find_protocol, new_client, receive, register, dispatch,
  process_packet, all_clients, check_loop, check_client_timeouts,
}
use ipxbox.Server.Clients.Valid.{IsValid, check_loop-IsValid}

-- A number stands in a list.
abbrev pub Among : ℕ → List ℕ → Type 0
Among id [] = ⊥
Among id (n ∷ ns) = (n ≡ id) ⊎ Among id ns

find-Among :
    (addr id : ℕ) (clients : Assoc ℕ ℕ)
    → find ℕ_discrete addr clients ≡ some id
    → Among id (all_clients clients)
unfolding find all_clients
find-Among addr id [] e = ground (arith, e)
find-Among addr id ((a, n) ∷ clients) e = ground (arith, e, find-Among addr id clients)

-- A turn of the loop of checkClientTimeouts.
check_one-object :
    (client_timeout now id : ℕ) (s : Server) (q : ℕ)
    → let s' : Server =
        if ltb ((s.objects id).last_receive_time + client_timeout) now
        then close_client id s
        else s in
      ((s'.objects q).last_receive_time ≡ (s.objects q).last_receive_time)
      × ((s'.objects q).addr ≡ (s.objects q).addr)
      × ((s'.objects q).closed ≡ false → (s.objects q).closed ≡ false)
      × (q ≡ id
          → (s.objects q).last_receive_time + client_timeout < now
          → (s'.objects q).closed ≡ true)
      × (now ≤ (s.objects q).last_receive_time + client_timeout
          → (s.objects q).closed ≡ false
          → (s'.objects q).closed ≡ false)
unfolding close_client
check_one-object client_timeout now id s q = ground arith

-- The last receive times stay, no closed client opens, and a client of the list that has timed out
-- is closed; a client that has not timed out is closed only if it was.
check_loop-object :
    (client_timeout now : ℕ) (ids : List ℕ) (next : ℕ) (s : Server) (q : ℕ)
    → let s' : Server = (check_loop client_timeout now ids next s).0 in
      ((s'.objects q).last_receive_time ≡ (s.objects q).last_receive_time)
      × ((s'.objects q).addr ≡ (s.objects q).addr)
      × ((s'.objects q).closed ≡ false → (s.objects q).closed ≡ false)
      × (Among q ids
          → (s.objects q).last_receive_time + client_timeout < now
          → (s'.objects q).closed ≡ true)
      × (now ≤ (s.objects q).last_receive_time + client_timeout
          → (s.objects q).closed ≡ false
          → (s'.objects q).closed ≡ false)
unfolding check_loop
check_loop-object client_timeout now [] next s q = ground arith
check_loop-object client_timeout now (id ∷ ids) next s q =
    let timeout_time : ℕ = (s.objects id).last_receive_time + client_timeout in
    let s1 : Server = if ltb timeout_time now then close_client id s else s in
    let next1 : ℕ = if ltb timeout_time next then timeout_time else next in
    ground (
      arith,
      check_loop-object client_timeout now ids next1 s1 q,
      check_one-object client_timeout now id s q,
    )

-- The time that is returned is at most the one given, and at most the timeout of any client of the
-- list.
check_loop-next :
    (client_timeout now : ℕ) (ids : List ℕ) (next : ℕ) (s : Server) (q : ℕ)
    → ((check_loop client_timeout now ids next s).1 ≤ next)
      × (Among q ids
          → (check_loop client_timeout now ids next s).1
            ≤ (s.objects q).last_receive_time + client_timeout)
unfolding check_loop
check_loop-next client_timeout now [] next s q = ground arith
check_loop-next client_timeout now (id ∷ ids) next s q =
    let timeout_time : ℕ = (s.objects id).last_receive_time + client_timeout in
    let s1 : Server = if ltb timeout_time now then close_client id s else s in
    let next1 : ℕ = if ltb timeout_time next then timeout_time else next in
    ground (
      arith,
      check_loop-next client_timeout now ids next1 s1 q,
      check_one-object client_timeout now id s q,
    )

-- After checkClientTimeouts, a client is registered exactly if it was registered before and has not
-- timed out, and the next check comes within 10 seconds and no later than the timeout of any client
-- that is still registered.
pub check_client_timeouts_lem :
    (config : Config) (now : ℕ) (s : Server)
    → IsValid s
    → (addr id : ℕ)
    → let s' : Server = (check_client_timeouts config now s).0 in
      let next : ℕ = (check_client_timeouts config now s).1 in
      (find ℕ_discrete addr s'.clients ≡ some id
        → (find ℕ_discrete addr s.clients ≡ some id)
          × (now ≤ (s.objects id).last_receive_time + config.client_timeout)
          × (next ≤ (s.objects id).last_receive_time + config.client_timeout))
      × (find ℕ_discrete addr s.clients ≡ some id
          → now ≤ (s.objects id).last_receive_time + config.client_timeout
          → find ℕ_discrete addr s'.clients ≡ some id)
      × (next ≤ now + 10)
unfolding check_client_timeouts
check_client_timeouts_lem config now s v addr id =
    let ids : List ℕ = all_clients s.clients in
    let s' : Server = (check_loop config.client_timeout now ids (now + 10) s).0 in
    let v' : IsValid s' = check_loop-IsValid config.client_timeout now ids (now + 10) s v in
    ground (
      arith,
      v.named addr id,
      v.listed id,
      v'.named addr id,
      v'.listed id,
      find-Among addr id s.clients,
      check_loop-object config.client_timeout now ids (now + 10) s id,
      check_loop-next config.client_timeout now ids (now + 10) s id,
    )

-- A packet from a client's address goes to that client's pipe. One from another address starts a
-- client if a protocol takes it for a registration, whose pipe then holds it, and changes nothing
-- otherwise. The clients of other addresses are left alone.
pub process_packet_lem :
    (config : Config) (now : ℕ) (bytes : List ℕ) (packet : Packet) (addr : ℕ) (s : Server)
    → Ipx.unmarshal bytes ≡ ok packet
    → IsValid s
    → let s' : Server = (process_packet config now bytes addr s).0 in
      let started : Option (ℕ × ℕ) = (process_packet config now bytes addr s).1 in
      ((q : ℕ)
        → (s.objects q).closed ≡ false
        → (s.objects q).addr ≢ addr
        → s'.objects q ≡ s.objects q)
      × ((id : ℕ)
          → find ℕ_discrete addr s.clients ≡ some id
          → (s'.clients ≡ s.clients)
            × ((s'.objects id).rxpipe ≡ (Pipe.write packet (s.objects id).rxpipe).0)
            × ((s'.objects id).last_receive_time ≡ now)
            × (started ≡ none))
      × (find ℕ_discrete addr s.clients ≡ none
          → find_protocol config.protocols packet ≡ none
          → (s' ≡ s) × (started ≡ none))
      × ((n : ℕ)
          → find ℕ_discrete addr s.clients ≡ none
          → find_protocol config.protocols packet ≡ some n
          → (find ℕ_discrete addr s'.clients ≡ some s.made)
            × ((s'.objects s.made).rxpipe ≡ (Pipe.write packet Pipe.new).0)
            × (started ≡ some (s.made, n)))
unfolding process_packet dispatch register new_client receive
process_packet_lem config now bytes packet addr s e v = (
  (λ q o ne. ground (arith, e, o, ne, v.unmade s.made, named-addr q)),
  (λ id f. ground (arith, e, f)),
  (λ f p. ground (arith, e, f, p)),
  (λ n f p. ground (arith, e, f, p, find-put ℕ_discrete addr addr s.made s.clients)),
)
  where
    named-addr : (q : ℕ) → find ℕ_discrete addr s.clients ≡ some q → (s.objects q).addr ≡ addr
    named-addr q f = (v.named addr q f).0
