-- ===== src/Server/Clients/Valid.antt =====
-- The client map of server/server.go and the clients that it names.
use ipxbox.Common.{
  ℕ, ◌+◌, ◌≤◌, ◌≡◌, refl, arith, Bool, true, false, List, [], ◌∷◌, Option, none, some, Result, ok,
  err, ltb, if◌then◌else◌, ℕ_discrete,
}
use ipxbox.Common.Assoc.{find, find-put, find-delete}
use ipxbox.Ipx.{Packet}
use ipxbox.Ipx
use ipxbox.Server.Clients.{
  Server, Config, new, close_client, find_protocol, new_client, receive, process_packet,
  all_clients, check_loop, check_client_timeouts, Received, datagram, timeout_error, network_error,
  other_error, poll_timeouts, poll, close_all, close,
}
use ipxbox.Server.Clients.{register}
use ipxbox.Server.Clients.{dispatch}

-- The map names open clients by their own addresses, every open client is in the map, and the
-- objects that are not clients yet count as closed.
pub record IsValid (s : Server) : Type 0 where
  pub named :
      (addr id : ℕ)
      → find ℕ_discrete addr s.clients ≡ some id
      → ((s.objects id).addr ≡ addr) × ((s.objects id).closed ≡ false)
  pub listed :
      (id : ℕ)
      → (s.objects id).closed ≡ false
      → find ℕ_discrete (s.objects id).addr s.clients ≡ some id
  pub unmade : (id : ℕ) → s.made ≤ id → (s.objects id).closed ≡ true

pub new-IsValid : (now : ℕ) → IsValid (new now)
unfolding find
new-IsValid now = record {
  named = λ addr id e. ground (arith, e);
  listed = λ id o. ground (arith, o);
  unmade = λ id l. refl;
}

pub close_client-IsValid : (id : ℕ) (s : Server) → IsValid s → IsValid (close_client id s)
unfolding close_client
close_client-IsValid id s v = record {
  named = λ addr q e. ground (
    arith,
    e,
    find-delete ℕ_discrete addr (s.objects id).addr s.clients,
    v.named addr q,
    v.listed id,
  );
  listed = λ q o. ground (
    arith,
    o,
    find-delete ℕ_discrete (s.objects q).addr (s.objects id).addr s.clients,
    v.listed q,
    v.listed id,
  );
  unmade = λ q l. ground (arith, l, v.unmade q);
}

new_client-IsValid :
    (now addr : ℕ) (s : Server)
    → IsValid s
    → find ℕ_discrete addr s.clients ≡ none
    → IsValid (new_client now addr s).0
unfolding new_client
new_client-IsValid now addr s v n = record {
  named = λ a q e.
      ground
        (arith, e, n, find-put ℕ_discrete a addr s.made s.clients, v.named a q, v.unmade s.made);
  listed = λ q o. ground (
    arith,
    o,
    n,
    find-put ℕ_discrete (s.objects q).addr addr s.made s.clients,
    find-put ℕ_discrete addr addr s.made s.clients,
    v.listed q,
  );
  unmade = λ q l. ground (arith, l, v.unmade q);
}

receive-IsValid :
    (now : ℕ) (packet : Packet) (id : ℕ) (s : Server)
    → IsValid s
    → IsValid (receive now packet id s)
unfolding receive
receive-IsValid now packet id s v = record {
  named = λ a q e. ground (arith, e, v.named a q);
  listed = λ q o. ground (arith, o, v.listed q);
  unmade = λ q l. ground (arith, l, v.unmade q);
}

register-IsValid :
    (config : Config) (now : ℕ) (packet : Packet) (addr : ℕ) (s : Server)
    → IsValid s
    → find ℕ_discrete addr s.clients ≡ none
    → IsValid (register config now packet addr s).0
unfolding register
register-IsValid config now packet addr s v n = split (find_protocol config.protocols packet) refl
  where
    split :
        (p : Option ℕ)
        → find_protocol config.protocols packet ≡ p
        → IsValid (register config now packet addr s).0
    split none e = rw (register, e) v
    split (some protocol) e =
        let n' = new_client-IsValid now addr s v n in
        rw (register, e)
          (receive-IsValid now packet (new_client now addr s).1 (new_client now addr s).0 n')

dispatch-IsValid :
    (config : Config) (now : ℕ) (packet : Packet) (addr : ℕ) (s : Server)
    → IsValid s
    → IsValid (dispatch config now packet addr s).0
unfolding dispatch
dispatch-IsValid config now packet addr s v = split (find ℕ_discrete addr s.clients) refl
  where
    split :
        (f : Option ℕ)
        → find ℕ_discrete addr s.clients ≡ f
        → IsValid (dispatch config now packet addr s).0
    split none e = rw (dispatch, e) (register-IsValid config now packet addr s v e)
    split (some id) e = rw (dispatch, e) (receive-IsValid now packet id s v)

pub process_packet-IsValid :
    (config : Config) (now : ℕ) (bytes : List ℕ) (addr : ℕ) (s : Server)
    → IsValid s
    → IsValid (process_packet config now bytes addr s).0
unfolding process_packet
process_packet-IsValid config now bytes addr s v = split (Ipx.unmarshal bytes) refl
  where
    split :
        (r : Result Ipx.Error Packet)
        → Ipx.unmarshal bytes ≡ r
        → IsValid (process_packet config now bytes addr s).0
    split (err x) e = rw (process_packet, e) v
    split (ok packet) e = rw (process_packet, e) (dispatch-IsValid config now packet addr s v)

if-IsValid : (b : Bool) (s s' : Server) → IsValid s → IsValid s' → IsValid (if b then s else s')
if-IsValid true s s' v v' = v
if-IsValid false s s' v v' = v'

pub check_loop-IsValid :
    (client_timeout now : ℕ) (ids : List ℕ) (next : ℕ) (s : Server)
    → IsValid s
    → IsValid (check_loop client_timeout now ids next s).0
unfolding check_loop
check_loop-IsValid client_timeout now [] next s v = v
check_loop-IsValid client_timeout now (id ∷ ids) next s v =
    let timeout_time : ℕ = (s.objects id).last_receive_time + client_timeout in
    check_loop-IsValid client_timeout now ids (if ltb timeout_time next then timeout_time else next)
      (if ltb timeout_time now then close_client id s else s)
      (if-IsValid (ltb timeout_time now) (close_client id s) s (close_client-IsValid id s v) v)

close_all-IsValid : (ids : List ℕ) (s : Server) → IsValid s → IsValid (close_all ids s)
unfolding close_all
close_all-IsValid [] s v = v
close_all-IsValid (id ∷ ids) s v =
    close_all-IsValid ids (close_client id s) (close_client-IsValid id s v)

poll_timeouts-IsValid :
    (config : Config) (now : ℕ) (s : Server) → IsValid s → IsValid (poll_timeouts config now s)
unfolding poll_timeouts check_client_timeouts
poll_timeouts-IsValid config now s v =
    let t = check_client_timeouts config now s in
    let w = check_loop-IsValid config.client_timeout now (all_clients s.clients) (now + 10) s v in
    if-IsValid (ltb s.timeout_check_time now) (record t.0 { timeout_check_time = t.1 }) s
      (record { named = w.named; listed = w.listed; unmade = w.unmade }) v

-- A turn of Run with what the socket gave, or a goroutine that closes a client, or Close.
pub data Event : Type 0 where
  polled : Config → (now later : ℕ) → Received → Event
  client_closed : (id : ℕ) → Event
  server_closed : Event
  -- The two parts of processPacket, under the mutex and after it, while other calls go on.
  client_made : (now addr : ℕ) → Event
  packet_put : (now : ℕ) → Packet → (id : ℕ) → Event

unfoldable pub step : Event → Server → Server
step (polled config now later received) s = (poll config now later received s).0
step (client_closed id) s = close_client id s
step server_closed s = close s
step (client_made now addr) s = elim (find ℕ_discrete addr s.clients) [
  | none ↦ (new_client now addr s).0
  | some _ ↦ s
]
step (packet_put now packet id) s = receive now packet id s

unfoldable pub run : List Event → Server → Server
run [] s = s
run (e ∷ es) s = run es (step e s)

made-IsValid :
    (now addr : ℕ) (s : Server)
    → IsValid s
    → IsValid
        (elim (find ℕ_discrete addr s.clients) [ none ↦ (new_client now addr s).0 | some _ ↦ s ])
made-IsValid now addr s v = split (find ℕ_discrete addr s.clients) refl
  where
    split :
        (f : Option ℕ)
        → find ℕ_discrete addr s.clients ≡ f
        → IsValid (elim (find ℕ_discrete addr s.clients) [
          | none ↦ (new_client now addr s).0
          | some _ ↦ s
        ])
    split none e = rw e (new_client-IsValid now addr s v e)
    split (some id) e = rw e v

step-IsValid : (e : Event) (s : Server) → IsValid s → IsValid (step e s)
unfolding step close poll
step-IsValid (polled config now later (datagram bytes addr)) s v =
    poll_timeouts-IsValid config later (process_packet config now bytes addr s).0
      (process_packet-IsValid config now bytes addr s v)
step-IsValid (polled config now later timeout_error) s v = poll_timeouts-IsValid config later s v
step-IsValid (polled config now later network_error) s v = v
step-IsValid (polled config now later other_error) s v = poll_timeouts-IsValid config later s v
step-IsValid (client_closed id) s v = close_client-IsValid id s v
step-IsValid server_closed s v = close_all-IsValid (all_clients s.clients) s v
step-IsValid (client_made now addr) s v = made-IsValid now addr s v
step-IsValid (packet_put now packet id) s v = receive-IsValid now packet id s v

-- Whatever is received and whoever closes a client or the server, in any order, also between the
-- two parts of processPacket, under the mutex and after it: the map names open clients by their own
-- addresses and every open client is in the map, so that closing a client a second time never takes
-- a newer client of the same address out of it.
pub run-IsValid : (es : List Event) (s : Server) → IsValid s → IsValid (run es s)
unfolding run
run-IsValid [] s v = v
run-IsValid (e ∷ es) s v = run-IsValid es (step e s) (step-IsValid e s v)
