-- ===== src/Ppp/Pptp/Gre/Sessions.antt =====
-- The map of sessions of ppp/pptp/gre.go.
use ipxbox.Common.{
  ℕ, ◌%◌, ◌≤◌, ◌≡◌, ◌≢◌, refl, sym, ap, ◌∙◌, arith, true, false, not, ◌||◌, List, [], ◌∷◌, ◌++◌,
  Option, none, some, ltb, ◌==◌, length, ℕ_discrete, All, All-map, ◌⊎◌, inl, inr,
}
use ipxbox.Common.Assoc.{find, Unique, put-Unique, delete-Unique, All-put, All-delete}
use ipxbox.Ppp.Pptp.Gre.{
  GrePacket, Layer, ipv4, gre, other_layer, SessionKey, SessionKey-discrete, GreSession,
  session_key, read, read_loop, send_packet, GreServer, update, start_gre_server, start_session,
  close_session, enqueue, process_gre, process_packet, recv_queue_size,
}
use ipxbox.Ppp.Pptp.Gre.{ethernet_type_ppp}
use ipxbox.Ppp.Pptp.Gre.{recv_packet}
use ipxbox.Common.{Bool-cases}
use ipxbox.Common.{length-append}

-- An entry of the map names an open session by the session's own key.
abbrev pub Names : (ℕ → GreSession) → SessionKey × ℕ → Type 0
Names objects e = (session_key (objects e.1) ≡ e.0) × ((objects e.1).closed ≡ false)

-- The map names open sessions by their own keys, each once; no queue holds more than 16 packets;
-- the objects that are no sessions yet count as closed.
pub record IsValid (g : GreServer) : Type 0 where
  pub named : All (Names g.objects) g.sessions
  pub unique : Unique SessionKey-discrete g.sessions
  pub bounded : (id : ℕ) → length (g.objects id).recv_queue ≤ recv_queue_size
  pub unmade : (id : ℕ) → g.made ≤ id → (g.objects id).closed ≡ true

pub start_gre_server-IsValid : IsValid start_gre_server
start_gre_server-IsValid = record {
  named = tt;
  unique = tt;
  bounded = λ id. omega arith;
  unmade = λ id l. refl;
}

pub start_session-IsValid :
    (remote_addr send_call_id recv_call_id : ℕ) (g : GreServer)
    → IsValid g
    → IsValid (start_session remote_addr send_call_id recv_call_id g).0
unfolding start_session
start_session-IsValid remote_addr send_call_id recv_call_id g v = record {
  named =
      All-put SessionKey-discrete (record { ip = remote_addr; call_id = recv_call_id }) g.made
        g.sessions (λ e n. (ground (arith, n, v.unmade g.made), ground (arith, n, v.unmade g.made)))
        (ground arith, ground arith) v.named;
  unique =
      put-Unique SessionKey-discrete (record { ip = remote_addr; call_id = recv_call_id }) g.made
        g.sessions v.unique;
  bounded = λ id. ground (arith, v.bounded id);
  unmade = λ id l. ground (arith, l, v.unmade id);
}

-- An entry of another key still names its session after a session that has the key was closed.
pub still_named :
    (id : ℕ) (objects : ℕ → GreSession) (e : SessionKey × ℕ)
    → Names objects e
    → e.0 ≢ session_key (objects id)
    → Names (update id (record (objects id) { closed = true }) objects) e
still_named id objects e n d = elim (ℕ_discrete e.1 id) [
  | yes q ↦ let x : ⊥ = d (sym n.0 ∙ ap (λ i. session_key (objects i)) q) in elim x [ ]
  | no q ↦ (ground (arith, q, n.0), ground (arith, q, n.1))
]

pub close_session-IsValid : (id : ℕ) (g : GreServer) → IsValid g → IsValid (close_session id g)
unfolding close_session
close_session-IsValid id g v = elim (Bool-cases (g.objects id).closed) [
  | inl c ↦ rw (close_session, c) v
  | inr c ↦
      rw (close_session, c)
        (record {
          named =
              All-delete SessionKey-discrete (session_key (g.objects id)) g.sessions
                (still_named id g.objects) v.named;
          unique =
              delete-Unique SessionKey-discrete (session_key (g.objects id)) g.sessions v.unique;
          bounded = λ n. ground (arith, v.bounded n);
          unmade = λ n l. ground (arith, l, v.unmade n);
        })
]

-- A session is replaced by one with the same key and state whose queue is within its bound.
update-IsValid :
    (id : ℕ) (s : GreSession) (g : GreServer)
    → session_key s ≡ session_key (g.objects id)
    → s.closed ≡ (g.objects id).closed
    → length s.recv_queue ≤ recv_queue_size
    → IsValid g
    → IsValid (record g { objects = update id s g.objects })
update-IsValid id s g k c l v = record {
  named =
      All-map
        (λ e n. elim (ℕ_discrete e.1 id) [
          | yes q ↦ (ground (arith, q, n.0, k), ground (arith, q, n.1, c))
          | no q ↦ (ground (arith, q, n.0), ground (arith, q, n.1))
        ])
        g.sessions v.named;
  unique = v.unique;
  bounded = λ n. ground (arith, l, v.bounded n);
  unmade = λ n m. ground (arith, c, v.unmade n m);
}

enqueue-IsValid : (p : GrePacket) (id : ℕ) (g : GreServer) → IsValid g → IsValid (enqueue p id g).0
unfolding enqueue
enqueue-IsValid p id g v = elim (Bool-cases (g.objects id).closed) [
  | inl c ↦ rw (enqueue, c) v
  | inr c ↦ elim (Bool-cases (ltb (length (g.objects id).recv_queue) recv_queue_size)) [
    | inl l ↦
        rw (enqueue, c, l)
          (update-IsValid id
            (record (g.objects id) {
              closed = false;
              recv_queue = (g.objects id).recv_queue ++ (p ∷ []);
            })
            g refl (sym c) (ground (arith, l, length-append (g.objects id).recv_queue (p ∷ []))) v)
    | inr l ↦ rw (enqueue, c, l) v
  ]
]

process_gre-IsValid :
    (src_ip : ℕ) (p : GrePacket) (g : GreServer) → IsValid g → IsValid (process_gre src_ip p g).0
unfolding process_gre
process_gre-IsValid src_ip p g v =
    split (Bool-cases (not (p.header.version == 1) || not (p.header.protocol == ethernet_type_ppp)))
      (Bool-cases p.header.key_present)
      (find SessionKey-discrete (record { ip = src_ip; call_id = p.header.key % 65536 }) g.sessions)
      refl
  where
    split :
        ((not (p.header.version == 1) || not (p.header.protocol == ethernet_type_ppp)) ≡ true)
          ⊎ ((not (p.header.version == 1) || not (p.header.protocol == ethernet_type_ppp)) ≡ false)
        → (p.header.key_present ≡ true) ⊎ (p.header.key_present ≡ false)
        → (o : Option ℕ)
        → find SessionKey-discrete
            (record { ip = src_ip; call_id = p.header.key % 65536 })
            g.sessions
          ≡ o
        → IsValid (process_gre src_ip p g).0
    split (inl a) k o e = rw (process_gre, a) v
    split (inr a) (inr k) o e = rw (process_gre, a, k) v
    split (inr a) (inl k) none e = rw (process_gre, a, k, e) v
    split (inr a) (inl k) (some id) e = rw (process_gre, a, k, e) (enqueue-IsValid p id g v)

process_packet-IsValid :
    (ls : List Layer) (g : GreServer) → IsValid g → IsValid (process_packet ls g).0
unfolding process_packet
process_packet-IsValid (ipv4 src_ip ∷ gre p ∷ rest) g v = process_gre-IsValid src_ip p g v
process_packet-IsValid [] g v = v
process_packet-IsValid (ipv4 src_ip ∷ []) g v = v
process_packet-IsValid (ipv4 src_ip ∷ ipv4 n ∷ rest) g v = v
process_packet-IsValid (ipv4 src_ip ∷ other_layer ∷ rest) g v = v
process_packet-IsValid (gre p ∷ rest) g v = v
process_packet-IsValid (other_layer ∷ rest) g v = v

-- What happens at a GRE server.
pub data Event : Type 0 where
  started : (remote_addr send_call_id recv_call_id : ℕ) → Event
  received : List Layer → Event
  was_read : (id : ℕ) → Event
  written : (id : ℕ) → (bytes : List ℕ) → Event
  was_closed : (id : ℕ) → Event

abbrev pub step : Event → GreServer → GreServer
step (started remote_addr send_call_id recv_call_id) g =
    (start_session remote_addr send_call_id recv_call_id g).0
step (received ls) g = (process_packet ls g).0
step (was_read id) g = record g { objects = update id (read (g.objects id)).0 g.objects }
step (written id bytes) g = record g {
  objects = update id (send_packet bytes (g.objects id)).0 g.objects;
}
step (was_closed id) g = close_session id g

abbrev pub gre_run : List Event → GreServer → GreServer
gre_run [] g = g
gre_run (e ∷ es) g = gre_run es (step e g)

-- Reading keeps a session's key and state and takes packets off its queue.
read_loop-keeps :
    (q : List GrePacket) (s : GreSession)
    → (session_key (read_loop q s).0 ≡ session_key s)
      × ((read_loop q s).0.closed ≡ s.closed)
      × (length (read_loop q s).0.recv_queue ≤ length q)
unfolding read_loop recv_packet
read_loop-keeps [] s = ground arith
read_loop-keeps (p ∷ q) s =
    ground (arith, read_loop-keeps q s, read_loop-keeps q (record s { recv_seq = p.header.seq }))

step-IsValid : (e : Event) (g : GreServer) → IsValid g → IsValid (step e g)
unfolding read send_packet
step-IsValid (started remote_addr send_call_id recv_call_id) g v =
    start_session-IsValid remote_addr send_call_id recv_call_id g v
step-IsValid (received ls) g v = process_packet-IsValid ls g v
step-IsValid (was_read id) g v =
    let k = read_loop-keeps (g.objects id).recv_queue (g.objects id) in
    let b = v.bounded id in
    update-IsValid id (read (g.objects id)).0 g k.0 k.1 (omega (arith, k.2, b)) v
step-IsValid (written id bytes) g v =
    update-IsValid id (send_packet bytes (g.objects id)).0 g refl refl (v.bounded id) v
step-IsValid (was_closed id) g v = close_session-IsValid id g v

-- From the start of a server, whatever sessions start, packets arrive, and reads, writes and
-- closes are made: every entry of the map names a session that is open and has the entry's key,
-- no key stands twice, and no queue holds more than 16 packets.
pub gre_run-IsValid : (es : List Event) → IsValid (gre_run es start_gre_server)
gre_run-IsValid es = onwards es start_gre_server start_gre_server-IsValid
  where
    onwards : (es : List Event) (g : GreServer) → IsValid g → IsValid (gre_run es g)
    onwards [] g v = v
    onwards (e ∷ es) g v = onwards es (step e g) (step-IsValid e g v)
