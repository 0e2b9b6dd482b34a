-- ===== src/Ppp/Pptp/Control/Safety.antt =====
-- The run of a control connection of ppp/pptp/server.go comes to its end on any input.
use ipxbox.Common.{
  ℕ, zero, suc, ◌+◌, ◌-◌, ◌<◌, ◌≤◌, ◌≡◌, refl, sym, ap, ◌∙◌, arith, Bool, true, false, List, [],
  ◌∷◌, Option, none, some, Result, ok, err, ltb, if◌then◌else◌, length, replicate, Bool-cases, ◌⊎◌,
  inl, inr, length-append, length-take, length-drop, length-replicate,
}
use mathlib.Core.Path.{subst}
use ipxbox.Common.Bytes.{be16}
use ipxbox.Ppp.Pptp.Gre.{GreServer, start_session, close_session}
use ipxbox.Ppp.Pptp.Gre.Sessions.{IsValid, start_session-IsValid, close_session-IsValid}
use ipxbox.Ppp.Pptp.Control.{
  MessageType, message_type, start_control_connection_request, echo_request, outgoing_call_request,
  call_clear_request, other_type, ReadError, Conn, conn_read, filled, read_body, read_next_message,
  handle_echo, Connection, start_ppp_session, handle_outgoing_call, handle_message, finish, Outcome,
  panics, out_of_fuel, ends, after, run,
}
use ipxbox.Common.{le→ltb}
use ipxbox.Ppp.Pptp.Control.{handle_as}

-- The pieces and the bytes that are still to be read.
abbrev pub weight : Conn → ℕ
weight [] = 0
weight (piece ∷ conn) = suc (length piece + weight conn)

-- A message that is read is at least 14 bytes long, and less is left to read.
abbrev Shortens : Conn → Result ReadError (List ℕ) × Conn → Type 0
Shortens conn r = (msg : List ℕ) → r.0 ≡ ok msg → (14 ≤ length msg) × (weight r.1 < weight conn)

abbrev Reads : (n : ℕ) → Conn → Option (List ℕ × Conn) → Type 0
Reads n conn none = Unit
Reads n conn (some (bytes, rest)) = (length bytes ≤ n) × (weight rest < weight conn)

conn_read-Reads : (n : ℕ) (conn : Conn) → 1 ≤ n → Reads n conn (conn_read n conn)
unfolding conn_read
conn_read-Reads n [] l = tt
conn_read-Reads n (piece ∷ conn) l = ground (arith, l, length-take n piece, length-drop n piece)

length-filled : (n : ℕ) (bytes : List ℕ) → length bytes ≤ n → length (filled n bytes) ≡ n
length-filled n bytes l = omega (
  arith,
  l,
  length-append bytes (replicate (n - length bytes) 0),
  length-replicate {A = ℕ} (n - length bytes) 0,
)

read_body-Shortens : (msglen : ℕ) (conn : Conn) → Shortens conn (read_body msglen conn)
unfolding read_body
read_body-Shortens msglen conn msg e =
    split (conn_read (msglen - 2) conn) refl (Bool-cases (ltb msglen 16))
  where
    split :
        (o : Option (List ℕ × Conn))
        → conn_read (msglen - 2) conn ≡ o
        → (ltb msglen 16 ≡ true) ⊎ (ltb msglen 16 ≡ false)
        → (14 ≤ length msg) × (weight (read_body msglen conn).1 < weight conn)
    split o f (inl l) = let x : ⊥ = ground (arith, e, l) in elim x [ ]
    split none f (inr l) = let x : ⊥ = ground (arith, e, f, l) in elim x [ ]
    split (some (bytes, rest)) f (inr l) =
        let r =
          subst (Reads (msglen - 2) conn) f
            (conn_read-Reads (msglen - 2) conn (ground (arith, l))) in
        let q : filled (msglen - 2) bytes ≡ msg = ground (arith, e, f, l) in
        (ground (arith, l, q, length-filled (msglen - 2) bytes r.0), ground (arith, e, f, l, r.1))

read_next_message-Shortens : (conn : Conn) → Shortens conn (read_next_message conn)
unfolding read_next_message
read_next_message-Shortens conn msg e =
    split (conn_read 2 conn) refl (conn_read-Reads 2 conn (omega arith))
  where
    split :
        (o : Option (List ℕ × Conn))
        → conn_read 2 conn ≡ o
        → Reads 2 conn o
        → (14 ≤ length msg) × (weight (read_next_message conn).1 < weight conn)
    split none f r = let x : ⊥ = ground (arith, e, f) in elim x [ ]
    split (some (bytes, rest)) f r =
        let b = read_body-Shortens (be16 (filled 2 bytes) 0) rest msg (ground (arith, e, f)) in
        (b.0, ground (arith, f, b.1, r.1))

-- What a message does to a connection: no panic, the same call ID, a valid GRE server, and a
-- connection that is still open goes on.
abbrev Handles : Connection → Option (List (List ℕ) × Connection × GreServer × Bool) → Type 0
Handles c none = ⊥
Handles c (some (replies, d, h, stops)) = (d.call_id ≡ c.call_id) × IsValid h

-- The connection has ended: it is closed, its GRE session, if there was one, is closed, and the
-- GRE server is valid.
abbrev pub HasEnded : Connection → Outcome → Type 0
HasEnded c panics = ⊥
HasEnded c out_of_fuel = ⊥
HasEnded c (ends replies d h) =
    (d.call_id ≡ c.call_id)
    × (d.connected ≡ false)
    × IsValid h
    × ((session : ℕ) → d.ppp ≡ some session → (h.objects session).closed ≡ true)

after-HasEnded :
    (c d : Connection) (replies : List (List ℕ)) (o : Outcome)
    → d.call_id ≡ c.call_id
    → HasEnded d o
    → HasEnded c (after replies o)
after-HasEnded c d replies (ends more d' h) e (f, n, v, s) = (f ∙ e, n, v, s)
after-HasEnded c d replies panics e x = x
after-HasEnded c d replies out_of_fuel e x = x

close_session_closes : (id : ℕ) (g : GreServer) → ((close_session id g).objects id).closed ≡ true
unfolding close_session
close_session_closes id g = ground arith

-- The GRE server after the end of the PPP session, if there is one.
stopped :
    (o : Option ℕ) (g : GreServer)
    → IsValid g
    → IsValid (elim o [ none ↦ g | some session ↦ close_session session g ])
      × ((session : ℕ)
          → o ≡ some session
          → ((elim o as (λ x. GreServer) [ none ↦ g | some id ↦ close_session id g ]).objects
              session).closed
            ≡ true)
stopped none g v = (v, λ session e. let x : ⊥ = ground (arith, e) in elim x [ ])
stopped (some id) g v = (
  close_session-IsValid id g v,
  λ session e.
      let q : id ≡ session = ground (arith, e) in
      subst (λ n. ((close_session id g).objects n).closed ≡ true) q (close_session_closes id g),
)

module _ (node_made : Bool) (remote_ip : ℕ) where
  start_ppp_session-IsValid :
      (send_call_id : ℕ) (c : Connection) (g : GreServer)
      → IsValid g
      → ((start_ppp_session node_made remote_ip send_call_id c g).0.call_id ≡ c.call_id)
        × IsValid (start_ppp_session node_made remote_ip send_call_id c g).1
  unfolding start_ppp_session
  start_ppp_session-IsValid send_call_id c g v = split c.ppp refl (Bool-cases node_made)
    where
      split :
          (o : Option ℕ)
          → c.ppp ≡ o
          → (node_made ≡ true) ⊎ (node_made ≡ false)
          → ((start_ppp_session node_made remote_ip send_call_id c g).0.call_id ≡ c.call_id)
            × IsValid (start_ppp_session node_made remote_ip send_call_id c g).1
      split (some session) e n = rw (start_ppp_session, e) (refl, v)
      split none e (inl n) =
          rw (start_ppp_session, e, n)
            (refl, start_session-IsValid remote_ip send_call_id c.call_id g v)
      split none e (inr n) =
          let r = start_session remote_ip send_call_id c.call_id g in
          rw (start_ppp_session, e, n)
            (
              refl,
              close_session-IsValid r.1 r.0
                  (start_session-IsValid remote_ip send_call_id c.call_id g v),
            )

  handle_as-Handles :
      (kind : MessageType) (msg : List ℕ) (c : Connection) (g : GreServer)
      → 14 ≤ length msg
      → IsValid g
      → Handles c (handle_as node_made remote_ip kind msg c g)
  unfolding handle_as handle_echo handle_outgoing_call
  handle_as-Handles start_control_connection_request msg c g l v = (refl, v)
  handle_as-Handles echo_request msg c g l v =
      rw (Handles, handle_echo, le→ltb (length msg) 14 l) (refl, v)
  handle_as-Handles outgoing_call_request msg c g l v = elim (Bool-cases (ltb (length msg) 22)) [
    | inl s ↦ rw (Handles, handle_outgoing_call, s) (refl, v)
    | inr s ↦ rw (Handles, handle_outgoing_call, s) (start_ppp_session-IsValid (be16 msg 10) c g v)
  ]
  handle_as-Handles call_clear_request msg c g l v = (refl, v)
  handle_as-Handles other_type msg c g l v = (refl, v)

  handle_message-Handles :
      (msg : List ℕ) (c : Connection) (g : GreServer)
      → 14 ≤ length msg
      → IsValid g
      → Handles c (handle_message node_made remote_ip msg c g)
  unfolding handle_message
  handle_message-Handles msg c g l v =
      rw (handle_message, le→ltb (length msg) 8 (omega (arith, l)))
        (handle_as-Handles (message_type (be16 msg 6)) msg c g l v)

  finish-HasEnded :
      (c : Connection) (replies : List (List ℕ)) (g : GreServer)
      → IsValid g
      → HasEnded c
          (ends replies (finish node_made remote_ip c g).0 (finish node_made remote_ip c g).1)
  unfolding finish
  finish-HasEnded c replies g v = let s = stopped c.ppp g v in (refl, refl, s.0, s.1)

  -- What run does after a message was handled.
  abbrev pub goes_on :
      (fuel : ℕ) → Conn → Option (List (List ℕ) × Connection × GreServer × Bool) → Outcome
  goes_on fuel rest o = elim o [
    | none ↦ panics
    | some r ↦
        let more = run node_made remote_ip fuel rest r.1 r.2 in
        if r.3
        then ends r.0 (finish node_made remote_ip r.1 r.2).0 (finish node_made remote_ip r.1 r.2).1
        else after r.0 more
  ]

  abbrev pub turn : (fuel : ℕ) → Connection → GreServer → Result ReadError (List ℕ) × Conn → Outcome
  turn fuel c g m = elim m.0 [
    | err e ↦ ends [] (finish node_made remote_ip c g).0 (finish node_made remote_ip c g).1
    | ok msg ↦ goes_on fuel m.1 (handle_message node_made remote_ip msg c g)
  ]

  goes_on-HasEnded :
      (fuel : ℕ) (rest : Conn) (c : Connection)
      (o : Option (List (List ℕ) × Connection × GreServer × Bool))
      → Handles c o
      → ((d : Connection) (h : GreServer)
          → IsValid h
          → HasEnded d (run node_made remote_ip fuel rest d h))
      → HasEnded c (goes_on fuel rest o)
  goes_on-HasEnded fuel rest c none h ih = elim h [ ]
  goes_on-HasEnded fuel rest c (some (replies, d, h, true)) (e, v) ih =
      let f = finish-HasEnded d replies h v in (f.0 ∙ e, f.1, f.2, f.3)
  goes_on-HasEnded fuel rest c (some (replies, d, h, false)) (e, v) ih =
      after-HasEnded c d replies (run node_made remote_ip fuel rest d h) e (ih d h v)

  pub run_turn :
      (fuel : ℕ) (conn rest : Conn) (c : Connection) (g : GreServer) (msg : List ℕ)
      → read_next_message (if c.connected then conn else []) ≡ (ok msg, rest)
      → run node_made remote_ip (suc fuel) conn c g
        ≡ goes_on fuel rest (handle_message node_made remote_ip msg c g)
  unfolding run
  run_turn fuel conn rest c g msg e = ap (turn fuel c g) e

  -- Whatever bytes the peer sends, in whatever pieces, the run of a control connection comes to an
  -- end without a panic if it may take more turns than there are pieces and bytes: the connection
  -- is closed then, so is the GRE session that it started, if any, and the GRE server is as valid
  -- as before.
  pub run-HasEnded :
      (fuel : ℕ) (conn : Conn) (c : Connection) (g : GreServer)
      → weight conn < fuel
      → IsValid g
      → HasEnded c (run node_made remote_ip fuel conn c g)
  unfolding run
  run-HasEnded zero conn c g l v = let x : ⊥ = omega (arith, l) in elim x [ ]
  run-HasEnded (suc fuel) conn c g m v =
      split (read_next_message (if c.connected then conn else [])) refl
        (read_next_message-Shortens (if c.connected then conn else []))
        (λ rest d h m w. run-HasEnded fuel rest d h m w)
    where
      split :
          (r : Result ReadError (List ℕ) × Conn)
          → read_next_message (if c.connected then conn else []) ≡ r
          → Shortens (if c.connected then conn else []) r
          → ((rest : Conn) (d : Connection) (h : GreServer)
              → weight rest < fuel
              → IsValid h
              → HasEnded d (run node_made remote_ip fuel rest d h))
          → HasEnded c (run node_made remote_ip (suc fuel) conn c g)
      split (err x, rest) e s ih = rw (run, e) (finish-HasEnded c [] g v)
      split (ok msg, rest) e s ih =
          let l = s msg refl in
          let b : weight (if c.connected then conn else []) ≤ weight conn = ground arith in
          let w : weight rest < fuel = omega (arith, l.1, b, m) in
          subst (HasEnded c) (sym (run_turn fuel conn rest c g msg e)) (
            goes_on-HasEnded fuel rest c (handle_message node_made remote_ip msg c g)
              (handle_message-Handles msg c g l.0 v) (λ d h. ih rest d h w))
