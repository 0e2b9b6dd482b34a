-- ===== src/Ppp/Pptp/Control/Calls.antt =====
-- What an outgoing call of ppp/pptp/server.go sets up in ppp/pptp/gre.go.
use ipxbox.Common.{
  ℕ, zero, suc, ◌+◌, ◌*◌, ◌<◌, ◌≤◌, ◌≡◌, refl, sym, ap, ◌∙◌, arith, true, List, [], ◌∷◌, All,
  Option, none, some, length, take, drop, le→ltb, get_or,
}
use mathlib.Core.Path.{subst}
use ipxbox.Common.Bytes.{be16, slice}
use ipxbox.Common.Assoc.{find-put_self}
use ipxbox.Ppp.Pptp.Gre.{GreServer, GreSession, SessionKey-discrete, start_session, has_bytes}
use ipxbox.Ppp.Pptp.Gre.Transfer.{Receives, carry_all, as_frames, carry_all-as_frames}
use ipxbox.Ppp.Pptp.Control.{
  send_message, call_reply, Connection, start_ppp_session, handle_outgoing_call,
}
use ipxbox.Ppp.Pptp.Control.Messages.{be16_put}

-- Two bytes of a message, from the place `i` on.
slice_two :
    (i : ℕ) (msg : List ℕ)
    → i + 2 ≤ length msg
    → take 2 (drop i msg) ≡ get_or msg i 0 ∷ get_or msg (suc i) 0 ∷ []
slice_two zero [] l = let x : ⊥ = omega (arith, l) in elim x [ ]
slice_two zero (a ∷ []) l = let x : ⊥ = omega (arith, l) in elim x [ ]
slice_two zero (a ∷ b ∷ msg) l = refl
slice_two (suc i) [] l = let x : ⊥ = omega (arith, l) in elim x [ ]
slice_two (suc i) (a ∷ msg) l = slice_two i msg (omega (arith, l))

-- What an outgoing call sets up.
pub record SetsUp (remote_ip : ℕ) (msg : List ℕ) (c : Connection) (g : GreServer)
    (r : Option (List (List ℕ) × Connection × GreServer)) : Type 0 where
  pub reply : List ℕ
  pub server : GreServer
  pub result : r ≡ some (reply ∷ [], record c { ppp = some g.made }, server)
  pub offered : be16 reply 12 ≡ c.call_id
  pub echoed : be16 reply 14 ≡ be16 msg 10
  pub receives : Receives remote_ip c.call_id g.made server
  pub sends : (server.objects g.made).send_call_id ≡ be16 msg 10
  pub sends_to : (server.objects g.made).addr ≡ remote_ip
  pub unnumbered : (server.objects g.made).recv_seq ≡ 0

call_reply_ids :
    (call_id x y : ℕ) (connect_speed : List ℕ)
    → call_id < 65536
    → (be16 (send_message (call_reply call_id (x ∷ y ∷ []) connect_speed)) 12 ≡ call_id)
      × (be16 (send_message (call_reply call_id (x ∷ y ∷ []) connect_speed)) 14 ≡ x * 256 + y)
call_reply_ids call_id x y connect_speed l = (be16_put call_id l, refl)

-- A request for an outgoing call, of 22 bytes at least, on an open connection that has no session
-- yet, when a node can be made: one reply is sent, which offers the connection's call ID and
-- repeats the peer's; and a GRE session starts that packets from the peer with the offered ID go
-- to, and that sends to the peer with the ID of the request.
pub handle_outgoing_call-SetsUp :
    (remote_ip : ℕ) (msg : List ℕ) (c : Connection) (g : GreServer)
    → 22 ≤ length msg
    → c.connected ≡ true
    → c.ppp ≡ none
    → c.call_id < 65536
    → SetsUp remote_ip msg c g (handle_outgoing_call true remote_ip msg c g)
unfolding handle_outgoing_call start_ppp_session start_session
handle_outgoing_call-SetsUp remote_ip msg c g l k n m =
    let s = slice_two 10 msg (omega (arith, l)) in
    let ids = call_reply_ids c.call_id (get_or msg 10 0) (get_or msg 11 0) (slice msg 18 22) m in
    let r = start_session remote_ip (be16 msg 10) c.call_id g in
    record {
      reply =
          send_message
            (call_reply c.call_id (get_or msg 10 0 ∷ get_or msg 11 0 ∷ []) (slice msg 18 22));
      server = r.0;
      result = rw (handle_outgoing_call, le→ltb (length msg) 22 l, start_ppp_session, n, k, s) refl;
      offered = ids.0;
      echoed = ids.1;
      receives = record {
        found =
            find-put_self SessionKey-discrete (record { ip = remote_ip; call_id = c.call_id })
              g.made g.sessions;
        opened = ground arith;
        waiting = ground arith;
      };
      sends = ground arith;
      sends_to = ground arith;
      unnumbered = ground arith;
    }

-- After a call has been set up, for a message of 22 bytes at least, with a call ID of 16 bits, on an
-- open connection that has no PPP session yet and whose node could be made: when the peer writes
-- frames, each not empty, from a session of its own that sends with the offered call ID, and the
-- server's PPP session reads each frame before the next one is written, then what it reads are these
-- frames, in order, as long as the peer's sequence numbers do not wrap around.
pub call_carries_frames :
    (remote_ip : ℕ) (msg : List ℕ) (c : Connection) (g h : GreServer) (replies : List (List ℕ))
    (d : Connection) (peer : GreSession) (frames : List (List ℕ))
    → 22 ≤ length msg
    → c.connected ≡ true
    → c.ppp ≡ none
    → c.call_id < 65536
    → handle_outgoing_call true remote_ip msg c g ≡ some (replies, d, h)
    → peer.send_call_id ≡ c.call_id
    → All (λ bytes. has_bytes bytes ≡ true) frames
    → peer.sent_seq + length frames < 4294967296
    → carry_all remote_ip g.made frames peer h ≡ as_frames frames
call_carries_frames remote_ip msg c g h replies d peer frames l k n m e p w b =
    let s = handle_outgoing_call-SetsUp remote_ip msg c g l k n m in
    let same : s.server ≡ h = ap (server_of g) (sym s.result ∙ e) in
    let q = sym p in
    subst (λ g'. carry_all remote_ip g.made frames peer g' ≡ as_frames frames) same
      (carry_all-as_frames remote_ip g.made frames peer s.server w
        (subst (λ i. Receives remote_ip i g.made s.server) q s.receives) (omega (arith, p, m))
        (omega (arith, s.unnumbered)) b)
  where
    server_of : GreServer → Option (List (List ℕ) × Connection × GreServer) → GreServer
    server_of h none = h
    server_of h (some r) = r.2
