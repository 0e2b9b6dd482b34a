-- ===== src/Ppp/Pptp/Gre/Shutdown.antt =====
-- The end of a GRE server, of ppp/pptp/gre.go.
use ipxbox.Common.{
  ℕ, ◌%◌, ◌≡◌, ◌≢◌, refl, sym, ◌∙◌, arith, true, List, [], ◌∷◌, Option, none, some, All,
}
use ipxbox.Common.Assoc.{Assoc, find, Unique, All-find}
use ipxbox.Ppp.Pptp.Gre.{
  Layer, ipv4, gre, other_layer, SessionKey, SessionKey-discrete, GreServer, update,
  start_gre_server, enqueue, process_gre, process_packet, close_each, close_server,
}
use mathlib.Core.Path.{subst}
use ipxbox.Ppp.Pptp.Gre.Sessions.{Names, still_named, Event, gre_run, gre_run-IsValid}
use ipxbox.Common.Assoc.{All-find_absent}

-- A server that keeps its map and closes one more session.
abbrev shut : ℕ → GreServer → GreServer
shut id g = record g { objects = update id (record (g.objects id) { closed = true }) g.objects }

-- The loop came to an end, the map is as it was, what was closed stays closed, and so are the
-- sessions of the entries.
abbrev AllClosed : Assoc SessionKey ℕ → GreServer → Option GreServer → Type 0
AllClosed sessions g none = ⊥
AllClosed sessions g (some h) =
    (h.sessions ≡ g.sessions)
    × ((id : ℕ) → (g.objects id).closed ≡ true → (h.objects id).closed ≡ true)
    × All (λ e. (h.objects e.1).closed ≡ true) sessions

close_each-AllClosed :
    (sessions : Assoc SessionKey ℕ) (g : GreServer)
    → All (Names g.objects) sessions
    → Unique SessionKey-discrete sessions
    → AllClosed sessions g (close_each sessions g)
unfolding close_each
close_each-AllClosed [] g a u = (refl, λ id c. c, tt)
close_each-AllClosed ((key, id) ∷ sessions) g (n, a) (f, u) =
    rw (close_each, n.1)
      (finish (close_each sessions (shut id g)) (
        close_each-AllClosed sessions (shut id g)
          (All-find_absent SessionKey-discrete key sessions
            (λ e m d. still_named id g.objects e m (λ q. d (q ∙ n.0))) f a)
          u))
  where
    finish :
        (o : Option GreServer)
        → AllClosed sessions (shut id g) o
        → AllClosed ((key, id) ∷ sessions) g o
    finish none c = c
    finish (some h) c = (c.0, λ m k. c.1 m (ground (arith, k)), (c.1 id (ground arith), c.2))

-- A server whose map names closed sessions only refuses a packet and stays as it is.
abbrev Refuses : List Layer → GreServer → Type 0
Refuses ls h = ((process_packet ls h).0 ≡ h) × ((process_packet ls h).1 ≢ none)

process_packet-Refuses :
    (ls : List Layer) (h : GreServer)
    → All (λ e. (h.objects e.1).closed ≡ true) h.sessions
    → Refuses ls h
unfolding process_packet process_gre enqueue
process_packet-Refuses (ipv4 src_ip ∷ gre p ∷ rest) h a =
    split
      (find SessionKey-discrete (record { ip = src_ip; call_id = p.header.key % 65536 }) h.sessions)
      refl
  where
    split :
        (o : Option ℕ)
        → find SessionKey-discrete
            (record { ip = src_ip; call_id = p.header.key % 65536 })
            h.sessions
          ≡ o
        → Refuses (ipv4 src_ip ∷ gre p ∷ rest) h
    split none e = ground (arith, e)
    split (some id) e =
        let c =
          All-find SessionKey-discrete (λ e. (h.objects e.1).closed ≡ true)
            (record { ip = src_ip; call_id = p.header.key % 65536 }) id h.sessions e a in
        ground (arith, e, c)
process_packet-Refuses [] h a = ground arith
process_packet-Refuses (ipv4 src_ip ∷ []) h a = ground arith
process_packet-Refuses (ipv4 src_ip ∷ ipv4 n ∷ rest) h a = ground arith
process_packet-Refuses (ipv4 src_ip ∷ other_layer ∷ rest) h a = ground arith
process_packet-Refuses (gre p ∷ rest) h a = ground arith
process_packet-Refuses (other_layer ∷ rest) h a = ground arith

-- The first Close of a server, after any sequence of new sessions, packets and calls of its
-- sessions' methods since its start, closes no channel twice, which would be a panic, and after it
-- the server refuses every packet and does not change.
pub close_server-refuses :
    (es : List Event)
    → (h : GreServer) × (close_server (gre_run es start_gre_server) ≡ some h)
      × ((ls : List Layer) → ((process_packet ls h).0 ≡ h) × ((process_packet ls h).1 ≢ none))
unfolding close_server
close_server-refuses es =
    let g = gre_run es start_gre_server in
    let v = gre_run-IsValid es in
    finish (close_each g.sessions g) refl (close_each-AllClosed g.sessions g v.named v.unique)
  where
    finish :
        (o : Option GreServer)
        → close_each (gre_run es start_gre_server).sessions (gre_run es start_gre_server) ≡ o
        → AllClosed (gre_run es start_gre_server).sessions (gre_run es start_gre_server) o
        → (h : GreServer) × (close_each
              (gre_run es start_gre_server).sessions
              (gre_run es start_gre_server)
            ≡ some h)
          × ((ls : List Layer) → ((process_packet ls h).0 ≡ h) × ((process_packet ls h).1 ≢ none))
    finish none e c = elim c [ ]
    finish (some h) e c = (
      h,
      e,
      λ ls.
          process_packet-Refuses ls h
            (subst (All (λ e. (h.objects e.1).closed ≡ true)) (sym c.0) c.2),
    )
