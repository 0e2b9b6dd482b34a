-- ===== src/Ppp/Session/Phases.antt =====
-- The phases of ppp/session.go: what has been negotiated when IPX is carried.
use ipxbox.Common.{
  ℕ, ◌≡◌, ◌≢◌, refl, ap, ◌∙◌, arith, Bool, true, false, List, [], ◌∷◌, Option, none, some,
  if◌then◌else◌, Bool-cases, inl, inr,
}
use ipxbox.Common.Assoc.{find}
use mathlib.Core.Path.{subst}
use ipxbox.Ipx.{Addr, addr_bytes}
use ipxbox.Ppp.Negotiate.{
  NegotiatedOption, Negotiator, non_negotiable, recv_packet, start_negotiation, negotiation_turn,
  done,
}
use ipxbox.Ppp.Negotiate
use ipxbox.Ppp.Negotiate.Completion.{negotiation_turn-StaysComplete}
use ipxbox.Ppp.Negotiate.Exchange.{received, started, turned, value_of, run-non_negotiable}
use ipxbox.Ppp.Negotiate.Exchange
use ipxbox.Ppp.Session.{
  Error, read_failed, link_terminated, negotiation_failed, from_outside, option_ipx_node, LinkState,
  dead, establish, authenticate, network, terminating, Phase, negotiating, negotiating_ipx,
  entering, running, ending, ended, Session, Arrival, failed, not_ppp, ppp, same_state, terminated,
  terminate_link, process_frame, receive, ipxcp_negotiator, new_session, negotiated, when_done,
  begin_ipx, main_step, Event, main_goes_on, arrives, lcp_starts, lcp_turns, ipxcp_starts,
  ipxcp_turns, node_sends, terminates, step, run,
}
use ipxbox.Ppp.Session.Steps.{
  Agreed, Assigned, PhaseAgrees, IsValid, Follows-IsValid, terminate_link-Follows,
  process_frame-Follows, update-Advances, lcp-Follows, ipxcp-Follows,
}

-- The main goroutine comes to a phase that asks for no more than what is agreed.
enter :
    (addr : Addr) (p : Phase) (b : Bool) (s : Session)
    → PhaseAgrees p s.lcp s.ipxcp
    → IsValid addr s
    → IsValid addr (record s { phase = p; reading = b })
enter addr p b s a v = record {
  in_phase = a;
  in_network = v.in_network;
  to_client = v.to_client;
  assigned = v.assigned;
  shut = v.shut;
}

receive-IsValid :
    (addr : Addr) (text : List ℕ) (sends : Bool) (now : ℕ) (a : Arrival) (s : Session)
    → IsValid addr s
    → IsValid addr (receive text sends now a s)
unfolding receive
receive-IsValid addr text sends now (failed e) s v =
    enter addr (ending (some (read_failed e))) false s tt v
receive-IsValid addr text sends now not_ppp s v = enter addr s.phase false s v.in_phase v
receive-IsValid addr text sends now (ppp f) s v =
    let t = process_frame text sends now f s in
    let w = Follows-IsValid addr s t (process_frame-Follows addr text sends now f s) v in
    enter addr t.phase false t w.in_phase w

negotiated-Agreed : (n : Option Negotiator) → negotiated n ≡ (true, none) → Agreed n
unfolding done
negotiated-Agreed none e = let x : ⊥ = ground (arith, e) in elim x [ ]
negotiated-Agreed (some n) e = (ground (arith, e), ground (arith, e))

when_done-IsValid :
    (addr : Addr) (n : Option Negotiator) (s next : Session)
    → IsValid addr s
    → (Agreed n → IsValid addr next)
    → IsValid addr (when_done (negotiated n) s next)
when_done-IsValid addr n s next v k = split (negotiated n) refl
  where
    split :
        (d : Bool × Option Negotiate.Error) → negotiated n ≡ d → IsValid addr (when_done d s next)
    split (false, e) q = enter addr s.phase true s v.in_phase v
    split (true, some e) q = enter addr (ending (some (negotiation_failed e))) s.reading s tt v
    split (true, none) q = k (negotiated-Agreed n q)

if-IsValid :
    (addr : Addr) (b : Bool) (s t : Session)
    → IsValid addr s
    → IsValid addr t
    → IsValid addr (if b then s else t)
if-IsValid addr true s t v w = v
if-IsValid addr false s t v w = w

unmoved : (addr : Addr) → ipxcp_negotiator addr ≡ Exchange.run [] (ipxcp_negotiator addr)
unfolding Exchange.run
unmoved addr = refl

same_state_network : (st : LinkState) → same_state st network ≡ true → st ≡ network
same_state_network network e = refl
same_state_network dead e = ground (arith, e)
same_state_network establish e = ground (arith, e)
same_state_network authenticate e = ground (arith, e)
same_state_network terminating e = ground (arith, e)

module _ (magic : List ℕ) (addr : Addr) where
  begin_ipx-IsValid :
      (s : Session)
      → Agreed s.lcp
      → s.ipxcp ≡ none
      → IsValid addr s
      → IsValid addr (begin_ipx magic addr s)
  begin_ipx-IsValid s a n v = record {
    in_phase = a;
    in_network = λ q. elim (subst Agreed n (v.in_network q).1) [ ];
    to_client = λ q. elim (subst Agreed n (v.to_client q).1) [ ];
    assigned = ([], unmoved addr);
    shut = v.shut;
  }

  main_step-IsValid :
      (text : List ℕ) (p : Phase) (s : Session)
      → s.phase ≡ p
      → IsValid addr s
      → IsValid addr (main_step magic addr text p s)
  unfolding main_step
  main_step-IsValid text negotiating s e v = elim (Bool-cases (terminated s)) [
    | inl t ↦ rw (main_step, t) (enter addr (ending (some link_terminated)) s.reading s tt v)
    | inr t ↦
        rw (main_step, t)
          (when_done-IsValid addr s.lcp s (begin_ipx magic addr s) v
            (λ a. begin_ipx-IsValid s a (subst (λ p. PhaseAgrees p s.lcp s.ipxcp) e v.in_phase) v))
  ]
  main_step-IsValid text negotiating_ipx s e v = elim (Bool-cases (terminated s)) [
    | inl t ↦ rw (main_step, t) (enter addr (ending (some link_terminated)) s.reading s tt v)
    | inr t ↦
        rw (main_step, t)
          (when_done-IsValid addr s.ipxcp s (record s { phase = entering }) v
            (λ a.
              enter addr entering s.reading s
                (subst (λ p. PhaseAgrees p s.lcp s.ipxcp) e v.in_phase, a) v))
  ]
  main_step-IsValid text entering s e v =
      let a = subst (λ p. PhaseAgrees p s.lcp s.ipxcp) e v.in_phase in
      record {
        in_phase = a;
        in_network = λ q. a;
        to_client = v.to_client;
        assigned = v.assigned;
        shut = λ q. let x : ⊥ = ground (arith, q) in elim x [ ];
      }
  main_step-IsValid text running s e v = elim (Bool-cases (terminated s)) [
    | inl t ↦ rw (main_step, t) (enter addr (ending none) s.reading s tt v)
    | inr t ↦ rw (main_step, t) (enter addr s.phase true s v.in_phase v)
  ]
  main_step-IsValid text (ending x) s e v = split s.terminate_error refl
    where
      split :
          (o : Option Error)
          → s.terminate_error ≡ o
          → IsValid addr (main_step magic addr text (ending x) s)
      split (some y) f = rw (main_step, f) (enter addr ended s.reading s tt v)
      split none f =
          let t = terminate_link text x s in
          rw (main_step, f)
            (enter addr ended t.reading t tt
              (Follows-IsValid addr s t (terminate_link-Follows addr text x s) v))
  main_step-IsValid text ended s e v = v

  step-IsValid : (e : Event) (s : Session) → IsValid addr s → IsValid addr (step magic addr e s)
  unfolding step Exchange.step
  step-IsValid (main_goes_on text) s v =
      if-IsValid addr s.reading s (main_step magic addr text s.phase s) v
        (main_step-IsValid text s.phase s refl v)
  step-IsValid (arrives text sends now a) s v =
      if-IsValid addr s.reading (receive text sends now a s) s
        (receive-IsValid addr text sends now a s v) v
  step-IsValid lcp_starts s v =
      Follows-IsValid addr s _
        (lcp-Follows addr _ s (update-Advances addr started s.lcp (λ m. (λ a. a, λ a. a)))) v
  step-IsValid (lcp_turns sends now) s v =
      Follows-IsValid addr s _
        (lcp-Follows addr _ s (
          update-Advances addr (turned sends now) s.lcp
            (λ m. negotiation_turn-StaysComplete sends now m)))
        v
  step-IsValid ipxcp_starts s v =
      Follows-IsValid addr s _
        (ipxcp-Follows addr _ s (update-Advances addr started s.ipxcp (λ m. (λ a. a, λ a. a)))) v
  step-IsValid (ipxcp_turns sends now) s v =
      Follows-IsValid addr s _
        (ipxcp-Follows addr _ s (
          update-Advances addr (turned sends now) s.ipxcp
            (λ m. negotiation_turn-StaysComplete sends now m)))
        v
  step-IsValid (node_sends packet) s v = elim (Bool-cases (same_state s.state network)) [
    | inl n ↦
        rw (step, n)
          (record {
            in_phase = v.in_phase;
            in_network = v.in_network;
            to_client = λ q. v.in_network (same_state_network s.state n);
            assigned = v.assigned;
            shut = v.shut;
          })
    | inr n ↦ rw (step, n) v
  ]
  step-IsValid (terminates text e) s v =
      Follows-IsValid addr s (terminate_link text (some (from_outside e)) s)
        (terminate_link-Follows addr text (some (from_outside e)) s) v

  session_run-IsValid :
      (es : List Event) (s : Session) → IsValid addr s → IsValid addr (run magic addr es s)
  unfolding run
  session_run-IsValid [] s v = v
  session_run-IsValid (e ∷ es) s v =
      session_run-IsValid es (step magic addr e s) (step-IsValid e s v)

  new_session-IsValid : IsValid addr (new_session magic)
  new_session-IsValid = record {
    in_phase = refl;
    in_network = λ q. let x : ⊥ = ground (arith, q) in elim x [ ];
    to_client = λ q. elim (q refl) [ ];
    assigned = tt;
    shut = λ q. let x : ⊥ = ground (arith, q) in elim x [ ];
  }

  -- The address that a client was given: the value of the node option on its side.
  abbrev pub given : Option Negotiator → Option (Option (List ℕ))
  given n = elim n [ none ↦ none | some n ↦ value_of option_ipx_node n.remote_options ]

  Assigned-given :
      (n : Option Negotiator) → Agreed n → Assigned addr n → given n ≡ some (some (addr_bytes addr))
  unfolding find
  Assigned-given none a b = elim a [ ]
  Assigned-given (some n) a (es, q) =
      let o : NegotiatedOption = record {
        value = some (addr_bytes addr);
        validate = some non_negotiable;
      } in
      let k = run-non_negotiable es (ipxcp_negotiator addr) option_ipx_node o refl in
      ap (λ n. value_of option_ipx_node n.remote_options) q ∙ k.1 (ground arith)

  -- Whatever the goroutines of a session do, in any order, from its start on: if any IPX packet was
  -- sent to the client, then both negotiations were completed, on both sides, and the address that
  -- the client agreed to is that of the session's node.
  pub session_run-negotiated :
      (es : List Event)
      → (run magic addr es (new_session magic)).sent_ipx ≢ []
      → Agreed (run magic addr es (new_session magic)).lcp
        × Agreed (run magic addr es (new_session magic)).ipxcp
        × (given (run magic addr es (new_session magic)).ipxcp ≡ some (some (addr_bytes addr)))
  session_run-negotiated es n =
      let s = run magic addr es (new_session magic) in
      let v = session_run-IsValid es (new_session magic) new_session-IsValid in
      let a = v.to_client n in (a.0, a.1, Assigned-given s.ipxcp a.1 v.assigned)

  -- Whatever the goroutines of a session do, in any order: while its state is that of a link that
  -- is being terminated, its node and its channel are closed.
  pub session_run-shut :
      (es : List Event)
      → (run magic addr es (new_session magic)).state ≡ terminating
      → ((run magic addr es (new_session magic)).node_closed ≡ true)
        × ((run magic addr es (new_session magic)).channel_closed ≡ true)
  session_run-shut es q = (session_run-IsValid es (new_session magic) new_session-IsValid).shut q
