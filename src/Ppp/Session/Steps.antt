-- ===== src/Ppp/Session/Steps.antt =====
-- The steps of ppp/session.go that keep the main goroutine in its phase.
use ipxbox.Common.{
  ℕ, ◌≡◌, ◌≢◌, refl, sym, ap, ◌∙◌, arith, Bool, true, false, List, [], ◌∷◌, ◌++◌, Option, none,
  some, Result, ok, err, ◌==◌, if◌then◌else◌, Bool-cases, ◌⊎◌, inl, inr,
}
use mathlib.Core.Path.{subst}
use ipxbox.Ipx.{Addr, Packet, addr_bytes}
use ipxbox.Ipx
use ipxbox.Ppp.Lcp.{
  echo, Lcp, terminate_request, terminate_ack, protocol_reject_type, echo_request, echo_reply,
}
use ipxbox.Ppp.Negotiate.{Negotiator}
use ipxbox.Ppp.Negotiate.Completion.{StaysComplete, recv_packet-StaysComplete}
use ipxbox.Ppp.Negotiate.Exchange.{received, started, turned, value_of, run-non_negotiable}
use ipxbox.Ppp.Negotiate.Exchange
use ipxbox.Ppp.Session.{
  Error, is_supported, ppp_type_ipx, ppp_type_lcp, network, terminating, Phase, negotiating,
  negotiating_ipx, entering, running, ending, ended, Session, Frame, close, send_lcp, same_state,
  terminate_link, handle_lcp, negotiator_receives, process_frame, ipxcp_negotiator, update,
}

-- A negotiator that there is, complete on both sides.
abbrev pub Agreed : Option Negotiator → Type 0
Agreed none = ⊥
Agreed (some n) = (n.local_complete ≡ true) × (n.remote_complete ≡ true)

-- The negotiator of the node's address, after some exchange.
abbrev pub Assigned : Addr → Option Negotiator → Type 0
Assigned addr none = Unit
Assigned addr (some n) = (es : List Exchange.Event) × (n ≡ Exchange.run es (ipxcp_negotiator addr))

abbrev pub PhaseAgrees : Phase → Option Negotiator → Option Negotiator → Type 0
PhaseAgrees negotiating l i = i ≡ none
PhaseAgrees negotiating_ipx l i = Agreed l
PhaseAgrees entering l i = Agreed l × Agreed i
PhaseAgrees running l i = Agreed l × Agreed i
PhaseAgrees (ending e) l i = Unit
PhaseAgrees ended l i = Unit

-- The invariant of a session.
pub record IsValid (addr : Addr) (s : Session) : Type 0 where
  pub in_phase : PhaseAgrees s.phase s.lcp s.ipxcp
  pub in_network : s.state ≡ network → Agreed s.lcp × Agreed s.ipxcp
  pub to_client : s.sent_ipx ≢ [] → Agreed s.lcp × Agreed s.ipxcp
  pub assigned : Assigned addr s.ipxcp
  pub shut : s.state ≡ terminating → (s.node_closed ≡ true) × (s.channel_closed ≡ true)

-- A step in which the main goroutine does not come to another phase and no IPX is sent.
pub record Follows (addr : Addr) (s t : Session) : Type 0 where
  pub phase : t.phase ≡ s.phase
  pub lcp : Agreed s.lcp → Agreed t.lcp
  pub ipxcp : Agreed s.ipxcp → Agreed t.ipxcp
  pub absent : s.ipxcp ≡ none → t.ipxcp ≡ none
  pub assigned : Assigned addr s.ipxcp → Assigned addr t.ipxcp
  pub sent : t.sent_ipx ≡ s.sent_ipx
  pub state : t.state ≡ network → s.state ≡ network
  pub shut :
      (s.state ≡ terminating → (s.node_closed ≡ true) × (s.channel_closed ≡ true))
      → t.state ≡ terminating
      → (t.node_closed ≡ true) × (t.channel_closed ≡ true)

pub phase_follows :
    (p : Phase) (l i l' i' : Option Negotiator)
    → (Agreed l → Agreed l')
    → (Agreed i → Agreed i')
    → (i ≡ none → i' ≡ none)
    → PhaseAgrees p l i
    → PhaseAgrees p l' i'
phase_follows negotiating l i l' i' f g h a = h a
phase_follows negotiating_ipx l i l' i' f g h a = f a
phase_follows entering l i l' i' f g h (a, b) = (f a, g b)
phase_follows running l i l' i' f g h (a, b) = (f a, g b)
phase_follows (ending e) l i l' i' f g h a = tt
phase_follows ended l i l' i' f g h a = tt

pub Follows-IsValid :
    (addr : Addr) (s t : Session) → Follows addr s t → IsValid addr s → IsValid addr t
Follows-IsValid addr s t f v = record {
  in_phase =
      subst (λ p. PhaseAgrees p t.lcp t.ipxcp) (sym f.phase)
        (phase_follows s.phase s.lcp s.ipxcp t.lcp t.ipxcp f.lcp f.ipxcp f.absent v.in_phase);
  in_network = λ e. let a = v.in_network (f.state e) in (f.lcp a.0, f.ipxcp a.1);
  to_client = λ e. let a = v.to_client (λ q. e (f.sent ∙ q)) in (f.lcp a.0, f.ipxcp a.1);
  assigned = f.assigned v.assigned;
  shut = f.shut v.shut;
}

-- A session of which only fields change that the invariant does not read.
same_Follows :
    (addr : Addr) (s t : Session)
    → t.phase ≡ s.phase
    → t.lcp ≡ s.lcp
    → t.ipxcp ≡ s.ipxcp
    → t.sent_ipx ≡ s.sent_ipx
    → t.state ≡ s.state
    → (s.node_closed ≡ true → t.node_closed ≡ true)
    → (s.channel_closed ≡ true → t.channel_closed ≡ true)
    → Follows addr s t
same_Follows addr s t p l i x st n c = record {
  phase = p;
  lcp = λ a. subst Agreed (sym l) a;
  ipxcp = λ a. subst Agreed (sym i) a;
  absent = λ q. i ∙ q;
  assigned = λ a. subst (Assigned addr) (sym i) a;
  sent = x;
  state = λ q. sym st ∙ q;
  shut = λ h q. let k = h (sym st ∙ q) in (n k.0, c k.1);
}

pub follow_twice :
    (addr : Addr) (s t u : Session) → Follows addr s t → Follows addr t u → Follows addr s u
follow_twice addr s t u f g = record {
  phase = g.phase ∙ f.phase;
  lcp = λ a. g.lcp (f.lcp a);
  ipxcp = λ a. g.ipxcp (f.ipxcp a);
  absent = λ q. g.absent (f.absent q);
  assigned = λ a. g.assigned (f.assigned a);
  sent = g.sent ∙ f.sent;
  state = λ q. f.state (g.state q);
  shut = λ h. g.shut (f.shut h);
}

pub terminate_link-Follows :
    (addr : Addr) (text : List ℕ) (e : Option Error) (s : Session)
    → Follows addr s (terminate_link text e s)
unfolding terminate_link
terminate_link-Follows addr text e s = elim (Bool-cases (same_state s.state terminating)) [
  | inl k ↦
      rw (terminate_link, k) (same_Follows addr s s refl refl refl refl refl (λ n. n) (λ c. c))
  | inr k ↦
      rw (terminate_link, k)
        (record {
          phase = refl;
          lcp = λ a. a;
          ipxcp = λ a. a;
          absent = λ q. q;
          assigned = λ a. a;
          sent = refl;
          state = λ q. ground (arith, q);
          shut = λ h q. (refl, refl);
        })
]

handle_lcp-Follows :
    (addr : Addr) (text : List ℕ) (l : Lcp) (s : Session) → Follows addr s (handle_lcp text l s).0
unfolding handle_lcp
handle_lcp-Follows addr text l s =
    split (Bool-cases (l.type == terminate_request)) (Bool-cases (l.type == protocol_reject_type))
      (Bool-cases (l.type == echo_request))
  where
    split :
        ((l.type == terminate_request) ≡ true) ⊎ ((l.type == terminate_request) ≡ false)
        → ((l.type == protocol_reject_type) ≡ true) ⊎ ((l.type == protocol_reject_type) ≡ false)
        → ((l.type == echo_request) ≡ true) ⊎ ((l.type == echo_request) ≡ false)
        → Follows addr s (handle_lcp text l s).0
    split (inl a) b c =
        rw (handle_lcp, a)
          (same_Follows addr s (close (send_lcp terminate_ack l.identifier none s)) refl refl refl
            refl refl (λ n. refl) (λ c. refl))
    split (inr a) (inl b) c = rw (handle_lcp, a, b) (terminate_link-Follows addr text _ s)
    split (inr a) (inr b) (inl c) =
        rw (handle_lcp, a, b, c)
          (same_Follows addr s (send_lcp echo_reply l.identifier (some (echo s.magic_number [])) s)
            refl refl refl refl refl (λ n. n) (λ c. c))
    split (inr a) (inr b) (inr c) =
        rw (handle_lcp, a, b, c) (same_Follows addr s s refl refl refl refl refl (λ n. n) (λ c. c))

-- What a negotiator's step does to what the invariant reads of it.
abbrev pub Advances : Addr → Option Negotiator → Option Negotiator → Type 0
Advances addr n m =
    (Agreed n → Agreed m) × (Assigned addr n → Assigned addr m) × (n ≡ none → m ≡ none)

run-snoc :
    (es : List Exchange.Event) (e : Exchange.Event) (n : Negotiator)
    → Exchange.run (es ++ (e ∷ [])) n ≡ Exchange.step e (Exchange.run es n)
unfolding Exchange.run
run-snoc [] e n = refl
run-snoc (d ∷ es) e n = run-snoc es e (Exchange.step d n)

step-Advances :
    (addr : Addr) (e : Exchange.Event) (n : Negotiator)
    → StaysComplete n (Exchange.step e n)
    → Advances addr (some n) (some (Exchange.step e n))
step-Advances addr e n k = (
  λ (a, b). (k.0 a, k.1 b),
  λ (es, q). (es ++ (e ∷ []), ap (Exchange.step e) q ∙ sym (run-snoc es e (ipxcp_negotiator addr))),
  λ q. let x : ⊥ = ground (arith, q) in elim x [ ],
)

pub negotiator_receives-Advances :
    (addr : Addr) (sends : Bool) (now : ℕ) (l : Option Lcp) (n : Option Negotiator)
    → Advances addr n (negotiator_receives sends now l n)
unfolding Exchange.step
negotiator_receives-Advances addr sends now l none = (λ a. a, λ a. a, λ q. q)
negotiator_receives-Advances addr sends now none (some n) = (λ a. a, λ a. a, λ q. q)
negotiator_receives-Advances addr sends now (some l) (some n) =
    step-Advances addr (received sends now l) n (recv_packet-StaysComplete sends now l n)

pub update-Advances :
    (addr : Addr) (e : Exchange.Event) (n : Option Negotiator)
    → ((m : Negotiator) → StaysComplete m (Exchange.step e m))
    → Advances addr n (update (Exchange.step e) n)
update-Advances addr e none k = (λ a. a, λ a. a, λ q. q)
update-Advances addr e (some n) k = step-Advances addr e n (k n)

-- One of the negotiators advances.
pub lcp-Follows :
    (addr : Addr) (m : Option Negotiator) (s : Session)
    → Advances addr s.lcp m
    → Follows addr s (record s { lcp = m })
lcp-Follows addr m s k = record {
  phase = refl;
  lcp = k.0;
  ipxcp = λ a. a;
  absent = λ q. q;
  assigned = λ a. a;
  sent = refl;
  state = λ q. q;
  shut = λ h q. h q;
}

pub ipxcp-Follows :
    (addr : Addr) (m : Option Negotiator) (s : Session)
    → Advances addr s.ipxcp m
    → Follows addr s (record s { ipxcp = m })
ipxcp-Follows addr m s k = record {
  phase = refl;
  lcp = λ a. a;
  ipxcp = k.0;
  absent = k.2;
  assigned = k.1;
  sent = refl;
  state = λ q. q;
  shut = λ h q. h q;
}

pub process_frame-Follows :
    (addr : Addr) (text : List ℕ) (sends : Bool) (now : ℕ) (f : Frame) (s : Session)
    → Follows addr s (process_frame text sends now f s)
unfolding process_frame
process_frame-Follows addr text sends now f s =
    split (Bool-cases (is_supported f.ppp_type)) (Bool-cases (f.ppp_type == ppp_type_ipx))
      (Bool-cases (f.ppp_type == ppp_type_lcp)) (Ipx.unmarshal f.payload) refl f.layer refl
  where
    handled :
        (o : Option Lcp) (r : Session × Bool)
        → Follows addr s r.0
        → Follows addr s
            (if r.1 then r.0 else record r.0 { lcp = negotiator_receives sends now o r.0.lcp })
    handled o (t, true) k = k
    handled o (t, false) k =
        follow_twice addr s t (record t { lcp = negotiator_receives sends now o t.lcp }) k
          (lcp-Follows addr (negotiator_receives sends now o t.lcp) t
            (negotiator_receives-Advances addr sends now o t.lcp))

    split :
        (is_supported f.ppp_type ≡ true) ⊎ (is_supported f.ppp_type ≡ false)
        → ((f.ppp_type == ppp_type_ipx) ≡ true) ⊎ ((f.ppp_type == ppp_type_ipx) ≡ false)
        → ((f.ppp_type == ppp_type_lcp) ≡ true) ⊎ ((f.ppp_type == ppp_type_lcp) ≡ false)
        → (u : Result Ipx.Error Packet) → Ipx.unmarshal f.payload ≡ u
        → (o : Option Lcp) → f.layer ≡ o
        → Follows addr s (process_frame text sends now f s)
    split (inr a) b c u d o e =
        rw (process_frame, a) (same_Follows addr s _ refl refl refl refl refl (λ n. n) (λ c. c))
    split (inl a) (inl b) c (err x) d o e =
        rw (process_frame, a, b, d)
          (same_Follows addr s s refl refl refl refl refl (λ n. n) (λ c. c))
    split (inl a) (inl b) c (ok packet) d o e =
        rw (process_frame, a, b, d)
          (same_Follows addr s _ refl refl refl refl refl (λ n. n) (λ c. c))
    split (inl a) (inr b) (inl c) u d none e =
        rw (process_frame, a, b, c, e)
          (same_Follows addr s s refl refl refl refl refl (λ n. n) (λ c. c))
    split (inl a) (inr b) (inl c) u d (some l) e =
        rw (process_frame, a, b, c, e)
          (handled f.layer (handle_lcp text l s) (handle_lcp-Follows addr text l s))
    split (inl a) (inr b) (inr c) u d o e =
        rw (process_frame, a, b, c)
          (ipxcp-Follows addr (negotiator_receives sends now f.layer s.ipxcp) s
            (negotiator_receives-Advances addr sends now f.layer s.ipxcp))
