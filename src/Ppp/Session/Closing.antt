-- ===== src/Ppp/Session/Closing.antt =====
-- The end of a session in ppp/session.go.
use ipxbox.Common.{
  ℕ, ◌≡◌, refl, ap, ◌∙◌, Bool, true, false, List, [], ◌∷◌, ◌++◌, Option, none, some,
}
use ipxbox.Ipx.{Addr}
use ipxbox.Ppp.Lcp.{PerTypeData, terminate, Lcp, terminate_request, terminate_ack}
use ipxbox.Ppp.Session.{
  ppp_type_lcp, establish, network, entering, Session, Frame, failed, ppp, close, send_lcp,
  terminate_link, handle_lcp, process_frame, receive, main_step, main_goes_on, arrives, terminates,
  step, run,
}

abbrev pub message : (type identifier : ℕ) → Option PerTypeData → Lcp
message type identifier body = record {
  contents = [];
  type = type;
  identifier = identifier;
  body = body;
}

module _ (magic : List ℕ) (addr : Addr) where
  -- A session after it has answered a Terminate-Request.
  abbrev acknowledged : Lcp → Session → Session
  acknowledged l s = record (close (send_lcp terminate_ack l.identifier none s)) { reading = false }

  acknowledges :
      (text : List ℕ) (sends : Bool) (now : ℕ) (f : Frame) (l : Lcp) (s : Session)
      → s.reading ≡ true
      → f.ppp_type ≡ ppp_type_lcp
      → f.layer ≡ some l
      → l.type ≡ terminate_request
      → step magic addr (arrives text sends now (ppp f)) s ≡ acknowledged l s
  unfolding step receive process_frame handle_lcp
  acknowledges text sends now f l s r p la t =
      rw (step, r, process_frame, p, la, handle_lcp, t) refl

  ends_with_request :
      (text : List ℕ) (sends : Bool) (now e : ℕ) (s : Session)
      → s.state ≡ network
      → s.terminate_error ≡ none
      → (step magic addr (main_goes_on text) (receive text sends now (failed e) s)).sent_lcp
        ≡ s.sent_lcp ++ (message terminate_request 0 (some (terminate text)) ∷ [])
  unfolding step receive main_step terminate_link
  ends_with_request text sends now e s st te = rw (main_step, te, terminate_link, st) refl

  -- A session in a Read of its main loop that receives a Terminate-Request: it answers with a
  -- Terminate-Ack of the same identifier and closes its node and its channel; and when the next Read
  -- fails and the main goroutine goes on, Run sends a Terminate-Request of its own after that.
  pub terminate_request_answered :
      (text : List ℕ) (sends : Bool) (now e : ℕ) (f : Frame) (l : Lcp) (s : Session)
      → s.reading ≡ true
      → s.state ≡ network
      → s.terminate_error ≡ none
      → f.ppp_type ≡ ppp_type_lcp
      → f.layer ≡ some l
      → l.type ≡ terminate_request
      → ((step magic addr (arrives text sends now (ppp f)) s).sent_lcp
          ≡ s.sent_lcp ++ (message terminate_ack l.identifier none ∷ []))
        × ((step magic addr (arrives text sends now (ppp f)) s).node_closed ≡ true)
        × ((step magic addr (arrives text sends now (ppp f)) s).channel_closed ≡ true)
        × ((step magic addr (main_goes_on text) (
              receive text sends now
                (failed e)
                (step magic addr (arrives text sends now (ppp f)) s))).sent_lcp
            ≡ (s.sent_lcp ++ (message terminate_ack l.identifier none ∷ []))
              ++ (message terminate_request 0 (some (terminate text)) ∷ []))
  unfolding receive
  terminate_request_answered text sends now e f l s r st te p la t =
      let a = acknowledges text sends now f l s r p la t in
      (
        ap (λ x. x.sent_lcp) a,
        ap (λ x. x.node_closed) a,
        ap (λ x. x.channel_closed) a,
        ap
              (λ x.
                (step magic addr (main_goes_on text)
                  (receive text sends now (failed e) x)).sent_lcp)
              a
            ∙ ends_with_request text sends now e (acknowledged l s) st te,
      )

  -- A Terminate that comes between the end of the negotiation and the start of the main loop is
  -- undone: the session sends its Terminate-Request and closes its node and its channel, and then
  -- takes itself to be in the network state, and sends another request when it is terminated again.
  pub terminate_undone :
      (text again : List ℕ) (e f : ℕ) (s : Session)
      → s.reading ≡ false
      → s.phase ≡ entering
      → s.state ≡ establish
      → ((run magic addr (terminates text e ∷ main_goes_on text ∷ []) s).state ≡ network)
        × ((run magic addr (terminates text e ∷ main_goes_on text ∷ []) s).channel_closed ≡ true)
        × ((run magic addr
              (terminates text e ∷ main_goes_on text ∷ terminates again f ∷ [])
              s).sent_lcp
            ≡ (s.sent_lcp ++ (message terminate_request 0 (some (terminate text)) ∷ []))
              ++ (message terminate_request 0 (some (terminate again)) ∷ []))
  unfolding run step main_step terminate_link
  terminate_undone text again e f s r p st = (
    rw (terminate_link, st, r, p) refl,
    rw (terminate_link, st, r, p) refl,
    rw (terminate_link, st, r, p) refl,
  )
