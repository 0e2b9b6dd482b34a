-- ===== src/Ppp/Negotiate/Exchange.antt =====
-- Whole exchanges of ppp/negotiate.go: packets that are received and turns of StartNegotiation.
use ipxbox.Common.{
  ℕ, ◌+◌, ◌≡◌, ◌≢◌, refl, sym, ap, ◌∙◌, arith, Bool, true, false, ◌||◌, List, [], ◌∷◌, Option, none,
  some, ltb, ◌==◌, if◌then◌else◌, ℕ_discrete,
}
use ipxbox.Common.Bytes.{bytes_equal_sound}
use ipxbox.Common.Assoc.{find}
use ipxbox.Ppp.Lcp.{
  LcpOption, Lcp, configure_request, configure_ack, configure_nak, configure_reject,
}
use ipxbox.Ppp.Negotiate.{
  NegotiatedOption, same_value, validate_value, non_negotiable, required_option, Options, Error,
  Negotiator, put_values, put_nil, handle_configure_request, send_configure_request,
  handle_configure_reject, handle_configure_nak, packet_options, recv_packet, maybe_send_request,
  negotiation_turn, failed, too_many_requests, start_negotiation, request_timeout,
  max_configure_requests,
}
use ipxbox.Ppp.Negotiate.Steady.{
  Has, Keeps, handle_configure_request-Keeps, apply_new_values-Keeps, send_configure_request-Keeps,
}
use ipxbox.Ppp.Negotiate.{too_many_requests}

-- A packet is received, or StartNegotiation starts or makes a turn.
pub data Event : Type 0 where
  received : (sends : Bool) (now : ℕ) → Lcp → Event
  started : Event
  turned : (sends : Bool) (now : ℕ) → Event

unfoldable pub step : Event → Negotiator → Negotiator
step (received sends now l) n = recv_packet sends now l n
step started n = start_negotiation n
step (turned sends now) n = negotiation_turn sends now n

unfoldable pub run : List Event → Negotiator → Negotiator
run [] n = n
run (e ∷ es) n = run es (step e n)

module _ (check : Option (List ℕ) → Option (List ℕ) → Bool) (P : Option (List ℕ) → Type 0)
    (stable : (o : NegotiatedOption) (v : Option (List ℕ))
      → o.validate ≡ some check
      → P o.value
      → validate_value o v ≡ true
      → P v)
    (ot : ℕ) where
  if-Keeps :
      (b : Bool) (n n1 n2 : Negotiator)
      → Keeps check P stable ot n n1
      → Keeps check P stable ot n n2
      → Keeps check P stable ot n (if b then n1 else n2)
  if-Keeps true n n1 n2 k1 k2 = k1
  if-Keeps false n n1 n2 k1 k2 = k2

  recv_packet-Keeps :
      (sends : Bool) (now : ℕ) (l : Lcp) (n : Negotiator)
      → Keeps check P stable ot n (recv_packet sends now l n)
  unfolding recv_packet handle_configure_nak handle_configure_reject
  recv_packet-Keeps sends now l n = split n.error refl
    where
      split :
          (e : Option Error) → n.error ≡ e → Keeps check P stable ot n (recv_packet sends now l n)
      split (some x) e = rw (recv_packet, e) ((λ h. h), (λ h. h))
      split none e =
          let opts : List LcpOption = packet_options l in
          rw (recv_packet, e)
            (if-Keeps (l.type == configure_request) n
              (handle_configure_request sends l.identifier opts n)
              (if l.type == configure_ack
                then record n { local_complete = true }
                else if l.type == configure_nak
                then handle_configure_nak sends now opts n
                else if l.type == configure_reject
                then handle_configure_reject sends now opts n
                else n)
              (handle_configure_request-Keeps check P stable ot sends l.identifier opts n)
              (if-Keeps (l.type == configure_ack) n (record n { local_complete = true })
                (if l.type == configure_nak
                  then handle_configure_nak sends now opts n
                  else if l.type == configure_reject
                  then handle_configure_reject sends now opts n
                  else n)
                ((λ h. h), (λ h. h))
                (if-Keeps (l.type == configure_nak) n (handle_configure_nak sends now opts n)
                  (if l.type == configure_reject
                    then handle_configure_reject sends now opts n
                    else n)
                  (apply_new_values-Keeps check P stable ot sends now (put_values opts []) n)
                  (if-Keeps (l.type == configure_reject) n
                    (handle_configure_reject sends now opts n) n
                    (apply_new_values-Keeps check P stable ot sends now (put_nil opts []) n)
                    ((λ h. h), (λ h. h))))))

  negotiation_turn-Keeps :
      (sends : Bool) (now : ℕ) (n : Negotiator)
      → Keeps check P stable ot n (negotiation_turn sends now n)
  unfolding negotiation_turn maybe_send_request
  negotiation_turn-Keeps sends now n =
      if-Keeps (n.local_complete || failed n.error) n n (maybe_send_request sends now n)
        ((λ h. h), (λ h. h))
        (if-Keeps (ltb now (n.request_send_time + request_timeout)) n n
          (if ltb n.request_sequence (max_configure_requests + 1)
            then send_configure_request sends now n
            else record n { error = some too_many_requests })
          ((λ h. h), (λ h. h))
          (if-Keeps (ltb n.request_sequence (max_configure_requests + 1)) n
            (send_configure_request sends now n) (record n { error = some too_many_requests })
            (send_configure_request-Keeps check P stable ot sends now n n ((λ h. h), (λ h. h)))
            ((λ h. h), (λ h. h))))

  -- A validator and a property that it preserves: whatever is received and sent, an option with the
  -- validator whose value has the property still has both, on the local and on the remote side.
  pub run-Keeps : (es : List Event) (n : Negotiator) → Keeps check P stable ot n (run es n)
  unfolding run step
  run-Keeps [] n = ((λ h. h), (λ h. h))
  run-Keeps (received sends now l ∷ es) n =
      let k = recv_packet-Keeps sends now l n in
      let r = run-Keeps es (recv_packet sends now l n) in ((λ h. r.0 (k.0 h)), (λ h. r.1 (k.1 h)))
  run-Keeps (started ∷ es) n = run-Keeps es (start_negotiation n)
  run-Keeps (turned sends now ∷ es) n =
      let k = negotiation_turn-Keeps sends now n in
      let r = run-Keeps es (negotiation_turn sends now n) in
      ((λ h. r.0 (k.0 h)), (λ h. r.1 (k.1 h)))

same_value_sound : (x y : Option (List ℕ)) → same_value x y ≡ true → y ≡ x
same_value_sound none none e = refl
same_value_sound none (some y) e = ground (arith, e)
same_value_sound (some x) none e = ground (arith, e)
same_value_sound (some x) (some y) e = ap some (sym (bytes_equal_sound x y e))

validate_value_of :
    (check : Option (List ℕ) → Option (List ℕ) → Bool) (o : NegotiatedOption) (v : Option (List ℕ))
    → o.validate ≡ some check
    → validate_value o v ≡ (if same_value o.value v then true else check o.value v)
unfolding validate_value
validate_value_of check o v e = rw (validate_value, e) refl

validate_value_agrees :
    (o : NegotiatedOption) (v : Option (List ℕ))
    → o.validate ≡ some non_negotiable
    → validate_value o v ≡ true
    → v ≡ o.value
validate_value_agrees o v e t =
    let s : same_value o.value v ≡ true =
      ground (arith, t, validate_value_of non_negotiable o v e) in
    same_value_sound o.value v s

validate_value_given :
    (o : NegotiatedOption) (v : Option (List ℕ))
    → o.validate ≡ some required_option
    → o.value ≢ none
    → validate_value o v ≡ true
    → v ≢ none
validate_value_given o (some v) e g t = λ q. ground (arith, q)
validate_value_given o none e g t =
    let s : same_value o.value none ≡ true =
      ground (arith, t, validate_value_of required_option o none e) in
    λ q. g (sym (same_value_sound o.value none s))

-- The value of an option.
abbrev pub value_of : ℕ → Options → Option (Option (List ℕ))
value_of ot opts = elim (find ℕ_discrete ot opts) [ none ↦ none | some o ↦ some o.value ]

-- Whatever is received and sent: an option that is not negotiable keeps its value, on the local and
-- on the remote side.
pub run-non_negotiable :
    (es : List Event) (n : Negotiator) (ot : ℕ) (o : NegotiatedOption)
    → o.validate ≡ some non_negotiable
    → (find ℕ_discrete ot n.local_options ≡ some o
        → value_of ot (run es n).local_options ≡ some o.value)
      × (find ℕ_discrete ot n.remote_options ≡ some o
          → value_of ot (run es n).remote_options ≡ some o.value)
run-non_negotiable es n ot o c =
    let k =
      run-Keeps non_negotiable (λ v. v ≡ o.value)
        (λ o' v c' h t. validate_value_agrees o' v c' t ∙ h) ot es n in
    (
      (λ f. fixed (k.0 (record { o = o; there = f; checked = c; holds = refl }))),
      (λ f. fixed (k.1 (record { o = o; there = f; checked = c; holds = refl }))),
    )
  where
    fixed :
        {opts : Options}
        → Has non_negotiable
            (λ v. v ≡ o.value)
            (λ o' v c' h t. validate_value_agrees o' v c' t ∙ h)
            ot
            opts
        → value_of ot opts ≡ some o.value
    fixed h = ground (arith, h.there, h.holds)

-- Whatever is received and sent: a required option that has a value never loses it, on the local
-- and on the remote side.
pub run-required_option :
    (es : List Event) (n : Negotiator) (ot : ℕ) (o : NegotiatedOption)
    → o.validate ≡ some required_option
    → o.value ≢ none
    → (find ℕ_discrete ot n.local_options ≡ some o
        → value_of ot (run es n).local_options ≢ some none)
      × (find ℕ_discrete ot n.remote_options ≡ some o
          → value_of ot (run es n).remote_options ≢ some none)
run-required_option es n ot o c g =
    let k = run-Keeps required_option (λ v. v ≢ none) validate_value_given ot es n in
    (
      (λ f. given (k.0 (record { o = o; there = f; checked = c; holds = g }))),
      (λ f. given (k.1 (record { o = o; there = f; checked = c; holds = g }))),
    )
  where
    given :
        {opts : Options}
        → Has required_option (λ v. v ≢ none) validate_value_given ot opts
        → value_of ot opts ≢ some none
    given h = λ q. h.holds (ground (arith, h.there, q))
