-- ===== src/Ppp/Negotiate/Steady.antt =====
-- What the validators of ppp/negotiate.go protect: no exchange of messages gives an option a value
-- that its validator does not let through.
use ipxbox.Common.{
  ℕ, ◌≡◌, refl, arith, Bool, true, false, List, [], ◌∷◌, ◌++◌, Option, none, some, ℕ_discrete, All,
}
use ipxbox.Common.Assoc.{find, put, find-put}
use ipxbox.Ppp.Lcp.{
  LcpOption, Lcp, configure_request, configure_ack, configure_nak, configure_reject,
}
use ipxbox.Ppp.Negotiate.{
  NegotiatedOption, validate_value, Options, Values, Negotiator, send_packet, options_packet,
  bad_replies, missing_replies, unknown_options, no_values, put_values, bad_options, set_values,
  decide_request, handle_configure_request, offered, send_configure_request, unknown_values,
  apply_new_values,
}

module _ (check : Option (List ℕ) → Option (List ℕ) → Bool) (P : Option (List ℕ) → Type 0)
    (stable : (o : NegotiatedOption) (v : Option (List ℕ))
      → o.validate ≡ some check
      → P o.value
      → validate_value o v ≡ true
      → P v)
    (ot : ℕ) where
  -- The option has the validator, and its value has the property.
  pub record Has (opts : Options) : Type 0 where
    pub o : NegotiatedOption
    pub there : find ℕ_discrete ot opts ≡ some o
    pub checked : o.validate ≡ some check
    pub holds : P o.value

  -- The values for the option have the property.
  abbrev pub Fine : Values → Type 0
  Fine values = All (λ e. e.0 ≡ ot → P e.1) values

  bad_options-Fine :
      (opts : Options) (values : Values) → Has opts → bad_options opts values ≡ [] → Fine values
  unfolding bad_options
  bad_options-Fine opts [] h e = tt
  bad_options-Fine opts ((k, v) ∷ values) h e = (
    (λ same. stable h.o v h.checked h.holds (ground (arith, e, same, h.there))),
    bad_options-Fine opts values h (ground (arith, e)),
  )

  set_one : ℕ → Option (List ℕ) → Options → Options
  set_one k v opts = elim (find ℕ_discrete k opts) [
    | none ↦ opts
    | some o ↦ put ℕ_discrete k (record o { value = v }) opts
  ]

  set_one-Has :
      (k : ℕ) (v : Option (List ℕ)) (opts : Options)
      → (k ≡ ot → P v)
      → Has opts
      → Has (set_one k v opts)
  unfolding set_one
  set_one-Has k v opts p h = split (find ℕ_discrete k opts) refl (ℕ_discrete k ot)
    where
      split :
          (f : Option NegotiatedOption)
          → find ℕ_discrete k opts ≡ f
          → Dec (k ≡ ot)
          → Has (set_one k v opts)
      split none e d = rw (set_one, e) h
      split (some o) e (yes same) = record {
        o = record o { value = v };
        there = ground (arith, e, same, find-put ℕ_discrete ot k (record o { value = v }) opts);
        checked = ground (arith, e, same, h.there, h.checked);
        holds = p same;
      }
      split (some o) e (no other) = record {
        o = h.o;
        there =
            ground
              (arith, e, other, h.there, find-put ℕ_discrete ot k (record o { value = v }) opts);
        checked = h.checked;
        holds = h.holds;
      }

  set_values-Has :
      (values : Values) (opts : Options) → Fine values → Has opts → Has (set_values values opts)
  unfolding set_values set_one
  set_values-Has [] opts f h = h
  set_values-Has ((k, v) ∷ values) opts (p, f) h =
      set_values-Has values (set_one k v opts) f (set_one-Has k v opts p h)

  -- A step of the negotiator keeps the property of the option on both sides.
  abbrev pub Keeps : Negotiator → Negotiator → Type 0
  Keeps n n' =
      (Has n.local_options → Has n'.local_options) × (Has n.remote_options → Has n'.remote_options)

  send_packet-options :
      (sends : Bool) (l : Lcp) (n : Negotiator)
      → ((send_packet sends l n).local_options ≡ n.local_options)
        × ((send_packet sends l n).remote_options ≡ n.remote_options)
  unfolding send_packet
  send_packet-options true l n = (refl, refl)
  send_packet-options false l n = (refl, refl)

  same-Keeps :
      (n n' n'' : Negotiator)
      → n''.local_options ≡ n'.local_options
      → n''.remote_options ≡ n'.remote_options
      → Keeps n n'
      → Keeps n n''
  same-Keeps n n' n'' e f k = ((λ h. rw e (k.0 h)), (λ h. rw f (k.1 h)))

  send_packet-Keeps :
      (sends : Bool) (l : Lcp) (n n' : Negotiator) → Keeps n n' → Keeps n (send_packet sends l n')
  send_packet-Keeps sends l n n' k =
      let e = send_packet-options sends l n' in same-Keeps n n' (send_packet sends l n') e.0 e.1 k

  pub send_configure_request-Keeps :
      (sends : Bool) (now : ℕ) (n n' : Negotiator)
      → Keeps n n'
      → Keeps n (send_configure_request sends now n')
  unfolding send_configure_request
  send_configure_request-Keeps sends now n n' k =
      send_packet-Keeps sends
        (options_packet configure_request n'.request_sequence (offered n'.local_options)) n n' k

  decide_request-Keeps :
      (sends : Bool) (identifier : ℕ) (opts : List LcpOption) (values : Values) (bad : List ℕ)
      (n : Negotiator)
      → bad_options n.remote_options values ≡ bad
      → Keeps n (decide_request sends identifier opts values bad n)
  unfolding decide_request
  decide_request-Keeps sends identifier opts values [] n e =
      send_packet-Keeps sends (options_packet configure_ack identifier opts) n
        (record n { remote_options = set_values values n.remote_options; remote_complete = true })
        (
          (λ h. h),
          (λ h.
              set_values-Has values n.remote_options (bad_options-Fine n.remote_options values h e)
                h),
        )
  decide_request-Keeps sends identifier opts values (b ∷ bad) n e =
      send_packet-Keeps sends
        (options_packet configure_nak identifier (
          bad_replies n.remote_options (b ∷ bad) opts
          ++ missing_replies n.remote_options values (b ∷ bad)))
        n n ((λ h. h), (λ h. h))

  pub handle_configure_request-Keeps :
      (sends : Bool) (identifier : ℕ) (opts : List LcpOption) (n : Negotiator)
      → Keeps n (handle_configure_request sends identifier opts n)
  unfolding handle_configure_request
  handle_configure_request-Keeps sends identifier opts n =
      split (unknown_options n.remote_options opts) refl
    where
      split :
          (u : List LcpOption)
          → unknown_options n.remote_options opts ≡ u
          → Keeps n (handle_configure_request sends identifier opts n)
      split [] e =
          let values : Values = put_values opts (no_values n.remote_options) in
          rw (handle_configure_request, e)
            (decide_request-Keeps sends identifier opts values (bad_options n.remote_options values)
              n refl)
      split (o ∷ u) e =
          rw (handle_configure_request, e)
            (send_packet-Keeps sends (options_packet configure_reject identifier (o ∷ u)) n n
              ((λ h. h), (λ h. h)))

  pub apply_new_values-Keeps :
      (sends : Bool) (now : ℕ) (values : Values) (n : Negotiator)
      → Keeps n (apply_new_values sends now values n)
  unfolding apply_new_values
  apply_new_values-Keeps sends now values n =
      split (unknown_values n.local_options values) refl (bad_options n.local_options values) refl
    where
      split :
          (u : List ℕ)
          → unknown_values n.local_options values ≡ u
          → (b : List ℕ) → bad_options n.local_options values ≡ b
          → Keeps n (apply_new_values sends now values n)
      split (o ∷ u) e b f = rw (apply_new_values, e) ((λ h. h), (λ h. h))
      split [] e (o ∷ b) f = rw (apply_new_values, e, f) ((λ h. h), (λ h. h))
      split [] e [] f =
          rw (apply_new_values, e, f)
            (send_configure_request-Keeps sends now n
              (record n { local_options = set_values values n.local_options })
              (
                (λ h.
                    set_values-Has values n.local_options
                      (bad_options-Fine n.local_options values h f) h),
                (λ h. h),
              ))
