-- ===== src/Ppp/Negotiate/Examples.antt =====
-- The negotiation of ppp/negotiate.go at concrete messages.
use ipxbox.Common.{◌≡◌, ◌≢◌, refl, arith, true, false, List, [], ◌∷◌, none, some, ℕ_discrete}
use ipxbox.Common.Bytes.{bytes_equal}
use ipxbox.Common.Assoc.{find, put}
use ipxbox.Ppp.Lcp.{Lcp, configure_request, configure_ack, configure_nak}
use ipxbox.Ppp.Negotiate.{
  NegotiatedOption, non_negotiable, required_option, Negotiator, options_packet, validate_value,
  unknown_options, put_values, bad_options, set_values, decide_request, handle_configure_request,
  send_packet,
}
use ipxbox.Ppp.Negotiate.Exchange.{
  Event, received, started, turned, run, value_of, run-non_negotiable, run-required_option,
}

-- An option that has to stay as it is, and one that must have a value.
abbrev fixed : NegotiatedOption
fixed = record { value = some (1 ∷ []); validate = some non_negotiable }

abbrev needed : NegotiatedOption
needed = record { value = some (2 ∷ []); validate = some required_option }

abbrev fresh : Negotiator
fresh = record {
  local_options = (5, fixed) ∷ [];
  remote_options = (5, needed) ∷ [];
  local_complete = false;
  remote_complete = false;
  request_sequence = 0;
  request_send_time = 0;
  error = none;
  sent = [];
}

-- The peer asks for a value, refuses ours, and asks for nothing.
abbrev exchange : List Event
exchange =
    started
    ∷ turned true 2000
    ∷ received true 2001
        (options_packet configure_request 1 (record { type = 5; body = 9 ∷ [] } ∷ []))
    ∷ received true 2002 (options_packet configure_nak 1 (record { type = 5; body = 9 ∷ [] } ∷ []))
    ∷ received true 2003 (options_packet configure_request 2 [])
    ∷ []

-- The reply to a request for a value that is let through.
accepted : Lcp
accepted = options_packet configure_ack 1 (record { type = 5; body = 9 ∷ [] } ∷ [])

request-accepted :
    (handle_configure_request true 1 (record { type = 5; body = 9 ∷ [] } ∷ []) fresh).sent
    ≡ accepted ∷ []
unfolding accepted handle_configure_request unknown_options put_values bad_options set_values
    decide_request send_packet validate_value find put ℕ_discrete bytes_equal
request-accepted = refl

find-fixed : find ℕ_discrete 5 fresh.local_options ≡ some fixed
unfolding find ℕ_discrete
find-fixed = refl

find-needed : find ℕ_discrete 5 fresh.remote_options ≡ some needed
unfolding find ℕ_discrete
find-needed = refl

run-non_negotiable_example : value_of 5 (run exchange fresh).local_options ≡ some (some (1 ∷ []))
run-non_negotiable_example = (run-non_negotiable exchange fresh 5 fixed refl).0 find-fixed

run-required_option_example : value_of 5 (run exchange fresh).remote_options ≢ some none
run-required_option_example =
    (run-required_option exchange fresh 5 needed refl (λ q. ground (arith, q))).1 find-needed
