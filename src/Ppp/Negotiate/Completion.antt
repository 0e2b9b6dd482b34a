-- ===== src/Ppp/Negotiate/Completion.antt =====
-- Completion in ppp/negotiate.go: what a negotiator has completed stays completed.
use ipxbox.Common.{ℕ, ◌≡◌, refl, arith, Bool, true, List, [], ◌∷◌, Option, none, some}
use ipxbox.Ppp.Lcp.{LcpOption, Lcp}
use ipxbox.Ppp.Negotiate.{
  Negotiator, Values, Error, send_packet, unknown_options, no_values, put_values, bad_options,
  decide_request, handle_configure_request, send_configure_request, unknown_values,
  apply_new_values, put_nil, handle_configure_reject, handle_configure_nak, packet_options,
  recv_packet, maybe_send_request, negotiation_turn,
}

-- What was complete before is complete afterwards, on both sides.
abbrev pub StaysComplete : Negotiator → Negotiator → Type 0
StaysComplete n n' =
    (n.local_complete ≡ true → n'.local_complete ≡ true)
    × (n.remote_complete ≡ true → n'.remote_complete ≡ true)

send_packet-StaysComplete :
    (sends : Bool) (l : Lcp) (n : Negotiator) → StaysComplete n (send_packet sends l n)
unfolding send_packet
send_packet-StaysComplete sends l n = (λ c. ground (arith, c), λ c. ground (arith, c))

send_configure_request-StaysComplete :
    (sends : Bool) (now : ℕ) (n : Negotiator) → StaysComplete n (send_configure_request sends now n)
unfolding send_configure_request send_packet
send_configure_request-StaysComplete sends now n = (λ c. ground (arith, c), λ c. ground (arith, c))

decide_request-StaysComplete :
    (sends : Bool) (identifier : ℕ) (opts : List LcpOption) (values : Values) (bad : List ℕ)
    (n : Negotiator)
    → StaysComplete n (decide_request sends identifier opts values bad n)
unfolding decide_request send_packet
decide_request-StaysComplete sends identifier opts values [] n =
    (λ c. ground (arith, c), λ c. ground (arith, c))
decide_request-StaysComplete sends identifier opts values (b ∷ bad) n =
    (λ c. ground (arith, c), λ c. ground (arith, c))

handle_configure_request-StaysComplete :
    (sends : Bool) (identifier : ℕ) (opts : List LcpOption) (n : Negotiator)
    → StaysComplete n (handle_configure_request sends identifier opts n)
unfolding handle_configure_request send_packet
handle_configure_request-StaysComplete sends identifier opts n =
    split (unknown_options n.remote_options opts) refl
  where
    split :
        (u : List LcpOption)
        → unknown_options n.remote_options opts ≡ u
        → StaysComplete n (handle_configure_request sends identifier opts n)
    split [] e =
        rw (handle_configure_request, e)
          (decide_request-StaysComplete sends identifier opts
            (put_values opts (no_values n.remote_options))
            (bad_options n.remote_options (put_values opts (no_values n.remote_options))) n)
    split (o ∷ u) e = (λ c. ground (arith, c, e), λ c. ground (arith, c, e))

apply_new_values-StaysComplete :
    (sends : Bool) (now : ℕ) (values : Values) (n : Negotiator)
    → StaysComplete n (apply_new_values sends now values n)
unfolding apply_new_values send_configure_request send_packet
apply_new_values-StaysComplete sends now values n =
    split (unknown_values n.local_options values) refl (bad_options n.local_options values) refl
  where
    split :
        (u : List ℕ)
        → unknown_values n.local_options values ≡ u
        → (b : List ℕ) → bad_options n.local_options values ≡ b
        → StaysComplete n (apply_new_values sends now values n)
    split (o ∷ u) e b f = (λ c. ground (arith, c, e), λ c. ground (arith, c, e))
    split [] e (o ∷ b) f = (λ c. ground (arith, c, e, f), λ c. ground (arith, c, e, f))
    split [] e [] f = (λ c. ground (arith, c, e, f), λ c. ground (arith, c, e, f))

pub recv_packet-StaysComplete :
    (sends : Bool) (now : ℕ) (l : Lcp) (n : Negotiator)
    → StaysComplete n (recv_packet sends now l n)
unfolding recv_packet handle_configure_nak handle_configure_reject
recv_packet-StaysComplete sends now l n =
    let opts = packet_options l in
    let q = handle_configure_request-StaysComplete sends l.identifier opts n in
    let k = apply_new_values-StaysComplete sends now (put_values opts []) n in
    let r = apply_new_values-StaysComplete sends now (put_nil opts []) n in split n.error refl q k r
  where
    split :
        (e : Option Error)
        → n.error ≡ e
        → StaysComplete n (handle_configure_request sends l.identifier (packet_options l) n)
        → StaysComplete n (apply_new_values sends now (put_values (packet_options l) []) n)
        → StaysComplete n (apply_new_values sends now (put_nil (packet_options l) []) n)
        → StaysComplete n (recv_packet sends now l n)
    split (some x) e q k r = (λ c. ground (arith, c, e), λ c. ground (arith, c, e))
    split none e q k r = (
      λ c. ground (arith, c, e, q.0 c, k.0 c, r.0 c),
      λ c. ground (arith, c, e, q.1 c, k.1 c, r.1 c),
    )

pub negotiation_turn-StaysComplete :
    (sends : Bool) (now : ℕ) (n : Negotiator) → StaysComplete n (negotiation_turn sends now n)
unfolding negotiation_turn maybe_send_request
negotiation_turn-StaysComplete sends now n =
    let s = send_configure_request-StaysComplete sends now n in
    (λ c. ground (arith, c, s.0 c), λ c. ground (arith, c, s.1 c))
