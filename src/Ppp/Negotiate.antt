-- ===== src/Ppp/Negotiate.antt =====
-- ppp/negotiate.go: negotiation of the options of a link and of a network protocol. The maps of
-- options are association lists. A nil value is `none`. Packets that are sent are kept in a list,
-- and whether sending fails is an argument, as every handler sends at most one. Times are
-- milliseconds, and the time of a call is an argument. What RecvPacket is given is the LCP layer of
-- the packet, with the data that the decoder gives its type.
pub mod Steady
pub mod Exchange
pub mod Completion
mod Examples
use ipxbox.Common.{
  ℕ, ◌+◌, ◌%◌, ◌<◌, Bool, true, false, not, ◌&&◌, ◌||◌, List, [], ◌∷◌, ◌++◌, Option, none, some,
  ltb, ◌==◌, if◌then◌else◌, length, ℕ_discrete,
}
use ipxbox.Common.Bytes.{bytes_equal}
use ipxbox.Common.Assoc.{Assoc, find, put}
use ipxbox.Ppp.Lcp.{
  LcpOption, PerTypeData, configure, terminate, echo, protocol_reject, Lcp, configure_request,
  configure_ack, configure_nak, configure_reject,
}

abbrev pub max_configure_requests : ℕ
max_configure_requests = 5

abbrev pub request_timeout : ℕ
request_timeout = 1000

-- `option`; a validator gets the option's value.
pub record NegotiatedOption : Type 0 where
  pub value : Option (List ℕ)
  pub validate : Option (Option (List ℕ) → Option (List ℕ) → Bool)

-- `(o.value == nil) == (value == nil) && bytes.Equal(o.value, value)`
abbrev pub same_value : Option (List ℕ) → Option (List ℕ) → Bool
same_value none none = true
same_value none (some y) = false
same_value (some x) none = false
same_value (some x) (some y) = bytes_equal x y

-- option.validateValue
unfoldable pub validate_value : NegotiatedOption → Option (List ℕ) → Bool
validate_value o value = elim o.validate [
  | none ↦ true
  | some check ↦ if same_value o.value value then true else check o.value value
]

abbrev pub non_negotiable : Option (List ℕ) → Option (List ℕ) → Bool
non_negotiable old value = false

abbrev pub required_option : Option (List ℕ) → Option (List ℕ) → Bool
required_option old none = false
required_option old (some v) = true

abbrev pub Options : Type 0
Options = Assoc ℕ NegotiatedOption

abbrev pub Values : Type 0
Values = Assoc ℕ (Option (List ℕ))

pub data Error : Type 0 where
  send_failed : Error
  unrecognized_options : List ℕ → Error
  unacceptable_values : List ℕ → Error
  too_many_requests : Error

pub record Negotiator : Type 0 where
  pub local_options : Options
  pub remote_options : Options
  pub local_complete : Bool
  pub remote_complete : Bool
  pub request_sequence : ℕ
  pub request_send_time : ℕ
  pub error : Option Error
  pub sent : List Lcp

-- A packet with a list of options.
abbrev pub options_packet : (type identifier : ℕ) → List LcpOption → Lcp
options_packet type identifier opts = record {
  contents = [];
  type = type;
  identifier = identifier;
  body = some (configure opts);
}

-- sendPacket
unfoldable pub send_packet : (sends : Bool) → Lcp → Negotiator → Negotiator
send_packet sends l n =
    if sends then record n { sent = n.sent ++ (l ∷ []) } else record n { error = some send_failed }

unfoldable pub unknown_options : Options → List LcpOption → List LcpOption
unknown_options known [] = []
unknown_options known (o ∷ opts) =
    let rest = unknown_options known opts in
    elim (find ℕ_discrete o.type known) [ none ↦ o ∷ rest | some _ ↦ rest ]

abbrev pub no_values : Options → Values
no_values [] = []
no_values ((ot, o) ∷ opts) = (ot, none) ∷ no_values opts

unfoldable pub put_values : List LcpOption → Values → Values
put_values [] values = values
put_values (o ∷ opts) values = put_values opts (put ℕ_discrete o.type (some o.body) values)

-- The types whose new value the option does not accept, of the options that are known.
unfoldable pub bad_options : Options → Values → List ℕ
bad_options known [] = []
bad_options known ((ot, value) ∷ values) =
    let rest = bad_options known values in
    elim (find ℕ_discrete ot known) [
      | none ↦ rest
      | some o ↦ if validate_value o value then rest else ot ∷ rest
    ]

abbrev pub among : List ℕ → ℕ → Bool
among [] ot = false
among (b ∷ bs) ot = b == ot || among bs ot

-- Our own value of an option, as bytes.
abbrev pub own_value : Options → ℕ → List ℕ
own_value known ot = elim (find ℕ_discrete ot known) [
  | none ↦ []
  | some o ↦ elim o.value [ none ↦ [] | some v ↦ v ]
]

-- The options of a Configure-Nak: those that were asked for and are bad, then the bad ones that
-- were missing.
unfoldable pub bad_replies : Options → List ℕ → List LcpOption → List LcpOption
bad_replies known bad [] = []
bad_replies known bad (o ∷ opts) =
    let rest = bad_replies known bad opts in
    if among bad o.type
    then record { type = o.type; body = own_value known o.type } ∷ rest
    else rest

unfoldable pub missing_replies : Options → Values → List ℕ → List LcpOption
missing_replies known values [] = []
missing_replies known values (ot ∷ bad) =
    let rest = missing_replies known values bad in
    elim (find ℕ_discrete ot values) [
      | none ↦ rest
      | some v ↦ elim v [
        | none ↦ record { type = ot; body = own_value known ot } ∷ rest
        | some _ ↦ rest
      ]
    ]

-- `for ot, value := range values { options[ot].value = value }`
unfoldable pub set_values : Values → Options → Options
set_values [] opts = opts
set_values ((ot, value) ∷ values) opts = set_values values (elim (find ℕ_discrete ot opts) [
  | none ↦ opts
  | some o ↦ put ℕ_discrete ot (record o { value = value }) opts
])

-- The end of handleConfigureRequest, with the values asked for and the bad ones among them.
unfoldable pub decide_request :
    (sends : Bool) (identifier : ℕ) → List LcpOption → Values → List ℕ → Negotiator → Negotiator
decide_request sends identifier opts values [] n =
    send_packet sends (options_packet configure_ack identifier opts)
      (record n { remote_options = set_values values n.remote_options; remote_complete = true })
decide_request sends identifier opts values (b ∷ bad) n =
    send_packet sends
      (options_packet configure_nak identifier (
        bad_replies n.remote_options (b ∷ bad) opts
        ++ missing_replies n.remote_options values (b ∷ bad)))
      n

-- handleConfigureRequest
unfoldable pub handle_configure_request :
    (sends : Bool) (identifier : ℕ) → List LcpOption → Negotiator → Negotiator
handle_configure_request sends identifier opts n = elim (unknown_options n.remote_options opts) [
  | o ∷ unknown ↦ send_packet sends (options_packet configure_reject identifier (o ∷ unknown)) n
  | [] ↦
      let values = put_values opts (no_values n.remote_options) in
      decide_request sends identifier opts values (bad_options n.remote_options values) n
]

abbrev pub offered : Options → List LcpOption
offered [] = []
offered ((ot, o) ∷ opts) = elim o.value [
  | none ↦ offered opts
  | some v ↦ record { type = ot; body = v } ∷ offered opts
]

-- sendConfigureRequest
unfoldable pub send_configure_request : (sends : Bool) (now : ℕ) → Negotiator → Negotiator
send_configure_request sends now n =
    let n' =
      send_packet sends
        (options_packet configure_request n.request_sequence (offered n.local_options)) n in
    record n' { request_sequence = (n'.request_sequence + 1) % 256; request_send_time = now }

-- The values that are for no option of ours.
unfoldable pub unknown_values : Options → Values → List ℕ
unknown_values known [] = []
unknown_values known ((ot, value) ∷ values) =
    let rest = unknown_values known values in
    elim (find ℕ_discrete ot known) [ none ↦ ot ∷ rest | some _ ↦ rest ]

-- applyNewValues
unfoldable pub apply_new_values : (sends : Bool) (now : ℕ) → Values → Negotiator → Negotiator
apply_new_values sends now values n = elim (unknown_values n.local_options values) [
  | ot ∷ unknown ↦ record n { error = some (unrecognized_options (ot ∷ unknown)) }
  | [] ↦ elim (bad_options n.local_options values) [
    | ot ∷ bad ↦ record n { error = some (unacceptable_values (ot ∷ bad)) }
    | [] ↦
        send_configure_request sends now
          (record n { local_options = set_values values n.local_options })
  ]
]

-- The values of handleConfigureReject.
unfoldable pub put_nil : List LcpOption → Values → Values
put_nil [] values = values
put_nil (o ∷ opts) values = put_nil opts (put ℕ_discrete o.type none values)

unfoldable pub handle_configure_reject :
    (sends : Bool) (now : ℕ) → List LcpOption → Negotiator → Negotiator
handle_configure_reject sends now opts n = apply_new_values sends now (put_nil opts []) n

unfoldable pub handle_configure_nak :
    (sends : Bool) (now : ℕ) → List LcpOption → Negotiator → Negotiator
handle_configure_nak sends now opts n = apply_new_values sends now (put_values opts []) n

-- The options of a packet of one of the four types.
abbrev pub packet_options : Lcp → List LcpOption
packet_options l = elim l.body [
  | none ↦ []
  | some d ↦ elim d [
    | configure opts ↦ opts
    | terminate _ ↦ []
    | echo _ _ ↦ []
    | protocol_reject _ _ ↦ []
  ]
]

-- RecvPacket
unfoldable pub recv_packet : (sends : Bool) (now : ℕ) → Lcp → Negotiator → Negotiator
recv_packet sends now l n = elim n.error [
  | some e ↦ n
  | none ↦
      if l.type == configure_request
      then handle_configure_request sends l.identifier (packet_options l) n
      else if l.type == configure_ack
      then record n { local_complete = true }
      else if l.type == configure_nak
      then handle_configure_nak sends now (packet_options l) n
      else if l.type == configure_reject
      then handle_configure_reject sends now (packet_options l) n
      else n
]

-- maybeSendRequest
unfoldable pub maybe_send_request : (sends : Bool) (now : ℕ) → Negotiator → Negotiator
maybe_send_request sends now n =
    if ltb now (n.request_send_time + request_timeout)
    then n
    else if ltb n.request_sequence (max_configure_requests + 1)
    then send_configure_request sends now n
    else record n { error = some too_many_requests }

-- StartNegotiation before its loop, and one turn of the loop.
abbrev pub start_negotiation : Negotiator → Negotiator
start_negotiation n = record n { request_sequence = 1; error = none }

abbrev pub failed : Option Error → Bool
failed none = false
failed (some e) = true

unfoldable pub negotiation_turn : (sends : Bool) (now : ℕ) → Negotiator → Negotiator
negotiation_turn sends now n =
    if n.local_complete || failed n.error then n else maybe_send_request sends now n

-- Done
unfoldable pub done : Negotiator → Bool × Option Error
done n = ((n.local_complete && n.remote_complete) || failed n.error, n.error)
