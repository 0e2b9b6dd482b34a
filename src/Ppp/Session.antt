-- ===== src/Ppp/Session.antt =====
-- ppp/session.go: a PPP session. Its goroutines are the main one, which negotiates and then
-- receives, the two of the negotiators, and the one that sends the node's packets; an event is a
-- step of one of them, or a call of Terminate from outside. What gopacket decodes of a frame is an
-- argument, and so are the random magic number and the node's address. Frames that the session
-- itself sends are kept in lists, those of a negotiator in its own.
pub mod Steps
pub mod Phases
pub mod Closing
mod Examples
use ipxbox.Common.{
  ℕ, ◌+◌, ◌%◌, Bool, true, false, not, ◌&&◌, ◌||◌, List, [], ◌∷◌, ◌++◌, Option, none, some, Result,
  ok, err, ◌==◌, if◌then◌else◌, replicate,
}
use ipxbox.Common.Bytes.{be32}
use ipxbox.Ipx.{Addr, Packet, addr_bytes}
use ipxbox.Ipx
use ipxbox.Ppp.Lcp.{
  PerTypeData, configure, terminate, echo, protocol_reject, Lcp, terminate_request, terminate_ack,
  protocol_reject_type, echo_request, echo_reply,
}
use ipxbox.Ppp.Negotiate.{
  NegotiatedOption, Negotiator, non_negotiable, required_option, recv_packet, start_negotiation,
  negotiation_turn, done,
}
use ipxbox.Ppp.Negotiate

abbrev pub ppp_type_ipx : ℕ
ppp_type_ipx = 0x002b

abbrev pub ppp_type_ipxcp : ℕ
ppp_type_ipxcp = 0x802b

abbrev pub ppp_type_lcp : ℕ
ppp_type_lcp = 0xc021

-- supportedProtocols
abbrev pub is_supported : ℕ → Bool
is_supported t = t == ppp_type_ipx || (t == ppp_type_ipxcp || t == ppp_type_lcp)

abbrev pub option_ipx_network : ℕ
option_ipx_network = 1

abbrev pub option_ipx_node : ℕ
option_ipx_node = 2

abbrev pub option_magic_number : ℕ
option_magic_number = 5

pub data LinkState : Type 0 where
  dead : LinkState
  establish : LinkState
  authenticate : LinkState
  network : LinkState
  terminating : LinkState

-- Why a session ends.
pub data Error : Type 0 where
  read_failed : ℕ → Error
  link_terminated : Error
  negotiation_failed : Negotiate.Error → Error
  protocol_rejected : ℕ → Error
  from_outside : ℕ → Error

-- Where the main goroutine is: in negotiate, in negotiateIPX, before runNetwork, in its loop, at
-- the end of Run, or after it.
pub data Phase : Type 0 where
  negotiating : Phase
  negotiating_ipx : Phase
  entering : Phase
  running : Phase
  ending : Option Error → Phase
  ended : Phase

pub record Session : Type 0 where
  pub phase : Phase
  pub reading : Bool
  pub state : LinkState
  pub lcp : Option Negotiator
  pub ipxcp : Option Negotiator
  pub num_protocol_rejects : ℕ
  pub magic_number : ℕ
  pub terminate_error : Option Error
  pub node_closed : Bool
  pub channel_closed : Bool
  pub sent_lcp : List Lcp
  pub sent_ipx : List (List ℕ)
  pub to_node : List Packet

-- A frame as gopacket decodes it: its type, its payload, and its LCP layer, if it has one.
pub record Frame : Type 0 where
  pub ppp_type : ℕ
  pub payload : List ℕ
  pub layer : Option Lcp

-- What a Read of the channel gives: an error, bytes that are no PPP frame, or a frame.
pub data Arrival : Type 0 where
  failed : ℕ → Arrival
  not_ppp : Arrival
  ppp : Frame → Arrival

-- Close
abbrev pub close : Session → Session
close s = record s { node_closed = true; channel_closed = true }

-- sendLCP
abbrev pub send_lcp : (type identifier : ℕ) → Option PerTypeData → Session → Session
send_lcp type identifier body s = record s {
  sent_lcp =
      s.sent_lcp
      ++ (record { contents = []; type = type; identifier = identifier; body = body } ∷ []);
}

abbrev pub same_state : LinkState → LinkState → Bool
same_state dead dead = true
same_state establish establish = true
same_state authenticate authenticate = true
same_state network network = true
same_state terminating terminating = true
same_state _ _ = false

-- Terminated
abbrev pub terminated : Session → Bool
terminated s = same_state s.state terminating || same_state s.state dead

-- Terminate, with the bytes of the error's text.
unfoldable pub terminate_link : (text : List ℕ) → Option Error → Session → Session
terminate_link text e s =
    if same_state s.state terminating
    then s
    else record (close
        (send_lcp terminate_request 0 (some (terminate text)) (record s { state = terminating }))) {
          terminate_error = e;
        }

-- handleLCP, with whether it has handled the message.
unfoldable pub handle_lcp : (text : List ℕ) → Lcp → Session → Session × Bool
handle_lcp text l s =
    if l.type == terminate_request
    then (close (send_lcp terminate_ack l.identifier none s), true)
    else if l.type == protocol_reject_type
    then (
      terminate_link text
          (some (
            protocol_rejected (elim l.body [
              | none ↦ 0
              | some d ↦ elim d [
                | configure _ ↦ 0
                | terminate _ ↦ 0
                | echo _ _ ↦ 0
                | protocol_reject t _ ↦ t
              ]
            ])))
          s,
      true,
    )
    else if l.type == echo_request
    then (send_lcp echo_reply l.identifier (some (echo s.magic_number [])) s, true)
    else (s, false)

-- A negotiator that there is receives the LCP layer of a packet.
abbrev pub negotiator_receives :
    (sends : Bool) (now : ℕ) → Option Lcp → Option Negotiator → Option Negotiator
negotiator_receives sends now l n = elim n [
  | none ↦ none
  | some n ↦ elim l [ none ↦ some n | some l ↦ some (recv_packet sends now l n) ]
]

-- recvAndProcess on a frame. `sends` says whether a negotiator's Write succeeds.
unfoldable pub process_frame : (text : List ℕ) (sends : Bool) (now : ℕ) → Frame → Session → Session
process_frame text sends now f s =
    if not (is_supported f.ppp_type)
    then record (send_lcp protocol_reject_type s.num_protocol_rejects
        (some (protocol_reject f.ppp_type f.payload)) s) {
          num_protocol_rejects = (s.num_protocol_rejects + 1) % 256;
        }
    else if f.ppp_type == ppp_type_ipx
    then elim (Ipx.unmarshal f.payload) [
      | err e ↦ s
      | ok packet ↦ record s { to_node = s.to_node ++ (packet ∷ []) }
    ]
    else if f.ppp_type == ppp_type_lcp
    then elim f.layer [
      | none ↦ s
      | some l ↦
          let r = handle_lcp text l s in
          if r.1 then r.0 else record r.0 { lcp = negotiator_receives sends now f.layer r.0.lcp }
    ]
    else record s { ipxcp = negotiator_receives sends now f.layer s.ipxcp }

-- recvAndProcess returns an error only if the Read fails.
unfoldable pub receive : (text : List ℕ) (sends : Bool) (now : ℕ) → Arrival → Session → Session
receive text sends now (failed e) s = record s {
  phase = ending (some (read_failed e));
  reading = false;
}
receive text sends now not_ppp s = record s { reading = false }
receive text sends now (ppp f) s = record (process_frame text sends now f s) { reading = false }

abbrev pub fresh_negotiator : (local remote : Negotiate.Options) → Negotiator
fresh_negotiator local remote = record {
  local_options = local;
  remote_options = remote;
  local_complete = false;
  remote_complete = false;
  request_sequence = 0;
  request_send_time = 0;
  error = none;
  sent = [];
}

-- The negotiator of negotiate.
abbrev pub lcp_negotiator : (magic : List ℕ) → Negotiator
lcp_negotiator magic =
    fresh_negotiator
      ((option_magic_number, record { value = some magic; validate = some non_negotiable }) ∷ [])
      ((
        option_magic_number,
        record { value = some (replicate 4 0); validate = some required_option },
      )
        ∷ [])

-- The negotiator of negotiateIPX.
abbrev pub ipxcp_negotiator : (addr : Addr) → Negotiator
ipxcp_negotiator addr =
    fresh_negotiator
      ((option_ipx_network, record { value = some (replicate 4 0); validate = none })
        ∷ (option_ipx_node, record { value = some (replicate 6 0); validate = none })
        ∷ [])
      ((option_ipx_node, record { value = some (addr_bytes addr); validate = some non_negotiable })
        ∷ [])

-- NewSession, at the start of negotiate.
abbrev pub new_session : (magic : List ℕ) → Session
new_session magic = record {
  phase = negotiating;
  reading = false;
  state = establish;
  lcp = some (lcp_negotiator magic);
  ipxcp = none;
  num_protocol_rejects = 0;
  magic_number = 0;
  terminate_error = none;
  node_closed = false;
  channel_closed = false;
  sent_lcp = [];
  sent_ipx = [];
  to_node = [];
}

-- Whether a negotiator is done, and its error; one that there is not is not done.
abbrev pub negotiated : Option Negotiator → Bool × Option Negotiate.Error
negotiated none = (false, none)
negotiated (some n) = done n

-- The test of `Done`, when the link is not terminated.
abbrev pub when_done : Bool × Option Negotiate.Error → Session → Session → Session
when_done d s next = if not d.0 then record s { reading = true } else elim d.1 [
  | some e ↦ record s { phase = ending (some (negotiation_failed e)) }
  | none ↦ next
]

-- The steps of the goroutines.
pub data Event : Type 0 where
  main_goes_on : (text : List ℕ) → Event
  arrives : (text : List ℕ) (sends : Bool) (now : ℕ) → Arrival → Event
  lcp_starts : Event
  lcp_turns : (sends : Bool) (now : ℕ) → Event
  ipxcp_starts : Event
  ipxcp_turns : (sends : Bool) (now : ℕ) → Event
  node_sends : Packet → Event
  terminates : (text : List ℕ) → (e : ℕ) → Event

abbrev pub update : (Negotiator → Negotiator) → Option Negotiator → Option Negotiator
update f none = none
update f (some n) = some (f n)

module _ (magic : List ℕ) (addr : Addr) where
  -- The end of negotiate and the start of negotiateIPX.
  abbrev pub begin_ipx : Session → Session
  begin_ipx s = record s {
    phase = negotiating_ipx;
    magic_number = be32 magic 0;
    ipxcp = some (ipxcp_negotiator addr);
  }

  -- The main goroutine between two Reads: the head of its loop, what follows the loop, and the end
  -- of Run.
  unfoldable pub main_step : (text : List ℕ) → Phase → Session → Session
  main_step text negotiating s =
      if terminated s
      then record s { phase = ending (some link_terminated) }
      else when_done (negotiated s.lcp) s (begin_ipx s)
  main_step text negotiating_ipx s =
      if terminated s
      then record s { phase = ending (some link_terminated) }
      else when_done (negotiated s.ipxcp) s (record s { phase = entering })
  main_step text entering s = record s { phase = running; state = network }
  main_step text running s =
      if terminated s then record s { phase = ending none } else record s { reading = true }
  main_step text (ending e) s = elim s.terminate_error [
    | some t ↦ record s { phase = ended }
    | none ↦ record (terminate_link text e s) { phase = ended }
  ]
  main_step text ended s = s

  -- A step of a session. The main goroutine receives only while it is in a Read.
  unfoldable pub step : Event → Session → Session
  step (main_goes_on text) s = if s.reading then s else main_step text s.phase s
  step (arrives text sends now a) s = if s.reading then receive text sends now a s else s
  step lcp_starts s = record s { lcp = update start_negotiation s.lcp }
  step (lcp_turns sends now) s = record s { lcp = update (negotiation_turn sends now) s.lcp }
  step ipxcp_starts s = record s { ipxcp = update start_negotiation s.ipxcp }
  step (ipxcp_turns sends now) s = record s { ipxcp = update (negotiation_turn sends now) s.ipxcp }
  step (node_sends packet) s =
      if same_state s.state network
      then record s { sent_ipx = s.sent_ipx ++ (Ipx.marshal packet ∷ []) }
      else s
  step (terminates text e) s = terminate_link text (some (from_outside e)) s

  unfoldable pub run : List Event → Session → Session
  run [] s = s
  run (e ∷ es) s = run es (step e s)
