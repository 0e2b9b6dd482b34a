-- ===== src/Ppp/Session/Examples.antt =====
-- ppp/session.go on a client that connects, receives a packet and leaves.
use ipxbox.Common.{
  ℕ, ◌≡◌, ◌≢◌, refl, sym, ap, ◌∙◌, arith, Bool, true, false, List, [], ◌∷◌, ◌++◌, Option, none,
  some,
}
use ipxbox.Ipx.{Addr, Packet, zero_header, addr_bytes}
use ipxbox.Ipx
use ipxbox.Ppp.Lcp.{
  LcpOption, configure, terminate, Lcp, configure_request, configure_ack, terminate_request,
  terminate_ack,
}
use ipxbox.Ppp.Negotiate.{Negotiator, options_packet, required_option}
use ipxbox.Ppp.Session.{
  lcp_negotiator, ipxcp_negotiator, terminate_link, negotiating_ipx, Error, from_outside, LinkState,
  network, terminating, Phase, entering, running, Session, Frame, Arrival, ppp, failed,
  ppp_type_lcp, ppp_type_ipxcp, option_ipx_node, option_magic_number, new_session, Event,
  main_goes_on, arrives, node_sends, terminates, receive, step, run,
}
use ipxbox.Ppp.Session.Steps.{Agreed}
use ipxbox.Ppp.Session.Phases.{given, session_run-negotiated, session_run-shut}
use ipxbox.Ppp.Session.Closing.{message, terminate_request_answered, terminate_undone}

abbrev magic : List ℕ
magic = 1 ∷ 2 ∷ 3 ∷ 4 ∷ []

abbrev addr : Addr
addr = record { a0 = 2; a1 = 0; a2 = 0; a3 = 0; a4 = 0; a5 = 9 }

abbrev packet : Packet
packet = record { header = zero_header; payload = 1 ∷ [] }

abbrev arrives_lcp : (ppp_type type : ℕ) → List LcpOption → Event
arrives_lcp ppp_type type opts = arrives [] true 0 (
    ppp (record {
      ppp_type = ppp_type;
      payload = [];
      layer =
          some
            (record { contents = []; type = type; identifier = 1; body = some (configure opts) });
    }))

abbrev magic_option : LcpOption
magic_option = record { type = option_magic_number; body = 9 ∷ 9 ∷ 9 ∷ 9 ∷ [] }

abbrev node_option : LcpOption
node_option = record { type = option_ipx_node; body = addr_bytes addr }

-- The client acknowledges our options and asks for its own, in both negotiations.
abbrev lcp_acked : List Event
lcp_acked = main_goes_on [] ∷ arrives_lcp ppp_type_lcp configure_ack [] ∷ main_goes_on [] ∷ []

abbrev lcp_asked : List Event
lcp_asked =
    arrives_lcp ppp_type_lcp configure_request (magic_option ∷ [])
    ∷ main_goes_on []
    ∷ main_goes_on []
    ∷ []

abbrev ipxcp_acked : List Event
ipxcp_acked = arrives_lcp ppp_type_ipxcp configure_ack [] ∷ main_goes_on [] ∷ []

abbrev ipxcp_asked : List Event
ipxcp_asked = arrives_lcp ppp_type_ipxcp configure_request (node_option ∷ []) ∷ main_goes_on [] ∷ []

abbrev carries : List Event
carries = main_goes_on [] ∷ node_sends packet ∷ main_goes_on [] ∷ []

abbrev half_lcp : Negotiator
half_lcp = record (lcp_negotiator magic) { local_complete = true }

abbrev whole_lcp : Negotiator
whole_lcp = record half_lcp {
  remote_complete = true;
  remote_options =
      (
        option_magic_number,
        record { value = some (9 ∷ 9 ∷ 9 ∷ 9 ∷ []); validate = some required_option },
      )
      ∷ [];
  sent = options_packet configure_ack 1 (magic_option ∷ []) ∷ [];
}

abbrev half_ipxcp : Negotiator
half_ipxcp = record (ipxcp_negotiator addr) { local_complete = true }

abbrev whole_ipxcp : Negotiator
whole_ipxcp = record half_ipxcp {
  remote_complete = true;
  sent = options_packet configure_ack 1 (node_option ∷ []) ∷ [];
}

-- The session after each of these.
abbrev after_lcp_acked : Session
after_lcp_acked = record (new_session magic) { reading = true; lcp = some half_lcp }

abbrev after_lcp_asked : Session
after_lcp_asked = record (new_session magic) {
  phase = negotiating_ipx;
  reading = true;
  lcp = some whole_lcp;
  ipxcp = some (ipxcp_negotiator addr);
  magic_number = 0x01020304;
}

abbrev after_ipxcp_acked : Session
after_ipxcp_acked = record after_lcp_asked { ipxcp = some half_ipxcp }

abbrev after_ipxcp_asked : Session
after_ipxcp_asked = record after_lcp_asked {
  phase = entering;
  reading = false;
  ipxcp = some whole_ipxcp;
}

abbrev connected : Session
connected = record after_ipxcp_asked {
  phase = running;
  reading = true;
  state = network;
  sent_ipx = Ipx.marshal packet ∷ [];
}

lcp_acked_test : run magic addr lcp_acked (new_session magic) ≡ after_lcp_acked
unfolding run step ipxbox.Ppp.Session.main_step receive ipxbox.Ppp.Session.process_frame
    ipxbox.Ppp.Session.handle_lcp ipxbox.Ppp.Negotiate.recv_packet
    ipxbox.Ppp.Negotiate.handle_configure_request ipxbox.Ppp.Negotiate.unknown_options
    ipxbox.Ppp.Negotiate.decide_request ipxbox.Ppp.Negotiate.bad_options
    ipxbox.Ppp.Negotiate.put_values ipxbox.Common.Assoc.put ipxbox.Common.Assoc.find
    ipxbox.Ppp.Negotiate.validate_value ipxbox.Common.Bytes.bytes_equal
    ipxbox.Ppp.Negotiate.send_packet ipxbox.Ppp.Negotiate.set_values ipxbox.Ppp.Negotiate.done
    ipxbox.Common.ℕ_discrete
lcp_acked_test = refl

lcp_asked_test : run magic addr lcp_asked after_lcp_acked ≡ after_lcp_asked
unfolding run step ipxbox.Ppp.Session.main_step receive ipxbox.Ppp.Session.process_frame
    ipxbox.Ppp.Session.handle_lcp ipxbox.Ppp.Negotiate.recv_packet
    ipxbox.Ppp.Negotiate.handle_configure_request ipxbox.Ppp.Negotiate.unknown_options
    ipxbox.Ppp.Negotiate.decide_request ipxbox.Ppp.Negotiate.bad_options
    ipxbox.Ppp.Negotiate.put_values ipxbox.Common.Assoc.put ipxbox.Common.Assoc.find
    ipxbox.Ppp.Negotiate.validate_value ipxbox.Common.Bytes.bytes_equal
    ipxbox.Ppp.Negotiate.send_packet ipxbox.Ppp.Negotiate.set_values ipxbox.Ppp.Negotiate.done
    ipxbox.Common.ℕ_discrete
lcp_asked_test = refl

ipxcp_acked_test : run magic addr ipxcp_acked after_lcp_asked ≡ after_ipxcp_acked
unfolding run step ipxbox.Ppp.Session.main_step receive ipxbox.Ppp.Session.process_frame
    ipxbox.Ppp.Session.handle_lcp ipxbox.Ppp.Negotiate.recv_packet
    ipxbox.Ppp.Negotiate.handle_configure_request ipxbox.Ppp.Negotiate.unknown_options
    ipxbox.Ppp.Negotiate.decide_request ipxbox.Ppp.Negotiate.bad_options
    ipxbox.Ppp.Negotiate.put_values ipxbox.Common.Assoc.put ipxbox.Common.Assoc.find
    ipxbox.Ppp.Negotiate.validate_value ipxbox.Common.Bytes.bytes_equal
    ipxbox.Ppp.Negotiate.send_packet ipxbox.Ppp.Negotiate.set_values ipxbox.Ppp.Negotiate.done
    ipxbox.Common.ℕ_discrete
ipxcp_acked_test = refl

ipxcp_asked_test : run magic addr ipxcp_asked after_ipxcp_acked ≡ after_ipxcp_asked
unfolding run step ipxbox.Ppp.Session.main_step receive ipxbox.Ppp.Session.process_frame
    ipxbox.Ppp.Session.handle_lcp ipxbox.Ppp.Negotiate.recv_packet
    ipxbox.Ppp.Negotiate.handle_configure_request ipxbox.Ppp.Negotiate.unknown_options
    ipxbox.Ppp.Negotiate.decide_request ipxbox.Ppp.Negotiate.bad_options
    ipxbox.Ppp.Negotiate.put_values ipxbox.Common.Assoc.put ipxbox.Common.Assoc.find
    ipxbox.Ppp.Negotiate.validate_value ipxbox.Common.Bytes.bytes_equal
    ipxbox.Ppp.Negotiate.send_packet ipxbox.Ppp.Negotiate.set_values ipxbox.Ppp.Negotiate.done
    ipxbox.Common.ℕ_discrete
ipxcp_asked_test = refl

carries_test : run magic addr carries after_ipxcp_asked ≡ connected
unfolding run step ipxbox.Ppp.Session.main_step receive ipxbox.Ppp.Session.process_frame
    ipxbox.Ppp.Session.handle_lcp ipxbox.Ppp.Negotiate.recv_packet
    ipxbox.Ppp.Negotiate.handle_configure_request ipxbox.Ppp.Negotiate.unknown_options
    ipxbox.Ppp.Negotiate.decide_request ipxbox.Ppp.Negotiate.bad_options
    ipxbox.Ppp.Negotiate.put_values ipxbox.Common.Assoc.put ipxbox.Common.Assoc.find
    ipxbox.Ppp.Negotiate.validate_value ipxbox.Common.Bytes.bytes_equal
    ipxbox.Ppp.Negotiate.send_packet ipxbox.Ppp.Negotiate.set_values ipxbox.Ppp.Negotiate.done
    ipxbox.Common.ℕ_discrete
carries_test = refl

abbrev connects : List Event
connects = lcp_acked ++ (lcp_asked ++ (ipxcp_acked ++ (ipxcp_asked ++ carries)))

connects_test : run magic addr connects (new_session magic) ≡ connected
unfolding run
connects_test =
    ap (run magic addr (lcp_asked ++ (ipxcp_acked ++ (ipxcp_asked ++ carries)))) lcp_acked_test
    ∙ ap (run magic addr (ipxcp_acked ++ (ipxcp_asked ++ carries))) lcp_asked_test
    ∙ ap (run magic addr (ipxcp_asked ++ carries)) ipxcp_acked_test
    ∙ ap (run magic addr carries) ipxcp_asked_test
    ∙ carries_test

not_nothing : (x : List ℕ) → (x ∷ []) ≢ []
not_nothing x e = ground (arith, e)

session_run-negotiated_example :
    Agreed (run magic addr connects (new_session magic)).lcp
    × Agreed (run magic addr connects (new_session magic)).ipxcp
    × (given magic addr (run magic addr connects (new_session magic)).ipxcp
        ≡ some (some (addr_bytes addr)))
session_run-negotiated_example =
    session_run-negotiated magic addr connects
      (λ e. not_nothing (Ipx.marshal packet) (sym (ap (λ s. s.sent_ipx) connects_test) ∙ e))

-- A session that is closed from outside.
session_run-shut_example :
    ((run magic addr (terminates [] 1 ∷ []) (new_session magic)).node_closed ≡ true)
    × ((run magic addr (terminates [] 1 ∷ []) (new_session magic)).channel_closed ≡ true)
unfolding run step terminate_link
session_run-shut_example = session_run-shut magic addr (terminates [] 1 ∷ []) refl

terminate_undone_example :
    ((run magic addr (terminates [] 1 ∷ main_goes_on [] ∷ []) after_ipxcp_asked).state ≡ network)
    × ((run magic addr (terminates [] 1 ∷ main_goes_on [] ∷ []) after_ipxcp_asked).channel_closed
        ≡ true)
    × ((run magic addr
          (terminates [] 1 ∷ main_goes_on [] ∷ terminates [] 2 ∷ [])
          after_ipxcp_asked).sent_lcp
        ≡ ([] ++ (message terminate_request 0 (some (terminate [])) ∷ []))
          ++ (message terminate_request 0 (some (terminate [])) ∷ []))
terminate_undone_example = terminate_undone magic addr [] [] 1 2 after_ipxcp_asked refl refl refl

abbrev leave : Lcp
leave = record { contents = []; type = terminate_request; identifier = 7; body = none }

abbrev leave_frame : Frame
leave_frame = record { ppp_type = ppp_type_lcp; payload = []; layer = some leave }

terminate_request_answered_example :
    ((step magic addr (arrives [] true 0 (ppp leave_frame)) connected).sent_lcp
      ≡ [] ++ (message terminate_ack 7 none ∷ []))
    × ((step magic addr (arrives [] true 0 (ppp leave_frame)) connected).node_closed ≡ true)
    × ((step magic addr (arrives [] true 0 (ppp leave_frame)) connected).channel_closed ≡ true)
    × ((step magic addr (main_goes_on []) (
          receive [] true 0
            (failed 1)
            (step magic addr (arrives [] true 0 (ppp leave_frame)) connected))).sent_lcp
        ≡ ([] ++ (message terminate_ack 7 none ∷ []))
          ++ (message terminate_request 0 (some (terminate [])) ∷ []))
terminate_request_answered_example =
    terminate_request_answered magic addr [] true 0 1 leave_frame leave connected refl refl refl
      refl refl refl
