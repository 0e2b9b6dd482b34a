-- ===== src/Ppp/Pptp/Control/Examples.antt =====
-- ppp/pptp/server.go on the messages of a client.
use ipxbox.Common.{ℕ, ◌≡◌, refl, arith, true, false, List, [], ◌∷◌, ◌++◌, some, length, replicate}
use ipxbox.Common.Bytes.{put_be16}
use ipxbox.Ppp.Pptp.Gre.{GreSession, start_gre_server, blank, start_session}
use ipxbox.Ppp.Pptp.Gre.Sessions.{start_gre_server-IsValid}
use ipxbox.Ppp.Pptp.Gre.Transfer.{carry_all, as_frames}
use ipxbox.Ppp.Pptp.Control.{
  Connection, new_connection, reply_head, send_message, call_reply, handle_start_control,
  handle_outgoing_call, start_ppp_session, handle_echo, run, read_next_message, check_message,
  first_call_id,
}
use ipxbox.Ppp.Pptp.Control.Safety.{HasEnded, run-HasEnded}
use ipxbox.Ppp.Pptp.Control.Messages.{read_next_message_short, framed, dispatch, run-dispatch}
use ipxbox.Ppp.Pptp.Control.Calls.{SetsUp, handle_outgoing_call-SetsUp, call_carries_frames}

abbrev connection : Connection
connection = new_connection first_call_id

abbrev echo : List ℕ
echo = reply_head 5 ++ (1 ∷ 2 ∷ 3 ∷ 4 ∷ [])

abbrev start_control : List ℕ
start_control = reply_head 1 ++ replicate 140 0

-- A request for an outgoing call with the call ID 7.
abbrev call_request : List ℕ
call_request = reply_head 7 ++ put_be16 7 ++ replicate 150 1

abbrev call_clear : List ℕ
call_clear = reply_head 12 ++ replicate 4 0

abbrev messages : List (List ℕ)
messages = start_control ∷ call_request ∷ echo ∷ call_clear ∷ []

run-HasEnded_example :
    HasEnded connection (run true 10 500 ((1 ∷ []) ∷ framed messages) connection start_gre_server)
run-HasEnded_example =
    run-HasEnded true 10 500 ((1 ∷ []) ∷ framed messages) connection start_gre_server (omega arith)
      start_gre_server-IsValid

run-dispatch_example :
    run true 10 5 (framed messages) connection start_gre_server
    ≡ dispatch true 10 messages connection start_gre_server
run-dispatch_example = run-dispatch true 10 5 messages connection start_gre_server (omega arith) (
  record { long = omega arith; short = omega arith; control = refl; magic = refl },
  (
    record { long = omega arith; short = omega arith; control = refl; magic = refl },
    (
      record { long = omega arith; short = omega arith; control = refl; magic = refl },
      (record { long = omega arith; short = omega arith; control = refl; magic = refl }, tt),
    ),
  ),
)

-- The identifier of an echo request, of which half arrives late, is half zero.
read_next_message_short_example :
    read_next_message ((put_be16 16 ++ (reply_head 5 ++ (1 ∷ 2 ∷ []))) ∷ (3 ∷ 4 ∷ []) ∷ [])
    ≡ (check_message (reply_head 5 ++ (1 ∷ 2 ∷ 0 ∷ 0 ∷ [])), (3 ∷ 4 ∷ []) ∷ [])
read_next_message_short_example =
    read_next_message_short 14 0 (1 ∷ 0x1a ∷ 0x2b ∷ 0x3c ∷ 0x4d ∷ 0 ∷ 5 ∷ 0 ∷ 0 ∷ 1 ∷ 2 ∷ [])
      (3 ∷ 4 ∷ []) [] refl (omega arith) (omega arith)

handle_outgoing_call-SetsUp_example :
    SetsUp 10 call_request connection start_gre_server
      (handle_outgoing_call true 10 call_request connection start_gre_server)
handle_outgoing_call-SetsUp_example =
    handle_outgoing_call-SetsUp 10 call_request connection start_gre_server (omega arith) refl refl
      (omega arith)

abbrev caller : GreSession
caller = record blank { closed = false; send_call_id = first_call_id; recv_call_id = 7 }

abbrev two_frames : List (List ℕ)
two_frames = (1 ∷ 2 ∷ []) ∷ (3 ∷ []) ∷ []

call_carries_frames_example :
    carry_all 10 0 two_frames caller (start_session 10 7 first_call_id start_gre_server).0
    ≡ as_frames two_frames
unfolding handle_outgoing_call start_ppp_session start_session
call_carries_frames_example =
    call_carries_frames 10 call_request connection start_gre_server
      (start_session 10 7 first_call_id start_gre_server).0
      (send_message (call_reply first_call_id (0 ∷ 7 ∷ []) (1 ∷ 1 ∷ 1 ∷ 1 ∷ [])) ∷ [])
      (record connection { ppp = some 0 }) caller two_frames (omega arith) refl refl (omega arith)
      refl refl (refl, (refl, tt)) (omega arith)

echo_test :
    handle_echo echo ≡ some (send_message (reply_head 6 ++ (1 ∷ 2 ∷ 3 ∷ 4 ∷ 1 ∷ 0 ∷ 0 ∷ 0 ∷ [])))
unfolding handle_echo
echo_test = refl

start_control_test : length handle_start_control ≡ 156
start_control_test = refl
