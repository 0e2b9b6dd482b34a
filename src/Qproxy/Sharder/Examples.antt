-- ===== src/Qproxy/Sharder/Examples.antt =====
-- The sharder of module/qproxy/protocol.go at concrete messages.
use ipxbox.Common.{ℕ, ◌+◌, ◌≡◌, refl, arith, true, List, [], ◌∷◌, ok, inl}
use ipxbox.Common.Bytes.{be32, slice}
use ipxbox.Qproxy.Sharder.{
  Sharder, received_eom, marshal, unmarshal, flag_data, flag_eom, flag_ack, send_fragment,
  send_next, send_ack, accept_fragment, answer_upstream, receive_from_upstream, accept_ack,
  receive_from_downstream, init,
}
use ipxbox.Qproxy.Sharder.Streams.{
  Event, upstream, downstream, Run, step, run, IsFaithful, run-IsFaithful,
}
use ipxbox.Qproxy.Sharder.Acks.{
  IsAck, early_ack_stalls, withholds, receive_from_upstream-withholds,
  receive_from_downstream-withholds,
}
use ipxbox.Qproxy.Sharder.StopAndWait.{IsStopAndWait, NoneEarly, run-IsStopAndWait}
use ipxbox.Qproxy.Sharder.MessageFormat.{sharder_unmarshal-marshal}

abbrev start : Run
start = record { sharder = init; taken = []; handed = [] }

-- The last fragment of a message of two bytes, and the acknowledgement of fragment 0.
abbrev last_fragment : List ℕ
last_fragment =
    marshal (record { flags = flag_data + flag_eom; sequence = 0; payload = 7 ∷ 8 ∷ [] })

abbrev ack_zero : List ℕ
ack_zero = marshal (record { flags = flag_ack; sequence = 0; payload = [] })

abbrev exchange : List Event
exchange = upstream true true [] last_fragment ∷ downstream true true [] ack_zero ∷ []

exchange-handed :
    (run exchange start).handed
    ≡ record { flags = flag_data + flag_eom; sequence = 0; payload = 7 ∷ 8 ∷ [] } ∷ []
unfolding run step receive_from_upstream receive_from_downstream unmarshal marshal accept_fragment
    answer_upstream accept_ack send_ack send_next send_fragment
exchange-handed = refl

start-IsFaithful : IsFaithful start
start-IsFaithful = record { in_order = refl; fits = tt }

start-IsStopAndWait : IsStopAndWait start.sharder
start-IsStopAndWait = record {
  txseq_fits = omega arith;
  txack_fits = omega arith;
  one_out = inl refl;
}

run-IsFaithful_example : IsFaithful (run exchange start)
run-IsFaithful_example = run-IsFaithful exchange start start-IsFaithful

exchange-NoneEarly : NoneEarly exchange start
unfolding step receive_from_upstream receive_from_downstream unmarshal marshal accept_fragment
    answer_upstream accept_ack send_ack send_next send_fragment
exchange-NoneEarly = ((λ p q. ground (arith, p)), tt)

run-IsStopAndWait_example : IsStopAndWait (run exchange start).sharder
run-IsStopAndWait_example = run-IsStopAndWait exchange start start-IsStopAndWait exchange-NoneEarly

ack_zero-IsAck : IsAck ack_zero
unfolding marshal
ack_zero-IsAck = (omega arith, refl, refl)

ack_zero-sequence : be32 (slice ack_zero 4 8) 0 ≡ 0
unfolding marshal
ack_zero-sequence = refl

early_ack_stalls_example :
    (run (downstream true true [] ack_zero ∷ upstream true true [] last_fragment ∷ []) start).handed
    ≡ []
early_ack_stalls_example =
    early_ack_stalls true true [] ack_zero (upstream true true [] last_fragment ∷ []) start
      (omega arith) refl ack_zero-IsAck ack_zero-sequence (tt, tt)

-- The sharder that holds the end of a message back.
abbrev holding : Sharder
holding = record init { state = received_eom; rxseq = 1; txqueue = 7 ∷ [] }

receive_from_upstream-withholds_example :
    ((receive_from_upstream true true [] last_fragment holding).up ≡ [])
    × (withholds (receive_from_upstream true true [] last_fragment holding).sharder.state ≡ true)
receive_from_upstream-withholds_example =
    receive_from_upstream-withholds true true [] last_fragment holding refl

receive_from_downstream-withholds_example :
    ((receive_from_downstream true true [] ack_zero holding).up ≡ [])
    × (withholds (receive_from_downstream true true [] ack_zero holding).sharder.state ≡ true)
receive_from_downstream-withholds_example =
    receive_from_downstream-withholds true true [] ack_zero holding refl (inl (ground arith))

sharder_unmarshal-marshal_example :
    unmarshal (marshal (record { flags = 9; sequence = 5; payload = 1 ∷ [] }))
    ≡ ok (record { flags = 9; sequence = 5; payload = 1 ∷ [] })
sharder_unmarshal-marshal_example =
    sharder_unmarshal-marshal (record { flags = 9; sequence = 5; payload = 1 ∷ [] }) (omega arith)
      (omega arith)
