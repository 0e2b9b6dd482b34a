-- ===== src/Qproxy/Sharder/StopAndWait.antt =====
-- The sharder of module/qproxy/protocol.go sends one fragment at a time.
use ipxbox.Common.{
  ℕ, ◌≡◌, ◌≢◌, refl, arith, Bool, true, false, List, [], ◌∷◌, ◌++◌, Result, ok, err, ltb, length,
  drop, Bool-cases, ◌⊎◌, inl, inr,
}
use ipxbox.Common.Bytes.{IsU32, be16, be32, slice}
use ipxbox.Qproxy.Sharder.{
  Sharder, ReliableMessage, Error, unmarshal, has_flag, flag_data, flag_unreliable, send_fragment,
  send_next, send_ack, accept_fragment, answer_upstream, receive_from_upstream, accept_ack,
  receive_from_downstream, next,
}
use ipxbox.Qproxy.Sharder.Streams.{Event, upstream, downstream, Run, step, run}
use ipxbox.Qproxy.Sharder.Acks.{accept_fragment-numbers}

-- At most one fragment is out: the number of the next one is that of the next acknowledgement, or
-- one more.
pub record IsStopAndWait (s : Sharder) : Type 0 where
  pub txseq_fits : IsU32 s.txseq
  pub txack_fits : IsU32 s.txack
  pub one_out : (s.txseq ≡ s.txack) ⊎ (s.txseq ≡ next s.txack)

send_next-IsStopAndWait :
    (down_ok : Bool) (s : Sharder) → IsStopAndWait s → IsStopAndWait (send_next down_ok s).sharder
unfolding send_next send_fragment
send_next-IsStopAndWait down_ok s w = record {
  txseq_fits = ground (arith, w.txseq_fits);
  txack_fits = ground (arith, w.txack_fits);
  one_out = ground (arith, w.one_out);
}

answer_upstream-IsStopAndWait :
    (up_ok down_ok : Bool) (s : Sharder)
    → IsStopAndWait s
    → IsStopAndWait (answer_upstream up_ok down_ok s).sharder
unfolding answer_upstream send_ack send_next send_fragment
answer_upstream-IsStopAndWait up_ok down_ok s w = record {
  txseq_fits = ground (arith, w.txseq_fits, w.txack_fits);
  txack_fits = ground (arith, w.txseq_fits, w.txack_fits);
  one_out = ground (arith, w.one_out);
}

-- The number of the next fragment, the number of the next acknowledgement, and nothing more.
same_numbers :
    (s s' : Sharder) → s'.txseq ≡ s.txseq → s'.txack ≡ s.txack → IsStopAndWait s → IsStopAndWait s'
same_numbers s s' p q w = record {
  txseq_fits = ground (arith, p, w.txseq_fits);
  txack_fits = ground (arith, q, w.txack_fits);
  one_out = ground (arith, p, q, w.one_out);
}

receive_from_upstream-IsStopAndWait :
    (up_ok down_ok : Bool) (spare msg : List ℕ) (s : Sharder)
    → IsStopAndWait s
    → IsStopAndWait (receive_from_upstream up_ok down_ok spare msg s).sharder
unfolding receive_from_upstream
receive_from_upstream-IsStopAndWait up_ok down_ok spare msg s w =
    split (unmarshal msg) refl (Bool-cases (ltb (length (msg ++ spare)) 2))
      (Bool-cases (has_flag (be16 (msg ++ spare) 0) flag_unreliable))
      (Bool-cases (has_flag (be16 (msg ++ spare) 0) flag_data))
  where
    split :
        (r : Result Error ReliableMessage)
        → unmarshal msg ≡ r
        → (ltb (length (msg ++ spare)) 2 ≡ true) ⊎ (ltb (length (msg ++ spare)) 2 ≡ false)
        → (has_flag (be16 (msg ++ spare) 0) flag_unreliable ≡ true)
          ⊎ (has_flag (be16 (msg ++ spare) 0) flag_unreliable ≡ false)
        → (has_flag (be16 (msg ++ spare) 0) flag_data ≡ true)
          ⊎ (has_flag (be16 (msg ++ spare) 0) flag_data ≡ false)
        → IsStopAndWait (receive_from_upstream up_ok down_ok spare msg s).sharder
    split r e (inl p) q t = rw p w
    split r e (inr p) (inl q) t = rw (p, q) w
    split r e (inr p) (inr q) (inr t) = rw (p, q, t) w
    split (err x) e (inr p) (inr q) (inl t) = rw (p, q, t, e) w
    split (ok rm) e (inr p) (inr q) (inl t) =
        let n = accept_fragment-numbers rm s in
        rw (p, q, t, e)
          (answer_upstream-IsStopAndWait up_ok down_ok (accept_fragment rm s)
            (same_numbers s (accept_fragment rm s) n.0 n.1 w))

-- A message does not acknowledge a fragment that has not been sent.
abbrev pub NotEarly : List ℕ → Sharder → Type 0
NotEarly msg s = s.txseq ≡ s.txack → be32 (slice msg 4 8) 0 ≢ s.txack

accept_ack-IsStopAndWait :
    (up_ok down_ok : Bool) (rm : ReliableMessage) (s : Sharder)
    → IsStopAndWait s
    → (s.txseq ≡ s.txack → rm.sequence ≢ s.txack)
    → IsStopAndWait (accept_ack up_ok down_ok rm s).sharder
unfolding accept_ack send_ack send_next send_fragment
accept_ack-IsStopAndWait up_ok down_ok rm s w d = record {
  txseq_fits = ground (arith, w.txseq_fits, w.txack_fits);
  txack_fits = ground (arith, w.txseq_fits, w.txack_fits);
  one_out = ground (arith, w.txack_fits, w.one_out, d);
}

receive_from_downstream-IsStopAndWait :
    (up_ok down_ok : Bool) (spare msg : List ℕ) (s : Sharder)
    → IsStopAndWait s
    → NotEarly msg s
    → IsStopAndWait (receive_from_downstream up_ok down_ok spare msg s).sharder
unfolding receive_from_downstream unmarshal
receive_from_downstream-IsStopAndWait up_ok down_ok spare msg s w d =
    let rm : ReliableMessage = record {
      flags = be16 (slice msg 0 2) 0;
      sequence = be32 (slice msg 4 8) 0;
      payload = drop 8 msg;
    } in
    let a = accept_ack-IsStopAndWait up_ok down_ok rm s w d in
    record {
      txseq_fits = ground (arith, w.txseq_fits, a.txseq_fits);
      txack_fits = ground (arith, w.txack_fits, a.txack_fits);
      one_out = ground (arith, w.one_out, a.one_out);
    }

-- No message of a run acknowledges a fragment before it is sent.
abbrev pub NoneEarly : List Event → Run → Type 0
NoneEarly [] r = Unit
NoneEarly (upstream u d spare msg ∷ es) r = NoneEarly es (step (upstream u d spare msg) r)
NoneEarly (downstream u d spare msg ∷ es) r =
    NotEarly msg r.sharder × NoneEarly es (step (downstream u d spare msg) r)

-- If the downstream client acknowledges only fragments that it was sent, at most one fragment is
-- out at any time: the number of the next fragment is that of the next acknowledgement, or one more
-- (as 32-bit words), after any sequence of messages from the two sides.
pub run-IsStopAndWait :
    (es : List Event) (r : Run)
    → IsStopAndWait r.sharder
    → NoneEarly es r
    → IsStopAndWait (run es r).sharder
unfolding run step
run-IsStopAndWait [] r w n = w
run-IsStopAndWait (upstream u d spare msg ∷ es) r w n =
    run-IsStopAndWait es (step (upstream u d spare msg) r)
      (receive_from_upstream-IsStopAndWait u d spare msg r.sharder w) n
run-IsStopAndWait (downstream u d spare msg ∷ es) r w (n, ns) =
    run-IsStopAndWait es (step (downstream u d spare msg) r)
      (receive_from_downstream-IsStopAndWait u d spare msg r.sharder w n) ns
