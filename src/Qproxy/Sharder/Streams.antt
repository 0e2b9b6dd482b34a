-- ===== src/Qproxy/Sharder/Streams.antt =====
-- What the sharder of module/qproxy/protocol.go does to the bytes of a message.
use ipxbox.Common.{
  ℕ, ◌+◌, ◌≤◌, ◌≡◌, refl, sym, ap, ◌∙◌, arith, Bool, not, ◌||◌, List, [], ◌∷◌, ◌++◌, Result, ok,
  err, ltb, ◌==◌, if◌then◌else◌, length, take, take-append-drop, length-take, append-nil,
  append_assoc, All,
}
use ipxbox.Common.Bytes.{be16}
use ipxbox.Qproxy.Sharder.{
  Sharder, eom_acked, ReliableMessage, Outcome, Error, unmarshal, has_flag, flag_data,
  flag_unreliable, next_size, send_fragment, send_next, send_ack, accept_fragment, answer_upstream,
  receive_from_upstream, accept_ack, receive_from_downstream, next, vanilla_quake_mtu,
  reliable_header_length,
}
use ipxbox.Common.Bytes.{All-append}

-- The bytes that a list of messages carries.
abbrev pub payloads : List ReliableMessage → List ℕ
payloads [] = []
payloads (m ∷ ms) = m.payload ++ payloads ms

-- A message fits the MTU of the original game with its header.
abbrev pub FitsMtu : ReliableMessage → Type 0
FitsMtu m = length m.payload + reliable_header_length ≤ vanilla_quake_mtu

send_next-payloads :
    (down_ok : Bool) (s : Sharder)
    → (payloads (send_next down_ok s).down ++ (send_next down_ok s).sharder.txqueue ≡ s.txqueue)
      × All FitsMtu (send_next down_ok s).down
unfolding send_next send_fragment
send_next-payloads down_ok s = ground (
  arith,
  take-append-drop (next_size s.txqueue) s.txqueue,
  length-take (next_size s.txqueue) s.txqueue,
  append-nil (take (next_size s.txqueue) s.txqueue),
)

send_ack-payloads :
    (up_ok : Bool) (s : Sharder)
    → ((send_ack up_ok s).down ≡ []) × ((send_ack up_ok s).sharder.txqueue ≡ s.txqueue)
unfolding send_ack
send_ack-payloads up_ok s = ground arith

answer_upstream-payloads :
    (up_ok down_ok : Bool) (s : Sharder)
    → let o : Outcome (Unit {0}) = answer_upstream up_ok down_ok s in
      (payloads o.down ++ o.sharder.txqueue ≡ s.txqueue) × All FitsMtu o.down
unfolding answer_upstream
answer_upstream-payloads up_ok down_ok s = ground (
  arith,
  send_ack-payloads up_ok s,
  send_next-payloads down_ok s,
  send_next-payloads down_ok (send_ack up_ok s).sharder,
)

accept_ack-payloads :
    (up_ok down_ok : Bool) (rm : ReliableMessage) (s : Sharder)
    → (payloads (accept_ack up_ok down_ok rm s).down
          ++ (accept_ack up_ok down_ok rm s).sharder.txqueue
        ≡ s.txqueue)
      × All FitsMtu (accept_ack up_ok down_ok rm s).down
unfolding accept_ack
accept_ack-payloads up_ok down_ok rm s =
    let s1 : Sharder = record s { txack = next s.txack } in
    let s2 : Sharder = record s1 { state = eom_acked } in
    ground (
      arith,
      send_ack-payloads up_ok s1,
      send_ack-payloads up_ok s2,
      send_next-payloads down_ok s1,
      send_next-payloads down_ok s2,
    )

-- The bytes that a message from upstream adds to the stream: the payload of a reliable data
-- fragment with the expected sequence number.
abbrev pub new_bytes : (spare msg : List ℕ) → Sharder → List ℕ
new_bytes spare msg s =
    if ltb (length (msg ++ spare)) 2
      || (has_flag (be16 (msg ++ spare) 0) flag_unreliable
          || not (has_flag (be16 (msg ++ spare) 0) flag_data))
    then []
    else elim (unmarshal msg) [
      | err _ ↦ []
      | ok rm ↦ if rm.sequence == s.rxseq then rm.payload else []
    ]

accept_fragment-txqueue :
    (rm : ReliableMessage) (s : Sharder)
    → (accept_fragment rm s).txqueue
      ≡ s.txqueue ++ (if rm.sequence == s.rxseq then rm.payload else [])
unfolding accept_fragment
accept_fragment-txqueue rm s = ground (arith, append-nil s.txqueue)

pub receive_from_upstream-payloads :
    (up_ok down_ok : Bool) (spare msg : List ℕ) (s : Sharder)
    → (payloads (receive_from_upstream up_ok down_ok spare msg s).down
          ++ (receive_from_upstream up_ok down_ok spare msg s).sharder.txqueue
        ≡ s.txqueue ++ new_bytes spare msg s)
      × All FitsMtu (receive_from_upstream up_ok down_ok spare msg s).down
unfolding receive_from_upstream
receive_from_upstream-payloads up_ok down_ok spare msg s = split (unmarshal msg) refl
  where
    split :
        (r : Result Error ReliableMessage)
        → unmarshal msg ≡ r
        → (payloads (receive_from_upstream up_ok down_ok spare msg s).down
              ++ (receive_from_upstream up_ok down_ok spare msg s).sharder.txqueue
            ≡ s.txqueue ++ new_bytes spare msg s)
          × All FitsMtu (receive_from_upstream up_ok down_ok spare msg s).down
    split (err x) e = ground (arith, append-nil s.txqueue)
    split (ok rm) e = ground (
      arith,
      append-nil s.txqueue,
      accept_fragment-txqueue rm s,
      answer_upstream-payloads up_ok down_ok (accept_fragment rm s),
    )

pub receive_from_downstream-payloads :
    (up_ok down_ok : Bool) (spare msg : List ℕ) (s : Sharder)
    → (payloads (receive_from_downstream up_ok down_ok spare msg s).down
          ++ (receive_from_downstream up_ok down_ok spare msg s).sharder.txqueue
        ≡ s.txqueue)
      × All FitsMtu (receive_from_downstream up_ok down_ok spare msg s).down
unfolding receive_from_downstream
receive_from_downstream-payloads up_ok down_ok spare msg s = split (unmarshal msg) refl
  where
    split :
        (r : Result Error ReliableMessage)
        → unmarshal msg ≡ r
        → (payloads (receive_from_downstream up_ok down_ok spare msg s).down
              ++ (receive_from_downstream up_ok down_ok spare msg s).sharder.txqueue
            ≡ s.txqueue)
          × All FitsMtu (receive_from_downstream up_ok down_ok spare msg s).down
    split (err x) e = ground arith
    split (ok rm) e = ground (arith, accept_ack-payloads up_ok down_ok rm s)

-- What comes to the sharder, from either side, and whether its callbacks succeed meanwhile.
pub data Event : Type 0 where
  upstream : (up_ok down_ok : Bool) → (spare msg : List ℕ) → Event
  downstream : (up_ok down_ok : Bool) → (spare msg : List ℕ) → Event

-- The sharder, the bytes it has taken from upstream, and the messages handed downstream.
pub record Run : Type 0 where
  pub sharder : Sharder
  pub taken : List ℕ
  pub handed : List ReliableMessage

unfoldable pub step : Event → Run → Run
step (upstream up_ok down_ok spare msg) r =
    let o = receive_from_upstream up_ok down_ok spare msg r.sharder in
    record {
      sharder = o.sharder;
      taken = r.taken ++ new_bytes spare msg r.sharder;
      handed = r.handed ++ o.down;
    }
step (downstream up_ok down_ok spare msg) r =
    let o = receive_from_downstream up_ok down_ok spare msg r.sharder in
    record { sharder = o.sharder; taken = r.taken; handed = r.handed ++ o.down }

unfoldable pub run : List Event → Run → Run
run [] r = r
run (e ∷ es) r = run es (step e r)

pub record IsFaithful (r : Run) : Type 0 where
  pub in_order : payloads r.handed ++ r.sharder.txqueue ≡ r.taken
  pub fits : All FitsMtu r.handed

payloads-append : (xs ys : List ReliableMessage) → payloads (xs ++ ys) ≡ payloads xs ++ payloads ys
payloads-append [] ys = refl
payloads-append (x ∷ xs) ys =
    ap (◌++◌ x.payload) (payloads-append xs ys)
    ∙ sym (append_assoc x.payload (payloads xs) (payloads ys))

step-IsFaithful : (e : Event) (r : Run) → IsFaithful r → IsFaithful (step e r)
unfolding step
step-IsFaithful (upstream up_ok down_ok spare msg) r f =
    let o = receive_from_upstream up_ok down_ok spare msg r.sharder in
    let p = receive_from_upstream-payloads up_ok down_ok spare msg r.sharder in
    record {
      in_order =
          rw (payloads-append r.handed o.down, append_assoc, p.0, ← f.in_order, append_assoc) refl;
      fits = All-append FitsMtu r.handed o.down f.fits p.1;
    }
step-IsFaithful (downstream up_ok down_ok spare msg) r f =
    let o = receive_from_downstream up_ok down_ok spare msg r.sharder in
    let p = receive_from_downstream-payloads up_ok down_ok spare msg r.sharder in
    record {
      in_order = rw (payloads-append r.handed o.down, append_assoc, p.0) f.in_order;
      fits = All-append FitsMtu r.handed o.down f.fits p.1;
    }

-- Whatever comes from upstream and downstream, and whether or not the callbacks succeed, the
-- payloads handed downstream followed by the queue are exactly the reliable bytes taken from
-- upstream, in order, and every message handed downstream fits the original game's MTU.
pub run-IsFaithful : (es : List Event) (r : Run) → IsFaithful r → IsFaithful (run es r)
unfolding run
run-IsFaithful [] r f = f
run-IsFaithful (e ∷ es) r f = run-IsFaithful es (step e r) (step-IsFaithful e r f)
