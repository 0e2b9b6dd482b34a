-- ===== src/Qproxy/Sharder/Acks.antt =====
-- Acknowledgements in module/qproxy/protocol.go: the end of a message is acknowledged only when the
-- other side has it, and an acknowledgement that comes too early.
use ipxbox.Common.{
  ℕ, ◌≤◌, ◌≡◌, ◌≢◌, refl, ap, ◌∙◌, arith, Bool, true, false, List, [], ◌∷◌, ◌++◌, Result, ok, err,
  length, drop, All, ◌⊎◌,
}
use ipxbox.Common.Bytes.{IsU32, be16, be32, slice}
use ipxbox.Qproxy.Sharder.{
  Sharder, State, receiving, received_eom, sent_eom, eom_acked, ReliableMessage, Error, unmarshal,
  has_flag, flag_unreliable, flag_ack, send_fragment, send_next, send_ack, accept_fragment,
  answer_upstream, receive_from_upstream, accept_ack, receive_from_downstream, next,
}
use ipxbox.Qproxy.Sharder.Streams.{Event, upstream, downstream, Run, step, run}
use ipxbox.Common.{append-nil}
use ipxbox.Common.{length-append}

pub accept_fragment-numbers :
    (rm : ReliableMessage) (s : Sharder)
    → ((accept_fragment rm s).txseq ≡ s.txseq) × ((accept_fragment rm s).txack ≡ s.txack)
unfolding accept_fragment
accept_fragment-numbers rm s = ground arith

-- The sharder waits for an acknowledgement, or for something to send.
abbrev pub Waits : Sharder → Type 0
Waits s = s.txack ≢ s.txseq

send_next-Waits : (down_ok : Bool) (s : Sharder) → Waits s → (send_next down_ok s).down ≡ []
unfolding send_next
send_next-Waits down_ok s w = ground (arith, w)

-- A state in which the end of a message from upstream is not acknowledged yet.
abbrev pub withholds : State → Bool
withholds receiving = false
withholds received_eom = true
withholds sent_eom = true
withholds eom_acked = false

send_next-withholds :
    (down_ok : Bool) (s : Sharder)
    → withholds s.state ≡ true
    → ((send_next down_ok s).up ≡ []) × (withholds (send_next down_ok s).sharder.state ≡ true)
unfolding send_next send_fragment
send_next-withholds down_ok s w = ground (arith, w)

answer_upstream-withholds :
    (up_ok down_ok : Bool) (s : Sharder)
    → withholds s.state ≡ true
    → ((answer_upstream up_ok down_ok s).up ≡ [])
      × (withholds (answer_upstream up_ok down_ok s).sharder.state ≡ true)
unfolding answer_upstream
answer_upstream-withholds up_ok down_ok s w = ground (arith, w, send_next-withholds down_ok s w)

accept_fragment-withholds :
    (rm : ReliableMessage) (s : Sharder)
    → withholds s.state ≡ true
    → withholds (accept_fragment rm s).state ≡ true
unfolding accept_fragment
accept_fragment-withholds rm s w = ground (arith, w)

-- While the end of a message from upstream is not acknowledged, nothing that comes from upstream
-- makes the sharder acknowledge it or leave that phase.
pub receive_from_upstream-withholds :
    (up_ok down_ok : Bool) (spare msg : List ℕ) (s : Sharder)
    → withholds s.state ≡ true
    → ((receive_from_upstream up_ok down_ok spare msg s).up ≡ [])
      × (withholds (receive_from_upstream up_ok down_ok spare msg s).sharder.state ≡ true)
unfolding receive_from_upstream
receive_from_upstream-withholds up_ok down_ok spare msg s w = split (unmarshal msg) refl
  where
    split :
        (r : Result Error ReliableMessage)
        → unmarshal msg ≡ r
        → ((receive_from_upstream up_ok down_ok spare msg s).up ≡ [])
          × (withholds (receive_from_upstream up_ok down_ok spare msg s).sharder.state ≡ true)
    split (err x) e = ground (arith, w)
    split (ok rm) e =
        let w' = accept_fragment-withholds rm s w in
        ground (arith, w, answer_upstream-withholds up_ok down_ok (accept_fragment rm s) w')

accept_ack-withholds :
    (up_ok down_ok : Bool) (rm : ReliableMessage) (s : Sharder)
    → withholds s.state ≡ true
    → (s.state ≢ sent_eom) ⊎ (rm.sequence ≢ s.txack)
    → ((accept_ack up_ok down_ok rm s).up ≡ [])
      × (withholds (accept_ack up_ok down_ok rm s).sharder.state ≡ true)
unfolding accept_ack
accept_ack-withholds up_ok down_ok rm s w d =
    let s1 : Sharder = record s { txack = next s.txack } in
    ground (arith, w, d, send_next-withholds down_ok s1 w)

pub receive_from_downstream-withholds :
    (up_ok down_ok : Bool) (spare msg : List ℕ) (s : Sharder)
    → withholds s.state ≡ true
    → (s.state ≢ sent_eom) ⊎ (be32 (slice msg 4 8) 0 ≢ s.txack)
    → ((receive_from_downstream up_ok down_ok spare msg s).up ≡ [])
      × (withholds (receive_from_downstream up_ok down_ok spare msg s).sharder.state ≡ true)
unfolding receive_from_downstream unmarshal
receive_from_downstream-withholds up_ok down_ok spare msg s w d =
    let rm : ReliableMessage = record {
      flags = be16 (slice msg 0 2) 0;
      sequence = be32 (slice msg 4 8) 0;
      payload = drop 8 msg;
    } in
    ground (arith, w, d, accept_ack-withholds up_ok down_ok rm s w d)

answer_upstream-Waits :
    (up_ok down_ok : Bool) (s : Sharder)
    → Waits s
    → ((answer_upstream up_ok down_ok s).down ≡ [])
      × Waits (answer_upstream up_ok down_ok s).sharder
unfolding answer_upstream send_ack send_next
answer_upstream-Waits up_ok down_ok s w = ground (arith, w)

receive_from_upstream-Waits :
    (up_ok down_ok : Bool) (spare msg : List ℕ) (s : Sharder)
    → Waits s
    → ((receive_from_upstream up_ok down_ok spare msg s).down ≡ [])
      × Waits (receive_from_upstream up_ok down_ok spare msg s).sharder
unfolding receive_from_upstream
receive_from_upstream-Waits up_ok down_ok spare msg s w = split (unmarshal msg) refl
  where
    split :
        (r : Result Error ReliableMessage)
        → unmarshal msg ≡ r
        → ((receive_from_upstream up_ok down_ok spare msg s).down ≡ [])
          × Waits (receive_from_upstream up_ok down_ok spare msg s).sharder
    split (err x) e = ground (arith, w)
    split (ok rm) e =
        let n = accept_fragment-numbers rm s in
        ground (arith, w, n, answer_upstream-Waits up_ok down_ok (accept_fragment rm s))

-- Events that come from upstream.
abbrev pub FromUpstream : Event → Type 0
FromUpstream (upstream _ _ _ _) = Unit
FromUpstream (downstream _ _ _ _) = ⊥

run-Waits :
    (es : List Event) (r : Run)
    → All FromUpstream es
    → Waits r.sharder
    → (run es r).handed ≡ r.handed
unfolding run step
run-Waits [] r a w = refl
run-Waits (upstream u d spare msg ∷ es) r (a, all) w =
    let p = receive_from_upstream-Waits u d spare msg r.sharder w in
    run-Waits es (step (upstream u d spare msg) r) all p.1
    ∙ ap (◌++◌ r.handed) p.0
    ∙ append-nil r.handed
run-Waits (downstream u d spare msg ∷ es) r (a, all) w = elim a [ ]

accept_ack_early :
    (up_ok down_ok : Bool) (rm : ReliableMessage) (s : Sharder)
    → IsU32 s.txack
    → s.txseq ≡ s.txack
    → rm.sequence ≡ s.txack
    → ((accept_ack up_ok down_ok rm s).down ≡ []) × Waits (accept_ack up_ok down_ok rm s).sharder
unfolding accept_ack send_ack send_next
accept_ack_early up_ok down_ok rm s fits idle e = ground (arith, fits, idle, e)

-- A message is an acknowledgement.
abbrev pub IsAck : List ℕ → Type 0
IsAck msg =
    (8 ≤ length msg)
    × (has_flag (be16 msg 0) flag_unreliable ≡ false)
    × (has_flag (be16 msg 0) flag_ack ≡ true)

be16-append : (msg spare : List ℕ) → 8 ≤ length msg → be16 (msg ++ spare) 0 ≡ be16 msg 0
be16-append [] spare l = ground (arith, l)
be16-append (a ∷ []) spare l = ground (arith, l)
be16-append (a ∷ b ∷ msg) spare l = refl

length-append_long : (msg spare : List ℕ) → 8 ≤ length msg → 8 ≤ length (msg ++ spare)
length-append_long msg spare l = omega (arith, l, length-append msg spare)

receive_from_downstream_early :
    (up_ok down_ok : Bool) (spare msg : List ℕ) (s : Sharder)
    → IsU32 s.txack
    → s.txseq ≡ s.txack
    → IsAck msg
    → be32 (slice msg 4 8) 0 ≡ s.txack
    → ((receive_from_downstream up_ok down_ok spare msg s).down ≡ [])
      × Waits (receive_from_downstream up_ok down_ok spare msg s).sharder
unfolding receive_from_downstream unmarshal
receive_from_downstream_early up_ok down_ok spare msg s fits idle a e =
    let rm : ReliableMessage = record {
      flags = be16 (slice msg 0 2) 0;
      sequence = be32 (slice msg 4 8) 0;
      payload = drop 8 msg;
    } in
    ground (
      arith,
      fits,
      idle,
      a,
      e,
      be16-append msg spare a.0,
      length-append_long msg spare a.0,
      accept_ack_early up_ok down_ok rm s fits idle e,
    )

-- If the downstream client acknowledges the number that the sharder will give to its next fragment,
-- before that fragment is sent, then nothing is handed downstream at that moment, nor for whatever
-- comes from upstream from then on.
pub early_ack_stalls :
    (up_ok down_ok : Bool) (spare msg : List ℕ) (es : List Event) (r : Run)
    → IsU32 r.sharder.txack
    → r.sharder.txseq ≡ r.sharder.txack
    → IsAck msg
    → be32 (slice msg 4 8) 0 ≡ r.sharder.txack
    → All FromUpstream es
    → (run (downstream up_ok down_ok spare msg ∷ es) r).handed ≡ r.handed
unfolding run step
early_ack_stalls u d spare msg es r fits idle a e all =
    let p = receive_from_downstream_early u d spare msg r.sharder fits idle a e in
    run-Waits es (step (downstream u d spare msg) r) all p.1
    ∙ ap (◌++◌ r.handed) p.0
    ∙ append-nil r.handed
