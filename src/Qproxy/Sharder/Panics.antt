-- ===== src/Qproxy/Sharder/Panics.antt =====
-- The sharder of module/qproxy/protocol.go panics only on a message for whose first two bytes there
-- is no room.
use ipxbox.Common.{
  ℕ, ◌+◌, ◌≤◌, ◌≡◌, ◌≢◌, refl, arith, Bool, true, false, not, ◌||◌, List, [], ◌++◌, Result, ok, err,
  length, Bool-cases, inl, inr, ltb, ◌==◌, if◌then◌else◌, length-append,
}
use mathlib.Core.Path.{subst}
use ipxbox.Common.Bytes.{be16}
use ipxbox.Qproxy.Sharder.{
  receiving, eom_acked, sent_eom, state_eq, has_flag, flag_data, flag_ack, flag_unreliable,
  then_call, state_transition, next, reliable_header_length, Sharder, Outcome, ReliableMessage,
  Error, message_too_short, transmit_failed, slice_out_of_range, sent, send_fragment, send_next,
  send_ack, answer_upstream, accept_fragment, accept_ack, unmarshal, receive_from_upstream,
  receive_from_downstream, handled,
}

-- A result is not a panic.
abbrev pub IsResult : {A : Type 0} → Result Error A → Type 0
IsResult (err slice_out_of_range) = ⊥
IsResult (err message_too_short) = Unit
IsResult (err transmit_failed) = Unit
IsResult (ok x) = Unit

-- What holds in both branches of a test, the second of which knows that it failed.
pub if-cases :
    {A : Type 0} (P : A → Type 0) (b : Bool) (x y : A)
    → (b ≡ true → P x)
    → (b ≡ false → P y)
    → P (if b then x else y)
if-cases P true x y f g = f refl
if-cases P false x y f g = g refl

abbrev pub Fine : {A : Type 0} → Outcome A → Type 0
Fine o = IsResult o.result

sent-IsResult : (b : Bool) → IsResult (sent b)
sent-IsResult true = tt
sent-IsResult false = tt

send_next-Fine : (down_ok : Bool) (s : Sharder) → Fine (send_next down_ok s)
unfolding send_next send_fragment
send_next-Fine down_ok s =
    if-cases Fine (not (s.txack == s.txseq)) _ _ (λ e. tt)
      (λ e.
        if-cases Fine (state_eq s.state sent_eom || state_eq s.state eom_acked) _ _ (λ e. tt)
          (λ e.
            if-cases Fine (ltb (length s.txqueue) 1) _ _ (λ e. tt) (λ e. sent-IsResult down_ok)))

send_ack-Fine : (up_ok : Bool) (s : Sharder) → Fine (send_ack up_ok s)
unfolding send_ack
send_ack-Fine up_ok s = if-cases Fine (s.rxseq == s.rxack) _ _ (λ e. tt) (λ e. sent-IsResult up_ok)

then_call-Fine :
    (first : Outcome (Unit {0})) (second : Sharder → Outcome (Unit {0}))
    → Fine first
    → ((s : Sharder) → Fine (second s))
    → Fine (then_call first second)
then_call-Fine first second f g = split first.result refl
  where
    split : (r : Result Error (Unit {0})) → first.result ≡ r → Fine (then_call first second)
    split (err x) e = rw e (subst IsResult e f)
    split (ok x) e = rw e (g first.sharder)

handled-Fine : (o : Outcome (Unit {0})) → Fine o → Fine (handled o)
handled-Fine o f = split o.result refl
  where
    split : (r : Result Error (Unit {0})) → o.result ≡ r → Fine (handled o)
    split (err x) e = rw e (subst IsResult e f)
    split (ok x) e = rw e tt

answer_upstream-Fine : (up_ok down_ok : Bool) (s : Sharder) → Fine (answer_upstream up_ok down_ok s)
unfolding answer_upstream
answer_upstream-Fine up_ok down_ok s =
    then_call-Fine _ (send_next down_ok)
      (if-cases Fine (state_eq s.state receiving || state_eq s.state eom_acked) _ _
        (λ e. send_ack-Fine up_ok s) (λ e. tt))
      (send_next-Fine down_ok)

accept_ack-Fine :
    (up_ok down_ok : Bool) (rm : ReliableMessage) (s : Sharder)
    → Fine (accept_ack up_ok down_ok rm s)
unfolding accept_ack
accept_ack-Fine up_ok down_ok rm s =
    let s' = state_transition sent_eom eom_acked (record s { txack = next s.txack }) in
    if-cases Fine (rm.sequence == s.txack) _ _
      (λ e.
        if-cases Fine (state_eq s'.state eom_acked) _ _ (λ e. send_ack-Fine up_ok s')
          (λ e. send_next-Fine down_ok s'))
      (λ e. tt)

-- The rest of a message's handling is fine if what is done with a decoded message is.
unmarshal-Fine :
    (msg : List ℕ) (s : Sharder) (go : ReliableMessage → Outcome Bool)
    → ((rm : ReliableMessage) → Fine (go rm))
    → Fine {A = Bool} (elim (unmarshal msg) [
      | err e ↦ record { sharder = s; up = []; down = []; result = err e }
      | ok rm ↦ go rm
    ])
unfolding unmarshal
unmarshal-Fine msg s go f = elim (Bool-cases (ltb (length msg) reliable_header_length)) [
  | inl e ↦ rw e tt
  | inr e ↦ rw e (f _)
]

long_enough :
    (spare msg : List ℕ) → 2 ≤ length msg + length spare → ltb (length (msg ++ spare)) 2 ≢ true
long_enough spare msg l e = ground (arith, l, e, length-append msg spare)

pub receive_from_upstream-Fine :
    (up_ok down_ok : Bool) (spare msg : List ℕ) (s : Sharder)
    → 2 ≤ length msg + length spare
    → Fine (receive_from_upstream up_ok down_ok spare msg s)
unfolding receive_from_upstream
receive_from_upstream-Fine up_ok down_ok spare msg s l =
    if-cases Fine (ltb (length (msg ++ spare)) 2) _ _ (λ e. elim (long_enough spare msg l e) [ ])
      (λ e.
        if-cases Fine (has_flag (be16 (msg ++ spare) 0) flag_unreliable) _ _ (λ e. tt)
          (λ e.
            if-cases Fine (not (has_flag (be16 (msg ++ spare) 0) flag_data)) _ _ (λ e. tt)
              (λ e.
                unmarshal-Fine msg s
                  (λ rm. handled (answer_upstream up_ok down_ok (accept_fragment rm s)))
                  (λ rm.
                    handled-Fine (answer_upstream up_ok down_ok (accept_fragment rm s))
                      (answer_upstream-Fine up_ok down_ok (accept_fragment rm s))))))

pub receive_from_downstream-Fine :
    (up_ok down_ok : Bool) (spare msg : List ℕ) (s : Sharder)
    → 2 ≤ length msg + length spare
    → Fine (receive_from_downstream up_ok down_ok spare msg s)
unfolding receive_from_downstream
receive_from_downstream-Fine up_ok down_ok spare msg s l =
    if-cases Fine (ltb (length (msg ++ spare)) 2) _ _ (λ e. elim (long_enough spare msg l e) [ ])
      (λ e.
        if-cases Fine (has_flag (be16 (msg ++ spare) 0) flag_unreliable) _ _ (λ e. tt)
          (λ e.
            if-cases Fine (not (has_flag (be16 (msg ++ spare) 0) flag_ack)) _ _ (λ e. tt)
              (λ e.
                unmarshal-Fine msg s (λ rm. handled (accept_ack up_ok down_ok rm s))
                  (λ rm.
                    handled-Fine (accept_ack up_ok down_ok rm s)
                      (accept_ack-Fine up_ok down_ok rm s)))))
