-- ===== src/Qproxy/Sharder.antt =====
-- module/qproxy/protocol.go: Quake's reliable messages, taken apart into fragments that fit the MTU
-- of the original game. Sequence numbers are 32-bit words. The two transmit callbacks are
-- parameters of the environment: what is handed to them is returned, and whether they succeed is an
-- argument, as each handler calls each of them at most once.
-- A message is a slice of a longer array: `spare` is what the array holds after the message, up to
-- the slice's capacity, and `msg[0:2]` reaches into it when the message is shorter.
pub mod MessageFormat
pub mod Streams
pub mod Acks
pub mod StopAndWait
pub mod Panics
mod Examples
use ipxbox.Common.{
  ℕ, ◌+◌, ◌-◌, ◌*◌, ◌/◌, ◌%◌, ◌<◌, Bool, true, false, not, ◌&&◌, ◌||◌, List, [], ◌∷◌, ◌++◌, Result,
  ok, err, ltb, ◌==◌, if◌then◌else◌, length, take, drop,
}
use ipxbox.Common.Bytes.{byte_at, slice, be16, be32, put_be16, put_be32}

abbrev pub vanilla_quake_mtu : ℕ
vanilla_quake_mtu = 1024

abbrev pub reliable_header_length : ℕ
reliable_header_length = 8

abbrev pub flag_data : ℕ
flag_data = 1

abbrev pub flag_ack : ℕ
flag_ack = 2

abbrev pub flag_eom : ℕ
flag_eom = 8

abbrev pub flag_unreliable : ℕ
flag_unreliable = 16

-- `flags & flag != 0` for a flag that is a power of two.
abbrev pub has_flag : ℕ → ℕ → Bool
has_flag flags flag = flags / flag % 2 == 1

pub data State : Type 0 where
  receiving : State
  received_eom : State
  sent_eom : State
  eom_acked : State

abbrev pub state_eq : State → State → Bool
state_eq receiving receiving = true
state_eq received_eom received_eom = true
state_eq sent_eom sent_eom = true
state_eq eom_acked eom_acked = true
state_eq _ _ = false

pub record ReliableMessage : Type 0 where
  pub flags : ℕ
  pub sequence : ℕ
  pub payload : List ℕ

pub data Error : Type 0 where
  message_too_short : Error
  transmit_failed : Error
  slice_out_of_range : Error

-- reliableMessage.MarshalBinary
unfoldable pub marshal : ReliableMessage → List ℕ
marshal m =
    put_be16 m.flags
    ++ (put_be16 ((reliable_header_length + length m.payload) % 65536)
        ++ (put_be32 m.sequence ++ m.payload))

-- reliableMessage.UnmarshalBinary
unfoldable pub unmarshal : List ℕ → Result Error ReliableMessage
unmarshal bytes =
    if ltb (length bytes) reliable_header_length
    then err message_too_short
    else ok (record {
      flags = be16 (slice bytes 0 2) 0;
      sequence = be32 (slice bytes 4 8) 0;
      payload = drop 8 bytes;
    })

pub record Sharder : Type 0 where
  pub state : State
  pub rxseq : ℕ
  pub rxack : ℕ
  pub txseq : ℕ
  pub txack : ℕ
  pub txqueue : List ℕ

-- `init`
abbrev pub init : Sharder
init = record { state = receiving; rxseq = 0; rxack = 0; txseq = 0; txack = 0; txqueue = [] }

-- `x++` and `x - 1` on a uint32.
abbrev pub next : ℕ → ℕ
next x = (x + 1) % 4294967296

abbrev pub prev : ℕ → ℕ
prev x = (x + 4294967295) % 4294967296

abbrev pub state_transition : State → State → Sharder → Sharder
state_transition from to s = if state_eq s.state from then record s { state = to } else s

-- What a call returns: the sharder, the messages handed to the two callbacks, and its result.
pub record Outcome (A : Type 0) : Type 0 where
  pub sharder : Sharder
  pub up : List ReliableMessage
  pub down : List ReliableMessage
  pub result : Result Error A

abbrev pub sent : Bool → Result Error (Unit {0})
sent true = ok tt
sent false = err transmit_failed

abbrev pub nothing_sent : Sharder → Outcome (Unit {0})
nothing_sent s = record { sharder = s; up = []; down = []; result = ok tt }

-- The size of the next fragment.
abbrev pub next_size : List ℕ → ℕ
next_size queue =
    if ltb (length queue) (vanilla_quake_mtu - reliable_header_length)
    then length queue
    else vanilla_quake_mtu - reliable_header_length

-- `sendNext` once it is decided that a fragment goes out.
unfoldable pub send_fragment : (down_ok : Bool) → Sharder → Outcome (Unit {0})
send_fragment down_ok s =
    let rest = drop (next_size s.txqueue) s.txqueue in
    let is_last = state_eq s.state received_eom && ltb (length rest) 1 in
    record {
      sharder = record s {
        txqueue = rest;
        txseq = next s.txseq;
        state = if is_last then sent_eom else s.state;
      };
      up = [];
      down =
          record {
            flags = if is_last then flag_data + flag_eom else flag_data;
            sequence = s.txseq;
            payload = take (next_size s.txqueue) s.txqueue;
          }
          ∷ [];
      result = sent down_ok;
    }

-- `sendNext`
unfoldable pub send_next : (down_ok : Bool) → Sharder → Outcome (Unit {0})
send_next down_ok s =
    if not (s.txack == s.txseq)
    then nothing_sent s
    else if state_eq s.state sent_eom || state_eq s.state eom_acked
    then nothing_sent s
    else if ltb (length s.txqueue) 1
    then nothing_sent s
    else send_fragment down_ok s

-- `sendAck`
unfoldable pub send_ack : (up_ok : Bool) → Sharder → Outcome (Unit {0})
send_ack up_ok s = if s.rxseq == s.rxack then nothing_sent s else record {
  sharder = record s { rxack = s.rxseq };
  up = record { flags = flag_ack; sequence = prev s.rxseq; payload = [] } ∷ [];
  down = [];
  result = sent up_ok;
}

-- One call after another: the second is made only if the first returned no error.
abbrev pub then_call : Outcome (Unit {0}) → (Sharder → Outcome (Unit {0})) → Outcome (Unit {0})
then_call first second = elim first.result [
  | err e ↦ first
  | ok _ ↦
      let o = second first.sharder in
      record o { up = first.up ++ o.up; down = first.down ++ o.down }
]

-- `return true, nil` at the end, or `return false, err`.
abbrev pub handled : Outcome (Unit {0}) → Outcome Bool
handled o = record {
  sharder = o.sharder;
  up = o.up;
  down = o.down;
  result = elim o.result [ err e ↦ err e | ok _ ↦ ok true ];
}

abbrev pub unhandled : Sharder → Outcome Bool
unhandled s = record { sharder = s; up = []; down = []; result = ok false }

-- A data fragment with the expected sequence number is taken into the queue.
unfoldable pub accept_fragment : ReliableMessage → Sharder → Sharder
accept_fragment rm s =
    if rm.sequence == s.rxseq
    then (let s' = state_transition eom_acked receiving s in
        let s'' = record s' { txqueue = s'.txqueue ++ rm.payload; rxseq = next s'.rxseq } in
        (if has_flag rm.flags flag_eom then state_transition receiving received_eom s'' else s''))
    else s

-- The end of receiveFromUpstream: acknowledge unless the message is complete, then send.
unfoldable pub answer_upstream : (up_ok down_ok : Bool) → Sharder → Outcome (Unit {0})
answer_upstream up_ok down_ok s =
    then_call
      (if state_eq s.state receiving || state_eq s.state eom_acked
        then send_ack up_ok s
        else nothing_sent s)
      (send_next down_ok)

-- `receiveFromUpstream`
unfoldable pub receive_from_upstream :
    (up_ok down_ok : Bool) → (spare msg : List ℕ) → Sharder → Outcome Bool
receive_from_upstream up_ok down_ok spare msg s =
    let flags = be16 (msg ++ spare) 0 in
    if ltb (length (msg ++ spare)) 2
    then record { sharder = s; up = []; down = []; result = err slice_out_of_range }
    else if has_flag flags flag_unreliable
    then unhandled s
    else if not (has_flag flags flag_data)
    then unhandled s
    else elim (unmarshal msg) [
      | err e ↦ record { sharder = s; up = []; down = []; result = err e }
      | ok rm ↦ handled (answer_upstream up_ok down_ok (accept_fragment rm s))
    ]

-- An acknowledgement of the expected sequence number.
unfoldable pub accept_ack : (up_ok down_ok : Bool) → ReliableMessage → Sharder → Outcome (Unit {0})
accept_ack up_ok down_ok rm s =
    if rm.sequence == s.txack
    then (let s' = state_transition sent_eom eom_acked (record s { txack = next s.txack }) in
        (if state_eq s'.state eom_acked then send_ack up_ok s' else send_next down_ok s'))
    else nothing_sent s

-- `receiveFromDownstream`
unfoldable pub receive_from_downstream :
    (up_ok down_ok : Bool) → (spare msg : List ℕ) → Sharder → Outcome Bool
receive_from_downstream up_ok down_ok spare msg s =
    let flags = be16 (msg ++ spare) 0 in
    if ltb (length (msg ++ spare)) 2
    then record { sharder = s; up = []; down = []; result = err slice_out_of_range }
    else if has_flag flags flag_unreliable
    then unhandled s
    else if not (has_flag flags flag_ack)
    then unhandled s
    else elim (unmarshal msg) [
      | err e ↦ record { sharder = s; up = []; down = []; result = err e }
      | ok rm ↦ handled (accept_ack up_ok down_ok rm s)
    ]
