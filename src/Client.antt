-- ===== src/Client.antt =====
-- client/: the client's side of the protocols over UDP. Both clients connect with the same loop,
-- which sends a message up to five times, a second apart, and reads until an answer comes.
pub mod Retries
pub mod Uplink
pub mod Dosbox
use ipxbox.Common.{
  ℕ, ◌+◌, Bool, true, false, not, ◌&&◌, List, [], ◌∷◌, Option, none, some, ltb, if◌then◌else◌,
}
use ipxbox.Ipx.{Packet}

abbrev pub max_connect_attempts : ℕ
max_connect_attempts = 5

-- What ReadPacket returns: the deadline passed, another error, or a packet.
pub data Event : Type 0 where
  timed_out : Event
  failed : ℕ → Event
  got : Packet → Event

-- A turn of the loop: its `time.Now()`, and what its ReadPacket returns.
pub record Turn : Type 0 where
  pub now : ℕ
  pub event : Event

-- How the loop ends; `waiting` after turns that do not end it.
pub data Outcome {ℓ} (A : Type ℓ) : Type ℓ where
  waiting : Outcome A
  no_response : Outcome A
  read_failed : ℕ → Outcome A
  answered : A → (rest : List Turn) → Outcome A

-- The number of messages that the loop sends, and how it ends.
pub record Attempts {ℓ} (A : Type ℓ) : Type ℓ where
  pub sent : ℕ
  pub outcome : Outcome A

abbrev pub one_if : Bool → ℕ
one_if b = if b then 1 else 0

module _ {ℓ} {A : Type ℓ} (answer : Packet → Option A) (second : ℕ) where
  -- The loop, when `attempts` messages were sent; `answer` says whether a packet ends it.
  unfoldable pub await : (next_send_time attempts : ℕ) → List Turn → Attempts A
  await next_send_time attempts [] = record { sent = 0; outcome = waiting }
  await next_send_time attempts (t ∷ turns) =
      let is_due = ltb next_send_time t.now in
      let more =
        await (if is_due then t.now + second else next_send_time) (attempts + one_if is_due)
          turns in
      let goes_on : Attempts A = record {
        sent = one_if is_due + more.sent;
        outcome = more.outcome;
      } in
      if is_due && not (ltb attempts max_connect_attempts)
      then record { sent = 0; outcome = no_response }
      else elim t.event [
        | timed_out ↦ goes_on
        | failed e ↦ record { sent = one_if is_due; outcome = read_failed e }
        | got packet ↦ elim (answer packet) [
          | none ↦ goes_on
          | some a ↦ record { sent = one_if is_due; outcome = answered a turns }
        ]
      ]
