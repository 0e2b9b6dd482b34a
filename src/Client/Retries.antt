-- ===== src/Client/Retries.antt =====
-- The loop that client/uplink/client.go and client/dosbox/client.go connect with.
use ipxbox.Common.{
  ℕ, ◌+◌, ◌-◌, ◌<◌, ◌≤◌, ◌≡◌, refl, arith, true, false, not, ◌&&◌, List, [], ◌∷◌, ◌++◌, Option,
  none, some, ltb, if◌then◌else◌, length, All, Bool-cases,
}
use mathlib.Core.Path.{subst}
use ipxbox.Ipx.{Packet}
use ipxbox.Client.{
  max_connect_attempts, Event, timed_out, failed, got, Turn, no_response, answered, one_if, await,
}
use ipxbox.Common.{inl}
use ipxbox.Common.{inr}
use ipxbox.Common.{◌⊎◌}

module _ {A : Type 0} (answer : Packet → Option A) (second : ℕ) where
  -- A read that does not end the loop.
  abbrev pub Ignored : Event → Type 0
  Ignored timed_out = Unit
  Ignored (failed e) = ⊥
  Ignored (got packet) = answer packet ≡ none

  -- At most five messages are sent in all.
  pub await_sends :
      (next_send_time attempts : ℕ) (turns : List Turn)
      → attempts ≤ max_connect_attempts
      → attempts + (await answer second next_send_time attempts turns).sent ≤ max_connect_attempts
  unfolding await
  await_sends next_send_time attempts [] l = omega (arith, l)
  await_sends next_send_time attempts (t ∷ turns) l =
      let d = ltb next_send_time t.now in
      ground (
        arith,
        l,
        await_sends (if d then t.now + second else next_send_time) (attempts + one_if d) turns,
        await_sends (t.now + second) (attempts + 1) turns,
        await_sends next_send_time (attempts + 0) turns,
      )

  -- Reads that do not end the loop do not keep it from the answer, if there are few of them.
  pub await_answered :
      (next_send_time attempts : ℕ) (noise : List Turn) (now : ℕ) (packet : Packet) (a : A)
      (rest : List Turn)
      → All (λ t. Ignored t.event) noise
      → answer packet ≡ some a
      → attempts + length noise < max_connect_attempts
      → (await answer second next_send_time attempts
          (noise ++ (record { now = now; event = got packet } ∷ rest))).outcome
        ≡ answered a rest
  unfolding await
  await_answered next_send_time attempts [] now packet a rest i e l = ground (arith, e, l)
  await_answered next_send_time attempts (t ∷ noise) now packet a rest (i, is) e l =
      let d = ltb next_send_time t.now in
      let tail = noise ++ (record { now = now; event = got packet } ∷ rest) in
      let ih =
        await_answered (if d then t.now + second else next_send_time) (attempts + one_if d) noise
          now packet a rest is e (ground (arith, l)) in
      split t.event refl i ih
    where
      split :
          (v : Event)
          → t.event ≡ v
          → Ignored v
          → (await answer second
              (if ltb next_send_time t.now then t.now + second else next_send_time)
              (attempts + one_if (ltb next_send_time t.now))
              (noise ++ (record { now = now; event = got packet } ∷ rest))).outcome
            ≡ answered a rest
          → (await answer second next_send_time attempts
              ((t ∷ noise) ++ (record { now = now; event = got packet } ∷ rest))).outcome
            ≡ answered a rest
      split timed_out f i h = ground (arith, f, h, l)
      split (failed x) f i h = elim i [ ]
      split (got p) f i h = ground (arith, f, h, l, i)

  -- Reads that time out only, each after the deadline of its own turn has passed.
  abbrev pub Silent : (next_send_time : ℕ) → List Turn → Type 0
  Silent next_send_time [] = Unit
  Silent next_send_time (t ∷ turns) =
      (t.event ≡ timed_out) × (next_send_time < t.now) × Silent (t.now + second) turns

  -- Without an answer the loop gives up in the sixth turn, after five messages.
  pub await_gives_up :
      (next_send_time attempts : ℕ) (turns : List Turn)
      → attempts ≤ max_connect_attempts
      → max_connect_attempts < attempts + length turns
      → Silent next_send_time turns
      → await answer second next_send_time attempts turns
        ≡ record { sent = max_connect_attempts - attempts; outcome = no_response }
  unfolding await
  await_gives_up next_send_time attempts [] l m s = let x : ⊥ = omega (arith, l, m) in elim x [ ]
  await_gives_up next_send_time attempts (t ∷ turns) l m (e, d, s) =
      elim (Bool-cases (ltb attempts max_connect_attempts)) [
        | inl k ↦
            let ih =
              await_gives_up (t.now + second) (attempts + 1) turns (ground (arith, k))
                (omega (arith, m)) s in
            ground (arith, e, d, k, ih)
        | inr k ↦ ground (arith, e, d, k, l)
      ]

  -- The turn that ended the loop with an answer, and what is left after it.
  pub data EndsAt (a : A) (rest : List Turn) : List Turn → Type 0 where
    here :
        (t : Turn) (packet : Packet)
        → t.event ≡ got packet
        → answer packet ≡ some a
        → EndsAt a rest (t ∷ rest)
    there : (t : Turn) (turns : List Turn) → EndsAt a rest turns → EndsAt a rest (t ∷ turns)

  -- An answer is that of a packet that was read.
  pub await-EndsAt :
      (next_send_time attempts : ℕ) (turns : List Turn) (a : A) (rest : List Turn)
      → (await answer second next_send_time attempts turns).outcome ≡ answered a rest
      → EndsAt a rest turns
  unfolding await
  await-EndsAt next_send_time attempts [] a rest e = let x : ⊥ = ground (arith, e) in elim x [ ]
  await-EndsAt next_send_time attempts (t ∷ turns) a rest e =
      split t.event refl
        (Bool-cases (ltb next_send_time t.now && not (ltb attempts max_connect_attempts)))
        (λ f. there t turns (
          await-EndsAt (if ltb next_send_time t.now then t.now + second else next_send_time)
            (attempts + one_if (ltb next_send_time t.now)) turns a rest f))
    where
      split :
          (v : Event)
          → t.event ≡ v
          → ((ltb next_send_time t.now && not (ltb attempts max_connect_attempts)) ≡ true)
            ⊎ ((ltb next_send_time t.now && not (ltb attempts max_connect_attempts)) ≡ false)
          → ((await answer second
                  (if ltb next_send_time t.now then t.now + second else next_send_time)
                  (attempts + one_if (ltb next_send_time t.now))
                  turns).outcome
                ≡ answered a rest
              → EndsAt a rest (t ∷ turns))
          → EndsAt a rest (t ∷ turns)
      split v f (inl d) ih = let x : ⊥ = ground (arith, e, d) in elim x [ ]
      split timed_out f (inr d) ih = ih (ground (arith, e, d, f))
      split (failed n) f (inr d) ih = let x : ⊥ = ground (arith, e, d, f) in elim x [ ]
      split (got packet) f (inr d) ih = answers packet f (answer packet) refl
        where
          answers :
              (packet : Packet)
              → t.event ≡ got packet
              → (o : Option A) → answer packet ≡ o
              → EndsAt a rest (t ∷ turns)
          answers packet f none g = ih (ground (arith, e, d, f, g))
          answers packet f (some b) g =
              let p : b ≡ a = ground (arith, e, d, f, g) in
              let q : turns ≡ rest = ground (arith, e, d, f, g) in
              subst (λ r. EndsAt a r (t ∷ turns)) q
                (here t packet f (subst (λ b. answer packet ≡ some b) p g))
