-- ===== src/Network/Doom/Stream/Forward.antt =====
-- addNewTics, ticsToSend and handleGamePacket of network/doom/stream.go.
use ipxbox.Common.{
  ℕ, zero, suc, ◌+◌, ◌-◌, ◌*◌, ◌%◌, ◌<◌, ◌≤◌, ◌≡◌, ◌≢◌, refl, ap, ◌∙◌, arith, Bool, true, not, ◌&&◌,
  List, Option, none, some, ltb, ◌==◌, if◌then◌else◌, dec_lt,
}
use ipxbox.Common.Bytes.{slice}
use ipxbox.Network.Doom.Stream.{Stream, window_size, place, add_tics, tics_loop}
use ipxbox.Network.Doom.Stream.Window.{IsValid, tic_data, Placed, place_lem}

-- `n` tics from number `from` on.
abbrev pub within : (from n q : ℕ) → Bool
within from n q = not (ltb q from) && ltb q (from + n)

-- The commands of a tic in a packet whose first tic is `start`.
abbrev pub tic_commands : (start tic_len : ℕ) → List ℕ → (q : ℕ) → List ℕ
tic_commands start tic_len commands q =
    slice commands (tic_len * (q - start)) (tic_len * (q - start + 1))

-- The window holds what a packet says of `n` of its tics, and what it held before of the others, as
-- far back as it goes now.
pub record Added (start tic_len from n : ℕ) (commands : List ℕ) (s s' : Stream) : Type 0 where
  pub valid : IsValid s'
  pub grown : s.window_head ≤ s'.window_head
  pub covers : (q : ℕ) → within from n q ≡ true → q < s'.window_head
  pub kept : s.window_tail ≤ s'.window_tail
  pub data_lem :
      (q : ℕ)
      → tic_data s' q ≡ (
          if ltb q s'.window_tail
          then none
          else if within from n q
          then some (tic_commands start tic_len commands q)
          else tic_data s q)

add_none :
    (start tic_len from : ℕ) (commands : List ℕ) (s : Stream)
    → IsValid s
    → Added start tic_len from 0 commands s s
add_none start tic_len from commands s v = record {
  valid = v;
  grown = omega arith;
  covers = λ q w. ground (arith, w);
  kept = omega arith;
  data_lem = λ q. ground arith;
}

next_from : (start i : ℕ) → start + i + 1 ≡ start + (i + 1)
next_from start i = omega arith

tic_commands_at :
    (start tic_len i q : ℕ) (commands : List ℕ)
    → q ≡ start + i
    → tic_commands start tic_len commands q ≡ slice commands (tic_len * i) (tic_len * (i + 1))
tic_commands_at start tic_len i q commands e =
    let d : q - start ≡ i = omega (arith, e) in
    ap (λ k. slice commands (tic_len * k) (tic_len * (k + 1))) d

-- Two updates of a window, of one tic and of the `n` after it, are one of `n + 1` tics.
merge :
    (q t1 t2 lo n : ℕ) (x x1 x2 : Option (List ℕ)) (c c' : List ℕ)
    → t1 ≤ t2
    → (q ≡ lo → c ≡ c')
    → x1 ≡ (if ltb q t1 then none else if q == lo then some c' else x)
    → x2 ≡ (if ltb q t2 then none else if within (lo + 1) n q then some c else x1)
    → x2 ≡ (if ltb q t2 then none else if within lo (suc n) q then some c else x)
merge q t1 t2 lo n x x1 x2 c c' l same e1 e2 = ground (arith, l, same, e1, e2)

add_one :
    (start tic_len i n : ℕ) (commands : List ℕ) (s s1 s2 : Stream)
    → Placed (start + i) (slice commands (tic_len * i) (tic_len * (i + 1))) s s1
    → Added start tic_len (start + (i + 1)) n commands s1 s2
    → Added start tic_len (start + i) (suc n) commands s s2
add_one start tic_len i n commands s s1 s2 p a = record {
  valid = a.valid;
  grown = omega (arith, p.grown, a.grown);
  covers = λ q w. ground (arith, w, p.covers, a.grown, a.covers q);
  kept = omega (arith, p.kept, a.kept);
  data_lem = λ q.
      let lo : ℕ = start + i in
      let same : q ≡ lo
          → tic_commands start tic_len commands q
            ≡ slice commands (tic_len * i) (tic_len * (i + 1)) =
        λ e. tic_commands_at start tic_len i q commands e in
      merge q s1.window_tail s2.window_tail lo n (tic_data s q) (tic_data s1 q) (tic_data s2 q)
        (tic_commands start tic_len commands q) (slice commands (tic_len * i) (tic_len * (i + 1)))
        a.kept same (p.data_lem q) (rw (next_from start i) (a.data_lem q));
}

add_tics-place :
    (fuel start tic_len n i : ℕ) (commands : List ℕ) (s s1 : Stream)
    → start + i < 4294967296
    → place fuel (start + i) (slice commands (tic_len * i) (tic_len * (i + 1))) s ≡ some s1
    → add_tics fuel start tic_len (suc n) i commands s
      ≡ add_tics fuel start tic_len n (i + 1) commands s1
unfolding add_tics
add_tics-place fuel start tic_len n i commands s s1 t e =
    let w : (start + i) % 4294967296 ≡ start + i = ground (arith, t) in rw (add_tics, w, e) refl

pub add_tics_lem :
    (fuel start tic_len n i : ℕ) (commands : List ℕ) (s : Stream)
    → IsValid s
    → start + i + n < 4294967296
    → start + i + n ≤ fuel
    → (s' : Stream) × (add_tics fuel start tic_len n i commands s ≡ some s')
      × Added start tic_len (start + i) n commands s s'
unfolding add_tics
add_tics_lem fuel start tic_len zero i commands s v t f =
    (s, refl, add_none start tic_len (start + i) commands s v)
add_tics_lem fuel start tic_len (suc n) i commands s v t f =
    let c : List ℕ = slice commands (tic_len * i) (tic_len * (i + 1)) in
    let p = place_lem fuel (start + i) c s v (omega (arith, t)) (omega (arith, f)) in
    let r =
      add_tics_lem fuel start tic_len n (i + 1) commands p.0 p.2.valid (omega (arith, t))
        (omega (arith, f)) in
    (
      r.0,
      add_tics-place fuel start tic_len n i commands s p.0 (omega (arith, t)) p.1 ∙ r.1,
      add_one start tic_len i n commands s p.0 r.0 p.2 r.2,
    )

tic_data_last :
    (idx : ℕ) (s : Stream) (q : ℕ) (c : List ℕ)
    → s.window_tail < idx
    → idx ≤ s.window_head
    → s.window ((idx - 1) % window_size) ≡ some c
    → q ≡ idx - 1
    → tic_data s q ≢ none
tic_data_last idx s q c t l e p = ground (arith, t, l, e, p)

-- A turn of the loop of ticsToSend.
more_lem :
    (left idx count : ℕ) (s : Stream) (q : ℕ)
    → idx ≤ s.window_head
    → ((tics_loop left (idx - 1) (count + 1) s).0 + (tics_loop left (idx - 1) (count + 1) s).1
        ≡ idx - 1 + (count + 1))
      × ((tics_loop left (idx - 1) (count + 1) s).1 ≤ left + (count + 1))
      × ((tics_loop left (idx - 1) (count + 1) s).0 ≤ q → q < idx - 1 → tic_data s q ≢ none)
    → ((tics_loop (suc left) idx count s).0 + (tics_loop (suc left) idx count s).1 ≡ idx + count)
      × ((tics_loop (suc left) idx count s).1 ≤ suc left + count)
      × ((tics_loop (suc left) idx count s).0 ≤ q → q < idx → tic_data s q ≢ none)
unfolding tics_loop
more_lem left idx count s q l (sum, most, held) = split (s.window ((idx - 1) % window_size)) refl
  where
    split :
        (o : Option (List ℕ))
        → s.window ((idx - 1) % window_size) ≡ o
        → ((tics_loop (suc left) idx count s).0 + (tics_loop (suc left) idx count s).1
            ≡ idx + count)
          × ((tics_loop (suc left) idx count s).1 ≤ suc left + count)
          × ((tics_loop (suc left) idx count s).0 ≤ q → q < idx → tic_data s q ≢ none)
    split none e = (ground (arith, e), ground (arith, e), λ a b n. ground (arith, e, a, b))
    split (some c) e = (
      ground (arith, e, sum),
      ground (arith, e, most),
      λ a b n. elim (dec_lt s.window_tail idx) [
        | yes t ↦ elim (dec_lt q (idx - 1)) [
          | yes r ↦ held (ground (arith, a, e, t)) r n
          | no r ↦ tic_data_last idx s q c t l e (ground (arith, b, r)) n
        ]
        | no t ↦ ground (arith, a, b, t)
      ],
    )

-- The tics that are sent: they end where the loop began, are at most as many as it may add, and the
-- window holds commands for each of them.
pub tics_loop_lem :
    (left idx count : ℕ) (s : Stream) (q : ℕ)
    → idx ≤ s.window_head
    → ((tics_loop left idx count s).0 + (tics_loop left idx count s).1 ≡ idx + count)
      × ((tics_loop left idx count s).1 ≤ left + count)
      × ((tics_loop left idx count s).0 ≤ q → q < idx → tic_data s q ≢ none)
unfolding tics_loop
tics_loop_lem zero idx count s q l = ground arith
tics_loop_lem (suc left) idx count s q l =
    more_lem left idx count s q l (tics_loop_lem left (idx - 1) (count + 1) s q (omega (arith, l)))
