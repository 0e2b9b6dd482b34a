-- ===== src/Network/Doom/Stream/Window.antt =====
-- The window of network/doom/stream.go as a map from tic numbers to commands.
use ipxbox.Common.{
  ℕ, zero, suc, ◌+◌, ◌-◌, ◌%◌, ◌<◌, ◌≤◌, ◌≡◌, refl, arith, Bool, true, false, List, Option, none,
  some, ltb, ◌==◌, if◌then◌else◌, Bool-cases, inl, inr, dec_lt, ◌∙◌, ap,
}
use ipxbox.Network.Doom.Stream.{Stream, window_size, advance_one, advance, store, place}

-- The window's bounds are at most 32 tics apart and in order.
pub record IsValid (s : Stream) : Type 0 where
  pub in_order : s.window_tail ≤ s.window_head
  pub at_most : s.window_head ≤ s.window_tail + window_size
  pub head_fits : s.window_head < 4294967296

-- What the window holds for a tic: nothing outside its bounds.
abbrev pub tic_data : Stream → ℕ → Option (List ℕ)
tic_data s tic =
    if ltb tic s.window_tail
    then none
    else if ltb tic s.window_head
    then s.window (tic % window_size)
    else none

abbrev pub larger : ℕ → ℕ → ℕ
larger a b = if ltb a b then b else a

-- The window has moved forward so that it holds a tic, and lost only what fell out at the end.
pub record Moved (tic : ℕ) (s s' : Stream) : Type 0 where
  pub valid : IsValid s'
  pub head_lem : s'.window_head ≡ larger s.window_head (tic + 1)
  pub tail_lem :
      s'.window_tail ≡ larger s.window_tail (larger s.window_head (tic + 1) - window_size)
  pub data_lem : (q : ℕ) → tic_data s' q ≡ (if ltb q s'.window_tail then none else tic_data s q)

advance_one-IsValid :
    (s : Stream) → IsValid s → s.window_head + 1 < 4294967296 → IsValid (advance_one s)
unfolding advance_one
advance_one-IsValid s v l = record {
  in_order = ground (arith, v.in_order, v.at_most, l);
  at_most = ground (arith, v.in_order, v.at_most, l);
  head_fits = ground (arith, l);
}

advance_one_lem :
    (s : Stream) (q : ℕ)
    → IsValid s
    → s.window_head + 1 < 4294967296
    → ((advance_one s).window_head ≡ s.window_head + 1)
      × ((advance_one s).window_tail ≡ larger s.window_tail (s.window_head + 1 - window_size))
      × (tic_data (advance_one s) q
          ≡ (if ltb q (advance_one s).window_tail then none else tic_data s q))
unfolding advance_one
advance_one_lem s q v l = ground (arith, v.in_order, v.at_most, l)

stay : (tic : ℕ) (s : Stream) → IsValid s → tic < s.window_head → Moved tic s s
stay tic s v l = record {
  valid = v;
  head_lem = ground (arith, l);
  tail_lem = ground (arith, l, v.at_most);
  data_lem = λ q. ground arith;
}

if_twice :
    (q a b : ℕ) (d : Option (List ℕ))
    → a ≤ b
    → (if ltb q b then none else if ltb q a then none else d) ≡ (if ltb q b then none else d)
if_twice q a b d l = ground (arith, l)

move_one :
    (tic : ℕ) (s s' : Stream)
    → IsValid s
    → tic + 1 < 4294967296
    → s.window_head ≤ tic
    → Moved tic (advance_one s) s'
    → Moved tic s s'
move_one tic s s' v t h m = record {
  valid = m.valid;
  head_lem = ground (arith, t, h, m.head_lem, (advance_one_lem s 0 v (omega (arith, t, h))).0);
  tail_lem = ground (
    arith,
    t,
    h,
    v.at_most,
    m.tail_lem,
    (advance_one_lem s 0 v (omega (arith, t, h))).0,
    (advance_one_lem s 0 v (omega (arith, t, h))).1,
  );
  data_lem = λ q.
      let a = advance_one_lem s q v (omega (arith, t, h)) in
      let e : tic_data s' q ≡ (
          if ltb q s'.window_tail
          then none
          else if ltb q (advance_one s).window_tail
          then none
          else tic_data s q) =
        rw (← a.2) (m.data_lem q) in
      let b : (advance_one s).window_tail ≤ s'.window_tail = ground (arith, m.tail_lem) in
      e ∙ if_twice q (advance_one s).window_tail s'.window_tail (tic_data s q) b;
}

-- Enough fuel moves the window forward to a tic below 2 ^ 32 - 1.
advance_lem :
    (fuel tic : ℕ) (s : Stream)
    → IsValid s
    → tic + 1 < 4294967296
    → tic + 1 ≤ s.window_head + fuel
    → (s' : Stream) × (advance fuel tic s ≡ some s') × Moved tic s s'
unfolding advance
advance_lem zero tic s v t f =
    let l : tic < s.window_head = omega (arith, f) in (s, ground (arith, l), stay tic s v l)
advance_lem (suc fuel) tic s v t f = elim (dec_lt tic s.window_head) [
  | yes l ↦ (s, ground (arith, l), stay tic s v l)
  | no n ↦
      let h : s.window_head ≤ tic = ground (arith, n) in
      let a = advance_one_lem s 0 v (omega (arith, t, h)) in
      let w = advance_one-IsValid s v (omega (arith, t, h)) in
      let r = advance_lem fuel tic (advance_one s) w t (ground (arith, f, a.0)) in
      (r.0, ground (arith, n, r.1), move_one tic s r.0 v t h r.2)
]

-- The window holds the commands of a tic; the other tics that it holds are as before.
pub record Placed (tic : ℕ) (commands : List ℕ) (s s' : Stream) : Type 0 where
  pub valid : IsValid s'
  pub grown : s.window_head ≤ s'.window_head
  pub covers : tic < s'.window_head
  pub kept : s.window_tail ≤ s'.window_tail
  pub data_lem :
      (q : ℕ)
      → tic_data s' q
        ≡ (if ltb q s'.window_tail then none else if q == tic then some commands else tic_data s q)

-- Two tics of the window have slots of their own.
tic_data-store :
    (tic q : ℕ) (commands : List ℕ) (s : Stream)
    → IsValid s
    → s.window_tail ≤ tic
    → tic < s.window_head
    → tic_data (store tic commands s) q
      ≡ (if ltb q s.window_tail then none else if q == tic then some commands else tic_data s q)
tic_data-store tic q commands s v t h = elim (Bool-cases (q == tic)) [
  | inl e ↦ ground (arith, e, t, h)
  | inr e ↦
      let far : ¬ (q ≡ tic) = ground (arith, e) in
      let slots : s.window_tail ≤ q → q < s.window_head → ¬ (q % 32 ≡ tic % 32) =
        λ l r. ground (arith, far, l, r, t, h, v.at_most) in
      ground (arith, e, t, h, slots)
]

else_twice :
    (b b' : Bool) (x y z : Option (List ℕ))
    → y ≡ (if b then none else z)
    → (if b then none else if b' then x else y) ≡ (if b then none else if b' then x else z)
else_twice true b' x y z e = refl
else_twice false b' x y z e = ap (λ w. if b' then x else w) e

store-Placed :
    (tic : ℕ) (commands : List ℕ) (s s' : Stream)
    → IsValid s
    → s.window_tail ≤ tic
    → Moved tic s s'
    → Placed tic commands s (store tic commands s')
store-Placed tic commands s s' w t m = record {
  valid = record {
    in_order = m.valid.in_order;
    at_most = m.valid.at_most;
    head_fits = m.valid.head_fits;
  };
  grown = ground (arith, m.head_lem);
  covers = ground (arith, m.head_lem);
  kept = ground (arith, m.tail_lem);
  data_lem = λ q.
      let c : tic < s'.window_head = ground (arith, m.head_lem) in
      let b : s'.window_tail ≤ tic =
        ground (arith, t, m.tail_lem, m.valid.at_most, m.head_lem, w.at_most) in
      tic_data-store tic q commands s' m.valid b c
      ∙ else_twice (ltb q s'.window_tail) (q == tic) (some commands) (tic_data s' q) (tic_data s q)
          (m.data_lem q);
}

skip-Placed :
    (tic : ℕ) (commands : List ℕ) (s : Stream)
    → IsValid s
    → tic < s.window_tail
    → Placed tic commands s s
skip-Placed tic commands s v l = record {
  valid = v;
  grown = omega arith;
  covers = ground (arith, l, v.in_order);
  kept = omega arith;
  data_lem = λ q. ground (arith, l);
}

-- With enough fuel, a tic is placed in the window, unless it is too old for it.
pub place_lem :
    (fuel tic : ℕ) (commands : List ℕ) (s : Stream)
    → IsValid s
    → tic + 1 < 4294967296
    → tic + 1 ≤ s.window_head + fuel
    → (s' : Stream) × (place fuel tic commands s ≡ some s') × Placed tic commands s s'
unfolding place
place_lem fuel tic commands s v t f = elim (dec_lt tic s.window_tail) [
  | yes l ↦ (s, ground (arith, l), skip-Placed tic commands s v l)
  | no n ↦
      let l : s.window_tail ≤ tic = ground (arith, n) in
      let a = advance_lem fuel tic s v t f in
      (store tic commands a.0, ground (arith, l, a.1), store-Placed tic commands s a.0 v l a.2)
]
