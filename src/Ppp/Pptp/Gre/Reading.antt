-- ===== src/Ppp/Pptp/Gre/Reading.antt =====
-- What greSession.Read of ppp/pptp/gre.go hands up.
use ipxbox.Common.{
  ℕ, zero, suc, ◌<◌, ◌≡◌, refl, sym, ap, ◌∙◌, arith, true, false, ◌&&◌, List, [], ◌∷◌, Option, none,
  some, ltb, if◌then◌else◌, length, Bool-cases, ◌⊎◌, inl, inr,
}
use ipxbox.Ppp.Pptp.Gre.{
  GrePacket, GreSession, has_bytes, recv_packet, ReadResult, frame, eof, blocked, read_loop, read,
}

abbrev pub larger : ℕ → ℕ → ℕ
larger a b = if ltb a b then b else a

-- The highest sequence number of a list of packets and of a number before them.
abbrev pub highest : ℕ → List GrePacket → ℕ
highest top [] = top
highest top (p ∷ ps) = highest (if p.header.seq_present then larger top p.header.seq else top) ps

-- The payloads that are in sequence: of the packets that carry bytes and whose sequence number, if
-- any, is not below the number of any packet before them.
abbrev pub in_sequence : ℕ → List GrePacket → List (List ℕ)
in_sequence top [] = []
in_sequence top (p ∷ ps) =
    let rest = in_sequence (if p.header.seq_present then larger top p.header.seq else top) ps in
    if p.header.seq_present && ltb p.header.seq top
    then rest
    else if has_bytes p.payload
    then p.payload ∷ rest
    else rest

-- What one Read does to a queue.
pub data ReadSpec (q : List GrePacket) (s : GreSession) (r : GreSession × ReadResult) : Type 0 where
  read_frame :
      (bytes : List ℕ)
      → r.1 ≡ frame bytes
      → in_sequence s.recv_seq q ≡ bytes ∷ in_sequence r.0.recv_seq r.0.recv_queue
      → length r.0.recv_queue < length q
      → highest s.recv_seq q ≡ highest r.0.recv_seq r.0.recv_queue
      → r.0.closed ≡ s.closed
      → ReadSpec q s r
  read_none :
      r.1 ≡ (if s.closed then eof else blocked)
      → in_sequence s.recv_seq q ≡ []
      → r.0.recv_queue ≡ []
      → highest s.recv_seq q ≡ r.0.recv_seq
      → r.0.closed ≡ s.closed
      → ReadSpec q s r

-- A packet that hands nothing up is passed over.
skip :
    (p : GrePacket) (q : List GrePacket) (s s' : GreSession) (r : GreSession × ReadResult)
    → in_sequence s.recv_seq (p ∷ q) ≡ in_sequence s'.recv_seq q
    → highest s.recv_seq (p ∷ q) ≡ highest s'.recv_seq q
    → s'.closed ≡ s.closed
    → ReadSpec q s' r
    → ReadSpec (p ∷ q) s r
skip p q s s' r e h c (read_frame bytes f i l g d) =
    read_frame bytes f (e ∙ i) (omega (arith, l)) (h ∙ g) (d ∙ c)
skip p q s s' r e h c (read_none f i m g d) =
    read_none (f ∙ ap (λ b. if b then eof else blocked) c) (e ∙ i) m (h ∙ g) (d ∙ c)

-- The session after a packet that is not out of sequence.
abbrev pub taken : GrePacket → GreSession → GreSession
taken p s = if p.header.seq_present then record s { recv_seq = p.header.seq } else s

taken_lem :
    (p : GrePacket) (q : List GrePacket) (s : GreSession)
    → (p.header.seq_present && ltb p.header.seq s.recv_seq) ≡ false
    → (recv_packet p s ≡ (taken p s, some p.payload))
      × ((taken p s).recv_seq
          ≡ (if p.header.seq_present then larger s.recv_seq p.header.seq else s.recv_seq))
      × ((taken p s).closed ≡ s.closed)
unfolding recv_packet
taken_lem p q s f = ground (arith, f)

dropped_lem :
    (p : GrePacket) (s : GreSession)
    → (p.header.seq_present && ltb p.header.seq s.recv_seq) ≡ true
    → (recv_packet p s ≡ (s, none))
      × (s.recv_seq ≡ (if p.header.seq_present then larger s.recv_seq p.header.seq else s.recv_seq))
unfolding recv_packet
dropped_lem p s f = ground (arith, f)

-- A turn of the loop after recvPacket.
abbrev turn : List GrePacket → GreSession × Option (List ℕ) → GreSession × ReadResult
turn q r = elim r.1 [
  | none ↦ read_loop q r.0
  | some bytes ↦
      if has_bytes bytes then (record r.0 { recv_queue = q }, frame bytes) else read_loop q r.0
]

read_loop-turn :
    (p : GrePacket) (q : List GrePacket) (s : GreSession) (r : GreSession × Option (List ℕ))
    → recv_packet p s ≡ r
    → read_loop (p ∷ q) s ≡ turn q r
unfolding read_loop
read_loop-turn p q s r e = ap (turn q) e

read_loop-ReadSpec : (q : List GrePacket) (s : GreSession) → ReadSpec q s (read_loop q s)
unfolding read_loop
read_loop-ReadSpec [] s = read_none refl refl refl refl refl
read_loop-ReadSpec (p ∷ q) s =
    split (read_loop-ReadSpec q s) (read_loop-ReadSpec q (taken p s))
      (Bool-cases (p.header.seq_present && ltb p.header.seq s.recv_seq)) p.payload refl
  where
    split :
        ReadSpec q s (read_loop q s)
        → ReadSpec q (taken p s) (read_loop q (taken p s))
        → ((p.header.seq_present && ltb p.header.seq s.recv_seq) ≡ true)
          ⊎ ((p.header.seq_present && ltb p.header.seq s.recv_seq) ≡ false)
        → (bytes : List ℕ) → p.payload ≡ bytes
        → ReadSpec (p ∷ q) s (read_loop (p ∷ q) s)
    split old new (inl d) bytes e =
        let l = dropped_lem p s d in
        rw (read_loop-turn p q s (s, none) l.0)
          (skip p q s s (read_loop q s) (ground (arith, d, l.1)) (ground (arith, l.1)) refl old)
    split old new (inr k) [] e =
        let l = taken_lem p q s k in
        rw (read_loop-turn p q s (taken p s, some []) (l.0 ∙ ap (λ x. (taken p s, some x)) e)) (
          skip p q s (taken p s) (read_loop q (taken p s)) (ground (arith, k, l.1, e))
            (ground (arith, l.1)) l.2 new)
    split old new (inr k) (b ∷ bytes) e =
        let l = taken_lem p q s k in
        rw
          (read_loop-turn p q s (taken p s, some (b ∷ bytes))
            (l.0 ∙ ap (λ x. (taken p s, some x)) e))
          (read_frame (b ∷ bytes) refl (ground (arith, k, l.1, e)) (omega arith)
            (ground (arith, l.1)) l.2)

-- One Read after the other, `n` at most, up to one that hands nothing up.
unfoldable pub reads : ℕ → GreSession → GreSession × List (List ℕ)
reads zero s = (s, [])
reads (suc n) s =
    let r = read s in
    let more = reads n r.0 in
    elim r.1 [ frame bytes ↦ (more.0, bytes ∷ more.1) | eof ↦ (r.0, []) | blocked ↦ (r.0, []) ]

abbrev after_read : (n : ℕ) → GreSession × ReadResult → GreSession × List (List ℕ)
after_read n r = elim r.1 [
  | frame bytes ↦ ((reads n r.0).0, bytes ∷ (reads n r.0).1)
  | eof ↦ (r.0, [])
  | blocked ↦ (r.0, [])
]

-- What the reads of a queue come to.
pub record Drained (s : GreSession) (r : GreSession × List (List ℕ)) : Type 0 where
  pub frames : r.1 ≡ in_sequence s.recv_seq s.recv_queue
  pub emptied : r.0.recv_queue ≡ []
  pub recorded : r.0.recv_seq ≡ highest s.recv_seq s.recv_queue

after_read-Drained :
    (n : ℕ) (s : GreSession) (r : GreSession × ReadResult)
    → ((s' : GreSession) → length s'.recv_queue < n → Drained s' (reads n s'))
    → length s.recv_queue < suc n
    → ReadSpec s.recv_queue s r
    → Drained s (after_read n r)
after_read-Drained n s r ih l (read_frame bytes f i k g c) =
    let d = ih r.0 (omega (arith, k, l)) in
    record {
      frames = rw f (ap (◌∷◌ bytes) d.frames ∙ sym i);
      emptied = rw f d.emptied;
      recorded = rw f (d.recorded ∙ sym g);
    }
after_read-Drained n s r ih l (read_none f i m g c) = elim (Bool-cases s.closed) [
  | inl t ↦
      let e : r.1 ≡ eof = f ∙ ap (λ b. if b then eof else blocked) t in
      record { frames = rw e (sym i); emptied = rw e m; recorded = rw e (sym g) }
  | inr t ↦
      let e : r.1 ≡ blocked = f ∙ ap (λ b. if b then eof else blocked) t in
      record { frames = rw e (sym i); emptied = rw e m; recorded = rw e (sym g) }
]

-- However many reads are made, if at least one for each packet that waits in the queue: together
-- they hand up the payloads of the packets that carry bytes and whose sequence number is not below
-- that of any packet before them, in order; the queue is empty then, and the highest sequence
-- number is on record.
pub reads-Drained : (n : ℕ) (s : GreSession) → length s.recv_queue < n → Drained s (reads n s)
unfolding reads read
reads-Drained zero s l = let x : ⊥ = omega (arith, l) in elim x [ ]
reads-Drained (suc n) s l =
    after_read-Drained n s (read s) (λ s' k. reads-Drained n s' k) l
      (read_loop-ReadSpec s.recv_queue s)
