-- ===== src/Ppp/Pptp/Control/Messages.antt =====
-- The framing of the messages of ppp/pptp/server.go.
use ipxbox.Common.{
  ℕ, zero, suc, ◌+◌, ◌-◌, ◌%◌, ◌/◌, ◌*◌, ◌<◌, ◌≤◌, ◌≡◌, refl, sym, ap, ◌∙◌, arith, Bool, true,
  false, not, List, [], ◌∷◌, ◌++◌, append-nil, All, Option, none, some, ok, if◌then◌else◌, length,
  take, replicate, Bool-cases, le→ltb, lt→ltb,
}
use ipxbox.Ppp.Pptp.Control.Safety.{goes_on, turn, run_turn}
use mathlib.Core.Path.{subst}
use ipxbox.Common.Bytes.{be16, be32, put_be16}
use ipxbox.Ppp.Pptp.Gre.{GreServer}
use ipxbox.Ppp.Pptp.Control.{
  magic_number, Conn, conn_read, filled, check_message, read_body, read_next_message, send_message,
  Connection, handle_message, finish, Outcome, panics, ends, after, run,
}
use ipxbox.Common.{inl}
use ipxbox.Common.{inr}

-- A message of a length that the server takes, with the right type and the magic number.
pub record IsGood (msg : List ℕ) : Type 0 where
  pub long : 14 ≤ length msg
  pub short : length msg ≤ 254
  pub control : be16 msg 0 ≡ 1
  pub magic : be32 msg 2 ≡ magic_number

filled_self : (msg : List ℕ) → filled (length msg) msg ≡ msg
filled_self msg = let e : length msg - length msg ≡ 0 = omega arith in rw e (append-nil msg)

pub be16_put : (n : ℕ) → n < 65536 → (n / 256 % 256) * 256 + n % 256 ≡ n
be16_put n l = omega (arith, l)

check_message_good : (msg : List ℕ) → IsGood msg → check_message msg ≡ ok msg
check_message_good msg w = rw (w.control, w.magic) refl

take_all : (n : ℕ) (msg : List ℕ) → length msg ≤ n → take n msg ≡ msg
take_all zero [] l = refl
take_all (suc n) [] l = refl
take_all zero (b ∷ msg) l = let x : ⊥ = omega (arith, l) in elim x [ ]
take_all (suc n) (b ∷ msg) l = ap (◌∷◌ b) (take_all n msg (omega (arith, l)))

-- A piece that is no longer than the buffer is read as a whole.
conn_read_part :
    (n : ℕ) (piece : List ℕ) (conn : Conn)
    → length piece ≤ n
    → conn_read n (piece ∷ conn) ≡ some (piece, conn)
unfolding conn_read
conn_read_part n piece conn l = rw (take_all n piece l, le→ltb n (length piece) l) refl

read_body_taken :
    (m : ℕ) (bytes : List ℕ) (conn rest : Conn)
    → 16 ≤ m
    → m ≤ 256
    → conn_read (m - 2) conn ≡ some (bytes, rest)
    → read_body m conn ≡ (check_message (filled (m - 2) bytes), rest)
unfolding read_body
read_body_taken m bytes conn rest l h e = rw (read_body, le→ltb m 16 l, le→ltb 256 m h, e) refl

read_body_lem :
    (n : ℕ) (bytes : List ℕ) (conn rest : Conn)
    → 14 ≤ n
    → n ≤ 254
    → conn_read n conn ≡ some (bytes, rest)
    → read_body (n + 2) conn ≡ (check_message (filled n bytes), rest)
read_body_lem n bytes conn rest l h e =
    let s : n + 2 - 2 ≡ n = omega arith in
    read_body_taken (n + 2) bytes conn rest (omega (arith, l)) (omega (arith, h))
      (subst (λ k. conn_read k conn ≡ some (bytes, rest)) (sym s) e)
    ∙ ap (λ k. (check_message (filled k bytes), rest)) s

-- The length of a message and some of it in one piece.
read_next_message_lem :
    (n b : ℕ) (bytes : List ℕ) (conn : Conn)
    → n < 65536
    → read_next_message ((put_be16 n ++ (b ∷ bytes)) ∷ conn) ≡ read_body n ((b ∷ bytes) ∷ conn)
unfolding read_next_message conn_read
read_next_message_lem n b bytes conn l =
    rw (lt→ltb 2 (suc (suc (suc (length bytes)))) (omega arith), be16_put n l) refl

-- A message in one piece, with its length, is read as it was sent.
read_next_message-send_message :
    (msg : List ℕ) (conn : Conn)
    → IsGood msg
    → read_next_message (send_message msg ∷ conn) ≡ (ok msg, conn)
read_next_message-send_message [] conn w =
    let l = w.long in let x : ⊥ = omega (arith, l) in elim x [ ]
read_next_message-send_message (b ∷ bytes) conn w =
    let s = w.short in
    let m : (length (b ∷ bytes) + 2) % 65536 ≡ length (b ∷ bytes) + 2 = omega (arith, s) in
    let r =
      read_body_lem (length (b ∷ bytes)) (b ∷ bytes) ((b ∷ bytes) ∷ conn) conn w.long w.short
        (conn_read_part (length (b ∷ bytes)) (b ∷ bytes) conn (omega arith)) in
    ap (λ n. read_next_message ((put_be16 n ++ (b ∷ bytes)) ∷ conn)) m
    ∙ read_next_message_lem (length (b ∷ bytes) + 2) b bytes conn (omega (arith, s))
    ∙ r
    ∙ ap (λ msg. (check_message msg, conn)) (filled_self (b ∷ bytes))
    ∙ ap (λ m. (m, conn)) (check_message_good (b ∷ bytes) w)

-- A message whose end arrives in a later piece: what arrived of it, which is not nothing, is read
-- with zero bytes for the rest, and the rest is still there to be read as the next message.
pub read_next_message_short :
    (n b : ℕ) (bytes later : List ℕ) (conn : Conn)
    → length (b ∷ bytes) + length later ≡ n
    → 14 ≤ n
    → n ≤ 254
    → read_next_message ((put_be16 (n + 2) ++ (b ∷ bytes)) ∷ later ∷ conn)
      ≡ (check_message ((b ∷ bytes) ++ replicate (length later) 0), later ∷ conn)
read_next_message_short n b bytes later conn e m h =
    let k : length (b ∷ bytes) ≤ n = omega (arith, e) in
    let z : n - length (b ∷ bytes) ≡ length later = omega (arith, e) in
    read_next_message_lem (n + 2) b bytes (later ∷ conn) (omega (arith, h))
    ∙ read_body_lem n (b ∷ bytes) ((b ∷ bytes) ∷ later ∷ conn) (later ∷ conn) m h
        (conn_read_part n (b ∷ bytes) (later ∷ conn) k)
    ∙ ap (λ q. (check_message ((b ∷ bytes) ++ replicate q 0), later ∷ conn)) z

-- Each message in one piece, with its length.
abbrev pub framed : List (List ℕ) → Conn
framed [] = []
framed (msg ∷ msgs) = send_message msg ∷ framed msgs

module _ (node_made : Bool) (remote_ip : ℕ) where
  -- The messages of a connection, one after the other, without their framing.
  abbrev pub dispatch : List (List ℕ) → Connection → GreServer → Outcome
  dispatch [] c g = ends [] (finish node_made remote_ip c g).0 (finish node_made remote_ip c g).1
  dispatch (msg ∷ msgs) c g =
      if not c.connected
      then ends [] (finish node_made remote_ip c g).0 (finish node_made remote_ip c g).1
      else elim (handle_message node_made remote_ip msg c g) [
        | none ↦ panics
        | some r ↦
            let more = dispatch msgs r.1 r.2 in
            if r.3
            then ends r.0 (finish node_made remote_ip r.1 r.2).0
                (finish node_made remote_ip r.1 r.2).1
            else after r.0 more
      ]

  abbrev dispatch_turn :
      List ℕ → List (List ℕ) → Connection → GreServer → (is_closed : Bool) → Outcome
  dispatch_turn msg msgs c g is_closed =
      if is_closed
      then ends [] (finish node_made remote_ip c g).0 (finish node_made remote_ip c g).1
      else elim (handle_message node_made remote_ip msg c g) [
        | none ↦ panics
        | some r ↦
            let more = dispatch msgs r.1 r.2 in
            if r.3
            then ends r.0 (finish node_made remote_ip r.1 r.2).0
                (finish node_made remote_ip r.1 r.2).1
            else after r.0 more
      ]

  -- What the loop does after a message, when the rest of the messages do as they should.
  goes_on-dispatch :
      (fuel : ℕ) (msgs : List (List ℕ)) (o : Option (List (List ℕ) × Connection × GreServer × Bool))
      → ((d : Connection) (h : GreServer)
          → run node_made remote_ip fuel (framed msgs) d h ≡ dispatch msgs d h)
      → goes_on node_made remote_ip fuel (framed msgs) o ≡ elim o [
        | none ↦ panics
        | some r ↦
            let more = dispatch msgs r.1 r.2 in
            if r.3
            then ends r.0
                (finish node_made remote_ip r.1 r.2).0
                (finish node_made remote_ip r.1 r.2).1
            else after r.0 more
      ]
  goes_on-dispatch fuel msgs none ih = refl
  goes_on-dispatch fuel msgs (some (replies, d, h, true)) ih = refl
  goes_on-dispatch fuel msgs (some (replies, d, h, false)) ih = ap (after replies) (ih d h)

  -- A connection that is closed, or that has nothing more to read.
  run_nothing :
      (fuel : ℕ) (conn : Conn) (c : Connection) (g : GreServer)
      → (if c.connected then conn else []) ≡ []
      → run node_made remote_ip (suc fuel) conn c g
        ≡ ends [] (finish node_made remote_ip c g).0 (finish node_made remote_ip c g).1
  unfolding run read_next_message conn_read
  run_nothing fuel conn c g e = ap (λ q. turn node_made remote_ip fuel c g (read_next_message q)) e

  -- A connection on which well-formed messages arrive, each in one piece, does what its messages
  -- ask for, in order, as if there were no framing.
  pub run-dispatch :
      (fuel : ℕ) (msgs : List (List ℕ)) (c : Connection) (g : GreServer)
      → length msgs < fuel
      → All IsGood msgs
      → run node_made remote_ip fuel (framed msgs) c g ≡ dispatch msgs c g
  run-dispatch zero msgs c g l w = let x : ⊥ = omega (arith, l) in elim x [ ]
  run-dispatch (suc fuel) [] c g l w = run_nothing fuel [] c g (ground arith)
  run-dispatch (suc fuel) (msg ∷ msgs) c g l (w, ws) = elim (Bool-cases c.connected) [
    | inl k ↦
        run_turn node_made remote_ip fuel (framed (msg ∷ msgs)) (framed msgs) c g msg (
          ap (λ b. read_next_message (if b then framed (msg ∷ msgs) else [])) k
          ∙ read_next_message-send_message msg (framed msgs) w)
        ∙ goes_on-dispatch fuel msgs (handle_message node_made remote_ip msg c g)
            (λ d h. run-dispatch fuel msgs d h (omega (arith, l)) ws)
        ∙ ap (λ b. dispatch_turn msg msgs c g (not b)) (sym k)
    | inr k ↦
        run_nothing fuel (framed (msg ∷ msgs)) c g (ground (arith, k))
        ∙ ap (λ b. dispatch_turn msg msgs c g (not b)) (sym k)
  ]
