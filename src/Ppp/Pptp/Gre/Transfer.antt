-- ===== src/Ppp/Pptp/Gre/Transfer.antt =====
-- Frames from one GRE session to the other end, of ppp/pptp/gre.go.
use mathlib.Core.Path.{subst}
use ipxbox.Common.{
  ℕ, ◌+◌, ◌*◌, ◌%◌, ◌<◌, ◌≤◌, ◌≡◌, refl, sym, ap, ◌∙◌, arith, true, false, List, [], ◌∷◌, some,
  length, All,
}
use ipxbox.Common.Assoc.{find}
use ipxbox.Ppp.Pptp.Gre.{
  GrePacket, GreSession, GreServer, ReadResult, frame, ipv4, gre, SessionKey-discrete, has_bytes,
  recv_packet, read_loop, read, send_packet, update, process_packet, process_gre, enqueue,
}

-- The open session of a server that packets from an address with a call ID go to.
pub record Receives (src_ip call_id id : ℕ) (g : GreServer) : Type 0 where
  pub found :
      find SessionKey-discrete (record { ip = src_ip; call_id = call_id }) g.sessions ≡ some id
  pub opened : (g.objects id).closed ≡ false
  pub waiting : (g.objects id).recv_queue ≡ []

-- The session `id` of a server is read, after a frame was written to another session.
abbrev pub serve :
    (id : ℕ) (s : GreSession) (bytes : List ℕ) → GreServer → GreSession × GreServer × ReadResult
serve id s bytes h =
    let r = read (h.objects id) in
    ((send_packet bytes s).0, record h { objects = update id r.0 h.objects }, r.1)

-- The bytes of a frame are written to a session, the packet arrives at the other server from
-- `src_ip`, and the session `id` there is read.
abbrev pub carry :
    (src_ip id : ℕ)
    → (bytes : List ℕ) → GreSession
    → GreServer
    → GreSession × GreServer × ReadResult
carry src_ip id bytes s g =
    serve id s bytes (process_packet (ipv4 src_ip ∷ gre (send_packet bytes s).1 ∷ []) g).0

abbrev pub carry_all : (src_ip id : ℕ) → List (List ℕ) → GreSession → GreServer → List ReadResult
carry_all src_ip id [] s g = []
carry_all src_ip id (bytes ∷ frames) s g =
    let r = carry src_ip id bytes s g in r.2 ∷ carry_all src_ip id frames r.0 r.1

abbrev pub as_frames : List (List ℕ) → List ReadResult
as_frames [] = []
as_frames (bytes ∷ frames) = frame bytes ∷ as_frames frames

-- The key of a packet is the length of its frame and the call ID.
key_lem : (n c : ℕ) → c < 65536 → ((n * 65536) % 4294967296 + c) % 65536 ≡ c
key_lem n c l = omega (arith, l)

-- The server with a packet in the empty queue of a session.
abbrev holding : (id : ℕ) → GrePacket → GreServer → GreServer
holding id p g = record g {
  objects = update id (record (g.objects id) { closed = false; recv_queue = p ∷ [] }) g.objects;
}

process_packet-holding :
    (src_ip id : ℕ) (bytes : List ℕ) (s : GreSession) (g : GreServer)
    → Receives src_ip s.send_call_id id g
    → s.send_call_id < 65536
    → (process_packet (ipv4 src_ip ∷ gre (send_packet bytes s).1 ∷ []) g).0
      ≡ holding id (send_packet bytes s).1 g
unfolding send_packet process_packet process_gre enqueue
process_packet-holding src_ip id bytes s g r c =
    let k = key_lem (length bytes) s.send_call_id c in
    rw (process_gre, k, r.found, enqueue, r.opened, r.waiting) refl

-- A session after it has read the only packet that waited.
abbrev read_from : GrePacket → GreSession → GreSession
read_from p s = record s { recv_queue = []; recv_seq = p.header.seq }

read-read_from :
    (b : ℕ) (bytes : List ℕ) (s t : GreSession)
    → t.recv_queue ≡ (send_packet (b ∷ bytes) s).1 ∷ []
    → t.recv_seq ≤ s.sent_seq
    → read t ≡ (read_from (send_packet (b ∷ bytes) s).1 t, frame (b ∷ bytes))
unfolding send_packet read read_loop recv_packet
read-read_from b bytes s t e l = ground (arith, e, l)

-- What carrying a frame comes to: it is read, and the two ends are ready for the next one.
pub record Carried (src_ip id : ℕ) (bytes : List ℕ) (s : GreSession)
    (r : GreSession × GreServer × ReadResult) : Type 0 where
  pub arrives : r.2 ≡ frame bytes
  pub same_id : r.0.send_call_id ≡ s.send_call_id
  pub receives : Receives src_ip r.0.send_call_id id r.1
  pub counted : r.0.sent_seq ≡ s.sent_seq + 1
  pub in_step : (r.1.objects id).recv_seq ≤ r.0.sent_seq

carry-Carried :
    (src_ip id : ℕ) (b : ℕ) (bytes : List ℕ) (s : GreSession) (g : GreServer)
    → Receives src_ip s.send_call_id id g
    → s.send_call_id < 65536
    → (g.objects id).recv_seq ≤ s.sent_seq
    → s.sent_seq + 1 < 4294967296
    → Carried src_ip id (b ∷ bytes) s (carry src_ip id (b ∷ bytes) s g)
unfolding send_packet
carry-Carried src_ip id b bytes s g r c l m =
    let p = (send_packet (b ∷ bytes) s).1 in
    let h = holding id p g in
    let e = process_packet-holding src_ip id (b ∷ bytes) s g r c in
    let f = read-read_from b bytes s (h.objects id) (ground arith) (ground (arith, l)) in
    let all : carry src_ip id (b ∷ bytes) s g ≡ (
      (send_packet (b ∷ bytes) s).0,
      record h { objects = update id (read_from p (h.objects id)) h.objects },
      frame (b ∷ bytes),
    ) =
      ap (serve id s (b ∷ bytes)) e
      ∙ ap
          (λ r.
            ((send_packet (b ∷ bytes) s).0, record h { objects = update id r.0 h.objects }, r.1))
          f in
    subst (Carried src_ip id (b ∷ bytes) s) (sym all) (record {
      arrives = refl;
      same_id = refl;
      receives = record { found = r.found; opened = ground arith; waiting = ground arith };
      counted = omega (arith, m);
      in_step = ground (arith, m);
    })

-- The frames that a peer writes, each not empty, are what is read at the other end, in order: if
-- the session there that the peer's packets go to is open, has nothing waiting and is not ahead of
-- the peer, and the peer's sequence numbers do not wrap around within these frames.
pub carry_all-as_frames :
    (src_ip id : ℕ) (frames : List (List ℕ)) (s : GreSession) (g : GreServer)
    → All (λ bytes. has_bytes bytes ≡ true) frames
    → Receives src_ip s.send_call_id id g
    → s.send_call_id < 65536
    → (g.objects id).recv_seq ≤ s.sent_seq
    → s.sent_seq + length frames < 4294967296
    → carry_all src_ip id frames s g ≡ as_frames frames
carry_all-as_frames src_ip id [] s g a r c l m = refl
carry_all-as_frames src_ip id ([] ∷ frames) s g (n, a) r c l m =
    let x : ⊥ = ground (arith, n) in elim x [ ]
carry_all-as_frames src_ip id ((b ∷ bytes) ∷ frames) s g (n, a) r c l m =
    let d = carry-Carried src_ip id b bytes s g r c l (omega (arith, m)) in
    let t = carry src_ip id (b ∷ bytes) s g in
    rw d.arrives (
      ap (◌∷◌ (frame (b ∷ bytes))) (
        carry_all-as_frames src_ip id frames t.0 t.1 a d.receives (omega (arith, d.same_id, c))
          d.in_step (omega (arith, d.counted, m))))
