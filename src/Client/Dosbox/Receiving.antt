-- ===== src/Client/Dosbox/Receiving.antt =====
-- recvLoop of client/dosbox/client.go.
use ipxbox.Common.{
  ◌+◌, ◌<◌, ◌≤◌, ◌≡◌, refl, sym, ◌∙◌, arith, false, List, [], ◌∷◌, ◌++◌, append-nil, append_assoc,
  Option, none, some, if◌then◌else◌, length, length-append, Bool-cases,
}
use ipxbox.Ipx.{Addr, Packet}
use ipxbox.Network.Pipe.{Pipe, max_buffered_packets}
use ipxbox.Network.Pipe
use ipxbox.Client.Dosbox.{ping_reply, is_ping, Connection, send_ping_reply, recv_loop}
use ipxbox.Common.{inl}
use ipxbox.Common.{inr}
use ipxbox.Common.{suc}

-- The packets that are no pings, and the replies to the others.
abbrev pub passed_on : List (Option Packet) → List Packet
passed_on [] = []
passed_on (none ∷ reads) = passed_on reads
passed_on (some packet ∷ reads) =
    let more = passed_on reads in if is_ping packet.header then more else packet ∷ more

abbrev pub replies : (own : Addr) → List (Option Packet) → List Packet
replies own [] = []
replies own (none ∷ reads) = replies own reads
replies own (some packet ∷ reads) =
    let more = replies own reads in
    if is_ping packet.header then ping_reply own packet.header.src.addr ∷ more else more

write_room :
    (packet : Packet) (p : Pipe)
    → p.closed ≡ false
    → length p.ch < max_buffered_packets
    → Pipe.write packet p ≡ (record p { ch = p.ch ++ (packet ∷ []) }, none)
unfolding Pipe.write
write_room packet p o l = ground (arith, o, l)

-- Each ping, and nothing else, is answered, to the address that it came from, in the order of
-- their arrival, whatever the state of the pipe.
pub recv_loop-replies :
    (reads : List (Option Packet)) (c : Connection)
    → ((recv_loop reads c).written ≡ c.written ++ replies c.addr reads)
      × ((recv_loop reads c).addr ≡ c.addr)
unfolding recv_loop send_ping_reply
recv_loop-replies [] c = (sym (append-nil c.written), refl)
recv_loop-replies (none ∷ reads) c = recv_loop-replies reads c
recv_loop-replies (some packet ∷ reads) c =
    let ping = recv_loop-replies reads (send_ping_reply packet.header.src.addr c) in
    let other = recv_loop-replies reads (record c { rxpipe = (Pipe.write packet c.rxpipe).0 }) in
    elim (Bool-cases (is_ping packet.header)) [
      | inl p ↦
          rw (recv_loop, p)
            (
              ping.0
                  ∙ append_assoc c.written (ping_reply c.addr packet.header.src.addr ∷ [])
                      (replies c.addr reads),
              ping.1,
            )
      | inr p ↦ rw (recv_loop, p) other
    ]

-- The packets that are no pings come into the pipe in the order of their arrival, if it is open
-- and has room for all of them.
pub recv_loop-passed_on :
    (reads : List (Option Packet)) (c : Connection)
    → c.rxpipe.closed ≡ false
    → length c.rxpipe.ch + length (passed_on reads) ≤ max_buffered_packets
    → (recv_loop reads c).rxpipe.ch ≡ c.rxpipe.ch ++ passed_on reads
unfolding recv_loop send_ping_reply
recv_loop-passed_on [] c o l = sym (append-nil c.rxpipe.ch)
recv_loop-passed_on (none ∷ reads) c o l = recv_loop-passed_on reads c o l
recv_loop-passed_on (some packet ∷ reads) c o l = elim (Bool-cases (is_ping packet.header)) [
  | inl p ↦
      rw (recv_loop, p)
        (recv_loop-passed_on reads (send_ping_reply packet.header.src.addr c) o
          (ground (arith, l, p)))
  | inr p ↦
      let room : length c.rxpipe.ch + suc (length (passed_on reads)) ≤ max_buffered_packets =
        ground (arith, l, p) in
      let w = write_room packet c.rxpipe o (omega (arith, room)) in
      let more = length-append c.rxpipe.ch (packet ∷ []) in
      rw (recv_loop, p, w)
        (recv_loop-passed_on reads
            (record c { rxpipe = record c.rxpipe { ch = c.rxpipe.ch ++ (packet ∷ []) } }) o
            (omega (arith, room, more))
          ∙ append_assoc c.rxpipe.ch (packet ∷ []) (passed_on reads))
]
