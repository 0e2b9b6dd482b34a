-- ===== src/Ipxpkt/Examples.antt =====
-- Concrete fragments and frames.
use ipxbox.Common.{
  ℕ, ◌≡◌, ◌≤◌, ◌+◌, ◌/◌, refl, arith, List, [], ◌∷◌, ◌++◌, some, none, ok, length, replicate, All,
}
use ipxbox.Common.Assoc.{find}
use ipxbox.Ipx.{addr_null, addr_broadcast, zero_header_addr}
use ipxbox.Ipxpkt.{Header, marshal, unmarshal}
use ipxbox.Ipxpkt.HeaderFormat.{
  IsValid, fragment_header_unmarshal-marshal, fragment_header_unmarshal-IsValid,
}
use ipxbox.Ipxpkt.Fragment.{join, SizeFits, fragment_frame, fragment_frame_lem}
use ipxbox.Ipxpkt.Reassembly.{FrameKey-discrete, reassemble, max_frames}
use ipxbox.Ipxpkt.Reassembly.Genuine.{Sent, IsGenuine, AllMatch, reassemble-genuine}
use ipxbox.Ipxpkt.Reassembly.Capacity.{reassemble-bounded}
use ipxbox.Ipxpkt.Reassembly.Complete.{header_at, arrive, arrive_lem}
use ipxbox.Ipxpkt.Router.{completed, unwrap_frame, packet_of, packets_of}
use ipxbox.Ipxpkt.Router.Transfer.{router_addr, unwrap_all, unwrap_frame-packet_of, transfer}

abbrev second : Header
second = record { fragment = 2; num_fragments = 3; packet_id = 0x0102 }

fragment_header_unmarshal-marshal_example : unmarshal (marshal second ++ (9 ∷ [])) ≡ ok second
fragment_header_unmarshal-marshal_example =
    fragment_header_unmarshal-marshal second (9 ∷ [])
      (record { at_least_one = omega arith; at_most_count = omega arith }) (omega arith)

fragment_header_unmarshal-IsValid_example :
    IsValid second × (marshal second ++ (9 ∷ []) ≡ 2 ∷ 3 ∷ 2 ∷ 1 ∷ 9 ∷ [])
fragment_header_unmarshal-IsValid_example =
    fragment_header_unmarshal-IsValid (2 ∷ 3 ∷ 2 ∷ 1 ∷ 9 ∷ []) second (omega arith)
      (unfold unmarshal in refl)

abbrev long_frame : List ℕ
long_frame = replicate 600 7

fragment_frame_example :
    (join (fragment_frame long_frame) ≡ long_frame)
    × All SizeFits (fragment_frame long_frame)
    × (length (fragment_frame long_frame) ≡ (length long_frame + 509) / 510)
fragment_frame_example = fragment_frame_lem long_frame

abbrev texts : List (List ℕ)
texts = (1 ∷ []) ∷ (2 ∷ []) ∷ (3 ∷ []) ∷ []

abbrev sent : Sent
sent key = texts

second-IsGenuine : IsGenuine sent zero_header_addr second (2 ∷ [])
second-IsGenuine = record { number = omega arith; count = refl; text = refl }

empty-AllMatch : AllMatch sent []
unfolding find
empty-AllMatch q fd e = cc

reassemble-genuine_example :
    AllMatch sent (reassemble 5 zero_header_addr second (2 ∷ []) []).0
    × ((frame : List ℕ)
        → (reassemble 5 zero_header_addr second (2 ∷ []) []).1 ≡ some frame
        → frame ≡ 1 ∷ 2 ∷ 3 ∷ [])
reassemble-genuine_example =
    reassemble-genuine sent 5 zero_header_addr second (2 ∷ []) [] second-IsGenuine empty-AllMatch

reassemble-bounded_example :
    length (reassemble 5 zero_header_addr second (2 ∷ []) []).0 ≤ max_frames
reassemble-bounded_example = reassemble-bounded 5 zero_header_addr second (2 ∷ []) [] (omega arith)

-- The fragments arrive in the order 2, 0, 1.
arrive_example :
    ((arrive 5 zero_header_addr 8 texts (2 ∷ 0 ∷ 1 ∷ []) []).1
      ≡ none ∷ none ∷ some (1 ∷ 2 ∷ 3 ∷ []) ∷ [])
    × (find FrameKey-discrete
          (record { src = zero_header_addr; packet_id = 8 })
          (arrive 5 zero_header_addr 8 texts (2 ∷ 0 ∷ 1 ∷ []) []).0
        ≡ none)
arrive_example =
    arrive_lem 5 zero_header_addr 8 texts (2 ∷ 0 ∷ 1 ∷ []) [] refl (omega arith)
      (unfold find in refl)

unwrap_frame-packet_of_example :
    unwrap_frame 5 (packet_of addr_null addr_broadcast 8 3 1 (2 ∷ [])) []
    ≡ completed (reassemble 5 (router_addr addr_null) (header_at 8 3 1) (2 ∷ []) [])
unwrap_frame-packet_of_example =
    unwrap_frame-packet_of 5 addr_null addr_broadcast 8 3 1 (2 ∷ []) [] (omega arith) (omega arith)
      (omega arith)

-- A short frame goes in one packet.
transfer_example :
    (unwrap_all 5
      (packets_of addr_null addr_broadcast 8
        (length (fragment_frame (replicate 8 4)))
        0
        (fragment_frame (replicate 8 4)))
      []).1
    ≡ ok (replicate 8 4) ∷ []
unfolding fragment_frame
transfer_example =
    transfer 5 addr_null addr_broadcast 8 (replicate 8 4) [] (omega arith) (omega arith)
      (unfold find in refl)
