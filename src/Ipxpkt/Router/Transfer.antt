-- ===== src/Ipxpkt/Router/Transfer.antt =====
-- A frame from one router of module/ipxpkt/router.go to another.
use ipxbox.Common.{
  ℕ, suc, ◌+◌, ◌%◌, ◌<◌, ◌≤◌, ◌≡◌, ◌≢◌, refl, ap, ◌∙◌, arith, List, [], ◌∷◌, Option, none, some,
  Result, ok, err, length, All,
}
use ipxbox.Common.Assoc.{find}
use native.Mathlib.Nat.{add-zero, zero-add}
use ipxbox.Ipx.{Addr, HeaderAddr, Packet, zero_network}
use ipxbox.Ipxpkt
use ipxbox.Ipxpkt.{Header}
use ipxbox.Ipxpkt.HeaderFormat.{fragment_header_unmarshal-marshal}
use ipxbox.Ipxpkt.Fragment.{fragment_frame, fragment_frame_lem}
use ipxbox.Ipxpkt.Reassembly.{Frames, reassemble, FrameKey-discrete as key_dec}
use ipxbox.Ipxpkt.Reassembly.Complete.{
  header_at, frame_key, arrive, arrive_lem, last_only, IsArrival,
}
use ipxbox.Ipxpkt.Router.{
  Error, incomplete, completed, unwrap_frame, packet_of, packets_of, ipx_socket,
}
use ipxbox.Ipxpkt.Reassembly.Complete.{text_at}
use ipxbox.Common.{map}
use ipxbox.Common.{sym}

-- The address of a router on the network.
abbrev pub router_addr : Addr → HeaderAddr
router_addr a = record { network = zero_network; addr = a; socket = ipx_socket }

-- A packet that a router makes of a fragment is taken apart by the router that receives it into
-- that fragment, with the number and the count under which it was sent, for at most 255 fragments.
pub unwrap_frame-packet_of :
    (now : ℕ) (src dest : Addr) (packet_id count index : ℕ) (frag : List ℕ) (frames : Frames)
    → packet_id < 65536
    → index < count
    → count < 256
    → unwrap_frame now (packet_of src dest packet_id count index frag) frames
      ≡ completed (reassemble now (router_addr src) (header_at packet_id count index) frag frames)
unfolding unwrap_frame packet_of Ipxpkt.marshal
unwrap_frame-packet_of now src dest packet_id count index frag frames p i c =
    let e : (index + 1) % 256 ≡ index + 1 = omega arith in
    let e' : count % 256 ≡ count = omega arith in
    let hdr = header_at packet_id count index in
    ground (
      arith,
      e,
      e',
      fragment_header_unmarshal-marshal hdr frag
          (record { at_least_one = omega arith; at_most_count = omega arith }) p,
    )

-- What a router returns for packets that it reads one after the other.
unfoldable pub unwrap_all : (now : ℕ) → List Packet → Frames → Frames × List (Result Error (List ℕ))
unwrap_all now [] frames = (frames, [])
unwrap_all now (packet ∷ packets) frames =
    let (frames', r) = unwrap_frame now packet frames in
    let (frames'', rs) = unwrap_all now packets frames' in (frames'', r ∷ rs)

abbrev from : ℕ → List (List ℕ) → List ℕ
from k [] = []
from k (f ∷ fs) = k ∷ from (k + 1) fs

abbrev result_of : Option (List ℕ) → Result Error (List ℕ)
result_of none = err incomplete
result_of (some frame) = ok frame

from-ne : (i k : ℕ) (fs : List (List ℕ)) → i < k → All (λ j. i ≢ j) (from k fs)
from-ne i k [] h = tt
from-ne i k (f ∷ fs) h = (omega arith, from-ne i (k + 1) fs (omega arith))

from-IsArrival : (n k : ℕ) (fs : List (List ℕ)) → k + length fs ≤ n → IsArrival n (from k fs)
from-IsArrival n k [] h = tt
from-IsArrival n k (f ∷ fs) h =
    (omega arith, from-ne k (k + 1) fs (omega arith), from-IsArrival n (k + 1) fs (omega arith))

length-from : (k : ℕ) (fs : List (List ℕ)) → length (from k fs) ≡ length fs
length-from k [] = refl
length-from k (f ∷ fs) = ap suc (length-from (k + 1) fs)

completed-result_of : (p : Frames × Option (List ℕ)) → completed p ≡ (p.0, result_of p.1)
completed-result_of (frames, none) = refl
completed-result_of (frames, some frame) = refl

arrive-cons :
    (now : ℕ) (src : HeaderAddr) (packet_id : ℕ) (fs : List (List ℕ)) (k : ℕ) (is : List ℕ)
    (frames : Frames) {f : List ℕ}
    → text_at fs k ≡ f
    → arrive now src packet_id fs (k ∷ is) frames ≡ (
      (arrive now src packet_id fs is
          (reassemble now src (header_at packet_id (length fs) k) f frames).0).0,
      (reassemble now src (header_at packet_id (length fs) k) f frames).1
          ∷ (arrive now src packet_id fs is
              (reassemble now src (header_at packet_id (length fs) k) f frames).0).1,
    )
arrive-cons now src packet_id fs k is frames e = rw (← e) (unfold arrive in refl)

-- Unwrapping the packets of the last fragments is letting these fragments arrive.
unwrap_all-arrive :
    (now : ℕ) (src dest : Addr) (packet_id k : ℕ) (fs tail : List (List ℕ)) (frames : Frames)
    → packet_id < 65536
    → length fs < 256
    → k + length tail ≡ length fs
    → ((j : ℕ) → text_at fs (k + j) ≡ text_at tail j)
    → unwrap_all now (packets_of src dest packet_id (length fs) k tail) frames ≡ (
      (arrive now (router_addr src) packet_id fs (from k tail) frames).0,
      map result_of (arrive now (router_addr src) packet_id fs (from k tail) frames).1,
    )
unfolding unwrap_all packets_of
unwrap_all-arrive now src dest packet_id k fs [] frames p c l t = unfold arrive in refl
unwrap_all-arrive now src dest packet_id k fs (f ∷ tail) frames p c l t =
    let here : text_at fs k ≡ f = ap (text_at fs) (sym (add-zero k)) ∙ t 0 in
    let step = reassemble now (router_addr src) (header_at packet_id (length fs) k) f frames in
    rw
      (
        arrive-cons now (router_addr src) packet_id fs k (from (k + 1) tail) frames here,
        unwrap_frame-packet_of now src dest packet_id (length fs) k f frames p (omega arith) c,
        completed-result_of step,
        unwrap_all-arrive now src dest packet_id (k + 1) fs tail step.0 p c (omega arith)
            (λ j. ap (text_at fs) (omega arith) ∙ t (suc j)),
      )
      refl

-- A frame of at most 255 fragments that one router cuts into packets is what another router returns
-- when it has read these packets in order, and nothing before the last; it needs to store no
-- fragment under that sender and packet number at the start.
pub transfer :
    (now : ℕ) (src dest : Addr) (packet_id : ℕ) (frame : List ℕ) (frames : Frames)
    → packet_id < 65536
    → length frame ≤ 130050
    → find key_dec (frame_key (router_addr src) packet_id) frames ≡ none
    → (unwrap_all now
        (packets_of src dest packet_id (length (fragment_frame frame)) 0 (fragment_frame frame))
        frames).1
      ≡ map result_of (last_only frame (from 0 (fragment_frame frame)))
transfer now src dest packet_id frame frames p h e =
    let fs = fragment_frame frame in
    let (joined, _, count) = fragment_frame_lem frame in
    let is = from 0 fs in
    let (arrived, _) =
      arrive_lem now (router_addr src) packet_id fs is frames (length-from 0 fs)
        (from-IsArrival (length fs) 0 fs (omega arith)) e in
    rw
      (unwrap_all-arrive now src dest packet_id 0 fs fs frames p (omega arith) (omega arith)
        (λ j. ap (text_at fs) (zero-add j)))
      (ap (map result_of) (arrived ∙ ap (λ (x : List ℕ). last_only x is) joined))
