-- ===== src/Ipxpkt/Reassembly/Complete.antt =====
-- The fragments of a frame, each arriving once and in any order, give the frame with the last of
-- them and not before (module/ipxpkt/fragment.go).
use ipxbox.Common.{
  ℕ, zero, suc, ◌+◌, ◌-◌, ◌<◌, ◌≤◌, ◌≡◌, ◌≢◌, refl, ap, ◌∙◌, arith, Bool, true, false, not, List,
  [], ◌∷◌, Option, none, some, ltb, if◌then◌else◌, length, set, get_elem?, replicate, All,
}
use ipxbox.Common.Assoc.{find, put, delete}
use ipxbox.Ipx.{HeaderAddr}
use ipxbox.Ipxpkt.{Header}
use ipxbox.Ipxpkt.Fragment.{join}
use ipxbox.Ipxpkt.Reassembly.{
  FrameKey, FrameKey-discrete as key_dec, FrameData, Frames, has_nil, process_fragment, frame_for,
  reassemble,
}
use ipxbox.Ipxpkt.Reassembly.Genuine.{
  Matches, Matches-length, Matches-replicate, Matches-set, join-Matches, join-single,
}
use ipxbox.Common.Assoc.{find-delete_self}
use ipxbox.Common.Assoc.{find-put_self}

-- How many fragments have not come.
abbrev pub missing : List (Option (List ℕ)) → ℕ
missing [] = 0
missing (none ∷ os) = suc (missing os)
missing (some _ ∷ os) = missing os

missing-set :
    (os : List (Option (List ℕ))) (i : ℕ) (f : List ℕ)
    → get_elem? os i ≡ some none
    → missing (set os i (some f)) + 1 ≡ missing os
missing-set [] i f e = cc
missing-set (none ∷ os) zero f e = omega arith
missing-set (some g ∷ os) zero f e = cc
missing-set (none ∷ os) (suc i) f e = omega (arith, missing-set os i f e)
missing-set (some g ∷ os) (suc i) f e = missing-set os i f e

has_nil-missing : (os : List (Option (List ℕ))) → has_nil os ≡ ltb 0 (missing os)
has_nil-missing [] = refl
has_nil-missing (none ∷ os) = ground arith
has_nil-missing (some f ∷ os) = has_nil-missing os

missing-replicate : (n : ℕ) → missing (replicate n none) ≡ n
missing-replicate zero = refl
missing-replicate (suc n) = ap suc (missing-replicate n)

get_elem?-replicate :
    (n i : ℕ) → i < n → get_elem? {A = Option (List ℕ)} (replicate n none) i ≡ some none
get_elem?-replicate zero i h = absurd (omega arith)
get_elem?-replicate (suc n) zero h = refl
get_elem?-replicate (suc n) (suc i) h = get_elem?-replicate n i (omega arith)

get_elem?-set_ne :
    (os : List (Option (List ℕ))) (i j : ℕ) (f : Option (List ℕ))
    → i ≢ j
    → get_elem? (set os i f) j ≡ get_elem? os j
get_elem?-set_ne [] i j f h = refl
get_elem?-set_ne (o ∷ os) zero zero f h = absurd (h refl)
get_elem?-set_ne (o ∷ os) zero (suc j) f h = refl
get_elem?-set_ne (o ∷ os) (suc i) zero f h = refl
get_elem?-set_ne (o ∷ os) (suc i) (suc j) f h = get_elem?-set_ne os i j f (omega arith)

-- The indices of the fragments that arrive: in range, and none twice.
abbrev pub IsArrival : ℕ → List ℕ → Type 0
IsArrival n [] = Unit {0}
IsArrival n (i ∷ is) = (i < n) × All (λ j. i ≢ j) is × IsArrival n is

-- The header of fragment number `i` of the frame, counted from 0, and its text.
abbrev pub header_at : ℕ → ℕ → ℕ → Header
header_at packet_id n i = record { fragment = i + 1; num_fragments = n; packet_id = packet_id }

abbrev pub text_at : List (List ℕ) → ℕ → List ℕ
text_at [] i = []
text_at (f ∷ fs) zero = f
text_at (f ∷ fs) (suc i) = text_at fs i

-- The fragments with these indices arrive one after the other; what each `reassemble` returned.
unfoldable pub arrive :
    (now : ℕ) → HeaderAddr → ℕ → List (List ℕ) → List ℕ → Frames → Frames × List (Option (List ℕ))
arrive now src packet_id fs [] frames = (frames, [])
arrive now src packet_id fs (i ∷ is) frames =
    let (frames', o) =
      reassemble now src (header_at packet_id (length fs) i) (text_at fs i) frames in
    let (frames'', os) = arrive now src packet_id fs is frames' in (frames'', o ∷ os)

-- Nothing until the last, and the frame with it.
abbrev pub last_only : List ℕ → List ℕ → List (Option (List ℕ))
last_only frame [] = []
last_only frame (i ∷ []) = some frame ∷ []
last_only frame (i ∷ j ∷ is) = none ∷ last_only frame (j ∷ is)

get_elem?-text_at :
    (fs : List (List ℕ)) (i : ℕ) → i < length fs → get_elem? fs i ≡ some (text_at fs i)
get_elem?-text_at [] i h = absurd (omega arith)
get_elem?-text_at (f ∷ fs) zero h = refl
get_elem?-text_at (f ∷ fs) (suc i) h = get_elem?-text_at fs i (omega arith)

abbrev is_nil : List ℕ → Bool
is_nil [] = true
is_nil (_ ∷ _) = false

is_nil-length : (is : List ℕ) → ltb 0 (length is) ≡ not (is_nil is)
is_nil-length [] = refl
is_nil-length (i ∷ is) = ground arith

-- The frame data of the key while the fragments `is` are still to come.
record Awaits (fs : List (List ℕ)) (is : List ℕ) (os : List (Option (List ℕ))) : Type 0 where
  matches : Matches fs os
  count : missing os ≡ length is
  open_places : All (λ i. get_elem? os i ≡ some none) is

open_places-set :
    (os : List (Option (List ℕ))) (i : ℕ) (f : List ℕ) (is : List ℕ)
    → All (λ j. i ≢ j) is
    → All (λ j. get_elem? os j ≡ some none) is
    → All (λ j. get_elem? (set os i (some f)) j ≡ some none) is
open_places-set os i f [] n a = tt
open_places-set os i f (j ∷ js) n a =
    (get_elem?-set_ne os i j (some f) n.0 ∙ a.0, open_places-set os i f js n.1 a.1)

Awaits-set :
    (fs : List (List ℕ)) (i : ℕ) (is : List ℕ) (os : List (Option (List ℕ)))
    → i < length fs
    → All (λ j. i ≢ j) is
    → Awaits fs (i ∷ is) os
    → Awaits fs is (set os i (some (text_at fs i)))
Awaits-set fs i is os h n a = record {
  matches = Matches-set fs os i (text_at fs i) a.matches (get_elem?-text_at fs i h);
  count = omega (arith, a.count, missing-set os i (text_at fs i) a.open_places.0);
  open_places = open_places-set os i (text_at fs i) is n a.open_places.1;
}

-- `processFragment` on the next fragment: it is complete exactly if no other is awaited.
process_fragment-Awaits :
    (now packet_id : ℕ) (fs : List (List ℕ)) (i : ℕ) (is : List ℕ) (fd : FrameData)
    → i < length fs
    → All (λ j. i ≢ j) is
    → Awaits fs (i ∷ is) fd.fragments
    → process_fragment now (header_at packet_id (length fs) i) (text_at fs i) fd ≡ (
      record { fragments = set fd.fragments i (some (text_at fs i)); last_rx = now },
      if is_nil is then some (join fs) else none,
    )
unfolding process_fragment
process_fragment-Awaits now packet_id fs i is fd h n a =
    let w = Awaits-set fs i is fd.fragments h n a in
    let os = set fd.fragments i (some (text_at fs i)) in
    let e : i + 1 - 1 ≡ i = omega arith in
    ground (
      arith,
      e,
      Matches-length fs fd.fragments a.matches,
      has_nil-missing os,
      w.count,
      is_nil-length is,
      join-Matches fs os w.matches,
    )

abbrev pub frame_key : HeaderAddr → ℕ → FrameKey
frame_key src packet_id = record { src = src; packet_id = packet_id }

module _ (now : ℕ) (src : HeaderAddr) (packet_id : ℕ) (fs : List (List ℕ)) where
  -- One arrival at a map whose frame data for the key, old or new, awaits it.
  reassemble-Awaits :
      (i : ℕ) (is : List ℕ) (fd : FrameData) (frames frames' : Frames)
      → 1 < length fs
      → i < length fs
      → All (λ j. i ≢ j) is
      → frame_for now (frame_key src packet_id) (header_at packet_id (length fs) i) frames
        ≡ (fd, frames')
      → Awaits fs (i ∷ is) fd.fragments
      → reassemble now src (header_at packet_id (length fs) i) (text_at fs i) frames ≡ (
          if is_nil is
          then (delete key_dec (frame_key src packet_id) frames', some (join fs))
          else (
            put key_dec
                (frame_key src packet_id)
                (record { fragments = set fd.fragments i (some (text_at fs i)); last_rx = now })
                frames',
            none,
          ))
  unfolding reassemble
  reassemble-Awaits i is fd frames frames' two h n e a =
      ground (arith, process_fragment-Awaits now packet_id fs i is fd h n a)

  arrive-Awaits :
      (i : ℕ) (is : List ℕ) (fd : FrameData) (frames frames' : Frames)
      → 1 < length fs
      → IsArrival (length fs) (i ∷ is)
      → frame_for now (frame_key src packet_id) (header_at packet_id (length fs) i) frames
        ≡ (fd, frames')
      → Awaits fs (i ∷ is) fd.fragments
      → ((arrive now src packet_id fs (i ∷ is) frames).1 ≡ last_only (join fs) (i ∷ is))
        × (find key_dec (frame_key src packet_id) (arrive now src packet_id fs (i ∷ is) frames).0
            ≡ none)
  unfolding arrive
  arrive-Awaits i [] fd frames frames' two v e a =
      rw (reassemble-Awaits i [] fd frames frames' two v.0 tt e a)
        (refl, find-delete_self key_dec (frame_key src packet_id) frames')
  arrive-Awaits i (j ∷ js) fd frames frames' two v e a =
      let fd' : FrameData = record {
        fragments = set fd.fragments i (some (text_at fs i));
        last_rx = now;
      } in
      let next = put key_dec (frame_key src packet_id) fd' frames' in
      let found : frame_for now (frame_key src packet_id) (header_at packet_id (length fs) j) next
          ≡ (fd', next) =
        unfold frame_for in
        ground (arith, find-put_self key_dec (frame_key src packet_id) fd' frames') in
      let (os, gone) =
        arrive-Awaits j js fd' next next two v.2 found
          (Awaits-set fs i (j ∷ js) fd.fragments v.0 v.1 a) in
      rw (reassemble-Awaits i (j ∷ js) fd frames frames' two v.0 v.1 e a) (ap (◌∷◌ none) os, gone)

  arrive-single :
      (is : List ℕ) (frames : Frames)
      → length fs ≤ 1
      → length is ≡ length fs
      → IsArrival (length fs) is
      → find key_dec (frame_key src packet_id) frames ≡ none
      → ((arrive now src packet_id fs is frames).1 ≡ last_only (join fs) is)
        × (find key_dec (frame_key src packet_id) (arrive now src packet_id fs is frames).0 ≡ none)
  unfolding arrive
  arrive-single [] frames h l v e = (refl, e)
  arrive-single (i ∷ j ∷ is) frames h l v e = absurd (omega arith)
  arrive-single (i ∷ []) frames h l v e =
      let one : length fs ≡ 1 = omega arith in
      unfold reassemble in
      ground (arith, one, e, join-single fs i (text_at fs i) one (get_elem?-text_at fs i v.0))

All-replicate :
    (n : ℕ) (is : List ℕ)
    → IsArrival n is
    → All (λ i. get_elem? {A = Option (List ℕ)} (replicate n none) i ≡ some none) is
All-replicate n [] v = tt
All-replicate n (i ∷ is) v = (get_elem?-replicate n i v.0, All-replicate n is v.2)

-- When the fragments of a frame arrive once each, in any order, at a reassembler that stores
-- nothing under the frame's key, then nothing is returned until the last arrives, the whole frame
-- is returned with the last, and afterwards nothing is stored under the key.
pub arrive_lem :
    (now : ℕ) (src : HeaderAddr) (packet_id : ℕ) (fs : List (List ℕ)) (is : List ℕ)
    (frames : Frames)
    → length is ≡ length fs
    → IsArrival (length fs) is
    → find key_dec (frame_key src packet_id) frames ≡ none
    → ((arrive now src packet_id fs is frames).1 ≡ last_only (join fs) is)
      × (find key_dec (frame_key src packet_id) (arrive now src packet_id fs is frames).0 ≡ none)
arrive_lem now src packet_id fs [] frames l v e =
    arrive-single now src packet_id fs [] frames (omega arith) l v e
arrive_lem now src packet_id fs (i ∷ []) frames l v e =
    arrive-single now src packet_id fs (i ∷ []) frames (omega arith) l v e
arrive_lem now src packet_id fs (i ∷ j ∷ is) frames l v e =
    let key = frame_key src packet_id in
    let hdr = header_at packet_id (length fs) i in
    let fresh : FrameData = record { fragments = replicate (length fs) none; last_rx = 0 } in
    let frames' = (frame_for now key hdr frames).1 in
    arrive-Awaits now src packet_id fs i (j ∷ is) fresh frames frames' (omega arith) v
      (unfold frame_for in ground arith)
      (record {
        matches = Matches-replicate fs;
        count = omega (arith, missing-replicate (length fs));
        open_places = All-replicate (length fs) (i ∷ j ∷ is) v;
      })
