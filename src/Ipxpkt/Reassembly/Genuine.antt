-- ===== src/Ipxpkt/Reassembly/Genuine.antt =====
-- The reassembler never mixes fragments: what it returns was sent (module/ipxpkt/fragment.go).
use ipxbox.Common.{
  ℕ, zero, suc, ◌-◌, ◌≤◌, ◌≡◌, refl, arith, Bool, true, false, List, [], ◌∷◌, Option, none, some,
  leb, ◌==◌, if◌then◌else◌, length, set, get_elem?, replicate, append-nil,
}
use ipxbox.Common.Assoc.{find, put, delete, find-put, find-delete}
use ipxbox.Ipx.{HeaderAddr}
use mathlib.Core.Path.{subst}
use ipxbox.Ipxpkt.{Header}
use ipxbox.Ipxpkt.Fragment.{join}
use ipxbox.Ipxpkt.Reassembly.{
  FrameKey, FrameKey-discrete as key_dec, FrameData, Frames, has_nil, join_fragments,
  process_fragment, Scan, scan, delete_keys, flush_scanned, flush, frame_for, key_of, store,
  reassemble,
}
use ipxbox.Common.{◌⊎◌}
use ipxbox.Common.{inl}
use ipxbox.Common.{inr}
use ipxbox.Common.{Bool-cases}

-- The fragments that have come are those of `sent` at their places.
abbrev pub Matches : List (List ℕ) → List (Option (List ℕ)) → Type 0
Matches [] [] = Unit {0}
Matches [] (_ ∷ _) = ⊥
Matches (_ ∷ _) [] = ⊥
Matches (f ∷ fs) (none ∷ os) = Matches fs os
Matches (f ∷ fs) (some g ∷ os) = (g ≡ f) × Matches fs os

pub Matches-length :
    (fs : List (List ℕ)) (os : List (Option (List ℕ))) → Matches fs os → length fs ≡ length os
Matches-length [] [] m = refl
Matches-length [] (_ ∷ _) m = absurd m
Matches-length (f ∷ fs) [] m = absurd m
Matches-length (f ∷ fs) (none ∷ os) m = omega (arith, Matches-length fs os m)
Matches-length (f ∷ fs) (some g ∷ os) m = omega (arith, Matches-length fs os m.1)

pub Matches-replicate : (fs : List (List ℕ)) → Matches fs (replicate (length fs) none)
Matches-replicate [] = tt
Matches-replicate (f ∷ fs) = Matches-replicate fs

pub Matches-set :
    (fs : List (List ℕ)) (os : List (Option (List ℕ))) (i : ℕ) (f : List ℕ)
    → Matches fs os
    → get_elem? fs i ≡ some f
    → Matches fs (set os i (some f))
Matches-set [] [] i f m e = tt
Matches-set [] (_ ∷ _) i f m e = absurd m
Matches-set (g ∷ fs) [] i f m e = absurd m
Matches-set (g ∷ fs) (none ∷ os) zero f m e = (ground arith, m)
Matches-set (g ∷ fs) (some h ∷ os) zero f m e = (ground arith, m.1)
Matches-set (g ∷ fs) (none ∷ os) (suc i) f m e = Matches-set fs os i f m e
Matches-set (g ∷ fs) (some h ∷ os) (suc i) f m e = (m.0, Matches-set fs os i f m.1 e)

pub join-Matches :
    (fs : List (List ℕ)) (os : List (Option (List ℕ)))
    → Matches fs os
    → has_nil os ≡ false
    → join_fragments os ≡ join fs
join-Matches [] [] m h = refl
join-Matches [] (_ ∷ _) m h = absurd m
join-Matches (f ∷ fs) [] m h = absurd m
join-Matches (f ∷ fs) (none ∷ os) m h = cc
join-Matches (f ∷ fs) (some g ∷ os) m h = ground (arith, join-Matches fs os m.1 h)

-- A map entry survives a deletion unchanged, or not at all.
abbrev Within : Frames → Frames → Type 0
Within small big =
    (q : FrameKey) (fd : FrameData) → find key_dec q small ≡ some fd → find key_dec q big ≡ some fd

delete-Within : (key : FrameKey) (frames : Frames) → Within (delete key_dec key frames) frames
delete-Within key frames q fd e = ground (arith, find-delete key_dec q key frames)

delete_keys-Within :
    (keys : List FrameKey) (frames : Frames) → Within (delete_keys keys frames) frames
unfolding delete_keys
delete_keys-Within [] frames q fd e = e
delete_keys-Within (key ∷ keys) frames q fd e =
    delete-Within key frames q fd (delete_keys-Within keys (delete key_dec key frames) q fd e)

flush_scanned-Within :
    (keys : List FrameKey) (oldest : Option (FrameKey × ℕ)) (frames : Frames)
    → Within (flush_scanned (record { flush_keys = keys; oldest = oldest }) frames) frames
flush_scanned-Within [] none frames q fd e = e
flush_scanned-Within [] (some (key, _)) frames q fd e = delete-Within key frames q fd e
flush_scanned-Within (key ∷ keys) oldest frames q fd e =
    delete_keys-Within (key ∷ keys) frames q fd e

flush-Within : (now : ℕ) (frames : Frames) → Within (flush now frames) frames
unfolding flush
flush-Within now frames =
    let s : Scan = scan now frames (record { flush_keys = []; oldest = none }) in
    flush_scanned-Within s.flush_keys s.oldest frames

-- The frames of every sender under every packet number, cut into fragments.
abbrev pub Sent : Type 0
Sent = FrameKey → List (List ℕ)

-- A fragment as its sender sent it.
pub record IsGenuine (sent : Sent) (src : HeaderAddr) (hdr : Header) (fragment : List ℕ)
    : Type 0 where
  pub number : 1 ≤ hdr.fragment
  pub count : hdr.num_fragments ≡ length (sent (key_of src hdr))
  pub text : get_elem? (sent (key_of src hdr)) (hdr.fragment - 1) ≡ some fragment

abbrev pub AllMatch : Sent → Frames → Type 0
AllMatch sent frames =
    (q : FrameKey) (fd : FrameData)
    → find key_dec q frames ≡ some fd
    → Matches (sent q) fd.fragments

AllMatch-put :
    (sent : Sent) (key : FrameKey) (fd : FrameData) (frames : Frames)
    → AllMatch sent frames
    → Matches (sent key) fd.fragments
    → AllMatch sent (put key_dec key fd frames)
AllMatch-put sent key fd frames all m q gd e = split (key_dec key q)
  where
    split : Dec (key ≡ q) → Matches (sent q) gd.fragments
    split (yes p) =
        let g : fd ≡ gd = ground (arith, p, find-put key_dec q key fd frames) in
        rw (← p) (subst (λ (d : FrameData). Matches (sent key) d.fragments) g m)
    split (no p) = all q gd (ground (arith, find-put key_dec q key fd frames))

AllMatch-Within :
    (sent : Sent) (small big : Frames) → Within small big → AllMatch sent big → AllMatch sent small
AllMatch-Within sent small big w all q fd e = all q fd (w q fd e)

-- The frame data that the fragment goes into, and the map, match what was sent.
frame_for-AllMatch :
    (sent : Sent) (now : ℕ) (src : HeaderAddr) (hdr : Header) (fragment : List ℕ) (frames : Frames)
    → IsGenuine sent src hdr fragment
    → AllMatch sent frames
    → Matches (sent (key_of src hdr)) (frame_for now (key_of src hdr) hdr frames).0.fragments
      × AllMatch sent (frame_for now (key_of src hdr) hdr frames).1
unfolding frame_for
frame_for-AllMatch sent now src hdr fragment frames g all = split (find key_dec key frames) refl
  where
    key : FrameKey
    key = key_of src hdr

    fresh : FrameData
    fresh = record { fragments = replicate hdr.num_fragments none; last_rx = 0 }

    fresh-Matches : Matches (sent key) fresh.fragments
    fresh-Matches = rw g.count (Matches-replicate (sent key))

    room : (b : Bool) → AllMatch sent (if b then flush now frames else frames)
    room true = AllMatch-Within sent (flush now frames) frames (flush-Within now frames) all
    room false = all

    split :
        (o : Option FrameData)
        → find key_dec key frames ≡ o
        → Matches (sent key) (frame_for now key hdr frames).0.fragments
          × AllMatch sent (frame_for now key hdr frames).1
    split none e =
        rw (e, frame_for)
          (
            fresh-Matches,
            AllMatch-put sent key fresh _ (room (leb 16 (length frames))) fresh-Matches,
          )
    split (some fd) e = rw (e, frame_for) (all key fd e, all)

process_fragment-Matches :
    (now : ℕ) (hdr : Header) (fragment : List ℕ) (fd : FrameData) (fs : List (List ℕ))
    → hdr.num_fragments ≡ length fs
    → get_elem? fs (hdr.fragment - 1) ≡ some fragment
    → Matches fs fd.fragments
    → Matches fs (process_fragment now hdr fragment fd).0.fragments
      × ((frame : List ℕ) → (process_fragment now hdr fragment fd).1 ≡ some frame → frame ≡ join fs)
unfolding process_fragment
process_fragment-Matches now hdr fragment fd fs count text m =
    let w = Matches-set fs fd.fragments (hdr.fragment - 1) fragment m text in
    let e : hdr.num_fragments ≡ length fd.fragments =
      omega (arith, Matches-length fs fd.fragments m) in
    let t : (hdr.num_fragments == length fd.fragments) ≡ true = ground arith in
    rw t (
      w,
      λ frame h.
          ground (arith, join-Matches fs (set fd.fragments (hdr.fragment - 1) (some fragment)) w),
    )

pub join-single :
    (fs : List (List ℕ)) (i : ℕ) (f : List ℕ)
    → length fs ≡ 1
    → get_elem? fs i ≡ some f
    → f ≡ join fs
join-single [] i f h e = cc
join-single (g ∷ []) zero f h e = ground (arith, append-nil g)
join-single (g ∷ []) (suc i) f h e = cc
join-single (g ∷ k ∷ fs) i f h e = absurd (omega arith)

store-AllMatch :
    (sent : Sent) (key : FrameKey) (fd : FrameData) (o : Option (List ℕ)) (frames : Frames)
    → Matches (sent key) fd.fragments
    → AllMatch sent frames
    → AllMatch sent (store key (fd, o) frames).0
store-AllMatch sent key fd none frames m all = AllMatch-put sent key fd frames all m
store-AllMatch sent key fd (some _) frames m all =
    AllMatch-Within sent (delete key_dec key frames) frames (delete-Within key frames) all

store-result :
    (key : FrameKey) (fd : FrameData) (o : Option (List ℕ)) (frames : Frames)
    → (store key (fd, o) frames).1 ≡ o
store-result key fd none frames = refl
store-result key fd (some _) frames = refl

-- As long as every fragment that arrives is one that its sender sent, whatever arrives, in whatever
-- order, again or not at all, and whatever is flushed meanwhile, a frame that the reassembler
-- returns is the frame of that sender and packet number; and what it keeps stays consistent with
-- what was sent.
pub reassemble-genuine :
    (sent : Sent) (now : ℕ) (src : HeaderAddr) (hdr : Header) (fragment : List ℕ) (frames : Frames)
    → IsGenuine sent src hdr fragment
    → AllMatch sent frames
    → AllMatch sent (reassemble now src hdr fragment frames).0
      × ((frame : List ℕ)
          → (reassemble now src hdr fragment frames).1 ≡ some frame
          → frame ≡ join (sent (key_of src hdr)))
unfolding reassemble
reassemble-genuine sent now src hdr fragment frames g all =
    split (Bool-cases (hdr.num_fragments == 1))
  where
    key : FrameKey
    key = key_of src hdr

    prepared : FrameData × Frames
    prepared = frame_for now key hdr frames

    ready : Matches (sent key) prepared.0.fragments × AllMatch sent prepared.1
    ready = frame_for-AllMatch sent now src hdr fragment frames g all

    done : FrameData × Option (List ℕ)
    done = process_fragment now hdr fragment prepared.0

    processed :
        Matches (sent key) done.0.fragments
        × ((frame : List ℕ) → done.1 ≡ some frame → frame ≡ join (sent key))
    processed =
        process_fragment-Matches now hdr fragment prepared.0 (sent key) g.count g.text ready.0

    split :
        ((hdr.num_fragments == 1) ≡ true) ⊎ ((hdr.num_fragments == 1) ≡ false)
        → AllMatch sent (reassemble now src hdr fragment frames).0
          × ((frame : List ℕ)
              → (reassemble now src hdr fragment frames).1 ≡ some frame
              → frame ≡ join (sent (key_of src hdr)))
    split (inl one) =
        rw (one, reassemble)
          (
            all,
            λ frame h.
                ground (arith, g.count, join-single (sent key) (hdr.fragment - 1) fragment, g.text),
          )
    split (inr more) =
        rw (more, reassemble)
          (
            store-AllMatch sent key done.0 done.1 prepared.1 processed.0 ready.1,
            λ frame h.
                processed.1 frame (ground (arith, h, store-result key done.0 done.1 prepared.1)),
          )
