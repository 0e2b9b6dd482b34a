-- ===== src/Ipxpkt/Reassembly/Capacity.antt =====
-- The reassembler of module/ipxpkt/fragment.go stores a bounded number of frames.
use ipxbox.Common.{
  ℕ, ◌+◌, ◌<◌, ◌≤◌, ◌≡◌, refl, arith, true, false, List, [], ◌∷◌, ◌++◌, Option, none, some, ltb,
  leb, if◌then◌else◌, length, All,
}
use ipxbox.Common.Assoc.{find, put, delete, length-put-le, length-delete-le}
use ipxbox.Ipx.{HeaderAddr}
use ipxbox.Ipxpkt.{Header}
use ipxbox.Ipxpkt.Reassembly.{
  FrameKey, FrameKey-discrete as key_dec, FrameData, Frames, process_fragment, Scan, scan,
  scan_step, is_older, max_age, max_frames, delete_keys, flush_scanned, flush, frame_for, key_of,
  reassemble,
}
use ipxbox.Common.{◌⊎◌}
use ipxbox.Common.{inl}
use ipxbox.Common.{inr}
use ipxbox.Common.{Bool-cases}
use ipxbox.Common.{replicate}
use ipxbox.Common.Assoc.{find-put_self}

abbrev Present : Frames → FrameKey → Type 0
Present frames key = (fd : FrameData) × (find key_dec key frames ≡ some fd)

length-delete-lt :
    (key : FrameKey) (frames : Frames)
    → Present frames key
    → length (delete key_dec key frames) < length frames
unfolding delete find
length-delete-lt key [] (fd, e) = cc
length-delete-lt key ((k, d) ∷ frames) (fd, e) = elim (key_dec k key) [
  | yes p ↦ ground (arith, length-delete-le key_dec key frames)
  | no p ↦ ground (arith, length-delete-lt key frames (fd, ground arith))
]

length-put-Present :
    (key : FrameKey) (fd : FrameData) (frames : Frames)
    → Present frames key
    → length (put key_dec key fd frames) ≡ length frames
unfolding put find
length-put-Present key fd [] (gd, e) = cc
length-put-Present key fd ((k, d) ∷ frames) (gd, e) = elim (key_dec k key) [
  | yes p ↦ ground arith
  | no p ↦ ground (arith, length-put-Present key fd frames (gd, ground arith))
]

delete_keys-le :
    (keys : List FrameKey) (frames : Frames) → length (delete_keys keys frames) ≤ length frames
unfolding delete_keys
delete_keys-le [] frames = omega arith
delete_keys-le (key ∷ keys) frames =
    omega
      (arith, delete_keys-le keys (delete key_dec key frames), length-delete-le key_dec key frames)

-- What `scan` has found: keys of the map, and at least one once it has looked at an entry.
abbrev OldestPresent : Frames → Option (FrameKey × ℕ) → Type 0
OldestPresent frames none = Unit {0}
OldestPresent frames (some (key, _)) = Present frames key

abbrev found : Scan → ℕ
found s = length s.flush_keys + (elim s.oldest [ none ↦ 0 | some _ ↦ 1 ])

record IsFound (frames : Frames) (s : Scan) : Type 0 where
  keys_found : All (Present frames) s.flush_keys
  oldest_found : OldestPresent frames s.oldest

All-snoc :
    (frames : Frames) (keys : List FrameKey) (key : FrameKey)
    → All (Present frames) keys
    → Present frames key
    → All (Present frames) (keys ++ (key ∷ []))
All-snoc frames [] key a p = (p, tt)
All-snoc frames (k ∷ keys) key a p = (a.0, All-snoc frames keys key a.1 p)

scan_step-IsFound :
    (frames : Frames) (now : ℕ) (key : FrameKey) (d : FrameData) (s : Scan)
    → Present frames key
    → IsFound frames s
    → IsFound frames (scan_step now key d s)
unfolding scan_step
scan_step-IsFound frames now key d s p f =
    split (Bool-cases (ltb (d.last_rx + max_age) now)) (Bool-cases (is_older d.last_rx s.oldest))
  where
    split :
        (ltb (d.last_rx + max_age) now ≡ true) ⊎ (ltb (d.last_rx + max_age) now ≡ false)
        → (is_older d.last_rx s.oldest ≡ true) ⊎ (is_older d.last_rx s.oldest ≡ false)
        → IsFound frames (scan_step now key d s)
    split (inl a) o =
        rw (a, scan_step)
          (record {
            keys_found = All-snoc frames s.flush_keys key f.keys_found p;
            oldest_found = f.oldest_found;
          })
    split (inr a) (inl o) =
        rw (a, o, scan_step) (record { keys_found = f.keys_found; oldest_found = p })
    split (inr a) (inr o) = rw (a, o, scan_step) f

length-append_one : (keys : List FrameKey) (key : FrameKey) → 0 < length (keys ++ (key ∷ []))
length-append_one [] key = omega arith
length-append_one (k ∷ keys) key = omega arith

scan_step-found :
    (now : ℕ) (key : FrameKey) (d : FrameData) (s : Scan) → 0 < found (scan_step now key d s)
unfolding scan_step
scan_step-found now key d s = split s.oldest refl
  where
    split : (o : Option (FrameKey × ℕ)) → s.oldest ≡ o → 0 < found (scan_step now key d s)
    split none e = ground (arith, length-append_one s.flush_keys key)
    split (some k) e = ground (arith, length-append_one s.flush_keys key)

scan-IsFound :
    (frames : Frames) (now : ℕ) (l : Frames) (s : Scan)
    → All (λ e. Present frames e.0) l
    → IsFound frames s
    → IsFound frames (scan now l s)
unfolding scan
scan-IsFound frames now [] s a f = f
scan-IsFound frames now ((key, d) ∷ l) s a f =
    scan-IsFound frames now l (scan_step now key d s) a.1
      (scan_step-IsFound frames now key d s a.0 f)

scan-found : (now : ℕ) (l : Frames) (s : Scan) → 0 < found s → 0 < found (scan now l s)
unfolding scan
scan-found now [] s h = h
scan-found now ((key, d) ∷ l) s h =
    scan-found now l (scan_step now key d s) (scan_step-found now key d s)

Present-cons :
    (k q : FrameKey) (d : FrameData) (frames : Frames)
    → Present frames q
    → Present ((k, d) ∷ frames) q
unfolding find
Present-cons k q d frames (fd, e) = elim (key_dec k q) [
  | yes p ↦ (d, ground arith)
  | no p ↦ (fd, ground arith)
]

All-Present-cons :
    (k : FrameKey) (d : FrameData) (frames l : Frames)
    → All (λ e. Present frames e.0) l
    → All (λ e. Present ((k, d) ∷ frames) e.0) l
All-Present-cons k d frames [] a = tt
All-Present-cons k d frames (e ∷ l) a =
    (Present-cons k e.0 d frames a.0, All-Present-cons k d frames l a.1)

All-Present : (frames : Frames) → All (λ e. Present frames e.0) frames
unfolding find
All-Present [] = tt
All-Present ((k, d) ∷ frames) =
    ((d, ground arith), All-Present-cons k d frames frames (All-Present frames))

flush_scanned-lt :
    (keys : List FrameKey) (oldest : Option (FrameKey × ℕ)) (frames : Frames)
    → 0 < found (record { flush_keys = keys; oldest = oldest })
    → IsFound frames (record { flush_keys = keys; oldest = oldest })
    → length (flush_scanned (record { flush_keys = keys; oldest = oldest }) frames) < length frames
unfolding delete_keys
flush_scanned-lt [] none frames h f = absurd (omega arith)
flush_scanned-lt [] (some (key, _)) frames h f = length-delete-lt key frames f.oldest_found
flush_scanned-lt (key ∷ keys) oldest frames h f = omega (
  arith,
  length-delete-lt key frames f.keys_found.0,
  delete_keys-le keys (delete key_dec key frames),
)

-- `flush` always makes room.
pub flush-lt :
    (now : ℕ) (frames : Frames) → 0 < length frames → length (flush now frames) < length frames
unfolding flush
flush-lt now [] h = absurd (omega arith)
flush-lt now ((k, d) ∷ rest) h =
    let frames : Frames = (k, d) ∷ rest in
    let s0 : Scan = record { flush_keys = []; oldest = none } in
    let s = scan now frames s0 in
    flush_scanned-lt s.flush_keys s.oldest frames
      (unfold scan in scan-found now rest (scan_step now k d s0) (scan_step-found now k d s0))
      (scan-IsFound frames now frames s0 (All-Present frames)
        (record { keys_found = tt; oldest_found = tt }))

frame_for-bounded :
    (now : ℕ) (key : FrameKey) (hdr : Header) (frames : Frames)
    → length frames ≤ max_frames
    → (length (frame_for now key hdr frames).1 ≤ max_frames)
      × Present (frame_for now key hdr frames).1 key
unfolding frame_for
frame_for-bounded now key hdr frames h = split (find key_dec key frames) refl
  where
    split :
        (o : Option FrameData)
        → find key_dec key frames ≡ o
        → (length (frame_for now key hdr frames).1 ≤ max_frames)
          × Present (frame_for now key hdr frames).1 key
    split none e =
        let fresh : FrameData = record {
          fragments = replicate hdr.num_fragments none;
          last_rx = 0;
        } in
        rw (e, frame_for)
          (
            ground (
              arith,
              flush-lt now frames,
              length-put-le key_dec key fresh (flush now frames),
              length-put-le key_dec key fresh frames,
            ),
            (
              fresh,
              find-put_self key_dec key fresh
                  (if leb max_frames (length frames) then flush now frames else frames),
            ),
          )
    split (some fd) e = rw (e, frame_for) (h, (fd, e))

-- The reassembler never stores more than 16 frames: `reassemble` keeps that bound, whatever the
-- fragment and the time.
pub reassemble-bounded :
    (now : ℕ) (src : HeaderAddr) (hdr : Header) (fragment : List ℕ) (frames : Frames)
    → length frames ≤ max_frames
    → length (reassemble now src hdr fragment frames).0 ≤ max_frames
unfolding reassemble
reassemble-bounded now src hdr fragment frames h =
    stored (process_fragment now hdr fragment (frame_for now key hdr frames).0) refl
  where
    key : FrameKey
    key = key_of src hdr

    ready :
        (length (frame_for now key hdr frames).1 ≤ max_frames)
        × Present (frame_for now key hdr frames).1 key
    ready = frame_for-bounded now key hdr frames h

    stored :
        (p : FrameData × Option (List ℕ))
        → process_fragment now hdr fragment (frame_for now key hdr frames).0 ≡ p
        → length (reassemble now src hdr fragment frames).0 ≤ max_frames
    stored (fd, none) e =
        ground
          (arith, e, ready.0, length-put-Present key fd (frame_for now key hdr frames).1 ready.1)
    stored (fd, some frame) e =
        ground (arith, e, ready.0, length-delete-le key_dec key (frame_for now key hdr frames).1)
