-- ===== src/Ipxpkt/Reassembly.antt =====
-- module/ipxpkt/fragment.go, frameReassembler: frames are put together again from fragments that
-- may come in any order, more than once, or not at all. Times are nanoseconds of a monotonic clock.
-- The caller has checked the header (Header.UnmarshalBinary), so an index is in range.
pub mod Genuine
pub mod Capacity
pub mod Complete
use ipxbox.Common.{
  ℕ, zero, suc, ◌+◌, ◌-◌, ◌<◌, ◌≤◌, Bool, true, false, not, ◌||◌, List, [], ◌∷◌, ◌++◌, Option, none,
  some, ltb, leb, ◌==◌, if◌then◌else◌, length, set, replicate, ℕ_discrete,
}
use ipxbox.Common.Assoc.{Assoc, find, put, delete}
use ipxbox.Ipx.{HeaderAddr, HeaderAddr-discrete}
use ipxbox.Ipxpkt.{Header}

abbrev pub max_frames : ℕ
max_frames = 16

-- 10 seconds.
abbrev pub max_age : ℕ
max_age = 10000000000

pub record FrameKey : Type 0 where
  pub src : HeaderAddr
  pub packet_id : ℕ

unfoldable pub FrameKey-discrete : Discrete FrameKey
unfolding ℕ_discrete HeaderAddr-discrete
FrameKey-discrete = hlevel (ℕ_discrete, HeaderAddr-discrete)

-- A fragment that has not come is nil.
pub record FrameData : Type 0 where
  pub fragments : List (Option (List ℕ))
  pub last_rx : ℕ

abbrev pub Frames : Type 0
Frames = Assoc FrameKey FrameData

abbrev pub has_nil : List (Option (List ℕ)) → Bool
has_nil [] = false
has_nil (none ∷ fs) = true
has_nil (some f ∷ fs) = has_nil fs

abbrev pub join_fragments : List (Option (List ℕ)) → List ℕ
join_fragments [] = []
join_fragments (none ∷ fs) = join_fragments fs
join_fragments (some f ∷ fs) = f ++ join_fragments fs

-- `processFragment`: the frame data, and the frame if it is complete.
unfoldable pub process_fragment :
    (now : ℕ) → Header → List ℕ → FrameData → FrameData × Option (List ℕ)
process_fragment now hdr fragment fd =
    let fragments = set fd.fragments (hdr.fragment - 1) (some fragment) in
    if not (hdr.num_fragments == length fd.fragments) then (fd, none) else (
      record { fragments = fragments; last_rx = now },
      if has_nil fragments then none else some (join_fragments fragments),
    )

-- The variables of the first loop of `flush`; `oldest` is none before the first assignment. The zero
-- time is 0.
pub record Scan : Type 0 where
  pub flush_keys : List FrameKey
  pub oldest : Option (FrameKey × ℕ)

abbrev pub is_older : ℕ → Option (FrameKey × ℕ) → Bool
is_older t none = true
is_older t (some (_, oldest_time)) = oldest_time == 0 || ltb t oldest_time

unfoldable pub scan_step : (now : ℕ) → FrameKey → FrameData → Scan → Scan
scan_step now key d s =
    if ltb (d.last_rx + max_age) now
    then record s { flush_keys = s.flush_keys ++ (key ∷ []) }
    else if is_older d.last_rx s.oldest
    then record s { oldest = some (key, d.last_rx) }
    else s

unfoldable pub scan : (now : ℕ) → Frames → Scan → Scan
scan now [] s = s
scan now ((key, d) ∷ frames) s = scan now frames (scan_step now key d s)

unfoldable pub delete_keys : List FrameKey → Frames → Frames
delete_keys [] frames = frames
delete_keys (key ∷ keys) frames = delete_keys keys (delete FrameKey-discrete key frames)

abbrev pub delete_oldest : Option (FrameKey × ℕ) → Frames → Frames
delete_oldest none frames = frames
delete_oldest (some (key, _)) frames = delete FrameKey-discrete key frames

abbrev pub flush_scanned : Scan → Frames → Frames
flush_scanned s frames = elim s.flush_keys [
  | [] ↦ delete_oldest s.oldest frames
  | _ ∷ _ ↦ delete_keys s.flush_keys frames
]

unfoldable pub flush : (now : ℕ) → Frames → Frames
flush now frames =
    flush_scanned (scan now frames (record { flush_keys = []; oldest = none })) frames

-- The frame data for a key, made if there is none, and the map that holds it.
unfoldable pub frame_for : (now : ℕ) → FrameKey → Header → Frames → FrameData × Frames
frame_for now key hdr frames = elim (find FrameKey-discrete key frames) [
  | some fd ↦ (fd, frames)
  | none ↦
      let fd : FrameData = record { fragments = replicate hdr.num_fragments none; last_rx = 0 } in
      (
        fd,
        put FrameKey-discrete key fd
            (if leb max_frames (length frames) then flush now frames else frames),
      )
]

abbrev pub key_of : HeaderAddr → Header → FrameKey
key_of src hdr = record { src = src; packet_id = hdr.packet_id }

-- What is done with the frame data after `processFragment`.
abbrev pub store : FrameKey → FrameData × Option (List ℕ) → Frames → Frames × Option (List ℕ)
store key (fd, none) frames = (put FrameKey-discrete key fd frames, none)
store key (fd, some frame) frames = (delete FrameKey-discrete key frames, some frame)

-- `reassemble`, with the source address of the IPX header.
unfoldable pub reassemble :
    (now : ℕ) → HeaderAddr → Header → List ℕ → Frames → Frames × Option (List ℕ)
reassemble now src hdr fragment frames =
    let key = key_of src hdr in
    let (fd, frames') = frame_for now key hdr frames in
    if hdr.num_fragments == 1
    then (frames, some fragment)
    else store key (process_fragment now hdr fragment fd) frames'
