-- ===== src/Ipxpkt/Fragment.antt =====
-- module/ipxpkt/fragment.go, fragmentFrame: how a frame is cut into fragments.
use ipxbox.Common.{
  ℕ, zero, suc, ◌+◌, ◌-◌, ◌*◌, ◌/◌, ◌<◌, ◌≤◌, ◌≡◌, refl, sym, ap, ◌∙◌, arith, List, [], ◌∷◌, ◌++◌,
  ltb, if◌then◌else◌, length, drop, All, length-take, length-drop, take-append-drop,
}
use ipxbox.Common.Bytes.{slice}
use native.Mathlib.Nat.{zero-add}
use mathlib.Core.Path.{subst}

abbrev pub max_fragment_payload : ℕ
max_fragment_payload = 510

-- The rounds of the loop that are left, and `offset`.
unfoldable pub fragment_loop : ℕ → ℕ → List ℕ → List (List ℕ)
fragment_loop zero offset frame = []
fragment_loop (suc rounds) offset frame =
    let next_offset =
      if ltb (length frame) (offset + max_fragment_payload)
      then length frame
      else offset + max_fragment_payload in
    slice frame offset next_offset ∷ fragment_loop rounds next_offset frame

abbrev pub num_fragments : List ℕ → ℕ
num_fragments frame = (length frame + max_fragment_payload - 1) / max_fragment_payload

unfoldable pub fragment_frame : List ℕ → List (List ℕ)
unfolding fragment_loop
fragment_frame frame = fragment_loop (num_fragments frame) 0 frame

abbrev pub join : List (List ℕ) → List ℕ
join [] = []
join (f ∷ fs) = f ++ join fs

-- A fragment is not empty and not larger than the maximum.
abbrev pub SizeFits : List ℕ → Type 0
SizeFits f = (0 < length f) × (length f ≤ max_fragment_payload)

drop-nil : (n : ℕ) → ◌≡◌ {A = List ℕ} (drop n []) []
drop-nil zero = refl
drop-nil (suc n) = refl

drop-drop : (m n : ℕ) (xs : List ℕ) → drop n (drop m xs) ≡ drop (m + n) xs
drop-drop zero n xs = rw zero-add refl
drop-drop (suc m) n [] = rw (drop-nil n, drop-nil (suc m + n)) refl
drop-drop (suc m) n (x ∷ xs) =
    let e : suc m + n ≡ suc (m + n) = omega arith in rw e (drop-drop m n xs)

drop-length-le : (n : ℕ) (xs : List ℕ) → length xs ≤ n → drop n xs ≡ []
drop-length-le zero [] h = refl
drop-length-le (suc n) [] h = refl
drop-length-le zero (x ∷ xs) h = absurd (omega arith)
drop-length-le (suc n) (x ∷ xs) h = drop-length-le n xs (omega arith)

slice-append-drop : (lo hi : ℕ) (xs : List ℕ) → lo ≤ hi → slice xs lo hi ++ drop hi xs ≡ drop lo xs
slice-append-drop lo hi xs h =
    let e : lo + (hi - lo) ≡ hi = omega arith in
    subst (λ (k : ℕ). slice xs lo hi ++ drop k xs ≡ drop lo xs) e
      (rw (← drop-drop lo (hi - lo) xs) (take-append-drop (hi - lo) (drop lo xs)))

join-fragment_loop :
    (rounds offset : ℕ) (frame : List ℕ)
    → offset ≤ length frame
    → length frame ≤ offset + rounds * 510
    → join (fragment_loop rounds offset frame) ≡ drop offset frame
unfolding fragment_loop
join-fragment_loop zero offset frame h l = sym (drop-length-le offset frame (omega arith))
join-fragment_loop (suc rounds) offset frame h l = ground (
  arith,
  join-fragment_loop rounds (offset + 510) frame,
  join-fragment_loop rounds (length frame) frame,
  slice-append-drop offset (offset + 510) frame,
  slice-append-drop offset (length frame) frame,
)

SizeFits-fragment_loop :
    (rounds offset : ℕ) (frame : List ℕ)
    → offset + rounds * 510 ≤ length frame + 509
    → All SizeFits (fragment_loop rounds offset frame)
unfolding fragment_loop
SizeFits-fragment_loop zero offset frame h = tt
SizeFits-fragment_loop (suc rounds) offset frame h = ground (
  arith,
  SizeFits-fragment_loop rounds (offset + 510) frame,
  SizeFits-fragment_loop rounds (length frame) frame,
  length-take (offset + 510 - offset) (drop offset frame),
  length-take (length frame - offset) (drop offset frame),
  length-drop offset frame,
)

length-fragment_loop :
    (rounds offset : ℕ) (frame : List ℕ) → length (fragment_loop rounds offset frame) ≡ rounds
unfolding fragment_loop
length-fragment_loop zero offset frame = refl
length-fragment_loop (suc rounds) offset frame = ap suc (length-fragment_loop rounds _ frame)

-- The fragments of a frame, joined in order, are the frame; each has between 1 and 510 bytes, and
-- there are no more of them than it takes.
pub fragment_frame_lem :
    (frame : List ℕ)
    → (join (fragment_frame frame) ≡ frame)
      × All SizeFits (fragment_frame frame)
      × (length (fragment_frame frame) ≡ (length frame + 509) / 510)
unfolding fragment_frame
fragment_frame_lem frame =
    let e : length frame + 510 - 1 ≡ length frame + 509 = omega arith in
    let n = num_fragments frame in
    (
      join-fragment_loop n 0 frame (omega arith) (omega arith),
      SizeFits-fragment_loop n 0 frame (omega arith),
      length-fragment_loop n 0 frame ∙ ap (λ (k : ℕ). k / 510) e,
    )
