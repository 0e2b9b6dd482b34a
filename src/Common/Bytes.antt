-- ===== src/Common/Bytes.antt =====
-- Byte slices as lists of numbers, and the byte orders of encoding/binary.
use Prim.Native.Nat.{ℕ, ◌+◌, ◌*◌, ◌/◌, ◌%◌, ◌-◌, ◌<◌}
use mathlib.Core.List.{List, [], ◌∷◌, ◌++◌}
use mathlib.Core.Path.{◌≡◌, refl, ap, ◌∙◌}
use mathlib.Core.Bool.{Bool, true, false, ◌&&◌}
use native.Mathlib.Omega.{arith}
use ipxbox.Common.Tests.{◌==◌}
use ipxbox.Common.Lists.{get_or, take, drop, All}

abbrev pub IsByte : ℕ → Type 0
IsByte b = b < 256

abbrev pub IsU16 : ℕ → Type 0
IsU16 x = x < 65536

abbrev pub IsU32 : ℕ → Type 0
IsU32 x = x < 4294967296

-- `data[i]` for an index that the caller has checked.
abbrev pub byte_at : List ℕ → ℕ → ℕ
byte_at bytes i = get_or bytes i 0

-- `data[lo:hi]` for bounds that the caller has checked.
abbrev pub slice {ℓ} : {A : Type ℓ} → List A → ℕ → ℕ → List A
slice xs lo hi = take (hi - lo) (drop lo xs)

-- binary.BigEndian.PutUint16 and Uint16, the latter at an offset.
abbrev pub put_be16 : ℕ → List ℕ
put_be16 x = (x / 256 % 256) ∷ (x % 256) ∷ []

abbrev pub be16 : List ℕ → ℕ → ℕ
be16 bytes i = byte_at bytes i * 256 + byte_at bytes (i + 1)

-- binary.LittleEndian.PutUint16 and Uint16.
abbrev pub put_le16 : ℕ → List ℕ
put_le16 x = (x % 256) ∷ (x / 256 % 256) ∷ []

abbrev pub le16 : List ℕ → ℕ → ℕ
le16 bytes i = byte_at bytes i + byte_at bytes (i + 1) * 256

abbrev pub put_be32 : ℕ → List ℕ
put_be32 x = (x / 16777216 % 256) ∷ (x / 65536 % 256) ∷ (x / 256 % 256) ∷ (x % 256) ∷ []

abbrev pub be32 : List ℕ → ℕ → ℕ
be32 bytes i =
    byte_at bytes i * 16777216
    + byte_at bytes (i + 1) * 65536
    + byte_at bytes (i + 2) * 256
    + byte_at bytes (i + 3)

abbrev pub put_le32 : ℕ → List ℕ
put_le32 x = (x % 256) ∷ (x / 256 % 256) ∷ (x / 65536 % 256) ∷ (x / 16777216 % 256) ∷ []

abbrev pub le32 : List ℕ → ℕ → ℕ
le32 bytes i =
    byte_at bytes i
    + byte_at bytes (i + 1) * 256
    + byte_at bytes (i + 2) * 65536
    + byte_at bytes (i + 3) * 16777216

pub All-append {ℓ κ} :
    {A : Type ℓ} (P : A → Type κ) (xs ys : List A) → All P xs → All P ys → All P (xs ++ ys)
All-append P [] ys hx hy = hy
All-append P (x ∷ xs) ys hx hy = (hx.0, All-append P xs ys hx.1 hy)

-- `bytes.Equal`
unfoldable pub bytes_equal : List ℕ → List ℕ → Bool
bytes_equal [] [] = true
bytes_equal [] (y ∷ ys) = false
bytes_equal (x ∷ xs) [] = false
bytes_equal (x ∷ xs) (y ∷ ys) = (x == y) && bytes_equal xs ys

pub bytes_equal_sound : (xs ys : List ℕ) → bytes_equal xs ys ≡ true → xs ≡ ys
unfolding bytes_equal
bytes_equal_sound [] [] e = refl
bytes_equal_sound [] (y ∷ ys) e = ground (arith, e)
bytes_equal_sound (x ∷ xs) [] e = ground (arith, e)
bytes_equal_sound (x ∷ xs) (y ∷ ys) e =
    let p : x ≡ y = ground (arith, e) in
    let q : bytes_equal xs ys ≡ true = ground (arith, e) in
    ap (λ z. z ∷ xs) p ∙ ap (◌∷◌ y) (bytes_equal_sound xs ys q)

pub bytes_equal_refl : (xs : List ℕ) → bytes_equal xs xs ≡ true
unfolding bytes_equal
bytes_equal_refl [] = refl
bytes_equal_refl (x ∷ xs) = ground (arith, bytes_equal_refl xs)
