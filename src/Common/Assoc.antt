-- ===== src/Common/Assoc.antt =====
-- Go maps as association lists over keys with a decidable equality. `put` overwrites in place and
-- appends a new key, so a key stands once in a map that is built by these operations.
use Prim.Native.Nat.{◌+◌, ◌≤◌}
use mathlib.Core.Path.{◌≡◌, refl, subst}
use mathlib.Core.List.{List, [], ◌∷◌}
use mathlib.Core.Logic.{◌≢◌, ite}
use mathlib.Core.Option.{Option, none, some}
use native.Mathlib.Omega.{arith}
use mathlib.Core.Logic.{if_pos, if_neg}
use ipxbox.Common.Lists.{length, All, All-map}

abbrev pub Assoc {ℓ} : Type ℓ → Type ℓ → Type ℓ
Assoc K V = List (K × V)

module _ {ℓ} {K V : Type ℓ} (dec : Discrete K) where
  -- `v, ok := m[k]`
  unfoldable pub find : K → Assoc K V → Option V
  find k [] = none
  find k ((j, v) ∷ m) = ite (dec j k) (some v) (find k m)

  -- `m[k] = v`
  unfoldable pub put : K → V → Assoc K V → Assoc K V
  put k v [] = (k, v) ∷ []
  put k v ((j, w) ∷ m) = ite (dec j k) ((k, v) ∷ m) ((j, w) ∷ put k v m)

  -- `delete(m, k)`
  unfoldable pub delete : K → Assoc K V → Assoc K V
  delete k [] = []
  delete k ((j, w) ∷ m) = ite (dec j k) (delete k m) ((j, w) ∷ delete k m)

  pub find-put :
      (q k : K) (v : V) (m : Assoc K V) → find q (put k v m) ≡ ite (dec k q) (some v) (find q m)
  unfolding find put
  find-put q k v [] = refl
  find-put q k v ((j, w) ∷ m) = ground (arith, find-put q k v m)

  pub find-delete : (q k : K) (m : Assoc K V) → find q (delete k m) ≡ ite (dec k q) none (find q m)
  unfolding find delete
  find-delete q k [] = ground arith
  find-delete q k ((j, w) ∷ m) = ground (arith, find-delete q k m)

  pub find-put_self : (k : K) (v : V) (m : Assoc K V) → find k (put k v m) ≡ some v
  find-put_self k v m = ground (arith, find-put k k v m)

  pub find-put_ne : (q k : K) (v : V) (m : Assoc K V) → k ≢ q → find q (put k v m) ≡ find q m
  find-put_ne q k v m h = ground (arith, find-put q k v m)

  pub find-delete_self : (k : K) (m : Assoc K V) → find k (delete k m) ≡ none
  find-delete_self k m = ground (arith, find-delete k k m)

  pub find-delete_ne : (q k : K) (m : Assoc K V) → k ≢ q → find q (delete k m) ≡ find q m
  find-delete_ne q k m h = ground (arith, find-delete q k m)

  pub length-put-le : (k : K) (v : V) (m : Assoc K V) → length (put k v m) ≤ length m + 1
  unfolding put
  length-put-le k v [] = omega arith
  length-put-le k v ((j, w) ∷ m) = ground (arith, length-put-le k v m)

  pub length-delete-le : (k : K) (m : Assoc K V) → length (delete k m) ≤ length m
  unfolding delete
  length-delete-le k [] = omega arith
  length-delete-le k ((j, w) ∷ m) = ground (arith, length-delete-le k m)

  -- Every key stands once.
  abbrev pub Unique : Assoc K V → Type ℓ
  Unique [] = Unit
  Unique ((j, w) ∷ m) = (find j m ≡ none) × Unique m

  pub put-Unique : (k : K) (v : V) (m : Assoc K V) → Unique m → Unique (put k v m)
  unfolding put find
  put-Unique k v [] u = (refl, tt)
  put-Unique k v ((j, w) ∷ m) (n, u) = elim (dec j k) [
    | yes e ↦ rw (if_pos (dec j k) e) (rw (← e) n, u)
    | no d ↦ rw (if_neg (dec j k) d) (ground (arith, n, d, find-put_ne j k v m), put-Unique k v m u)
  ]

  pub delete-Unique : (k : K) (m : Assoc K V) → Unique m → Unique (delete k m)
  unfolding delete find
  delete-Unique k [] u = tt
  delete-Unique k ((j, w) ∷ m) (n, u) = elim (dec j k) [
    | yes e ↦ rw (if_pos (dec j k) e) (delete-Unique k m u)
    | no d ↦ rw (if_neg (dec j k) d) (ground (arith, n, find-delete j k m), delete-Unique k m u)
  ]

  pub All-put {κ} :
      {P Q : K × V → Type κ} (k : K) (v : V) (m : Assoc K V)
      → ((e : K × V) → P e → Q e)
      → Q (k, v)
      → All P m
      → All Q (put k v m)
  unfolding put
  All-put k v [] f q a = (q, tt)
  All-put k v ((j, w) ∷ m) f q (p, a) = elim (dec j k) [
    | yes e ↦ rw (if_pos (dec j k) e) (q, All-map f m a)
    | no d ↦ rw (if_neg (dec j k) d) (f (j, w) p, All-put k v m f q a)
  ]

  pub All-delete {κ} :
      {P Q : K × V → Type κ} (k : K) (m : Assoc K V)
      → ((e : K × V) → P e → e.0 ≢ k → Q e)
      → All P m
      → All Q (delete k m)
  unfolding delete
  All-delete k [] f a = tt
  All-delete k ((j, w) ∷ m) f (p, a) = elim (dec j k) [
    | yes e ↦ rw (if_pos (dec j k) e) (All-delete k m f a)
    | no d ↦ rw (if_neg (dec j k) d) (f (j, w) p d, All-delete k m f a)
  ]

  pub All-find {κ} :
      (P : K × V → Type κ) (k : K) (v : V) (m : Assoc K V) → find k m ≡ some v → All P m → P (k, v)
  unfolding find
  All-find P k v [] e a = let x : ⊥ = ground (arith, e) in elim x [ ]
  All-find P k v ((j, w) ∷ m) e (p, a) = elim (dec j k) [
    | yes d ↦
        let f : w ≡ v = ground (arith, e, d) in subst (λ x. P (k, x)) f (subst (λ x. P (x, w)) d p)
    | no d ↦ All-find P k v m (ground (arith, e, d)) a
  ]

  pub All-find_absent {κ} :
      {P Q : K × V → Type κ} (k : K) (m : Assoc K V)
      → ((e : K × V) → P e → e.0 ≢ k → Q e)
      → find k m ≡ none
      → All P m
      → All Q m
  unfolding find
  All-find_absent k [] f n a = tt
  All-find_absent k ((j, w) ∷ m) f n (p, a) = elim (dec j k) [
    | yes e ↦ let x : ⊥ = ground (arith, n, e) in elim x [ ]
    | no d ↦ (f (j, w) p d, All-find_absent k m f (ground (arith, n, d)) a)
  ]
