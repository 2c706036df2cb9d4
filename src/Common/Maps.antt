-- ===== src/Common/Maps.antt =====
-- The maps of the standard library (`HashMap`, `BTreeMap`), as lists of keys and values, by a
-- Boolean test `same` on keys. The first entry of a key counts; `put` leaves one.
use Prim.Native.Nat.{ℕ, ◌≤◌, ◌<◌}
use mathlib.Core.Path.{◌≡◌, refl}
use mathlib.Core.Logic.{inl, inr}
use mathlib.Core.Bool.{Bool, false}
use mathlib.Core.Option.{Option, none, some}
use mathlib.Core.List.{List, [], ◌∷◌}
use native.Mathlib.Omega.{arith}
use ezk.Common.Compare.{if◌then◌else◌, Bool-cases, ◌==◌}
use ezk.Common.Lists.{length, All}

module _ {ℓ κ} {K : Type ℓ} {A : Type κ} (same : K → K → Bool) where
  unfoldable pub lookup : K → List (K × A) → Option A
  lookup k [] = none
  lookup k (entry ∷ m) = if same entry.0 k then some entry.1 else lookup k m

  unfoldable pub erase : K → List (K × A) → List (K × A)
  erase k [] = []
  erase k (entry ∷ m) = let rest = erase k m in if same entry.0 k then rest else entry ∷ rest

  unfoldable pub put : K → A → List (K × A) → List (K × A)
  unfolding erase
  put k a m = (k, a) ∷ erase k m

  length-erase_le : (k : K) (m : List (K × A)) → length (erase k m) ≤ length m
  unfolding erase
  length-erase_le k [] = omega arith
  length-erase_le k (entry ∷ m) = ground (arith, length-erase_le k m)

  -- A key that is found is one entry less when it is erased.
  pub length-erase_lt :
      (k : K) (m : List (K × A)) (a : A) → lookup k m ≡ some a → length (erase k m) < length m
  unfolding erase lookup
  length-erase_lt k [] a h = ground arith
  length-erase_lt k (entry ∷ m) a h = elim (Bool-cases (same entry.0 k)) [
    | inl e ↦ rw e (ground (arith, length-erase_le k m))
    | inr e ↦ rw e (ground (arith, length-erase_lt k m a (rw e at h)))
  ]

  pub All-erase {ι} : (P : K × A → Type ι) (k : K) (m : List (K × A)) → All P m → All P (erase k m)
  unfolding erase
  All-erase P k [] h = h
  All-erase P k (entry ∷ m) h = elim (Bool-cases (same entry.0 k)) [
    | inl e ↦ rw e (All-erase P k m h.1)
    | inr e ↦ rw e (h.0, All-erase P k m h.1)
  ]

module _ {κ} {A : Type κ} where
  pub lookup-erase_other :
      (k n : ℕ) (m : List (ℕ × A))
      → ((k == n) ≡ false)
      → lookup ◌==◌ n (erase ◌==◌ k m) ≡ lookup ◌==◌ n m
  unfolding erase lookup
  lookup-erase_other k n [] h = refl
  lookup-erase_other k n (entry ∷ m) h = ground (arith, lookup-erase_other k n m h)

  pub lookup-erase_same : (k : ℕ) (m : List (ℕ × A)) → lookup ◌==◌ k (erase ◌==◌ k m) ≡ none
  unfolding erase lookup
  lookup-erase_same k [] = refl
  lookup-erase_same k (entry ∷ m) = ground (arith, lookup-erase_same k m)
