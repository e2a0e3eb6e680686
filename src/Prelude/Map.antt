-- ===== src/Prelude/Map.antt =====
-- Maps as association lists: the `HashMap` of the program. `insert` drops what stood at its key, so
-- a map built by `insert` holds a key once. The order of the entries is that of insertion, newest
-- first; no theorem depends on it.
use Prim.Native.Nat.{◌≤◌}
use mathlib.Core.Path.{◌≡◌, subst}
use mathlib.Core.Bool.{Bool, true, false}
use mathlib.Core.Option.{Option, none, some}
use mathlib.Core.Logic.{inl, inr}
use mathlib.Core.List.{List, [], ◌∷◌}
use native.Mathlib.Omega.{arith}
use liveclaw.Prelude.Tests.{Key, ◌==◌, if◌then◌else◌, Bool-cases, ne_of_equals}
use liveclaw.Prelude.Lists.{All, length, retain}

abbrev pub Map {ℓ κ} : Type ℓ → Type κ → Type (ℓ ⊔ κ)
Map K V = List (K × V)

module _ {ℓ κ} {K : Type ℓ} {V : Type κ} ⦃e : Key K⦄ where
  unfoldable pub get : K → Map K V → Option V
  get k [] = none
  get k ((j, v) ∷ m) = if j == k then some v else get k m

  unfoldable pub remove : K → Map K V → Map K V
  remove k [] = []
  remove k ((j, v) ∷ m) = elim (j == k) [ true ↦ remove k m | false ↦ (j, v) ∷ remove k m ]

  unfoldable pub insert : K → V → Map K V → Map K V
  unfolding remove
  insert k v m = (k, v) ∷ remove k m

  abbrev pub contains_key : K → Map K V → Bool
  contains_key k m = elim (get k m) [ none ↦ false | some v ↦ true ]

  pub get-remove : (k j : K) (m : Map K V) → get j (remove k m) ≡ (if k == j then none else get j m)
  unfolding get remove
  get-remove k j [] = ground arith
  get-remove k j ((i, v) ∷ m) =
      ground (arith, get-remove k j m, e.equals_iff i k, e.equals_iff i j, e.equals_iff k j)

  pub get-insert :
      (k j : K) (v : V) (m : Map K V) → get j (insert k v m) ≡ (if k == j then some v else get j m)
  unfolding get insert
  get-insert k j v m = ground (arith, get-remove k j m)

  pub get-insert_self : (k : K) (v : V) (m : Map K V) → get k (insert k v m) ≡ some v
  get-insert_self k v m = ground (arith, get-insert k k v m, e.equals_iff k k)

  pub get-remove_self : (k : K) (m : Map K V) → get k (remove k m) ≡ none
  get-remove_self k m = ground (arith, get-remove k k m, e.equals_iff k k)

  pub length-remove-le : (k : K) (m : Map K V) → length (remove k m) ≤ length m
  unfolding remove
  length-remove-le k [] = omega arith
  length-remove-le k ((j, v) ∷ m) = ground (arith, length-remove-le k m)

-- A property of all entries.
module _ {ℓ κ μ} {K : Type ℓ} {V : Type κ} ⦃e : Key K⦄ (P : K × V → Type μ) where
  pub get-All : (k : K) (v : V) (m : Map K V) → All P m → get k m ≡ some v → P (k, v)
  unfolding get
  get-All k v [] h g = cc
  get-All k v ((j, w) ∷ m) h g = elim (Bool-cases (j == k)) [
    | inl same ↦ let p : (j, w) ≡ (k, v) = ground (arith, e.equals_iff j k) in subst P p h.0
    | inr other ↦ get-All k v m h.1 (ground arith)
  ]

  pub All-remove : (k : K) (m : Map K V) → All P m → All P (remove k m)
  unfolding remove
  All-remove k [] h = h
  All-remove k ((j, v) ∷ m) h =
      elim (j == k) as (λ b. All P (elim b [ true ↦ remove k m | false ↦ (j, v) ∷ remove k m ])) [
        | true ↦ All-remove k m h.1
        | false ↦ (h.0, All-remove k m h.1)
      ]

  pub All-insert : (k : K) (v : V) (m : Map K V) → P (k, v) → All P m → All P (insert k v m)
  unfolding insert
  All-insert k v m p h = (p, All-remove k m h)

  pub All-retain : (p : K × V → Bool) (m : Map K V) → All P m → All P (retain p m)
  All-retain p [] h = h
  All-retain p (b ∷ m) h =
      elim (p b) as (λ t. All P (elim t [ true ↦ b ∷ retain p m | false ↦ retain p m ])) [
        | true ↦ (h.0, All-retain p m h.1)
        | false ↦ All-retain p m h.1
      ]

module _ {ℓ κ} {K : Type ℓ} {V : Type κ} ⦃e : Key K⦄ where
  -- No entry is left at a key that was removed.
  pub All-remove_ne : (k : K) (m : Map K V) → All (λ b. ¬ (b.0 ≡ k)) (remove k m)
  unfolding remove
  All-remove_ne k [] = tt
  All-remove_ne k ((j, v) ∷ m) = elim (Bool-cases (j == k)) [
    | inl same ↦ rw (same, remove) (All-remove_ne k m)
    | inr other ↦ rw (other, remove) (ne_of_equals j k other, All-remove_ne k m)
  ]
