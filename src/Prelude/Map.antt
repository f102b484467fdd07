-- ===== src/Prelude/Map.antt =====
-- `HashMap<K, V>` as an association list, and its laws.
-- The order of the list stands for the map's iteration order, which the source leaves open.
use Prim.Native.Nat.{ℕ, suc, ◌+◌, ◌≤◌}
use Prim.Native.String.{String}
use mathlib.Core.Logic.{inl, inr}
use mathlib.Core.Path.{◌≡◌, refl, subst}
use mathlib.Core.Bool.{Bool, false}
use mathlib.Core.List.{List, [], ◌∷◌}
use mathlib.Core.Option.{Option, none, some}
use native.Mathlib.Omega.{arith}
use sctl.Prelude.Tests.{if◌then◌else◌, Bool-cases}
use sctl.Prelude.Lists.{length}
use sctl.Prelude.Keys.{Eq}

module _ {κ ℓ} {K : Type κ} {V : Type ℓ} where
  -- How many values meet a test: `values().filter(p).count()`.
  unfoldable pub count_values : (V → Bool) → List (K × V) → ℕ
  count_values p [] = 0
  count_values p ((j, w) ∷ m) = if p w then suc (count_values p m) else count_values p m

module _ {κ ℓ} {K : Type κ} {V : Type ℓ} ⦃eq : Eq K⦄ where
  -- `get`
  unfoldable pub lookup : K → List (K × V) → Option V
  lookup k [] = none
  lookup k ((j, v) ∷ m) = if eq.beq j k then some v else lookup k m

  -- `insert`, and the write back through `get_mut`.
  unfoldable pub insert : K → V → List (K × V) → List (K × V)
  insert k v [] = (k, v) ∷ []
  insert k v ((j, w) ∷ m) = if eq.beq j k then (k, v) ∷ m else (j, w) ∷ insert k v m

  unfoldable pub remove : K → List (K × V) → List (K × V)
  remove k [] = []
  remove k ((j, w) ∷ m) = if eq.beq j k then remove k m else (j, w) ∷ remove k m

  pub lookup-insert :
      (k j : K) (v : V) (m : List (K × V))
      → lookup j (insert k v m) ≡ (if eq.beq k j then some v else lookup j m)
  unfolding lookup insert
  lookup-insert k j v [] = refl
  lookup-insert k j v ((i, w) ∷ m) =
      ground (arith, eq.beq_iff k j, eq.beq_iff i k, eq.beq_iff i j, lookup-insert k j v m)

  pub lookup-insert_self : (k : K) (v : V) (m : List (K × V)) → lookup k (insert k v m) ≡ some v
  lookup-insert_self k v m = ground (arith, eq.beq_iff k k, lookup-insert k k v m)

  pub lookup-remove :
      (k j : K) (m : List (K × V))
      → lookup j (remove k m) ≡ (if eq.beq k j then none else lookup j m)
  unfolding lookup remove
  lookup-remove k j [] = ground arith
  lookup-remove k j ((i, w) ∷ m) =
      ground (arith, eq.beq_iff k j, eq.beq_iff i k, eq.beq_iff i j, lookup-remove k j m)

  pub length-insert-le : (k : K) (v : V) (m : List (K × V)) → length (insert k v m) ≤ length m + 1
  unfolding insert
  length-insert-le k v [] = omega arith
  length-insert-le k v ((j, w) ∷ m) = ground (arith, length-insert-le k v m)

  pub count_values-insert-le :
      (p : V → Bool) (k : K) (v : V) (m : List (K × V))
      → count_values p (insert k v m) ≤ suc (count_values p m)
  unfolding insert count_values
  count_values-insert-le p k v [] = ground arith
  count_values-insert-le p k v ((j, w) ∷ m) = ground (arith, count_values-insert-le p k v m)

  -- A value that fails the test adds nothing to the count.
  pub count_values-insert-false :
      (p : V → Bool) (k : K) (v : V) (m : List (K × V))
      → p v ≡ false
      → count_values p (insert k v m) ≤ count_values p m
  unfolding insert count_values
  count_values-insert-false p k v [] h = ground arith
  count_values-insert-false p k v ((j, w) ∷ m) h = ground (arith, count_values-insert-false p k v m)

-- `iter_mut()`: every value is replaced.
module _ {κ ℓ} {K : Type κ} {V : Type ℓ} where
  unfoldable pub map_values : (V → V) → List (K × V) → List (K × V)
  map_values f [] = []
  map_values f ((j, w) ∷ m) = (j, f w) ∷ map_values f m

  -- The keys of the values that meet a test.
  unfoldable pub filter_keys : (V → Bool) → List (K × V) → List K
  filter_keys p [] = []
  filter_keys p ((j, w) ∷ m) = if p w then j ∷ filter_keys p m else filter_keys p m

abbrev pub map_option {ℓ κ} : {V : Type ℓ} {W : Type κ} → (V → W) → Option V → Option W
map_option f none = none
map_option f (some v) = some (f v)

module _ {κ ℓ} {K : Type κ} {V : Type ℓ} ⦃eq : Eq K⦄ where
  pub lookup-map_values :
      (f : V → V) (k : K) (m : List (K × V)) → lookup k (map_values f m) ≡ map_option f (lookup k m)
  unfolding lookup map_values
  lookup-map_values f k [] = refl
  lookup-map_values f k ((j, w) ∷ m) = ground (arith, lookup-map_values f k m)

-- Every entry of the map, by its key, has the property.
abbrev pub Entries {κ ℓ ν} :
    {K : Type κ} {V : Type ℓ} ⦃eq : Eq K⦄ → (K → V → Type ν) → List (K × V) → Type (κ ⊔ ℓ ⊔ ν)
Entries {K} {V} P m = (k : K) (v : V) → lookup k m ≡ some v → P k v

module _ {V : Type 0} ⦃eq : Eq String⦄ (P : String → V → Type 0) where
  pub Entries-insert :
      (k : String) (v : V) (m : List (String × V)) → P k v → Entries P m → Entries P (insert k v m)
  Entries-insert k v m h all j w e = elim (Bool-cases (eq.beq k j)) [
    | inl same ↦
        ground (arith, lookup-insert k j v m, subst (λ i. P i v) ((eq.beq_iff k j).0 same) h)
    | inr other ↦ all j w (ground (arith, lookup-insert k j v m))
  ]

  pub Entries-remove : (k : String) (m : List (String × V)) → Entries P m → Entries P (remove k m)
  Entries-remove k m all j w e = all j w (ground (arith, lookup-remove k j m))

-- No key stands twice.
module _ {V : Type 0} ⦃eq : Eq String⦄ where
  abbrev pub Distinct : List (String × V) → Type 0
  Distinct [] = Unit {0}
  Distinct ((j, w) ∷ m) = (lookup j m ≡ none) × Distinct m

  pub insert-Distinct :
      (k : String) (v : V) (m : List (String × V)) → Distinct m → Distinct (insert k v m)
  unfolding insert lookup
  insert-Distinct k v [] d = (refl, tt)
  insert-Distinct k v ((j, w) ∷ m) d = elim (Bool-cases (eq.beq j k)) [
    | inl same ↦
        let e : j ≡ k = (eq.beq_iff j k).0 same in
        rw same (subst (λ i. lookup i m ≡ none) e d.0, d.1)
    | inr other ↦ rw other (
      ground (arith, lookup-insert k j v m, eq.beq_iff j k, eq.beq_iff k j, d.0),
      insert-Distinct k v m d.1,
    )
  ]

  pub remove-Distinct : (k : String) (m : List (String × V)) → Distinct m → Distinct (remove k m)
  unfolding remove
  remove-Distinct k [] d = tt
  remove-Distinct k ((j, w) ∷ m) d = elim (Bool-cases (eq.beq j k)) [
    | inl same ↦ rw same (remove-Distinct k m d.1)
    | inr other ↦ rw other (ground (arith, lookup-remove k j m, d.0), remove-Distinct k m d.1)
  ]

  pub map_values-Distinct :
      (f : V → V) (m : List (String × V)) → Distinct m → Distinct (map_values f m)
  unfolding map_values
  map_values-Distinct f [] d = tt
  map_values-Distinct f ((j, w) ∷ m) d =
      (ground (arith, lookup-map_values f j m, d.0), map_values-Distinct f m d.1)
