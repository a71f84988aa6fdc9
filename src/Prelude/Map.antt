-- ===== src/Prelude/Map.antt =====
-- `HashMap` as an association list. The order of the list stands for the order in which one
-- iteration visits the entries.
use mathlib.Core.Path.{◌≡◌, refl}
use mathlib.Core.Logic.{inl, inr}
use mathlib.Core.Bool.{Bool, true, false}
use mathlib.Core.Option.{Option, none, some}
use mathlib.Core.List.{List, [], ◌∷◌}
use native.Mathlib.Omega.{arith}
use mara_pool.Prelude.Tests.{Eq, ◌==◌, if◌then◌else◌, Bool-cases}

abbrev pub Map {ℓ κ} : Type ℓ → Type κ → Type (ℓ ⊔ κ)
Map K V = List (K × V)

abbrev pub is_some {ℓ} : {A : Type ℓ} → Option A → Bool
is_some none = false
is_some (some a) = true

module _ {ℓ κ} {K : Type ℓ} {V : Type κ} ⦃e : Eq K⦄ where
  -- `HashMap::get`.
  unfoldable pub lookup : K → Map K V → Option V
  lookup k [] = none
  lookup k ((j, v) ∷ m) = if j == k then some v else lookup k m

  -- `HashMap::remove`.
  unfoldable pub remove : K → Map K V → Map K V
  remove k [] = []
  remove k ((j, v) ∷ m) = let rest = remove k m in if j == k then rest else (j, v) ∷ rest

  -- `HashMap::insert`, and the write through `get_mut`.
  unfoldable pub insert : K → V → Map K V → Map K V
  insert k v [] = (k, v) ∷ []
  insert k v ((j, w) ∷ m) = if j == k then (j, v) ∷ m else (j, w) ∷ insert k v m

  -- `HashMap::retain` by a test on the key.
  unfoldable pub retain : (K → Bool) → Map K V → Map K V
  retain p [] = []
  retain p ((j, v) ∷ m) = let rest = retain p m in if p j then (j, v) ∷ rest else rest

  abbrev pub contains : K → Map K V → Bool
  contains k m = is_some (lookup k m)

  pub lookup-insert :
      (j k : K) (v : V) (m : Map K V)
      → lookup j (insert k v m) ≡ (if k == j then some v else lookup j m)
  unfolding lookup insert
  lookup-insert j k v [] = refl
  lookup-insert j k v ((i, w) ∷ m) =
      ground (arith, lookup-insert j k v m, e.beq_iff i k, e.beq_iff i j, e.beq_iff k j)

  pub lookup-remove :
      (j k : K) (m : Map K V) → lookup j (remove k m) ≡ (if k == j then none else lookup j m)
  unfolding lookup remove
  lookup-remove j k [] = ground arith
  lookup-remove j k ((i, w) ∷ m) =
      ground (arith, lookup-remove j k m, e.beq_iff i k, e.beq_iff i j, e.beq_iff k j)

  pub lookup-retain :
      (j : K) (p : K → Bool) (m : Map K V)
      → lookup j (retain p m) ≡ (if p j then lookup j m else none)
  unfolding lookup retain
  lookup-retain j p [] = ground arith
  lookup-retain j p ((i, w) ∷ m) = elim (Bool-cases (i == j)) [
    | inl same ↦ ground (arith, lookup-retain j p m, e.beq_iff i j)
    | inr other ↦ ground (arith, lookup-retain j p m)
  ]
