-- ===== src/Prelude/Lists.antt =====
-- Lists over the native numbers.
use Prim.Native.Nat.{ℕ, suc, ◌+◌}
use mathlib.Core.Path.{◌≡◌, refl}
use mathlib.Core.Logic.{◌⊎◌, ◌↔◌, inl, inr}
use mathlib.Core.Bool.{Bool, true, false, ◌||◌, ◌&&◌}
use mathlib.Core.List.{List, [], ◌∷◌, ◌++◌}
use native.Mathlib.Omega.{arith}
use mara_pool.Prelude.Tests.{Eq, ◌==◌, nat_eq, nat_eqb_iff}

module _ {ℓ} {A : Type ℓ} where
  abbrev pub length : List A → ℕ
  length [] = 0
  length (x ∷ xs) = suc (length xs)

  pub length-append : (xs ys : List A) → length (xs ++ ys) ≡ length xs + length ys
  length-append [] ys = omega arith
  length-append (x ∷ xs) ys = omega (arith, length-append xs ys)

  -- A property of every element.
  abbrev pub All {κ} : (A → Type κ) → List A → Type κ
  All P [] = Unit
  All P (x ∷ xs) = P x × All P xs

  pub All-append {κ} : (P : A → Type κ) (xs ys : List A) → All P xs → All P ys → All P (xs ++ ys)
  All-append P [] ys h k = k
  All-append P (x ∷ xs) ys h k = (h.0, All-append P xs ys h.1 k)

module _ {ℓ} {A : Type ℓ} ⦃e : Eq A⦄ where
  -- `Vec::contains`.
  abbrev pub member : A → List A → Bool
  member a [] = false
  member a (x ∷ xs) = a == x || member a xs

-- Every element passes the test.
abbrev pub all_of {ℓ} : {A : Type ℓ} → (A → Bool) → List A → Bool
all_of p [] = true
all_of p (x ∷ xs) = p x && all_of p xs

pub all_of-append {ℓ} :
    {A : Type ℓ} (p : A → Bool) (xs ys : List A)
    → all_of p (xs ++ ys) ≡ (all_of p xs && all_of p ys)
all_of-append p [] ys = refl
all_of-append p (x ∷ xs) ys = ground (arith, all_of-append p xs ys)

-- The value is an element.
abbrev pub In : {A : Type 0} → A → List A → Type 0
In x [] = ⊥
In x (y ∷ ys) = (x ≡ y) ⊎ In x ys

pub In-append_right : {A : Type 0} (x : A) (xs ys : List A) → In x ys → In x (xs ++ ys)
In-append_right x [] ys at = at
In-append_right x (z ∷ xs) ys at = inr (In-append_right x xs ys at)

pub In-append_left : {A : Type 0} (x : A) (xs ys : List A) → In x xs → In x (xs ++ ys)
In-append_left x [] ys at = elim at [ ]
In-append_left x (z ∷ xs) ys (inl same) = inl same
In-append_left x (z ∷ xs) ys (inr at) = inr (In-append_left x xs ys at)

pub In-append : {A : Type 0} (x : A) (xs ys : List A) → In x (xs ++ ys) → In x xs ⊎ In x ys
In-append x [] ys at = inr at
In-append x (z ∷ xs) ys (inl same) = inl (inl same)
In-append x (z ∷ xs) ys (inr at) = elim (In-append x xs ys at) [
  | inl here ↦ inl (inr here)
  | inr there ↦ inr there
]

-- Equality of strings and byte vectors.
abbrev pub list_eqb : List ℕ → List ℕ → Bool
list_eqb [] [] = true
list_eqb [] (y ∷ ys) = false
list_eqb (x ∷ xs) [] = false
list_eqb (x ∷ xs) (y ∷ ys) = x == y && list_eqb xs ys

pub list_eqb_iff : (xs ys : List ℕ) → (list_eqb xs ys ≡ true) ↔ (xs ≡ ys)
list_eqb_iff [] [] = (λ h. refl, λ h. refl)
list_eqb_iff [] (y ∷ ys) = (λ h. ground arith, λ h. ground arith)
list_eqb_iff (x ∷ xs) [] = (λ h. ground arith, λ h. ground arith)
list_eqb_iff (x ∷ xs) (y ∷ ys) = (
  λ h. ground (arith, list_eqb_iff xs ys, nat_eqb_iff x y),
  λ h. ground (arith, list_eqb_iff xs ys, nat_eqb_iff x y),
)

instance abbrev pub list_eq : Eq (List ℕ)
list_eq = record { beq = list_eqb; beq_iff = list_eqb_iff }
