-- ===== src/Prelude/Results.antt =====
-- Rust's `Result`, and the outcome of a handler, which may also panic (`expect`, `unwrap`).
use mathlib.Core.Path.{◌≡◌, refl}
use mathlib.Core.Logic.{◌⊎◌, inl, inr}
use mathlib.Core.Bool.{Bool, true, false}
use mathlib.Core.Option.{Option, none, some}

pub data Result (E A : Type 0) : Type 0 where
  ok : A → Result E A
  err : E → Result E A

-- `Result::is_ok`.
abbrev pub is_ok : {E A : Type 0} → Result E A → Bool
is_ok (ok a) = true
is_ok (err e) = false

pub result_cases :
    {E A : Type 0} (r : Result E A) → ((a : A) × (r ≡ ok a)) ⊎ ((e : E) × (r ≡ err e))
result_cases (ok a) = inl (a, refl)
result_cases (err e) = inr (e, refl)

pub data Outcome (E A : Type 0) : Type 0 where
  done : A → Outcome E A
  failed : E → Outcome E A
  panicked : Outcome E A

pub outcome_cases :
    {E A : Type 0} (r : Outcome E A)
    → ((a : A) × (r ≡ done a)) ⊎ (((e : E) × (r ≡ failed e)) ⊎ (r ≡ panicked))
outcome_cases (done a) = inl (a, refl)
outcome_cases (failed e) = inr (inl (e, refl))
outcome_cases panicked = inr (inr refl)

-- A stateful computation that can return early with an error or panic. What was written to the
-- state before that stays written.
abbrev pub Handler : Type 0 → Type 0 → Type 0 → Type 0
Handler S E A = S → Outcome E A × S

module _ {S E : Type 0} where
  abbrev pub pure : {A : Type 0} → A → Handler S E A
  pure a s = (done a, s)

  abbrev pub fail : {A : Type 0} → E → Handler S E A
  fail e s = (failed e, s)

  abbrev pub panic : {A : Type 0} → Handler S E A
  panic s = (panicked, s)

  abbrev pub gets : {A : Type 0} → (S → A) → Handler S E A
  gets f s = (done (f s), s)

  abbrev pub modify : (S → S) → Handler S E (Unit {0})
  modify f s = (done tt, f s)

  -- A method on `&mut self` that returns a value.
  abbrev pub act : {A : Type 0} → (S → A × S) → Handler S E A
  act f s = let (a, s') = f s in (done a, s')

  -- `x?`, where `f` is the conversion of the error.
  abbrev pub or_fail : {D A : Type 0} → (D → E) → Result D A → Handler S E A
  or_fail f (ok a) s = (done a, s)
  or_fail f (err d) s = (failed (f d), s)

  -- `let Some(a) = o else { return Err(e) }`.
  abbrev pub some_or_fail : {A : Type 0} → E → Option A → Handler S E A
  some_or_fail e (some a) s = (done a, s)
  some_or_fail e none s = (failed e, s)

  -- `o.expect(..)`.
  abbrev pub expect : {A : Type 0} → Option A → Handler S E A
  expect (some a) s = (done a, s)
  expect none s = (panicked, s)

  -- `r.expect(..)` on a `Result`.
  abbrev pub expect_ok : {D A : Type 0} → Result D A → Handler S E A
  expect_ok (ok a) s = (done a, s)
  expect_ok (err d) s = (panicked, s)

  -- What follows a computation, from how it ended.
  abbrev pub resume : {A B : Type 0} → Outcome E A × S → (A → Handler S E B) → Outcome E B × S
  resume (done a, s) f = f a s
  resume (failed e, s) f = (failed e, s)
  resume (panicked, s) f = (panicked, s)

  infixl 5 ◌>>=◌ ◌>>◌
  abbrev pub ◌>>=◌ : {A B : Type 0} → Handler S E A → (A → Handler S E B) → Handler S E B
  ◌>>=◌ m f s = resume (m s) f

  abbrev pub ◌>>◌ : {B : Type 0} → Handler S E (Unit {0}) → Handler S E B → Handler S E B
  m >> k = m >>= λ _. k

  -- A handler that keeps a property of the state, however it ends.
  abbrev pub Keeps : {A : Type 0} → (S → Type 0) → Handler S E A → Type 0
  Keeps P m = (s : S) → P s → P (m s).1

  pub resume-Keeps :
      {A B : Type 0} (P : S → Type 0) (r : Outcome E A × S) (f : A → Handler S E B)
      → P r.1
      → ((a : A) → Keeps P (f a))
      → P (resume r f).1
  resume-Keeps P (done a, s) f h k = k a s h
  resume-Keeps P (failed e, s) f h k = h
  resume-Keeps P (panicked, s) f h k = h

  pub >>=-Keeps :
      {A B : Type 0} (P : S → Type 0) (m : Handler S E A) (f : A → Handler S E B)
      → Keeps P m
      → ((a : A) → Keeps P (f a))
      → Keeps P (m >>= f)
  >>=-Keeps P m f h k s p = resume-Keeps P (m s) f (h s p) k
