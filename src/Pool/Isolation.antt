-- ===== src/Pool/Isolation.antt =====
-- A message of a client acts on its own connection: the other connections' state is left alone, and
-- nothing is sent to them.
pub mod Shares
pub mod Requests
pub mod Openings
pub mod Clients
use mathlib.Core.List.{append-nil}
use mara_pool.Prelude.{
  ℕ, Bool, true, false, ◌&&◌, ◌||◌, Option, none, some, ◌≡◌, refl, sym, ap, ◌∙◌, ◌⊎◌, inl, inr,
  List, [], ◌∷◌, ◌++◌, nat_eq, ◌==◌, arith, Handler, Outcome, done, failed, panicked, Option-cases,
  outcome_cases, ◌>>=◌, if◌then◌else◌,
}
use mara_pool.Prelude.Map.{lookup, lookup-insert}
use mara_pool.Stratum.{StratumCore}
use mara_pool.Pool.Error.{PoolError}
use mara_pool.Pool.State.{Downstream, RouteMessageTo, to_downstream, template_provider}
use mara_pool.Pool.Access.{World, Locked, lock, with_downstream, forward, serve}

module _ ⦃core : StratumCore⦄ where
  -- The message is for connection `d` or for the template provider.
  abbrev pub is_for : ℕ → RouteMessageTo → Bool
  is_for d (to_downstream e m) = e == d
  is_for d (template_provider m) = true

  abbrev pub all_for : ℕ → List RouteMessageTo → Bool
  all_for d [] = true
  all_for d (m ∷ ms) = is_for d m && all_for d ms

  -- The result of a closure under the locks of `d`.
  pub record IsLocal (d : ℕ) (l : Locked) (res : Outcome PoolError (List RouteMessageTo) × Locked)
      : Type 0 where
    pub downstream_eq : res.1.manager.downstream ≡ l.manager.downstream
    pub addressed :
        (messages : List RouteMessageTo) → res.0 ≡ done messages → all_for d messages ≡ true

  -- The result of a handler of a message of `d`.
  pub record IsIsolated (d : ℕ) (w w' : World) : Type 0 where
    pub others :
        (e : ℕ)
        → lookup e w'.manager.downstream
          ≡ (if d == e then lookup e w'.manager.downstream else lookup e w.manager.downstream)
    pub sent : (new : List RouteMessageTo) × (w'.routed ≡ w.routed ++ new) × (all_for d new ≡ true)

  pub apart {ℓ} : {A : Type ℓ} (b : Bool) (x y : A) → (b ≡ false → x ≡ y) → x ≡ (if b then x else y)
  apart true x y h = refl
  apart false x y h = h refl

  pub unchanged : (d : ℕ) (w : World) → IsIsolated d w w
  unchanged d w = record {
    others = λ e. apart (d == e) _ _ (λ ne. refl);
    sent = ([], sym (append-nil w.routed), refl);
  }

  pub with_downstream-others :
      {A : Type 0} (d : ℕ) (e : PoolError) (body : Downstream → Handler Locked PoolError A)
      (w : World)
      → ((ds : Downstream) (l : Locked) → (body ds l).1.manager.downstream ≡ l.manager.downstream)
      → (c : ℕ) → (d == c) ≡ false
      → lookup c (with_downstream d e body w).1.manager.downstream ≡ lookup c w.manager.downstream
  unfolding with_downstream
  with_downstream-others d e body w same c ne =
      elim (Option-cases (lookup d w.manager.downstream)) [
        | inl unknown ↦ ground (arith, unknown)
        | inr (ds, known) ↦
            let l = (body ds (lock w ds)).1 in
            ground (
              arith,
              known,
              same ds (lock w ds),
              lookup-insert c d (record ds { downstream_data = l.downstream_data })
                  l.manager.downstream,
            )
      ]

  module _ {A : Type 0} (pack : A → List RouteMessageTo) (d : ℕ) (e : PoolError)
      (body : Downstream → Handler Locked PoolError A) (w : World) where
    -- What the body returns is packed and forwarded.
    abbrev packed : World
    packed = ((with_downstream d e body >>= λ a. forward (pack a)) w).1

    packed-manager : packed.manager ≡ (with_downstream d e body w).1.manager
    unfolding forward
    packed-manager = ground arith

    packed-sent :
        ((ds : Downstream) (l : Locked) (a : A)
          → (body ds l).0 ≡ done a
          → all_for d (pack a) ≡ true)
        → (new : List RouteMessageTo) × (packed.routed ≡ w.routed ++ new) × (all_for d new ≡ true)
    unfolding with_downstream forward
    packed-sent addressed = elim (Option-cases (lookup d w.manager.downstream)) [
      | inl unknown ↦ ([], ground (arith, unknown, append-nil w.routed), refl)
      | inr (ds, known) ↦ elim (outcome_cases (body ds (lock w ds)).0) [
        | inl (a, replied) ↦
            (pack a, ground (arith, known, replied), addressed ds (lock w ds) a replied)
        | inr stopped ↦ ([], ground (arith, known, stopped, append-nil w.routed), refl)
      ]
    ]

    -- A closure that leaves the other connections alone, and whose messages are for its own.
    pub packed-IsIsolated :
        ((ds : Downstream) (l : Locked) → (body ds l).1.manager.downstream ≡ l.manager.downstream)
        → ((ds : Downstream) (l : Locked) (a : A)
            → (body ds l).0 ≡ done a
            → all_for d (pack a) ≡ true)
        → IsIsolated d w packed
    packed-IsIsolated same addressed = record {
      others = λ c. apart (d == c) _ _ (λ ne.
          ap (λ m. lookup c m.downstream) packed-manager
          ∙ with_downstream-others d e body w same c ne);
      sent = packed-sent addressed;
    }

  -- A closure whose result is local makes an isolated handler.
  pub serve-IsIsolated :
      (d : ℕ) (e : PoolError) (body : Downstream → Handler Locked PoolError (List RouteMessageTo))
      (w : World)
      → ((ds : Downstream) (l : Locked) → IsLocal d l (body ds l))
      → IsIsolated d w (serve d e body w).1
  unfolding serve
  serve-IsIsolated d e body w keep =
      packed-IsIsolated (λ ms. ms) d e body w (λ ds l. (keep ds l).downstream_eq)
        (λ ds l. (keep ds l).addressed)

  -- A state with the same connections.
  pub IsLocal-trans :
      (d : ℕ) (k l : Locked) (res : Outcome PoolError (List RouteMessageTo) × Locked)
      → k.manager.downstream ≡ l.manager.downstream
      → IsLocal d k res
      → IsLocal d l res
  IsLocal-trans d k l res same h = record {
    downstream_eq = ground (arith, h.downstream_eq);
    addressed = h.addressed;
  }
