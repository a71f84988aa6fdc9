-- ===== src/Pool/Sync/Locks.antt =====
-- The two locks carry the invariant from the world to a closure and back.
use mara_pool.Prelude.{
  ℕ, Option, none, some, List, ◌≡◌, refl, nat_eq, Handler, Keeps, >>=-Keeps, arith,
}
use mara_pool.Prelude.Map.{lookup, lookup-insert}
use mara_pool.Stratum.{StratumCore}
use mara_pool.Pool.Error.{PoolError}
use mara_pool.Pool.State.{Downstream, RouteMessageTo}
use mara_pool.Pool.Access.{World, Locked, lock, unlock, with_downstream, forward, serve}
use mara_pool.Pool.Sync.Frame.{IsInSync, IsInSyncLocked, owns-insert}

module _ ⦃core : StratumCore⦄ where
  pub lock-IsInSync :
      (w : World) (d : ℕ) (ds : Downstream)
      → lookup d w.manager.downstream ≡ some ds
      → IsInSync w.manager
      → IsInSyncLocked d (lock w ds)
  lock-IsInSync w d ds found h = record {
    mine = λ c. ground (arith, h.sync d c);
    others = λ e c ne. h.sync e c;
    fresh = h.fresh;
    known = ground (arith, found);
  }

  pub unlock-IsInSync :
      (w : World) (d : ℕ) (ds : Downstream) (l : Locked)
      → IsInSyncLocked d l
      → IsInSync (unlock w d ds l).manager
  unlock-IsInSync w d ds l h = record {
    sync = λ e c. ground (
      arith,
      h.mine c,
      h.others e c,
      owns-insert d e c (record ds { downstream_data = l.downstream_data }) l.manager.downstream,
    );
    fresh = λ e le. ground (
      arith,
      h.fresh e,
      h.known,
      h.fresh d,
      lookup-insert e d (record ds { downstream_data = l.downstream_data }) l.manager.downstream,
    );
  }

  with_found-IsInSync :
      {A : Type 0} (o : Option Downstream) (d : ℕ) (e : PoolError)
      (body : Downstream → Handler Locked PoolError A) (w : World)
      → lookup d w.manager.downstream ≡ o
      → ((ds : Downstream) → Keeps (IsInSyncLocked d) (body ds))
      → IsInSync w.manager
      → IsInSync (with_downstream d e body w).1.manager
  unfolding with_downstream
  with_found-IsInSync none d e body w found keep h = rw (found, with_downstream) h
  with_found-IsInSync (some ds) d e body w found keep h =
      rw (found, with_downstream)
        (unlock-IsInSync w d ds (body ds (lock w ds)).1
          (keep ds (lock w ds) (lock-IsInSync w d ds found h)))

  -- A closure that keeps the invariant under the locks makes a handler that keeps it.
  pub with_downstream-IsInSync :
      {A : Type 0} (d : ℕ) (e : PoolError) (body : Downstream → Handler Locked PoolError A)
      → ((ds : Downstream) → Keeps (IsInSyncLocked d) (body ds))
      → Keeps (λ w. IsInSync w.manager) (with_downstream d e body)
  with_downstream-IsInSync d e body keep w h =
      with_found-IsInSync (lookup d w.manager.downstream) d e body w refl keep h

  pub forward-IsInSync :
      (messages : List RouteMessageTo)
      → Keeps (λ (w : World). IsInSync w.manager) (forward messages)
  unfolding forward
  forward-IsInSync messages w h = h

  pub serve-IsInSync :
      (d : ℕ) (e : PoolError) (body : Downstream → Handler Locked PoolError (List RouteMessageTo))
      → ((ds : Downstream) → Keeps (IsInSyncLocked d) (body ds))
      → Keeps (λ w. IsInSync w.manager) (serve d e body)
  unfolding serve
  serve-IsInSync d e body keep =
      >>=-Keeps (λ w. IsInSync w.manager) (with_downstream d e body) forward
        (with_downstream-IsInSync d e body keep) forward-IsInSync
