-- ===== src/Pool/Templates/Rounds.antt =====
-- The loops over the channels of a connection and over the connections.
use mara_pool.Prelude.{ℕ, List, [], ◌∷◌, ◌++◌, done, failed, panicked, Handler}
use mara_pool.Prelude.Map.{Map}
use mara_pool.Stratum.{StratumCore}
use mara_pool.Pool.Error.{PoolError}
use mara_pool.Pool.State.{Downstream, DownstreamData}
use mara_pool.Pool.Access.{World}

-- `for (key, value) in map.iter_mut()`, with the messages of each round in order. A panic stops
-- the loop; what it has written stays.
unfoldable pub for_each :
    {K V M : Type 0} → (K → Handler V PoolError (List M)) → Handler (Map K V) PoolError (List M)
for_each body [] = (done [], [])
for_each body ((k, v) ∷ m) =
    let rest = for_each body m in
    let (r, v') = body k v in
    elim r [
      | failed e ↦ (failed e, (k, v') ∷ m)
      | panicked ↦ (panicked, (k, v') ∷ m)
      | done messages ↦ elim (rest.0) [
        | failed e ↦ (failed e, (k, v') ∷ rest.1)
        | panicked ↦ (panicked, (k, v') ∷ rest.1)
        | done more ↦ (done (messages ++ more), (k, v') ∷ rest.1)
      ]
    ]

module _ ⦃core : StratumCore⦄ where
  open core use {standard, extended}

  -- A computation on one part of the state.
  unfoldable pub over_standard :
      {A : Type 0}
      → Handler (Map ℕ standard.Channel) PoolError A
      → Handler DownstreamData PoolError A
  over_standard h s = let (r, m) = h s.standard_channels in (r, record s { standard_channels = m })

  unfoldable pub over_extended :
      {A : Type 0}
      → Handler (Map ℕ extended.Channel) PoolError A
      → Handler DownstreamData PoolError A
  over_extended h s = let (r, m) = h s.extended_channels in (r, record s { extended_channels = m })

  unfoldable pub over_data :
      {A : Type 0} → Handler DownstreamData PoolError A → Handler Downstream PoolError A
  over_data h ds =
      let (r, data') = h ds.downstream_data in (r, record ds { downstream_data = data' })

  unfoldable pub over_downstream :
      {A : Type 0} → Handler (Map ℕ Downstream) PoolError A → Handler World PoolError A
  over_downstream h w =
      let (r, m) = h w.manager.downstream in
      (r, record w { manager = record (w.manager) { downstream = m } })
