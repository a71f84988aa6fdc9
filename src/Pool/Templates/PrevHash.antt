-- ===== src/Pool/Templates/PrevHash.antt =====
-- `handle_set_new_prev_hash`.
use mara_pool.Prelude.{
  ℕ, Bool, none, some, List, [], ◌∷◌, ◌++◌, ok, err, Handler, pure, gets, modify, act, expect,
  ◌>>=◌, ◌>>◌, if◌then◌else◌,
}
use mara_pool.Prelude.Map.{is_some}
use mara_pool.Stratum.{StratumCore, TemplatePrevHash, set_new_prev_hash}
use mara_pool.Pool.Error.{PoolError}
use mara_pool.Pool.State.{Downstream, DownstreamData, RouteMessageTo, to_downstream}
use mara_pool.Pool.Access.{World, forward}
use mara_pool.Pool.Templates.Rounds.{for_each, over_standard, over_extended, over_downstream}

module _ ⦃core : StratumCore⦄ where
  open core use {standard, extended, group, standard_jobs, extended_jobs}

  -- `SetNewPrevHashMp { .. }` for a channel and its activated job.
  unfoldable pub prev_hash_message : ℕ → TemplatePrevHash → ℕ → ℕ → RouteMessageTo
  prev_hash_message d msg channel_id job_id = to_downstream d (
      set_new_prev_hash (record {
        channel_id = channel_id;
        job_id = job_id;
        prev_hash = msg.prev_hash;
        min_ntime = msg.header_timestamp;
        nbits = msg.n_bits;
      }))

  -- An error of the group channel is ignored.
  unfoldable pub group_prev_hash :
      TemplatePrevHash → ℕ → Handler DownstreamData PoolError (List RouteMessageTo)
  group_prev_hash msg d = do
    present ← gets (λ s. s.group_channels)
    elim present [
      | none ↦ pure []
      | some g ↦ do
        let (res, g') = group.on_set_new_prev_hash g msg
        modify (λ s. record s { group_channels = some g' })
        job ← expect (group.get_active_job g')
        pure (
            prev_hash_message d msg (group.get_group_channel_id g') (extended_jobs.get_job_id job)
            ∷ [])
    ]

  unfoldable pub standard_prev_hash_round :
      ℕ → TemplatePrevHash → Bool → ℕ → Handler standard.Channel PoolError (List RouteMessageTo)
  standard_prev_hash_round d msg has_group channel_id = do
    res ← act (λ c. standard.on_set_new_prev_hash c msg)
    channel ← gets (λ c. c)
    elim res [
      | err e ↦ pure []
      | ok _ ↦ if has_group then pure [] else (do
        job ← expect (standard.get_active_job channel)
        pure (prev_hash_message d msg channel_id (standard_jobs.get_job_id job) ∷ []))
    ]

  unfoldable pub extended_prev_hash_round :
      ℕ → TemplatePrevHash → Bool → ℕ → Handler extended.Channel PoolError (List RouteMessageTo)
  extended_prev_hash_round d msg requires_custom_work channel_id = do
    res ← act (λ c. extended.on_set_new_prev_hash c msg)
    channel ← gets (λ c. c)
    elim res [
      | err e ↦ pure []
      | ok _ ↦ if requires_custom_work then pure [] else (do
        job ← expect (extended.get_active_job channel)
        pure (prev_hash_message d msg channel_id (extended_jobs.get_job_id job) ∷ []))
    ]

  -- The closure for one connection.
  unfoldable pub downstream_prev_hash :
      TemplatePrevHash → Bool → ℕ → Handler DownstreamData PoolError (List RouteMessageTo)
  downstream_prev_hash msg requires_custom_work d = do
    grouped ← group_prev_hash msg d
    has_group ← gets (λ s. is_some s.group_channels)
    own ← over_standard (for_each (standard_prev_hash_round d msg has_group))
    others ← over_extended (for_each (extended_prev_hash_round d msg requires_custom_work))
    pure (grouped ++ (own ++ others))

  unfoldable pub prev_hash_in :
      TemplatePrevHash → ℕ → Handler Downstream PoolError (List RouteMessageTo)
  prev_hash_in msg d ds =
      let (r, data') = downstream_prev_hash msg ds.requires_custom_work d ds.downstream_data in
      (r, record ds { downstream_data = data' })

  unfoldable pub handle_set_new_prev_hash : TemplatePrevHash → Handler World PoolError (Unit {0})
  handle_set_new_prev_hash msg = do
    modify (λ w. record w { manager = record (w.manager) { last_new_prev_hash = some msg } })
    messages ← over_downstream (for_each (prev_hash_in msg))
    forward messages
