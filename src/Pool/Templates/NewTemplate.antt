-- ===== src/Pool/Templates/NewTemplate.antt =====
-- `handle_new_template`.
use mara_pool.Prelude.{
  ℕ, Bool, Option, none, some, List, [], ◌∷◌, ◌++◌, ok, err, is_ok, Handler, pure, gets, modify,
  act, expect, ◌>>=◌, ◌>>◌, if◌then◌else◌,
}
use mara_pool.Prelude.Map.{is_some}
use mara_pool.Stratum.{StratumCore, NewTemplate, TxOut, new_mining_job, new_extended_mining_job}
use mara_pool.Pool.Error.{PoolError}
use mara_pool.Pool.State.{DownstreamData, RouteMessageTo, to_downstream}
use mara_pool.Pool.Access.{World, forward}
use mara_pool.Pool.Templates.Rounds.{
  for_each, over_standard, over_extended, over_data, over_downstream,
}

-- `coinbase_output[0].value = ..`: an index out of bounds panics.
unfoldable pub set_first_value : ℕ → List TxOut → Option (List TxOut)
set_first_value v [] = none
set_first_value v (output ∷ outputs) = some (record output { value = v } ∷ outputs)

module _ ⦃core : StratumCore⦄ where
  open core use {
    standard, extended, group, standard_jobs, extended_jobs, on_group_channel_job,
    deserialize_outputs,
  }

  -- The job that a template gave rise to: a future job, or else the active one. `none` is where
  -- the code calls `expect`.
  unfoldable pub job_of_template :
      {C J : Type 0}
      → (C → ℕ → Option ℕ)
      → (C → ℕ → Option J)
      → (C → Option J)
      → NewTemplate
      → C
      → Option J
  job_of_template future_job_id future_job active_job msg channel =
      if msg.future_template
      then elim (future_job_id channel msg.template_id) [
        | none ↦ none
        | some id ↦ future_job channel id
      ]
      else active_job channel

  unfoldable pub group_template_job :
      NewTemplate → List TxOut → Handler DownstreamData PoolError (Option extended_jobs.Job)
  group_template_job msg outputs = do
    present ← gets (λ s. s.group_channels)
    elim present [
      | none ↦ pure none
      | some g ↦ do
        let (res, g') = group.on_new_template g msg outputs
        modify (λ s. record s { group_channels = some g' })
        if is_ok res
            then (do
              job ←
                  expect (
                    job_of_template group.future_job_id group.future_job group.get_active_job msg
                      g')
              pure (some job))
            else pure none
    ]

  -- The part of a round that is for connections with no group channel; `none` is `continue`.
  unfoldable pub own_standard_job :
      ℕ
      → NewTemplate
      → List TxOut
      → Bool
      → Handler standard.Channel PoolError (Option (List RouteMessageTo))
  own_standard_job d msg outputs has_group = if has_group then pure (some []) else (do
    res ← act (λ c. standard.on_new_template c msg outputs)
    channel ← gets (λ c. c)
    elim res [
      | err e ↦ pure none
      | ok _ ↦ do
        job ← expect (
            job_of_template standard.future_job_id standard.future_job standard.get_active_job msg
              channel)
        pure (some (to_downstream d (new_mining_job (standard_jobs.get_job_message job)) ∷ []))
    ])

  -- The part for connections whose group channel has a job.
  unfoldable pub follow_group_job :
      NewTemplate
      → List TxOut
      → Option extended_jobs.Job
      → Handler standard.Channel PoolError (Unit {0})
  follow_group_job msg outputs none = pure tt
  follow_group_job msg outputs (some job) = do
    res ← act (λ c. standard.on_new_template c msg outputs)
    if is_ok res then modify (λ c. on_group_channel_job c job) else pure tt

  unfoldable pub standard_template_round :
      ℕ
      → NewTemplate
      → List TxOut
      → Bool
      → Option extended_jobs.Job
      → ℕ
      → Handler standard.Channel PoolError (List RouteMessageTo)
  standard_template_round d msg outputs has_group group_job channel_id = do
    own ← own_standard_job d msg outputs has_group
    elim own [
      | none ↦ pure []
      | some messages ↦ do follow_group_job msg outputs group_job; pure messages
    ]

  unfoldable pub extended_template_round :
      ℕ → NewTemplate → List TxOut → ℕ → Handler extended.Channel PoolError (List RouteMessageTo)
  extended_template_round d msg outputs channel_id = do
    res ← act (λ c. extended.on_new_template c msg outputs)
    channel ← gets (λ c. c)
    elim res [
      | err e ↦ pure []
      | ok _ ↦ do
        job ← expect (
            job_of_template extended.future_job_id extended.future_job extended.get_active_job msg
              channel)
        pure (to_downstream d (new_extended_mining_job (extended_jobs.get_job_message job)) ∷ [])
    ]

  -- The group channel's job is announced once, after the standard channels' own jobs.
  unfoldable pub group_announcement : ℕ → Option extended_jobs.Job → List RouteMessageTo
  group_announcement d none = []
  group_announcement d (some job) =
      to_downstream d (new_extended_mining_job (extended_jobs.get_job_message job)) ∷ []

  -- The closure for one connection.
  unfoldable pub downstream_template :
      NewTemplate → List TxOut → ℕ → Handler DownstreamData PoolError (List RouteMessageTo)
  downstream_template msg outputs d = do
    group_job ← group_template_job msg outputs
    has_group ← gets (λ s. is_some s.group_channels)
    own ← over_standard (for_each (standard_template_round d msg outputs has_group group_job))
    others ← over_extended (for_each (extended_template_round d msg outputs))
    pure (own ++ (group_announcement d group_job ++ others))

  unfoldable pub handle_new_template : NewTemplate → Handler World PoolError (Unit {0})
  handle_new_template msg = do
    modify (λ w. record w {
      manager = record (w.manager) {
        last_future_template =
            if msg.future_template then some msg else w.manager.last_future_template;
      };
    })
    outputs ← expect (deserialize_outputs (← gets (λ w. w.manager.coinbase_outputs)))
    coinbase_output ← expect (set_first_value msg.coinbase_tx_value_remaining outputs)
    messages ←
        over_downstream (for_each (λ d. over_data (downstream_template msg coinbase_output d)))
    forward messages
