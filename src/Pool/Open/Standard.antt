-- ===== src/Pool/Open/Standard.antt =====
-- `handle_open_standard_mining_channel`.
use mathlib.Core.Option.{map as map_some}
use mara_pool.Prelude.{
  ℕ, not, ◌&&◌, Option, none, some, List, [], ◌∷◌, ok, err, Handler, pure, panic, gets, modify,
  or_fail, some_or_fail, expect, expect_ok, ◌>>=◌, ◌>>◌, if◌then◌else◌, nat_eq,
}
use mara_pool.Prelude.Map.{insert, is_some}
use mara_pool.Stratum.{
  StratumCore, NewTemplate, TemplatePrevHash, ErrorCode, OpenStandardMiningChannel,
  open_standard_mining_channel_success, new_mining_job, set_new_prev_hash,
}
use mara_pool.Pool.Error.{
  PoolError, channel_error_sender, downstream_id_not_found, future_template_not_present,
  last_new_prevhash_not_found, failed_to_create_group_channel, vardiff_error, from_group,
  from_extranonce, from_standard,
}
use mara_pool.Pool.State.{
  vardiff_key, vardiff_key_eq, full_extranonce_size, Downstream, PoolSettings, RouteMessageTo,
  to_downstream,
}
use mara_pool.Pool.Access.{World, Locked, serve}
use mara_pool.Pool.Open.Common.{
  fetch_channel_id, pool_coinbase_output, open_error, standard_open_error, refuse,
}

module _ ⦃core : StratumCore⦄ where
  open core use {
    standard, group, standard_jobs, new_standard, next_prefix_standard, to_b032, vardiff_new,
  }

  -- The new group channel is stored only when both of its updates went through.
  unfoldable pub create_group_channel :
      PoolSettings → NewTemplate → TemplatePrevHash → Handler Locked PoolError (Unit {0})
  create_group_channel settings template prev_hash = do
    id ← fetch_channel_id
    channel ←
        or_fail failed_to_create_group_channel
          (group.new_for_pool id full_extranonce_size settings.pool_tag_string)
    let (added, channel') =
        group.on_new_template channel template (pool_coinbase_output settings template ∷ [])
    or_fail from_group added
    let (moved, channel'') = group.on_set_new_prev_hash channel' prev_hash
    or_fail from_group moved
    modify (λ l. record l {
      downstream_data = record (l.downstream_data) { group_channels = some channel'' };
    })

  unfoldable pub ensure_group_channel :
      PoolSettings
      → Downstream
      → NewTemplate
      → TemplatePrevHash
      → Handler Locked PoolError (Unit {0})
  ensure_group_channel settings ds template prev_hash = do
    present ← gets (λ l. is_some l.downstream_data.group_channels)
    if not ds.requires_standard_jobs && not present
        then create_group_channel settings template prev_hash
        else pure tt

  -- The channel and its vardiff state are stored; the group channel learns of the channel.
  unfoldable pub register_standard :
      ℕ → ℕ → ℕ → standard.Channel → Handler Locked PoolError (Unit {0})
  register_standard d channel_id now channel = do
    modify (λ l. record l {
      downstream_data = record (l.downstream_data) {
        standard_channels = insert channel_id channel l.downstream_data.standard_channels;
        group_channels =
            map_some (λ g. group.add_standard_channel_id g channel_id)
              l.downstream_data.group_channels;
      };
    })
    state ← or_fail vardiff_error (vardiff_new now)
    modify (λ l. record l {
      manager = record (l.manager) {
        vardiff = insert (vardiff_key d channel_id) state l.manager.vardiff;
      };
    })

  -- The reply for a channel that was created, and its first job.
  unfoldable pub start_standard :
      PoolSettings
      → ℕ
      → OpenStandardMiningChannel
      → ℕ
      → NewTemplate
      → TemplatePrevHash
      → ℕ
      → standard.Channel
      → Handler Locked PoolError (List RouteMessageTo)
  start_standard settings d msg now template prev_hash channel_id channel = do
    group_channel ← gets (λ l. l.downstream_data.group_channels)
    prefix ← expect_ok (to_b032 (standard.get_extranonce_prefix channel))
    let (added, channel') =
        standard.on_new_template channel template (pool_coinbase_output settings template ∷ [])
    or_fail from_standard added
    job_id ← expect (standard.future_job_id channel' template.template_id)
    job ← expect (standard.future_job channel' job_id)
    let (moved, channel'') = standard.on_set_new_prev_hash channel' prev_hash
    or_fail from_standard moved
    register_standard d channel_id now channel''
    pure (
        to_downstream d (
          open_standard_mining_channel_success (record {
            request_id = msg.request_id;
            channel_id = channel_id;
            target = standard.get_target channel;
            extranonce_prefix = prefix;
            group_channel_id = elim group_channel [
              | none ↦ 0
              | some g ↦ group.get_group_channel_id g
            ];
          }))
        ∷ to_downstream d (new_mining_job (standard_jobs.get_job_message job))
        ∷ to_downstream d (
            set_new_prev_hash (record {
              channel_id = channel_id;
              job_id = job_id;
              prev_hash = prev_hash.prev_hash;
              min_ntime = prev_hash.header_timestamp;
              nbits = prev_hash.n_bits;
            }))
        ∷ [])

  -- The prefix and the id of a new channel are used up before the channel is created.
  unfoldable pub create_standard :
      PoolSettings
      → ℕ
      → OpenStandardMiningChannel
      → ℕ
      → NewTemplate
      → TemplatePrevHash
      → Handler Locked PoolError (List RouteMessageTo)
  create_standard settings d msg now template prev_hash = do
    factory ← gets (λ l. l.manager.extranonce_prefix_factory_standard)
    let (prefix, factory') = next_prefix_standard factory
    modify (λ l. record l {
      manager = record (l.manager) { extranonce_prefix_factory_standard = factory' };
    })
    extranonce_prefix ← or_fail from_extranonce prefix
    channel_id ← fetch_channel_id
    elim (new_standard channel_id msg.user_identity extranonce_prefix msg.max_target
        msg.nominal_hash_rate settings.share_batch_size settings.shares_per_minute
        settings.pool_tag_string) [
          | ok channel ↦ start_standard settings d msg now template prev_hash channel_id channel
          | err e ↦ refuse d msg.request_id channel_error_sender (standard_open_error e)
        ]

  -- The closure under the locks.
  unfoldable pub open_standard :
      PoolSettings
      → ℕ
      → OpenStandardMiningChannel
      → ℕ
      → Downstream
      → Handler Locked PoolError (List RouteMessageTo)
  open_standard settings d msg now ds =
      if ds.requires_custom_work
      then pure
          (open_error d msg.request_id ErrorCode.standard_channels_not_supported_for_custom_work)
      else do
        template ←
            some_or_fail future_template_not_present (← gets (λ l. l.manager.last_future_template))
        prev_hash ←
            some_or_fail last_new_prevhash_not_found (← gets (λ l. l.manager.last_new_prev_hash))
        ensure_group_channel settings ds template prev_hash
        create_standard settings d msg now template prev_hash

  unfoldable pub handle_open_standard_mining_channel :
      PoolSettings → Option ℕ → OpenStandardMiningChannel → ℕ → Handler World PoolError (Unit {0})
  handle_open_standard_mining_channel settings none msg now = panic
  handle_open_standard_mining_channel settings (some d) msg now =
      serve d downstream_id_not_found (open_standard settings d msg now)
