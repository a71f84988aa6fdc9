-- ===== src/Pool/Open/Extended.antt =====
-- `handle_open_extended_mining_channel`.
use mara_pool.Prelude.{
  ℕ, true, Option, none, some, List, [], ◌∷◌, ok, err, Handler, pure, panic, gets, modify, or_fail,
  some_or_fail, expect, ◌>>=◌, ◌>>◌, if◌then◌else◌, nat_eq,
}
use mara_pool.Prelude.Map.{insert}
use mara_pool.Stratum.{
  StratumCore, Bytes, NewTemplate, TemplatePrevHash, ErrorCode, OpenExtendedMiningChannel,
  open_extended_mining_channel_success, new_extended_mining_job, set_new_prev_hash,
}
use mara_pool.Pool.Error.{
  PoolError, binary_sv2, downstream_id_not_found, future_template_not_present,
  last_new_prevhash_not_found, vardiff_error, from_extended,
}
use mara_pool.Pool.State.{
  vardiff_key, vardiff_key_eq, Downstream, PoolSettings, RouteMessageTo, to_downstream,
}
use mara_pool.Pool.Access.{World, Locked, serve}
use mara_pool.Pool.Open.Common.{
  fetch_channel_id, pool_coinbase_output, open_error, extended_open_error, refuse,
}

module _ ⦃core : StratumCore⦄ where
  open core use {
    extended, extended_jobs, new_extended, next_prefix_extended, get_rollable_extranonce_size,
    to_b032, vardiff_new,
  }

  unfoldable pub register_extended :
      ℕ → ℕ → ℕ → extended.Channel → Handler Locked PoolError (Unit {0})
  register_extended d channel_id now channel = do
    modify (λ l. record l {
      downstream_data = record (l.downstream_data) {
        extended_channels = insert channel_id channel l.downstream_data.extended_channels;
      };
    })
    state ← or_fail vardiff_error (vardiff_new now)
    modify (λ l. record l {
      manager = record (l.manager) {
        vardiff = insert (vardiff_key d channel_id) state l.manager.vardiff;
      };
    })

  -- With custom work the channel learns of the previous hash, and the client is sent nothing.
  unfoldable pub start_custom_work :
      TemplatePrevHash
      → extended.Channel
      → Handler Locked PoolError (extended.Channel × List RouteMessageTo)
  start_custom_work prev_hash channel = do
    let (moved, channel') = extended.on_set_new_prev_hash channel prev_hash
    or_fail from_extended moved
    pure (channel', [])

  -- Otherwise it is sent the future job, and the message that activates it.
  unfoldable pub start_template_work :
      PoolSettings
      → ℕ
      → NewTemplate
      → TemplatePrevHash
      → ℕ
      → extended.Channel
      → Handler Locked PoolError (extended.Channel × List RouteMessageTo)
  start_template_work settings d template prev_hash channel_id channel = do
    let (added, channel') =
        extended.on_new_template channel template (pool_coinbase_output settings template ∷ [])
    or_fail from_extended added
    job_id ← expect (extended.future_job_id channel' template.template_id)
    job ← expect (extended.future_job channel' job_id)
    let (moved, channel'') = extended.on_set_new_prev_hash channel' prev_hash
    or_fail from_extended moved
    pure (
      channel'',
      to_downstream d (new_extended_mining_job (extended_jobs.get_job_message job))
          ∷ to_downstream d (
              set_new_prev_hash (record {
                channel_id = channel_id;
                job_id = job_id;
                prev_hash = prev_hash.prev_hash;
                min_ntime = prev_hash.header_timestamp;
                nbits = prev_hash.n_bits;
              }))
          ∷ [],
    )

  -- The reply for a channel that was created, and its first job.
  unfoldable pub start_extended :
      PoolSettings
      → ℕ
      → OpenExtendedMiningChannel
      → ℕ
      → Downstream
      → ℕ
      → extended.Channel
      → Handler Locked PoolError (List RouteMessageTo)
  start_extended settings d msg now ds channel_id channel = do
    prefix ← or_fail binary_sv2 (to_b032 (extended.get_extranonce_prefix channel))
    prev_hash ←
        some_or_fail last_new_prevhash_not_found (← gets (λ l. l.manager.last_new_prev_hash))
    template ←
        some_or_fail future_template_not_present (← gets (λ l. l.manager.last_future_template))
    started ←
        (if ds.requires_custom_work
          then start_custom_work prev_hash channel
          else start_template_work settings d template prev_hash channel_id channel)
    register_extended d channel_id now started.0
    pure (
        to_downstream d (
          open_extended_mining_channel_success (record {
            request_id = msg.request_id;
            channel_id = channel_id;
            target = extended.get_target channel;
            extranonce_prefix = prefix;
            extranonce_size = get_rollable_extranonce_size channel;
          }))
        ∷ started.1)

  -- The id of a new channel is used up before the channel is created.
  unfoldable pub create_extended :
      PoolSettings
      → ℕ
      → OpenExtendedMiningChannel
      → ℕ
      → Downstream
      → Bytes
      → Handler Locked PoolError (List RouteMessageTo)
  create_extended settings d msg now ds extranonce_prefix = do
    channel_id ← fetch_channel_id
    elim (new_extended channel_id msg.user_identity extranonce_prefix msg.max_target
        msg.nominal_hash_rate true msg.min_extranonce_size settings.share_batch_size
        settings.shares_per_minute settings.pool_tag_string) [
          | ok channel ↦ start_extended settings d msg now ds channel_id channel
          | err e ↦ refuse d msg.request_id (from_extended e) (extended_open_error e)
        ]

  -- The closure under the locks.
  unfoldable pub open_extended :
      PoolSettings
      → ℕ
      → OpenExtendedMiningChannel
      → ℕ
      → Downstream
      → Handler Locked PoolError (List RouteMessageTo)
  open_extended settings d msg now ds = do
    factory ← gets (λ l. l.manager.extranonce_prefix_factory_extended)
    let (prefix, factory') = next_prefix_extended factory msg.min_extranonce_size
    modify (λ l. record l {
      manager = record (l.manager) { extranonce_prefix_factory_extended = factory' };
    })
    elim prefix [
      | err e ↦ pure (open_error d msg.request_id ErrorCode.min_extranonce_size_too_large)
      | ok extranonce_prefix ↦ create_extended settings d msg now ds extranonce_prefix
    ]

  unfoldable pub handle_open_extended_mining_channel :
      PoolSettings → Option ℕ → OpenExtendedMiningChannel → ℕ → Handler World PoolError (Unit {0})
  handle_open_extended_mining_channel settings none msg now = panic
  handle_open_extended_mining_channel settings (some d) msg now =
      serve d downstream_id_not_found (open_extended settings d msg now)
