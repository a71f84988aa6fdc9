-- ===== src/Pool/Open/Common.antt =====
-- The ids, the error replies and the coinbase output of a new channel.
use mara_pool.Prelude.{
  ℕ, Option, none, some, List, [], ◌∷◌, Handler, pure, fail, gets, modify, ◌>>=◌, ◌>>◌,
}
use mara_pool.Stratum.{
  StratumCore, NewTemplate, TxOut, StandardChannelError, ExtendedChannelError, ErrorCode,
  open_mining_channel_error,
}
use mara_pool.Pool.Error.{PoolError}
use mara_pool.Pool.State.{next_u32, PoolSettings, RouteMessageTo, to_downstream}
use mara_pool.Pool.Access.{Locked}

-- The error code of a failed `StandardChannel::new_for_pool`, if it is one for the client.
unfoldable pub standard_open_error : StandardChannelError → Option ErrorCode
standard_open_error StandardChannelError.invalid_nominal_hashrate =
    some ErrorCode.invalid_nominal_hashrate
standard_open_error StandardChannelError.requested_max_target_out_of_range =
    some ErrorCode.max_target_out_of_range
standard_open_error (StandardChannelError.other n) = none

-- The same for `ExtendedChannel::new_for_pool`.
unfoldable pub extended_open_error : ExtendedChannelError → Option ErrorCode
extended_open_error ExtendedChannelError.invalid_nominal_hashrate =
    some ErrorCode.invalid_nominal_hashrate
extended_open_error ExtendedChannelError.requested_max_target_out_of_range =
    some ErrorCode.max_target_out_of_range
extended_open_error ExtendedChannelError.requested_min_extranonce_size_too_large =
    some ErrorCode.min_extranonce_size_too_large
extended_open_error (ExtendedChannelError.other n) = none

module _ ⦃core : StratumCore⦄ where
  -- `downstream_data.channel_id_factory.fetch_add(1)`.
  unfoldable pub fetch_channel_id : Handler Locked PoolError ℕ
  fetch_channel_id = do
    id ← gets (λ l. l.downstream_data.channel_id_factory)
    modify (λ l. record l {
      downstream_data = record (l.downstream_data) { channel_id_factory = next_u32 id };
    })
    pure id

  unfoldable pub pool_coinbase_output : PoolSettings → NewTemplate → TxOut
  pool_coinbase_output settings template = record {
    value = template.coinbase_tx_value_remaining;
    script_pubkey = settings.coinbase_reward_script;
  }

  -- `return Ok(vec![OpenMiningChannelError { .. }])`.
  abbrev pub open_error : ℕ → ℕ → ErrorCode → List RouteMessageTo
  open_error d request_id code = to_downstream d (open_mining_channel_error request_id code) ∷ []

  -- `return Err(..)` where there is no error code for the client.
  unfoldable pub refuse :
      ℕ → ℕ → PoolError → Option ErrorCode → Handler Locked PoolError (List RouteMessageTo)
  refuse d request_id e none = fail e
  refuse d request_id e (some code) = pure (open_error d request_id code)
