-- ===== src/Pool/Requests.antt =====
-- channel_manager/mining_message_handler.rs: closing and updating a channel, and custom jobs.
pub mod Closing
use mara_pool.Prelude.{
  ℕ, Bool, true, false, ◌||◌, Option, none, some, List, [], ◌∷◌, Result, ok, err, Handler, pure,
  fail, panic, gets, modify, or_fail, ◌>>=◌, ◌>>◌, if◌then◌else◌, nat_eq, ◌==◌,
}
use mara_pool.Prelude.Map.{lookup, insert, remove}
use mara_pool.Stratum.{
  StratumCore, Bytes, TxOut, SetCustomMiningJob, UpdateChannel, StandardChannelError,
  ExtendedChannelError, ErrorCode, update_channel_error, set_target, set_custom_mining_job_error,
  set_custom_mining_job_success,
}
use mara_pool.Pool.Error.{
  PoolError, bitcoin_encode_error, downstream_not_found, from_standard, from_extended,
}
use mara_pool.Pool.State.{vardiff_key, vardiff_key_eq, PoolSettings, RouteMessageTo, to_downstream}
use mara_pool.Pool.Access.{World, Locked, with_downstream, forward, serve}

unfoldable pub standard_update_error : StandardChannelError → Option ErrorCode
standard_update_error StandardChannelError.invalid_nominal_hashrate =
    some ErrorCode.invalid_nominal_hashrate
standard_update_error StandardChannelError.requested_max_target_out_of_range =
    some ErrorCode.requested_max_target_out_of_range
standard_update_error (StandardChannelError.other n) = none

unfoldable pub extended_update_error : ExtendedChannelError → Option ErrorCode
extended_update_error ExtendedChannelError.invalid_nominal_hashrate =
    some ErrorCode.invalid_nominal_hashrate
extended_update_error ExtendedChannelError.requested_max_target_out_of_range =
    some ErrorCode.max_target_out_of_range
extended_update_error ExtendedChannelError.requested_min_extranonce_size_too_large = none
extended_update_error (ExtendedChannelError.other n) = none

-- Slice equality.
unfoldable pub bytes_beq : Bytes → Bytes → Bool
bytes_beq [] [] = true
bytes_beq [] (y ∷ ys) = false
bytes_beq (x ∷ xs) [] = false
bytes_beq (x ∷ xs) (y ∷ ys) = let rest = bytes_beq xs ys in if x == y then rest else false

-- `custom_job_coinbase_outputs.iter().any(..)`.
unfoldable pub pays_script : Bytes → List TxOut → Bool
pays_script script [] = false
pays_script script (output ∷ outputs) =
    bytes_beq output.script_pubkey script || pays_script script outputs

module _ ⦃core : StratumCore⦄ where
  open core use {standard, extended, on_set_custom_mining_job, decode_outputs}

  -- The closure under the locks, and the removal of the vardiff state after it.
  unfoldable pub close_channel : ℕ → ℕ → Handler Locked PoolError (Unit {0})
  close_channel d channel_id = modify (λ l. record l {
    downstream_data = record (l.downstream_data) {
      standard_channels = remove channel_id l.downstream_data.standard_channels;
      extended_channels = remove channel_id l.downstream_data.extended_channels;
    };
    manager = record (l.manager) { vardiff = remove (vardiff_key d channel_id) l.manager.vardiff };
  })

  unfoldable pub handle_close_channel : Option ℕ → ℕ → Handler World PoolError (Unit {0})
  handle_close_channel none channel_id = panic
  handle_close_channel (some d) channel_id =
      with_downstream d (downstream_not_found d) (λ ds. close_channel d channel_id)

  -- The messages of an update: an error that the client is told of does not stop the target.
  unfoldable pub update_reply :
      {E : Type 0}
      → (E → PoolError)
      → (E → Option ErrorCode)
      → ℕ
      → ℕ
      → ℕ
      → Result E (Unit {0})
      → Handler Locked PoolError (List RouteMessageTo)
  update_reply convert code d channel_id target (ok _) =
      pure (to_downstream d (set_target channel_id target) ∷ [])
  update_reply convert code d channel_id target (err e) = elim (code e) [
    | none ↦ fail (convert e)
    | some c ↦ pure (
        to_downstream d (update_channel_error channel_id c)
        ∷ to_downstream d (set_target channel_id target)
        ∷ [])
  ]

  unfoldable pub update_standard :
      ℕ → UpdateChannel → standard.Channel → Handler Locked PoolError (List RouteMessageTo)
  update_standard d msg channel = do
    let (res, channel') =
        standard.update_channel channel msg.nominal_hash_rate (some msg.maximum_target)
    modify (λ l. record l {
      downstream_data = record (l.downstream_data) {
        standard_channels = insert msg.channel_id channel' l.downstream_data.standard_channels;
      };
    })
    update_reply from_standard standard_update_error d msg.channel_id (standard.get_target channel')
        res

  unfoldable pub update_extended :
      ℕ → UpdateChannel → extended.Channel → Handler Locked PoolError (List RouteMessageTo)
  update_extended d msg channel = do
    let (res, channel') =
        extended.update_channel channel msg.nominal_hash_rate (some msg.maximum_target)
    modify (λ l. record l {
      downstream_data = record (l.downstream_data) {
        extended_channels = insert msg.channel_id channel' l.downstream_data.extended_channels;
      };
    })
    update_reply from_extended extended_update_error d msg.channel_id (extended.get_target channel')
        res

  -- The closure under the locks: a standard channel goes before an extended one.
  unfoldable pub update_either : ℕ → UpdateChannel → Handler Locked PoolError (List RouteMessageTo)
  update_either d msg = do
    as_standard ← gets (λ l. lookup msg.channel_id l.downstream_data.standard_channels)
    as_extended ← gets (λ l. lookup msg.channel_id l.downstream_data.extended_channels)
    elim as_standard [
      | some channel ↦ update_standard d msg channel
      | none ↦ elim as_extended [
        | some channel ↦ update_extended d msg channel
        | none ↦ pure (
            to_downstream d (update_channel_error msg.channel_id ErrorCode.invalid_channel_id) ∷ [])
      ]
    ]

  unfoldable pub handle_update_channel :
      Option ℕ → UpdateChannel → Handler World PoolError (Unit {0})
  handle_update_channel none msg = panic
  handle_update_channel (some d) msg = serve d (downstream_not_found d) (λ ds. update_either d msg)

  abbrev pub custom_job_error : ℕ → SetCustomMiningJob → ErrorCode → RouteMessageTo
  custom_job_error d msg code =
      to_downstream d (set_custom_mining_job_error msg.request_id msg.channel_id code)

  -- The closure under the inner lock.
  unfoldable pub set_custom_job : ℕ → SetCustomMiningJob → Handler Locked PoolError RouteMessageTo
  set_custom_job d msg = do
    found ← gets (λ l. lookup msg.channel_id l.downstream_data.extended_channels)
    elim found [
      | none ↦ pure (custom_job_error d msg ErrorCode.invalid_channel_id)
      | some channel ↦ do
        let (res, channel') = on_set_custom_mining_job channel msg
        modify (λ l. record l {
          downstream_data = record (l.downstream_data) {
            extended_channels = insert msg.channel_id channel' l.downstream_data.extended_channels;
          };
        })
        job_id ← or_fail from_extended res
        pure (to_downstream d (set_custom_mining_job_success msg.channel_id msg.request_id job_id))
    ]

  unfoldable pub handle_set_custom_mining_job :
      PoolSettings → Option ℕ → SetCustomMiningJob → Handler World PoolError (Unit {0})
  handle_set_custom_mining_job settings none msg = panic
  handle_set_custom_mining_job settings (some d) msg = do
    outputs ← or_fail bitcoin_encode_error (decode_outputs msg.coinbase_tx_outputs)
    message ←
        (if pays_script settings.coinbase_reward_script outputs
          then with_downstream d (downstream_not_found d) (λ ds. set_custom_job d msg)
          else pure (custom_job_error d msg ErrorCode.pool_payout_script_missing))
    forward (message ∷ [])
