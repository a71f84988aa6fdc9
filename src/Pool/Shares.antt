-- ===== src/Pool/Shares.antt =====
-- channel_manager/mining_message_handler.rs: the submission of shares.
pub mod Errors
pub mod Records
use mara_pool.Prelude.{
  ℕ, ◌%◌, ◌^◌, true, false, Option, none, some, List, [], ◌∷◌, ◌++◌, Result, ok, err, length,
  Handler, pure, fail, panic, gets, modify, or_fail, some_or_fail, expect, ◌>>=◌, ◌>>◌,
  if◌then◌else◌, nat_eq,
}
use mara_pool.Prelude.Map.{lookup, insert}
use mara_pool.Stratum.{
  StratumCore, ServerChannel, Bytes, SubmitSharesStandard, SubmitSharesExtended,
  ShareValidationError, ShareValidationResult, valid, block_found, ErrorCode, submit_shares_success,
  submit_shares_error, submit_solution,
}
use mara_pool.Pool.Error.{
  PoolError, binary_sv2, downstream_not_found, vardiff_not_found, from_share_validation,
}
use mara_pool.Pool.State.{
  vardiff_key, vardiff_key_eq, RouteMessageTo, template_provider, to_downstream,
}
use mara_pool.Pool.Access.{ShareEvent, World, Locked, serve}

-- The fields of the two messages that are handled alike.
pub record Submission : Type 0 where
  pub channel_id : ℕ
  pub sequence_number : ℕ
  pub nonce : ℕ
  pub ntime : ℕ
  pub version : ℕ
  pub rollable_extranonce_size : Option ℕ

abbrev pub standard_submission : SubmitSharesStandard → Submission
standard_submission msg = record {
  channel_id = msg.channel_id;
  sequence_number = msg.sequence_number;
  nonce = msg.nonce;
  ntime = msg.ntime;
  version = msg.version;
  rollable_extranonce_size = none;
}

-- `Some(msg.extranonce.len() as u16)`.
abbrev pub extended_submission : SubmitSharesExtended → Submission
extended_submission msg = record {
  channel_id = msg.channel_id;
  sequence_number = msg.sequence_number;
  nonce = msg.nonce;
  ntime = msg.ntime;
  version = msg.version;
  rollable_extranonce_size = some (length msg.extranonce % 2 ^ 16);
}

-- What an error of `validate_share` leads to.
pub data Rejection : Type 0 where
  -- A `SubmitSharesError` with a persisted event, and one without.
  persisted_error : ErrorCode → Rejection
  plain_error : ErrorCode → Rejection
  -- `return Err(e)?`.
  returned : Rejection

unfoldable pub standard_rejection : ShareValidationError → Rejection
standard_rejection ShareValidationError.invalid = persisted_error ErrorCode.invalid_share
standard_rejection ShareValidationError.stale = persisted_error ErrorCode.stale_share
standard_rejection ShareValidationError.invalid_job_id = persisted_error ErrorCode.invalid_job_id
standard_rejection ShareValidationError.does_not_meet_target =
    persisted_error ErrorCode.difficulty_too_low
standard_rejection ShareValidationError.duplicate_share = plain_error ErrorCode.duplicate_share
standard_rejection ShareValidationError.bad_extranonce_size = returned
standard_rejection (ShareValidationError.other n) = returned

unfoldable pub extended_rejection : ShareValidationError → Rejection
extended_rejection ShareValidationError.invalid = persisted_error ErrorCode.invalid_share
extended_rejection ShareValidationError.stale = persisted_error ErrorCode.stale_share
extended_rejection ShareValidationError.invalid_job_id = persisted_error ErrorCode.invalid_job_id
extended_rejection ShareValidationError.does_not_meet_target =
    persisted_error ErrorCode.difficulty_too_low
extended_rejection ShareValidationError.duplicate_share = plain_error ErrorCode.duplicate_share
extended_rejection ShareValidationError.bad_extranonce_size =
    persisted_error ErrorCode.bad_extranonce_size
extended_rejection (ShareValidationError.other n) = returned

module _ ⦃core : StratumCore⦄ where
  open core use {
    Hashrate, Work, work_as_u64, difficulty_float, standard, extended, to_b064k,
    increment_shares_since_last_update,
  }

  -- `self.persistence.persist(..)`.
  unfoldable pub persist : ShareEvent → Handler Locked PoolError (Unit {0})
  persist e = modify (λ l. record l { persisted = l.persisted ++ e ∷ [] })

  module _ {Job E Share : Type 0} (ops : ServerChannel Hashrate Work Job E Share) where
    -- The event of a share on a channel, as far as it does not depend on the verdict.
    unfoldable pub share_event : ops.Channel → Submission → ℕ → ShareEvent
    share_event channel sub now = record {
      error_code = none;
      extranonce_prefix = ops.get_extranonce_prefix channel;
      is_block_found = false;
      is_valid = false;
      nominal_hash_rate = ops.get_nominal_hashrate channel;
      nonce = sub.nonce;
      ntime = sub.ntime;
      rollable_extranonce_size = sub.rollable_extranonce_size;
      share_hash = none;
      share_work = difficulty_float (ops.get_target channel);
      target = ops.get_target channel;
      template_id = none;
      timestamp = now;
      user_identity = ops.get_user_identity channel;
      version = sub.version;
    }

    unfoldable pub shares_success : ℕ → Submission → ops.Channel → RouteMessageTo
    shares_success d sub channel =
        let accounting = ops.get_share_accounting channel in
        to_downstream d (
          submit_shares_success (record {
            channel_id = sub.channel_id;
            last_sequence_number = accounting.last_share_sequence_number;
            new_submits_accepted_count = accounting.last_batch_accepted;
            new_shares_sum = work_as_u64 accounting.last_batch_work_sum;
          }))

    -- The solution for the template provider, unless the share was on a custom job.
    unfoldable pub solution :
        Submission → Option ℕ → Bytes → Handler Locked PoolError (List RouteMessageTo)
    solution sub none coinbase = pure []
    solution sub (some template_id) coinbase = do
      coinbase_tx ← or_fail binary_sv2 (to_b064k coinbase)
      pure (
          template_provider (
            submit_solution (record {
              template_id = template_id;
              version = sub.version;
              header_timestamp = sub.ntime;
              header_nonce = sub.nonce;
              coinbase_tx = coinbase_tx;
            }))
          ∷ [])

    unfoldable pub shares_error : ℕ → Submission → ErrorCode → RouteMessageTo
    shares_error d sub code = to_downstream d (
        submit_shares_error (record {
          channel_id = sub.channel_id;
          sequence_number = sub.sequence_number;
          error_code = code;
        }))

    -- An `Err(..)` arm of the match on the verdict.
    unfoldable pub reject :
        ℕ
        → Submission
        → ℕ
        → ops.Channel
        → ShareValidationError
        → Rejection
        → Handler Locked PoolError (List RouteMessageTo)
    reject d sub now channel e (persisted_error code) = do
      persist (record (share_event channel sub now) { error_code = some code })
      pure (shares_error d sub code ∷ [])
    reject d sub now channel e (plain_error code) = pure (shares_error d sub code ∷ [])
    reject d sub now channel e returned = fail (from_share_validation e)

    -- The match on the verdict.
    unfoldable pub respond :
        (ShareValidationError → Rejection)
        → ℕ
        → Submission
        → ℕ
        → ops.Channel
        → Result ShareValidationError ShareValidationResult
        → Handler Locked PoolError (List RouteMessageTo)
    respond rejection d sub now channel (ok (valid hash)) = do
      persist (record (share_event channel sub now) { is_valid = true; share_hash = some hash })
      pure (
          if (ops.get_share_accounting channel).should_acknowledge
          then shares_success d sub channel ∷ []
          else [])
    respond rejection d sub now channel (ok (block_found hash template_id coinbase)) = do
      persist (record (share_event channel sub now) {
        is_block_found = true;
        is_valid = true;
        share_hash = some hash;
        template_id = template_id;
      })
      messages ← solution sub template_id coinbase
      pure (messages ++ shares_success d sub channel ∷ [])
    respond rejection d sub now channel (err e) = reject d sub now channel e (rejection e)

  -- The arms for an extended channel.
  unfoldable pub respond_extended :
      ℕ
      → Submission
      → ℕ
      → extended.Channel
      → Result ShareValidationError ShareValidationResult
      → Handler Locked PoolError (List RouteMessageTo)
  respond_extended = respond extended extended_rejection

  -- `self.get_negotiated_extensions_with_client(client_id)`: it panics on an unknown connection.
  unfoldable pub negotiated_extensions_with_client : Option ℕ → Handler World PoolError (List ℕ)
  negotiated_extensions_with_client none = panic
  negotiated_extensions_with_client (some d) = do
    ds ← expect (lookup d (← gets (λ (w : World). w.manager.downstream)))
    pure ds.downstream_data.negotiated_extensions

  -- The result of `validate_share` and of `increment_shares_since_last_update` is written back.
  unfoldable pub judge_standard :
      ℕ
      → SubmitSharesStandard
      → ℕ
      → standard.Channel
      → Handler Locked PoolError (List RouteMessageTo)
  judge_standard d msg now channel = do
    let key = vardiff_key d msg.channel_id
    state ←
        some_or_fail (vardiff_not_found msg.channel_id) (← gets (λ l. lookup key l.manager.vardiff))
    let (verdict, channel') = standard.validate_share channel msg
    modify (λ l. record l {
      manager = record (l.manager) {
        vardiff = insert key (increment_shares_since_last_update state) l.manager.vardiff;
      };
      downstream_data = record (l.downstream_data) {
        standard_channels = insert msg.channel_id channel' l.downstream_data.standard_channels;
      };
    })
    respond standard standard_rejection d (standard_submission msg) now channel' verdict

  unfoldable pub submit_standard :
      ℕ → SubmitSharesStandard → ℕ → Handler Locked PoolError (List RouteMessageTo)
  submit_standard d msg now = do
    found ← gets (λ l. lookup msg.channel_id l.downstream_data.standard_channels)
    elim found [
      | none ↦
          pure (shares_error standard d (standard_submission msg) ErrorCode.invalid_channel_id ∷ [])
      | some channel ↦ judge_standard d msg now channel
    ]

  unfoldable pub judge_extended :
      ℕ
      → SubmitSharesExtended
      → ℕ
      → extended.Channel
      → Handler Locked PoolError (List RouteMessageTo)
  judge_extended d msg now channel = do
    let key = vardiff_key d msg.channel_id
    state ←
        some_or_fail (vardiff_not_found msg.channel_id) (← gets (λ l. lookup key l.manager.vardiff))
    let (verdict, channel') = extended.validate_share channel msg
    modify (λ l. record l {
      manager = record (l.manager) {
        vardiff = insert key (increment_shares_since_last_update state) l.manager.vardiff;
      };
      downstream_data = record (l.downstream_data) {
        extended_channels = insert msg.channel_id channel' l.downstream_data.extended_channels;
      };
    })
    respond_extended d (extended_submission msg) now channel' verdict

  unfoldable pub submit_extended :
      ℕ → SubmitSharesExtended → ℕ → Handler Locked PoolError (List RouteMessageTo)
  submit_extended d msg now = do
    found ← gets (λ l. lookup msg.channel_id l.downstream_data.extended_channels)
    elim found [
      | none ↦
          pure (shares_error extended d (extended_submission msg) ErrorCode.invalid_channel_id ∷ [])
      | some channel ↦ judge_extended d msg now channel
    ]

  -- `now` is the reading of the clock.
  unfoldable pub handle_submit_shares_standard :
      Option ℕ → SubmitSharesStandard → ℕ → Handler World PoolError (Unit {0})
  handle_submit_shares_standard none msg now = panic
  handle_submit_shares_standard (some d) msg now =
      serve d (downstream_not_found d) (λ ds. submit_standard d msg now)

  -- The identity that the extension may carry is read and not used.
  unfoldable pub handle_submit_shares_extended :
      Option ℕ → SubmitSharesExtended → ℕ → Handler World PoolError (Unit {0})
  handle_submit_shares_extended none msg now = panic
  handle_submit_shares_extended (some d) msg now = do
    _ ← negotiated_extensions_with_client (some d)
    serve d (downstream_not_found d) (λ ds. submit_extended d msg now)
