-- ===== src/Stratum/Messages.antt =====
-- The messages of the Mining protocol that a pool receives and sends.
use mara_pool.Prelude.{ℕ}
use mara_pool.Stratum.Types.{
  Bytes, SubmitSharesStandard, SubmitSharesExtended, SetCustomMiningJob, SubmitSolution,
}
use mara_pool.Stratum.Library.{StratumCore}

-- The error codes that the pool sends; the text of a code has dashes for `_`.
pub data ErrorCode : Type 0 where
  standard_channels_not_supported_for_custom_work : ErrorCode
  invalid_nominal_hashrate : ErrorCode
  max_target_out_of_range : ErrorCode
  requested_max_target_out_of_range : ErrorCode
  min_extranonce_size_too_large : ErrorCode
  invalid_channel_id : ErrorCode
  invalid_share : ErrorCode
  stale_share : ErrorCode
  invalid_job_id : ErrorCode
  difficulty_too_low : ErrorCode
  duplicate_share : ErrorCode
  bad_extranonce_size : ErrorCode
  pool_payout_script_missing : ErrorCode

pub record OpenStandardMiningChannelSuccess : Type 0 where
  pub request_id : ℕ
  pub channel_id : ℕ
  pub target : ℕ
  pub extranonce_prefix : Bytes
  pub group_channel_id : ℕ

pub record OpenExtendedMiningChannelSuccess : Type 0 where
  pub request_id : ℕ
  pub channel_id : ℕ
  pub target : ℕ
  pub extranonce_prefix : Bytes
  pub extranonce_size : ℕ

-- `mining_sv2::SetNewPrevHash`.
pub record SetNewPrevHash : Type 0 where
  pub channel_id : ℕ
  pub job_id : ℕ
  pub prev_hash : Bytes
  pub min_ntime : ℕ
  pub nbits : ℕ

pub record SubmitSharesSuccess : Type 0 where
  pub channel_id : ℕ
  pub last_sequence_number : ℕ
  pub new_submits_accepted_count : ℕ
  pub new_shares_sum : ℕ

pub record SubmitSharesError : Type 0 where
  pub channel_id : ℕ
  pub sequence_number : ℕ
  pub error_code : ErrorCode

module _ ⦃core : StratumCore⦄ where
  open core use {Hashrate, standard_jobs, extended_jobs}

  pub record OpenStandardMiningChannel : Type 0 where
    pub request_id : ℕ
    pub user_identity : Bytes
    pub nominal_hash_rate : Hashrate
    pub max_target : ℕ

  pub record OpenExtendedMiningChannel : Type 0 where
    pub request_id : ℕ
    pub user_identity : Bytes
    pub nominal_hash_rate : Hashrate
    pub max_target : ℕ
    pub min_extranonce_size : ℕ

  pub record UpdateChannel : Type 0 where
    pub channel_id : ℕ
    pub nominal_hash_rate : Hashrate
    pub maximum_target : ℕ

  -- What a client sends.
  pub data ClientMessage : Type 0 where
    close_channel : ℕ → ClientMessage
    open_standard_mining_channel : OpenStandardMiningChannel → ClientMessage
    open_extended_mining_channel : OpenExtendedMiningChannel → ClientMessage
    submit_shares_standard : SubmitSharesStandard → ClientMessage
    submit_shares_extended : SubmitSharesExtended → ClientMessage
    update_channel : UpdateChannel → ClientMessage
    set_custom_mining_job : SetCustomMiningJob → ClientMessage

  -- What the pool sends. Errors of a request carry its id; `channel_id`s come before other fields.
  pub data Mining : Type 0 where
    open_mining_channel_error : (request_id : ℕ) → ErrorCode → Mining
    open_standard_mining_channel_success : OpenStandardMiningChannelSuccess → Mining
    open_extended_mining_channel_success : OpenExtendedMiningChannelSuccess → Mining
    new_mining_job : standard_jobs.Message → Mining
    new_extended_mining_job : extended_jobs.Message → Mining
    set_new_prev_hash : SetNewPrevHash → Mining
    submit_shares_success : SubmitSharesSuccess → Mining
    submit_shares_error : SubmitSharesError → Mining
    update_channel_error : (channel_id : ℕ) → ErrorCode → Mining
    set_target : (channel_id maximum_target : ℕ) → Mining
    set_custom_mining_job_error : (request_id channel_id : ℕ) → ErrorCode → Mining
    set_custom_mining_job_success : (channel_id request_id job_id : ℕ) → Mining

  -- What the pool sends to the template provider.
  pub data TemplateDistribution : Type 0 where
    submit_solution : SubmitSolution → TemplateDistribution
