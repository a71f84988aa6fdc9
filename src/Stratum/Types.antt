-- ===== src/Stratum/Types.antt =====
-- Plain data of the protocol crates: messages with the fields that the applications read or write,
-- and the error enumerations that they match on. A byte string is a list of numbers, a 256-bit
-- target is a number, and `other` stands for the variants that the code does not name.
use mara_pool.Prelude.{ℕ, Bool, Option, List}

abbrev pub Bytes : Type 0
Bytes = List ℕ

pub record TxOut : Type 0 where
  pub value : ℕ
  pub script_pubkey : Bytes

-- `template_distribution_sv2::NewTemplate`.
pub record NewTemplate : Type 0 where
  pub template_id : ℕ
  pub future_template : Bool
  pub version : ℕ
  pub coinbase_tx_version : ℕ
  pub coinbase_prefix : Bytes
  pub coinbase_tx_input_sequence : ℕ
  pub coinbase_tx_value_remaining : ℕ
  pub coinbase_tx_outputs_count : ℕ
  pub coinbase_tx_outputs : Bytes
  pub coinbase_tx_locktime : ℕ
  pub merkle_path : List Bytes

-- `template_distribution_sv2::SetNewPrevHash`.
pub record TemplatePrevHash : Type 0 where
  pub template_id : ℕ
  pub prev_hash : Bytes
  pub header_timestamp : ℕ
  pub n_bits : ℕ
  pub target : ℕ

-- `template_distribution_sv2::SubmitSolution`.
pub record SubmitSolution : Type 0 where
  pub template_id : ℕ
  pub version : ℕ
  pub header_timestamp : ℕ
  pub header_nonce : ℕ
  pub coinbase_tx : Bytes

pub record SubmitSharesStandard : Type 0 where
  pub channel_id : ℕ
  pub sequence_number : ℕ
  pub job_id : ℕ
  pub nonce : ℕ
  pub ntime : ℕ
  pub version : ℕ

pub record SubmitSharesExtended : Type 0 where
  pub channel_id : ℕ
  pub sequence_number : ℕ
  pub job_id : ℕ
  pub nonce : ℕ
  pub ntime : ℕ
  pub version : ℕ
  pub extranonce : Bytes

-- The fields that the pool reads; `payload` stands for the others.
pub record SetCustomMiningJob : Type 0 where
  pub request_id : ℕ
  pub channel_id : ℕ
  pub coinbase_tx_outputs : Bytes
  pub payload : Bytes

pub data StandardChannelError : Type 0 where
  invalid_nominal_hashrate : StandardChannelError
  requested_max_target_out_of_range : StandardChannelError
  other : ℕ → StandardChannelError

pub data ExtendedChannelError : Type 0 where
  invalid_nominal_hashrate : ExtendedChannelError
  requested_max_target_out_of_range : ExtendedChannelError
  requested_min_extranonce_size_too_large : ExtendedChannelError
  other : ℕ → ExtendedChannelError

pub data ShareValidationError : Type 0 where
  invalid : ShareValidationError
  stale : ShareValidationError
  invalid_job_id : ShareValidationError
  does_not_meet_target : ShareValidationError
  duplicate_share : ShareValidationError
  bad_extranonce_size : ShareValidationError
  other : ℕ → ShareValidationError

-- `valid(share_hash)`, or `block_found(share_hash, template_id, coinbase)`.
pub data ShareValidationResult : Type 0 where
  valid : Bytes → ShareValidationResult
  block_found : Bytes → Option ℕ → Bytes → ShareValidationResult
