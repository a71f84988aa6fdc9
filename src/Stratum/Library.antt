-- ===== src/Stratum/Library.antt =====
-- The parts of `channels_sv2`, `mining_sv2` and `bitcoin` that the applications call, as a record
-- of types and operations. A method on `&mut self` returns the new receiver beside its result.
use mara_pool.Prelude.{ℕ, Bool, Option, List, Result}
use mara_pool.Stratum.Types.{
  Bytes, TxOut, NewTemplate, TemplatePrevHash, SubmitSharesStandard, SubmitSharesExtended,
  SetCustomMiningJob, StandardChannelError, ExtendedChannelError, ShareValidationError,
  ShareValidationResult,
}

-- What the getters of `ShareAccounting` return.
pub record ShareAccounting (Work : Type 0) : Type 0 where
  pub should_acknowledge : Bool
  pub last_share_sequence_number : ℕ
  pub last_batch_accepted : ℕ
  pub last_batch_work_sum : Work

-- The operations that `StandardChannel` and `ExtendedChannel` have in common. `future_job_id` is a
-- lookup in `get_future_template_to_job_id()`, and `future_job` one in `get_future_jobs()`.
pub record ServerChannel (Hashrate Work Job E Share : Type 0) : Type 1 where
  pub Channel : Type 0
  pub get_target : Channel → ℕ
  pub get_nominal_hashrate : Channel → Hashrate
  pub get_shares_per_minute : Channel → Hashrate
  pub get_extranonce_prefix : Channel → Bytes
  pub get_user_identity : Channel → Bytes
  pub get_share_accounting : Channel → ShareAccounting Work
  pub validate_share : Channel → Share → Result ShareValidationError ShareValidationResult × Channel
  pub update_channel : Channel → Hashrate → Option ℕ → Result E (Unit {0}) × Channel
  pub on_new_template : Channel → NewTemplate → List TxOut → Result E (Unit {0}) × Channel
  pub on_set_new_prev_hash : Channel → TemplatePrevHash → Result E (Unit {0}) × Channel
  pub future_job_id : Channel → ℕ → Option ℕ
  pub future_job : Channel → ℕ → Option Job
  pub get_active_job : Channel → Option Job

-- A job, and the message that announces it.
pub record JobKind : Type 1 where
  pub Job : Type 0
  pub Message : Type 0
  pub get_job_id : Job → ℕ
  pub get_job_message : Job → Message

pub record GroupChannelOps (Job : Type 0) : Type 1 where
  pub Channel : Type 0
  -- The id, `full_extranonce_size` and the pool's tag.
  pub new_for_pool : ℕ → ℕ → Bytes → Result ℕ Channel
  pub on_new_template : Channel → NewTemplate → List TxOut → Result ℕ (Unit {0}) × Channel
  pub on_set_new_prev_hash : Channel → TemplatePrevHash → Result ℕ (Unit {0}) × Channel
  pub get_group_channel_id : Channel → ℕ
  pub add_standard_channel_id : Channel → ℕ → Channel
  pub future_job_id : Channel → ℕ → Option ℕ
  pub future_job : Channel → ℕ → Option Job
  pub get_active_job : Channel → Option Job

pub record StratumCore : Type 1 where
  -- `f32` and `f64`.
  pub Hashrate : Type 0
  pub Work : Type 0
  pub work_as_u64 : Work → ℕ
  pub difficulty_float : ℕ → Work
  pub standard_jobs : JobKind
  pub extended_jobs : JobKind
  pub standard :
      ServerChannel Hashrate Work standard_jobs.Job StandardChannelError SubmitSharesStandard
  pub extended :
      ServerChannel Hashrate Work extended_jobs.Job ExtendedChannelError SubmitSharesExtended
  pub group : GroupChannelOps extended_jobs.Job
  -- `StandardChannel::new_for_pool`: id, user identity, extranonce prefix, requested target,
  -- nominal hash rate, share batch size, shares per minute, the pool's tag.
  pub new_standard :
      ℕ
      → Bytes
      → Bytes
      → ℕ
      → Hashrate
      → ℕ
      → Hashrate
      → Bytes
      → Result StandardChannelError standard.Channel
  pub on_group_channel_job : standard.Channel → extended_jobs.Job → standard.Channel
  -- `ExtendedChannel::new_for_pool`, with version rolling and the rollable extranonce size before
  -- the share batch size.
  pub new_extended :
      ℕ
      → Bytes
      → Bytes
      → ℕ
      → Hashrate
      → Bool
      → ℕ
      → ℕ
      → Hashrate
      → Bytes
      → Result ExtendedChannelError extended.Channel
  pub get_rollable_extranonce_size : extended.Channel → ℕ
  pub on_set_custom_mining_job :
      extended.Channel → SetCustomMiningJob → Result ExtendedChannelError ℕ × extended.Channel
  -- `ExtendedExtranonce`.
  pub ExtranonceFactory : Type 0
  -- `ExtendedExtranonce::new`: three ranges, each from its start to its end, and a static prefix.
  pub new_extranonce_factory : ℕ × ℕ → ℕ × ℕ → ℕ × ℕ → Option Bytes → Result ℕ ExtranonceFactory
  pub next_prefix_standard : ExtranonceFactory → Result ℕ Bytes × ExtranonceFactory
  pub next_prefix_extended : ExtranonceFactory → ℕ → Result ℕ Bytes × ExtranonceFactory
  -- `VardiffState`; the number is the reading of the clock.
  pub VardiffState : Type 0
  pub vardiff_new : ℕ → Result ℕ VardiffState
  pub increment_shares_since_last_update : VardiffState → VardiffState
  pub try_vardiff :
      VardiffState → Hashrate → ℕ → Hashrate → ℕ → Result ℕ (Option Hashrate) × VardiffState
  -- `Vec<TxOut>::consensus_decode`, `deserialize_outputs` and the bounded byte strings.
  pub decode_outputs : Bytes → Result ℕ (List TxOut)
  pub deserialize_outputs : Bytes → Option (List TxOut)
  pub to_b032 : Bytes → Result ℕ Bytes
  pub to_b064k : Bytes → Result ℕ Bytes
  -- The flags of `SetupConnection`.
  pub has_work_selection : ℕ → Bool
  pub has_requires_std_job : ℕ → Bool
  pub seq064k : List ℕ → Result ℕ (List ℕ)
