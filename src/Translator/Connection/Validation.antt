-- ===== src/Translator/Connection/Validation.antt =====
-- utils.rs: `validate_sv1_share`.
use mara_pool.Prelude.{
  ℕ, Bool, Option, none, some, List, [], ◌∷◌, ◌++◌, Result, ok, err, if◌then◌else◌, ltb, ◌==◌,
  nat_eq, list_eq, length,
}
use mara_pool.Prelude.Map.{lookup}
use mara_pool.Prelude.Bits.{band, bor, bnot}
use mara_pool.Stratum.{Bytes}
use mara_pool.Translator.Core.{Sv1Core, Notify, Submit, Header}
use mara_pool.Translator.State.{
  TproxyError, job_not_found, invalid_merkle_root, binary_sv2, Sv1ServerData,
}
use mara_pool.Translator.Difficulty.{or_else}

-- `0x1FFFE000`.
abbrev pub default_mask : ℕ
default_mask = 536862720

-- The first job with the identifier.
unfoldable pub find_job : Bytes → List Notify → Option Notify
find_job job_id [] = none
find_job job_id (job ∷ jobs) =
    let rest = find_job job_id jobs in if job.job_id == job_id then some job else rest

-- `(job.version & !mask) | (share_version & mask)` on `u32`.
unfoldable pub rolled_version : ℕ → ℕ → ℕ → ℕ
rolled_version job_version share_version mask =
    bor 32 (band 32 job_version (bnot 32 mask)) (band 32 share_version mask)

module _ ⦃core : Sv1Core⦄ where
  open core use {u256_from_vec, u256_to_block_hash, merkle_root_from_path, block_hash}

  -- The jobs that a share of the channel may be for.
  unfoldable pub jobs_for : Sv1ServerData → ℕ → List Notify
  jobs_for s channel_id = elim s.aggregated_valid_jobs [
    | some jobs ↦ jobs
    | none ↦ elim s.non_aggregated_valid_jobs [
      | some channels ↦ or_else (lookup channel_id channels) []
      | none ↦ []
    ]
  ]

  -- The header of a share, once its merkle root is known. The version stays an unsigned number.
  abbrev pub share_header : Notify → Submit → Option ℕ → Bytes → Bytes → Header
  share_header job share mask prev_hash merkle_root = record {
    version =
        rolled_version job.version (or_else share.version_bits job.version)
          (or_else mask default_mask);
    prev_blockhash = u256_to_block_hash prev_hash;
    merkle_root = merkle_root;
    time = share.time;
    bits = job.bits;
    nonce = share.nonce;
  }

  unfoldable pub meets_target :
      Submit → ℕ → Bytes → Option ℕ → Notify → Bytes → Option Bytes → Result TproxyError Bool
  meets_target share target extranonce1 mask job prev_hash none = err invalid_merkle_root
  meets_target share target extranonce1 mask job prev_hash (some merkle_root) =
      if length merkle_root == 32
      then ok (ltb (block_hash (share_header job share mask prev_hash merkle_root)) target)
      else err invalid_merkle_root

  unfoldable pub validate_for_job :
      Submit → ℕ → Bytes → Option ℕ → Option Notify → Result TproxyError Bool
  validate_for_job share target extranonce1 mask none = err job_not_found
  validate_for_job share target extranonce1 mask (some job) = elim (u256_from_vec job.prev_hash) [
    | err e ↦ err (binary_sv2 e)
    | ok prev_hash ↦ meets_target share target extranonce1 mask job prev_hash (
        merkle_root_from_path job.coin_base1 job.coin_base2 (extranonce1 ++ share.extra_nonce2)
          job.merkle_branch)
  ]

  unfoldable pub validate_sv1_share :
      Submit → ℕ → Bytes → Option ℕ → Sv1ServerData → ℕ → Result TproxyError Bool
  validate_sv1_share share target extranonce1 mask s channel_id =
      validate_for_job share target extranonce1 mask (find_job share.job_id (jobs_for s channel_id))
