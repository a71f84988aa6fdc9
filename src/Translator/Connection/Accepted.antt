-- ===== src/Translator/Connection/Accepted.antt =====
-- What the validation of a share establishes.
use mara_pool.Prelude.{
  sym, false, ◌⊎◌, ◌↔◌, ℕ, ◌<◌, true, Option, some, ◌≡◌, inl, inr, List, [], ◌∷◌, ◌++◌, ok, arith,
  ◌==◌, nat_eq, list_eq, length, Option-cases, Bool-cases, result_cases, ◌∙◌, ap,
}
use mara_pool.Stratum.{Bytes}
use mara_pool.Translator.Core.{Sv1Core, Notify, Submit, Header}
use mara_pool.Translator.State.{Sv1ServerData}
use mara_pool.Translator.Difficulty.{or_else}
use mara_pool.Translator.Connection.Validation.{
  rolled_version, default_mask, find_job, jobs_for, meets_target, validate_for_job,
  validate_sv1_share,
}

-- The job is the first of the list with the identifier.
abbrev pub IsFirst : Bytes → List Notify → Notify → Type 0
IsFirst job_id [] job = ⊥
IsFirst job_id (j ∷ jobs) job =
    ((job ≡ j) × ((j.job_id == job_id) ≡ true))
    ⊎ (((j.job_id == job_id) ≡ false) × IsFirst job_id jobs job)

find_job-IsFirst :
    (job_id : Bytes) (jobs : List Notify) (job : Notify)
    → find_job job_id jobs ≡ some job
    → IsFirst job_id jobs job
unfolding find_job
find_job-IsFirst job_id [] job h = ground arith
find_job-IsFirst job_id (j ∷ jobs) job h = elim (Bool-cases (j.job_id == job_id)) [
  | inl same ↦ inl (ground (arith, same, h), same)
  | inr other ↦ inr (other, find_job-IsFirst job_id jobs job (ground (arith, other, h)))
]

IsFirst-find_job :
    (job_id : Bytes) (jobs : List Notify) (job : Notify)
    → IsFirst job_id jobs job
    → find_job job_id jobs ≡ some job
unfolding find_job
IsFirst-find_job job_id [] job h = ground arith
IsFirst-find_job job_id (j ∷ jobs) job (inl (this, same)) = ground (arith, this, same)
IsFirst-find_job job_id (j ∷ jobs) job (inr (other, later)) =
    ground (arith, other, IsFirst-find_job job_id jobs job later)

module _ ⦃core : Sv1Core⦄ where
  open core use {u256_from_vec, u256_to_block_hash, merkle_root_from_path, block_hash}

  -- A share that meets the target of the job.
  pub record MeetsTarget (share : Submit) (target : ℕ) (extranonce1 : Bytes) (mask : Option ℕ)
      (job : Notify) : Type 0 where
    pub prev_hash : Bytes
    pub merkle_root : Bytes
    pub prev_hash_read : u256_from_vec job.prev_hash ≡ ok prev_hash
    pub merkle_root_made :
        merkle_root_from_path job.coin_base1 job.coin_base2
          (extranonce1 ++ share.extra_nonce2)
          job.merkle_branch
        ≡ some merkle_root
    pub root_length : length merkle_root ≡ 32
    pub below :
        let header : Header = record {
          version =
              rolled_version job.version
                (or_else share.version_bits job.version)
                (or_else mask default_mask);
          prev_blockhash = u256_to_block_hash prev_hash;
          merkle_root = merkle_root;
          time = share.time;
          bits = job.bits;
          nonce = share.nonce;
        } in
        block_hash header < target

  job-MeetsTarget :
      (share : Submit) (target : ℕ) (extranonce1 : Bytes) (mask : Option ℕ) (job : Notify)
      → validate_for_job share target extranonce1 mask (some job) ≡ ok true
      → MeetsTarget share target extranonce1 mask job
  unfolding validate_for_job meets_target
  job-MeetsTarget share target e1 mask job h = elim (result_cases (u256_from_vec job.prev_hash)) [
    | inr (e, bad) ↦ ground (arith, bad, h)
    | inl (prev_hash, read) ↦
        elim (Option-cases (
          merkle_root_from_path job.coin_base1 job.coin_base2 (e1 ++ share.extra_nonce2)
            job.merkle_branch)) [
              | inl missing ↦ ground (arith, read, missing, h)
              | inr (root, made) ↦ record {
                prev_hash = prev_hash;
                merkle_root = root;
                prev_hash_read = read;
                merkle_root_made = made;
                root_length = ground (arith, read, made, h);
                below = ground (arith, read, made, h);
              }
            ]
  ]

  MeetsTarget-valid :
      (share : Submit) (target : ℕ) (extranonce1 : Bytes) (mask : Option ℕ) (job : Notify)
      → MeetsTarget share target extranonce1 mask job
      → validate_for_job share target extranonce1 mask (some job) ≡ ok true
  unfolding validate_for_job meets_target
  MeetsTarget-valid share target e1 mask job h =
      ground (arith, h.prev_hash_read, h.merkle_root_made, h.root_length, h.below)

  -- A share is valid exactly if the first job with its identifier among those that the server has
  -- for the channel is one whose previous hash can be read and whose merkle root, made from that
  -- job's coinbase and branch and the two extranonces, has 32 bytes, and the header of that previous
  -- hash, merkle root and bits, of the share's time and nonce and of the rolled version has a hash
  -- below the miner's target.
  pub accepted_share :
      (share : Submit) (target : ℕ) (extranonce1 : Bytes) (mask : Option ℕ) (s : Sv1ServerData)
      (channel_id : ℕ)
      → (validate_sv1_share share target extranonce1 mask s channel_id ≡ ok true) ↔ (
          (job : Notify) × IsFirst share.job_id (jobs_for s channel_id) job
          × MeetsTarget share target extranonce1 mask job)
  unfolding validate_sv1_share validate_for_job
  accepted_share share target e1 mask s channel_id = (only_if, if_meets)
    where
      only_if :
          validate_sv1_share share target e1 mask s channel_id ≡ ok true
          → (job : Notify) × IsFirst share.job_id (jobs_for s channel_id) job
            × MeetsTarget share target e1 mask job
      only_if h = elim (Option-cases (find_job share.job_id (jobs_for s channel_id))) [
        | inl missing ↦ ground (arith, missing, h)
        | inr (job, found) ↦ (
          job,
          find_job-IsFirst share.job_id (jobs_for s channel_id) job found,
          job-MeetsTarget share target e1 mask job
              (ap (λ o. validate_for_job share target e1 mask o) (sym found) ∙ h),
        )
      ]

      if_meets :
          ((job : Notify) × IsFirst share.job_id (jobs_for s channel_id) job
            × MeetsTarget share target e1 mask job)
          → validate_sv1_share share target e1 mask s channel_id ≡ ok true
      if_meets (job, first, meets) =
          ap (λ o. validate_for_job share target e1 mask o)
            (IsFirst-find_job share.job_id (jobs_for s channel_id) job first)
          ∙ MeetsTarget-valid share target e1 mask job meets
