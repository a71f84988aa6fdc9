-- ===== src/Translator/Server/Stale.antt =====
-- Jobs and the shares for them.
use mathlib.Core.Path.{subst}
use mara_pool.Prelude.{
  sym, nat_eqb_iff, List, ◌∷◌, ◌&&◌, ◌||◌, not, all_of, ◌∙◌, Bool-cases, ℕ, Bool, true, false,
  Option, none, some, ◌≡◌, refl, inl, inr, [], ok, err, arith, ◌==◌, nat_eq, list_eq, Option-cases,
  result_cases,
}
use mara_pool.Prelude.Map.{lookup, is_some, lookup-insert}
use mara_pool.Stratum.{Bytes, SetNewPrevHash}
use mara_pool.Translator.Core.{Sv1Core, Notify, Submit, NewExtendedMiningJob}
use mara_pool.Translator.State.{job_not_found, Sv1ServerData, Sv1Server}
use mara_pool.Translator.Difficulty.{on_data, or_else, send_broadcasts}
use mara_pool.Translator.Connection.{find_job, jobs_for, validate_for_job, validate_sv1_share}
use mara_pool.Translator.Server.Jobs.{
  add_job, store_job, publish_job, handle_new_extended_mining_job, store_prev_hash,
}

module _ ⦃core : Sv1Core⦄ where
  open core use {build_notify}

  -- A job that replaces the older ones is the channel's only one.
  only_job :
      (id : Bytes) (k c : ℕ) (job : Notify) (s : Sv1ServerData)
      → (is_some s.aggregated_valid_jobs || k == c) ≡ true
      → (job.job_id == id) ≡ false
      → find_job id (jobs_for (store_job true k job s) c) ≡ none
  unfolding store_job jobs_for find_job
  only_job id k c job s mine named = elim (Option-cases s.aggregated_valid_jobs) [
    | inr (jobs, shared) ↦ ground (arith, shared, named)
    | inl apart ↦ elim (Option-cases s.non_aggregated_valid_jobs) [
      | inl missing ↦ ground (arith, apart, missing)
      | inr (channels, known) ↦
          ground (arith, apart, known, mine, named, lookup-insert c k (job ∷ []) channels)
    ]
  ]

  -- The data after a job that was published.
  published :
      (m : NewExtendedMiningJob) (p : SetNewPrevHash) (job : Notify) (s : Sv1Server)
      → build_notify p m s.clean_job ≡ ok job
      → s.sv1_server_data.prevhash ≡ some p
      → (handle_new_extended_mining_job m s).1.sv1_server_data
        ≡ store_job s.clean_job m.channel_id job s.sv1_server_data
  unfolding handle_new_extended_mining_job publish_job on_data send_broadcasts
  published m p job s made known =
      rw (known, handle_new_extended_mining_job, publish_job, made) refl

  store_job-others :
      (clean : Bool) (k c : ℕ) (job : Notify) (s : Sv1ServerData)
      → s.aggregated_valid_jobs ≡ none
      → (k == c) ≡ false
      → jobs_for (store_job clean k job s) c ≡ jobs_for s c
  unfolding store_job jobs_for
  store_job-others clean k c job s apart other = elim (Option-cases s.non_aggregated_valid_jobs) [
    | inl missing ↦ ground (arith, apart, missing)
    | inr (channels, known) ↦ ground (
      arith,
      apart,
      known,
      other,
      lookup-insert c k (add_job clean job (or_else (lookup k channels) [])) channels,
    )
  ]

  -- The job that is built, if one is, is not the share's.
  abbrev pub builds_other : SetNewPrevHash → Submit → Bool → NewExtendedMiningJob → Bool
  builds_other p share clean m = elim (build_notify p m clean) [
    | err e ↦ true
    | ok job ↦ not (job.job_id == share.job_id)
  ]

  -- Neither where it replaces the older jobs nor where it does not.
  abbrev pub is_other : SetNewPrevHash → Submit → NewExtendedMiningJob → Bool
  is_other p share m = builds_other p share true m && builds_other p share false m

  abbrev pub receive_jobs : List NewExtendedMiningJob → Sv1Server → Sv1Server
  receive_jobs [] s = s
  receive_jobs (m ∷ ms) s = receive_jobs ms (handle_new_extended_mining_job m s).1

  -- The previous hash is known, and the channel has no job for the share.
  abbrev RefusesIn : SetNewPrevHash → Submit → ℕ → Sv1ServerData → Type 0
  RefusesIn p share c t = (t.prevhash ≡ some p) × (find_job share.job_id (jobs_for t c) ≡ none)

  abbrev Refuses : SetNewPrevHash → Submit → ℕ → Sv1Server → Type 0
  Refuses p share c s = RefusesIn p share c s.sv1_server_data

  find_job-add :
      (id : Bytes) (clean : Bool) (job : Notify) (jobs : List Notify)
      → (job.job_id == id) ≡ false
      → find_job id jobs ≡ none
      → find_job id (add_job clean job jobs) ≡ none
  unfolding find_job
  find_job-add id true job jobs other h = ground (arith, other)
  find_job-add id false job [] other h = ground (arith, other)
  find_job-add id false job (j ∷ jobs) other h = elim (Bool-cases (j.job_id == id)) [
    | inl same ↦ ground (arith, same, h)
    | inr different ↦
        let rest = find_job-add id false job jobs other (ground (arith, different, h)) in
        rw (different, find_job) rest
  ]

  store_job-refuses :
      (id : Bytes) (clean : Bool) (k c : ℕ) (job : Notify) (s : Sv1ServerData)
      → (job.job_id == id) ≡ false
      → find_job id (jobs_for s c) ≡ none
      → find_job id (jobs_for (store_job clean k job s) c) ≡ none
  unfolding store_job jobs_for
  store_job-refuses id clean k c job s other h = elim (Option-cases s.aggregated_valid_jobs) [
    | inr (jobs, shared) ↦
        let after = find_job-add id clean job jobs other (ground (arith, shared, h)) in
        ground (arith, shared, after)
    | inl apart ↦ elim (Option-cases s.non_aggregated_valid_jobs) [
      | inl missing ↦ ground (arith, apart, missing, h)
      | inr (channels, known) ↦
          let old = or_else (lookup c channels) [] in
          let after = find_job-add id clean job old other (ground (arith, apart, known, h)) in
          let stored =
            lookup-insert c k (add_job clean job (or_else (lookup k channels) [])) channels in
          elim (Bool-cases (k == c)) [
            | inl own ↦
                let same : k ≡ c = (nat_eqb_iff k c).0 own in
                ground (arith, apart, known, stored, own, same, after)
            | inr foreign ↦ ground (arith, apart, known, stored, foreign, h)
          ]
    ]
  ]

  store_job-prevhash :
      (clean : Bool) (k : ℕ) (job : Notify) (s : Sv1ServerData)
      → (store_job clean k job s).prevhash ≡ s.prevhash
  unfolding store_job
  store_job-prevhash clean k job s =
      ground (arith, Option-cases s.aggregated_valid_jobs, Option-cases s.non_aggregated_valid_jobs)

  job-Refuses :
      (p : SetNewPrevHash) (share : Submit) (c : ℕ) (m : NewExtendedMiningJob) (s : Sv1Server)
      → is_other p share m ≡ true
      → Refuses p share c s
      → Refuses p share c (handle_new_extended_mining_job m s).1
  unfolding handle_new_extended_mining_job publish_job
  job-Refuses p share c m s other (known, missing) =
      elim (result_cases (build_notify p m s.clean_job)) [
        | inr (e, bad) ↦
            let same : (handle_new_extended_mining_job m s).1.sv1_server_data ≡ s.sv1_server_data =
              rw (known, handle_new_extended_mining_job, publish_job, bad) refl in
            subst (λ t. RefusesIn p share c t) (sym same) (known, missing)
        | inl (job, made) ↦
            let data' = published m p job s made known in
            let named : (job.job_id == share.job_id) ≡ false =
              ground (arith, other, made, Bool-cases s.clean_job) in
            subst (λ t. RefusesIn p share c t) (sym data')
              (
                store_job-prevhash s.clean_job m.channel_id job s.sv1_server_data ∙ known,
                store_job-refuses share.job_id s.clean_job m.channel_id c job s.sv1_server_data
                    named missing,
              )
      ]

  jobs-Refuses :
      (p : SetNewPrevHash) (share : Submit) (c : ℕ) (ms : List NewExtendedMiningJob) (s : Sv1Server)
      → all_of (is_other p share) ms ≡ true
      → Refuses p share c s
      → Refuses p share c (receive_jobs ms s)
  jobs-Refuses p share c [] s other h = h
  jobs-Refuses p share c (m ∷ ms) s other h =
      jobs-Refuses p share c ms (handle_new_extended_mining_job m s).1 (ground (arith, other))
        (job-Refuses p share c m s (ground (arith, other)) h)

  -- After a new previous hash, a first job that can be built and is for the channel, or for all
  -- channels where they are aggregated, makes every older job of the channel void: however many
  -- jobs for whatever channels follow, a share of the channel is refused, because its job is not
  -- found, unless one of these jobs is its own.
  pub stale_share_refused :
      (p : SetNewPrevHash) (m : NewExtendedMiningJob) (ms : List NewExtendedMiningJob)
      (job : Notify) (s : Sv1Server) (share : Submit) (target : ℕ) (extranonce1 : Bytes)
      (mask : Option ℕ) (c : ℕ)
      → (is_some s.sv1_server_data.aggregated_valid_jobs || m.channel_id == c) ≡ true
      → build_notify p m true ≡ ok job
      → (job.job_id == share.job_id) ≡ false
      → all_of (is_other p share) ms ≡ true
      → let s' = receive_jobs (m ∷ ms) (store_prev_hash p s).1 in
        validate_sv1_share share target extranonce1 mask s'.sv1_server_data c ≡ err job_not_found
  unfolding store_prev_hash on_data validate_sv1_share validate_for_job
  stale_share_refused p m ms job s share target e1 mask c mine made named others =
      let s1 = (store_prev_hash p s).1 in
      let data' = published m p job s1 made refl in
      let first : Refuses p share c (handle_new_extended_mining_job m s1).1 =
        subst (λ t. RefusesIn p share c t) (sym data')
          (
            store_job-prevhash true m.channel_id job s1.sv1_server_data,
            only_job share.job_id m.channel_id c job s1.sv1_server_data mine named,
          ) in
      let (known, missing) =
        jobs-Refuses p share c ms (handle_new_extended_mining_job m s1).1 others first in
      rw (missing) refl

  -- A job for one channel leaves the jobs of every other channel, where each channel has its own.
  pub other_jobs_kept :
      (m : NewExtendedMiningJob) (c : ℕ) (s : Sv1Server)
      → s.sv1_server_data.aggregated_valid_jobs ≡ none
      → (m.channel_id == c) ≡ false
      → jobs_for (handle_new_extended_mining_job m s).1.sv1_server_data c
        ≡ jobs_for s.sv1_server_data c
  unfolding handle_new_extended_mining_job publish_job
  other_jobs_kept m c s apart other = elim (Option-cases s.sv1_server_data.prevhash) [
    | inl unknown ↦ rw (unknown, publish_job) refl
    | inr (p, known) ↦ elim (result_cases (build_notify p m s.clean_job)) [
      | inr (e, bad) ↦ rw (known, bad, publish_job) refl
      | inl (job, made) ↦
          rw (published m p job s made known)
            (store_job-others s.clean_job m.channel_id c job s.sv1_server_data apart other)
    ]
  ]
