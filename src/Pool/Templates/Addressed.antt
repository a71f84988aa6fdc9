-- ===== src/Pool/Templates/Addressed.antt =====
-- Whom the messages of a new template are for.
use mara_pool.Prelude.{
  all_of, all_of-append, ℕ, Bool, true, false, not, ◌&&◌, Option, none, some, ◌≡◌, refl, inl, inr,
  List, [], ◌∷◌, ◌++◌, nat_eq, ◌==◌, arith, done, Handler, outcome_cases, beq_refl,
}
use mara_pool.Prelude.Map.{Map, is_some}
use mara_pool.Stratum.{StratumCore, NewTemplate, TxOut, new_mining_job}
use mara_pool.Pool.Error.{PoolError}
use mara_pool.Pool.State.{DownstreamData, RouteMessageTo, to_downstream, template_provider}
use mara_pool.Pool.Templates.Rounds.{for_each, over_standard, over_extended}
use mara_pool.Pool.Templates.NewTemplate.{
  group_template_job, own_standard_job, follow_group_job, standard_template_round,
  extended_template_round, group_announcement, downstream_template,
}

module _ {M : Type 0} (p : M → Bool) where
  -- If all messages of all rounds pass the test, so do those of the loop.
  all_of-for_each :
      {K V : Type 0} (body : K → Handler V PoolError (List M))
      → ((k : K) (v : V) (ms : List M) → (body k v).0 ≡ done ms → all_of p ms ≡ true)
      → (m : Map K V) (ms : List M) → (for_each body m).0 ≡ done ms
      → all_of p ms ≡ true
  unfolding for_each
  all_of-for_each body each [] ms h = ground arith
  all_of-for_each body each ((k, v) ∷ m) ms h = elim (outcome_cases (body k v).0) [
    | inr stopped ↦ ground (arith, stopped)
    | inl (now, replied) ↦ elim (outcome_cases (for_each body m).0) [
      | inr stopped ↦ ground (arith, replied, stopped)
      | inl (more, looped) ↦ ground (
        arith,
        replied,
        looped,
        each k v now replied,
        all_of-for_each body each m more looped,
        all_of-append p now more,
      )
    ]
  ]

module _ ⦃core : StratumCore⦄ where
  open core use {standard, extended, extended_jobs}

  -- The message is for connection `d`, and for one with a group channel no standard job.
  abbrev pub may_send : Bool → ℕ → RouteMessageTo → Bool
  may_send grouped d (template_provider m) = false
  may_send grouped d (to_downstream e (new_mining_job job)) = e == d && not grouped
  may_send grouped d (to_downstream e m) = e == d

  module _ (msg : NewTemplate) (outputs : List TxOut) (d : ℕ) where
    standard_round-all_of :
        (grouped : Bool) (job : Option extended_jobs.Job) (id : ℕ) (channel : standard.Channel)
        (ms : List RouteMessageTo)
        → (standard_template_round d msg outputs grouped job id channel).0 ≡ done ms
        → all_of (may_send grouped d) ms ≡ true
    unfolding standard_template_round own_standard_job follow_group_job
    standard_round-all_of true none id channel ms h = ground arith
    standard_round-all_of true (some job) id channel ms h = ground arith
    standard_round-all_of false none id channel ms h = ground (arith, beq_refl d)
    standard_round-all_of false (some job) id channel ms h = ground (arith, beq_refl d)

    extended_round-all_of :
        (grouped : Bool) (id : ℕ) (channel : extended.Channel) (ms : List RouteMessageTo)
        → (extended_template_round d msg outputs id channel).0 ≡ done ms
        → all_of (may_send grouped d) ms ≡ true
    unfolding extended_template_round
    extended_round-all_of grouped id channel ms h = ground (arith, beq_refl d)

    announcement-all_of :
        (grouped : Bool) (job : Option extended_jobs.Job)
        → all_of (may_send grouped d) (group_announcement d job) ≡ true
    unfolding group_announcement
    announcement-all_of grouped none = refl
    announcement-all_of grouped (some job) = ground (arith, beq_refl d)

    group_job-grouped :
        (s : DownstreamData)
        → is_some (group_template_job msg outputs s).1.group_channels ≡ is_some s.group_channels
    unfolding group_template_job
    group_job-grouped s = ground arith

    -- What a new template sends for a connection goes to that connection, and a connection with a
    -- group channel is sent no job for its standard channels.
    pub downstream_template-addressed :
        (s : DownstreamData) (ms : List RouteMessageTo)
        → (downstream_template msg outputs d s).0 ≡ done ms
        → all_of (may_send (is_some s.group_channels) d) ms ≡ true
    unfolding downstream_template over_standard over_extended
    downstream_template-addressed s ms h =
        let (r, s') = group_template_job msg outputs s in
        let grouped = is_some s'.group_channels in
        elim (outcome_cases r) [
          | inr stopped ↦ ground (arith, stopped)
          | inl (job, made) ↦
              let standard_round = standard_template_round d msg outputs grouped job in
              let extended_round = extended_template_round d msg outputs in
              elim (outcome_cases (for_each standard_round s'.standard_channels).0) [
                | inr stopped ↦ ground (arith, made, stopped)
                | inl (own, looped) ↦
                    elim (outcome_cases (for_each extended_round s'.extended_channels).0) [
                      | inr stopped ↦ ground (arith, made, looped, stopped)
                      | inl (others, looped') ↦
                          let p = may_send grouped d in
                          ground (
                            arith,
                            made,
                            looped,
                            looped',
                            group_job-grouped s,
                            all_of-append p own (group_announcement d job ++ others),
                            all_of-append p (group_announcement d job) others,
                            announcement-all_of grouped job,
                            all_of-for_each p standard_round (standard_round-all_of grouped job)
                                s'.standard_channels own looped,
                            all_of-for_each p extended_round (extended_round-all_of grouped)
                                s'.extended_channels others looped',
                          )
                    ]
              ]
        ]
