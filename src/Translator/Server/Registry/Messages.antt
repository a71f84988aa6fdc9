-- ===== src/Translator/Server/Registry/Messages.antt =====
-- The messages of the two sides.
use mara_pool.Prelude.{
  ℕ, Bool, true, false, Option, none, some, refl, inl, inr, arith, if◌then◌else◌, nat_eq,
  Option-cases, result_cases, Keeps, resume-Keeps, >>=-Keeps, expect, expect_ok, or_fail,
}
use mara_pool.Prelude.Map.{lookup}
use mara_pool.Stratum.{SetNewPrevHash}
use mara_pool.Translator.Core.{Sv1Core, NewExtendedMiningJob, Notify}
use mara_pool.Translator.State.{
  sv1_error, Sv1ServerData, SubmitShareWithChannelId, TranslatorConfig, submit_shares_extended,
}
use mara_pool.Translator.Difficulty.{
  write_downstream, on_data, send_broadcasts, set_upstream_target, get_pending_difficulty_updates,
  send_pending_set_difficulty_messages_to_downstream, handle_aggregated_set_target,
  handle_non_aggregated_set_target, handle_set_target_message, find_by_channel,
}
use mara_pool.Translator.Server.Opening.{hand_upstream}
use mara_pool.Translator.Server.Jobs.{
  store_job, publish_job, handle_new_extended_mining_job, store_prev_hash,
}
use mara_pool.Translator.Server.Sending.{
  count_share, identity_tlv, submit_with, handle_submit_shares, set_both_targets,
  send_set_difficulty_to_all_downstreams, send_to_affected,
  send_set_difficulty_to_specific_downstream, handle_set_target_without_vardiff,
}
use mara_pool.Translator.Server.Registry.{
  IsPaired, Paired, IsPaired-same, write-IsPaired, set_all-contains, set_open-contains,
  count_share-IsPaired,
}
use mara_pool.Translator.Server.Registry.Opening.{
  hand-Keeps, expect_ok-Keeps, or_fail-Keeps, expect-Keeps,
}

module _ ⦃core : Sv1Core⦄ where
  open core use {
    build_set_difficulty, build_open_channel, build_submit_shares, user_identity_tlv,
    OpenExtendedMiningChannel, build_notify,
  }

  store_job-IsPaired :
      (clean : Bool) (c : ℕ) (job : Notify) (s : Sv1ServerData)
      → IsPaired s
      → IsPaired (store_job clean c job s)
  unfolding store_job
  store_job-IsPaired clean c job s h =
      IsPaired-same s (store_job clean c job s)
        (λ e.
          ground
            (arith, Option-cases s.aggregated_valid_jobs, Option-cases s.non_aggregated_valid_jobs))
        (λ e.
          ground
            (arith, Option-cases s.aggregated_valid_jobs, Option-cases s.non_aggregated_valid_jobs))
        h

  publish-Keeps :
      (m : NewExtendedMiningJob) (p : Option SetNewPrevHash) → Keeps Paired (publish_job m p)
  unfolding publish_job on_data send_broadcasts
  publish-Keeps m none s h = h
  publish-Keeps m (some p) s h = elim (result_cases (build_notify p m s.clean_job)) [
    | inr (e, bad) ↦ rw (bad, publish_job) h
    | inl (job, made) ↦
        rw (made, publish_job) (store_job-IsPaired s.clean_job m.channel_id job s.sv1_server_data h)
  ]

  pub job-Keeps : (m : NewExtendedMiningJob) → Keeps Paired (handle_new_extended_mining_job m)
  unfolding handle_new_extended_mining_job
  job-Keeps m s h = publish-Keeps m s.sv1_server_data.prevhash s h

  pub prev_hash-Keeps : (m : SetNewPrevHash) → Keeps Paired (store_prev_hash m)
  unfolding store_prev_hash on_data
  prev_hash-Keeps m s h = IsPaired-same s.sv1_server_data _ (λ e. refl) (λ e. refl) h

  tlv-Keeps : (aggregated : Bool) (id : ℕ) → Keeps Paired (identity_tlv aggregated id)
  unfolding identity_tlv
  tlv-Keeps true id s h = h
  tlv-Keeps false id s h =
      resume-Keeps Paired (expect (lookup id s.sv1_server_data.downstreams) s)
        (λ d. expect_ok (user_identity_tlv d.user_identity))
        (expect-Keeps (lookup id s.sv1_server_data.downstreams) s h)
        (λ d. expect_ok-Keeps (user_identity_tlv d.user_identity))

  submit-Keeps :
      (config : TranslatorConfig) (share : SubmitShareWithChannelId) (o : Option ℕ)
      → Keeps Paired (submit_with config share o)
  unfolding submit_with
  submit-Keeps config share none s h = h
  submit-Keeps config share (some version) s h =
      let built =
        build_submit_shares share.share share.channel_id s.sequence_counter version
          share.version_rolling_mask in
      resume-Keeps Paired (or_fail (λ e. sv1_error) built s) _
        (or_fail-Keeps (λ e. sv1_error) built s h)
        (λ message.
          >>=-Keeps Paired (identity_tlv config.aggregate_channels share.downstream_id) _
            (tlv-Keeps config.aggregate_channels share.downstream_id)
            (λ tlv.
              >>=-Keeps Paired (hand_upstream (submit_shares_extended message tlv)) _
                (hand-Keeps (submit_shares_extended message tlv)) (λ _ k p. p)))

  pub share-Keeps :
      (config : TranslatorConfig) (share : SubmitShareWithChannelId)
      → Keeps Paired (handle_submit_shares config share)
  unfolding handle_submit_shares on_data
  share-Keeps config share s h =
      submit-Keeps config share share.job_version _ (counted config.enable_vardiff)
    where
      counted :
          (b : Bool)
          → IsPaired ((if b then count_share share.downstream_id else (λ t. t)) s.sv1_server_data)
      counted true = count_share-IsPaired share.downstream_id s.sv1_server_data h
      counted false = h

  affected-Keeps : (c target : ℕ) (o : Option ℕ) → Keeps Paired (send_to_affected c target o)
  unfolding send_to_affected send_broadcasts on_data
  affected-Keeps c target none s h = h
  affected-Keeps c target (some id) s h =
      write-IsPaired id (set_both_targets target) s.sv1_server_data h

  pub plain_target-Keeps :
      (aggregated : Bool) (c target : ℕ)
      → Keeps Paired (handle_set_target_without_vardiff aggregated c target)
  unfolding handle_set_target_without_vardiff send_set_difficulty_to_all_downstreams
      send_set_difficulty_to_specific_downstream send_broadcasts on_data
  plain_target-Keeps true c target s h =
      IsPaired-same s.sv1_server_data _ (λ e. refl)
        (λ e. set_open-contains e target s.sv1_server_data.downstreams) h
  plain_target-Keeps false c target s h =
      affected-Keeps c target (find_by_channel c s.sv1_server_data.downstreams) s h

  pub target-Keeps :
      (aggregated : Bool) (c target : ℕ)
      → Keeps Paired (handle_set_target_message aggregated c target)
  unfolding handle_set_target_message handle_aggregated_set_target handle_non_aggregated_set_target
      get_pending_difficulty_updates on_data send_pending_set_difficulty_messages_to_downstream
      send_broadcasts
  target-Keeps true c target s h =
      IsPaired-same s.sv1_server_data _ (λ e. refl)
        (λ e. set_all-contains e target s.sv1_server_data.downstreams) h
  target-Keeps false c target s h =
      elim (Option-cases (find_by_channel c s.sv1_server_data.downstreams)) [
        | inl missing ↦ rw (missing, handle_set_target_message, handle_non_aggregated_set_target) h
        | inr (id, found) ↦
            rw (found, handle_set_target_message, handle_non_aggregated_set_target)
              (IsPaired-same (write_downstream id (set_upstream_target target) s.sv1_server_data) _
                (λ e. refl) (λ e. refl)
                (write-IsPaired id (set_upstream_target target) s.sv1_server_data h))
      ]
