-- ===== src/Translator/Tests.antt =====
-- The theorems about the translator at concrete states and messages.
use mara_pool.Prelude.{
  List, ◌↔◌, true, false, none, some, ◌≡◌, refl, inl, ◌⊎◌, [], ◌∷◌, nat_eq, ok, err, done, arith,
  In, leb,
}
use mara_pool.Prelude.Map.{contains, lookup}
use mara_pool.Prelude.Bits.{bit}
use mara_pool.Stratum.{OpenExtendedMiningChannelSuccess}
use mara_pool.Translator.Core.{
  Notify, notify, Message, standard_request, notification, other_request, NewExtendedMiningJob,
}
use mara_pool.Translator.State.{
  Sv1Server, SubmitShareWithChannelId, DownstreamData, new_downstream_data, new_server_data,
  PendingTargetUpdate, Broadcast, job_not_found, submit_shares, open_channel,
}
use mara_pool.Translator.Difficulty.{
  Update, handle_aggregated_set_target, set_all_upstream_targets, get_pending_difficulty_updates,
  on_data, send_pending_set_difficulty_messages_to_downstream, pending_messages, send_broadcasts,
  set_difficulty_for, applicable_updates, set_upstream_target,
}
use mara_pool.Translator.Difficulty.Fairness.{upstream_of}
use mara_pool.Translator.Difficulty.Applied.{told_target}
use mara_pool.Translator.Difficulty.Settling.{
  settled_update_sent, set_target_settles, set_target_tells_only,
}
use mara_pool.Translator.Connection.{
  rolled_version, validate_sv1_share, validate_for_job, meets_target, find_job, jobs_for,
  handle_downstream_message, handle_sv1_server_message, default_mask, established, process_message,
  answer_miner, send_to_miner, send_pending_share, forward_pending, send_to_server, write_data,
  handle_submit, accept_share,
}
use mara_pool.Translator.Connection.Versions.{rolled_version_bits}
use mara_pool.Translator.Connection.Accepted.{IsFirst, MeetsTarget, accepted_share}
use mara_pool.Translator.Connection.Delivery.{
  target_with_difficulty, WaitsIn, silent_before_handshake,
}
use mara_pool.Translator.Connection.Opening.{handle_all, one_channel_asked}
use mara_pool.Translator.Connection.Shares.{IsChecked, only_valid_shares}
use mara_pool.Translator.Server.{new_sv1_server, handle_new_extended_mining_job, store_prev_hash}
use mara_pool.Translator.Server.Stale.{receive_jobs, stale_share_refused, other_jobs_kept}
use mara_pool.Translator.Server.Miners.{miner_spoke}
use mara_pool.Translator.Server.Registry.Reach.{
  miner_accepted, miner_task, react, here, next, vardiff_of_connected,
}
use mara_pool.Translator.Sample.{
  sample_sv1, sample_prev_hash, sample_job, sample_share, sample_set_difficulty, sample_protocol,
  sample_config, sample_miner, sample_data, sample_server, sample_connection,
}

abbrev next_job : NewExtendedMiningJob
next_job = record { channel_id = 3; payload = 9 ∷ [] }

abbrev channel_opened : OpenExtendedMiningChannelSuccess
channel_opened = record {
  request_id = 1;
  channel_id = 6;
  target = 70;
  extranonce_size = 4;
  extranonce_prefix = 1 ∷ 2 ∷ [];
}

abbrev later_jobs : List NewExtendedMiningJob
later_jobs =
    record { channel_id = 4; payload = 7 ∷ [] } ∷ record { channel_id = 3; payload = 6 ∷ [] } ∷ []

stale_share_refused_example :
    let s' =
      receive_jobs
        (next_job ∷ later_jobs)
        (store_prev_hash sample_prev_hash (sample_server false)).1 in
    validate_sv1_share (sample_share (8 ∷ [])) 100 [] none s'.sv1_server_data 3 ≡ err job_not_found
stale_share_refused_example =
    stale_share_refused sample_prev_hash next_job later_jobs (sample_job (9 ∷ []) true)
      (sample_server false) (sample_share (8 ∷ [])) 100 [] none 3 refl refl refl refl

other_jobs_kept_example :
    jobs_for
      (handle_new_extended_mining_job
        (record next_job { channel_id = 4 })
        (sample_server false)).1.sv1_server_data
      3
    ≡ sample_job (8 ∷ []) true ∷ []
unfolding jobs_for lookup
other_jobs_kept_example =
    other_jobs_kept (record next_job { channel_id = 4 }) 3 (sample_server false) refl refl

rolled_version_bits_example : bit 13 (rolled_version 0 8192 default_mask) ≡ true
rolled_version_bits_example = rolled_version_bits 13 0 8192 default_mask (omega arith)

abbrev shared_share : Message
shared_share = standard_request (record { method = other_request; params = 8 ∷ [] })

abbrev shared : SubmitShareWithChannelId
shared = record {
  channel_id = 3;
  downstream_id = 1;
  share = sample_share (8 ∷ []);
  extranonce = 0 ∷ 0 ∷ 0 ∷ 0 ∷ 0 ∷ 0 ∷ 0 ∷ 0 ∷ [];
  extranonce2_len = 4;
  version_rolling_mask = none;
  job_version = none;
}

only_valid_shares_example :
    In (submit_shares shared) [] ⊎ IsChecked (sample_data false) sample_miner shared
unfolding handle_downstream_message new_downstream_data established process_message answer_miner
    send_to_miner send_pending_share forward_pending send_to_server write_data handle_submit
    accept_share validate_sv1_share validate_for_job meets_target find_job jobs_for lookup
    rolled_version
only_valid_shares_example =
    only_valid_shares sample_protocol (sample_data false) shared_share
      (sample_connection sample_miner) shared refl (inl refl)

accepted_share_example :
    (validate_sv1_share (sample_share (8 ∷ [])) 100 [] none (sample_data false) 3 ≡ ok true) ↔ (
      (job : Notify) × IsFirst (8 ∷ []) (sample_job (8 ∷ []) true ∷ []) job
      × MeetsTarget (sample_share (8 ∷ [])) 100 [] none job)
unfolding jobs_for lookup
accepted_share_example = accepted_share (sample_share (8 ∷ [])) 100 [] none (sample_data false) 3

abbrev ready : DownstreamData
ready = record sample_miner {
  sv1_handshake_complete = true;
  cached_set_difficulty = some (sample_set_difficulty 50);
  pending_target = some 50;
}

abbrev job_broadcast : Broadcast
job_broadcast = record {
  channel_id = 3;
  downstream_id = none;
  message = notification (record { method = notify; params = 9 ∷ [] });
}

target_with_difficulty_example :
    let c' = (handle_sv1_server_message job_broadcast (sample_connection ready)).1 in
    (c'.downstream_data.target ≡ 100)
    ⊎ ((true ≡ false) ⊎ ((m : Message) × (some (sample_set_difficulty 50) ≡ some m) × In m c'.sent))
unfolding new_downstream_data
target_with_difficulty_example = target_with_difficulty job_broadcast (sample_connection ready)

silent_before_handshake_example :
    let c = sample_connection sample_miner in
    let c' = (handle_sv1_server_message job_broadcast c).1 in
    (c'.sent ≡ []) × WaitsIn notify job_broadcast.message c c'
unfolding new_downstream_data
silent_before_handshake_example =
    silent_before_handshake job_broadcast (record { method = notify; params = 9 ∷ [] })
      (sample_connection sample_miner) refl refl refl

one_channel_asked_example :
    let c = sample_connection (new_downstream_data 1 100 none) in
    let (r, c') =
      handle_all sample_protocol (sample_data true) (shared_share ∷ shared_share ∷ []) c in
    (r ≡ done tt)
    × (c'.to_server ≡ open_channel 1 ∷ [])
    × (c'.sent ≡ [])
    × (c'.downstream_data.queued_sv1_handshake_messages ≡ shared_share ∷ shared_share ∷ [])
unfolding new_downstream_data
one_channel_asked_example =
    one_channel_asked sample_protocol (sample_data true) shared_share (shared_share ∷ [])
      (sample_connection (new_downstream_data 1 100 none)) refl refl refl

abbrev waiting : PendingTargetUpdate
waiting = record { downstream_id = 1; new_target = 50; new_hashrate = 20 }

settled_update_sent_example :
    In
      (told_target 3 waiting (sample_set_difficulty 50))
      (handle_aggregated_set_target 40 (sample_server true)).1.broadcasts
unfolding lookup
settled_update_sent_example =
    settled_update_sent 40 (sample_server true) waiting sample_miner 3 (sample_set_difficulty 50)
      (inl refl) refl refl refl refl

set_target_settles_example :
    let s' = (handle_aggregated_set_target 40 (sample_server true)).1 in
    (s'.sv1_server_data.pending_target_updates ≡ []) × (upstream_of s'.sv1_server_data 1 ≡ some 40)
unfolding lookup
set_target_settles_example = set_target_settles 40 1 (sample_server true)

set_target_tells_only_example :
    In (told_target 3 waiting (sample_set_difficulty 50)) []
    ⊎ ((u : PendingTargetUpdate) × In u (waiting ∷ [])
        × (leb 40 u.new_target ≡ true)
        × (some 1 ≡ some u.downstream_id)
        × (sample_sv1.build_set_difficulty u.new_target ≡ ok (sample_set_difficulty 50)))
unfolding handle_aggregated_set_target get_pending_difficulty_updates on_data
    send_pending_set_difficulty_messages_to_downstream pending_messages send_broadcasts
    set_difficulty_for applicable_updates set_all_upstream_targets set_upstream_target lookup
    new_server_data new_downstream_data
set_target_tells_only_example =
    set_target_tells_only 40 (sample_server true) (told_target 3 waiting (sample_set_difficulty 50))
      (inl refl)

-- The target of the miner falls from 100 to 50, which is below its upstream target.
abbrev lowered : Update
lowered = record { downstream_id = 1; channel_id = 3; new_target = 50; new_hashrate = 20 }

abbrev joined : Sv1Server
joined =
    (react sample_protocol (sample_config true true) 100 (miner_accepted 0)
      (new_sv1_server (sample_config true true))).1

vardiff_of_connected_example :
    let s =
      (react sample_protocol
        (sample_config true true)
        100
        (miner_task 1 (miner_spoke shared_share) true true)
        joined).1 in
    contains 1 s.sv1_server_data.vardiff ≡ contains 1 s.sv1_server_data.downstreams
vardiff_of_connected_example =
    vardiff_of_connected sample_protocol (sample_config true true) 100 1
      (react sample_protocol (sample_config true true) 100
        (miner_task 1 (miner_spoke shared_share) true true) joined).1
      refl (λ now. (0, refl))
      (next (next here (miner_accepted 0)) (miner_task 1 (miner_spoke shared_share) true true))
