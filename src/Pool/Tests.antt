-- ===== src/Pool/Tests.antt =====
-- The theorems at concrete states, connections and messages.
use mara_pool.Prelude.{
  Option, all_of, ℕ, ◌≤◌, true, false, none, some, ◌≡◌, ◌≢◌, refl, ◌⊎◌, List, [], ◌∷◌, ◌++◌, nat_eq,
  Result, ok, err, done, failed, arith, member,
}
use mara_pool.Prelude.Map.{contains, lookup, insert}
use mara_pool.Stratum.{
  Mining, open_standard_mining_channel_success, open_extended_mining_channel_success,
  new_mining_job, new_extended_mining_job, set_new_prev_hash, SetNewPrevHash, ShareValidationError,
  ErrorCode, close_channel, update_channel_error, set_custom_mining_job_error,
  submit_shares_standard, valid, set_target,
}
use mara_pool.Pool.Error.{vardiff_not_found}
use mara_pool.Pool.State.{
  vardiff_key, vardiff_key_eq, vardiff_key_eq, RouteMessageTo, to_downstream,
}
use mara_pool.Pool.Access.{ShareEvent}
use mara_pool.Pool.Shares.{
  handle_submit_shares_standard, handle_submit_shares_extended, respond, standard_rejection,
  standard_submission, shares_error, submit_standard, shares_success, persist, share_event,
}
use mara_pool.Pool.Shares.Errors.{submit_standard-tracked, submit_extended-tracked}
use mara_pool.Pool.Shares.Records.{
  Leaves, respond-Leaves, respond_reply, refusals, acceptances, solutions,
}
use mara_pool.Pool.Requests.{handle_close_channel, update_either, handle_set_custom_mining_job}
use mara_pool.Pool.Requests
use mara_pool.Pool.Requests.Closing.{
  close_channel_closes, close-submit, update_answers_target, custom_job_pays, told,
}
use mara_pool.Pool.Connection.{mining, receive_all, Connection, Reply, handle_request_extensions}
use mara_pool.Pool.Connection.Broadcast.{broadcast}
use mara_pool.Pool.Connection.Negotiation.{
  negotiated, request_accepted, nothing_supported, missing_required_fails,
}
use mara_pool.Pool.Manager.{
  handle_downstream_mining_message, new, make_extranonce_factory, client_message,
  connection_accepted, step, remove_downstream,
}
use mara_pool.Pool.Manager.Unknown.{IsFrozen, remove_downstream_forgets}
use mara_pool.Pool.Isolation.{IsIsolated}
use mara_pool.Pool.Templates.{
  downstream_template, for_each, over_standard, over_extended, group_template_job,
  standard_template_round, own_standard_job, follow_group_job, extended_template_round,
  group_announcement, job_of_template,
}
use mara_pool.Pool.Templates.Addressed.{may_send, downstream_template-addressed}
use mara_pool.Pool.Isolation.Clients.{client_message-IsIsolated}
use mara_pool.Pool.Open.{
  open_standard, open_extended, ensure_group_channel, create_group_channel, create_standard,
  fetch_channel_id, start_standard, register_standard, create_extended, start_extended,
  start_template_work, register_extended,
}
use mara_pool.Pool.Open.Replies.{open_standard-Registered, open_extended-Registered}
use mara_pool.Pool.Sync.Frame.{IsInSync, owns}
use mara_pool.Pool.Sync.Events.{ClockWorks, step-IsInSync, here, next, Reach-IsInSync}
use mara_pool.Pool.Sample.{
  sample_core, sample_settings, sample_channel, sample_downstream, empty_world, sample_world,
  sample_locked, served_locked, sample_template, sample_open_extended, sample_share,
  sample_extended_share, sample_update_channel, sample_open, sample_custom_job,
}

sample_clock : ClockWorks
sample_clock = λ now. (0, refl)

sample_IsInSync : IsInSync sample_world.manager
unfolding lookup
sample_IsInSync = record { sync = λ d c. ground arith; fresh = λ d le. ground arith }

step-IsInSync_example :
    IsInSync (step sample_settings (client_message 1 (close_channel 2) 0) sample_world).1.manager
step-IsInSync_example =
    step-IsInSync sample_settings (client_message 1 (close_channel 2) 0) sample_world sample_clock
      (omega arith) sample_IsInSync

new_sample : new 7 [] ≡ done empty_world
unfolding new make_extranonce_factory
new_sample = refl

Reach-IsInSync_example : IsInSync (step sample_settings connection_accepted empty_world).1.manager
Reach-IsInSync_example =
    Reach-IsInSync sample_settings 7 [] empty_world
      (step sample_settings connection_accepted empty_world).1 sample_clock new_sample
      (next here (omega arith) connection_accepted)

submit_standard-tracked_example :
    (handle_submit_shares_standard (some 1) sample_share 0 sample_world).0
    ≢ failed (vardiff_not_found 2)
submit_standard-tracked_example =
    submit_standard-tracked 1 sample_share 0 2 sample_world sample_IsInSync

submit_extended-tracked_example :
    (handle_submit_shares_extended (some 1) sample_extended_share 0 sample_world).0
    ≢ failed (vardiff_not_found 3)
submit_extended-tracked_example =
    submit_extended-tracked 1 sample_extended_share 0 3 sample_world sample_IsInSync

respond-Leaves_example :
    (new : List ShareEvent) × ((respond sample_core.standard standard_rejection 1
        (standard_submission sample_share)
        0
        sample_channel
        (err ShareValidationError.duplicate_share)
        sample_locked).1.persisted
      ≡ [] ++ new)
    × Leaves standard_rejection (err ShareValidationError.duplicate_share) new
respond-Leaves_example =
    respond-Leaves sample_core.standard standard_rejection 1 (standard_submission sample_share) 0
      sample_channel (err ShareValidationError.duplicate_share) sample_locked

abbrev acknowledged : List RouteMessageTo
acknowledged =
    shares_success sample_core.standard 1 (standard_submission sample_share) sample_channel ∷ []

respond_valid :
    (respond sample_core.standard standard_rejection 1
      (standard_submission sample_share)
      0
      sample_channel
      (ok (valid []))
      sample_locked).0
    ≡ done acknowledged
unfolding respond persist share_event
respond_valid = refl

respond_reply_example :
    (refusals acknowledged ≡ 0)
    × (solutions acknowledged ≡ 0)
    × (0 ≤ acceptances acknowledged)
    × (acceptances acknowledged ≤ 1)
respond_reply_example =
    respond_reply sample_core.standard standard_rejection 1 (standard_submission sample_share) 0
      sample_channel (ok (valid [])) sample_locked acknowledged respond_valid

sample_known : lookup 1 sample_world.manager.downstream ≡ some sample_downstream
unfolding lookup
sample_known = refl

close_channel_closes_example :
    owns (handle_close_channel (some 1) 2 sample_world).1.manager.downstream 1 2 ≡ false
close_channel_closes_example =
    close_channel_closes 1 2 1 2 sample_world sample_downstream sample_known

close-submit_example :
    submit_standard 1 sample_share 0 (Requests.close_channel 1 2 sample_locked).1 ≡ (
      done (
          shares_error sample_core.standard 1
            (standard_submission sample_share)
            ErrorCode.invalid_channel_id
          ∷ []),
      (Requests.close_channel 1 2 sample_locked).1,
    )
close-submit_example = close-submit 1 2 sample_share 0 sample_locked refl

update_done :
    (update_either 1 sample_update_channel sample_locked).0
    ≡ done (to_downstream 1 (set_target 2 50) ∷ [])
unfolding update_either Requests.update_standard Requests.update_reply lookup insert
update_done = refl

channel_found : lookup 2 sample_locked.downstream_data.standard_channels ≡ some sample_channel
unfolding lookup
channel_found = refl

update_answers_target_example :
    (channel' : sample_core.standard.Channel) × (lookup 2
        (update_either 1 sample_update_channel sample_locked).1.downstream_data.standard_channels
      ≡ some channel')
    × ((to_downstream 1 (set_target 2 50) ∷ [] ≡ told 1 sample_update_channel channel' ∷ [])
        ⊎ ((code : ErrorCode) × (to_downstream 1 (set_target 2 50) ∷ []
              ≡ to_downstream 1 (update_channel_error 2 code)
                ∷ told 1 sample_update_channel channel'
                ∷ [])))
update_answers_target_example =
    update_answers_target 1 sample_update_channel sample_locked
      (to_downstream 1 (set_target 2 50) ∷ []) sample_channel channel_found update_done

custom_job_pays_example :
    (handle_set_custom_mining_job sample_settings (some 1) sample_custom_job sample_world).1
    ≡ record sample_world {
      routed =
          to_downstream 1 (set_custom_mining_job_error 1 3 ErrorCode.pool_payout_script_missing)
          ∷ [];
    }
custom_job_pays_example =
    custom_job_pays sample_settings 1 sample_custom_job sample_world
      (record { value = 1; script_pubkey = 5 ∷ [] } ∷ []) refl ((λ e. ground arith), tt)

remove_downstream_forgets_example :
    let m = sample_world.manager in
    let w' = remove_downstream 1 sample_world in
    (owns w'.manager.downstream 1 2 ≡ false)
    × (lookup (vardiff_key 1 2) w'.manager.vardiff ≡ none)
    × (lookup 1 w'.manager.downstream ≡ none)
    × IsFrozen sample_world w'
    × (w'.manager.downstream_id_factory ≡ m.downstream_id_factory)
    × (w'.manager.extranonce_prefix_factory_extended ≡ m.extranonce_prefix_factory_extended)
    × (w'.manager.extranonce_prefix_factory_standard ≡ m.extranonce_prefix_factory_standard)
    × (w'.manager.coinbase_outputs ≡ m.coinbase_outputs)
remove_downstream_forgets_example = remove_downstream_forgets 1 1 2 sample_world

abbrev encode : Reply → Result ℕ (Unit {0})
encode reply = ok tt

abbrev sample_connection : Connection
sample_connection = record { downstream = sample_downstream; sent = []; queue_open = true }

-- The connection requires 1 and supports 1 and 2.
request_accepted_example :
    member 2 (
      negotiated encode
        (handle_request_extensions encode
          (record { request_id = 1; requested_extensions = 1 ∷ 2 ∷ 3 ∷ [] })
          sample_connection).1)
    ≡ true
request_accepted_example =
    request_accepted encode (record { request_id = 1; requested_extensions = 1 ∷ 2 ∷ 3 ∷ [] })
      sample_connection 1 refl refl (λ x h. ground arith) 2

nothing_supported_example :
    (handle_request_extensions encode
      (record { request_id = 1; requested_extensions = 3 ∷ [] })
      sample_connection).1.downstream
    ≡ sample_downstream
nothing_supported_example =
    nothing_supported encode (record { request_id = 1; requested_extensions = 3 ∷ [] })
      sample_connection (λ x h. ground arith)

missing_required_fails_example :
    let (r, c') =
      handle_request_extensions encode
        (record { request_id = 1; requested_extensions = 2 ∷ [] })
        sample_connection in
    (r ≢ done tt) × (negotiated encode c' ≡ [])
missing_required_fails_example =
    missing_required_fails encode (record { request_id = 1; requested_extensions = 2 ∷ [] })
      sample_connection 1 refl refl

client_message-IsIsolated_example :
    IsIsolated 1 sample_world
      (handle_downstream_mining_message sample_settings 1
        (submit_shares_standard sample_share)
        0
        sample_world).1
client_message-IsIsolated_example =
    client_message-IsIsolated sample_settings 1 (submit_shares_standard sample_share) 0 sample_world

abbrev sample_prev_hash : ℕ → SetNewPrevHash
sample_prev_hash id = record {
  channel_id = id;
  job_id = 1;
  prev_hash = [];
  min_ntime = 0;
  nbits = 0;
}

-- The group channel gets the id 4, and the standard channel the id 5.
abbrev standard_reply : List RouteMessageTo
standard_reply =
    to_downstream 1 (
      open_standard_mining_channel_success (record {
        request_id = 1;
        channel_id = 5;
        target = 50;
        extranonce_prefix = 0 ∷ [];
        group_channel_id = 4;
      }))
    ∷ to_downstream 1 (new_mining_job 1)
    ∷ to_downstream 1 (set_new_prev_hash (sample_prev_hash 5))
    ∷ []

standard_replied :
    (open_standard sample_settings 1 sample_open 0 sample_downstream served_locked).0
    ≡ done standard_reply
unfolding open_standard ensure_group_channel create_group_channel create_standard fetch_channel_id
    start_standard register_standard
standard_replied = refl

open_standard-Registered_example :
    let l' = (open_standard sample_settings 1 sample_open 0 sample_downstream served_locked).1 in
    (contains 5 l'.downstream_data.standard_channels ≡ true)
    × (contains (vardiff_key 1 5) l'.manager.vardiff ≡ true)
open_standard-Registered_example =
    open_standard-Registered sample_settings 1 0 sample_open sample_downstream 5 served_locked
      standard_reply standard_replied refl

abbrev extended_reply : List RouteMessageTo
extended_reply =
    to_downstream 1 (
      open_extended_mining_channel_success (record {
        request_id = 1;
        channel_id = 4;
        target = 50;
        extranonce_prefix = 0 ∷ [];
        extranonce_size = 16;
      }))
    ∷ to_downstream 1 (new_extended_mining_job 1)
    ∷ to_downstream 1 (set_new_prev_hash (sample_prev_hash 4))
    ∷ []

extended_replied :
    (open_extended sample_settings 1 sample_open_extended 0 sample_downstream served_locked).0
    ≡ done extended_reply
unfolding open_extended create_extended fetch_channel_id start_extended start_template_work
    register_extended
extended_replied = refl

open_extended-Registered_example :
    let l' =
      (open_extended sample_settings 1 sample_open_extended 0 sample_downstream served_locked).1 in
    (contains 4 l'.downstream_data.extended_channels ≡ true)
    × (contains (vardiff_key 1 4) l'.manager.vardiff ≡ true)
open_extended-Registered_example =
    open_extended-Registered sample_settings 1 0 sample_open_extended sample_downstream 4
      served_locked extended_reply extended_replied refl

abbrev template_messages : List RouteMessageTo
template_messages =
    to_downstream 1 (new_mining_job 1) ∷ to_downstream 1 (new_extended_mining_job 1) ∷ []

template_answered :
    (downstream_template sample_template [] 1 sample_locked.downstream_data).0
    ≡ done template_messages
unfolding downstream_template for_each over_standard over_extended group_template_job
    standard_template_round own_standard_job follow_group_job extended_template_round
    group_announcement job_of_template
template_answered = refl

downstream_template-addressed_example : all_of (may_send false 1) template_messages ≡ true
downstream_template-addressed_example =
    downstream_template-addressed sample_template [] 1 sample_locked.downstream_data
      template_messages template_answered

abbrev receives : List (Option (ℕ × Mining))
receives =
    some (1, new_mining_job 1) ∷ none ∷ some (2, new_mining_job 2) ∷ some (1, new_mining_job 3) ∷ []

broadcast_example : receive_all encode 1 receives sample_connection ≡ (
  done tt,
  record sample_connection { sent = mining (new_mining_job 1) ∷ mining (new_mining_job 3) ∷ [] },
)
broadcast_example = broadcast encode 1 receives sample_connection refl refl
