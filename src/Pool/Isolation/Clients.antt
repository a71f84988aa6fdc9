-- ===== src/Pool/Isolation/Clients.antt =====
-- What a message of a client can change and send.
use mathlib.Core.List.{append-nil}
use mara_pool.Prelude.{
  ◌==◌, nat_eq, ℕ, some, refl, inl, inr, [], Bool-cases, ◌∷◌, arith, Option-cases, result_cases,
  beq_refl,
}
use mara_pool.Prelude.Map.{lookup}
use mara_pool.Stratum.{
  StratumCore, ErrorCode, SetCustomMiningJob, SubmitSharesExtended, ClientMessage, close_channel,
  open_standard_mining_channel, open_extended_mining_channel, submit_shares_standard,
  submit_shares_extended, update_channel, set_custom_mining_job,
}
use mara_pool.Pool.Error.{downstream_not_found}
use mara_pool.Pool.State.{PoolSettings}
use mara_pool.Pool.Access.{World, with_downstream, forward}
use mara_pool.Pool.Shares.{
  handle_submit_shares_standard, handle_submit_shares_extended, negotiated_extensions_with_client,
  submit_extended,
}
use mara_pool.Pool.Open.{handle_open_standard_mining_channel, handle_open_extended_mining_channel}
use mara_pool.Pool.Requests.{
  handle_close_channel, handle_update_channel, handle_set_custom_mining_job, pays_script,
  set_custom_job, update_either, custom_job_error,
}
use mara_pool.Pool.Requests
use mara_pool.Pool.Manager.{handle_downstream_mining_message}
use mara_pool.Pool.Isolation.{
  apart, IsIsolated, unchanged, with_downstream-others, serve-IsIsolated, packed-IsIsolated,
}
use mara_pool.Pool.Isolation.Shares.{submit_standard-IsLocal, submit_extended-IsLocal}
use mara_pool.Pool.Isolation.Requests.{
  update_either-IsLocal, set_custom_job-others, set_custom_job-addressed,
}
use mara_pool.Pool.Isolation.Openings.{open_standard-IsLocal, open_extended-IsLocal}

module _ ⦃core : StratumCore⦄ where
  close_channel-IsIsolated :
      (d id : ℕ) (w : World) → IsIsolated d w (handle_close_channel (some d) id w).1
  unfolding handle_close_channel with_downstream Requests.close_channel
  close_channel-IsIsolated d id w = record {
    others = λ e.
        apart (d == e) _ _
          (with_downstream-others d _ (λ ds. Requests.close_channel d id) w (λ ds l. refl) e);
    sent = ([], ground (arith, append-nil w.routed), refl);
  }

  submit_extended-IsIsolated :
      (d : ℕ) (msg : SubmitSharesExtended) (now : ℕ) (w : World)
      → IsIsolated d w (handle_submit_shares_extended (some d) msg now w).1
  unfolding handle_submit_shares_extended negotiated_extensions_with_client
  submit_extended-IsIsolated d msg now w =
      let served =
        serve-IsIsolated d (downstream_not_found d) (λ ds. submit_extended d msg now) w
          (λ ds l. submit_extended-IsLocal d msg now l) in
      elim (Option-cases (lookup d w.manager.downstream)) [
        | inl unknown ↦
            rw (unknown, handle_submit_shares_extended, negotiated_extensions_with_client)
              (unchanged d w)
        | inr (ds, known) ↦
            rw (known, handle_submit_shares_extended, negotiated_extensions_with_client) served
      ]

  custom_job-IsIsolated :
      (settings : PoolSettings) (d : ℕ) (msg : SetCustomMiningJob) (w : World)
      → IsIsolated d w (handle_set_custom_mining_job settings (some d) msg w).1
  unfolding handle_set_custom_mining_job forward
  custom_job-IsIsolated settings d msg w =
      elim (result_cases (core.decode_outputs msg.coinbase_tx_outputs)) [
        | inr (e, undecoded) ↦ rw (undecoded, handle_set_custom_mining_job) (unchanged d w)
        | inl (outputs, decoded) ↦
            elim (Bool-cases (pays_script settings.coinbase_reward_script outputs)) [
              | inr unpaid ↦ record {
                others = λ c. apart (d == c) _ _ (λ ne. ground (arith, decoded, unpaid));
                sent = (
                  custom_job_error d msg ErrorCode.pool_payout_script_missing ∷ [],
                  ground (arith, decoded, unpaid),
                  ground (arith, beq_refl d),
                );
              }
              | inl paid ↦
                  rw (decoded, handle_set_custom_mining_job, paid)
                    (packed-IsIsolated (λ m. m ∷ []) d (downstream_not_found d)
                      (λ ds. set_custom_job d msg) w (λ ds l. set_custom_job-others d msg l)
                      (λ ds l m done'. ground (arith, set_custom_job-addressed d msg l m done')))
            ]
      ]

  -- A message of a client leaves the other connections as they were, and every message that it
  -- leads to is for that client or for the template provider; what was sent before stays.
  pub client_message-IsIsolated :
      (settings : PoolSettings) (d : ℕ) (msg : ClientMessage) (now : ℕ) (w : World)
      → IsIsolated d w (handle_downstream_mining_message settings d msg now w).1
  unfolding handle_downstream_mining_message handle_open_standard_mining_channel
      handle_open_extended_mining_channel handle_submit_shares_standard handle_update_channel
  client_message-IsIsolated settings d (close_channel id) now w = close_channel-IsIsolated d id w
  client_message-IsIsolated settings d (open_standard_mining_channel msg) now w =
      serve-IsIsolated d _ _ w (open_standard-IsLocal settings d now msg)
  client_message-IsIsolated settings d (open_extended_mining_channel msg) now w =
      serve-IsIsolated d _ _ w (open_extended-IsLocal settings d now msg)
  client_message-IsIsolated settings d (submit_shares_standard msg) now w =
      serve-IsIsolated d _ _ w (λ ds. submit_standard-IsLocal d msg now)
  client_message-IsIsolated settings d (submit_shares_extended msg) now w =
      submit_extended-IsIsolated d msg now w
  client_message-IsIsolated settings d (update_channel msg) now w =
      serve-IsIsolated d _ _ w (λ ds. update_either-IsLocal d msg)
  client_message-IsIsolated settings d (set_custom_mining_job msg) now w =
      custom_job-IsIsolated settings d msg w
