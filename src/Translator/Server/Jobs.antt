-- ===== src/Translator/Server/Jobs.antt =====
-- The jobs and previous hashes of the upstream.
use mara_pool.Prelude.{
  ℕ, Bool, true, false, Option, none, some, List, [], ◌∷◌, ◌++◌, Handler, pure, gets, modify,
  or_fail, ◌>>=◌, ◌>>◌, nat_eq,
}
use mara_pool.Prelude.Map.{lookup, insert}
use mara_pool.Stratum.{SetNewPrevHash}
use mara_pool.Translator.Core.{Sv1Core, Notify, NewExtendedMiningJob}
use mara_pool.Translator.State.{TproxyError, translation_error, Sv1ServerData, Sv1Server}
use mara_pool.Translator.Difficulty.{on_data, or_else, send_broadcasts}

-- `clear` where the job replaces the older ones, then `push`.
abbrev pub add_job : Bool → Notify → List Notify → List Notify
add_job true job jobs = job ∷ []
add_job false job jobs = jobs ++ job ∷ []

module _ ⦃core : Sv1Core⦄ where
  open core use {build_notify, notify_message}

  unfoldable pub store_job : Bool → ℕ → Notify → Sv1ServerData → Sv1ServerData
  store_job clean channel_id job s = elim s.aggregated_valid_jobs [
    | some jobs ↦ record s { aggregated_valid_jobs = some (add_job clean job jobs) }
    | none ↦ elim s.non_aggregated_valid_jobs [
      | some channels ↦ record s {
        non_aggregated_valid_jobs = some (
            insert channel_id (add_job clean job (or_else (lookup channel_id channels) []))
              channels);
      }
      | none ↦ s
    ]
  ]

  -- With the previous hash, if one is known.
  unfoldable pub publish_job :
      NewExtendedMiningJob → Option SetNewPrevHash → Handler Sv1Server TproxyError (Unit {0})
  publish_job m none = pure tt
  publish_job m (some prevhash) = do
    clean ← gets (λ s. s.clean_job)
    job ← or_fail translation_error (build_notify prevhash m clean)
    modify (λ s. record s { clean_job = false })
    on_data (modify (store_job clean m.channel_id job))
    send_broadcasts (
        record { channel_id = m.channel_id; downstream_id = none; message = notify_message job }
        ∷ [])

  unfoldable pub handle_new_extended_mining_job :
      NewExtendedMiningJob → Handler Sv1Server TproxyError (Unit {0})
  handle_new_extended_mining_job m = do
    prevhash ← gets (λ s. s.sv1_server_data.prevhash)
    publish_job m prevhash

  unfoldable pub store_prev_hash : SetNewPrevHash → Handler Sv1Server TproxyError (Unit {0})
  store_prev_hash m = do
    modify (λ s. record s { clean_job = true })
    on_data (modify (λ s. record s { prevhash = some m }))
