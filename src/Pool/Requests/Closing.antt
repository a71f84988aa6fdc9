-- ===== src/Pool/Requests/Closing.antt =====
-- What holds after a channel is closed, updated or given a custom job.
use mara_pool.Prelude.{
  ℕ, true, false, some, ◌≡◌, ◌≢◌, refl, ◌⊎◌, inl, inr, List, [], ◌∷◌, ◌++◌, All, nat_eq, ◌==◌, ok,
  done, arith, if◌then◌else◌, Option-cases, result_cases,
}
use mara_pool.Prelude.Map.{lookup, lookup-insert, lookup-remove}
use mara_pool.Stratum.{
  StratumCore, Bytes, TxOut, SubmitSharesStandard, UpdateChannel, SetCustomMiningJob, ErrorCode,
  set_target, update_channel_error, set_custom_mining_job_error,
}
use mara_pool.Pool.State.{PoolSettings, Downstream, RouteMessageTo, to_downstream, vardiff_key_eq}
use mara_pool.Pool.Access.{World, Locked, lock, with_downstream, forward}
use mara_pool.Pool.Shares.{submit_standard, shares_error, standard_submission}
use mara_pool.Pool.Requests.{
  close_channel, handle_close_channel, update_reply, update_standard, update_either, bytes_beq,
  standard_update_error, handle_set_custom_mining_job, pays_script,
}
use mara_pool.Pool.Sync.Frame.{owns, owns-insert}

bytes_beq_sound : (xs ys : Bytes) → bytes_beq xs ys ≡ true → xs ≡ ys
unfolding bytes_beq
bytes_beq_sound [] [] h = refl
bytes_beq_sound [] (y ∷ ys) h = cc
bytes_beq_sound (x ∷ xs) [] h = cc
bytes_beq_sound (x ∷ xs) (y ∷ ys) h = ground (arith, bytes_beq_sound xs ys)

-- No output has the script.
abbrev pub NonePays : Bytes → List TxOut → Type 0
NonePays script outputs = All (λ (output : TxOut). output.script_pubkey ≢ script) outputs

unpaid :
    (script : Bytes) (outputs : List TxOut)
    → NonePays script outputs
    → pays_script script outputs ≡ false
unfolding pays_script
unpaid script [] h = refl
unpaid script (output ∷ outputs) h =
    ground (arith, unpaid script outputs h.1, bytes_beq_sound output.script_pubkey script)

module _ ⦃core : StratumCore⦄ where
  open core use {standard, extended}

  abbrev pub told : ℕ → UpdateChannel → standard.Channel → RouteMessageTo
  told d msg channel = to_downstream d (set_target msg.channel_id (standard.get_target channel))

  -- Closing a channel of a known connection closes that channel and no other, on any connection.
  pub close_channel_closes :
      (d id e c : ℕ) (w : World) (ds : Downstream)
      → lookup d w.manager.downstream ≡ some ds
      → let w' = (handle_close_channel (some d) id w).1 in
        owns w'.manager.downstream e c ≡ (
          if d == e
          then (if id == c then false else owns w.manager.downstream e c)
          else owns w.manager.downstream e c)
  unfolding handle_close_channel with_downstream close_channel
  close_channel_closes d id e c w ds known =
      let l = (close_channel d id (lock w ds)).1 in
      ground (
        arith,
        known,
        owns-insert d e c (record ds { downstream_data = l.downstream_data }) w.manager.downstream,
        lookup-remove c id ds.downstream_data.standard_channels,
        lookup-remove c id ds.downstream_data.extended_channels,
      )

  -- Once a channel is closed, every share on it as a standard channel is refused as one on an unknown
  -- channel: nothing is persisted, and no channel or vardiff state changes.
  pub close-submit :
      (d id : ℕ) (msg : SubmitSharesStandard) (now : ℕ) (l : Locked)
      → msg.channel_id ≡ id
      → let l' = (close_channel d id l).1 in
        submit_standard d msg now l' ≡ (
          done
              (shares_error standard d (standard_submission msg) ErrorCode.invalid_channel_id ∷ []),
          l',
        )
  unfolding close_channel submit_standard
  close-submit d id msg now l same =
      ground (arith, lookup-remove msg.channel_id id l.downstream_data.standard_channels)

  -- The answer to an update of an open standard channel ends with the target that the stored channel
  -- then has, after at most one error.
  pub update_answers_target :
      (d : ℕ) (msg : UpdateChannel) (l : Locked) (messages : List RouteMessageTo)
      (channel : standard.Channel)
      → lookup msg.channel_id l.downstream_data.standard_channels ≡ some channel
      → (update_either d msg l).0 ≡ done messages
      → let l' = (update_either d msg l).1 in
        (channel' : standard.Channel) × (lookup msg.channel_id l'.downstream_data.standard_channels
          ≡ some channel')
        × ((messages ≡ told d msg channel' ∷ [])
            ⊎ ((code : ErrorCode) × (messages
                  ≡ to_downstream d (update_channel_error msg.channel_id code)
                    ∷ told d msg channel'
                    ∷ [])))
  unfolding update_either update_standard update_reply
  update_answers_target d msg l messages channel found replied =
      let res = standard.update_channel channel msg.nominal_hash_rate (some msg.maximum_target) in
      (
        res.1,
        ground (
          arith,
          lookup-insert msg.channel_id msg.channel_id res.1 l.downstream_data.standard_channels,
        ),
        elim (result_cases res.0) [
          | inl (_, good) ↦ inl (ground arith)
          | inr (e, bad) ↦ elim (Option-cases (standard_update_error e)) [
            | inl silent ↦ ground arith
            | inr (code, said) ↦ inr (code, ground arith)
          ]
        ],
      )

  -- A custom job whose outputs can be decoded, and of which none pays the pool's script, changes
  -- nothing: it is only answered with an error.
  pub custom_job_pays :
      (settings : PoolSettings) (d : ℕ) (msg : SetCustomMiningJob) (w : World)
      (outputs : List TxOut)
      → core.decode_outputs msg.coinbase_tx_outputs ≡ ok outputs
      → NonePays settings.coinbase_reward_script outputs
      → (handle_set_custom_mining_job settings (some d) msg w).1 ≡ record w {
        routed =
            w.routed
            ++ to_downstream d (
                set_custom_mining_job_error msg.request_id msg.channel_id
                  ErrorCode.pool_payout_script_missing)
              ∷ [];
      }
  unfolding handle_set_custom_mining_job forward
  custom_job_pays settings d msg w outputs decoded nothing =
      ground (arith, unpaid settings.coinbase_reward_script outputs nothing)
