-- ===== src/Pool/Sync/Requests.antt =====
-- Closing and updating channels, and custom jobs, keep the vardiff map in step with the channels.
use mara_pool.Prelude.{
  ℕ, true, Option, none, some, ◌≡◌, refl, inl, inr, [], ◌∷◌, nat_eq, Keeps, resume-Keeps, arith,
  result_cases, Option-cases, Bool-cases,
}
use mara_pool.Prelude.Map.{contains, lookup, lookup-remove}
use mara_pool.Stratum.{StratumCore, UpdateChannel, SetCustomMiningJob}
use mara_pool.Pool.State.{vardiff_key, vardiff_key_eq, PoolSettings}
use mara_pool.Pool.Error.{downstream_not_found}
use mara_pool.Pool.Access.{World, Locked, with_downstream, forward}
use mara_pool.Pool.Requests.{
  close_channel, handle_close_channel, update_reply, update_standard, update_extended,
  update_either, handle_update_channel, pays_script, set_custom_job, handle_set_custom_mining_job,
}
use mara_pool.Pool.Sync.Locks.{serve-IsInSync, with_downstream-IsInSync, forward-IsInSync}
use mara_pool.Pool.Sync.Frame.{IsInSync, IsInSyncLocked, contains-insert_old}

module _ ⦃core : StratumCore⦄ where
  open core use {standard, extended}

  close_channel-IsInSync : (d id : ℕ) → Keeps (IsInSyncLocked d) (close_channel d id)
  unfolding close_channel
  close_channel-IsInSync d id l h = record {
    mine = λ c. ground (
      arith,
      h.mine c,
      lookup-remove (vardiff_key d c) (vardiff_key d id) l.manager.vardiff,
      lookup-remove c id l.downstream_data.standard_channels,
      lookup-remove c id l.downstream_data.extended_channels,
    );
    others = λ e c ne. ground (
      arith,
      h.others e c ne,
      lookup-remove (vardiff_key e c) (vardiff_key d id) l.manager.vardiff,
    );
    fresh = λ e le. ground (arith, h.fresh e);
    known = ground (arith, h.known);
  }

  pub handle_close_channel-IsInSync :
      (d id : ℕ) → Keeps (λ (w : World). IsInSync w.manager) (handle_close_channel (some d) id)
  unfolding handle_close_channel
  handle_close_channel-IsInSync d id =
      with_downstream-IsInSync d _ (λ ds. close_channel d id) (λ ds. close_channel-IsInSync d id)

  -- A state whose open channels are those of another, with the same vardiff states.
  pub record SameOpen (k l : Locked) : Type 0 where
    pub vardiff_eq : l.manager.vardiff ≡ k.manager.vardiff
    pub downstream_eq : l.manager.downstream ≡ k.manager.downstream
    pub factory_eq : l.manager.downstream_id_factory ≡ k.manager.downstream_id_factory
    pub standard_open :
        (c : ℕ)
        → contains c l.downstream_data.standard_channels
          ≡ contains c k.downstream_data.standard_channels
    pub extended_open :
        (c : ℕ)
        → contains c l.downstream_data.extended_channels
          ≡ contains c k.downstream_data.extended_channels

  SameOpen-IsInSync :
      (d : ℕ) (k l : Locked) → SameOpen k l → IsInSyncLocked d k → IsInSyncLocked d l
  SameOpen-IsInSync d k l same h = record {
    mine =
        λ c. ground (arith, h.mine c, same.vardiff_eq, same.standard_open c, same.extended_open c);
    others = λ e c ne. ground (arith, h.others e c ne, same.vardiff_eq, same.downstream_eq);
    fresh = λ e le. ground (arith, h.fresh e, same.downstream_eq, same.factory_eq);
    known = ground (arith, h.known, same.downstream_eq, same.factory_eq);
  }

  update_standard-SameOpen :
      (d : ℕ) (msg : UpdateChannel) (channel : standard.Channel) (l : Locked)
      → contains msg.channel_id l.downstream_data.standard_channels ≡ true
      → SameOpen l (update_standard d msg channel l).1
  unfolding update_standard update_reply
  update_standard-SameOpen d msg channel l found =
      let new =
        (standard.update_channel channel msg.nominal_hash_rate (some msg.maximum_target)).1 in
      record {
        vardiff_eq = ground arith;
        downstream_eq = ground arith;
        factory_eq = ground arith;
        standard_open = λ c. ground (
          arith,
          contains-insert_old msg.channel_id c new l.downstream_data.standard_channels found,
        );
        extended_open = λ c. ground arith;
      }

  update_extended-SameOpen :
      (d : ℕ) (msg : UpdateChannel) (channel : extended.Channel) (l : Locked)
      → contains msg.channel_id l.downstream_data.extended_channels ≡ true
      → SameOpen l (update_extended d msg channel l).1
  unfolding update_extended update_reply
  update_extended-SameOpen d msg channel l found =
      let new =
        (extended.update_channel channel msg.nominal_hash_rate (some msg.maximum_target)).1 in
      record {
        vardiff_eq = ground arith;
        downstream_eq = ground arith;
        factory_eq = ground arith;
        standard_open = λ c. ground arith;
        extended_open = λ c. ground (
          arith,
          contains-insert_old msg.channel_id c new l.downstream_data.extended_channels found,
        );
      }

  update_either-SameOpen :
      (d : ℕ) (msg : UpdateChannel) (l : Locked) → SameOpen l (update_either d msg l).1
  unfolding update_either
  update_either-SameOpen d msg l =
      elim (Option-cases (lookup msg.channel_id l.downstream_data.standard_channels)) [
        | inr (channel, found) ↦
            rw (found, update_either) (update_standard-SameOpen d msg channel l (rw found))
        | inl absent ↦
            elim (Option-cases (lookup msg.channel_id l.downstream_data.extended_channels)) [
              | inr (channel, found) ↦
                  rw (absent, found, update_either)
                    (update_extended-SameOpen d msg channel l (rw found))
              | inl unknown ↦
                  rw (absent, unknown, update_either)
                    (record {
                      vardiff_eq = refl;
                      downstream_eq = refl;
                      factory_eq = refl;
                      standard_open = λ c. refl;
                      extended_open = λ c. refl;
                    })
            ]
      ]

  pub handle_update_channel-IsInSync :
      (d : ℕ) (msg : UpdateChannel)
      → Keeps (λ (w : World). IsInSync w.manager) (handle_update_channel (some d) msg)
  unfolding handle_update_channel
  handle_update_channel-IsInSync d msg =
      serve-IsInSync d _ (λ ds. update_either d msg)
        (λ ds l h. SameOpen-IsInSync d l _ (update_either-SameOpen d msg l) h)

  set_custom_job-SameOpen :
      (o : Option extended.Channel) (d : ℕ) (msg : SetCustomMiningJob) (l : Locked)
      → lookup msg.channel_id l.downstream_data.extended_channels ≡ o
      → SameOpen l (set_custom_job d msg l).1
  unfolding set_custom_job
  set_custom_job-SameOpen none d msg l absent =
      rw (absent, set_custom_job)
        (record {
          vardiff_eq = refl;
          downstream_eq = refl;
          factory_eq = refl;
          standard_open = λ c. refl;
          extended_open = λ c. refl;
        })
  set_custom_job-SameOpen (some channel) d msg l found =
      let new = (core.on_set_custom_mining_job channel msg).1 in
      record {
        vardiff_eq = ground arith;
        downstream_eq = ground arith;
        factory_eq = ground arith;
        standard_open = λ c. ground arith;
        extended_open = λ c.
            ground
              (arith, contains-insert_old msg.channel_id c new l.downstream_data.extended_channels);
      }

  -- What the handler does once the outputs are decoded and found to pay the pool.
  locked_custom_job-IsInSync :
      (d : ℕ) (msg : SetCustomMiningJob)
      → Keeps
          (λ (w : World). IsInSync w.manager)
          (with_downstream d (downstream_not_found d) (λ ds. set_custom_job d msg))
  locked_custom_job-IsInSync d msg =
      with_downstream-IsInSync d _ (λ ds. set_custom_job d msg)
        (λ ds l h. SameOpen-IsInSync d l _ (set_custom_job-SameOpen _ d msg l refl) h)

  pub handle_set_custom_mining_job-IsInSync :
      (settings : PoolSettings) (d : ℕ) (msg : SetCustomMiningJob)
      → Keeps
          (λ (w : World). IsInSync w.manager)
          (handle_set_custom_mining_job settings (some d) msg)
  unfolding handle_set_custom_mining_job
  handle_set_custom_mining_job-IsInSync settings d msg w h =
      let k = locked_custom_job-IsInSync d msg w h in
      elim (result_cases (core.decode_outputs msg.coinbase_tx_outputs)) [
        | inr (e, bad) ↦ rw (bad, handle_set_custom_mining_job) h
        | inl (outputs, good) ↦
            elim (Bool-cases (pays_script settings.coinbase_reward_script outputs)) [
              | inr missing ↦
                  rw (good, missing, handle_set_custom_mining_job) (forward-IsInSync _ w h)
              | inl paid ↦
                  rw (good, paid, handle_set_custom_mining_job)
                    (resume-Keeps (λ (v : World). IsInSync v.manager)
                      (with_downstream d (downstream_not_found d) (λ ds. set_custom_job d msg) w)
                      (λ message. forward (message ∷ [])) k
                      (λ message. forward-IsInSync (message ∷ [])))
            ]
      ]
