-- ===== src/Pool/Sync/Events.antt =====
-- The whole channel manager: after any events its vardiff map matches its channels.
use mara_pool.Prelude.{
  ℕ, ◌+◌, ◌^◌, ◌<◌, not, Option, none, some, [], refl, nat_eqb_iff, ◌≡◌, nat_eq, ◌==◌, Keeps, ok,
  done, arith,
}
use mara_pool.Prelude.Map.{lookup, lookup-insert, lookup-remove, lookup-retain}
use mara_pool.Stratum.{
  StratumCore, Bytes, ClientMessage, close_channel, open_standard_mining_channel,
  open_extended_mining_channel, submit_shares_standard, submit_shares_extended, update_channel,
  set_custom_mining_job,
}
use mara_pool.Pool.State.{PoolSettings, Downstream, vardiff_key, vardiff_key_eq}
use mara_pool.Pool.Access.{World}
use mara_pool.Pool.Connection.{new_downstream, ClientSetup, Connection, handle_client_setup}
use mara_pool.Pool.Connection.Setup.{client_setup_channels}
use mara_pool.Pool.Manager.{
  new, accept_connection, remove_downstream, handle_downstream_mining_message, Event, Outgoing,
  client_setup, connection_setup, connection_accepted, downstream_shutdown, client_message,
  template_received, prev_hash_received, vardiff_tick, step,
}
use mara_pool.Pool.Sync.Frame.{IsInSync, owns-insert}
use mara_pool.Pool.Sync.Shares.{handle_submit_shares_standard-IsInSync}
use mara_pool.Pool.Sync.ExtendedShares.{handle_submit_shares_extended-IsInSync}
use mara_pool.Pool.Sync.Openings.{handle_open_standard-IsInSync}
use mara_pool.Pool.Sync.ExtendedOpenings.{handle_open_extended-IsInSync}
use mara_pool.Pool.Sync.Requests.{
  handle_close_channel-IsInSync, handle_update_channel-IsInSync,
  handle_set_custom_mining_job-IsInSync,
}
use mara_pool.Pool.Sync.Templates.{handle_new_template-IsInSync, handle_set_new_prev_hash-IsInSync}
use mara_pool.Pool.Sync.Vardiff.{run_vardiff-IsInSync}

module _ ⦃core : StratumCore⦄ where
  open core use {vardiff_new, VardiffState}

  -- `VardiffState::new` fails only where the clock cannot be read.
  abbrev pub ClockWorks : Type 0
  ClockWorks = (now : ℕ) → (state : VardiffState) × (vardiff_new now ≡ ok state)

  accept_connection-IsInSync :
      (settings : PoolSettings) (w : World)
      → w.manager.downstream_id_factory + 1 < 2 ^ 64
      → IsInSync w.manager
      → IsInSync (accept_connection settings w).manager
  unfolding accept_connection new_downstream lookup
  accept_connection-IsInSync settings w room h =
      let id = w.manager.downstream_id_factory in
      record {
        sync = λ d c. ground (
          arith,
          h.sync d c,
          h.fresh id,
          owns-insert id d c (new_downstream settings) w.manager.downstream,
        );
        fresh = λ d le.
            ground
              (arith, h.fresh d, lookup-insert d id (new_downstream settings) w.manager.downstream);
      }

  pub remove_downstream-IsInSync :
      (d : ℕ) (w : World) → IsInSync w.manager → IsInSync (remove_downstream d w).manager
  unfolding remove_downstream
  remove_downstream-IsInSync d w h = record {
    sync = λ e c. ground (
      arith,
      h.sync e c,
      lookup-remove e d w.manager.downstream,
      lookup-retain (vardiff_key e c) (λ key. not (key.downstream_id == d)) w.manager.vardiff,
    );
    fresh = λ e le. ground (arith, h.fresh e, lookup-remove e d w.manager.downstream);
  }

  setup-IsInSync :
      (d : ℕ) (msg : ClientSetup) (out : Outgoing) (o : Option Downstream) (w : World)
      → lookup d w.manager.downstream ≡ o
      → IsInSync w.manager
      → IsInSync (client_setup d msg out o w).1.manager
  unfolding client_setup
  setup-IsInSync d msg out none w found h = h
  setup-IsInSync d msg out (some ds) w found h =
      let c : Connection = record { downstream = ds; sent = []; queue_open = out.queue_open } in
      let ds' = (handle_client_setup out.encode msg c).1.downstream in
      record {
        sync = λ e k. ground (
          arith,
          h.sync e k,
          found,
          nat_eqb_iff d e,
          client_setup_channels out.encode msg c k,
          owns-insert d e k ds' w.manager.downstream,
        );
        fresh = λ e le. ground (
          arith,
          h.fresh e le,
          found,
          nat_eqb_iff d e,
          lookup-insert e d ds' w.manager.downstream,
        );
      }

  client_message-IsInSync :
      (settings : PoolSettings) (d : ℕ) (msg : ClientMessage) (now : ℕ)
      → ClockWorks
      → Keeps
          (λ (w : World). IsInSync w.manager)
          (handle_downstream_mining_message settings d msg now)
  unfolding handle_downstream_mining_message
  client_message-IsInSync settings d (close_channel id) now clock =
      handle_close_channel-IsInSync d id
  client_message-IsInSync settings d (open_standard_mining_channel msg) now clock =
      handle_open_standard-IsInSync settings d msg now (clock now).0 (clock now).1
  client_message-IsInSync settings d (open_extended_mining_channel msg) now clock =
      handle_open_extended-IsInSync settings d msg now (clock now).0 (clock now).1
  client_message-IsInSync settings d (submit_shares_standard msg) now clock =
      handle_submit_shares_standard-IsInSync d msg now
  client_message-IsInSync settings d (submit_shares_extended msg) now clock =
      handle_submit_shares_extended-IsInSync d msg now
  client_message-IsInSync settings d (update_channel msg) now clock =
      handle_update_channel-IsInSync d msg
  client_message-IsInSync settings d (set_custom_mining_job msg) now clock =
      handle_set_custom_mining_job-IsInSync settings d msg

  -- Every event keeps the channels that have a vardiff state equal to the open channels of the known
  -- connections, and the unused connection ids unused, also where a handler fails or panics: as long
  -- as a vardiff state can be made and the connection ids have not run out.
  pub step-IsInSync :
      (settings : PoolSettings) (event : Event) (w : World)
      → ClockWorks
      → w.manager.downstream_id_factory + 1 < 2 ^ 64
      → IsInSync w.manager
      → IsInSync (step settings event w).1.manager
  unfolding step
  step-IsInSync settings connection_accepted w clock room h =
      accept_connection-IsInSync settings w room h
  step-IsInSync settings (connection_setup d msg out) w clock room h =
      setup-IsInSync d msg out (lookup d w.manager.downstream) w refl h
  step-IsInSync settings (downstream_shutdown d) w clock room h = remove_downstream-IsInSync d w h
  step-IsInSync settings (client_message d msg now) w clock room h =
      client_message-IsInSync settings d msg now clock w h
  step-IsInSync settings (template_received msg) w clock room h =
      handle_new_template-IsInSync msg w h
  step-IsInSync settings (prev_hash_received msg) w clock room h =
      handle_set_new_prev_hash-IsInSync msg w h
  step-IsInSync settings (vardiff_tick now) w clock room h = run_vardiff-IsInSync now w h

  -- What a freshly created manager can become.
  pub data Reach (settings : PoolSettings) (w : World) : World → Type 0 where
    here : Reach settings w w
    next :
        {v : World}
        → Reach settings w v
        → v.manager.downstream_id_factory + 1 < 2 ^ 64
        → (event : Event) → Reach settings w (step settings event v).1

  new-IsInSync :
      (server_id : ℕ) (coinbase_outputs : Bytes) (w : World)
      → new server_id coinbase_outputs ≡ done w
      → IsInSync w.manager
  unfolding new lookup
  new-IsInSync server_id coinbase_outputs w made = record {
    sync = λ d c. ground arith;
    fresh = λ d le. ground arith;
  }

  -- In every state that a new manager can reach, exactly the open channels of the known connections
  -- have a vardiff state, as long as a vardiff state can be made and the connection ids do not run
  -- out.
  pub Reach-IsInSync :
      (settings : PoolSettings) (server_id : ℕ) (coinbase_outputs : Bytes) (w v : World)
      → ClockWorks
      → new server_id coinbase_outputs ≡ done w
      → Reach settings w v
      → IsInSync v.manager
  Reach-IsInSync settings server_id coinbase_outputs w v clock made here =
      new-IsInSync server_id coinbase_outputs w made
  Reach-IsInSync settings server_id coinbase_outputs w v clock made (next reached room event) =
      step-IsInSync settings event _ clock room
        (Reach-IsInSync settings server_id coinbase_outputs w _ clock made reached)
