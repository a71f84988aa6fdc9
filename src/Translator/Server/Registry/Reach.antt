-- ===== src/Translator/Server/Registry/Reach.antt =====
-- The events of the main loop, and what a new server can become.
use mara_pool.Prelude.{
  ℕ, Bool, true, false, Option, none, some, ◌≡◌, refl, inl, inr, ok, arith, if◌then◌else◌, nat_eq,
  Option-cases, Handler, Keeps, >>=-Keeps, pure,
}
use mara_pool.Prelude.Map.{lookup, contains, lookup-insert, lookup-remove}
use mara_pool.Translator.Core.{Sv1Core}
use mara_pool.Translator.State.{
  TproxyError, DownstreamMessages, submit_shares, open_channel, DownstreamData, new_downstream_data,
  new_server_data, Sv1Server, TranslatorConfig,
}
use mara_pool.Translator.Difficulty.{
  on_data, handle_vardiff_updates, min_target, total_hashrate, send_upstream,
  send_update_channel_on_downstream_state_change,
}
use mara_pool.Translator.Connection.{Sv1Protocol}
use mara_pool.Translator.Server.Lifecycle.{
  FromUpstream, open_success, new_extended_job, new_prev_hash, new_target, other_upstream,
  new_sv1_server, handle_server_message, handle_new_target, handle_upstream_message, register,
  start_vardiff, accept, forget, close_after, after_removal, downstream_shutdown, upstream_fallback,
}
use mara_pool.Translator.Server.Registry.{Paired, write-IsPaired}
use mara_pool.Translator.Server.Miners.{MinerEvent, miner_turn, run_miner}
use mara_pool.Translator.Server.Registry.Round.{round-Keeps}
use mara_pool.Translator.Server.Registry.Opening.{open_request-Keeps, success-Keeps}
use mara_pool.Translator.Server.Registry.Messages.{
  job-Keeps, prev_hash-Keeps, share-Keeps, plain_target-Keeps, target-Keeps,
}

-- What the main loop of `start` and the vardiff loop react to, and the turns of the miners' tasks,
-- which share their data with the server's map. What such a task hands to the server comes to it as
-- a `from_miner`.
pub data ServerEvent : Type 0 where
  miner_accepted : (now : ℕ) → ServerEvent
  miner_gone : ℕ → ServerEvent
  upstream_lost : ServerEvent
  from_miner : DownstreamMessages → ServerEvent
  from_upstream : FromUpstream → ServerEvent
  vardiff_tick : (now : ℕ) → ServerEvent
  miner_task : (id : ℕ) → (event : MinerEvent) → (miner_open server_open : Bool) → ServerEvent

module _ ⦃core : Sv1Core⦄ where
  open core use {VardiffState, vardiff_new}

  unfoldable pub react :
      Sv1Protocol → TranslatorConfig → ℕ → ServerEvent → Handler Sv1Server TproxyError (Unit {0})
  react protocol config first_target (miner_accepted now) = accept config first_target now
  react protocol config first_target (miner_gone id) = downstream_shutdown config id
  react protocol config first_target upstream_lost = upstream_fallback config
  react protocol config first_target (from_miner m) = handle_server_message config m
  react protocol config first_target (from_upstream m) =
      handle_upstream_message protocol config first_target m
  react protocol config first_target (vardiff_tick now) =
      handle_vardiff_updates config.aggregate_channels config.shares_per_minute now
  react protocol config first_target (miner_task id event miner_open server_open) =
      run_miner protocol id event miner_open server_open

  -- A vardiff state can always be made.
  abbrev pub ClockWorks : Type 0
  ClockWorks = (now : ℕ) → (state : VardiffState) × (vardiff_new now ≡ ok state)

  accept-Keeps :
      (config : TranslatorConfig) (first_target now : ℕ)
      → config.enable_vardiff ≡ true
      → ClockWorks
      → Keeps Paired (accept config first_target now)
  unfolding accept register start_vardiff on_data
  accept-Keeps config first_target now enabled clock s h =
      let (state, made) = clock now in
      let t = s.sv1_server_data in
      let id = t.downstream_id_factory in
      let d = new_downstream_data id first_target (some config.min_individual_miner_hashrate) in
      rw (enabled, accept, start_vardiff, made)
        (record {
          paired = λ e. ground (
            arith,
            h.paired e,
            lookup-insert e id state t.vardiff,
            lookup-insert e id d t.downstreams,
          );
        })

  state_change-Keeps :
      (aggregated : Bool) → Keeps Paired (send_update_channel_on_downstream_state_change aggregated)
  unfolding send_update_channel_on_downstream_state_change send_upstream
  state_change-Keeps false s h = h
  state_change-Keeps true s h = elim (Option-cases (total_hashrate s.sv1_server_data.downstreams)) [
    | inl unrated ↦ rw (unrated, send_update_channel_on_downstream_state_change) h
    | inr (total, summed) ↦ elim (Option-cases (min_target s.sv1_server_data.downstreams)) [
      | inl no_miner ↦ rw (summed, no_miner, send_update_channel_on_downstream_state_change) h
      | inr (t, least) ↦ rw (summed, least, send_update_channel_on_downstream_state_change) h
    ]
  ]

  close-Keeps : (aggregated : Bool) (o : Option ℕ) → Keeps Paired (close_after aggregated o)
  unfolding close_after send_upstream
  close-Keeps aggregated none s h = h
  close-Keeps true (some c) s h = h
  close-Keeps false (some c) s h = h

  removal-Keeps :
      (config : TranslatorConfig) (o : Option DownstreamData)
      → Keeps Paired (after_removal config o)
  unfolding after_removal
  removal-Keeps config none s h = h
  removal-Keeps config (some d) s h =
      >>=-Keeps Paired
        (if config.enable_vardiff
          then send_update_channel_on_downstream_state_change config.aggregate_channels
          else pure tt)
        (λ _. close_after config.aggregate_channels d.channel_id) (announced config.enable_vardiff)
        (λ _. close-Keeps config.aggregate_channels d.channel_id) s h
    where
      announced :
          (b : Bool)
          → Keeps Paired (
              if b
              then send_update_channel_on_downstream_state_change config.aggregate_channels
              else pure tt)
      announced true = state_change-Keeps config.aggregate_channels
      announced false = λ k p. p

  shutdown-Keeps :
      (config : TranslatorConfig) (id : ℕ)
      → config.enable_vardiff ≡ true
      → Keeps Paired (downstream_shutdown config id)
  unfolding downstream_shutdown forget on_data
  shutdown-Keeps config id enabled s h =
      let t = s.sv1_server_data in
      removal-Keeps config (lookup id t.downstreams) _ (record {
        paired = λ e. ground (
          arith,
          enabled,
          h.paired e,
          lookup-remove e id t.vardiff,
          lookup-remove e id t.downstreams,
        );
      })

  new_target-Keeps :
      (config : TranslatorConfig) (vardiff : Bool) (c target : ℕ)
      → Keeps Paired (handle_new_target config vardiff c target)
  unfolding handle_new_target
  new_target-Keeps config true c target = target-Keeps config.aggregate_channels c target
  new_target-Keeps config false c target = plain_target-Keeps config.aggregate_channels c target

  upstream-Keeps :
      (protocol : Sv1Protocol) (config : TranslatorConfig) (first_target : ℕ) (m : FromUpstream)
      → Keeps Paired (handle_upstream_message protocol config first_target m)
  unfolding handle_upstream_message
  upstream-Keeps protocol config first_target (open_success m) =
      success-Keeps protocol first_target m
  upstream-Keeps protocol config first_target (new_extended_job m) = job-Keeps m
  upstream-Keeps protocol config first_target (new_prev_hash m) = prev_hash-Keeps m
  upstream-Keeps protocol config first_target (new_target c target) =
      new_target-Keeps config config.enable_vardiff c target
  upstream-Keeps protocol config first_target other_upstream = λ s h. h

  miner_turn-Keeps :
      (protocol : Sv1Protocol) (id : ℕ) (event : MinerEvent) (miner_open server_open : Bool)
      (o : Option DownstreamData)
      → Keeps Paired (miner_turn protocol id event miner_open server_open o)
  unfolding miner_turn
  miner_turn-Keeps protocol id event miner_open server_open none s h = h
  miner_turn-Keeps protocol id event miner_open server_open (some d) s h =
      write-IsPaired id _ s.sv1_server_data h

  -- Where vardiff is on and a vardiff state can be made, every event keeps the miners that have a
  -- vardiff state the same as the connected ones, also where a handler fails or panics.
  pub react-Keeps :
      (protocol : Sv1Protocol) (config : TranslatorConfig) (first_target : ℕ) (event : ServerEvent)
      (s : Sv1Server)
      → config.enable_vardiff ≡ true
      → ClockWorks
      → Paired s
      → Paired (react protocol config first_target event s).1
  unfolding react handle_server_message run_miner upstream_fallback on_data lookup
  react-Keeps protocol config first_target (miner_accepted now) s enabled clock =
      accept-Keeps config first_target now enabled clock s
  react-Keeps protocol config first_target (miner_gone id) s enabled clock =
      shutdown-Keeps config id enabled s
  react-Keeps protocol config first_target upstream_lost s enabled clock =
      λ h. record { paired = λ e. ground (arith, enabled) }
  react-Keeps protocol config first_target (from_miner (submit_shares share)) s enabled clock =
      share-Keeps config share s
  react-Keeps protocol config first_target (from_miner (open_channel id)) s enabled clock =
      open_request-Keeps config id s
  react-Keeps protocol config first_target (from_upstream m) s enabled clock =
      upstream-Keeps protocol config first_target m s
  react-Keeps protocol config first_target (vardiff_tick now) s enabled clock =
      round-Keeps config.aggregate_channels config.shares_per_minute now s
  react-Keeps protocol config first_target (miner_task id event miner_open server_open) s enabled
        clock =
      miner_turn-Keeps protocol id event miner_open server_open
        (lookup id s.sv1_server_data.downstreams) s

  -- What a server can become.
  pub data Reach (protocol : Sv1Protocol) (config : TranslatorConfig) (first_target : ℕ)
      (s : Sv1Server) : Sv1Server → Type 0 where
    here : Reach protocol config first_target s s
    next :
        {t : Sv1Server}
        → Reach protocol config first_target s t
        → (event : ServerEvent)
        → Reach protocol config first_target s (react protocol config first_target event t).1

  new-IsPaired : (config : TranslatorConfig) → Paired (new_sv1_server config)
  unfolding new_sv1_server new_server_data lookup
  new-IsPaired config = record { paired = λ id. refl }

  -- In every state that a new server can reach with vardiff on, exactly the connected miners have a
  -- vardiff state, as long as a vardiff state can be made.
  pub vardiff_of_connected :
      (protocol : Sv1Protocol) (config : TranslatorConfig) (first_target id : ℕ) (s : Sv1Server)
      → config.enable_vardiff ≡ true
      → ClockWorks
      → Reach protocol config first_target (new_sv1_server config) s
      → contains id s.sv1_server_data.vardiff ≡ contains id s.sv1_server_data.downstreams
  vardiff_of_connected protocol config first_target id s enabled clock reached =
      (reached-IsPaired reached).paired id
    where
      reached-IsPaired :
          {t : Sv1Server} → Reach protocol config first_target (new_sv1_server config) t → Paired t
      reached-IsPaired here = new-IsPaired config
      reached-IsPaired (next before event) =
          react-Keeps protocol config first_target event _ enabled clock (reached-IsPaired before)
