-- ===== src/Pool/Vardiff.antt =====
-- channel_manager/mod.rs: the periodic adjustment of every channel's difficulty.
use mara_pool.Prelude.{ℕ, none, some, List, [], ◌∷◌, ◌++◌, ok, err, Handler, nat_eq}
use mara_pool.Prelude.Map.{Map, lookup, insert}
use mara_pool.Stratum.{StratumCore, set_target}
use mara_pool.Pool.Error.{PoolError}
use mara_pool.Pool.State.{VardiffKey, Downstream, RouteMessageTo, to_downstream}
use mara_pool.Pool.Access.{World, forward}

module _ ⦃core : StratumCore⦄ where
  open core use {standard, extended, VardiffState, try_vardiff}

  -- The channel, the vardiff state, and the messages of one run.
  abbrev pub Tuned : Type 0 → Type 0
  Tuned C = C × VardiffState × List RouteMessageTo

  unfoldable pub run_vardiff_on_extended_channel :
      ℕ → ℕ → ℕ → extended.Channel → VardiffState → Tuned extended.Channel
  run_vardiff_on_extended_channel d channel_id now channel state =
      let (res, state') =
        try_vardiff state (extended.get_nominal_hashrate channel) (extended.get_target channel)
          (extended.get_shares_per_minute channel) now in
      elim res [
        | err e ↦ (channel, state', [])
        | ok none ↦ (channel, state', [])
        | ok (some hashrate) ↦
            let (updated, channel') = extended.update_channel channel hashrate none in
            elim updated [
              | ok _ ↦ (
                channel',
                state',
                to_downstream d (set_target channel_id (extended.get_target channel')) ∷ [],
              )
              | err e ↦ (channel', state', [])
            ]
      ]

  unfoldable pub run_vardiff_on_standard_channel :
      ℕ → ℕ → ℕ → standard.Channel → VardiffState → Tuned standard.Channel
  run_vardiff_on_standard_channel d channel_id now channel state =
      let (res, state') =
        try_vardiff state (standard.get_nominal_hashrate channel) (standard.get_target channel)
          (standard.get_shares_per_minute channel) now in
      elim res [
        | err e ↦ (channel, state', [])
        | ok none ↦ (channel, state', [])
        | ok (some hashrate) ↦
            let (updated, channel') = standard.update_channel channel hashrate none in
            elim updated [
              | ok _ ↦ (
                channel',
                state',
                to_downstream d (set_target channel_id (standard.get_target channel')) ∷ [],
              )
              | err e ↦ (channel', state', [])
            ]
      ]

  -- The two `if let`s of a round, each on the state that the one before left.
  unfoldable pub tune_standard : ℕ → ℕ → ℕ → Downstream → VardiffState → Tuned Downstream
  tune_standard d channel_id now ds state =
      elim (lookup channel_id ds.downstream_data.standard_channels) [
        | none ↦ (ds, state, [])
        | some channel ↦
            let (channel', state', messages) =
              run_vardiff_on_standard_channel d channel_id now channel state in
            (
              record ds {
                downstream_data = record (ds.downstream_data) {
                  standard_channels =
                      insert channel_id channel' ds.downstream_data.standard_channels;
                };
              },
              state',
              messages,
            )
      ]

  unfoldable pub tune_extended : ℕ → ℕ → ℕ → Downstream → VardiffState → Tuned Downstream
  tune_extended d channel_id now ds state =
      elim (lookup channel_id ds.downstream_data.extended_channels) [
        | none ↦ (ds, state, [])
        | some channel ↦
            let (channel', state', messages) =
              run_vardiff_on_extended_channel d channel_id now channel state in
            (
              record ds {
                downstream_data = record (ds.downstream_data) {
                  extended_channels =
                      insert channel_id channel' ds.downstream_data.extended_channels;
                };
              },
              state',
              messages,
            )
      ]

  -- One entry of the vardiff map; an entry of an unknown connection is skipped.
  unfoldable pub tune_entry :
      VardiffKey → ℕ → Map ℕ Downstream → VardiffState → Tuned (Map ℕ Downstream)
  tune_entry key now downstream state = elim (lookup key.downstream_id downstream) [
    | none ↦ (downstream, state, [])
    | some ds ↦
        let (ds', state', messages) = tune_standard key.downstream_id key.channel_id now ds state in
        let (ds'', state'', more) = tune_extended key.downstream_id key.channel_id now ds' state' in
        (insert key.downstream_id ds'' downstream, state'', messages ++ more)
  ]

  -- The loop over the vardiff map.
  unfoldable pub tune_all :
      ℕ
      → Map VardiffKey VardiffState
      → Map ℕ Downstream
      → Map ℕ Downstream × Map VardiffKey VardiffState × List RouteMessageTo
  tune_all now [] downstream = (downstream, [], [])
  tune_all now ((key, state) ∷ m) downstream =
      let (downstream', state', messages) = tune_entry key now downstream state in
      let (downstream'', m', more) = tune_all now m downstream' in
      (downstream'', (key, state') ∷ m', messages ++ more)

  unfoldable pub run_vardiff : ℕ → Handler World PoolError (Unit {0})
  run_vardiff now w =
      let (downstream, vardiff, messages) = tune_all now w.manager.vardiff w.manager.downstream in
      forward messages
        (record w { manager = record (w.manager) { downstream = downstream; vardiff = vardiff } })
