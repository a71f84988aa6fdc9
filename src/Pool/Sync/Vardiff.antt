-- ===== src/Pool/Sync/Vardiff.antt =====
-- A vardiff run opens and closes no channel, and drops no vardiff state.
use mara_pool.Prelude.{ℕ, ◌≡◌, refl, ◌∙◌, inl, inr, [], ◌∷◌, nat_eq, Keeps, arith, Option-cases}
use mara_pool.Prelude.Map.{Map, lookup, contains}
use mara_pool.Stratum.{StratumCore}
use mara_pool.Pool.State.{VardiffKey, vardiff_key, vardiff_key_eq, Downstream}
use mara_pool.Pool.Access.{World, forward}
use mara_pool.Pool.Vardiff.{
  run_vardiff_on_standard_channel, run_vardiff_on_extended_channel, tune_standard, tune_extended,
  tune_entry, tune_all, run_vardiff,
}
use mara_pool.Pool.Sync.Frame.{IsInSync, has_channel, owns, owns-insert, contains-insert_old}

module _ ⦃core : StratumCore⦄ where
  open core use {standard, extended, VardiffState}

  tune_standard-same :
      (d id now : ℕ) (ds : Downstream) (state : VardiffState) (c : ℕ)
      → has_channel (tune_standard d id now ds state).0.downstream_data c
        ≡ has_channel ds.downstream_data c
  unfolding tune_standard
  tune_standard-same d id now ds state c =
      elim (Option-cases (lookup id ds.downstream_data.standard_channels)) [
        | inl absent ↦ ground (arith, absent)
        | inr (channel, found) ↦ ground (
          arith,
          found,
          contains-insert_old id c (run_vardiff_on_standard_channel d id now channel state).0
              ds.downstream_data.standard_channels,
        )
      ]

  tune_extended-same :
      (d id now : ℕ) (ds : Downstream) (state : VardiffState) (c : ℕ)
      → has_channel (tune_extended d id now ds state).0.downstream_data c
        ≡ has_channel ds.downstream_data c
  unfolding tune_extended
  tune_extended-same d id now ds state c =
      elim (Option-cases (lookup id ds.downstream_data.extended_channels)) [
        | inl absent ↦ ground (arith, absent)
        | inr (channel, found) ↦ ground (
          arith,
          found,
          contains-insert_old id c (run_vardiff_on_extended_channel d id now channel state).0
              ds.downstream_data.extended_channels,
        )
      ]

  tune_entry-same :
      (key : VardiffKey) (now : ℕ) (m : Map ℕ Downstream) (state : VardiffState) (d c : ℕ)
      → owns (tune_entry key now m state).0 d c ≡ owns m d c
  unfolding tune_entry
  tune_entry-same key now m state d c = elim (Option-cases (lookup key.downstream_id m)) [
    | inl absent ↦ ground (arith, absent)
    | inr (ds, found) ↦
        let (ds', state', _) = tune_standard key.downstream_id key.channel_id now ds state in
        let (ds'', _, _) = tune_extended key.downstream_id key.channel_id now ds' state' in
        ground (
          arith,
          found,
          owns-insert key.downstream_id d c ds'' m,
          tune_standard-same key.downstream_id key.channel_id now ds state c,
          tune_extended-same key.downstream_id key.channel_id now ds' state' c,
        )
  ]

  tune_all-same :
      (now : ℕ) (m : Map VardiffKey VardiffState) (downstream : Map ℕ Downstream) (d c : ℕ)
      → owns (tune_all now m downstream).0 d c ≡ owns downstream d c
  unfolding tune_all
  tune_all-same now [] downstream d c = refl
  tune_all-same now ((key, state) ∷ m) downstream d c =
      tune_all-same now m (tune_entry key now downstream state).0 d c
      ∙ tune_entry-same key now downstream state d c

  tune_all-contains :
      (now : ℕ) (m : Map VardiffKey VardiffState) (downstream : Map ℕ Downstream) (k : VardiffKey)
      → contains k (tune_all now m downstream).1 ≡ contains k m
  unfolding tune_all lookup
  tune_all-contains now [] downstream k = refl
  tune_all-contains now ((key, state) ∷ m) downstream k =
      ground (arith, tune_all-contains now m (tune_entry key now downstream state).0 k)

  tune_entry-known :
      (key : VardiffKey) (now : ℕ) (m : Map ℕ Downstream) (state : VardiffState) (d : ℕ)
      → contains d (tune_entry key now m state).0 ≡ contains d m
  unfolding tune_entry
  tune_entry-known key now m state d = elim (Option-cases (lookup key.downstream_id m)) [
    | inl absent ↦ ground (arith, absent)
    | inr (ds, found) ↦
        let (ds', state', _) = tune_standard key.downstream_id key.channel_id now ds state in
        let (ds'', _, _) = tune_extended key.downstream_id key.channel_id now ds' state' in
        ground (arith, found, contains-insert_old key.downstream_id d ds'' m)
  ]

  tune_all-known :
      (now : ℕ) (m : Map VardiffKey VardiffState) (downstream : Map ℕ Downstream) (d : ℕ)
      → contains d (tune_all now m downstream).0 ≡ contains d downstream
  unfolding tune_all
  tune_all-known now [] downstream d = refl
  tune_all-known now ((key, state) ∷ m) downstream d =
      tune_all-known now m (tune_entry key now downstream state).0 d
      ∙ tune_entry-known key now downstream state d

  pub run_vardiff-IsInSync : (now : ℕ) → Keeps (λ (w : World). IsInSync w.manager) (run_vardiff now)
  unfolding run_vardiff forward
  run_vardiff-IsInSync now w h = record {
    sync = λ d c. ground (
      arith,
      h.sync d c,
      tune_all-same now w.manager.vardiff w.manager.downstream d c,
      tune_all-contains now w.manager.vardiff w.manager.downstream (vardiff_key d c),
    );
    fresh = λ d le.
        ground (arith, h.fresh d, tune_all-known now w.manager.vardiff w.manager.downstream d);
  }
