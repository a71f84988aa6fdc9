-- ===== src/Pool/Sync/Templates.antt =====
-- Templates, previous hashes and vardiff runs open and close no channel.
use mara_pool.Prelude.{
  ℕ, Bool, ◌≡◌, refl, inl, inr, List, [], ◌∷◌, nat_eq, Eq, Keeps, Handler, arith, outcome_cases,
  Option-cases,
}
use mara_pool.Prelude.Map.{Map, lookup, contains, is_some}
use mara_pool.Stratum.{StratumCore, NewTemplate, TemplatePrevHash, TxOut}
use mara_pool.Pool.State.{DownstreamData, Downstream}
use mara_pool.Pool.Error.{PoolError}
use mara_pool.Pool.Access.{World, forward}
use mara_pool.Pool.Templates.{
  for_each, over_standard, over_extended, over_data, over_downstream, group_template_job,
  standard_template_round, extended_template_round, downstream_template, handle_new_template,
  group_prev_hash, standard_prev_hash_round, extended_prev_hash_round, downstream_prev_hash,
  prev_hash_in, handle_set_new_prev_hash, set_first_value,
}
use mara_pool.Pool.Sync.Frame.{IsInSync, has_channel, owns}

-- A loop over a map visits every entry and adds none.
pub contains-for_each :
    {K V M : Type 0} ⦃e : Eq K⦄ (body : K → Handler V PoolError (List M)) (k : K) (m : Map K V)
    → contains k (for_each body m).1 ≡ contains k m
unfolding for_each lookup
contains-for_each body k [] = refl
contains-for_each body k ((j, v) ∷ m) = ground (arith, contains-for_each body k m)

module _ ⦃core : StratumCore⦄ where
  open core use {standard, extended}

  pub owns-for_each :
      {M : Type 0} (body : ℕ → Handler Downstream PoolError (List M))
      → ((d : ℕ) (ds : Downstream) (c : ℕ)
          → has_channel (body d ds).1.downstream_data c ≡ has_channel ds.downstream_data c)
      → (d c : ℕ) (m : Map ℕ Downstream) → owns (for_each body m).1 d c ≡ owns m d c
  unfolding for_each lookup
  owns-for_each body same d c [] = refl
  owns-for_each body same d c ((j, ds) ∷ m) =
      ground (arith, owns-for_each body same d c m, same j ds c)

  -- The channels of a connection's data.
  pub record SameMaps (k s : DownstreamData) : Type 0 where
    pub standard_eq : s.standard_channels ≡ k.standard_channels
    pub extended_eq : s.extended_channels ≡ k.extended_channels

  group_template_job-SameMaps :
      (msg : NewTemplate) (outputs : List TxOut) (s : DownstreamData)
      → SameMaps s (group_template_job msg outputs s).1
  unfolding group_template_job
  group_template_job-SameMaps msg outputs s = ground arith

  pub downstream_template-same :
      (msg : NewTemplate) (outputs : List TxOut) (d : ℕ) (s : DownstreamData) (c : ℕ)
      → has_channel (downstream_template msg outputs d s).1 c ≡ has_channel s c
  unfolding downstream_template over_standard over_extended
  downstream_template-same msg outputs d s c =
      let kept = group_template_job-SameMaps msg outputs s in
      let s' = (group_template_job msg outputs s).1 in
      elim (outcome_cases (group_template_job msg outputs s).0) [
        | inr stopped ↦ ground (arith, stopped, kept)
        | inl (job, made) ↦ ground (
          arith,
          made,
          kept,
          contains-for_each (standard_template_round d msg outputs (is_some s'.group_channels) job)
              c s'.standard_channels,
          contains-for_each (extended_template_round d msg outputs) c s'.extended_channels,
        )
      ]

  group_prev_hash-SameMaps :
      (msg : TemplatePrevHash) (d : ℕ) (s : DownstreamData) → SameMaps s (group_prev_hash msg d s).1
  unfolding group_prev_hash
  group_prev_hash-SameMaps msg d s = ground arith

  downstream_prev_hash-same :
      (msg : TemplatePrevHash) (custom : Bool) (d : ℕ) (s : DownstreamData) (c : ℕ)
      → has_channel (downstream_prev_hash msg custom d s).1 c ≡ has_channel s c
  unfolding downstream_prev_hash over_standard over_extended
  downstream_prev_hash-same msg custom d s c =
      let kept = group_prev_hash-SameMaps msg d s in
      let s' = (group_prev_hash msg d s).1 in
      ground (
        arith,
        kept,
        contains-for_each (standard_prev_hash_round d msg (is_some s'.group_channels)) c
            s'.standard_channels,
        contains-for_each (extended_prev_hash_round d msg custom) c s'.extended_channels,
      )

  prev_hash_in-same :
      (msg : TemplatePrevHash) (d : ℕ) (ds : Downstream) (c : ℕ)
      → has_channel (prev_hash_in msg d ds).1.downstream_data c ≡ has_channel ds.downstream_data c
  unfolding prev_hash_in
  prev_hash_in-same msg d ds c =
      downstream_prev_hash-same msg ds.requires_custom_work d ds.downstream_data c

  pub handle_set_new_prev_hash-IsInSync :
      (msg : TemplatePrevHash)
      → Keeps (λ (w : World). IsInSync w.manager) (handle_set_new_prev_hash msg)
  unfolding handle_set_new_prev_hash over_downstream forward
  handle_set_new_prev_hash-IsInSync msg w h = record {
    sync = λ d c. ground (
      arith,
      h.sync d c,
      owns-for_each (prev_hash_in msg) (prev_hash_in-same msg) d c w.manager.downstream,
    );
    fresh = λ d le.
        ground (arith, h.fresh d, contains-for_each (prev_hash_in msg) d w.manager.downstream);
  }

  over_template-same :
      (msg : NewTemplate) (outputs : List TxOut) (d : ℕ) (ds : Downstream) (c : ℕ)
      → has_channel (over_data (downstream_template msg outputs d) ds).1.downstream_data c
        ≡ has_channel ds.downstream_data c
  unfolding over_data
  over_template-same msg outputs d ds c =
      downstream_template-same msg outputs d ds.downstream_data c

  pub handle_new_template-IsInSync :
      (msg : NewTemplate) → Keeps (λ (w : World). IsInSync w.manager) (handle_new_template msg)
  unfolding handle_new_template over_downstream forward
  handle_new_template-IsInSync msg w h =
      elim (Option-cases (core.deserialize_outputs w.manager.coinbase_outputs)) [
        | inl bad ↦ record {
          sync = λ d c. ground (arith, h.sync d c);
          fresh = λ d le. ground (arith, h.fresh d);
        }
        | inr (outputs, good) ↦
            elim (Option-cases (set_first_value msg.coinbase_tx_value_remaining outputs)) [
              | inl empty ↦ record {
                sync = λ d c. ground (arith, h.sync d c, good);
                fresh = λ d le. ground (arith, h.fresh d, good);
              }
              | inr (output, set) ↦ record {
                sync = λ d c. ground (
                  arith,
                  h.sync d c,
                  good,
                  owns-for_each (λ d'. over_data (downstream_template msg output d'))
                      (over_template-same msg output) d c w.manager.downstream,
                );
                fresh = λ d le. ground (
                  arith,
                  h.fresh d,
                  good,
                  contains-for_each (λ d'. over_data (downstream_template msg output d')) d
                      w.manager.downstream,
                );
              }
            ]
      ]
