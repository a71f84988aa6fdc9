-- ===== src/Pool/Manager/Unknown.antt =====
-- Messages of a connection that the manager no longer knows.
use mara_pool.Prelude.{
  ℕ, Bool, true, false, none, ◌≡◌, refl, List, nat_eq, ◌==◌, Result, ok, err, arith, if◌then◌else◌,
  not,
}
use mara_pool.Prelude.Map.{lookup, lookup-remove, lookup-retain}
use mara_pool.Stratum.{
  StratumCore, TxOut, ClientMessage, close_channel, open_standard_mining_channel,
  open_extended_mining_channel, submit_shares_standard, submit_shares_extended, update_channel,
  set_custom_mining_job,
}
use mara_pool.Pool.State.{PoolSettings, vardiff_key, vardiff_key_eq}
use mara_pool.Pool.Access.{World}
use mara_pool.Pool.Requests.{pays_script}
use mara_pool.Pool.Manager.{remove_downstream}
use mara_pool.Pool.Sync.Frame.{owns}

module _ ⦃core : StratumCore⦄ where
  -- The outputs of a custom job pay the pool's script or cannot be decoded.
  abbrev pub pays_in : PoolSettings → Result ℕ (List TxOut) → Bool
  pays_in settings (ok outputs) = pays_script settings.coinbase_reward_script outputs
  pays_in settings (err e) = true

  -- The message is not a custom job that is refused before the connection is looked up.
  abbrev pub needs_connection : PoolSettings → ClientMessage → Bool
  needs_connection settings (set_custom_mining_job msg) =
      pays_in settings (core.decode_outputs msg.coinbase_tx_outputs)
  needs_connection settings (close_channel id) = true
  needs_connection settings (open_standard_mining_channel msg) = true
  needs_connection settings (open_extended_mining_channel msg) = true
  needs_connection settings (submit_shares_standard msg) = true
  needs_connection settings (submit_shares_extended msg) = true
  needs_connection settings (update_channel msg) = true

  -- Nothing was sent or persisted, and no template or previous hash was taken.
  pub record IsFrozen (w w' : World) : Type 0 where
    pub same_routed : w'.routed ≡ w.routed
    pub same_persisted : w'.persisted ≡ w.persisted
    pub same_template : w'.manager.last_future_template ≡ w.manager.last_future_template
    pub same_prev_hash : w'.manager.last_new_prev_hash ≡ w.manager.last_new_prev_hash

  -- After the shutdown of a connection it is not in the map, it owns no channel and has no vardiff
  -- state. The data, channels and vardiff states of every other connection are as they were, and so
  -- are the templates, the previous hash, the factories, and what was sent and persisted.
  pub remove_downstream_forgets :
      (d e c : ℕ) (w : World)
      → let w' = remove_downstream d w in
        (owns w'.manager.downstream e c ≡ (if d == e then false else owns w.manager.downstream e c))
        × (lookup (vardiff_key e c) w'.manager.vardiff
            ≡ (if d == e then none else lookup (vardiff_key e c) w.manager.vardiff))
        × (lookup e w'.manager.downstream
            ≡ (if d == e then none else lookup e w.manager.downstream))
        × IsFrozen w w'
        × (w'.manager.downstream_id_factory ≡ w.manager.downstream_id_factory)
        × (w'.manager.extranonce_prefix_factory_extended
            ≡ w.manager.extranonce_prefix_factory_extended)
        × (w'.manager.extranonce_prefix_factory_standard
            ≡ w.manager.extranonce_prefix_factory_standard)
        × (w'.manager.coinbase_outputs ≡ w.manager.coinbase_outputs)
  unfolding remove_downstream
  remove_downstream_forgets d e c w = (
    ground (arith, lookup-remove e d w.manager.downstream),
    ground (
      arith,
      lookup-retain (vardiff_key e c) (λ key. not (key.downstream_id == d)) w.manager.vardiff,
    ),
    ground (arith, lookup-remove e d w.manager.downstream),
    record {
      same_routed = refl;
      same_persisted = refl;
      same_template = refl;
      same_prev_hash = refl;
    },
    refl,
    refl,
    refl,
    refl,
  )
