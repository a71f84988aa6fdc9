-- ===== src/Translator/Difficulty/Proposals.antt =====
-- `handle_vardiff_updates`: the round over the miners.
use mara_pool.Prelude.{
  ℕ, Option, none, some, List, [], ◌∷◌, ◌++◌, Result, ok, err, Handler, pure, gets, modify, expect,
  ◌>>=◌, ◌>>◌, if◌then◌else◌, nat_eq, leb,
}
use mara_pool.Prelude.Map.{Map, lookup, insert}
use mara_pool.Translator.Core.{Sv1Core}
use mara_pool.Translator.State.{TproxyError, DownstreamData, PendingTargetUpdate, Sv1ServerData}

module _ ⦃core : Sv1Core⦄ where
  open core use {Hashrate, VardiffState, try_vardiff, hash_rate_to_target}

  -- The tuple of `all_updates`.
  pub record Update : Type 0 where
    pub downstream_id : ℕ
    pub channel_id : ℕ
    pub new_target : ℕ
    pub new_hashrate : Hashrate

  -- What a round decides: the updates that are sent to the miner at once, and all updates.
  pub record Decisions : Type 0 where
    pub immediate_updates : List Update
    pub all_updates : List Update

  -- `downstreams.get(&id)` with a write to the connection's data; a missing connection is skipped.
  unfoldable pub write_downstream :
      ℕ → (DownstreamData → DownstreamData) → Sv1ServerData → Sv1ServerData
  write_downstream id f s = elim (lookup id s.downstreams) [
    | none ↦ s
    | some d ↦ record s { downstreams = insert id (f d) s.downstreams }
  ]

  -- `set_pending_target` and `set_pending_hashrate`.
  unfoldable pub set_pending : ℕ → Hashrate → DownstreamData → DownstreamData
  set_pending target hashrate d = record d {
    pending_target = some target;
    pending_hashrate = some hashrate;
  }

  abbrev pub pending_of : Update → PendingTargetUpdate
  pending_of u = record {
    downstream_id = u.downstream_id;
    new_target = u.new_target;
    new_hashrate = u.new_hashrate;
  }

  unfoldable pub push_pending : Update → Sv1ServerData → Sv1ServerData
  push_pending u s = record s {
    pending_target_updates = s.pending_target_updates ++ pending_of u ∷ [];
  }

  -- The comparison with the upstream target: the miner is told at once, or the update waits for
  -- `SetTarget`.
  unfoldable pub decide : Option ℕ → Update → Handler Sv1ServerData TproxyError Decisions
  decide none u = pure (record { immediate_updates = u ∷ []; all_updates = u ∷ [] })
  decide (some upstream_target) u =
      if leb upstream_target u.new_target
      then pure (record { immediate_updates = u ∷ []; all_updates = u ∷ [] })
      else (do
        modify (push_pending u)
        pure (record { immediate_updates = []; all_updates = u ∷ [] }))

  abbrev pub nothing : Decisions
  nothing = record { immediate_updates = []; all_updates = [] }

  -- The update of one miner, once its vardiff state has asked for a new hash rate.
  unfoldable pub propose :
      Hashrate → ℕ → ℕ → Option ℕ → Hashrate → Handler Sv1ServerData TproxyError Decisions
  propose shares_per_minute id channel_id upstream_target new_hashrate =
      elim (hash_rate_to_target new_hashrate shares_per_minute) [
        | err e ↦ pure nothing
        | ok new_target ↦ do
          modify (write_downstream id (set_pending new_target new_hashrate))
          decide upstream_target (record {
            downstream_id = id;
            channel_id = channel_id;
            new_target = new_target;
            new_hashrate = new_hashrate;
          })
      ]

  -- `if let Ok(Some(new_hashrate)) = ..`.
  unfoldable pub adopt :
      Hashrate
      → ℕ
      → ℕ
      → Option ℕ
      → Result ℕ (Option Hashrate)
      → Handler Sv1ServerData TproxyError Decisions
  adopt shares_per_minute id channel_id upstream_target (err e) = pure nothing
  adopt shares_per_minute id channel_id upstream_target (ok none) = pure nothing
  adopt shares_per_minute id channel_id upstream_target (ok (some new_hashrate)) =
      propose shares_per_minute id channel_id upstream_target new_hashrate

  unfoldable pub adjust_channel :
      Hashrate
      → ℕ
      → ℕ
      → VardiffState
      → DownstreamData
      → Hashrate
      → Option ℕ
      → Handler Sv1ServerData TproxyError Decisions
  adjust_channel shares_per_minute now id state d hashrate none = pure nothing
  adjust_channel shares_per_minute now id state d hashrate (some channel_id) = do
    let (res, state') = try_vardiff state hashrate d.target shares_per_minute now
    modify (λ s. record s { vardiff = insert id state' s.vardiff })
    adopt shares_per_minute id channel_id d.upstream_target res

  -- A miner with no hash rate makes the round panic.
  unfoldable pub adjust_found :
      Hashrate
      → ℕ
      → ℕ
      → VardiffState
      → Option DownstreamData
      → Handler Sv1ServerData TproxyError Decisions
  adjust_found shares_per_minute now id state none = pure nothing
  adjust_found shares_per_minute now id state (some d) = do
    hashrate ← expect d.hashrate
    adjust_channel shares_per_minute now id state d hashrate d.channel_id

  -- One round of the loop over the vardiff map.
  unfoldable pub adjust :
      Hashrate → ℕ → ℕ → VardiffState → Handler Sv1ServerData TproxyError Decisions
  adjust shares_per_minute now id state = do
    found ← gets (λ s. lookup id s.downstreams)
    adjust_found shares_per_minute now id state found

  unfoldable pub adjust_all :
      Hashrate → ℕ → Map ℕ VardiffState → Handler Sv1ServerData TproxyError Decisions
  adjust_all shares_per_minute now [] = pure nothing
  adjust_all shares_per_minute now ((id, state) ∷ m) = do
    first ← adjust shares_per_minute now id state
    rest ← adjust_all shares_per_minute now m
    pure (record {
      immediate_updates = first.immediate_updates ++ rest.immediate_updates;
      all_updates = first.all_updates ++ rest.all_updates;
    })
