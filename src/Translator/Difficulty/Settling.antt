-- ===== src/Translator/Difficulty/Settling.antt =====
-- What a `SetTarget` of the aggregated channel settles.
use mara_pool.Prelude.{
  ℕ, true, none, some, ◌≡◌, refl, inl, inr, [], ok, arith, nat_eq, leb, In, In-append_right,
  In-append, ◌⊎◌,
}
use mara_pool.Prelude.Map.{lookup}
use mara_pool.Translator.Core.{Sv1Core, Message}
use mara_pool.Translator.State.{DownstreamData, PendingTargetUpdate, Sv1Server, Broadcast}
use mara_pool.Translator.Difficulty.Upstream.{on_data, send_broadcasts}
use mara_pool.Translator.Difficulty.SetTarget.{
  set_upstream_target, set_all_upstream_targets, applicable_updates, get_pending_difficulty_updates,
  send_pending_set_difficulty_messages_to_downstream, handle_aggregated_set_target,
}
use mara_pool.Translator.Difficulty.Fairness.{upstream_of}
use mara_pool.Translator.Difficulty.Applied.{
  lookup-set_all, keep_none, applicable_found, applicable_only, told_target, messages_found,
  messages_only,
}

module _ ⦃core : Sv1Core⦄ where
  open core use {build_set_difficulty}

  -- A waiting update whose target is not below the new upstream target is sent to its miner when the
  -- `SetTarget` of the aggregated channel arrives, if its connection is known and has a channel and
  -- the message can be built.
  pub settled_update_sent :
      (t : ℕ) (s : Sv1Server) (u : PendingTargetUpdate) (d : DownstreamData) (c : ℕ) (m : Message)
      → In u s.sv1_server_data.pending_target_updates
      → leb t u.new_target ≡ true
      → lookup u.downstream_id s.sv1_server_data.downstreams ≡ some d
      → d.channel_id ≡ some c
      → build_set_difficulty u.new_target ≡ ok m
      → In (told_target c u m) (handle_aggregated_set_target t s).1.broadcasts
  unfolding handle_aggregated_set_target get_pending_difficulty_updates on_data
      send_pending_set_difficulty_messages_to_downstream send_broadcasts set_upstream_target
  settled_update_sent t s u d c m waits high known opened made =
      let ds = set_all_upstream_targets t s.sv1_server_data.downstreams in
      let known' : lookup u.downstream_id ds ≡ some (set_upstream_target t d) =
        ground (arith, lookup-set_all u.downstream_id t s.sv1_server_data.downstreams, known) in
      In-append_right _ s.broadcasts _ (
        messages_found ds u _ (set_upstream_target t d) c m known' opened made
          (applicable_found t none u s.sv1_server_data.pending_target_updates refl high waits))

  -- After the `SetTarget` of the aggregated channel no update waits, and the upstream target of a
  -- connection is the new one exactly where the connection is known.
  pub set_target_settles :
      (t id : ℕ) (s : Sv1Server)
      → let s' = (handle_aggregated_set_target t s).1 in
        (s'.sv1_server_data.pending_target_updates ≡ [])
        × (upstream_of s'.sv1_server_data id
            ≡ elim (lookup id s.sv1_server_data.downstreams) [ none ↦ none | some d ↦ some t ])
  unfolding handle_aggregated_set_target get_pending_difficulty_updates on_data
      send_pending_set_difficulty_messages_to_downstream send_broadcasts set_upstream_target
  set_target_settles t id s = (
    keep_none s.sv1_server_data.pending_target_updates,
    ground (arith, lookup-set_all id t s.sv1_server_data.downstreams),
  )

  -- A message that is broadcast when the `SetTarget` of the aggregated channel arrives tells a miner
  -- the target of an update that waited and is not below the new upstream target.
  pub set_target_tells_only :
      (t : ℕ) (s : Sv1Server) (b : Broadcast)
      → In b (handle_aggregated_set_target t s).1.broadcasts
      → In b s.broadcasts
        ⊎ ((u : PendingTargetUpdate) × In u s.sv1_server_data.pending_target_updates
            × (leb t u.new_target ≡ true)
            × (b.downstream_id ≡ some u.downstream_id)
            × (build_set_difficulty u.new_target ≡ ok b.message))
  unfolding handle_aggregated_set_target get_pending_difficulty_updates on_data
      send_pending_set_difficulty_messages_to_downstream send_broadcasts
  set_target_tells_only t s b at =
      let ds = set_all_upstream_targets t s.sv1_server_data.downstreams in
      let us = s.sv1_server_data.pending_target_updates in
      elim (In-append b s.broadcasts _ at) [
        | inl old ↦ inl old
        | inr new ↦
            let (u, applied, his, made) = messages_only ds (applicable_updates t none us) b new in
            let (waited, high, mine) = applicable_only t none u us applied in
            inr (u, waited, high, his, made)
      ]
