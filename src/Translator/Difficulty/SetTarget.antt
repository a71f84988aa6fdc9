-- ===== src/Translator/Difficulty/SetTarget.antt =====
-- `handle_set_target_message`.
use mara_pool.Prelude.{
  ℕ, Bool, true, false, Option, none, some, List, [], ◌∷◌, ◌++◌, Handler, pure, gets, modify, act,
  ◌>>=◌, ◌>>◌, if◌then◌else◌, nat_eq, ◌==◌, leb,
}
use mara_pool.Prelude.Map.{Map, lookup}
use mara_pool.Translator.Core.{Sv1Core}
use mara_pool.Translator.State.{
  TproxyError, DownstreamData, PendingTargetUpdate, Sv1ServerData, Sv1Server, Broadcast,
}
use mara_pool.Translator.Difficulty.Proposals.{write_downstream}
use mara_pool.Translator.Difficulty.Upstream.{on_data, send_broadcasts, set_difficulty_for}

-- `d.channel_id == Some(channel_id)`.
abbrev pub is_channel : Option ℕ → ℕ → Bool
is_channel none channel_id = false
is_channel (some c) channel_id = c == channel_id

module _ ⦃core : Sv1Core⦄ where
  unfoldable pub set_upstream_target : ℕ → DownstreamData → DownstreamData
  set_upstream_target target d = record d { upstream_target = some target }

  -- The loop over all connections.
  unfoldable pub set_all_upstream_targets : ℕ → Map ℕ DownstreamData → Map ℕ DownstreamData
  set_all_upstream_targets target [] = []
  set_all_upstream_targets target ((id, d) ∷ m) =
      (id, set_upstream_target target d) ∷ set_all_upstream_targets target m

  -- `should_process`.
  abbrev pub concerns : Option ℕ → PendingTargetUpdate → Bool
  concerns none u = true
  concerns (some id) u = u.downstream_id == id

  -- What `retain` keeps, and what its closure collects.
  unfoldable pub keep_pending : Option ℕ → List PendingTargetUpdate → List PendingTargetUpdate
  keep_pending who [] = []
  keep_pending who (u ∷ us) =
      let rest = keep_pending who us in if concerns who u then rest else u ∷ rest

  unfoldable pub applicable_updates :
      ℕ → Option ℕ → List PendingTargetUpdate → List PendingTargetUpdate
  applicable_updates target who [] = []
  applicable_updates target who (u ∷ us) =
      let rest = applicable_updates target who us in
      if concerns who u then (if leb target u.new_target then u ∷ rest else rest) else rest

  unfoldable pub get_pending_difficulty_updates :
      ℕ → Option ℕ → Handler Sv1ServerData TproxyError (List PendingTargetUpdate)
  get_pending_difficulty_updates target who = act (λ s. (
    applicable_updates target who s.pending_target_updates,
    record s { pending_target_updates = keep_pending who s.pending_target_updates },
  ))

  -- The messages of the updates; a connection that is gone or has no channel is skipped.
  unfoldable pub pending_messages : Map ℕ DownstreamData → List PendingTargetUpdate → List Broadcast
  pending_messages downstreams [] = []
  pending_messages downstreams (u ∷ us) =
      let rest = pending_messages downstreams us in
      elim (lookup u.downstream_id downstreams) [
        | none ↦ rest
        | some d ↦ elim d.channel_id [
          | none ↦ rest
          | some channel_id ↦ set_difficulty_for channel_id u.downstream_id u.new_target ++ rest
        ]
      ]

  unfoldable pub send_pending_set_difficulty_messages_to_downstream :
      List PendingTargetUpdate → Handler Sv1Server TproxyError (Unit {0})
  send_pending_set_difficulty_messages_to_downstream updates = do
    downstreams ← gets (λ s. s.sv1_server_data.downstreams)
    send_broadcasts (pending_messages downstreams updates)

  unfoldable pub handle_aggregated_set_target : ℕ → Handler Sv1Server TproxyError (Unit {0})
  handle_aggregated_set_target target = do
    modify (λ s. record s {
      sv1_server_data = record (s.sv1_server_data) {
        downstreams = set_all_upstream_targets target s.sv1_server_data.downstreams;
      };
    })
    updates ← on_data (get_pending_difficulty_updates target none)
    send_pending_set_difficulty_messages_to_downstream updates

  -- The first connection with the channel.
  unfoldable pub find_by_channel : ℕ → Map ℕ DownstreamData → Option ℕ
  find_by_channel channel_id [] = none
  find_by_channel channel_id ((id, d) ∷ m) =
      if is_channel d.channel_id channel_id then some id else find_by_channel channel_id m

  unfoldable pub handle_non_aggregated_set_target : ℕ → ℕ → Handler Sv1Server TproxyError (Unit {0})
  handle_non_aggregated_set_target channel_id target = do
    affected ← gets (λ s. find_by_channel channel_id s.sv1_server_data.downstreams)
    elim affected [
      | none ↦ pure tt
      | some id ↦ do
        on_data (modify (write_downstream id (set_upstream_target target)))
        updates ← on_data (get_pending_difficulty_updates target (some id))
        send_pending_set_difficulty_messages_to_downstream updates
    ]

  unfoldable pub handle_set_target_message : Bool → ℕ → ℕ → Handler Sv1Server TproxyError (Unit {0})
  handle_set_target_message true channel_id target = handle_aggregated_set_target target
  handle_set_target_message false channel_id target =
      handle_non_aggregated_set_target channel_id target
