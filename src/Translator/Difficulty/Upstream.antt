-- ===== src/Translator/Difficulty/Upstream.antt =====
-- The `UpdateChannel` messages, and a whole round of `handle_vardiff_updates`.
use mara_pool.Prelude.{
  ℕ, ◌-◌, ◌^◌, Bool, true, false, Option, none, some, List, [], ◌∷◌, ◌++◌, map, ok, err, Handler,
  pure, gets, modify, expect, ◌>>=◌, ◌>>◌, if◌then◌else◌, nat_eq, leb,
}
use mara_pool.Prelude.Map.{Map}
use mara_pool.Translator.Core.{Sv1Core}
use mara_pool.Translator.State.{
  TproxyError, DownstreamData, Sv1ServerData, Sv1Server, ToUpstream, update_channel, Broadcast,
}
use mara_pool.Translator.Difficulty.Proposals.{Update, adjust_all}

abbrev pub or_else : {A : Type 0} → Option A → A → A
or_else none a = a
or_else (some a) b = a

-- `[0xFF; 32]`.
abbrev pub max_target : ℕ
max_target = 2 ^ 256 - 1

module _ ⦃core : Sv1Core⦄ where
  open core use {Hashrate, zero_hashrate, add_hashrate, build_set_difficulty}

  -- The target that a miner has or is about to get.
  abbrev pub wanted_target : DownstreamData → ℕ
  wanted_target d = or_else d.pending_target d.target

  -- `downstreams.values().map(..).min()`.
  unfoldable pub min_target : Map ℕ DownstreamData → Option ℕ
  min_target [] = none
  min_target ((id, d) ∷ m) = elim (min_target m) [
    | none ↦ some (wanted_target d)
    | some t ↦ some (if leb (wanted_target d) t then wanted_target d else t)
  ]

  -- `.sum()`, from the left; `none` is where a miner has no hash rate, and the code panics.
  unfoldable pub sum_hashrates : Hashrate → Map ℕ DownstreamData → Option Hashrate
  sum_hashrates total [] = some total
  sum_hashrates total ((id, d) ∷ m) = elim d.hashrate [
    | none ↦ none
    | some hashrate ↦ sum_hashrates (add_hashrate total (or_else d.pending_hashrate hashrate)) m
  ]

  unfoldable pub total_hashrate : Map ℕ DownstreamData → Option Hashrate
  total_hashrate m = sum_hashrates zero_hashrate m

  unfoldable pub send_upstream : List ToUpstream → Handler Sv1Server TproxyError (Unit {0})
  send_upstream messages = modify (λ s. record s { to_upstream = s.to_upstream ++ messages })

  unfoldable pub send_broadcasts : List Broadcast → Handler Sv1Server TproxyError (Unit {0})
  send_broadcasts messages = modify (λ s. record s { broadcasts = s.broadcasts ++ messages })

  -- The message of one update in the mode without aggregation.
  abbrev pub own_update : Update → ToUpstream
  own_update u = update_channel u.channel_id u.new_hashrate u.new_target

  unfoldable pub send_update_channel_messages :
      Bool → List Update → Handler Sv1Server TproxyError (Unit {0})
  send_update_channel_messages false updates = send_upstream (map own_update updates)
  send_update_channel_messages true [] = pure tt
  send_update_channel_messages true (u ∷ updates) = do
    downstreams ← gets (λ s. s.sv1_server_data.downstreams)
    target ← expect (min_target downstreams)
    hashrate ← expect (total_hashrate downstreams)
    send_upstream (update_channel u.channel_id hashrate target ∷ [])

  -- A target for one miner, as a message; none where it cannot be built.
  unfoldable pub set_difficulty_for : ℕ → ℕ → ℕ → List Broadcast
  set_difficulty_for channel_id id target = elim (build_set_difficulty target) [
    | err e ↦ []
    | ok message ↦
        record { channel_id = channel_id; downstream_id = some id; message = message } ∷ []
  ]

  unfoldable pub immediate_messages : List Update → List Broadcast
  immediate_messages [] = []
  immediate_messages (u ∷ updates) =
      set_difficulty_for u.channel_id u.downstream_id u.new_target ++ immediate_messages updates

  -- A computation on the server's data.
  unfoldable pub on_data :
      {A : Type 0} → Handler Sv1ServerData TproxyError A → Handler Sv1Server TproxyError A
  on_data h s = let (r, data') = h s.sv1_server_data in (r, record s { sv1_server_data = data' })

  unfoldable pub handle_vardiff_updates :
      Bool → Hashrate → ℕ → Handler Sv1Server TproxyError (Unit {0})
  handle_vardiff_updates is_aggregated shares_per_minute now = do
    vardiff_map ← gets (λ s. s.sv1_server_data.vardiff)
    decisions ← on_data (adjust_all shares_per_minute now vardiff_map)
    send_update_channel_messages is_aggregated decisions.all_updates
    send_broadcasts (immediate_messages decisions.immediate_updates)

  -- `send_update_channel_on_downstream_state_change`: the sum is formed before the number of miners
  -- is looked at.
  unfoldable pub send_update_channel_on_downstream_state_change :
      Bool → Handler Sv1Server TproxyError (Unit {0})
  send_update_channel_on_downstream_state_change false = pure tt
  send_update_channel_on_downstream_state_change true = do
    downstreams ← gets (λ s. s.sv1_server_data.downstreams)
    hashrate ← expect (total_hashrate downstreams)
    elim (min_target downstreams) [
      | some target ↦ send_upstream (update_channel 0 hashrate target ∷ [])
      | none ↦ send_upstream (update_channel 0 zero_hashrate max_target ∷ [])
    ]
