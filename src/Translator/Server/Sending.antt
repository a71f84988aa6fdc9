-- ===== src/Translator/Server/Sending.antt =====
-- The shares that go upstream, and the targets of the upstream where vardiff is off.
use mara_pool.Prelude.{
  ℕ, Bool, true, false, Option, none, some, List, [], ◌∷◌, ◌++◌, Handler, pure, gets, modify,
  expect, expect_ok, or_fail, ◌>>=◌, ◌>>◌, if◌then◌else◌, nat_eq,
}
use mara_pool.Prelude.Map.{Map, lookup, insert}
use mara_pool.Stratum.{Bytes}
use mara_pool.Prelude.Bits.{next_u32}
use mara_pool.Translator.Core.{Sv1Core}
use mara_pool.Translator.State.{
  TproxyError, sv1_error, SubmitShareWithChannelId, DownstreamData, Sv1ServerData, Sv1Server,
  submit_shares_extended, Broadcast, TranslatorConfig,
}
use mara_pool.Translator.Difficulty.{
  on_data, write_downstream, set_difficulty_for, send_broadcasts, find_by_channel,
}
use mara_pool.Translator.Server.Opening.{hand_upstream}

module _ ⦃core : Sv1Core⦄ where
  open core use {increment_shares_since_last_update, build_submit_shares, user_identity_tlv}

  unfoldable pub count_share : ℕ → Sv1ServerData → Sv1ServerData
  count_share id s = elim (lookup id s.vardiff) [
    | none ↦ s
    | some state ↦ record s {
      vardiff = insert id (increment_shares_since_last_update state) s.vardiff;
    }
  ]

  -- The identity goes along only without aggregation.
  unfoldable pub identity_tlv : Bool → ℕ → Handler Sv1Server TproxyError (Option Bytes)
  identity_tlv true id = pure none
  identity_tlv false id = do
    found ← gets (λ s. lookup id s.sv1_server_data.downstreams)
    d ← expect found
    expect_ok (user_identity_tlv d.user_identity)

  unfoldable pub submit_with :
      TranslatorConfig
      → SubmitShareWithChannelId
      → Option ℕ
      → Handler Sv1Server TproxyError (Unit {0})
  submit_with config message none = pure tt
  submit_with config message (some job_version) = do
    sequence_number ← gets (λ s. s.sequence_counter)
    share ←
        or_fail (λ e. sv1_error)
          (build_submit_shares message.share message.channel_id sequence_number job_version
            message.version_rolling_mask)
    tlv ← identity_tlv config.aggregate_channels message.downstream_id
    hand_upstream (submit_shares_extended share tlv)
    modify (λ s. record s { sequence_counter = next_u32 s.sequence_counter })

  unfoldable pub handle_submit_shares :
      TranslatorConfig → SubmitShareWithChannelId → Handler Sv1Server TproxyError (Unit {0})
  handle_submit_shares config message = do
    on_data (modify (if config.enable_vardiff then count_share message.downstream_id else (λ s. s)))
    submit_with config message message.job_version

  -- `set_upstream_target` and `set_pending_target`.
  unfoldable pub set_both_targets : ℕ → DownstreamData → DownstreamData
  set_both_targets target d = record d {
    upstream_target = some target;
    pending_target = some target;
  }

  -- The loop over the connections; those without a channel are passed over.
  unfoldable pub set_open_targets : ℕ → Map ℕ DownstreamData → Map ℕ DownstreamData
  set_open_targets target [] = []
  set_open_targets target ((id, d) ∷ m) =
      (id, elim d.channel_id [ none ↦ d | some c ↦ set_both_targets target d ])
      ∷ set_open_targets target m

  unfoldable pub open_messages : ℕ → Map ℕ DownstreamData → List Broadcast
  open_messages target [] = []
  open_messages target ((id, d) ∷ m) =
      elim d.channel_id [ none ↦ [] | some c ↦ set_difficulty_for c id target ]
      ++ open_messages target m

  unfoldable pub send_set_difficulty_to_all_downstreams :
      ℕ → Handler Sv1Server TproxyError (Unit {0})
  send_set_difficulty_to_all_downstreams target = do
    downstreams ← gets (λ s. s.sv1_server_data.downstreams)
    on_data (modify (λ s. record s { downstreams = set_open_targets target s.downstreams }))
    send_broadcasts (open_messages target downstreams)

  unfoldable pub send_to_affected : ℕ → ℕ → Option ℕ → Handler Sv1Server TproxyError (Unit {0})
  send_to_affected channel_id target none = pure tt
  send_to_affected channel_id target (some id) = do
    on_data (modify (write_downstream id (set_both_targets target)))
    send_broadcasts (set_difficulty_for channel_id id target)

  unfoldable pub send_set_difficulty_to_specific_downstream :
      ℕ → ℕ → Handler Sv1Server TproxyError (Unit {0})
  send_set_difficulty_to_specific_downstream channel_id target = do
    affected ← gets (λ s. find_by_channel channel_id s.sv1_server_data.downstreams)
    send_to_affected channel_id target affected

  unfoldable pub handle_set_target_without_vardiff :
      Bool → ℕ → ℕ → Handler Sv1Server TproxyError (Unit {0})
  handle_set_target_without_vardiff true channel_id target =
      send_set_difficulty_to_all_downstreams target
  handle_set_target_without_vardiff false channel_id target =
      send_set_difficulty_to_specific_downstream channel_id target
