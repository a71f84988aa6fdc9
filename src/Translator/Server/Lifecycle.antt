-- ===== src/Translator/Server/Lifecycle.antt =====
-- The messages of the two sides, and the events of the main loop.
use mara_pool.Prelude.{
  ℕ, Bool, true, false, Option, none, some, [], ◌∷◌, Handler, pure, panic, modify, act, expect_ok,
  ◌>>=◌, ◌>>◌, if◌then◌else◌, nat_eq,
}
use mara_pool.Prelude.Map.{lookup, insert, remove}
use mara_pool.Stratum.{OpenExtendedMiningChannelSuccess, SetNewPrevHash}
use mara_pool.Prelude.Bits.{next_usize}
use mara_pool.Translator.Core.{Sv1Core, NewExtendedMiningJob}
use mara_pool.Translator.State.{
  TproxyError, DownstreamMessages, submit_shares, open_channel, DownstreamData, new_downstream_data,
  Sv1ServerData, new_server_data, Sv1Server, close_channel, TranslatorConfig,
}
use mara_pool.Translator.Difficulty.{
  on_data, send_upstream, send_update_channel_on_downstream_state_change, handle_set_target_message,
}
use mara_pool.Translator.Connection.{Sv1Protocol}
use mara_pool.Translator.Server.Opening.{handle_open_channel_request, handle_open_success}
use mara_pool.Translator.Server.Jobs.{handle_new_extended_mining_job, store_prev_hash}
use mara_pool.Translator.Server.Sending.{handle_submit_shares, handle_set_target_without_vardiff}

-- The messages of the channel manager; `other_upstream` is every one that it filters out.
pub data FromUpstream : Type 0 where
  open_success : OpenExtendedMiningChannelSuccess → FromUpstream
  new_extended_job : NewExtendedMiningJob → FromUpstream
  new_prev_hash : SetNewPrevHash → FromUpstream
  new_target : (channel_id : ℕ) → (maximum_target : ℕ) → FromUpstream
  other_upstream : FromUpstream

module _ ⦃core : Sv1Core⦄ where
  open core use {vardiff_new, VardiffState}

  -- `Sv1Server::new`; both queues take messages.
  unfoldable pub new_sv1_server : TranslatorConfig → Sv1Server
  new_sv1_server config = record {
    sv1_server_data = new_server_data config.aggregate_channels;
    to_upstream = [];
    broadcasts = [];
    clean_job = true;
    miner_counter = 0;
    sequence_counter = 0;
    upstream_open = true;
    has_receivers = true;
  }

  unfoldable pub handle_server_message :
      TranslatorConfig → DownstreamMessages → Handler Sv1Server TproxyError (Unit {0})
  handle_server_message config (submit_shares share) = handle_submit_shares config share
  handle_server_message config (open_channel id) = handle_open_channel_request config id

  unfoldable pub handle_new_target :
      TranslatorConfig → Bool → ℕ → ℕ → Handler Sv1Server TproxyError (Unit {0})
  handle_new_target config true channel_id target =
      handle_set_target_message config.aggregate_channels channel_id target
  handle_new_target config false channel_id target =
      handle_set_target_without_vardiff config.aggregate_channels channel_id target

  unfoldable pub handle_upstream_message :
      Sv1Protocol → TranslatorConfig → ℕ → FromUpstream → Handler Sv1Server TproxyError (Unit {0})
  handle_upstream_message protocol config first_target (open_success m) =
      handle_open_success protocol first_target m
  handle_upstream_message protocol config first_target (new_extended_job m) =
      handle_new_extended_mining_job m
  handle_upstream_message protocol config first_target (new_prev_hash m) = store_prev_hash m
  handle_upstream_message protocol config first_target (new_target channel_id target) =
      handle_new_target config config.enable_vardiff channel_id target
  handle_upstream_message protocol config first_target other_upstream = panic

  -- A miner that connects: its data is inserted before its vardiff state is made.
  unfoldable pub register : TranslatorConfig → ℕ → ℕ → Sv1ServerData → Sv1ServerData
  register config first_target id s = record s {
    downstreams =
        insert id (new_downstream_data id first_target (some config.min_individual_miner_hashrate))
          s.downstreams;
  }

  unfoldable pub start_vardiff : Bool → ℕ → ℕ → Handler Sv1ServerData TproxyError (Unit {0})
  start_vardiff false id now = pure tt
  start_vardiff true id now = do
    state ← expect_ok (vardiff_new now)
    modify (λ s. record s { vardiff = insert id state s.vardiff })

  unfoldable pub accept : TranslatorConfig → ℕ → ℕ → Handler Sv1Server TproxyError (Unit {0})
  accept config first_target now = on_data (do
    id ← act (λ s. (
      s.downstream_id_factory,
      record s { downstream_id_factory = next_usize s.downstream_id_factory },
    ))
    modify (register config first_target id)
    start_vardiff config.enable_vardiff id now)

  unfoldable pub forget : Bool → ℕ → Sv1ServerData → Option DownstreamData × Sv1ServerData
  forget enable_vardiff id s = (
    lookup id s.downstreams,
    record s {
      vardiff = if enable_vardiff then remove id s.vardiff else s.vardiff;
      downstreams = remove id s.downstreams;
    },
  )

  -- `CloseChannel` is sent without aggregation.
  unfoldable pub close_after : Bool → Option ℕ → Handler Sv1Server TproxyError (Unit {0})
  close_after aggregated none = pure tt
  close_after true (some channel_id) = pure tt
  close_after false (some channel_id) = send_upstream (close_channel channel_id ∷ [])

  unfoldable pub after_removal :
      TranslatorConfig → Option DownstreamData → Handler Sv1Server TproxyError (Unit {0})
  after_removal config none = pure tt
  after_removal config (some d) = do
    if config.enable_vardiff
        then send_update_channel_on_downstream_state_change config.aggregate_channels
        else pure tt
    close_after config.aggregate_channels d.channel_id

  unfoldable pub downstream_shutdown :
      TranslatorConfig → ℕ → Handler Sv1Server TproxyError (Unit {0})
  downstream_shutdown config id = do
    removed ← on_data (act (forget config.enable_vardiff id))
    after_removal config removed

  unfoldable pub upstream_fallback : TranslatorConfig → Handler Sv1Server TproxyError (Unit {0})
  upstream_fallback config = on_data (
      modify (λ s. record s {
        vardiff = if config.enable_vardiff then [] else s.vardiff;
        downstreams = [];
      }))
