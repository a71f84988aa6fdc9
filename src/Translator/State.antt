-- ===== src/Translator/State.antt =====
-- sv1/sv1_server/data.rs and sv1/downstream/data.rs: the state of the SV1 server and of a miner's
-- connection, and the messages between the translator's parts.
use mara_pool.Prelude.{ℕ, Bool, true, false, Option, none, some, List, [], ◌∷◌}
use mara_pool.Prelude.Map.{Map}
use mara_pool.Stratum.{Bytes, SetNewPrevHash, SubmitSharesExtended}
use mara_pool.Translator.Core.{Sv1Core, Notify, Submit, Message}

-- `SubmitShareWithChannelId`.
pub record SubmitShareWithChannelId : Type 0 where
  pub channel_id : ℕ
  pub downstream_id : ℕ
  pub share : Submit
  pub extranonce : Bytes
  pub extranonce2_len : ℕ
  pub version_rolling_mask : Option ℕ
  pub job_version : Option ℕ

-- What a connection sends to the SV1 server.
pub data DownstreamMessages : Type 0 where
  submit_shares : SubmitShareWithChannelId → DownstreamMessages
  open_channel : ℕ → DownstreamMessages

-- What the SV1 server broadcasts: the channel, the connection if it is for one, and the message.
pub record Broadcast : Type 0 where
  pub channel_id : ℕ
  pub downstream_id : Option ℕ
  pub message : Message

-- `TproxyError`, as far as the modelled handlers make it.
pub data TproxyError : Type 0 where
  channel_error_sender : TproxyError
  downstream_not_found : ℕ → TproxyError
  general : TproxyError
  sv1_error : TproxyError
  job_not_found : TproxyError
  invalid_merkle_root : TproxyError
  binary_sv2 : ℕ → TproxyError
  translation_error : ℕ → TproxyError

module _ ⦃core : Sv1Core⦄ where
  open core use {Hashrate, VardiffState, OpenExtendedMiningChannel}

  -- What the SV1 server sends to the SV2 channel manager.
  pub data ToUpstream : Type 0 where
    update_channel : (channel_id : ℕ) → Hashrate → (maximum_target : ℕ) → ToUpstream
    close_channel : (channel_id : ℕ) → ToUpstream
    open_extended_mining_channel : OpenExtendedMiningChannel → ToUpstream
    submit_shares_extended : SubmitSharesExtended → (tlv : Option Bytes) → ToUpstream

  -- The shared reference to the server's data is left out.
  pub record DownstreamData : Type 0 where
    pub channel_id : Option ℕ
    pub downstream_id : ℕ
    pub extranonce1 : Bytes
    pub extranonce2_len : ℕ
    pub version_rolling_mask : Option ℕ
    pub version_rolling_min_bit : Option ℕ
    pub last_job_version_field : Option ℕ
    pub authorized_worker_name : Bytes
    pub user_identity : Bytes
    pub target : ℕ
    pub hashrate : Option Hashrate
    pub cached_set_difficulty : Option Message
    pub cached_notify : Option Message
    pub pending_target : Option ℕ
    pub pending_hashrate : Option Hashrate
    pub sv1_handshake_complete : Bool
    pub queued_sv1_handshake_messages : List Message
    pub processing_queued_sv1_handshake_responses : Bool
    pub pending_share : Option SubmitShareWithChannelId
    pub upstream_target : Option ℕ

  -- `DownstreamData::new`.
  unfoldable pub new_downstream_data : ℕ → ℕ → Option Hashrate → DownstreamData
  new_downstream_data id target hashrate = record {
    channel_id = none;
    downstream_id = id;
    extranonce1 = 0 ∷ 0 ∷ 0 ∷ 0 ∷ 0 ∷ 0 ∷ 0 ∷ 0 ∷ [];
    extranonce2_len = 4;
    version_rolling_mask = none;
    version_rolling_min_bit = none;
    last_job_version_field = none;
    authorized_worker_name = [];
    user_identity = [];
    target = target;
    hashrate = hashrate;
    cached_set_difficulty = none;
    cached_notify = none;
    pending_target = none;
    pending_hashrate = none;
    sv1_handshake_complete = false;
    queued_sv1_handshake_messages = [];
    processing_queued_sv1_handshake_responses = false;
    pending_share = none;
    upstream_target = none;
  }

  pub record PendingTargetUpdate : Type 0 where
    pub downstream_id : ℕ
    pub new_target : ℕ
    pub new_hashrate : Hashrate

  pub record Sv1ServerData : Type 0 where
    pub downstreams : Map ℕ DownstreamData
    pub request_id_to_downstream_id : Map ℕ ℕ
    pub vardiff : Map ℕ VardiffState
    pub prevhash : Option SetNewPrevHash
    pub downstream_id_factory : ℕ
    pub request_id_factory : ℕ
    pub aggregated_valid_jobs : Option (List Notify)
    pub non_aggregated_valid_jobs : Option (Map ℕ (List Notify))
    pub pending_target_updates : List PendingTargetUpdate
    pub initial_target : Option ℕ

  -- `Sv1ServerData::new`.
  unfoldable pub new_server_data : Bool → Sv1ServerData
  new_server_data aggregate_channels = record {
    downstreams = [];
    request_id_to_downstream_id = [];
    vardiff = [];
    prevhash = none;
    downstream_id_factory = 1;
    request_id_factory = 1;
    aggregated_valid_jobs = elim aggregate_channels [ true ↦ some [] | false ↦ none ];
    non_aggregated_valid_jobs = elim aggregate_channels [ true ↦ none | false ↦ some [] ];
    pending_target_updates = [];
    initial_target = none;
  }

  -- The SV1 server with the messages that it has handed to the channel manager and broadcast, oldest
  -- first, and whether the two queues take more. Where an error of a send is only logged the message
  -- counts as handed over.
  pub record Sv1Server : Type 0 where
    pub sv1_server_data : Sv1ServerData
    pub to_upstream : List ToUpstream
    pub broadcasts : List Broadcast
    pub clean_job : Bool
    pub miner_counter : ℕ
    pub sequence_counter : ℕ
    pub upstream_open : Bool
    pub has_receivers : Bool

  -- The part of `TranslatorConfig` that the server reads.
  pub record TranslatorConfig : Type 0 where
    pub aggregate_channels : Bool
    pub enable_vardiff : Bool
    pub shares_per_minute : Hashrate
    pub min_individual_miner_hashrate : Hashrate
    pub downstream_extranonce2_size : ℕ
    pub user_identity : Bytes
