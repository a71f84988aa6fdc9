-- ===== src/Translator/Server/Opening.antt =====
-- `handle_open_channel_request`, `open_extended_mining_channel`, and the answer of the upstream.
use mara_pool.Prelude.{
  ℕ, zero, suc, ◌+◌, ◌/◌, ◌%◌, true, Option, none, some, List, [], ◌∷◌, ◌++◌, Result, ok, err,
  Handler, pure, fail, gets, modify, act, expect_ok, or_fail, some_or_fail, ◌>>=◌, ◌>>◌,
  if◌then◌else◌, nat_eq, ltb,
}
use mara_pool.Prelude.Map.{lookup, insert, remove}
use mara_pool.Prelude.Bits.{next_u32}
use mara_pool.Stratum.{OpenExtendedMiningChannelSuccess, Bytes}
use mara_pool.Translator.Core.{Sv1Core, Message}
use mara_pool.Translator.State.{
  TproxyError, channel_error_sender, downstream_not_found, general, DownstreamData, Sv1ServerData,
  Sv1Server, ToUpstream, open_extended_mining_channel, TranslatorConfig,
}
use mara_pool.Translator.Difficulty.{on_data, write_downstream, max_target, set_upstream_target}
use mara_pool.Translator.Connection.{Sv1Protocol}

-- The digits of a number, the highest first; `fuel` is the most digits that it may have.
unfoldable pub decimal : (fuel : ℕ) → ℕ → Bytes
decimal zero n = []
decimal (suc fuel) n =
    let higher = decimal fuel (n / 10) in
    let digit = 48 + n % 10 in if ltb n 10 then digit ∷ [] else higher ++ digit ∷ []

-- `format!("{}.miner{}", user_identity, miner_id)`: a `u32` has at most ten digits.
unfoldable pub miner_name : Bytes → ℕ → Bytes
miner_name user_identity miner_id =
    user_identity ++ (46 ∷ 109 ∷ 105 ∷ 110 ∷ 101 ∷ 114 ∷ decimal 10 miner_id)

module _ ⦃core : Sv1Core⦄ where
  open core use {
    hash_rate_to_target, build_open_channel, build_set_difficulty, OpenExtendedMiningChannel,
  }

  -- A send to the channel manager whose error is returned.
  unfoldable pub hand_upstream : ToUpstream → Handler Sv1Server TproxyError (Unit {0})
  hand_upstream m s =
      if s.upstream_open
      then (modify (λ t. record t { to_upstream = t.to_upstream ++ m ∷ [] })) s
      else fail channel_error_sender s

  -- A broadcast whose error is returned.
  unfoldable pub broadcast_to : ℕ → Option ℕ → Message → Handler Sv1Server TproxyError (Unit {0})
  broadcast_to channel_id id m s =
      if s.has_receivers
      then (modify (λ t. record t {
        broadcasts =
            t.broadcasts
            ++ record { channel_id = channel_id; downstream_id = id; message = m } ∷ [];
      }))
          s
      else fail channel_error_sender s

  -- The maximum target of the request.
  unfoldable pub requested_target : TranslatorConfig → Result ℕ ℕ
  requested_target config =
      if config.enable_vardiff
      then hash_rate_to_target config.min_individual_miner_hashrate config.shares_per_minute
      else ok max_target

  abbrev pub set_identity : Bytes → DownstreamData → DownstreamData
  set_identity name d = record d { user_identity = name }

  unfoldable pub store_initial_target : ℕ → Sv1ServerData → Sv1ServerData
  store_initial_target target s = elim s.initial_target [
    | none ↦ record s { initial_target = some target }
    | some t ↦ s
  ]

  -- Where the message cannot be built an error is logged.
  unfoldable pub send_open :
      Result ℕ OpenExtendedMiningChannel → Handler Sv1Server TproxyError (Unit {0})
  send_open (ok message) = hand_upstream (open_extended_mining_channel message)
  send_open (err e) = pure tt

  unfoldable pub open_extended_channel :
      TranslatorConfig → ℕ → ℕ → Handler Sv1Server TproxyError (Unit {0})
  open_extended_channel config request_id id = do
    target ← expect_ok (requested_target config)
    on_data (modify (store_initial_target target))
    miner_id ←
        act (λ s. (next_u32 s.miner_counter, record s { miner_counter = next_u32 s.miner_counter }))
    on_data (modify (write_downstream id (set_identity (miner_name config.user_identity miner_id))))
    send_open (
        build_open_channel request_id (miner_name config.user_identity miner_id)
          config.min_individual_miner_hashrate target config.downstream_extranonce2_size)

  -- A new request for the connection.
  unfoldable pub new_request : ℕ → Sv1ServerData → ℕ × Sv1ServerData
  new_request id s = (
    s.request_id_factory,
    record s {
      request_id_factory = next_u32 s.request_id_factory;
      request_id_to_downstream_id = insert s.request_id_factory id s.request_id_to_downstream_id;
    },
  )

  unfoldable pub open_for :
      TranslatorConfig → ℕ → ℕ → Option DownstreamData → Handler Sv1Server TproxyError (Unit {0})
  open_for config request_id id none = pure tt
  open_for config request_id id (some d) = open_extended_channel config request_id id

  unfoldable pub handle_open_channel_request :
      TranslatorConfig → ℕ → Handler Sv1Server TproxyError (Unit {0})
  handle_open_channel_request config id = do
    request_id ← on_data (act (new_request id))
    found ← gets (λ s. lookup id s.sv1_server_data.downstreams)
    open_for config request_id id found

  -- What the answer of the upstream writes to the connection; its queue is taken out.
  unfoldable pub attach_channel : OpenExtendedMiningChannelSuccess → DownstreamData → DownstreamData
  attach_channel m d = set_upstream_target m.target (record d {
    extranonce1 = m.extranonce_prefix;
    extranonce2_len = m.extranonce_size;
    channel_id = some m.channel_id;
    queued_sv1_handshake_messages = [];
  })

  abbrev pub start_processing : DownstreamData → DownstreamData
  start_processing d = record d { processing_queued_sv1_handshake_responses = true }

  module _ (protocol : Sv1Protocol) where
    open protocol use {handle_message}

    unfoldable pub answer_queued :
        ℕ → ℕ → Result ℕ (Option Message) → Handler Sv1Server TproxyError (Unit {0})
    answer_queued channel_id id (ok (some m)) = broadcast_to channel_id (some id) m
    answer_queued channel_id id (ok none) = pure tt
    answer_queued channel_id id (err e) = pure tt

    -- One message, with the connection's data as it is.
    unfoldable pub handle_on :
        ℕ
        → Message
        → Option DownstreamData
        → Sv1ServerData
        → Result ℕ (Option Message) × Sv1ServerData
    handle_on id m none s = (ok none, s)
    handle_on id m (some d) s =
        let (r, d') = handle_message s m d in (r, write_downstream id (λ _. d') s)

    unfoldable pub process_queued : ℕ → ℕ → List Message → Handler Sv1Server TproxyError (Unit {0})
    process_queued channel_id id [] = pure tt
    process_queued channel_id id (m ∷ ms) = do
      r ← on_data (act (λ s. handle_on id m (lookup id s.downstreams) s))
      answer_queued channel_id id r
      process_queued channel_id id ms

    unfoldable pub process_queue : ℕ → ℕ → List Message → Handler Sv1Server TproxyError (Unit {0})
    process_queue channel_id id [] = pure tt
    process_queue channel_id id (m ∷ ms) = do
      on_data (modify (write_downstream id start_processing))
      process_queued channel_id id (m ∷ ms)

    unfoldable pub attach :
        ℕ
        → OpenExtendedMiningChannelSuccess
        → ℕ
        → Option DownstreamData
        → Handler Sv1Server TproxyError (Unit {0})
    attach first_target m id none = pure tt
    attach first_target m id (some d) = do
      on_data (modify (write_downstream id (attach_channel m)))
      process_queue m.channel_id id d.queued_sv1_handshake_messages
      message ← or_fail (λ e. general) (build_set_difficulty first_target)
      broadcast_to m.channel_id none message

    unfoldable pub handle_open_success :
        ℕ → OpenExtendedMiningChannelSuccess → Handler Sv1Server TproxyError (Unit {0})
    handle_open_success first_target m = do
      known ← on_data (
          act (λ s. (
            lookup m.request_id s.request_id_to_downstream_id,
            record s {
              request_id_to_downstream_id = remove m.request_id s.request_id_to_downstream_id;
            },
          )))
      id ← some_or_fail (downstream_not_found m.request_id) known
      found ← gets (λ s. lookup id s.sv1_server_data.downstreams)
      attach first_target m id found
