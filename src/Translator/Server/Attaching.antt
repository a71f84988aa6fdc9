-- ===== src/Translator/Server/Attaching.antt =====
-- From the request of a channel to the answer.
use mara_pool.Prelude.{
  ℕ, Option, none, some, ◌≡◌, refl, inl, inr, List, [], ◌∷◌, Result, ok, err, arith, nat_eq,
  beq_refl, result_cases, ◌∙◌, Handler, ◌>>=◌, ◌>>◌, Keeps, resume-Keeps, modify, act, or_fail,
}
use mara_pool.Prelude.Map.{lookup, remove, lookup-insert}
use mara_pool.Stratum.{OpenExtendedMiningChannelSuccess, Bytes}
use mara_pool.Translator.Core.{Sv1Core, Message}
use mara_pool.Translator.State.{TproxyError, general, DownstreamData, Sv1ServerData, Sv1Server}
use mara_pool.Translator.Difficulty.{on_data, write_downstream, set_upstream_target}
use mara_pool.Translator.Connection.{Sv1Protocol}
use mara_pool.Translator.Connection.Shares.{calls-IsFrom}
use mara_pool.Translator.Server.Opening.{
  broadcast_to, attach_channel, start_processing, answer_queued, handle_on, process_queued,
  process_queue, attach, handle_open_success,
}

module _ ⦃core : Sv1Core⦄ where
  open core use {build_set_difficulty}

  -- The connection has the channel and its extranonce.
  abbrev pub HasChannel : ℕ → ℕ → Bytes → Sv1Server → Type 0
  HasChannel id channel_id prefix s =
      (d : DownstreamData) × (lookup id s.sv1_server_data.downstreams ≡ some d)
      × (d.channel_id ≡ some channel_id)
      × (d.extranonce1 ≡ prefix)

  broadcast-Keeps :
      (id c : ℕ) (prefix : Bytes) (channel_id : ℕ) (who : Option ℕ) (m : Message)
      → Keeps (HasChannel id c prefix) (broadcast_to channel_id who m)
  unfolding broadcast_to
  broadcast-Keeps id c prefix channel_id who m s (d, known, open_one, extra) =
      (d, ground (arith, known), open_one, extra)

  pub lookup-write :
      (id : ℕ) (f : DownstreamData → DownstreamData) (d : DownstreamData) (s : Sv1ServerData)
      → lookup id s.downstreams ≡ some d
      → lookup id (write_downstream id f s).downstreams ≡ some (f d)
  unfolding write_downstream
  lookup-write id f d s known =
      ground (arith, known, lookup-insert id id (f d) s.downstreams, beq_refl id)

  abbrev announce : ℕ → ℕ → Handler Sv1Server TproxyError (Unit {0})
  announce channel_id first_target = do
    message ← or_fail (λ e. general) (build_set_difficulty first_target)
    broadcast_to channel_id none message

  announce-Keeps :
      (id c : ℕ) (prefix : Bytes) (channel_id first_target : ℕ)
      → Keeps (HasChannel id c prefix) (announce channel_id first_target)
  announce-Keeps id c prefix channel_id first_target s h =
      elim (result_cases (build_set_difficulty first_target)) [
        | inr (e, bad) ↦ rw (bad) h
        | inl (message, made) ↦ rw (made) (broadcast-Keeps id c prefix channel_id none message s h)
      ]

  module _ (protocol : Sv1Protocol) where
    answer-Keeps :
        (id c : ℕ) (prefix : Bytes) (channel_id who : ℕ) (r : Result ℕ (Option Message))
        → Keeps (HasChannel id c prefix) (answer_queued protocol channel_id who r)
    unfolding answer_queued
    answer-Keeps id c prefix channel_id who (ok none) s h = h
    answer-Keeps id c prefix channel_id who (err e) s h = h
    answer-Keeps id c prefix channel_id who (ok (some m)) s h =
        broadcast-Keeps id c prefix channel_id (some who) m s h

    handled-HasChannel :
        (id c : ℕ) (prefix : Bytes) (m : Message) (s : Sv1Server)
        → HasChannel id c prefix s
        → HasChannel id c prefix
            (on_data (act (λ t. handle_on protocol id m (lookup id t.downstreams) t)) s).1
    unfolding on_data handle_on
    handled-HasChannel id c prefix m s (d, known, open_one, extra) =
        let t = s.sv1_server_data in
        let d' = (protocol.handle_message t m d).1 in
        let from = calls-IsFrom (protocol.by_methods t m d) in
        (
          d',
          rw (known, handle_on) (lookup-write id (λ _. d') d t known),
          from.channel ∙ open_one,
          from.extranonce ∙ extra,
        )

    queue-Keeps :
        (id c : ℕ) (prefix : Bytes) (channel_id : ℕ) (ms : List Message)
        → Keeps (HasChannel id c prefix) (process_queued protocol channel_id id ms)
    unfolding process_queued
    queue-Keeps id c prefix channel_id [] s h = h
    queue-Keeps id c prefix channel_id (m ∷ ms) s h =
        resume-Keeps (HasChannel id c prefix)
          (on_data (act (λ t. handle_on protocol id m (lookup id t.downstreams) t)) s)
          (λ r. answer_queued protocol channel_id id r >> process_queued protocol channel_id id ms)
          (handled-HasChannel id c prefix m s h)
          (λ r k kept.
            resume-Keeps (HasChannel id c prefix) (answer_queued protocol channel_id id r k)
              (λ _. process_queued protocol channel_id id ms)
              (answer-Keeps id c prefix channel_id id r k kept)
              (λ _. queue-Keeps id c prefix channel_id ms))

    started-HasChannel :
        (id c : ℕ) (prefix : Bytes) (s : Sv1Server)
        → HasChannel id c prefix s
        → HasChannel id c prefix (on_data (modify (write_downstream id start_processing)) s).1
    unfolding on_data
    started-HasChannel id c prefix s (d, known, open_one, extra) = (
      start_processing d,
      lookup-write id start_processing d s.sv1_server_data known,
      open_one,
      extra,
    )

    process-Keeps :
        (id c : ℕ) (prefix : Bytes) (channel_id : ℕ) (ms : List Message)
        → Keeps (HasChannel id c prefix) (process_queue protocol channel_id id ms)
    unfolding process_queue on_data
    process-Keeps id c prefix channel_id [] s h = h
    process-Keeps id c prefix channel_id (m ∷ ms) s h =
        queue-Keeps id c prefix channel_id (m ∷ ms) _ (started-HasChannel id c prefix s h)

    -- After the channel was written.
    rest-Keeps :
        (id c : ℕ) (prefix : Bytes) (channel_id first_target : ℕ) (ms : List Message)
        → Keeps
            (HasChannel id c prefix)
            (process_queue protocol channel_id id ms >> announce channel_id first_target)
    rest-Keeps id c prefix channel_id first_target ms s h =
        resume-Keeps (HasChannel id c prefix) (process_queue protocol channel_id id ms s)
          (λ _. announce channel_id first_target) (process-Keeps id c prefix channel_id ms s h)
          (λ _. announce-Keeps id c prefix channel_id first_target)

    -- Where the upstream answers a request that is known, for a miner that is connected, the miner's
    -- connection has the channel and the extranonce of the answer afterwards, whatever was queued and
    -- however the queue's messages are answered.
    pub success_attaches :
        (first_target id : ℕ) (m : OpenExtendedMiningChannelSuccess) (s : Sv1Server)
        (d : DownstreamData)
        → lookup m.request_id s.sv1_server_data.request_id_to_downstream_id ≡ some id
        → lookup id s.sv1_server_data.downstreams ≡ some d
        → HasChannel id m.channel_id m.extranonce_prefix
            (handle_open_success protocol first_target m s).1
    unfolding handle_open_success attach on_data attach_channel set_upstream_target
    success_attaches first_target id m s d asked known =
        let t = s.sv1_server_data in
        let s1 : Sv1Server = record s {
          sv1_server_data = write_downstream id (attach_channel m) (record t {
            request_id_to_downstream_id = remove m.request_id t.request_id_to_downstream_id;
          });
        } in
        let same : handle_open_success protocol first_target m s
            ≡ (process_queue protocol m.channel_id id d.queued_sv1_handshake_messages
                  >> announce m.channel_id first_target)
                s1 =
          rw (asked, handle_open_success, known, attach) refl in
        rw same (
          rest-Keeps id m.channel_id m.extranonce_prefix m.channel_id first_target
            d.queued_sv1_handshake_messages s1
            (attach_channel m d, lookup-write id (attach_channel m) d _ known, refl, refl))
