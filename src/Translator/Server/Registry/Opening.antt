-- ===== src/Translator/Server/Registry/Opening.antt =====
-- The opening of channels.
use mara_pool.Prelude.{
  ℕ, Option, none, some, refl, inl, inr, List, [], ◌∷◌, Result, ok, err, arith, nat_eq,
  Option-cases, Bool-cases, Keeps, resume, resume-Keeps, >>=-Keeps, modify, act, expect, expect_ok,
  or_fail, ◌>>◌, some_or_fail,
}
use mara_pool.Prelude.Map.{lookup}
use mara_pool.Prelude.Bits.{next_u32}
use mara_pool.Stratum.{OpenExtendedMiningChannelSuccess}
use mara_pool.Translator.Core.{Sv1Core, Message}
use mara_pool.Translator.State.{
  TproxyError, general, downstream_not_found, DownstreamData, Sv1ServerData, Sv1Server, ToUpstream,
  TranslatorConfig,
}
use mara_pool.Translator.Difficulty.{write_downstream, on_data}
use mara_pool.Translator.Connection.{Sv1Protocol}
use mara_pool.Translator.Server.Opening.{
  hand_upstream, broadcast_to, requested_target, set_identity, store_initial_target, send_open,
  open_extended_channel, miner_name, new_request, open_for, handle_open_channel_request,
  attach_channel, start_processing, answer_queued, handle_on, process_queued, process_queue, attach,
  handle_open_success,
}
use mara_pool.Translator.Server.Registry.{
  IsPaired, Paired, IsPaired-same, write-IsPaired, on_data-Keeps,
}

module _ ⦃core : Sv1Core⦄ where
  open core use {
    build_set_difficulty, build_open_channel, build_submit_shares, user_identity_tlv,
    OpenExtendedMiningChannel, build_notify,
  }

  pub hand-Keeps : (m : ToUpstream) → Keeps Paired (hand_upstream m)
  unfolding hand_upstream
  hand-Keeps m s h = elim (Bool-cases s.upstream_open) [
    | inl takes ↦ rw (takes, hand_upstream) h
    | inr gone ↦ rw (gone, hand_upstream) h
  ]

  broadcast-Keeps : (c : ℕ) (who : Option ℕ) (m : Message) → Keeps Paired (broadcast_to c who m)
  unfolding broadcast_to
  broadcast-Keeps c who m s h = elim (Bool-cases s.has_receivers) [
    | inl takes ↦ rw (takes, broadcast_to) h
    | inr gone ↦ rw (gone, broadcast_to) h
  ]

  -- A write to one connection.
  write-Keeps :
      (id : ℕ) (f : DownstreamData → DownstreamData)
      → Keeps Paired (on_data (modify (write_downstream id f)))
  write-Keeps id f = on_data-Keeps (modify (write_downstream id f)) (write-IsPaired id f)

  pub expect_ok-Keeps :
      {D A : Type 0} (r : Result D A) → Keeps Paired (expect_ok {S = Sv1Server} {E = TproxyError} r)
  expect_ok-Keeps (ok a) s h = h
  expect_ok-Keeps (err d) s h = h

  pub or_fail-Keeps :
      {D A : Type 0} (f : D → TproxyError) (r : Result D A)
      → Keeps Paired (or_fail {S = Sv1Server} f r)
  or_fail-Keeps f (ok a) s h = h
  or_fail-Keeps f (err d) s h = h

  pub expect-Keeps :
      {A : Type 0} (o : Option A) → Keeps Paired (expect {S = Sv1Server} {E = TproxyError} o)
  expect-Keeps (some a) s h = h
  expect-Keeps none s h = h

  send_open-Keeps : (r : Result ℕ OpenExtendedMiningChannel) → Keeps Paired (send_open r)
  unfolding send_open
  send_open-Keeps (ok m) s h = hand-Keeps _ s h
  send_open-Keeps (err e) s h = h

  initial-IsPaired :
      (target : ℕ) (s : Sv1ServerData) → IsPaired s → IsPaired (store_initial_target target s)
  unfolding store_initial_target
  initial-IsPaired target s h =
      IsPaired-same s (store_initial_target target s)
        (λ e. ground (arith, Option-cases s.initial_target))
        (λ e. ground (arith, Option-cases s.initial_target)) h

  open-Keeps :
      (config : TranslatorConfig) (rid id : ℕ) → Keeps Paired (open_extended_channel config rid id)
  unfolding open_extended_channel on_data
  open-Keeps config rid id s h =
      resume-Keeps Paired (expect_ok (requested_target config) s) _
        (expect_ok-Keeps (requested_target config) s h)
        (λ target k p. send_open-Keeps _ _ (
          write-IsPaired id
            (set_identity (miner_name config.user_identity (next_u32 k.miner_counter)))
            (store_initial_target target k.sv1_server_data)
            (initial-IsPaired target k.sv1_server_data p)))

  open_for-Keeps :
      (config : TranslatorConfig) (rid id : ℕ) (o : Option DownstreamData)
      → Keeps Paired (open_for config rid id o)
  unfolding open_for
  open_for-Keeps config rid id none s h = h
  open_for-Keeps config rid id (some d) s h = open-Keeps config rid id s h

  pub open_request-Keeps :
      (config : TranslatorConfig) (id : ℕ) → Keeps Paired (handle_open_channel_request config id)
  unfolding handle_open_channel_request on_data new_request
  open_request-Keeps config id s h =
      open_for-Keeps config _ id (lookup id s.sv1_server_data.downstreams) _
        (IsPaired-same s.sv1_server_data _ (λ e. refl) (λ e. refl) h)

  module _ (protocol : Sv1Protocol) where
    answer-Keeps :
        (c id : ℕ) (r : Result ℕ (Option Message)) → Keeps Paired (answer_queued protocol c id r)
    unfolding answer_queued
    answer-Keeps c id (ok (some m)) s h = broadcast-Keeps c (some id) m s h
    answer-Keeps c id (ok none) s h = h
    answer-Keeps c id (err e) s h = h

    handle_on-IsPaired :
        (id : ℕ) (m : Message) (o : Option DownstreamData) (s : Sv1ServerData)
        → IsPaired s
        → IsPaired (handle_on protocol id m o s).1
    unfolding handle_on
    handle_on-IsPaired id m none s h = h
    handle_on-IsPaired id m (some d) s h =
        write-IsPaired id (λ _. (protocol.handle_message s m d).1) s h

    queued-Keeps : (c id : ℕ) (ms : List Message) → Keeps Paired (process_queued protocol c id ms)
    unfolding process_queued
    queued-Keeps c id [] s h = h
    queued-Keeps c id (m ∷ ms) s h =
        resume-Keeps Paired
          (on_data (act (λ t. handle_on protocol id m (lookup id t.downstreams) t)) s)
          (λ r. answer_queued protocol c id r >> process_queued protocol c id ms)
          (on_data-Keeps (act (λ t. handle_on protocol id m (lookup id t.downstreams) t))
            (λ t p. handle_on-IsPaired id m (lookup id t.downstreams) t p) s h)
          (λ r.
            >>=-Keeps Paired (answer_queued protocol c id r) (λ _. process_queued protocol c id ms)
              (answer-Keeps c id r) (λ _. queued-Keeps c id ms))

    queue-Keeps : (c id : ℕ) (ms : List Message) → Keeps Paired (process_queue protocol c id ms)
    unfolding process_queue
    queue-Keeps c id [] s h = h
    queue-Keeps c id (m ∷ ms) s h =
        >>=-Keeps Paired (on_data (modify (write_downstream id start_processing)))
          (λ _. process_queued protocol c id (m ∷ ms)) (write-Keeps id start_processing)
          (λ _. queued-Keeps c id (m ∷ ms)) s h

    attach-Keeps :
        (first_target : ℕ) (m : OpenExtendedMiningChannelSuccess) (id : ℕ)
        (o : Option DownstreamData)
        → Keeps Paired (attach protocol first_target m id o)
    unfolding attach
    attach-Keeps first_target m id none s h = h
    attach-Keeps first_target m id (some d) s h =
        >>=-Keeps Paired (on_data (modify (write_downstream id (attach_channel m)))) _
          (write-Keeps id (attach_channel m))
          (λ _.
            >>=-Keeps Paired
              (process_queue protocol m.channel_id id d.queued_sv1_handshake_messages) _
              (queue-Keeps m.channel_id id d.queued_sv1_handshake_messages)
              (λ _.
                >>=-Keeps Paired (or_fail (λ e. general) (build_set_difficulty first_target)) _
                  (or_fail-Keeps (λ e. general) (build_set_difficulty first_target))
                  (λ message. broadcast-Keeps m.channel_id none message)))
          s h

    attach_known-Keeps :
        (first_target : ℕ) (m : OpenExtendedMiningChannelSuccess) (o : Option ℕ) (s : Sv1Server)
        → Paired s
        → Paired
            (resume (some_or_fail (downstream_not_found m.request_id) o s) (λ id k.
              attach protocol first_target m id (lookup id k.sv1_server_data.downstreams) k)).1
    attach_known-Keeps first_target m none s h = h
    attach_known-Keeps first_target m (some id) s h =
        attach-Keeps first_target m id (lookup id s.sv1_server_data.downstreams) s h

    pub success-Keeps :
        (first_target : ℕ) (m : OpenExtendedMiningChannelSuccess)
        → Keeps Paired (handle_open_success protocol first_target m)
    unfolding handle_open_success on_data
    success-Keeps first_target m s h =
        attach_known-Keeps first_target m
          (lookup m.request_id s.sv1_server_data.request_id_to_downstream_id) _
          (IsPaired-same s.sv1_server_data _ (λ e. refl) (λ e. refl) h)
