-- ===== src/Translator/Connection/Handlers.antt =====
-- sv1/downstream/downstream.rs: the two sides of the connection's loop.
use mara_pool.Prelude.{
  ℕ, Bool, true, false, ◌&&◌, ◌||◌, Option, none, some, List, [], ◌∷◌, ◌++◌, Result, ok, err,
  if◌then◌else◌, ◌==◌, nat_eq, Handler, pure, fail, gets, modify, expect_ok, ◌>>=◌, ◌>>◌,
}
use mara_pool.Prelude.Map.{is_some}
use mara_pool.Translator.Core.{
  Sv1Core, Notify, Message, standard_request, notification, response, Notification, set_difficulty,
  notify, other_notification, authorize, other_request,
}
use mara_pool.Translator.State.{
  TproxyError, channel_error_sender, sv1_error, SubmitShareWithChannelId, DownstreamMessages,
  submit_shares, open_channel, DownstreamData, Sv1ServerData, Broadcast,
}
use mara_pool.Translator.Difficulty.{or_else, is_channel}
use mara_pool.Translator.Connection.Methods.{Sv1Protocol}

module _ ⦃core : Sv1Core⦄ where
  open core use {notify_of, notify_message}

  -- The data, what was sent to the miner and handed to the server, oldest first, and whether the two
  -- queues take more.
  pub record Sv1Connection : Type 0 where
    pub downstream_data : DownstreamData
    pub sent : List Message
    pub to_server : List DownstreamMessages
    pub miner_open : Bool
    pub server_open : Bool

  unfoldable pub send_to_miner : Message → Handler Sv1Connection TproxyError (Unit {0})
  send_to_miner m c =
      if c.miner_open
      then (modify (λ k. record k { sent = k.sent ++ m ∷ [] })) c
      else fail channel_error_sender c

  unfoldable pub send_to_server : DownstreamMessages → Handler Sv1Connection TproxyError (Unit {0})
  send_to_server m c =
      if c.server_open
      then (modify (λ k. record k { to_server = k.to_server ++ m ∷ [] })) c
      else fail channel_error_sender c

  unfoldable pub send_optional : Option Message → Handler Sv1Connection TproxyError (Unit {0})
  send_optional none = pure tt
  send_optional (some m) = send_to_miner m

  unfoldable pub write_data :
      (DownstreamData → DownstreamData) → Handler Sv1Connection TproxyError (Unit {0})
  write_data f = modify (λ c. record c { downstream_data = f c.downstream_data })

  -- The pending target and hash rate become the miner's.
  unfoldable pub apply_pending : DownstreamData → DownstreamData
  apply_pending d = record d {
    target = or_else d.pending_target d.target;
    pending_target = none;
    hashrate = elim d.pending_hashrate [ none ↦ d.hashrate | some h ↦ some h ];
    pending_hashrate = none;
  }

  unfoldable pub cache_set_difficulty : Message → DownstreamData → DownstreamData
  cache_set_difficulty m d = record d { cached_set_difficulty = some m }

  abbrev pub set_job_version : Notify → DownstreamData → DownstreamData
  set_job_version n d = record d { last_job_version_field = some n.version }

  -- `mining.notify` for a miner that has finished its handshake: what is sent, by the difficulty that
  -- was waiting and the parsed notification.
  unfoldable pub deliver_notify :
      Option Message → Result ℕ Notify → Handler Sv1Connection TproxyError (Unit {0})
  deliver_notify cached (err e) = do
    write_data (λ d. record d { cached_set_difficulty = none })
    send_optional cached
  deliver_notify none (ok n) = do
    write_data (λ d. set_job_version n (record d { cached_set_difficulty = none }))
    send_to_miner (notify_message n)
  deliver_notify (some m) (ok n) = do
    write_data (λ d. apply_pending (set_job_version n (record d { cached_set_difficulty = none })))
    send_to_miner m
    send_to_miner (notify_message (record n { clean_jobs = true }))

  unfoldable pub handle_notification :
      Bool → Notification → Handler Sv1Connection TproxyError (Unit {0})
  handle_notification true n = elim n.method [
    | set_difficulty ↦ write_data (cache_set_difficulty (notification n))
    | notify ↦ do
      cached ← gets (λ c. c.downstream_data.cached_set_difficulty)
      deliver_notify cached (notify_of n)
    | other_notification ↦ send_to_miner (notification n)
  ]
  handle_notification false n = elim n.method [
    | set_difficulty ↦ write_data (cache_set_difficulty (notification n))
    | notify ↦ do
      write_data (λ d. record d { cached_notify = some (notification n) })
      parsed ← expect_ok (notify_of n)
      write_data (set_job_version parsed)
    | other_notification ↦ pure tt
  ]

  -- A message that is not a notification.
  unfoldable pub handle_other : Bool → Message → Handler Sv1Connection TproxyError (Unit {0})
  handle_other true m = send_to_miner m
  handle_other false m = pure tt

  unfoldable pub handle_addressed :
      DownstreamData → Message → Handler Sv1Connection TproxyError (Unit {0})
  handle_addressed d (notification n) = handle_notification d.sv1_handshake_complete n
  handle_addressed d (standard_request r) =
      handle_other d.processing_queued_sv1_handshake_responses (standard_request r)
  handle_addressed d (response b) =
      handle_other d.processing_queued_sv1_handshake_responses (response b)

  -- `id_matches`.
  abbrev pub is_for_connection : Broadcast → DownstreamData → Bool
  is_for_connection b d =
      (is_channel d.channel_id b.channel_id || b.channel_id == 0)
      && elim b.downstream_id [ none ↦ true | some id ↦ id == d.downstream_id ]

  unfoldable pub handle_sv1_server_message :
      Broadcast → Handler Sv1Connection TproxyError (Unit {0})
  handle_sv1_server_message b = do
    d ← gets (λ c. c.downstream_data)
    if is_for_connection b d then handle_addressed d b.message else pure tt

  -- The messages that wait for the end of the handshake.
  unfoldable pub send_cached :
      Option Message → Option Message → Handler Sv1Connection TproxyError (Unit {0})
  send_cached none notify_msg = send_optional notify_msg
  send_cached (some m) notify_msg = do
    send_to_miner m
    write_data apply_pending
    send_optional notify_msg

  unfoldable pub handle_sv1_handshake_completion : Handler Sv1Connection TproxyError (Unit {0})
  handle_sv1_handshake_completion = do
    d ← gets (λ c. c.downstream_data)
    write_data (λ e. record e {
      sv1_handshake_complete = true;
      cached_set_difficulty = none;
      cached_notify = none;
    })
    send_cached d.cached_set_difficulty d.cached_notify

  -- The share that `handle_submit` stored, if any.
  unfoldable pub forward_pending :
      Option SubmitShareWithChannelId → Handler Sv1Connection TproxyError (Unit {0})
  forward_pending none = pure tt
  forward_pending (some share) = send_to_server (submit_shares share)

  unfoldable pub send_pending_share : Handler Sv1Connection TproxyError (Unit {0})
  send_pending_share = do
    share ← gets (λ c. c.downstream_data.pending_share)
    write_data (λ d. record d { pending_share = none })
    forward_pending share

  -- Whether the message is `mining.authorize`.
  abbrev pub is_authorize : Message → Bool
  is_authorize (standard_request r) = elim r.method [ authorize ↦ true | other_request ↦ false ]
  is_authorize (notification n) = false
  is_authorize (response b) = false

  unfoldable pub answer_miner :
      Bool → Result ℕ (Option Message) → Handler Sv1Connection TproxyError (Unit {0})
  answer_miner authorizes (err e) = fail sv1_error
  answer_miner authorizes (ok none) = pure tt
  answer_miner false (ok (some m)) = send_to_miner m
  answer_miner true (ok (some m)) = do send_to_miner m; handle_sv1_handshake_completion

  -- Before the channel is open.
  unfoldable pub queue_message : Message → Handler Sv1Connection TproxyError (Unit {0})
  queue_message m =
      write_data (λ d. record d {
        queued_sv1_handshake_messages = d.queued_sv1_handshake_messages ++ m ∷ [];
      })

  unfoldable pub queue_by : List Message → Message → Handler Sv1Connection TproxyError (Unit {0})
  queue_by [] m = do
    id ← gets (λ c. c.downstream_data.downstream_id)
    send_to_server (open_channel id)
    queue_message m
  queue_by (q ∷ qs) m = queue_message m

  module _ (protocol : Sv1Protocol) where
    open protocol use {handle_message}

    unfoldable pub process_message :
        Sv1ServerData → Message → Handler Sv1Connection TproxyError (Result ℕ (Option Message))
    process_message s m c =
        let (r, d) = handle_message s m c.downstream_data in
        (modify (λ k. record k { downstream_data = d }) >> pure r) c

    -- By whether the channel is open.
    unfoldable pub established :
        Message → Sv1ServerData → Bool → List Message → Handler Sv1Connection TproxyError (Unit {0})
    established m s false queued = queue_by queued m
    established m s true queued = do
      r ← process_message s m
      answer_miner (is_authorize m) r
      send_pending_share

    -- `handle_downstream_message`; the server's data is read while a share is validated.
    unfoldable pub handle_downstream_message :
        Sv1ServerData → Message → Handler Sv1Connection TproxyError (Unit {0})
    handle_downstream_message s m = do
      d ← gets (λ c. c.downstream_data)
      established m s (is_some d.channel_id) d.queued_sv1_handshake_messages
