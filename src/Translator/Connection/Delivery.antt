-- ===== src/Translator/Connection/Delivery.antt =====
-- What a miner is sent for the server's messages, and when its target changes.
use mara_pool.Prelude.{
  ℕ, Bool, true, false, Option, none, some, ◌≡◌, refl, inl, inr, [], ◌∷◌, ◌++◌, Result, ok, err,
  done, arith, nat_eq, In, In-append_left, In-append_right, result_cases, ◌⊎◌, Bool-cases, ap,
}
use mara_pool.Translator.Core.{
  Sv1Core, NotificationMethod, Notify, Message, notification, standard_request, response,
  Notification, set_difficulty, notify, other_notification,
}
use mara_pool.Translator.State.{DownstreamData, Broadcast}
use mara_pool.Translator.Connection.Handlers.{
  Sv1Connection, send_to_miner, send_optional, write_data, apply_pending, cache_set_difficulty,
  deliver_notify, handle_notification, handle_other, handle_addressed, is_for_connection,
  handle_sv1_server_message, set_job_version,
}

method_cases :
    (m : NotificationMethod) → (m ≡ set_difficulty) ⊎ ((m ≡ notify) ⊎ (m ≡ other_notification))
method_cases set_difficulty = inl refl
method_cases notify = inr (inl refl)
method_cases other_notification = inr (inr refl)

module _ ⦃core : Sv1Core⦄ where
  open core use {notify_of, notify_message}

  -- Where a connection takes a broadcast.
  addressed :
      (b : Broadcast) (c : Sv1Connection)
      → is_for_connection b c.downstream_data ≡ true
      → handle_sv1_server_message b c ≡ handle_addressed c.downstream_data b.message c
  unfolding handle_sv1_server_message
  addressed b c h = rw (h, handle_sv1_server_message) refl

  -- A broadcast that is for another channel, or for another connection, changes nothing.
  pub other_broadcast :
      (b : Broadcast) (c : Sv1Connection)
      → is_for_connection b c.downstream_data ≡ false
      → handle_sv1_server_message b c ≡ (done tt, c)
  unfolding handle_sv1_server_message
  other_broadcast b c h = rw (h, handle_sv1_server_message) refl

  -- The miner's target stays, or the difficulty that was waiting is sent, or the miner is gone.
  abbrev pub KeepsTarget : Sv1Connection → Sv1Connection → Type 0
  KeepsTarget c c' =
      (c'.downstream_data.target ≡ c.downstream_data.target)
      ⊎ ((c.miner_open ≡ false)
          ⊎ ((m : Message) × (c.downstream_data.cached_set_difficulty ≡ some m) × In m c'.sent))

  send-KeepsData :
      (m : Message) (c : Sv1Connection) → (send_to_miner m c).1.downstream_data ≡ c.downstream_data
  unfolding send_to_miner
  send-KeepsData m c = ground arith

  optional-KeepsData :
      (o : Option Message) (c : Sv1Connection)
      → (send_optional o c).1.downstream_data ≡ c.downstream_data
  unfolding send_optional
  optional-KeepsData none c = refl
  optional-KeepsData (some m) c = send-KeepsData m c

  first_sent :
      (m : Message) (n : Notify) (c : Sv1Connection)
      → c.miner_open ≡ true
      → In m (deliver_notify (some m) (ok n) c).1.sent
  unfolding deliver_notify write_data send_to_miner
  first_sent m n c takes =
      rw (takes, send_to_miner, deliver_notify)
        (In-append_left m (c.sent ++ m ∷ []) _ (In-append_right m c.sent (m ∷ []) (inl refl)))

  deliver-KeepsTarget :
      (r : Result ℕ Notify) (c : Sv1Connection) (o : Option Message)
      → c.downstream_data.cached_set_difficulty ≡ o
      → KeepsTarget c (deliver_notify o r c).1
  unfolding deliver_notify write_data apply_pending
  deliver-KeepsTarget (err e) c o h = inl (
      ap (λ d. d.target)
        (optional-KeepsData o (record c {
          downstream_data = record (c.downstream_data) { cached_set_difficulty = none };
        })))
  deliver-KeepsTarget (ok n) c none h = inl (
      ap (λ d. d.target)
        (send-KeepsData (notify_message n) (record c {
          downstream_data =
              set_job_version n (record (c.downstream_data) { cached_set_difficulty = none });
        })))
  deliver-KeepsTarget (ok n) c (some m) h = elim (Bool-cases c.miner_open) [
    | inr gone ↦ inr (inl gone)
    | inl takes ↦ inr (inr (m, h, first_sent m n c takes))
  ]

  notification-KeepsTarget :
      (complete : Bool) (n : Notification) (c : Sv1Connection)
      → KeepsTarget c (handle_notification complete n c).1
  unfolding handle_notification write_data cache_set_difficulty
  notification-KeepsTarget true n c = elim (method_cases n.method) [
    | inl is_set ↦ inl (ground (arith, is_set))
    | inr (inl is_notify) ↦
        rw (is_notify, handle_notification)
          (deliver-KeepsTarget (notify_of n) c c.downstream_data.cached_set_difficulty refl)
    | inr (inr is_other) ↦ inl (ground (arith, is_other, send-KeepsData (notification n) c))
  ]
  notification-KeepsTarget false n c =
      inl (ground (arith, method_cases n.method, result_cases (notify_of n)))

  other-KeepsTarget :
      (processing : Bool) (m : Message) (c : Sv1Connection)
      → KeepsTarget c (handle_other processing m c).1
  unfolding handle_other
  other-KeepsTarget true m c = inl (ap (λ d. d.target) (send-KeepsData m c))
  other-KeepsTarget false m c = inl refl

  addressed-KeepsTarget :
      (d : DownstreamData) (m : Message) (c : Sv1Connection)
      → KeepsTarget c (handle_addressed d m c).1
  unfolding handle_addressed
  addressed-KeepsTarget d (notification n) c = notification-KeepsTarget d.sv1_handshake_complete n c
  addressed-KeepsTarget d (standard_request r) c =
      other-KeepsTarget d.processing_queued_sv1_handshake_responses (standard_request r) c
  addressed-KeepsTarget d (response b) c =
      other-KeepsTarget d.processing_queued_sv1_handshake_responses (response b) c

  -- For a broadcast of the server the target of the connection changes only together with the
  -- difficulty that was waiting being sent to the miner, unless the miner's queue is closed.
  pub target_with_difficulty :
      (b : Broadcast) (c : Sv1Connection)
      → let c' = (handle_sv1_server_message b c).1 in
        (c'.downstream_data.target ≡ c.downstream_data.target)
        ⊎ ((c.miner_open ≡ false)
            ⊎ ((m : Message) × (c.downstream_data.cached_set_difficulty ≡ some m) × In m c'.sent))
  unfolding handle_sv1_server_message
  target_with_difficulty b c = elim (Bool-cases (is_for_connection b c.downstream_data)) [
    | inl mine ↦ rw (addressed b c mine) (addressed-KeepsTarget c.downstream_data b.message c)
    | inr other ↦ inl (ap (λ r. r.1.downstream_data.target) (other_broadcast b c other))
  ]

  -- Where a notification waits.
  abbrev pub WaitsIn : NotificationMethod → Message → Sv1Connection → Sv1Connection → Type 0
  WaitsIn set_difficulty m c c' = c'.downstream_data.cached_set_difficulty ≡ some m
  WaitsIn notify m c c' = c'.downstream_data.cached_notify ≡ some m
  WaitsIn other_notification m c c' = c' ≡ c

  -- Before the handshake is finished no notification of the server reaches the miner. A
  -- `mining.set_difficulty` or `mining.notify` is cached, and any other changes nothing.
  pub silent_before_handshake :
      (b : Broadcast) (n : Notification) (c : Sv1Connection)
      → b.message ≡ notification n
      → c.downstream_data.sv1_handshake_complete ≡ false
      → is_for_connection b c.downstream_data ≡ true
      → let (r, c') = handle_sv1_server_message b c in
        (c'.sent ≡ c.sent) × WaitsIn n.method b.message c c'
  unfolding handle_sv1_server_message handle_addressed handle_notification write_data
      cache_set_difficulty
  silent_before_handshake b n c kind early mine = elim (method_cases n.method) [
    | inl is_set ↦ ground (arith, kind, early, mine, is_set)
    | inr (inl is_notify) ↦ ground (arith, kind, early, mine, is_notify, result_cases (notify_of n))
    | inr (inr is_other) ↦ ground (arith, kind, early, mine, is_other)
  ]
