-- ===== src/Translator/Connection/Forwarding.antt =====
-- What a connection hands to the server in one step.
use mathlib.Core.Path.{subst}
use mara_pool.Prelude.{
  ℕ, Bool, true, false, Option, none, some, ◌≡◌, refl, inl, inr, List, [], ◌∷◌, ◌++◌, Result, ok,
  err, Outcome, done, failed, panicked, arith, if◌then◌else◌, Handler, ◌>>◌, resume, In, In-append,
  outcome_cases, ◌⊎◌, ◌∙◌,
}
use mara_pool.Translator.Core.{Sv1Core, Message}
use mara_pool.Translator.State.{
  TproxyError, SubmitShareWithChannelId, DownstreamMessages, submit_shares, open_channel,
}
use mara_pool.Translator.Connection.Handlers.{
  Sv1Connection, send_to_miner, send_to_server, write_data, answer_miner, send_pending_share,
  forward_pending, queue_by, queue_message, handle_sv1_handshake_completion, send_cached,
  send_optional, apply_pending,
}

module _ ⦃core : Sv1Core⦄ where
  -- Neither what was handed to the server nor the share that waits.
  abbrev pub KeepsShares : Sv1Connection → Sv1Connection → Type 0
  KeepsShares k k' =
      (k'.to_server ≡ k.to_server)
      × (k'.downstream_data.pending_share ≡ k.downstream_data.pending_share)

  KeepsShares-trans : (a b c : Sv1Connection) → KeepsShares a b → KeepsShares b c → KeepsShares a c
  KeepsShares-trans a b c h k = (k.0 ∙ h.0, k.1 ∙ h.1)

  send-KeepsShares : (m : Message) (k : Sv1Connection) → KeepsShares k (send_to_miner m k).1
  unfolding send_to_miner
  send-KeepsShares m k = ground arith

  optional-KeepsShares :
      (o : Option Message) (k : Sv1Connection) → KeepsShares k (send_optional o k).1
  unfolding send_optional
  optional-KeepsShares none k = (refl, refl)
  optional-KeepsShares (some m) k = send-KeepsShares m k

  -- Two steps, of which the second runs where the first did not fail.
  resume-KeepsShares :
      (k : Sv1Connection) (r : Outcome TproxyError (Unit {0}) × Sv1Connection)
      (f : Handler Sv1Connection TproxyError (Unit {0}))
      → KeepsShares k r.1
      → ((e : Sv1Connection) → KeepsShares e (f e).1)
      → KeepsShares k (resume r (λ _. f)).1
  resume-KeepsShares k (done u, e) f h step = KeepsShares-trans k e (f e).1 h (step e)
  resume-KeepsShares k (failed x, e) f h step = h
  resume-KeepsShares k (panicked, e) f h step = h

  cached-KeepsShares :
      (o o' : Option Message) (k : Sv1Connection) → KeepsShares k (send_cached o o' k).1
  unfolding send_cached write_data apply_pending
  cached-KeepsShares none o' k = optional-KeepsShares o' k
  cached-KeepsShares (some m) o' k =
      resume-KeepsShares k (send_to_miner m k) (write_data apply_pending >> send_optional o')
        (send-KeepsShares m k) (λ e. optional-KeepsShares o' _)

  pub answer-KeepsShares :
      (authorizes : Bool) (r : Result ℕ (Option Message)) (k : Sv1Connection)
      → KeepsShares k (answer_miner authorizes r k).1
  unfolding answer_miner handle_sv1_handshake_completion write_data
  answer-KeepsShares a (err e) k = (refl, refl)
  answer-KeepsShares a (ok none) k = (refl, refl)
  answer-KeepsShares false (ok (some m)) k = send-KeepsShares m k
  answer-KeepsShares true (ok (some m)) k =
      resume-KeepsShares k (send_to_miner m k) handle_sv1_handshake_completion
        (send-KeepsShares m k)
        (λ e.
          cached-KeepsShares e.downstream_data.cached_set_difficulty e.downstream_data.cached_notify
            _)

  -- What is handed to the server in one send.
  server_sends :
      (x m : DownstreamMessages) (k : Sv1Connection)
      → In x (send_to_server m k).1.to_server
      → In x k.to_server ⊎ (x ≡ m)
  unfolding send_to_server
  server_sends x m k at = by_queue k.server_open (subst (λ xs. In x xs) queue at)
    where
      queue :
          (send_to_server m k).1.to_server
          ≡ (if k.server_open then k.to_server ++ m ∷ [] else k.to_server)
      queue = ground arith

      by_queue :
          (b : Bool)
          → In x (if b then k.to_server ++ m ∷ [] else k.to_server)
          → In x k.to_server ⊎ (x ≡ m)
      by_queue false at = inl at
      by_queue true at = elim (In-append x k.to_server (m ∷ []) at) [
        | inl old ↦ inl old
        | inr (inl same) ↦ inr same
        | inr (inr none_left) ↦ elim none_left [ ]
      ]

  pending_forwarded :
      (o : Option SubmitShareWithChannelId) (k : Sv1Connection) (share : SubmitShareWithChannelId)
      → In (submit_shares share) (forward_pending o k).1.to_server
      → In (submit_shares share) k.to_server ⊎ (o ≡ some share)
  unfolding forward_pending
  pending_forwarded none k share at = inl at
  pending_forwarded (some w) k share at =
      elim (server_sends (submit_shares share) (submit_shares w) k at) [
        | inl old ↦ inl old
        | inr same ↦ inr (ground (arith, same))
      ]

  -- The messages that are queued bring no share.
  pub queued_no_share :
      (qs : List Message) (m : Message) (k : Sv1Connection) (share : SubmitShareWithChannelId)
      → In (submit_shares share) (queue_by qs m k).1.to_server
      → In (submit_shares share) k.to_server
  unfolding queue_by queue_message write_data
  queued_no_share (q ∷ qs) m k share at = at
  queued_no_share [] m k share at =
      let sent = send_to_server (open_channel k.downstream_data.downstream_id) k in
      let same : (queue_by [] m k).1.to_server ≡ sent.1.to_server =
        ground (arith, outcome_cases sent.0) in
      elim (server_sends _ _ k (subst (λ xs. In (submit_shares share) xs) same at)) [
        | inl old ↦ old
        | inr impossible ↦ ground (arith, impossible)
      ]

  -- The share that waits is the only one that is handed over.
  pub forwarded :
      (r : Outcome TproxyError (Unit {0}) × Sv1Connection) (share : SubmitShareWithChannelId)
      → In (submit_shares share) (resume r (λ _. send_pending_share)).1.to_server
      → In (submit_shares share) r.1.to_server ⊎ (r.1.downstream_data.pending_share ≡ some share)
  unfolding send_pending_share forward_pending send_to_server write_data
  forwarded (failed x, k) share at = inl at
  forwarded (panicked, k) share at = inl at
  forwarded (done u, k) share at = pending_forwarded k.downstream_data.pending_share _ share at
