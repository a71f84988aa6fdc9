-- ===== src/Pool/Connection/Setup.antt =====
-- What a connection's own handlers leave of its channels.
use mara_pool.Prelude.{
  ℕ, Bool, true, false, ◌≡◌, refl, inl, inr, List, Result, ok, err, Keeps, >>=-Keeps, or_fail, pure,
  fail, if◌then◌else◌, Bool-cases, result_cases,
}
use mara_pool.Stratum.{StratumCore}
use mara_pool.Pool.Error.{PoolError, channel_send, client_does_not_support_required_extensions}
use mara_pool.Pool.Connection.{
  Reply, setup_connection_success, request_extensions_error, request_extensions_success, Connection,
  RequestExtensions, ClientSetup, setup_connection, request_extensions, is_empty, common, unknown,
  should_send_error, send, handle_setup_connection, refuse_extensions, accept_extensions,
  handle_request_extensions, handle_client_setup,
}
use mara_pool.Pool.Sync.Frame.{has_channel}

module _ ⦃core : StratumCore⦄ (encode : Reply → Result ℕ (Unit {0})) where
  open core use {seq064k}

  -- The channel is as open as the flag says.
  abbrev Opens : ℕ → Bool → Connection → Type 0
  Opens k b c = has_channel c.downstream.downstream_data k ≡ b

  send-Keeps : (k : ℕ) (b : Bool) (e : PoolError) (r : Reply) → Keeps (Opens k b) (send encode e r)
  unfolding send
  send-Keeps k b e r c h = elim (result_cases (encode r)) [
    | inr (x, bad) ↦ rw (bad, send) h
    | inl (u, good) ↦ elim (Bool-cases c.queue_open) [
      | inl open_one ↦ rw (good, send, open_one) h
      | inr closed ↦ rw (good, send, closed) h
    ]
  ]

  or_fail-Keeps :
      {D A : Type 0} (k : ℕ) (b : Bool) (f : D → PoolError) (r : Result D A)
      → Keeps (Opens k b) (or_fail {S = Connection} f r)
  or_fail-Keeps k b f (ok a) c h = h
  or_fail-Keeps k b f (err d) c h = h

  refuse-Keeps :
      (k : ℕ) (b : Bool) (id : ℕ) (xs ys : List ℕ)
      → Keeps (Opens k b) (refuse_extensions encode id xs ys)
  unfolding refuse_extensions
  refuse-Keeps k b id xs ys =
      >>=-Keeps (Opens k b) (or_fail _ (seq064k xs)) _ (or_fail-Keeps k b _ (seq064k xs)) (λ us.
        >>=-Keeps (Opens k b) (or_fail _ (seq064k ys)) _ (or_fail-Keeps k b _ (seq064k ys)) (λ rs.
          >>=-Keeps (Opens k b) (send encode channel_send (request_extensions_error id us rs)) _
            (send-Keeps k b channel_send (request_extensions_error id us rs))
            (λ _. ended (is_empty ys))))
    where
      ended :
          (z : Bool)
          → Keeps
              (Opens k b)
              (if z then pure tt else fail (client_does_not_support_required_extensions ys))
      ended true c h = h
      ended false c h = h

  accept-Keeps :
      (k : ℕ) (b : Bool) (id : ℕ) (xs : List ℕ) → Keeps (Opens k b) (accept_extensions encode id xs)
  unfolding accept_extensions
  accept-Keeps k b id xs c h =
      >>=-Keeps (Opens k b) (or_fail _ (seq064k xs)) _ (or_fail-Keeps k b _ (seq064k xs))
        (λ us. send-Keeps k b channel_send (request_extensions_success id us)) _ h

  request-Keeps :
      (k : ℕ) (b : Bool) (msg : RequestExtensions)
      → Keeps (Opens k b) (handle_request_extensions encode msg)
  unfolding handle_request_extensions
  request-Keeps k b msg c h =
      let ds = c.downstream in
      let asked = msg.requested_extensions in
      let missing = unknown asked ds.required_extensions in
      elim (Bool-cases (should_send_error ds.supported_extensions ds.required_extensions asked)) [
        | inl bad ↦
            rw (bad)
              (refuse-Keeps k b msg.request_id (unknown ds.supported_extensions asked) missing c h)
        | inr fine ↦
            rw (fine) (accept-Keeps k b msg.request_id (common ds.supported_extensions asked) c h)
      ]

  -- The messages that a connection handles itself open and close no channel.
  pub client_setup_channels :
      (msg : ClientSetup) (c : Connection) (k : ℕ)
      → has_channel (handle_client_setup encode msg c).1.downstream.downstream_data k
        ≡ has_channel c.downstream.downstream_data k
  unfolding handle_client_setup handle_setup_connection
  client_setup_channels (setup_connection flags) c k =
      send-Keeps k (has_channel c.downstream.downstream_data k) channel_send
        (setup_connection_success 2 flags) _ refl
  client_setup_channels (request_extensions msg) c k =
      request-Keeps k (has_channel c.downstream.downstream_data k) msg c refl
