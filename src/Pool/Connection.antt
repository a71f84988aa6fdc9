-- ===== src/Pool/Connection.antt =====
-- downstream/mod.rs, common_message_handler.rs and extensions_message_handler.rs: one connection.
pub mod Negotiation
pub mod Broadcast
pub mod Setup
use mara_pool.Prelude.{
  ℕ, Bool, true, false, not, ◌||◌, Option, none, some, List, [], ◌∷◌, ◌++◌, Result, Handler, pure,
  fail, gets, modify, or_fail, ◌>>=◌, ◌>>◌, if◌then◌else◌, nat_eq, ◌==◌, member,
}
use mara_pool.Stratum.{StratumCore, Mining}
use mara_pool.Pool.Error.{
  PoolError, channel_send, noise_expected_incoming_handshake_message, parser,
  invalid_unsupported_extensions_sequence, invalid_required_extensions_sequence,
  invalid_supported_extensions_sequence, client_does_not_support_required_extensions,
}
use mara_pool.Pool.State.{Downstream, PoolSettings}

-- `RequestExtensions`.
pub record RequestExtensions : Type 0 where
  pub request_id : ℕ
  pub requested_extensions : List ℕ

-- The messages that a connection handles itself, by writing to its shared data.
pub data ClientSetup : Type 0 where
  setup_connection : (flags : ℕ) → ClientSetup
  request_extensions : RequestExtensions → ClientSetup

unfoldable pub is_empty {ℓ} : {A : Type ℓ} → List A → Bool
is_empty [] = true
is_empty (x ∷ xs) = false

-- The extensions of a list that are, and that are not, in another.
unfoldable pub common : List ℕ → List ℕ → List ℕ
common known [] = []
common known (x ∷ xs) = let rest = common known xs in if member x known then x ∷ rest else rest

unfoldable pub unknown : List ℕ → List ℕ → List ℕ
unknown known [] = []
unknown known (x ∷ xs) = let rest = unknown known xs in if member x known then rest else x ∷ rest

-- `supported.is_empty() || !missing_required.is_empty()`.
unfoldable pub should_send_error : List ℕ → List ℕ → List ℕ → Bool
should_send_error supported required requested =
    is_empty (common supported requested) || not (is_empty (unknown requested required))

module _ ⦃core : StratumCore⦄ where
  open core use {has_work_selection, has_requires_std_job, seq064k}

  pub data Reply : Type 0 where
    setup_connection_success : (used_version flags : ℕ) → Reply
    request_extensions_error :
        (request_id : ℕ) (unsupported_extensions required_extensions : List ℕ) → Reply
    request_extensions_success : (request_id : ℕ) (supported_extensions : List ℕ) → Reply
    mining : Mining → Reply

  -- A connection with the frames that went to its queue, and whether the queue takes more.
  pub record Connection : Type 0 where
    pub downstream : Downstream
    pub sent : List Reply
    pub queue_open : Bool

  -- `Downstream::new`.
  unfoldable pub new_downstream : PoolSettings → Downstream
  new_downstream settings = record {
    downstream_data = record {
      group_channels = none;
      extended_channels = [];
      standard_channels = [];
      channel_id_factory = 1;
      negotiated_extensions = [];
    };
    requires_standard_jobs = false;
    requires_custom_work = false;
    supported_extensions = settings.supported_extensions;
    required_extensions = settings.required_extensions;
  }

  -- Whether a reply can be encoded is up to the protocol crates.
  module _ (encode : Reply → Result ℕ (Unit {0})) where
    -- The message is encoded as a frame, and `downstream_sender.send(frame)` is called.
    unfoldable pub send : PoolError → Reply → Handler Connection PoolError (Unit {0})
    send e reply = do
      or_fail parser (encode reply)
      accepts ← gets (λ c. c.queue_open)
      if accepts then modify (λ c. record c { sent = c.sent ++ reply ∷ [] }) else fail e

    unfoldable pub handle_setup_connection : ℕ → Handler Connection PoolError (Unit {0})
    handle_setup_connection flags = do
      modify (λ c. record c {
        downstream = record (c.downstream) {
          requires_custom_work = has_work_selection flags;
          requires_standard_jobs = has_requires_std_job flags;
        };
      })
      send channel_send (setup_connection_success 2 flags)

    unfoldable pub refuse_extensions : ℕ → List ℕ → List ℕ → Handler Connection PoolError (Unit {0})
    refuse_extensions request_id unsupported missing_required = do
      unsupported_extensions ← or_fail invalid_unsupported_extensions_sequence (seq064k unsupported)
      required_extensions ← or_fail invalid_required_extensions_sequence (seq064k missing_required)
      send channel_send
          (request_extensions_error request_id unsupported_extensions required_extensions)
      if is_empty missing_required
          then pure tt
          else fail (client_does_not_support_required_extensions missing_required)

    unfoldable pub accept_extensions : ℕ → List ℕ → Handler Connection PoolError (Unit {0})
    accept_extensions request_id supported = do
      modify (λ c. record c {
        downstream = record (c.downstream) {
          downstream_data = record (c.downstream.downstream_data) {
            negotiated_extensions = supported;
          };
        };
      })
      supported_extensions ← or_fail invalid_supported_extensions_sequence (seq064k supported)
      send channel_send (request_extensions_success request_id supported_extensions)

    unfoldable pub handle_request_extensions :
        RequestExtensions → Handler Connection PoolError (Unit {0})
    handle_request_extensions msg = do
      ds ← gets (λ c. c.downstream)
      let requested = msg.requested_extensions
      if should_send_error ds.supported_extensions ds.required_extensions requested
          then refuse_extensions msg.request_id (unknown ds.supported_extensions requested)
              (unknown requested ds.required_extensions)
          else accept_extensions msg.request_id (common ds.supported_extensions requested)

    -- What `recv` on the broadcast queue gives: a message with the connection that it is for, or
    -- nothing where the receive fails, as it does after messages were lost. A failure is only
    -- logged, and a message for another connection is ignored.
    unfoldable pub handle_channel_manager_message :
        ℕ → Option (ℕ × Mining) → Handler Connection PoolError (Unit {0})
    handle_channel_manager_message own_id none = pure tt
    handle_channel_manager_message own_id (some (downstream_id, msg)) =
        if downstream_id == own_id
        then send noise_expected_incoming_handshake_message (mining msg)
        else pure tt

    -- The turns of the connection's loop on that queue; the loop ends at the first error.
    unfoldable pub receive_all :
        ℕ → List (Option (ℕ × Mining)) → Handler Connection PoolError (Unit {0})
    receive_all own_id [] = pure tt
    receive_all own_id (received ∷ rest) = do
      handle_channel_manager_message own_id received
      receive_all own_id rest

    -- What the connection's own tasks do to the shared data.
    unfoldable pub handle_client_setup : ClientSetup → Handler Connection PoolError (Unit {0})
    handle_client_setup (setup_connection flags) = handle_setup_connection flags
    handle_client_setup (request_extensions msg) = handle_request_extensions msg
