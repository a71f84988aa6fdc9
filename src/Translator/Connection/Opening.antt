-- ===== src/Translator/Connection/Opening.antt =====
-- The messages of a miner before its channel is open.
use mathlib.Core.List.{append_assoc, append-nil}
use mara_pool.Prelude.{
  true, none, ◌≡◌, refl, List, [], ◌∷◌, ◌++◌, Outcome, done, arith, Handler, pure, ◌>>◌, ◌∙◌, ap,
  resume,
}
use mara_pool.Translator.Core.{Sv1Core, Message}
use mara_pool.Translator.State.{TproxyError, open_channel, Sv1ServerData}
use mara_pool.Translator.Connection.Methods.{Sv1Protocol}
use mara_pool.Translator.Connection.Handlers.{
  Sv1Connection, send_to_server, write_data, queue_message, queue_by, established,
  handle_downstream_message,
}

module _ ⦃core : Sv1Core⦄ where
  module _ (protocol : Sv1Protocol) where
    -- The messages one after the other; the loop ends with the first error.
    unfoldable pub handle_all :
        Sv1ServerData → List Message → Handler Sv1Connection TproxyError (Unit {0})
    handle_all s [] = pure tt
    handle_all s (m ∷ ms) = do handle_downstream_message protocol s m; handle_all s ms

    -- A message behind others is queued.
    handle_later :
        (s : Sv1ServerData) (m q : Message) (qs : List Message) (c : Sv1Connection)
        → c.downstream_data.channel_id ≡ none
        → c.downstream_data.queued_sv1_handshake_messages ≡ q ∷ qs
        → handle_downstream_message protocol s m c ≡ queue_message m c
    unfolding handle_downstream_message established queue_by
    handle_later s m q qs c closed queued =
        rw (closed, queued, handle_downstream_message, established) refl

    handle_all_later :
        (s : Sv1ServerData) (ms qs : List Message) (q : Message) (c : Sv1Connection)
        → c.downstream_data.channel_id ≡ none
        → c.downstream_data.queued_sv1_handshake_messages ≡ q ∷ qs
        → let (r, c') = handle_all s ms c in
          (r ≡ done tt)
          × (c'.to_server ≡ c.to_server)
          × (c'.sent ≡ c.sent)
          × (c'.downstream_data.queued_sv1_handshake_messages ≡ q ∷ (qs ++ ms))
    unfolding handle_all queue_message write_data
    handle_all_later s [] qs q c closed queued = ground (arith, queued, append-nil qs)
    handle_all_later s (m ∷ ms) qs q c closed queued =
        let k = (queue_message m c).1 in
        let step : handle_all s (m ∷ ms) c ≡ handle_all s ms k =
          rw (handle_later s m q qs c closed queued, handle_all) refl in
        let (finished, same, silent, kept) =
          handle_all_later s ms (qs ++ m ∷ []) q k closed (ap (λ xs. xs ++ m ∷ []) queued) in
        rw step (finished, same, silent, kept ∙ ap (λ xs. q ∷ xs) (append_assoc qs (m ∷ []) ms))

    -- The first message.
    first :
        (s : Sv1ServerData) (m : Message) (c : Sv1Connection)
        → c.downstream_data.channel_id ≡ none
        → c.downstream_data.queued_sv1_handshake_messages ≡ []
        → c.server_open ≡ true
        → handle_downstream_message protocol s m c ≡ (
          done tt,
          record c {
            downstream_data = record (c.downstream_data) { queued_sv1_handshake_messages = m ∷ [] };
            to_server = c.to_server ++ open_channel c.downstream_data.downstream_id ∷ [];
          },
        )
    unfolding handle_downstream_message established queue_by queue_message write_data send_to_server
    first s m c closed none_queued takes =
        rw
          (
            closed, none_queued, takes, handle_downstream_message, established, queue_by,
            send_to_server, queue_message,
          )
          refl

    -- A miner whose channel is not open yet, whatever it sends first, makes the connection ask for one
    -- channel, and all its messages are queued in their order.
    pub one_channel_asked :
        (s : Sv1ServerData) (m : Message) (ms : List Message) (c : Sv1Connection)
        → c.downstream_data.channel_id ≡ none
        → c.downstream_data.queued_sv1_handshake_messages ≡ []
        → c.server_open ≡ true
        → let (r, c') = handle_all s (m ∷ ms) c in
          (r ≡ done tt)
          × (c'.to_server ≡ c.to_server ++ open_channel c.downstream_data.downstream_id ∷ [])
          × (c'.sent ≡ c.sent)
          × (c'.downstream_data.queued_sv1_handshake_messages ≡ m ∷ ms)
    unfolding handle_all handle_downstream_message established queue_by queue_message write_data
        send_to_server
    one_channel_asked s m ms c closed none_queued takes =
        let k : Sv1Connection = record c {
          downstream_data = record (c.downstream_data) { queued_sv1_handshake_messages = m ∷ [] };
          to_server = c.to_server ++ open_channel c.downstream_data.downstream_id ∷ [];
        } in
        let step : handle_all s (m ∷ ms) c ≡ handle_all s ms k =
          ap
            (λ (r : Outcome TproxyError (Unit {0}) × Sv1Connection).
              resume r (λ _. handle_all s ms))
            (first s m c closed none_queued takes) in
        rw step (handle_all_later s ms [] m k closed refl)
