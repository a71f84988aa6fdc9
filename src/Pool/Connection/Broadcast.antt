-- ===== src/Pool/Connection/Broadcast.antt =====
-- The queue that all connections read.
use mara_pool.Prelude.{
  ℕ, Bool, true, ◌&&◌, Option, none, some, ◌≡◌, refl, List, [], ◌∷◌, ◌++◌, nat_eq, ◌==◌, Result,
  is_ok, done, arith, if◌then◌else◌, inl, inr, Bool-cases, result_cases, ◌∙◌, ap, sym,
}
use mathlib.Core.List.{append-nil, append_assoc}
use mara_pool.Stratum.{StratumCore, Mining}
use mara_pool.Pool.Connection.{
  Reply, mining, Connection, send, handle_channel_manager_message, receive_all,
}

module _ ⦃core : StratumCore⦄ (encode : Reply → Result ℕ (Unit {0})) where
  -- The received messages that are for the connection, as frames.
  abbrev pub own_messages : ℕ → List (Option (ℕ × Mining)) → List Reply
  own_messages own_id [] = []
  own_messages own_id (none ∷ rest) = own_messages own_id rest
  own_messages own_id (some (d, msg) ∷ rest) =
      let others = own_messages own_id rest in if d == own_id then mining msg ∷ others else others

  abbrev pub all_encode : List Reply → Bool
  all_encode [] = true
  all_encode (reply ∷ replies) = is_ok (encode reply) && all_encode replies

  sends :
      (own_id d : ℕ) (msg : Mining) (c : Connection)
      → (d == own_id) ≡ true
      → is_ok (encode (mining msg)) ≡ true
      → c.queue_open ≡ true
      → handle_channel_manager_message encode own_id (some (d, msg)) c
        ≡ (done tt, record c { sent = c.sent ++ mining msg ∷ [] })
  unfolding handle_channel_manager_message send
  sends own_id d msg c own good open_one =
      ground (arith, own, good, open_one, result_cases (encode (mining msg)))

  -- Over any sequence of receives on the broadcast queue, some of which may fail because messages
  -- were lost, a connection whose own messages can be encoded and whose queue is open sends its
  -- client exactly the messages received for it, once each and in order, goes on to the end, and
  -- changes nothing else of its state.
  pub broadcast :
      (own_id : ℕ) (received : List (Option (ℕ × Mining))) (c : Connection)
      → all_encode (own_messages own_id received) ≡ true
      → c.queue_open ≡ true
      → receive_all encode own_id received c
        ≡ (done tt, record c { sent = c.sent ++ own_messages own_id received })
  unfolding receive_all handle_channel_manager_message
  broadcast own_id [] c fine open_one =
      ap (λ xs. (done tt, record c { sent = xs })) (sym (append-nil c.sent))
  broadcast own_id (none ∷ rest) c fine open_one = broadcast own_id rest c fine open_one
  broadcast own_id (some (d, msg) ∷ rest) c fine open_one = elim (Bool-cases (d == own_id)) [
    | inr other ↦
        rw (other, receive_all, handle_channel_manager_message)
          (broadcast own_id rest c (ground (arith, other, fine)) open_one)
    | inl own ↦
        let good : is_ok (encode (mining msg)) ≡ true = ground (arith, own, fine) in
        let next : Connection = record c { sent = c.sent ++ mining msg ∷ [] } in
        let first = sends own_id d msg c own good open_one in
        let others = own_messages own_id rest in
        let step : receive_all encode own_id (some (d, msg) ∷ rest) c
            ≡ receive_all encode own_id rest next =
          rw (first, receive_all) refl in
        let split : own_messages own_id (some (d, msg) ∷ rest) ≡ mining msg ∷ others =
          ground (arith, own) in
        let together : (c.sent ++ mining msg ∷ []) ++ others
            ≡ c.sent ++ own_messages own_id (some (d, msg) ∷ rest) =
          append_assoc c.sent (mining msg ∷ []) others ∙ ap (λ xs. c.sent ++ xs) (sym split) in
        step
        ∙ broadcast own_id rest next (ground (arith, own, fine)) open_one
        ∙ ap (λ xs. (done tt, record c { sent = xs })) together
  ]
