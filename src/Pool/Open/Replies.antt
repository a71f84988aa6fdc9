-- ===== src/Pool/Open/Replies.antt =====
-- What a client that is told of a new channel can rely on.
use mara_pool.Prelude.{
  ℕ, true, Option, none, some, ◌≡◌, refl, inl, inr, List, [], ◌∷◌, nat_eq, arith, Outcome, done,
  failed, panicked, Option-cases, result_cases, Bool-cases, ap, sym, ◌∙◌, resume,
}
use mara_pool.Prelude.Map.{contains, lookup-insert}
use mara_pool.Stratum.{
  StratumCore, OpenStandardMiningChannel, OpenExtendedMiningChannel, NewTemplate, TemplatePrevHash,
  open_standard_mining_channel_success, open_extended_mining_channel_success,
}
use mara_pool.Pool.Error.{PoolError}
use mara_pool.Pool.State.{
  RouteMessageTo, to_downstream, PoolSettings, Downstream, vardiff_key, vardiff_key_eq,
}
use mara_pool.Pool.Access.{Locked}
use mara_pool.Pool.Open.Common.{
  fetch_channel_id, refuse, pool_coinbase_output, standard_open_error, extended_open_error,
}
use mara_pool.Pool.Open.Standard.{
  ensure_group_channel, register_standard, start_standard, create_standard, open_standard,
}
use mara_pool.Pool.Open.Extended.{
  register_extended, start_custom_work, start_template_work, start_extended, create_extended,
  open_extended,
}

module _ ⦃core : StratumCore⦄ where
  open core use {standard, extended}

  -- The channel that a reply reports as open.
  abbrev pub opened : List RouteMessageTo → Option ℕ
  opened (to_downstream d (open_standard_mining_channel_success s) ∷ ms) = some s.channel_id
  opened (to_downstream d (open_extended_mining_channel_success s) ∷ ms) = some s.channel_id
  opened ms = none

  module _ (settings : PoolSettings) (d now : ℕ) where
    start_standard-Registered :
        (msg : OpenStandardMiningChannel) (template : NewTemplate) (prev_hash : TemplatePrevHash)
        (id c : ℕ) (channel : standard.Channel) (l : Locked) (messages : List RouteMessageTo)
        → let (r, l') = start_standard settings d msg now template prev_hash id channel l in
          r ≡ done messages
          → opened messages ≡ some c
          → (contains c l'.downstream_data.standard_channels ≡ true)
            × (contains (vardiff_key d c) l'.manager.vardiff ≡ true)
    unfolding start_standard register_standard
    start_standard-Registered msg template prev_hash id c channel l messages replied told =
        let channel' =
          (standard.on_new_template channel template
            (pool_coinbase_output settings template ∷ [])).1 in
        let channel'' = (standard.on_set_new_prev_hash channel' prev_hash).1 in
        elim (result_cases (core.vardiff_new now)) [
          | inr (e, unread) ↦ ground arith
          | inl (state, made) ↦ ground (
            arith,
            lookup-insert id id channel'' l.downstream_data.standard_channels,
            lookup-insert (vardiff_key d id) (vardiff_key d id) state l.manager.vardiff,
          )
        ]

    start_extended-Registered :
        (msg : OpenExtendedMiningChannel) (ds : Downstream) (id c : ℕ) (channel : extended.Channel)
        (l : Locked) (messages : List RouteMessageTo)
        → let (r, l') = start_extended settings d msg now ds id channel l in
          r ≡ done messages
          → opened messages ≡ some c
          → (contains c l'.downstream_data.extended_channels ≡ true)
            × (contains (vardiff_key d c) l'.manager.vardiff ≡ true)
    unfolding start_extended start_custom_work start_template_work register_extended
    start_extended-Registered msg ds id c channel l messages replied told =
        elim (result_cases (core.vardiff_new now)) [
          | inr (e, unread) ↦ ground arith
          | inl (state, made) ↦ elim (Option-cases l.manager.last_new_prev_hash) [
            | inl absent ↦ ground arith
            | inr (prev_hash, present) ↦ elim (Option-cases l.manager.last_future_template) [
              | inl absent' ↦ ground arith
              | inr (template, present') ↦
                  let channel' =
                    (extended.on_new_template channel template
                      (pool_coinbase_output settings template ∷ [])).1 in
                  let m = l.downstream_data.extended_channels in
                  ground (
                    arith,
                    lookup-insert id id (extended.on_set_new_prev_hash channel prev_hash).1 m,
                    lookup-insert id id (extended.on_set_new_prev_hash channel' prev_hash).1 m,
                    lookup-insert (vardiff_key d id) (vardiff_key d id) state l.manager.vardiff,
                  )
            ]
          ]
        ]

    -- The state and the id with which a channel is created.
    abbrev numbered_standard : Locked → Locked
    numbered_standard l =
        (fetch_channel_id (record l {
          manager = record (l.manager) {
            extranonce_prefix_factory_standard =
                (core.next_prefix_standard l.manager.extranonce_prefix_factory_standard).1;
          };
        })).1

    create_standard-Registered :
        (msg : OpenStandardMiningChannel) (template : NewTemplate) (prev_hash : TemplatePrevHash)
        (c : ℕ) (l : Locked) (messages : List RouteMessageTo)
        → let (r, l') = create_standard settings d msg now template prev_hash l in
          r ≡ done messages
          → opened messages ≡ some c
          → (contains c l'.downstream_data.standard_channels ≡ true)
            × (contains (vardiff_key d c) l'.manager.vardiff ≡ true)
    unfolding create_standard fetch_channel_id refuse
    create_standard-Registered msg template prev_hash c l messages replied told =
        let id = l.downstream_data.channel_id_factory in
        elim (result_cases
          (core.next_prefix_standard l.manager.extranonce_prefix_factory_standard).0) [
            | inr (e, used_up) ↦ ground arith
            | inl (prefix, found) ↦
                elim (result_cases (
                  core.new_standard id msg.user_identity prefix msg.max_target msg.nominal_hash_rate
                    settings.share_batch_size settings.shares_per_minute
                    settings.pool_tag_string)) [
                      | inr (e, refused) ↦ elim (Option-cases (standard_open_error e)) [
                        | inl silent ↦ ground arith
                        | inr (code, said) ↦ ground arith
                      ]
                      | inl (channel, made) ↦
                          let same : create_standard settings d msg now template prev_hash l
                              ≡ start_standard settings d msg now template prev_hash id channel
                                  (numbered_standard l) =
                            rw (found, create_standard, fetch_channel_id, made) refl in
                          rw same (
                            start_standard-Registered msg template prev_hash id c channel
                              (numbered_standard l) messages (ap (λ r. r.0) (sym same) ∙ replied)
                              told)
                    ]
          ]

    grouped-Registered :
        (msg : OpenStandardMiningChannel) (template : NewTemplate) (prev_hash : TemplatePrevHash)
        (c : ℕ) (r : Outcome PoolError (Unit {0}) × Locked) (messages : List RouteMessageTo)
        → let res = resume r (λ u. create_standard settings d msg now template prev_hash) in
          res.0 ≡ done messages
          → opened messages ≡ some c
          → (contains c res.1.downstream_data.standard_channels ≡ true)
            × (contains (vardiff_key d c) res.1.manager.vardiff ≡ true)
    grouped-Registered msg template prev_hash c (done u, k) messages replied told =
        create_standard-Registered msg template prev_hash c k messages replied told
    grouped-Registered msg template prev_hash c (failed e, k) messages replied told = ground arith
    grouped-Registered msg template prev_hash c (panicked, k) messages replied told = ground arith

    -- A standard channel that a client is told of is open on its connection and has a vardiff state.
    pub open_standard-Registered :
        (msg : OpenStandardMiningChannel) (ds : Downstream) (c : ℕ) (l : Locked)
        (messages : List RouteMessageTo)
        → let (r, l') = open_standard settings d msg now ds l in
          r ≡ done messages
          → opened messages ≡ some c
          → (contains c l'.downstream_data.standard_channels ≡ true)
            × (contains (vardiff_key d c) l'.manager.vardiff ≡ true)
    unfolding open_standard
    open_standard-Registered msg ds c l messages replied told =
        elim (Bool-cases ds.requires_custom_work) [
          | inl custom ↦ ground arith
          | inr ordinary ↦ elim (Option-cases l.manager.last_future_template) [
            | inl absent ↦ ground arith
            | inr (template, present) ↦ elim (Option-cases l.manager.last_new_prev_hash) [
              | inl absent ↦ ground arith
              | inr (prev_hash, present') ↦
                  let grouped = ensure_group_channel settings ds template prev_hash l in
                  let ready : open_standard settings d msg now ds l
                      ≡ resume grouped
                          (λ u. create_standard settings d msg now template prev_hash) =
                    rw (ordinary, open_standard, present, present') refl in
                  rw ready (
                    grouped-Registered msg template prev_hash c grouped messages
                      (ap (λ r. r.0) (sym ready) ∙ replied) told)
            ]
          ]
        ]

    -- The state in which an extended channel is created.
    abbrev numbered_extended : OpenExtendedMiningChannel → Locked → Locked
    numbered_extended msg l =
        (fetch_channel_id (record l {
          manager = record (l.manager) {
            extranonce_prefix_factory_extended =
                (core.next_prefix_extended l.manager.extranonce_prefix_factory_extended
                  msg.min_extranonce_size).1;
          };
        })).1

    -- An extended channel that a client is told of is open on its connection and has a vardiff state.
    pub open_extended-Registered :
        (msg : OpenExtendedMiningChannel) (ds : Downstream) (c : ℕ) (l : Locked)
        (messages : List RouteMessageTo)
        → let (r, l') = open_extended settings d msg now ds l in
          r ≡ done messages
          → opened messages ≡ some c
          → (contains c l'.downstream_data.extended_channels ≡ true)
            × (contains (vardiff_key d c) l'.manager.vardiff ≡ true)
    unfolding open_extended create_extended fetch_channel_id refuse
    open_extended-Registered msg ds c l messages replied told =
        let id = l.downstream_data.channel_id_factory in
        elim (result_cases
          (core.next_prefix_extended l.manager.extranonce_prefix_factory_extended
            msg.min_extranonce_size).0) [
              | inr (e, too_large) ↦ ground arith
              | inl (prefix, found) ↦
                  elim (result_cases (
                    core.new_extended id msg.user_identity prefix msg.max_target
                      msg.nominal_hash_rate true msg.min_extranonce_size settings.share_batch_size
                      settings.shares_per_minute settings.pool_tag_string)) [
                        | inr (e, refused) ↦ elim (Option-cases (extended_open_error e)) [
                          | inl silent ↦ ground arith
                          | inr (code, said) ↦ ground arith
                        ]
                        | inl (channel, made) ↦
                            let same : open_extended settings d msg now ds l
                                ≡ start_extended settings d msg now ds id channel
                                    (numbered_extended msg l) =
                              rw (found, open_extended, create_extended, fetch_channel_id, made)
                                refl in
                            rw same (
                              start_extended-Registered msg ds id c channel
                                (numbered_extended msg l) messages
                                (ap (λ r. r.0) (sym same) ∙ replied) told)
                      ]
            ]
