-- ===== src/Pool/Isolation/Openings.antt =====
-- Openings act on the connection that asks for them.
use mara_pool.Prelude.{
  ℕ, Option, none, some, ◌≡◌, refl, inl, inr, List, nat_eq, arith, Result, ok, err, Outcome, done,
  failed, panicked, Option-cases, result_cases, Handler, pure, resume, Bool-cases, beq_refl,
}
use mara_pool.Stratum.{
  StratumCore, OpenStandardMiningChannel, OpenExtendedMiningChannel, NewTemplate, TemplatePrevHash,
  ErrorCode, Bytes, StandardChannelError, ExtendedChannelError,
}
use mara_pool.Pool.Error.{PoolError, channel_error_sender, from_extended}
use mara_pool.Pool.State.{RouteMessageTo, PoolSettings, Downstream}
use mara_pool.Pool.Access.{Locked}
use mara_pool.Pool.Open.{
  fetch_channel_id, create_group_channel, ensure_group_channel, refuse, standard_open_error,
  extended_open_error, open_error, register_standard, start_standard, create_standard,
  open_standard, register_extended, start_custom_work, start_template_work, start_extended,
  create_extended, open_extended,
}
use mara_pool.Pool.Isolation.{IsLocal, IsLocal-trans}

module _ ⦃core : StratumCore⦄ where
  open core use {standard, extended}

  module _ (settings : PoolSettings) (d now : ℕ) where
    start_standard-IsLocal :
        (msg : OpenStandardMiningChannel) (template : NewTemplate) (prev_hash : TemplatePrevHash)
        (id : ℕ) (channel : standard.Channel) (l : Locked)
        → IsLocal d l (start_standard settings d msg now template prev_hash id channel l)
    unfolding start_standard register_standard
    start_standard-IsLocal msg template prev_hash id channel l = record {
      downstream_eq = ground arith;
      addressed = λ messages h. ground (arith, beq_refl d);
    }

    start_extended-IsLocal :
        (msg : OpenExtendedMiningChannel) (ds : Downstream) (id : ℕ) (channel : extended.Channel)
        (l : Locked)
        → IsLocal d l (start_extended settings d msg now ds id channel l)
    unfolding start_extended start_custom_work start_template_work register_extended
    start_extended-IsLocal msg ds id channel l = record {
      downstream_eq = ground arith;
      addressed = λ messages h. ground (arith, beq_refl d);
    }

    refuse-IsLocal :
        (request_id : ℕ) (e : PoolError) (code : Option ErrorCode) (k l : Locked)
        → k.manager.downstream ≡ l.manager.downstream
        → IsLocal d l (refuse d request_id e code k)
    unfolding refuse
    refuse-IsLocal request_id e none k l same = record {
      downstream_eq = same;
      addressed = λ messages h. ground arith;
    }
    refuse-IsLocal request_id e (some code) k l same = record {
      downstream_eq = same;
      addressed = λ messages h. ground (arith, beq_refl d);
    }

    created_standard-IsLocal :
        (msg : OpenStandardMiningChannel) (template : NewTemplate) (prev_hash : TemplatePrevHash)
        (id : ℕ) (res : Result StandardChannelError standard.Channel) (k l : Locked)
        → k.manager.downstream ≡ l.manager.downstream
        → let f : Handler Locked PoolError (List RouteMessageTo) = elim res [
          | ok channel ↦ start_standard settings d msg now template prev_hash id channel
          | err e ↦ refuse d msg.request_id channel_error_sender (standard_open_error e)
        ] in
          IsLocal d l (f k)
    created_standard-IsLocal msg template prev_hash id (ok channel) k l same =
        IsLocal-trans d k l _ same (start_standard-IsLocal msg template prev_hash id channel k)
    created_standard-IsLocal msg template prev_hash id (err e) k l same =
        refuse-IsLocal msg.request_id channel_error_sender (standard_open_error e) k l same

    create_standard-IsLocal :
        (msg : OpenStandardMiningChannel) (template : NewTemplate) (prev_hash : TemplatePrevHash)
        (l : Locked)
        → IsLocal d l (create_standard settings d msg now template prev_hash l)
    unfolding create_standard fetch_channel_id
    create_standard-IsLocal msg template prev_hash l =
        elim (result_cases
          (core.next_prefix_standard l.manager.extranonce_prefix_factory_standard).0) [
            | inr (e, used_up) ↦
                rw (used_up, create_standard)
                  (record { downstream_eq = refl; addressed = λ messages h. ground arith })
            | inl (prefix, found) ↦
                rw (found, create_standard, fetch_channel_id)
                  (created_standard-IsLocal msg template prev_hash _ _ _ l refl)
          ]

    ensure_group_channel-others :
        (ds : Downstream) (template : NewTemplate) (prev_hash : TemplatePrevHash) (l : Locked)
        → (ensure_group_channel settings ds template prev_hash l).1.manager.downstream
          ≡ l.manager.downstream
    unfolding ensure_group_channel create_group_channel fetch_channel_id
    ensure_group_channel-others ds template prev_hash l = ground arith

    grouped-IsLocal :
        (msg : OpenStandardMiningChannel) (template : NewTemplate) (prev_hash : TemplatePrevHash)
        (r : Outcome PoolError (Unit {0}) × Locked) (l : Locked)
        → r.1.manager.downstream ≡ l.manager.downstream
        → IsLocal d l (resume r (λ u. create_standard settings d msg now template prev_hash))
    grouped-IsLocal msg template prev_hash (done u, k) l same =
        IsLocal-trans d k l _ same (create_standard-IsLocal msg template prev_hash k)
    grouped-IsLocal msg template prev_hash (failed e, k) l same = record {
      downstream_eq = same;
      addressed = λ messages h. ground arith;
    }
    grouped-IsLocal msg template prev_hash (panicked, k) l same = record {
      downstream_eq = same;
      addressed = λ messages h. ground arith;
    }

    pub open_standard-IsLocal :
        (msg : OpenStandardMiningChannel) (ds : Downstream) (l : Locked)
        → IsLocal d l (open_standard settings d msg now ds l)
    unfolding open_standard
    open_standard-IsLocal msg ds l = elim (Bool-cases ds.requires_custom_work) [
      | inl custom ↦
          rw (custom, open_standard)
            (record { downstream_eq = refl; addressed = λ messages h. ground (arith, beq_refl d) })
      | inr ordinary ↦ elim (Option-cases l.manager.last_future_template) [
        | inl absent ↦ record {
          downstream_eq = ground (arith, ordinary, absent);
          addressed = λ messages h. ground (arith, ordinary, absent);
        }
        | inr (template, present) ↦ elim (Option-cases l.manager.last_new_prev_hash) [
          | inl absent ↦ record {
            downstream_eq = ground (arith, ordinary, present, absent);
            addressed = λ messages h. ground (arith, ordinary, present, absent);
          }
          | inr (prev_hash, present') ↦
              let ready : open_standard settings d msg now ds l
                  ≡ resume (ensure_group_channel settings ds template prev_hash l)
                      (λ u. create_standard settings d msg now template prev_hash) =
                rw (ordinary, open_standard, present, present') refl in
              rw ready (
                grouped-IsLocal msg template prev_hash _ l
                  (ensure_group_channel-others ds template prev_hash l))
        ]
      ]
    ]

    created_extended-IsLocal :
        (msg : OpenExtendedMiningChannel) (ds : Downstream) (id : ℕ)
        (res : Result ExtendedChannelError extended.Channel) (k l : Locked)
        → k.manager.downstream ≡ l.manager.downstream
        → let f : Handler Locked PoolError (List RouteMessageTo) = elim res [
          | ok channel ↦ start_extended settings d msg now ds id channel
          | err e ↦ refuse d msg.request_id (from_extended e) (extended_open_error e)
        ] in
          IsLocal d l (f k)
    created_extended-IsLocal msg ds id (ok channel) k l same =
        IsLocal-trans d k l _ same (start_extended-IsLocal msg ds id channel k)
    created_extended-IsLocal msg ds id (err e) k l same =
        refuse-IsLocal msg.request_id (from_extended e) (extended_open_error e) k l same

    create_extended-IsLocal :
        (msg : OpenExtendedMiningChannel) (ds : Downstream) (prefix : Bytes) (k l : Locked)
        → k.manager.downstream ≡ l.manager.downstream
        → IsLocal d l (create_extended settings d msg now ds prefix k)
    unfolding create_extended fetch_channel_id
    create_extended-IsLocal msg ds prefix k l same = created_extended-IsLocal msg ds _ _ _ l same

    prefixed-IsLocal :
        (msg : OpenExtendedMiningChannel) (ds : Downstream) (res : Result ℕ Bytes) (k l : Locked)
        → k.manager.downstream ≡ l.manager.downstream
        → let f : Handler Locked PoolError (List RouteMessageTo) = elim res [
          | err e ↦ pure (open_error d msg.request_id ErrorCode.min_extranonce_size_too_large)
          | ok prefix ↦ create_extended settings d msg now ds prefix
        ] in
          IsLocal d l (f k)
    prefixed-IsLocal msg ds (ok prefix) k l same = create_extended-IsLocal msg ds prefix k l same
    prefixed-IsLocal msg ds (err e) k l same = record {
      downstream_eq = same;
      addressed = λ messages h. ground (arith, beq_refl d);
    }

    pub open_extended-IsLocal :
        (msg : OpenExtendedMiningChannel) (ds : Downstream) (l : Locked)
        → IsLocal d l (open_extended settings d msg now ds l)
    unfolding open_extended
    open_extended-IsLocal msg ds l = prefixed-IsLocal msg ds _ _ l refl
