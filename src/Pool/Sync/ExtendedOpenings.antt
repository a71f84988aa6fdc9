-- ===== src/Pool/Sync/ExtendedOpenings.antt =====
-- The opening of an extended channel keeps the vardiff map in step, as long as a vardiff state can
-- be made.
use mara_pool.Prelude.{
  ℕ, true, some, Result, ok, ◌≡◌, ◌⊎◌, inl, inr, List, nat_eq, Keeps, arith, result_cases,
  outcome_cases, Option-cases, if◌then◌else◌, Outcome,
}
use mara_pool.Stratum.{
  StratumCore, Bytes, NewTemplate, TemplatePrevHash, OpenExtendedMiningChannel,
  ExtendedChannelError,
}
use mara_pool.Pool.State.{next_u32, vardiff_key_eq, PoolSettings, Downstream, RouteMessageTo}
use mara_pool.Pool.Error.{PoolError}
use mara_pool.Pool.Access.{World, Locked}
use mara_pool.Pool.Open.{
  fetch_channel_id, register_extended, start_custom_work, start_template_work, start_extended,
  create_extended, open_extended, handle_open_extended_mining_channel, refuse, extended_open_error,
}
use mara_pool.Pool.Sync.Locks.{serve-IsInSync}
use mara_pool.Pool.Sync.Frame.{IsInSync, IsInSyncLocked, tracks-insert, contains-insert}
use mara_pool.Pool.Sync.Openings.{SameChannels, SameChannels-IsInSync}

module _ ⦃core : StratumCore⦄ where
  open core use {extended, vardiff_new, VardiffState, next_prefix_extended, new_extended}

  register_extended-IsInSync :
      (d id now : ℕ) (channel : extended.Channel) (state : VardiffState)
      → vardiff_new now ≡ ok state
      → Keeps (IsInSyncLocked d) (register_extended d id now channel)
  unfolding register_extended
  register_extended-IsInSync d id now channel state clock l h = record {
    mine = λ c. rw clock (
        ground (
          arith,
          h.mine c,
          tracks-insert d id d c state l.manager.vardiff,
          contains-insert id c channel l.downstream_data.extended_channels,
        ));
    others = λ e c ne.
        rw clock (ground (arith, h.others e c ne, tracks-insert d id e c state l.manager.vardiff));
    fresh = λ e le. rw clock (ground (arith, h.fresh e));
    known = rw clock (ground (arith, h.known));
  }

  module _ (settings : PoolSettings) (d : ℕ) (msg : OpenExtendedMiningChannel) (now : ℕ)
      (state : VardiffState) (clock : vardiff_new now ≡ ok state) where
    abbrev working :
        Downstream
        → NewTemplate
        → TemplatePrevHash
        → ℕ
        → extended.Channel
        → Locked
        → Outcome PoolError (extended.Channel × List RouteMessageTo) × Locked
    working ds template prev_hash id channel l =
        if ds.requires_custom_work
        then start_custom_work prev_hash channel l
        else start_template_work settings d template prev_hash id channel l

    working-same :
        (ds : Downstream) (template : NewTemplate) (prev_hash : TemplatePrevHash) (id : ℕ)
        (channel : extended.Channel) (l : Locked)
        → (working ds template prev_hash id channel l).1 ≡ l
    unfolding start_custom_work start_template_work
    working-same ds template prev_hash id channel l = ground arith

    start_extended-register :
        (ds : Downstream) (id : ℕ) (channel : extended.Channel) (l : Locked)
        → let l' = (start_extended settings d msg now ds id channel l).1 in
          (l' ≡ l)
          ⊎ ((channel' : extended.Channel) × (l' ≡ (register_extended d id now channel' l).1))
    unfolding start_extended
    start_extended-register ds id channel l =
        elim (result_cases (core.to_b032 (extended.get_extranonce_prefix channel))) [
          | inr bad ↦ inl (ground (arith, bad))
          | inl fits ↦ elim (Option-cases l.manager.last_future_template) [
            | inl absent ↦ inl (ground (arith, fits))
            | inr (template, present) ↦ elim (Option-cases l.manager.last_new_prev_hash) [
              | inl absent' ↦ inl (ground (arith, fits))
              | inr (prev_hash, present') ↦
                  elim (outcome_cases (working ds template prev_hash id channel l).0) [
                    | inr stopped ↦ inl (
                        ground
                          (arith, fits, stopped, working-same ds template prev_hash id channel l))
                    | inl (started, worked) ↦ inr (
                      started.0,
                      ground (arith, fits, worked, working-same ds template prev_hash id channel l),
                    )
                  ]
            ]
          ]
        ]

    start_extended-IsInSync :
        (ds : Downstream) (id : ℕ) (channel : extended.Channel)
        → Keeps (IsInSyncLocked d) (start_extended settings d msg now ds id channel)
    start_extended-IsInSync ds id channel l h = elim (start_extended-register ds id channel l) [
      | inl same ↦ rw same h
      | inr (channel', made) ↦
          rw made (register_extended-IsInSync d id now channel' state clock l h)
    ]

    -- The state in which an extended channel is created.
    abbrev numbered : Locked → Locked
    numbered l = record l {
      manager = record (l.manager) {
        extranonce_prefix_factory_extended =
            (next_prefix_extended l.manager.extranonce_prefix_factory_extended
              msg.min_extranonce_size).1;
      };
      downstream_data = record (l.downstream_data) {
        channel_id_factory = next_u32 l.downstream_data.channel_id_factory;
      };
    }

    abbrev numbering : Locked → Result ℕ Bytes
    numbering l =
        (next_prefix_extended l.manager.extranonce_prefix_factory_extended
          msg.min_extranonce_size).0

    abbrev creation : Locked → Bytes → Result ExtendedChannelError extended.Channel
    creation l prefix =
        new_extended l.downstream_data.channel_id_factory msg.user_identity prefix msg.max_target
          msg.nominal_hash_rate true msg.min_extranonce_size settings.share_batch_size
          settings.shares_per_minute settings.pool_tag_string

    -- Nothing is registered, or a channel is created and started.
    open_extended-start :
        (ds : Downstream) (l : Locked)
        → let l' = (open_extended settings d msg now ds l).1 in
          let id = l.downstream_data.channel_id_factory in
          SameChannels l l'
          ⊎ ((channel : extended.Channel) × (l'
                ≡ (start_extended settings d msg now ds id channel (numbered l)).1))
    unfolding open_extended create_extended fetch_channel_id refuse
    open_extended-start ds l = elim (result_cases (numbering l)) [
      | inr (e, unnumbered) ↦ inl (ground arith)
      | inl (prefix, found) ↦ elim (result_cases (creation l prefix)) [
        | inl (channel, made) ↦ inr (channel, ground arith)
        | inr (e, refused) ↦ elim (Option-cases (extended_open_error e)) [
          | inl silent ↦ inl (ground arith)
          | inr (code, told) ↦ inl (ground arith)
        ]
      ]
    ]

    open_extended-IsInSync :
        (ds : Downstream) → Keeps (IsInSyncLocked d) (open_extended settings d msg now ds)
    open_extended-IsInSync ds l h = elim (open_extended-start ds l) [
      | inl same ↦ SameChannels-IsInSync d l _ same h
      | inr (channel, made) ↦ rw made (
          start_extended-IsInSync ds _ channel _
            (SameChannels-IsInSync d l (numbered l) (ground arith) h))
    ]

    pub handle_open_extended-IsInSync :
        Keeps
          (λ (w : World). IsInSync w.manager)
          (handle_open_extended_mining_channel settings (some d) msg now)
    unfolding handle_open_extended_mining_channel
    handle_open_extended-IsInSync =
        serve-IsInSync d _ (open_extended settings d msg now) open_extended-IsInSync
