-- ===== src/Pool/Sync/Openings.antt =====
-- The opening of a channel keeps the vardiff map in step, as long as a vardiff state can be made.
use mara_pool.Prelude.{
  ℕ, some, Result, ok, ◌≡◌, ◌⊎◌, inl, inr, [], ◌∷◌, nat_eq, Keeps, arith, result_cases,
  outcome_cases, Option-cases, Bool-cases,
}
use mara_pool.Stratum.{
  StratumCore, Bytes, StandardChannelError, NewTemplate, TemplatePrevHash,
  OpenStandardMiningChannel,
}
use mara_pool.Pool.State.{next_u32, vardiff_key_eq, PoolSettings, Downstream}
use mara_pool.Pool.Access.{World, Locked}
use mara_pool.Pool.Open.{
  fetch_channel_id, pool_coinbase_output, create_group_channel, ensure_group_channel,
  register_standard, start_standard, create_standard, open_standard,
  handle_open_standard_mining_channel, refuse, standard_open_error,
}
use mara_pool.Pool.Sync.Locks.{serve-IsInSync}
use mara_pool.Pool.Sync.Frame.{IsInSync, IsInSyncLocked, tracks-insert, contains-insert}

module _ ⦃core : StratumCore⦄ where
  open core use {
    new_standard, next_prefix_standard, standard, extended, group, vardiff_new, VardiffState,
  }

  -- The two states have the same channels and vardiff states.
  pub record SameChannels (k l : Locked) : Type 0 where
    pub vardiff_eq : l.manager.vardiff ≡ k.manager.vardiff
    pub downstream_eq : l.manager.downstream ≡ k.manager.downstream
    pub factory_eq : l.manager.downstream_id_factory ≡ k.manager.downstream_id_factory
    pub standard_eq : l.downstream_data.standard_channels ≡ k.downstream_data.standard_channels
    pub extended_eq : l.downstream_data.extended_channels ≡ k.downstream_data.extended_channels

  pub SameChannels-IsInSync :
      (d : ℕ) (k l : Locked) → SameChannels k l → IsInSyncLocked d k → IsInSyncLocked d l
  SameChannels-IsInSync d k l same h = record {
    mine = λ c. ground (arith, h.mine c, same.vardiff_eq, same.standard_eq, same.extended_eq);
    others = λ e c ne. ground (arith, h.others e c ne, same.vardiff_eq, same.downstream_eq);
    fresh = λ e le. ground (arith, h.fresh e, same.downstream_eq, same.factory_eq);
    known = ground (arith, h.known, same.downstream_eq, same.factory_eq);
  }

  pub create_group_channel-SameChannels :
      (settings : PoolSettings) (template : NewTemplate) (prev_hash : TemplatePrevHash) (l : Locked)
      → SameChannels l (create_group_channel settings template prev_hash l).1
  unfolding create_group_channel fetch_channel_id
  create_group_channel-SameChannels settings template prev_hash l = ground arith

  register_standard-IsInSync :
      (d id now : ℕ) (channel : standard.Channel) (state : VardiffState)
      → vardiff_new now ≡ ok state
      → Keeps (IsInSyncLocked d) (register_standard d id now channel)
  unfolding register_standard
  register_standard-IsInSync d id now channel state clock l h = record {
    mine = λ c. rw clock (
        ground (
          arith,
          h.mine c,
          tracks-insert d id d c state l.manager.vardiff,
          contains-insert id c channel l.downstream_data.standard_channels,
        ));
    others = λ e c ne.
        rw clock (ground (arith, h.others e c ne, tracks-insert d id e c state l.manager.vardiff));
    fresh = λ e le. rw clock (ground (arith, h.fresh e));
    known = rw clock (ground (arith, h.known));
  }

  module _ (settings : PoolSettings) (d : ℕ) (msg : OpenStandardMiningChannel) (now : ℕ)
      (state : VardiffState) (clock : vardiff_new now ≡ ok state) where
    -- The state is as it was, or the channel was registered in it.
    start_standard-register :
        (template : NewTemplate) (prev_hash : TemplatePrevHash) (id : ℕ)
        (channel : standard.Channel) (l : Locked)
        → let channel' =
            (standard.on_new_template channel template
              (pool_coinbase_output settings template ∷ [])).1 in
          let channel'' = (standard.on_set_new_prev_hash channel' prev_hash).1 in
          let l' = (start_standard settings d msg now template prev_hash id channel l).1 in
          (l' ≡ l) ⊎ (l' ≡ (register_standard d id now channel'' l).1)
    unfolding start_standard
    start_standard-register template prev_hash id channel l = ground arith

    start_standard-IsInSync :
        (template : NewTemplate) (prev_hash : TemplatePrevHash) (id : ℕ)
        (channel : standard.Channel)
        → Keeps (IsInSyncLocked d) (start_standard settings d msg now template prev_hash id channel)
    start_standard-IsInSync template prev_hash id channel l h =
        elim (start_standard-register template prev_hash id channel l) [
          | inl same ↦ rw same h
          | inr made ↦ rw made (register_standard-IsInSync d id now _ state clock l h)
        ]

    -- The state in which a standard channel is created.
    abbrev numbered : Locked → Locked
    numbered l = record l {
      manager = record (l.manager) {
        extranonce_prefix_factory_standard =
            (next_prefix_standard l.manager.extranonce_prefix_factory_standard).1;
      };
      downstream_data = record (l.downstream_data) {
        channel_id_factory = next_u32 l.downstream_data.channel_id_factory;
      };
    }

    abbrev numbering : Locked → Result ℕ Bytes
    numbering l = (next_prefix_standard l.manager.extranonce_prefix_factory_standard).0

    abbrev creation : Locked → Bytes → Result StandardChannelError standard.Channel
    creation l prefix =
        new_standard l.downstream_data.channel_id_factory msg.user_identity prefix msg.max_target
          msg.nominal_hash_rate settings.share_batch_size settings.shares_per_minute
          settings.pool_tag_string

    -- Nothing is registered, or a channel is created and started.
    create_standard-start :
        (template : NewTemplate) (prev_hash : TemplatePrevHash) (l : Locked)
        → let l' = (create_standard settings d msg now template prev_hash l).1 in
          let id = l.downstream_data.channel_id_factory in
          SameChannels l l'
          ⊎ ((channel : standard.Channel) × (l'
                ≡ (start_standard settings d msg now template prev_hash id channel (numbered l)).1))
    unfolding create_standard fetch_channel_id refuse
    create_standard-start template prev_hash l = elim (result_cases (numbering l)) [
      | inr (e, failed) ↦ inl (ground arith)
      | inl (prefix, found) ↦ elim (result_cases (creation l prefix)) [
        | inl (channel, made) ↦ inr (channel, ground arith)
        | inr (e, refused) ↦ elim (Option-cases (standard_open_error e)) [
          | inl silent ↦ inl (ground arith)
          | inr (code, told) ↦ inl (ground arith)
        ]
      ]
    ]

    create_standard-IsInSync :
        (template : NewTemplate) (prev_hash : TemplatePrevHash)
        → Keeps (IsInSyncLocked d) (create_standard settings d msg now template prev_hash)
    create_standard-IsInSync template prev_hash l h =
        elim (create_standard-start template prev_hash l) [
          | inl same ↦ SameChannels-IsInSync d l _ same h
          | inr (channel, made) ↦ rw made (
              start_standard-IsInSync template prev_hash _ channel _
                (SameChannels-IsInSync d l (numbered l) (ground arith) h))
        ]

    ensure_group_channel-SameChannels :
        (ds : Downstream) (template : NewTemplate) (prev_hash : TemplatePrevHash) (l : Locked)
        → SameChannels l (ensure_group_channel settings ds template prev_hash l).1
    unfolding ensure_group_channel
    ensure_group_channel-SameChannels ds template prev_hash l =
        ground (arith, create_group_channel-SameChannels settings template prev_hash l)

    open_standard-create :
        (ds : Downstream) (l : Locked)
        → let l' = (open_standard settings d msg now ds l).1 in
          SameChannels l l'
          ⊎ ((template : NewTemplate) × (prev_hash : TemplatePrevHash) × (l'
                ≡ (create_standard settings d msg now template prev_hash
                    (ensure_group_channel settings ds template prev_hash l).1).1))
    unfolding open_standard
    open_standard-create ds l = elim (Option-cases l.manager.last_future_template) [
      | inl absent ↦ inl (ground arith)
      | inr (template, present) ↦ elim (Option-cases l.manager.last_new_prev_hash) [
        | inl absent' ↦ inl (ground arith)
        | inr (prev_hash, present') ↦
            elim (outcome_cases (ensure_group_channel settings ds template prev_hash l).0) [
              | inl (_, grouped) ↦ elim (Bool-cases ds.requires_custom_work) [
                | inl custom ↦ inl (ground arith)
                | inr ordinary ↦ inr (template, prev_hash, ground arith)
              ]
              | inr stopped ↦ inl (
                  ground
                    (arith, stopped, ensure_group_channel-SameChannels ds template prev_hash l))
            ]
      ]
    ]

    open_standard-IsInSync :
        (ds : Downstream) → Keeps (IsInSyncLocked d) (open_standard settings d msg now ds)
    unfolding open_standard
    open_standard-IsInSync ds l h = elim (open_standard-create ds l) [
      | inl same ↦ SameChannels-IsInSync d l _ same h
      | inr (template, prev_hash, made) ↦ rw made (
          create_standard-IsInSync template prev_hash _ (
            SameChannels-IsInSync d l _ (ensure_group_channel-SameChannels ds template prev_hash l)
              h))
    ]

    pub handle_open_standard-IsInSync :
        Keeps
          (λ (w : World). IsInSync w.manager)
          (handle_open_standard_mining_channel settings (some d) msg now)
    unfolding handle_open_standard_mining_channel
    handle_open_standard-IsInSync =
        serve-IsInSync d _ (open_standard settings d msg now) open_standard-IsInSync
