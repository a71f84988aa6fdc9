-- ===== src/Pool/State.antt =====
-- pool-apps/pool/src/lib/channel_manager/mod.rs and downstream/mod.rs: the state of the channel
-- manager, of a connection, and the messages that the manager routes.
pub use mara_pool.Prelude.Bits.{next_u32, next_usize}
use mara_pool.Prelude.{ℕ, ◌+◌, Bool, Option, List, ◌&&◌, Eq, ◌==◌, nat_eq, ◌↔◌, ◌≡◌, true, arith}
use mara_pool.Prelude.Map.{Map}
use mara_pool.Stratum.{
  StratumCore, Bytes, NewTemplate, TemplatePrevHash, Mining, TemplateDistribution,
}

pub record VardiffKey : Type 0 where
  pub downstream_id : ℕ
  pub channel_id : ℕ

abbrev pub vardiff_key : ℕ → ℕ → VardiffKey
vardiff_key downstream_id channel_id = record {
  downstream_id = downstream_id;
  channel_id = channel_id;
}

abbrev pub vardiff_key_beq : VardiffKey → VardiffKey → Bool
vardiff_key_beq k j = k.downstream_id == j.downstream_id && k.channel_id == j.channel_id

pub vardiff_key_beq_iff : (k j : VardiffKey) → (vardiff_key_beq k j ≡ true) ↔ (k ≡ j)
vardiff_key_beq_iff k j = (λ h. ground arith, λ h. ground arith)

instance abbrev pub vardiff_key_eq : Eq VardiffKey
vardiff_key_eq = record { beq = vardiff_key_beq; beq_iff = vardiff_key_beq_iff }

abbrev pub pool_allocation_bytes : ℕ
pool_allocation_bytes = 4

abbrev pub client_search_space_bytes : ℕ
client_search_space_bytes = 16

abbrev pub full_extranonce_size : ℕ
full_extranonce_size = pool_allocation_bytes + client_search_space_bytes

module _ ⦃core : StratumCore⦄ where
  open core use {standard, extended, group, Hashrate, Work, VardiffState, ExtranonceFactory}

  pub record DownstreamData : Type 0 where
    pub group_channels : Option group.Channel
    pub extended_channels : Map ℕ extended.Channel
    pub standard_channels : Map ℕ standard.Channel
    pub channel_id_factory : ℕ
    pub negotiated_extensions : List ℕ

  -- The sockets and queues of a connection are left out; its id is its key in the map.
  pub record Downstream : Type 0 where
    pub downstream_data : DownstreamData
    pub requires_standard_jobs : Bool
    pub requires_custom_work : Bool
    pub supported_extensions : List ℕ
    pub required_extensions : List ℕ

  pub record ChannelManagerData : Type 0 where
    pub downstream : Map ℕ Downstream
    pub extranonce_prefix_factory_extended : ExtranonceFactory
    pub extranonce_prefix_factory_standard : ExtranonceFactory
    pub downstream_id_factory : ℕ
    pub vardiff : Map VardiffKey VardiffState
    pub coinbase_outputs : Bytes
    pub last_new_prev_hash : Option TemplatePrevHash
    pub last_future_template : Option NewTemplate

  -- The immutable part of `ChannelManager`.
  pub record PoolSettings : Type 0 where
    pub pool_tag_string : Bytes
    pub share_batch_size : ℕ
    pub shares_per_minute : Hashrate
    pub coinbase_reward_script : Bytes
    pub supported_extensions : List ℕ
    pub required_extensions : List ℕ

  pub data RouteMessageTo : Type 0 where
    template_provider : TemplateDistribution → RouteMessageTo
    to_downstream : ℕ → Mining → RouteMessageTo
