-- ===== src/Pool/Sample.antt =====
-- A small instance of the protocol crates and some states, for tests.
use mara_pool.Prelude.{
  ℕ, zero, suc, ◌+◌, ltb, true, false, Option, none, some, [], ◌∷◌, Result, ok, err, if◌then◌else◌,
}
use mara_pool.Stratum.{
  StratumCore, NewTemplate, OpenExtendedMiningChannel, ServerChannel, JobKind, GroupChannelOps,
  Bytes, SubmitSharesStandard, SubmitSharesExtended, SetCustomMiningJob, StandardChannelError,
  ExtendedChannelError, ShareValidationError, ShareValidationResult, valid, block_found,
  OpenStandardMiningChannel, UpdateChannel,
}
use mara_pool.Pool.State.{PoolSettings, Downstream, vardiff_key}
use mara_pool.Pool.Access.{World, Locked, lock}

-- A channel with its target, its extranonce prefix, how many shares it has accepted, and its jobs.
pub record SampleChannel : Type 0 where
  pub target : ℕ
  pub hashrate : ℕ
  pub prefix : Bytes
  pub accepted : ℕ
  pub future : Option ℕ
  pub active : Option ℕ

-- A share is valid where its nonce is below the target, and a block where it is 0.
abbrev sample_judge :
    SampleChannel → ℕ → Result ShareValidationError ShareValidationResult × SampleChannel
sample_judge channel zero =
    (ok (block_found (0 ∷ []) (some 1) []), record channel { accepted = channel.accepted + 1 })
sample_judge channel (suc n) =
    if ltb (suc n) channel.target
    then (ok (valid (suc n ∷ [])), record channel { accepted = channel.accepted + 1 })
    else (err ShareValidationError.does_not_meet_target, channel)

abbrev sample_update :
    {E : Type 0} → E → SampleChannel → ℕ → Option ℕ → Result E (Unit {0}) × SampleChannel
sample_update e channel zero target = (err e, channel)
sample_update e channel (suc rate) none = (ok tt, record channel { hashrate = suc rate })
sample_update e channel (suc rate) (some t) =
    (ok tt, record channel { target = t; hashrate = suc rate })

abbrev sample_channel_ops : (E Share : Type 0) → E → (Share → ℕ) → ServerChannel ℕ ℕ ℕ E Share
sample_channel_ops E Share e nonce = record {
  Channel = SampleChannel;
  get_target = λ c. c.target;
  get_nominal_hashrate = λ c. c.hashrate;
  get_shares_per_minute = λ c. 6;
  get_extranonce_prefix = λ c. c.prefix;
  get_user_identity = λ c. [];
  get_share_accounting = λ c. record {
    should_acknowledge = true;
    last_share_sequence_number = c.accepted;
    last_batch_accepted = 1;
    last_batch_work_sum = 1;
  };
  validate_share = λ c share. sample_judge c (nonce share);
  update_channel = sample_update e;
  on_new_template = λ c t outputs. (ok tt, record c { future = some t.template_id });
  on_set_new_prev_hash = λ c p. (ok tt, record c { active = c.future; future = none });
  future_job_id = λ c t. c.future;
  future_job = λ c j. c.future;
  get_active_job = λ c. c.active;
}

abbrev sample_jobs : JobKind
sample_jobs = record { Job = ℕ; Message = ℕ; get_job_id = λ j. j; get_job_message = λ j. j }

abbrev sample_group : GroupChannelOps ℕ
sample_group = record {
  Channel = SampleChannel;
  new_for_pool = λ id size tag. ok (record {
    target = 0;
    hashrate = 0;
    prefix = [];
    accepted = id;
    future = none;
    active = none;
  });
  on_new_template = λ c t outputs. (ok tt, record c { future = some t.template_id });
  on_set_new_prev_hash = λ c p. (ok tt, record c { active = c.future; future = none });
  get_group_channel_id = λ c. c.accepted;
  add_standard_channel_id = λ c id. c;
  future_job_id = λ c t. c.future;
  future_job = λ c j. c.future;
  get_active_job = λ c. c.active;
}

abbrev sample_new : ℕ → Bytes → ℕ → ℕ → SampleChannel
sample_new id prefix target rate = record {
  target = target;
  hashrate = rate;
  prefix = prefix;
  accepted = 0;
  future = none;
  active = none;
}

instance abbrev pub sample_core : StratumCore
sample_core = record {
  Hashrate = ℕ;
  Work = ℕ;
  work_as_u64 = λ w. w;
  difficulty_float = λ t. t;
  standard_jobs = sample_jobs;
  extended_jobs = sample_jobs;
  standard =
      sample_channel_ops StandardChannelError SubmitSharesStandard
        StandardChannelError.invalid_nominal_hashrate (λ s. s.nonce);
  extended =
      sample_channel_ops ExtendedChannelError SubmitSharesExtended
        ExtendedChannelError.invalid_nominal_hashrate (λ s. s.nonce);
  group = sample_group;
  new_standard = λ id user prefix target rate batch spm tag. ok (sample_new id prefix target rate);
  on_group_channel_job = λ c job. record c { active = some job };
  new_extended = λ id user prefix target rate rolling size batch spm tag.
      ok (sample_new id prefix target rate);
  get_rollable_extranonce_size = λ c. 16;
  on_set_custom_mining_job = λ c msg. (ok 1, record c { active = some 1 });
  ExtranonceFactory = ℕ;
  new_extranonce_factory = λ a b c prefix. ok 0;
  next_prefix_standard = λ n. (ok (n ∷ []), n + 1);
  next_prefix_extended = λ n size. (ok (n ∷ []), n + 1);
  VardiffState = ℕ;
  vardiff_new = λ now. ok 0;
  increment_shares_since_last_update = λ n. n + 1;
  try_vardiff = λ n rate target spm now. (ok (some (rate + 1)), 0);
  decode_outputs = λ bytes. ok (record { value = 1; script_pubkey = bytes } ∷ []);
  deserialize_outputs = λ bytes. some [];
  to_b032 = λ bytes. ok bytes;
  to_b064k = λ bytes. ok bytes;
  has_work_selection = λ flags. false;
  has_requires_std_job = λ flags. false;
  seq064k = λ xs. ok xs;
}

abbrev pub sample_settings : PoolSettings
sample_settings = record {
  pool_tag_string = [];
  share_batch_size = 10;
  shares_per_minute = 6;
  coinbase_reward_script = 1 ∷ [];
  supported_extensions = 1 ∷ 2 ∷ [];
  required_extensions = 1 ∷ [];
}

abbrev pub sample_channel : SampleChannel
sample_channel = sample_new 2 (9 ∷ []) 100 5

-- A connection with the standard channel 2 and the extended channel 3.
abbrev pub sample_downstream : Downstream
sample_downstream = record {
  downstream_data = record {
    group_channels = none;
    extended_channels = (3, sample_channel) ∷ [];
    standard_channels = (2, sample_channel) ∷ [];
    channel_id_factory = 4;
    negotiated_extensions = [];
  };
  requires_standard_jobs = false;
  requires_custom_work = false;
  supported_extensions = 1 ∷ 2 ∷ [];
  required_extensions = 1 ∷ [];
}

abbrev pub empty_world : World
empty_world = record {
  manager = record {
    downstream = [];
    extranonce_prefix_factory_extended = 0;
    extranonce_prefix_factory_standard = 0;
    downstream_id_factory = 1;
    vardiff = [];
    coinbase_outputs = [];
    last_new_prev_hash = none;
    last_future_template = none;
  };
  persisted = [];
  routed = [];
}

-- A manager that knows the connection 1.
abbrev pub sample_world : World
sample_world = record empty_world {
  manager = record (empty_world.manager) {
    downstream = (1, sample_downstream) ∷ [];
    downstream_id_factory = 2;
    vardiff = (vardiff_key 1 2, 0) ∷ (vardiff_key 1 3, 0) ∷ [];
  };
}

abbrev pub sample_locked : Locked
sample_locked = lock sample_world sample_downstream

-- A share on channel 2, and one on channel 3.
abbrev pub sample_share : SubmitSharesStandard
sample_share = record {
  channel_id = 2;
  sequence_number = 1;
  job_id = 1;
  nonce = 42;
  ntime = 0;
  version = 0;
}

abbrev pub sample_extended_share : SubmitSharesExtended
sample_extended_share = record {
  channel_id = 3;
  sequence_number = 1;
  job_id = 1;
  nonce = 42;
  ntime = 0;
  version = 0;
  extranonce = [];
}

abbrev pub sample_update_channel : UpdateChannel
sample_update_channel = record { channel_id = 2; nominal_hash_rate = 7; maximum_target = 50 }

abbrev pub sample_template : NewTemplate
sample_template = record {
  template_id = 1;
  future_template = true;
  version = 0;
  coinbase_tx_version = 0;
  coinbase_prefix = [];
  coinbase_tx_input_sequence = 0;
  coinbase_tx_value_remaining = 50;
  coinbase_tx_outputs_count = 0;
  coinbase_tx_outputs = [];
  coinbase_tx_locktime = 0;
  merkle_path = [];
}

-- The locked state with a template and its previous hash.
abbrev pub served_locked : Locked
served_locked = record sample_locked {
  manager = record (sample_locked.manager) {
    last_future_template = some sample_template;
    last_new_prev_hash =
        some (record {
          template_id = 1;
          prev_hash = [];
          header_timestamp = 0;
          n_bits = 0;
          target = 0;
        });
  };
}

abbrev pub sample_open_extended : OpenExtendedMiningChannel
sample_open_extended = record {
  request_id = 1;
  user_identity = [];
  nominal_hash_rate = 7;
  max_target = 50;
  min_extranonce_size = 8;
}

abbrev pub sample_open : OpenStandardMiningChannel
sample_open = record { request_id = 1; user_identity = []; nominal_hash_rate = 7; max_target = 50 }

abbrev pub sample_custom_job : SetCustomMiningJob
sample_custom_job = record {
  request_id = 1;
  channel_id = 3;
  coinbase_tx_outputs = 5 ∷ [];
  payload = [];
}
