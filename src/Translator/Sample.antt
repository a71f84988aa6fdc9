-- ===== src/Translator/Sample.antt =====
-- A small instance of the third-party crates, and a server and a connection for tests.
use mara_pool.Prelude.{
  ℕ, ◌+◌, ◌*◌, ◌/◌, Bool, true, false, Option, none, some, [], ◌∷◌, Result, ok, err, if◌then◌else◌,
  ltb,
}
use mara_pool.Stratum.{Bytes, SetNewPrevHash}
use mara_pool.Translator.Core.{
  Sv1Core, Notify, Submit, set_difficulty, notify, RequestMethod, authorize, other_request, Message,
  standard_request, notification, response,
}
use mara_pool.Translator.State.{
  DownstreamData, new_downstream_data, Sv1ServerData, new_server_data, Sv1Server, TranslatorConfig,
}
use mara_pool.Translator.Connection.{
  Sv1Protocol, CallsMethods, none_called, calls_authorize, calls_submit, authorize_worker,
  handle_submit, Sv1Connection,
}

abbrev pub sample_prev_hash : SetNewPrevHash
sample_prev_hash = record {
  channel_id = 3;
  job_id = 0;
  prev_hash = 7 ∷ [];
  min_ntime = 10;
  nbits = 20;
}

abbrev pub sample_job : Bytes → Bool → Notify
sample_job name clean = record {
  job_id = name;
  prev_hash = 7 ∷ [];
  coin_base1 = 1 ∷ [];
  coin_base2 = 2 ∷ [];
  merkle_branch = [];
  version = 5;
  bits = 20;
  time = 10;
  clean_jobs = clean;
}

abbrev pub root : Bytes
root =
    1 ∷ 2 ∷ 3 ∷ 4 ∷ 5 ∷ 6 ∷ 7 ∷ 8 ∷ 1 ∷ 2 ∷ 3 ∷ 4 ∷ 5 ∷ 6 ∷ 7 ∷ 8 ∷ 1 ∷ 2 ∷ 3 ∷ 4 ∷ 5 ∷ 6 ∷ 7 ∷ 8
    ∷ 1 ∷ 2 ∷ 3 ∷ 4 ∷ 5 ∷ 6 ∷ 7 ∷ 8 ∷ []

-- The state of vardiff is the number of shares; a miner with more than two is twice as fast.
abbrev pub sample_vardiff : ℕ → ℕ → ℕ → ℕ → ℕ → Result ℕ (Option ℕ) × ℕ
sample_vardiff shares hashrate target spm now =
    (if ltb 2 shares then ok (some (2 * hashrate)) else ok none, 0)

abbrev pub sample_set_difficulty : ℕ → Message
sample_set_difficulty target =
    notification (record { method = set_difficulty; params = target ∷ [] })

instance abbrev pub sample_sv1 : Sv1Core
sample_sv1 = record {
  Hashrate = ℕ;
  zero_hashrate = 0;
  add_hashrate = λ a b. a + b;
  hash_rate_to_target = λ h spm. if ltb 0 h then ok (1000 / h) else err 0;
  VardiffState = ℕ;
  vardiff_new = λ now. ok 0;
  increment_shares_since_last_update = λ shares. shares + 1;
  try_vardiff = sample_vardiff;
  build_set_difficulty = λ target. ok (sample_set_difficulty target);
  build_notify = λ p m clean. ok (sample_job m.payload clean);
  notify_message = λ n. notification (record { method = notify; params = n.job_id });
  notify_of = λ n. ok (sample_job n.params false);
  merkle_root_from_path = λ a b extranonce path. some root;
  u256_from_vec = λ bytes. ok bytes;
  u256_to_block_hash = λ bytes. bytes;
  block_hash = λ h. h.nonce;
  build_submit_shares = λ share c sequence version mask. ok (record {
    channel_id = c;
    sequence_number = sequence;
    job_id = 0;
    nonce = share.nonce;
    ntime = share.time;
    version = version;
    extranonce = share.extra_nonce2;
  });
  user_identity_tlv = λ name. ok (some name);
  OpenExtendedMiningChannel = ℕ;
  request_id_of = λ m. m;
  build_open_channel = λ request name h target size. ok request;
}

-- The parameters of a request that is no authorization are the job, and its share has nonce 9.
abbrev pub sample_share : Bytes → Submit
sample_share job_id = record {
  job_id = job_id;
  extra_nonce2 = 4 ∷ [];
  time = 11;
  nonce = 9;
  version_bits = none;
}

abbrev pub handle_sample :
    Sv1ServerData → Message → DownstreamData → Result ℕ (Option Message) × DownstreamData
handle_sample s (notification n) d = (err 0, d)
handle_sample s (response b) d = (ok none, d)
handle_sample s (standard_request r) d = elim r.method [
  | authorize ↦ (ok (some (response (1 ∷ []))), authorize_worker r.params d)
  | other_request ↦ (ok (some (response (2 ∷ []))), (handle_submit s (sample_share r.params) d).1)
]

pub handle_sample-CallsMethods :
    (s : Sv1ServerData) (m : Message) (d : DownstreamData)
    → CallsMethods s d (handle_sample s m d).1
handle_sample-CallsMethods s (notification n) d = none_called
handle_sample-CallsMethods s (response b) d = none_called
handle_sample-CallsMethods s (standard_request r) d = by_method r.method
  where
    by_method :
        (m : RequestMethod)
        → CallsMethods s d (handle_sample s (standard_request (record r { method = m })) d).1
    by_method authorize = calls_authorize r.params none_called
    by_method other_request = calls_submit (sample_share r.params) none_called

abbrev pub sample_protocol : Sv1Protocol
sample_protocol = record { handle_message = handle_sample; by_methods = handle_sample-CallsMethods }

abbrev pub sample_config : Bool → Bool → TranslatorConfig
sample_config aggregate vardiff = record {
  aggregate_channels = aggregate;
  enable_vardiff = vardiff;
  shares_per_minute = 6;
  min_individual_miner_hashrate = 10;
  downstream_extranonce2_size = 4;
  user_identity = 65 ∷ [];
}

-- A miner with channel 3.
abbrev pub sample_miner : DownstreamData
sample_miner = record (new_downstream_data 1 100 (some 10)) {
  channel_id = some 3;
  upstream_target = some 60;
}

-- A server with that miner, one job of channel 3, and one update that waits.
abbrev pub sample_data : Bool → Sv1ServerData
sample_data aggregate = record (new_server_data aggregate) {
  downstreams = (1, sample_miner) ∷ [];
  vardiff = (1, 3) ∷ [];
  downstream_id_factory = 2;
  aggregated_valid_jobs = elim aggregate [
    | true ↦ some (sample_job (8 ∷ []) true ∷ [])
    | false ↦ none
  ];
  non_aggregated_valid_jobs = elim aggregate [
    | true ↦ none
    | false ↦ some ((3, sample_job (8 ∷ []) true ∷ []) ∷ [])
  ];
  pending_target_updates = record { downstream_id = 1; new_target = 50; new_hashrate = 20 } ∷ [];
}

abbrev pub sample_server : Bool → Sv1Server
sample_server aggregate = record {
  sv1_server_data = sample_data aggregate;
  to_upstream = [];
  broadcasts = [];
  clean_job = false;
  miner_counter = 0;
  sequence_counter = 0;
  upstream_open = true;
  has_receivers = true;
}

abbrev pub sample_connection : DownstreamData → Sv1Connection
sample_connection d = record {
  downstream_data = d;
  sent = [];
  to_server = [];
  miner_open = true;
  server_open = true;
}
