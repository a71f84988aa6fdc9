-- ===== src/Translator/Core.antt =====
-- The parts of `sv1_api`, `stratum_translation`, `channels_sv2` and `bitcoin` that the translator
-- calls, as plain data and a record of types and operations.
use mara_pool.Prelude.{ℕ, Bool, Option, List, Result}
use mara_pool.Stratum.{Bytes, SetNewPrevHash, SubmitSharesExtended}

-- `server_to_client::Notify`.
pub record Notify : Type 0 where
  pub job_id : Bytes
  pub prev_hash : Bytes
  pub coin_base1 : Bytes
  pub coin_base2 : Bytes
  pub merkle_branch : List Bytes
  pub version : ℕ
  pub bits : ℕ
  pub time : ℕ
  pub clean_jobs : Bool

-- `client_to_server::Submit`, with the fields that the translator reads.
pub record Submit : Type 0 where
  pub job_id : Bytes
  pub extra_nonce2 : Bytes
  pub time : ℕ
  pub nonce : ℕ
  pub version_bits : Option ℕ

-- The fields of `Header` that are hashed.
pub record Header : Type 0 where
  pub version : ℕ
  pub prev_blockhash : Bytes
  pub merkle_root : Bytes
  pub time : ℕ
  pub bits : ℕ
  pub nonce : ℕ

-- The methods that the translator compares with.
pub data NotificationMethod : Type 0 where
  set_difficulty : NotificationMethod
  notify : NotificationMethod
  other_notification : NotificationMethod

pub data RequestMethod : Type 0 where
  authorize : RequestMethod
  other_request : RequestMethod

pub record Notification : Type 0 where
  pub method : NotificationMethod
  pub params : Bytes

pub record StandardRequest : Type 0 where
  pub method : RequestMethod
  pub params : Bytes

-- `json_rpc::Message`; `response` stands for the two kinds of response.
pub data Message : Type 0 where
  standard_request : StandardRequest → Message
  notification : Notification → Message
  response : Bytes → Message

-- `NewExtendedMiningJob`: its channel, and the rest.
pub record NewExtendedMiningJob : Type 0 where
  pub channel_id : ℕ
  pub payload : Bytes

pub record Sv1Core : Type 1 where
  -- `f32`: zero, addition.
  pub Hashrate : Type 0
  pub zero_hashrate : Hashrate
  pub add_hashrate : Hashrate → Hashrate → Hashrate
  -- The target for a hash rate and a number of shares per minute.
  pub hash_rate_to_target : Hashrate → Hashrate → Result ℕ ℕ
  -- `VardiffState`; the last number is the reading of the clock.
  pub VardiffState : Type 0
  pub vardiff_new : ℕ → Result ℕ VardiffState
  pub increment_shares_since_last_update : VardiffState → VardiffState
  pub try_vardiff :
      VardiffState → Hashrate → ℕ → Hashrate → ℕ → Result ℕ (Option Hashrate) × VardiffState
  pub build_set_difficulty : ℕ → Result ℕ Message
  -- The previous hash, the job and the flag of clean jobs.
  pub build_notify : SetNewPrevHash → NewExtendedMiningJob → Bool → Result ℕ Notify
  pub notify_message : Notify → Message
  -- `Notify::try_from` on a notification.
  pub notify_of : Notification → Result ℕ Notify
  -- The coinbase parts, the extranonce between them, and the merkle path.
  pub merkle_root_from_path : Bytes → Bytes → Bytes → List Bytes → Option Bytes
  -- `U256::from_vec_`, and the hash of the previous block as the header holds it.
  pub u256_from_vec : Bytes → Result ℕ Bytes
  pub u256_to_block_hash : Bytes → Bytes
  -- The hash of a header as a number, to be compared with a target.
  pub block_hash : Header → ℕ
  -- The share, its channel, the sequence number, the job's version and the rolling mask.
  pub build_submit_shares : Submit → ℕ → ℕ → ℕ → Option ℕ → Result ℕ SubmitSharesExtended
  -- `UserIdentity::new`, which may refuse the name, and `to_tlv().ok()`.
  pub user_identity_tlv : Bytes → Result ℕ (Option Bytes)
  -- `OpenExtendedMiningChannel`: its request, the identity, the hash rate, the target and the size of
  -- the extranonce.
  pub OpenExtendedMiningChannel : Type 0
  pub request_id_of : OpenExtendedMiningChannel → ℕ
  pub build_open_channel : ℕ → Bytes → Hashrate → ℕ → ℕ → Result ℕ OpenExtendedMiningChannel
