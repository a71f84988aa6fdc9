-- ===== src/Translator/Connection/Methods.antt =====
-- sv1/downstream/message_handler.rs: what the methods of `IsServer` do to the connection's data, and
-- the protocol's dispatch that calls them.
use mara_pool.Prelude.{
  ℕ, Bool, true, false, Option, none, some, Result, ok, err, if◌then◌else◌, ◌==◌, list_eq,
}
use mara_pool.Prelude.Bits.{band}
use mara_pool.Stratum.{Bytes}
use mara_pool.Translator.Core.{Sv1Core, Submit, Message}
use mara_pool.Translator.State.{
  TproxyError, SubmitShareWithChannelId, DownstreamData, Sv1ServerData,
}
use mara_pool.Translator.Connection.Validation.{default_mask, validate_sv1_share}

module _ ⦃core : Sv1Core⦄ where
  -- The mask and the number of bits that the request names; the parameters of the answer are the
  -- protocol's.
  unfoldable pub handle_configure : Option ℕ → Option ℕ → DownstreamData → DownstreamData
  handle_configure mask min_bit d = record d {
    version_rolling_mask = elim mask [ none ↦ none | some m ↦ some (band 32 m default_mask) ];
    version_rolling_min_bit = min_bit;
  }

  unfoldable pub is_authorized : Bytes → DownstreamData → Bool
  is_authorized name d = d.authorized_worker_name == name

  unfoldable pub authorize_worker : Bytes → DownstreamData → DownstreamData
  authorize_worker name d = record d {
    authorized_worker_name = if is_authorized name d then d.authorized_worker_name else name;
    user_identity = name;
  }

  unfoldable pub set_version_rolling_mask : Option ℕ → DownstreamData → DownstreamData
  set_version_rolling_mask mask d = record d { version_rolling_mask = mask }

  unfoldable pub set_version_rolling_min_bit : Option ℕ → DownstreamData → DownstreamData
  set_version_rolling_min_bit min_bit d = record d { version_rolling_min_bit = min_bit }

  -- What `handle_submit` stores.
  abbrev pub share_to_send : ℕ → Submit → DownstreamData → SubmitShareWithChannelId
  share_to_send channel_id share d = record {
    channel_id = channel_id;
    downstream_id = d.downstream_id;
    share = share;
    extranonce = d.extranonce1;
    extranonce2_len = d.extranonce2_len;
    version_rolling_mask = d.version_rolling_mask;
    job_version = d.last_job_version_field;
  }

  -- By the channel, if there is one, and what the validation says.
  unfoldable pub accept_share :
      ℕ → Submit → Result TproxyError Bool → DownstreamData → Bool × DownstreamData
  accept_share channel_id share (ok true) d =
      (true, record d { pending_share = some (share_to_send channel_id share d) })
  accept_share channel_id share (ok false) d = (false, d)
  accept_share channel_id share (err e) d = (false, d)

  unfoldable pub handle_submit : Sv1ServerData → Submit → DownstreamData → Bool × DownstreamData
  handle_submit s share d = elim d.channel_id [
    | none ↦ (false, d)
    | some channel_id ↦
        accept_share channel_id share
          (validate_sv1_share share d.target d.extranonce1 d.version_rolling_mask s channel_id) d
  ]

  -- A run of the methods that write to the data.
  pub data CallsMethods (s : Sv1ServerData) : DownstreamData → DownstreamData → Type 0 where
    none_called : {d : DownstreamData} → CallsMethods s d d
    calls_configure :
        {d e : DownstreamData} (mask min_bit : Option ℕ)
        → CallsMethods s d e
        → CallsMethods s d (handle_configure mask min_bit e)
    calls_authorize :
        {d e : DownstreamData} (name : Bytes)
        → CallsMethods s d e
        → CallsMethods s d (authorize_worker name e)
    calls_set_mask :
        {d e : DownstreamData} (mask : Option ℕ)
        → CallsMethods s d e
        → CallsMethods s d (set_version_rolling_mask mask e)
    calls_set_min_bit :
        {d e : DownstreamData} (min_bit : Option ℕ)
        → CallsMethods s d e
        → CallsMethods s d (set_version_rolling_min_bit min_bit e)
    calls_submit :
        {d e : DownstreamData} (share : Submit)
        → CallsMethods s d e
        → CallsMethods s d (handle_submit s share e).1

  -- `IsServer::handle_message` of `sv1_api`: it parses the message, and reaches the data by the
  -- methods alone.
  pub record Sv1Protocol : Type 0 where
    pub handle_message :
        Sv1ServerData → Message → DownstreamData → Result ℕ (Option Message) × DownstreamData
    pub by_methods :
        (s : Sv1ServerData) (m : Message) (d : DownstreamData)
        → CallsMethods s d (handle_message s m d).1
