-- ===== src/Pool/Error.antt =====
-- pool-apps/pool/src/lib/error.rs: the errors that the modelled code returns. The payload of an
-- error of another crate is a number.
use mara_pool.Prelude.{ℕ, List}
use mara_pool.Stratum.{StandardChannelError, ExtendedChannelError, ShareValidationError}

pub data ChannelSv2Error : Type 0 where
  extended_channel_server_side : ExtendedChannelError → ChannelSv2Error
  standard_channel_server_side : StandardChannelError → ChannelSv2Error
  group_channel_server_side : ℕ → ChannelSv2Error
  extranonce_error : ℕ → ChannelSv2Error
  share_validation_error : ShareValidationError → ChannelSv2Error

pub data PoolError : Type 0 where
  channel_sv2 : ChannelSv2Error → PoolError
  binary_sv2 : ℕ → PoolError
  framing_missing_header : PoolError
  vardiff_error : ℕ → PoolError
  parser : ℕ → PoolError
  unexpected_message : (extension_type message_type : ℕ) → PoolError
  channel_error_sender : PoolError
  channel_send : PoolError
  noise_expected_incoming_handshake_message : PoolError
  bitcoin_encode_error : ℕ → PoolError
  downstream_not_found : ℕ → PoolError
  downstream_id_not_found : PoolError
  future_template_not_present : PoolError
  last_new_prevhash_not_found : PoolError
  vardiff_not_found : ℕ → PoolError
  failed_to_create_group_channel : ℕ → PoolError
  invalid_unsupported_extensions_sequence : ℕ → PoolError
  invalid_required_extensions_sequence : ℕ → PoolError
  invalid_supported_extensions_sequence : ℕ → PoolError
  client_does_not_support_required_extensions : List ℕ → PoolError

-- The `From` implementations that `?` uses.
abbrev pub from_extended : ExtendedChannelError → PoolError
from_extended e = channel_sv2 (extended_channel_server_side e)

abbrev pub from_standard : StandardChannelError → PoolError
from_standard e = channel_sv2 (standard_channel_server_side e)

abbrev pub from_group : ℕ → PoolError
from_group e = channel_sv2 (group_channel_server_side e)

abbrev pub from_extranonce : ℕ → PoolError
from_extranonce e = channel_sv2 (extranonce_error e)

abbrev pub from_share_validation : ShareValidationError → PoolError
from_share_validation e = channel_sv2 (share_validation_error e)
