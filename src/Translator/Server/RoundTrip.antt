-- ===== src/Translator/Server/RoundTrip.antt =====
-- The request of a channel and the answer to it.
use mara_pool.Prelude.{List, [], ◌∷◌, ℕ, some, ◌≡◌, Result, nat_eq}
use mara_pool.Prelude.Map.{lookup}
use mara_pool.Prelude.Bits.{next_u32}
use mara_pool.Translator.Core.{Sv1Core}
use mara_pool.Translator.State.{DownstreamData, Sv1Server, TranslatorConfig}
use mara_pool.Translator.Difficulty.{write_downstream}
use mara_pool.Translator.Server.Opening.{
  miner_name, set_identity, store_initial_target, handle_open_channel_request,
}

module _ ⦃core : Sv1Core⦄ where
  open core use {OpenExtendedMiningChannel, request_id_of, build_open_channel}

  -- The request is known as the one of the connection, and the next one has number `n`.
  abbrev Asked : ℕ → ℕ → ℕ → Sv1Server → Type 0
  Asked request_id id n s =
      (lookup request_id s.sv1_server_data.request_id_to_downstream_id ≡ some id)
      × ((d : DownstreamData) × (lookup id s.sv1_server_data.downstreams ≡ some d))
      × (s.sv1_server_data.request_id_factory ≡ n)

  -- The server before the request is sent.
  abbrev named : TranslatorConfig → ℕ → ℕ → Sv1Server → Sv1Server
  named config e target s = record s {
    sv1_server_data =
        write_downstream e
          (set_identity (miner_name config.user_identity (next_u32 s.miner_counter)))
          (store_initial_target target s.sv1_server_data);
    miner_counter = next_u32 s.miner_counter;
  }

  abbrev request : TranslatorConfig → ℕ → ℕ → Sv1Server → Result ℕ OpenExtendedMiningChannel
  request config rid target s =
      build_open_channel rid (miner_name config.user_identity (next_u32 s.miner_counter))
        config.min_individual_miner_hashrate target config.downstream_extranonce2_size

  -- The requests of these miners, one after the other.
  abbrev pub ask_all : TranslatorConfig → List ℕ → Sv1Server → Sv1Server
  ask_all config [] s = s
  ask_all config (e ∷ es) s = ask_all config es (handle_open_channel_request config e s).1
