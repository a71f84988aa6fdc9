-- ===== src/Translator/Server/Miners.antt =====
-- sv1/downstream/downstream.rs on the server's map: what a miner's own task does to its data.
use mara_pool.Prelude.{nat_eq, ℕ, Bool, Option, none, some, [], Handler, pure}
use mara_pool.Prelude.Map.{lookup}
use mara_pool.Translator.Core.{Sv1Core, Message}
use mara_pool.Translator.State.{TproxyError, DownstreamData, Broadcast, Sv1Server}
use mara_pool.Translator.Difficulty.{write_downstream}
use mara_pool.Translator.Connection.{
  Sv1Protocol, Sv1Connection, handle_downstream_message, handle_sv1_server_message,
}

-- The two sides of the task's loop: the miner spoke, or a broadcast of the server came.
pub data MinerEvent : Type 0 where
  miner_spoke : Message → MinerEvent
  broadcast_came : Broadcast → MinerEvent

module _ ⦃core : Sv1Core⦄ where
  unfoldable pub handle_turn :
      Sv1Protocol → MinerEvent → Sv1Server → Handler Sv1Connection TproxyError (Unit {0})
  handle_turn protocol (miner_spoke m) s = handle_downstream_message protocol s.sv1_server_data m
  handle_turn protocol (broadcast_came b) s = handle_sv1_server_message b

  -- The task of a miner shares its data with the server's map. The two flags say whether its queues
  -- to the miner and to the server take messages.
  unfoldable pub miner_turn :
      Sv1Protocol
      → ℕ
      → MinerEvent
      → Bool
      → Bool
      → Option DownstreamData
      → Handler Sv1Server TproxyError (Unit {0})
  miner_turn protocol id event miner_open server_open none s = (pure tt) s
  miner_turn protocol id event miner_open server_open (some d) s =
      let (r, c) = handle_turn protocol event s (record {
        downstream_data = d;
        sent = [];
        to_server = [];
        miner_open = miner_open;
        server_open = server_open;
      }) in
      (
        r,
        record s {
          sv1_server_data = write_downstream id (λ _. c.downstream_data) s.sv1_server_data;
        },
      )

  unfoldable pub run_miner :
      Sv1Protocol → ℕ → MinerEvent → Bool → Bool → Handler Sv1Server TproxyError (Unit {0})
  run_miner protocol id event miner_open server_open s =
      miner_turn protocol id event miner_open server_open (lookup id s.sv1_server_data.downstreams)
        s
