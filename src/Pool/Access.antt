-- ===== src/Pool/Access.antt =====
-- The handlers of the channel manager as stateful computations: what a handler can change, the
-- nested locks, and the forwarding of messages (channel_manager/mod.rs).
use mara_pool.Prelude.{
  ℕ, Bool, Option, none, some, List, ◌++◌, nat_eq, ◌>>=◌, Outcome, failed, Handler,
}
use mara_pool.Prelude.Map.{lookup, insert}
use mara_pool.Stratum.{StratumCore, Bytes, ErrorCode}
use mara_pool.Pool.Error.{PoolError}
use mara_pool.Pool.State.{ChannelManagerData, Downstream, DownstreamData, RouteMessageTo}

module _ ⦃core : StratumCore⦄ where
  open core use {Hashrate, Work}

  -- `persistence::ShareEvent`. The text of an error is the error code that the client is sent.
  pub record ShareEvent : Type 0 where
    pub error_code : Option ErrorCode
    pub extranonce_prefix : Bytes
    pub is_block_found : Bool
    pub is_valid : Bool
    pub nominal_hash_rate : Hashrate
    pub nonce : ℕ
    pub ntime : ℕ
    pub rollable_extranonce_size : Option ℕ
    pub share_hash : Option Bytes
    pub share_work : Work
    pub target : ℕ
    pub template_id : Option ℕ
    pub timestamp : ℕ
    pub user_identity : Bytes
    pub version : ℕ

  -- The channel manager with what it has handed to the persistence layer and to its two outgoing
  -- queues, oldest first.
  pub record World : Type 0 where
    pub manager : ChannelManagerData
    pub persisted : List ShareEvent
    pub routed : List RouteMessageTo

  -- What a closure can change under the two locks: `channel_manager_data` and `downstream_data`.
  pub record Locked : Type 0 where
    pub manager : ChannelManagerData
    pub downstream_data : DownstreamData
    pub persisted : List ShareEvent

  abbrev pub lock : World → Downstream → Locked
  lock w ds = record {
    manager = w.manager;
    downstream_data = ds.downstream_data;
    persisted = w.persisted;
  }

  -- The world when both locks are released.
  abbrev pub unlock : World → ℕ → Downstream → Locked → World
  unlock w d ds l = record w {
    manager = record manager {
      downstream = insert d (record ds { downstream_data = l.downstream_data }) manager.downstream;
    };
    persisted = l.persisted;
  }
    where
      open l use {manager}

  -- `let Some(downstream) = ..get_mut(&id) else { return Err(e) }`, then the inner lock.
  unfoldable pub with_downstream :
      {A : Type 0}
      → ℕ
      → PoolError
      → (Downstream → Handler Locked PoolError A)
      → Handler World PoolError A
  with_downstream d e body w = elim (lookup d w.manager.downstream) [
    | none ↦ (failed e, w)
    | some ds ↦ let (r, l) = body ds (lock w ds) in (r, unlock w d ds l)
  ]

  -- `for message in messages { message.forward(..) }`: a failed send is ignored.
  unfoldable pub forward : List RouteMessageTo → Handler World PoolError (Unit {0})
  forward messages w = (Outcome.done tt, record w { routed = w.routed ++ messages })

  -- A handler that runs a closure under the locks and forwards its messages.
  unfoldable pub serve :
      ℕ
      → PoolError
      → (Downstream → Handler Locked PoolError (List RouteMessageTo))
      → Handler World PoolError (Unit {0})
  serve d e body = do messages ← with_downstream d e body; forward messages
