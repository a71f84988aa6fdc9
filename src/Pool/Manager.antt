-- ===== src/Pool/Manager.antt =====
-- channel_manager/mod.rs: the creation of the channel manager, its connections, and the arms of its
-- event loop.
pub mod Unknown
use mara_pool.Prelude.{
  ℕ, ◌+◌, ◌/◌, ◌%◌, Bool, true, false, if◌then◌else◌, pure, not, Option, none, some, List, [], ◌∷◌,
  Result, ok, err, Outcome, done, failed, panicked, Handler, gets, modify, ◌>>=◌, nat_eq, ◌==◌,
}
use mara_pool.Prelude.Map.{lookup, insert, remove, retain}
use mara_pool.Stratum.{
  StratumCore, Bytes, NewTemplate, TemplatePrevHash, ClientMessage, close_channel,
  open_standard_mining_channel, open_extended_mining_channel, submit_shares_standard,
  submit_shares_extended, update_channel, set_custom_mining_job,
}
use mara_pool.Pool.Error.{PoolError}
use mara_pool.Pool.State.{
  pool_allocation_bytes, client_search_space_bytes, next_usize, PoolSettings, Downstream,
  vardiff_key_eq,
}
use mara_pool.Pool.Access.{World}
use mara_pool.Pool.Connection.{new_downstream, Reply, ClientSetup, handle_client_setup}
use mara_pool.Pool.Shares.{handle_submit_shares_standard, handle_submit_shares_extended}
use mara_pool.Pool.Open.{handle_open_standard_mining_channel, handle_open_extended_mining_channel}
use mara_pool.Pool.Requests.{
  handle_close_channel, handle_update_channel, handle_set_custom_mining_job,
}
use mara_pool.Pool.Templates.{handle_new_template, handle_set_new_prev_hash}
use mara_pool.Pool.Vardiff.{run_vardiff}

-- `u16::to_be_bytes`.
unfoldable pub u16_to_be_bytes : ℕ → Bytes
u16_to_be_bytes n = (n / 256) % 256 ∷ (n % 256) ∷ []

module _ ⦃core : StratumCore⦄ where
  open core use {ExtranonceFactory, new_extranonce_factory}

  -- `make_extranonce_factory`.
  unfoldable pub make_extranonce_factory : ℕ → Result ℕ ExtranonceFactory
  make_extranonce_factory server_id =
      new_extranonce_factory (0, 0) (0, pool_allocation_bytes)
        (pool_allocation_bytes, pool_allocation_bytes + client_search_space_bytes)
        (some (u16_to_be_bytes server_id))

  -- `ChannelManager::new`; an error of a factory panics.
  unfoldable pub new : ℕ → Bytes → Outcome PoolError World
  new server_id coinbase_outputs = elim (make_extranonce_factory server_id) [
    | err e ↦ panicked
    | ok factory ↦ done (record {
      manager = record {
        downstream = [];
        extranonce_prefix_factory_extended = factory;
        extranonce_prefix_factory_standard = factory;
        downstream_id_factory = 1;
        vardiff = [];
        coinbase_outputs = coinbase_outputs;
        last_new_prev_hash = none;
        last_future_template = none;
      };
      persisted = [];
      routed = [];
    })
  ]

  -- A connection whose handshake went through gets an id and an entry.
  unfoldable pub accept_connection : PoolSettings → World → World
  accept_connection settings w =
      let id = w.manager.downstream_id_factory in
      record w {
        manager = record (w.manager) {
          downstream_id_factory = next_usize id;
          downstream = insert id (new_downstream settings) w.manager.downstream;
        };
      }

  unfoldable pub remove_downstream : ℕ → World → World
  remove_downstream d w = record w {
    manager = record (w.manager) {
      downstream = remove d w.manager.downstream;
      vardiff = retain (λ key. not (key.downstream_id == d)) w.manager.vardiff;
    };
  }

  -- What the manager does with a message of a client: the protocol crate calls the handler that
  -- belongs to the message.
  unfoldable pub handle_downstream_mining_message :
      PoolSettings → ℕ → ClientMessage → ℕ → Handler World PoolError (Unit {0})
  handle_downstream_mining_message settings d (close_channel id) now =
      handle_close_channel (some d) id
  handle_downstream_mining_message settings d (open_standard_mining_channel msg) now =
      handle_open_standard_mining_channel settings (some d) msg now
  handle_downstream_mining_message settings d (open_extended_mining_channel msg) now =
      handle_open_extended_mining_channel settings (some d) msg now
  handle_downstream_mining_message settings d (submit_shares_standard msg) now =
      handle_submit_shares_standard (some d) msg now
  handle_downstream_mining_message settings d (submit_shares_extended msg) now =
      handle_submit_shares_extended (some d) msg now
  handle_downstream_mining_message settings d (update_channel msg) now =
      handle_update_channel (some d) msg
  handle_downstream_mining_message settings d (set_custom_mining_job msg) now =
      handle_set_custom_mining_job settings (some d) msg

  -- How the frames of a connection fare: what their encoding answers, and whether the queue to the
  -- client takes more.
  pub record Outgoing : Type 0 where
    pub encode : Reply → Result ℕ (Unit {0})
    pub queue_open : Bool

  -- What the tasks that share the manager's data react to.
  pub data Event : Type 0 where
    connection_accepted : Event
    connection_setup : ℕ → ClientSetup → Outgoing → Event
    downstream_shutdown : ℕ → Event
    client_message : ℕ → ClientMessage → ℕ → Event
    template_received : NewTemplate → Event
    prev_hash_received : TemplatePrevHash → Event
    vardiff_tick : ℕ → Event

  -- A message that the connection handles itself. Its data are an entry of the map, if the map still
  -- has them; the frames that it sends are its own.
  unfoldable pub client_setup :
      ℕ → ClientSetup → Outgoing → Option Downstream → Handler World PoolError (Unit {0})
  client_setup d msg out none w = (done tt, w)
  client_setup d msg out (some ds) w =
      let (r, c) =
        handle_client_setup out.encode msg
          (record { downstream = ds; sent = []; queue_open = out.queue_open }) in
      (
        r,
        record w {
          manager = record (w.manager) { downstream = insert d c.downstream w.manager.downstream };
        },
      )

  -- One turn of the loops of `start`, of `start_downstream_server` and of a connection.
  unfoldable pub step : PoolSettings → Event → Handler World PoolError (Unit {0})
  step settings connection_accepted = modify (accept_connection settings)
  step settings (connection_setup d msg out) = do
    found ← gets (λ w. lookup d w.manager.downstream)
    client_setup d msg out found
  step settings (downstream_shutdown d) = modify (remove_downstream d)
  step settings (client_message d msg now) = handle_downstream_mining_message settings d msg now
  step settings (template_received msg) = handle_new_template msg
  step settings (prev_hash_received msg) = handle_set_new_prev_hash msg
  step settings (vardiff_tick now) = run_vardiff now

  -- Whether the event is one of the manager's loop in `start`. The others are of tasks of their own.
  abbrev pub of_manager : Event → Bool
  of_manager connection_accepted = false
  of_manager (connection_setup d msg out) = false
  of_manager (downstream_shutdown d) = true
  of_manager (client_message d msg now) = true
  of_manager (template_received msg) = true
  of_manager (prev_hash_received msg) = true
  of_manager (vardiff_tick now) = true

  abbrev pub is_done : {E A : Type 0} → Outcome E A → Bool
  is_done (done a) = true
  is_done (failed e) = false
  is_done panicked = false

  -- One event, where the flag says whether the manager's loop is still running: the loop ends at the
  -- first error that a handler returns, and the other tasks go on.
  unfoldable pub turn : PoolSettings → Event → Bool × World → Bool × World
  turn settings event (running, w) =
      let (r, w') = step settings event w in
      if of_manager event then (if running then (is_done r, w') else (false, w)) else (running, w')

  unfoldable pub run : PoolSettings → List Event → Bool × World → Bool × World
  run settings [] k = k
  run settings (event ∷ events) k = run settings events (turn settings event k)
