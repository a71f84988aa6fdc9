-- ===== src/Lib.antt =====
-- A verification development for the mining pool of this repository: the pool application
-- `pool-apps/pool`, whose channel manager serves Stratum V2 clients, and the SV1 side of the
-- translator `miner-apps/translator`, which lets SV1 miners mine on such a pool.
--
-- The program. `ChannelManager` (pool-apps/pool/src/lib/channel_manager) owns all state behind one
-- mutex: the connections, the extranonce factories, the last template and previous hash, and a
-- vardiff state per channel. Each connection (pool-apps/pool/src/lib/downstream) has its channels
-- behind a mutex of its own. The manager's loop reacts to messages of clients, to templates of the
-- template provider, to shutdowns of connections and to a timer. Its replies go to a queue that all
-- connections read, and to a queue for the template provider. Shares are handed to a persistence
-- layer (stratum-apps/src/persistence), of which the composite back end is modelled too.
--
-- The translator has an SV1 server (miner-apps/translator/src/lib/sv1/sv1_server) whose data are
-- behind one mutex, and a connection for each miner (sv1/downstream). A connection queues the
-- miner's messages until its channel is open, validates the miner's shares, hands them to the server
-- through a queue, and takes the server's broadcasts. The server talks to the SV2 channel manager
-- through two queues, and keeps the targets of the miners with the help of a difficulty manager,
-- which compares each target with the one that the upstream has set.
--
-- How the files correspond to the code.
--   Prelude          names of the libraries, Boolean tests on numbers, lists; Results is the state
--                    and error monad of the handlers, Map the association lists that stand for
--                    `HashMap`, Bits the bitwise operations on `u32`.
--   Stratum          Types and Messages are the plain data of the protocol crates that the code
--                    reads or writes. Library is the record `StratumCore` of what the crates
--                    `channels_sv2`, `mining_sv2` and `bitcoin` offer. These crates are not part
--                    of the repository, so the record is a parameter of everything.
--   Pool.Error       pool-apps/pool/src/lib/error.rs.
--   Pool.State       the records of channel_manager/mod.rs and downstream/mod.rs, and the keys of
--                    stratum-apps/src/utils/types.rs.
--   Pool.Access      the two nested `super_safe_lock`s and `RouteMessageTo::forward`.
--   Pool.Open, Pool.Shares, Pool.Requests
--                    channel_manager/mining_message_handler.rs: `handle_open_*_mining_channel`,
--                    `handle_submit_shares_*`, and `handle_close_channel`, `handle_update_channel`
--                    and `handle_set_custom_mining_job`.
--   Pool.Templates   channel_manager/template_distribution_message_handler.rs.
--   Pool.Vardiff     `run_vardiff` and its helpers in channel_manager/mod.rs.
--   Pool.Manager     `new`, the connections and the loops of channel_manager/mod.rs: the manager's
--                    own, the one that accepts connections, and those of the connections where
--                    they write the shared data.
--   Pool.Connection  downstream/mod.rs, common_message_handler.rs, extensions_message_handler.rs.
--   Pool.Sync        the invariant on the vardiff map, for one operation after the other.
--   Pool.Isolation   what a message of one client can do to another.
--   Pool.Open.Replies, Pool.Shares.Errors, Pool.Shares.Records, Pool.Requests.Closing,
--   Pool.Templates.Addressed, Pool.Manager.Unknown, Pool.Connection.Setup,
--   Pool.Connection.Negotiation and Pool.Connection.Broadcast are theorems on the module that they stand in.
--   Pool.Sample and Pool.Tests are a small instance of the protocol crates and the theorems at
--   concrete states.
--
--   Translator.Core  the plain data of `sv1_api` and the record `Sv1Core` of what `sv1_api`,
--                    `stratum_translation`, `channels_sv2` and `bitcoin` offer, a parameter again.
--   Translator.State sv1_server/data.rs, sv1/downstream/data.rs and mod.rs, error.rs, config.rs.
--   Translator.Difficulty
--                    sv1_server/difficulty_manager.rs: Proposals and Upstream are
--                    `handle_vardiff_updates` and the `UpdateChannel` messages, SetTarget is
--                    `handle_set_target_message`; Fairness, Rounds, Applied and Settling are
--                    theorems on them.
--   Translator.Connection
--                    Validation is `validate_sv1_share` of utils.rs, Methods is
--                    sv1/downstream/message_handler.rs, Handlers is sv1/downstream/downstream.rs;
--                    Versions, Accepted, Delivery, Opening, Forwarding and Shares are
--                    theorems on them.
--   Translator.Server
--                    sv1_server/sv1_server.rs: Opening, Jobs, Sending and Lifecycle. Miners is the
--                    loop of a miner's task (sv1/downstream/downstream.rs) on the server's map;
--                    Stale, Attaching, RoundTrip and Registry are theorems on them.
--   Persistence      stratum-apps/src/persistence/composite.rs, with Persistence.Routing and its tests.
--   Translator.Sample and Translator.Tests are what Pool.Sample and Pool.Tests are for the pool.
--
-- How the code is translated. A handler is a function from a state to an outcome and a new state.
-- The outcome is a value, an error or a panic (`expect`, `unwrap`, an index out of range). The state
-- is kept also for an error or a panic, since the code writes through references. `World` is the
-- manager with the events handed to the persistence layer and the messages put in the two queues,
-- oldest first; a send that fails is ignored by the code, so forwarding always succeeds. `Locked` is
-- what a closure sees under both locks. A closure runs as a whole, as the mutexes see to it, and the
-- events of the tasks are a list in any order. Where the manager's own loop has ended, after an error
-- or a panic, `run` passes over its events, and the other tasks go on. A lock that a panic poisoned
-- makes later calls panic in the code; the model lets them go on, so it has more runs. A `HashMap` is an association list: an iteration
-- follows the list, whose order nothing depends on but the order of messages.
--
-- The translator's `Sv1Server` and `Sv1Connection` carry the messages that were sent in the same
-- way, and whether a queue whose errors the code returns takes more; where an error of a send is
-- only logged the message counts as sent. The dispatch of a miner's message by
-- `IsServer::handle_message` belongs to `sv1_api`. It is the parameter `Sv1Protocol`, whose law says
-- that it changes the connection's data only through the methods of the trait, which are modelled.
-- A connection's data are an entry of the server's map in Translator.Server and a field of their own
-- in Translator.Connection; the two are one object in the code, and Translator.Server.Miners runs a
-- step of the connection on the entry. Such a step is taken as a whole, although the code releases
-- the lock of the data within it.
--
-- Numbers. Ids are natural numbers below 2 ^ 32 or 2 ^ 64, and the factories wrap around as
-- `fetch_add` does. Hash rates and share work are types of the parameter; a 256-bit target is a
-- number. The reading of the clock is an argument `now`. All loops go over lists. Only
-- `decimal`, which writes a number in digits, runs on fuel: ten digits, as many as a `u32` has.
-- Bitwise operations on `u32` go over its 32 bits.
--
-- Not modelled. Frames, sockets, tasks, cancellation and logs; the user identity that a share can
-- carry in an extension field, which the code only logs; the SV2 side of the
-- translator and its start-up; the rest of the repository (the job declarator client and server, the
-- mining device, bitcoin-core-sv2, the other persistence back ends
-- and the helpers of stratum-apps).
mod Prelude
pub mod Stratum
pub mod Pool
pub mod Translator
pub mod Persistence
