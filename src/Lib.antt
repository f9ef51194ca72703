-- ===== src/Lib.antt =====
-- SP1 Helios: a light client of Ethereum whose steps are proved in a zero-knowledge VM.
--
-- The program has three parts. The guest program (program/src/main.rs) takes a light-client store,
-- sync-committee updates, a finality update and Merkle proofs of contract storage; it verifies them,
-- and commits the new finalized head with the proved slots. The service (zk-api) takes requests over
-- HTTP, keeps their states in Redis, waits until a request's block is finalized, gathers the inputs
-- from consensus and execution RPC endpoints, has them proved, and stores the proof. Several workers
-- may share one Redis server, under a global lock and a lock for each proof. The command line tools
-- print a key, and write the contract's genesis configuration.
--
-- The files, with the code that they model:
--   Types       primitives/src/types.rs, zk-api/src/types.rs, and the request of zk-api/src/api.rs
--   Helios      what the code uses of helios: parameters
--   Storage     verify_storage_slot_proofs of zk-api/src/lib.rs, ContractStorageBuilder of types.rs;
--               Verify says what a successful check has established
--   Program     program/src/main.rs; Accepts has its specification, Copies compares the two storage
--               checks, FreeInput is about the next sync committee
--   Client      zk-api/src/consensus_client/mod.rs: Time and Clock (slots and ages), Updates and
--               Batches (the requests for updates), Select and Advancement (the best endpoint),
--               Rpc and Single (one endpoint); Client itself has the operations over all endpoints,
--               and Onward is about the head of advance
--   Execution   zk-api/src/rpc_proxies; Checked is about what the proxy passes on
--   Inputs      get_proof_inputs and get_proof_inputs_once of zk-api/src/proof_service.rs; Traced,
--               Trace, Preflight and Attempts are about the inputs and the retries
--   Redis       what the code uses of a Redis server, of serde_json and of alloy: parameters; Local says
--               which keys a command touches, Expiring how keys expire
--   Action      the service's methods as functions on the server and the spawned tasks, with errors;
--               Runs describes such a function by the keys' values before and after, Outcome by what
--               holds when it succeeds, Maintains by what it keeps whatever it returns
--   Store       zk-api/src/redis_store.rs, with the behaviour of its methods in Runs, the SCAN loop
--               in Scan, what it finds in Kept, the keys in Keys, and the keys that a call leaves alone in Keeps
--   Service     request_proof, process_new_finalized_header, restart_orphaned_proofs,
--               with_global_lock and update_redis_state of zk-api/src/proof_service.rs; Lock is
--               about the lock, Requests with its Transitions, and Polling about a request, Headers,
--               Advance, NewHeader, Readable, Newer and Onward about a new finalized header, Orphans
--               about the pickup of orphans, Exclusive and Workers, with its Calls, Guarded, Starts
--               and Leases, about several workers on one server
--   Generate    generate_and_store_proof of zk-api/src/proof_service.rs, with the task that extends its
--               lock; Outcome is about when a proof is made, Stored about how the task ends, Recovers
--               about a server that fails some of the writes
--   Backend     zk-api/src/proof_backends/sp1.rs; EndToEnd joins it to the inputs and the guest
--   Run         advance_light_client and check_header_health of zk-api/src/proof_service.rs, with
--               run itself in Loop; Health is about the check, Covered, Whole and Onward about
--               the loop
--   Entry       zk-api/src/main.rs and start_api_server of zk-api/src/api.rs; Launched is about what
--               has gone well when the main loop begins
--   Env         from_env, try_from_env, RedisStore::new, ProofService::new, get_initial_checkpoint
--               and init_light_client; Checkpoints has get_block and the checkpoint helpers of
--               zk-api/src/lib.rs, Listed is about the lists of URLs, Configured about the store,
--               Start about the initial checkpoint
--   Api         zk-api/src/api.rs, the handlers; Handlers, Vkey and Polling are about their answers
--   Tracing     zk-api/src/tracing/mod.rs, with slack.rs in Slack; Object is about the formatter,
--               Posts about which events are posted, Handles about the handles of the posts
--   Genesis     cli/bin/genesis.rs: the configuration, with its whole `main` in Tool; Describes is about
--               the configuration, Written about the file that the tool writes
--   Examples    a small chain, trie and Redis server, and the theorems at concrete inputs
--
-- A function of the model has its source's name. A panic or an error is an error value. An operation
-- over several endpoints takes their results in the order in which the code sees them: the client's
-- order for `join_all`, the order of completion for `select_ok`; a timeout that elapses is a field of
-- the endpoint. The clock is a function of how many times it was read, or an argument for each reading. Numbers are natural numbers;
-- where the code computes on `u64`, the wrap-around is written out.
--
-- Bounds and fuel. `fetch_batches` runs on as much fuel as the expected period, which is enough since
-- every batch has at least one period. `scan_loop` follows as many replies of SCAN as the platform's
-- `scan_fuel` says, since the server decides when the scan ends, and fails beyond. The retry loop of
-- the final write has no bound in the code; `store_final` takes the list of its sleeps, and
-- makes one attempt more, which is enough where an outage of the server ends within them. The retry
-- loop of the inputs makes three attempts, as in the code.
--
-- The main loop runs for as many rounds as a list says, with the clock and the endpoints of each: in
-- the code it ends only by an error.
--
-- Not modelled: the timers, the posts to Slack, the router and the task that serves it,
-- SP1Backend::from_env, cli/bin/vkey.rs and the build scripts: they are I/O around library calls.
-- What is said of a single worker's operation is about a time in which no other client writes and no
-- key expires; Workers alone interleaves the calls of several workers, call by call, and lets time
-- pass between them.
pub mod Prelude
pub mod Types
pub mod Helios
pub mod Storage
pub mod Program
pub mod Client
pub mod Execution
pub mod Inputs
pub mod Redis
pub mod Action
pub mod Store
pub mod Service
pub mod Generate
pub mod Run
pub mod Genesis
pub mod Tracing
pub mod Backend
pub mod Entry
pub mod Env
pub mod Api
pub mod Examples
