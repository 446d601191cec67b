-- ===== src/Lib.antt =====
-- Verification of the worker that runs llama.cpp models for a MASS hub.
--
-- A session of src/runner.cpp hands the hub's messages to `WorkerService` in src/worker_service.cpp,
-- on the threads of the pool in src/assign_pool.cpp; the service loads and unloads models, runs
-- jobs and benchmarks on them and answers with terminal frames.
--
-- Which file models what:
--   Prelude            lists, text, hash maps, integers, decimal numbers and doubles
--   Service/State      the members of `WorkerService` (include/mass_worker/worker_service.hpp)
--   Service/Messages   the wire messages, and `frame_error_text`
--   Service/Active     `ActiveGuard` and the models and capacity of `heartbeat`
--   Service/Load       the LoadModel and UnloadModel cases of `execute_impl`; Load/Config the
--                      configuration of a load
--   Service/Jobs       `run_job` and the AssignJob case; Jobs/Chat is `to_chat_request`,
--                      Jobs/Batches the items of a batch with their guards
--   Service/Bench      the Benchmark case and `run_model_benchmark`
--   Service/Errors     `mentions_device_loss`, `mentions_allocation_failure` and the classifiers
--   Service/Execute    `execute` and `execute_impl`
--   Service/Placement  `set_enabled_devices`, `enabled_placement_ids`, `allowed_load_devices`
--   Service/Cancel     `request_job_cancel`, `is_job_cancel_requested`, `clear_job_cancel`
--   AssignPool         src/assign_pool.cpp, one step for each critical section
--   BatchRunner        include/mass_worker/batch_runner.hpp: `run_batch_items`, one step for each
--                      atomic action of a thread
--   CtxPool            src/ctx_pool.cpp: the headroom watermark and the growth of a pool of contexts
--   Fetch              `fetch_one`, `safe_rel_filename` and `download_failure_is_retryable` of
--                      src/fetch.cpp, on an abstract disk
--   Fetch/Ladder       `download_and_place`, `download_attempt` and `write_cb` of src/fetch.cpp
--   MassClient         `parse_url`, `enrollment_failure_message` and `connect_error_is_fatal` of
--                      src/mass_client.cpp
--   Runner/Reconnect   `Runner::run` of src/runner.cpp, with a session as a parameter
--   Settings/Files     src/fsutil.cpp, `write_private_file`
--   Settings/Config    src/config.cpp; Settings/Credentials is src/credentials.cpp
--   Payload            src/payload.cpp, reading an installer; Payload/Pack is src/payload_pack.cpp,
--                      writing it
--   Runner/Enroll      the handshake and the end of `run_one_session` in src/runner.cpp; Runner/Session
--                      its threads, one move for each critical section
--   Cache              `Cache::delete_files` of src/cache.cpp, with the loop over empty parents on fuel
--   TermInput          `parse_key` and `read_key` of src/term_input.cpp, over the readings of a terminal
--   Runner/Backoff     `reconnect_delay` and `next_failure_streak` of src/runner.cpp
--
-- An operation of the service is a function from a state to a state and a reply. The calls that take
-- long (the fetch layer, the model loaders, the engine, the benchmarks) are parameters which also
-- hand back the state, as the other threads may have changed it meanwhile; exceptions are replies.
-- A `double` is a parameter with the laws of IEEE arithmetic that the code rests on. Pending
-- cancellations are removed on fuel: the size of the map, which every round lowers; a pool of
-- contexts grows by recursion on the room below its ceiling. The pool of threads and
-- a batch are run by a schedule, a list of steps in any order; the join of a batch is on fuel, the
-- number of steps that its threads can still make; the passes of `fetch_one` are two and the attempts
-- of a download three.
--
-- Not modelled: the heartbeat and watcher threads of a session, gRPC and protobuf, llama.cpp
-- and ggml, the device statistics of a heartbeat, streamed chunks and sampling parameters, the listing
-- of the cache, the setup program, and the installation of the system service.
pub mod AssignPool
pub mod BatchRunner
pub mod Cache
pub mod CtxPool
pub mod Fetch
pub mod MassClient
pub mod Payload
pub mod Prelude
pub mod Runner
pub mod Service
pub mod Settings
pub mod TermInput
pub mod Tests
