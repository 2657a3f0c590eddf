-- ===== src/Lib.antt =====
-- The router of local-engine-router: one GPU, several model servers ("engines"), and a reverse proxy
-- that starts the engine that a request needs and frees the others first.
--
-- The program's parts. `EngineManager` (router/engines.py) owns the engines and the swap lock; the
-- HTTP layer (router/app.py) calls `acquire` before it forwards a request and `release` after it.
-- `engine_for` asks the configured models (router/config.py), the model catalog (router/catalog.py)
-- and the live tags of the engines. The smart router (router/smart.py) picks a model where the request
-- leaves it open, and keeps the health of each model. Swaps are counted in router/metrics.py.
--
-- The files.
--   Common: shared names and lemmas (Tests: Boolean tests; Lists: lists by native length; Texts: lists
--     of text and Python's dict as an association list).
--   Metrics: router/metrics.py, `_Histogram`, `_Counter` and the four calls that a swap makes. Its
--     child Buckets is about what the buckets report.
--   Manager: router/engines.py, `EngineManager`. State has the fields and the code between two awaits,
--     Step the awaits: `acquire`, `force_swap`, `_swap_to`, `_drain`, `_ensure_model_loaded` and
--     `release` as one machine whose phase is the await at which the holder of `_swap_lock` stands.
--     Frame and Reach carry the proofs; Accounting, Exclusion, Safety, Failure, Report, Patience,
--     Termination, Service and Mirror are named for what they are about. Spec has the service that the machine
--     refines. Settle has the loop of `_await_memory_settle`, Startup the choice of
--     `startup`.
--   Engines: router/engines.py, the engines themselves over a `Host`. Waits has the polling loops;
--     Process the start and the stop of `GenericProcessEngine` and `Ds4Engine`, with
--     Freed about what the stop has found; Groups `_signal_pids`;
--     StartCmd `served_ids_from_start_cmd`, of which router/catalog.py has a copy; Listing what is read
--     from an engine's answers; Api `APISwapEngine` and `OllamaEngine`, with Unload for `free_vram` and
--     Tags for the cached lists.
--   Json: what Python's `json` reads. Config: router/config.py, `load_config`, with Numbers, Smart,
--     Models (and engines) and Load for its sections.
--   Serve: router/app.py, `_attempt_plan` and the attempts of `_handle_v1_post`, streamed or not, as
--     lists of effects; Thinking has `_apply_thinking_policy`. Ndjson has the streamed attempts of
--     `_handle_api_post_with_model`, Bodies what both handlers read of a body and what the latter
--     sends, Fallbacks what the attempts of the former send, Access the API-key middleware and the
--     header filters of router/proxy.py. Balance and Commit are about the attempts. Admin has the
--     admin endpoints up to the call each ends in, Listed the model list with `openai_models` of
--     router/catalog.py, Passthrough the endpoints that are forwarded to Ollama.
--   Routing: router/engines.py, `resolve_model_id`, `engine_for`, `explain_model`; router/config.py,
--     `build_model_index`, `_validate_aliases`.
--   Catalog: router/catalog.py, `ModelCatalog.rebuild`, `_candidate`, `_winner`; Seen has
--     `set_seen_models`, `seen_models`, `resolve`, and `_snapshot_seen_models` of router/engines.py,
--     and its child Kept is about what stays listed. Routed puts it under `engine_for`.
--   Smart: router/smart.py. Gather has the texts and images that are read of a body, Classify
--     `classify_request` and the tokens that a request needs, Score the weights and the scores of one
--     model, Request `maybe_pick` from the request to the choice, which is in Pick: `_decide` from its
--     loop on. Candidates has `_enumerate_candidates`, the tests of `maybe_pick` and
--     `_discovered_index` of router/engines.py; Checks has `_shape_allows` and `swap_cost_estimate`;
--     Health has `record_success`, `record_failure`, `in_cooldown`, and its child Saved what a
--     restart keeps; Floats has the float operations
--     that Pick, Score and Request take as an argument.
--   Identity: router/model_identity.py, `identify`: Tokens has its normalized tokens, Quant
--     `quant_quality_penalty` and which tokens the canonical id depends on. Benchmarks:
--     router/benchmarks.py, the cache of `BenchmarkStore`, with Cache about its lookups.
--   Each Examples module runs its component on concrete data.
--
-- How the model stands to the code. Tasks interleave only at awaits, so a method is cut there into the
-- code between two awaits; what an await answers (a return, an error, a cancellation, a timeout) is an
-- action, in any order that the lock allows. `Manager` has the fields of the object. Two fields of
-- `System` are not the program's: `gpu k`, set when engine `k` is about to start and cleared when its
-- `free_vram` returns, and `served`, the requests that `acquire` let in and that are not released.
-- A release is modelled of a request that was let in, as the HTTP layer pairs them. What an engine
-- does is an action of the machine, but `free_vram` that returns has freed the GPU; Engines shows what
-- its last looks at the host have found when it returns. The host, with processes, ports, readiness and
-- clock, is an argument, and so are the requests to an engine.
--
-- Numbers. Durations and clock readings are whole milliseconds. Floats of the choice are an argument
-- with the laws of a linear order; NaN is outside. The scores of a job are whole hundredths, and the
-- rounded quotient of two of them is an argument. Sets of ids are lists in the order of iteration.
-- Two definitions run on fuel: `drive` of Manager/Termination takes the number of answers, and `poll` of
-- Engines/Waits the rounds of a loop with a deadline; its callers give timeout / interval + 1 rounds,
-- which is enough as each round sleeps for the interval. In Config floats are an argument with the laws
-- of the literals used as defaults.
--
-- Not modelled: how processes are found and launched, what regular expressions find in a text (they come
-- in as an argument), calibration, the builtin table of benchmarks, the saved state of the catalog
-- and of the benchmarks (the scores read what is known of a model as its profile), the JSON of summaries, the proxy's client, the
-- JSON schema, the command line and the wizard. The texts of logs and errors, the uptime clock, and the
-- snapshot tasks after they are scheduled are left out. A mapping has distinct keys, as `json` and YAML
-- leave it.
pub mod Common
pub mod Metrics
pub mod Manager
pub mod Routing
pub mod Catalog
pub mod Smart
pub mod Serve
pub mod Engines
pub mod Json
pub mod Identity
pub mod Benchmarks
pub mod Config
