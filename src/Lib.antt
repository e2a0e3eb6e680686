-- ===== src/Lib.antt =====
-- LiveClaw's gateway: the WebSocket server that pairs clients, runs their voice sessions through a
-- runner, and routes messages of chat channels to sessions; and its application: the adapter that
-- is the gateway's runner, with the forwarding of what a session says, its memory and its tools,
-- the rate limiter of tool calls, the reconnection of a session's runtime, the command line and
-- the choice of a provider.
--
-- A client connection (`handle_ws`) sends messages; `handle_message` guards and dispatches them to
-- one handler each. The handlers share the server's state (`AppState`): who owns a session, where
-- its responses are pushed, which route of an external user leads to it, and the outbox of final
-- transcripts of each route. The pairing guard decides which connections are authenticated. The
-- platforms' webhooks and other HTTP requests reach the same handlers with a token of their own.
-- Besides, the server's tasks pass on what the runner produces, and jobs send messages on a timer.
--
-- Which file models what:
--   Gateway/Pairing      liveclaw-gateway/src/pairing.rs: `PairingGuard` and its functions
--   Gateway/Protocol     liveclaw-gateway/src/protocol.rs: messages, responses and their data
--   Gateway/Base64       `base64_decode` and `base64_encode` of liveclaw-gateway/src/server.rs; all of
--                        the following are of that file too
--   Gateway/State        `AppState`, `ConnectionState`, `RunnerHandle`, `ChannelRouteKey`
--   Gateway/Handler      the handlers' control flow as a small monad, and rules for it
--   Gateway/Access       `authorize_session_access`, `handle_pair`, `handle_authenticate`
--   Gateway/Prompt       `maybe_extract_workspace_read_path`, `build_workspace_summary_prompt`
--   Gateway/Sessions     the handlers of sessions
--   Gateway/Channels     `handle_channel_inbound`, `drain_channel_outbox`, the transcript queue
--   Gateway/Jobs         the handlers of channel jobs, and the steps of a job's task
--   Gateway/Dispatch     `handle_message`, opening and closing a connection, the output loops
--   Gateway/Http         the HTTP routes: payloads, platform adapters, handlers and their responses
--   Gateway/Isolation    what the maps promise one another, and that each handler keeps it
--   Gateway/System       `Gateway::start` and `handle_ws` as a step relation over all connections
--                        and requests
--   App/RateLimiter      `RateLimiter` of liveclaw-app/src/security.rs
--   App/Reconnect        `ReconnectPolicy`, `reconnect_with_backoff` and `spawn_runtime_loop` of
--                        liveclaw-app/src/main.rs
--   App/Cli              `parse_command` and its parsers, of liveclaw-app/src/main.rs
--   App/Compaction       `compact_memory_entries` of liveclaw-app/src/main.rs
--   App/Config           the sections of liveclaw-app/src/config.rs that the others read
--   App/Provider         `resolve_provider_selection` and `validate_runtime_and_provider` of
--                        liveclaw-app/src/main.rs
--   App/ShellInjection   `contains_shell_injection` of liveclaw-app/src/security.rs
--   App/Operation        operations that may fail, as a small monad, and rules for it
--   App/Runner           `RunnerAdapter` of liveclaw-app/src/main.rs, its sessions and event loops, the
--                        calls of tools, and its place under the gateway
--   App/Lifecycle        `SessionLifecycleManager` and `TranscriptCompactionSummarizer` of the same file
--   App/Forwarder        `GatewayEventForwarder` of the same file
--   App/Tools            `resolve_workspace_file_path` and `read_workspace_file` of
--                        liveclaw-app/src/tools.rs
--   App/Memory           `FileMemoryService` of liveclaw-app/src/storage.rs
--   Gateway/Tests, App/Tests
--                        concrete runs
--   Prelude, Text        lists, association lists, bits, and the functions of `str` that are used
--
-- How the model stands to the code. A definition has the name of the function it models; part
-- of a long function stands as a helper. A map is an association list without a second entry
-- for a key. A handler is a function of the server's and the connection's state that answers a
-- response or leaves early with one, as `return` does; it is one step, so that two handlers
-- interleave only as wholes. Times are in nanoseconds, as `Duration` and `Instant` count. The
-- `u32` of the failure counter wraps; the buffer of the decoder is shifted modulo 2 ^ 32. What
-- a step takes from its surroundings is an argument: two readings of the clock, the Unix time,
-- the UUID, and which channels still have a receiver. SHA-256, the tables of Unicode's lower
-- case, the runner (the trait `RunnerHandle`) and `serde_json` values are parameters;
-- `RunnerAdapter` is an instance of the runner, below which the crates of adk, the runtimes and
-- the file system are parameters. The task of a runtime, which the code bounds by nothing, runs
-- on fuel, one for each run, so that a theorem on a round holds whatever is left; every other loop
-- of the code is a recursion on a list or on a number of attempts.
--
-- Not modelled: the parsing of JSON and of frames, HTTP itself, the capacity of channels, logging;
-- of the crate liveclaw-app the bridge to the Docker worker, the artifact store, the plugins, the
-- onboarding and the service files, the tools that touch no file, and the older tool graph of
-- liveclaw-app/src/graph.rs; the scripts and the test client.
pub mod Prelude
pub mod Text
pub mod Gateway
pub mod App
