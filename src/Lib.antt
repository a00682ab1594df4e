-- ===== src/Lib.antt =====
-- A model of fiddlesticks: chat turns with tools over a model provider, durable memory for their
-- sessions, and a harness that works through a list of features. The definitions follow the Rust
-- crates function by function; the theorems are listed at the end.
--
-- The parts, from the bottom up:
-- - Base: Boolean tests, lists, Rust's string functions, and `HashMap` behind its laws.
-- - Exec: code that reads and changes a state and may fail. `Result` has a third case, `no_return`,
--   for a call that runs for ever or panics; `Exec S E A` is a function from a state to a result and
--   a state. `?` is the bind of a do block, `map_err` is `catch_into`, and `match` on a result is
--   `on_result`. Its children hold the rules by which the proofs go through such code: what holds of
--   the result and the state (Rules), what an action leaves alone (Keeps), that it comes back
--   (Returns).
-- - Common: fcommon/src/lib.rs.
-- - Provider: fprovider/src/model.rs (Model, Request), error.rs, stream.rs and provider.rs (Stream),
--   registry.rs (Registry), credentials.rs (Credentials) and resilience.rs (Resilience:
--   `execute_with_retry`). OpenAi has fprovider/src/adapters: the data of the interface (Types and Api),
--   the transport over HTTP (Transport), the stream of its response (Sse), the transport
--   over a web socket (WebSocket, with Payload and Responses) and the four providers (Adapters).
-- - Tooling: ftooling/src, with `DefaultToolRuntime::execute` in Runtime.
-- - Chat: fchat/src. Service has the parts of service.rs that both kinds of turn use, Turn has
--   `run_turn`, Streaming has `stream_turn`. Store has the interface of a conversation store, its
--   laws (`StoreLaws`) and the store in memory.
-- - Memory: fmemory/src. Backend is the interface, Laws what it promises (`MemoryLaws`), InMemory the
--   backend in memory, Adapter the conversation store made of a backend. Persisted and Filesystem
--   have the records and the methods of backends/filesystem.rs, Calls the methods as data.
-- - Harness: fharness/src. Initializer, Iteration and Run have the parts of harness.rs.
-- - Examples: a small provider, tools and a clock, and every theorem at a concrete input.
--
-- How they interact: a turn runs on a `World`, the state of the conversation store beside the state
-- of everything else (`env`), which the provider, the tools, the hooks, the timer and the reader of
-- a stream may change. The harness runs its turns on the same world, with the memory backend as the
-- store: the chat service that `HarnessBuilder::build` makes keeps its transcripts in that backend.
--
-- What stands for code that is not in the repository: `Http` (the client of HTTP and the parser of
-- JSON that the transport calls), `Ws` and `Responses.Json` (the client of web sockets and JSON
-- values), `Platform` (a timer that ends, and the floating point arithmetic of the retry policy,
-- `F64`, whose conversion to a duration may panic), `Timing` (the clock of the tool runtime and the
-- race of a tool with a timer) and `HarnessPlatform` (the clock, which moves only when the
-- environment acts). Providers, tools, hooks, validators, health checkers and selectors are records
-- of functions, or functions, that a theorem quantifies over. `Disk` is the file system and `Json`
-- the JSON library, with what is documented of them in `DiskLaws` (any operation may fail; a file
-- that was written is read back; `exists` may also say no of a file that it may not look at, which
-- `Accessible` leaves out where a theorem takes it) and `JsonLaws` (what was written of a state is
-- read back).
--
-- Numbers: `u32`, `usize` and `u64` values are natural numbers, since the code only compares them,
-- counts up to a bound and subtracts with saturation or from a number that is not zero; what
-- responses_ws.rs casts to `u32` or `u16` wraps. An `f32` or `f64` is its bit pattern, and a time
-- or a duration a number of nanoseconds; in backends/filesystem.rs a time is counted from the
-- earliest `SystemTime`, `unix_epoch` from the start, so that it may be before the epoch. The body
-- of a response is the list of its pieces, and a web socket the list of the messages that still
-- come on it.
--
-- Fuel: the retry loop runs on one round more than `max_attempts`, the tool loop on one more than
-- `max_tool_round_trips`, and the loop over the turns of a feature on one more than
-- `max_turns_per_run`. `run_turn_within` and `stream_turn_within` run the tool loop on any number
-- of rounds, so that a bound that is proved of them comes from the guards of the code. The loop
-- over features takes the number of its rounds from the caller, since in the unlimited mode the
-- code has no bound for it. A loop that ran out of fuel would give `no_return`.
--
-- Not modelled: the lists of models of fprovider/src/adapters, the SQL backends, logging and
-- metrics, and the facade with its macros, all of them I/O or glue; a reader that drops a stream
-- before its end; a lock that a panicking thread has poisoned; the interleaving of several calls on
-- one service.
pub mod Base
pub mod Exec
pub mod Common
pub mod Provider
pub mod Tooling
pub mod Chat
pub mod Memory
pub mod Harness
pub mod Examples
