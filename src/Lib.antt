-- ===== src/Lib.antt =====
-- The Prometheus WebSocket proxy client: workers that keep a WebSocket connection to a server,
-- scrape local exporters on request, and send the answers back, all under one memory budget.
--
-- The parts, and the files that model them:
-- - src/protocol.rs: `Protocol` has the messages and their limits (`validate`, `register_json`,
--   `ready_json`), `Protocol/Length` the length prechecks, `Protocol/Encoding` `response_json`.
-- - src/memory.rs: `Memory` has the budget and the reservations, `Memory/Response` the responses
--   that hold one. `Memory/Acquire` and `Memory/Backed` are about the methods, `Memory/Ledger` about
--   any sequence of calls, `Memory/Atomic` about concurrent holders: each atomic operation is a step.
-- - src/target.rs: `Target`; src/config.rs: `Config`; src/lib.rs: `Error` and the size limits. The
--   texts of the two errors of the crate are in `Error/Display`.
-- - src/resource.rs: `Resource` is `call_resource`; `Resource/Grown` and `Resource/Fetch` are
--   about the body, `Resource/Ready` about the responses that are not refused, and `Resource/Call`
--   about the answers.
-- - src/worker.rs: `Timing` has the timeouts and the reconnect loop; `Delivery/Encode` and
--   `Delivery/Post` the two ways on which a response leaves the client; `Session` the queues of a
--   connection, `Session/Turn` its `select!` loop with the handlers and `finish`, `Session/Scrape` the
--   task of a request, and `Session/Writer` the writer task. `Session/Busy` is the actor that posts busy
--   answers, `Session/Connect` is `run_connection`, from the checks to the end, and `Session/World`
--   makes one turn of each of these tasks a step. `Session/Heartbeat` is the clock of the loop:
--   `last_inbound` and the times of the ticks. `Session/Lifetime` is `run_worker` with its connections,
--   one after another.
-- - src/cli.rs: `Cli`; src/main.rs: `Process`, with `main` itself in `Process/Startup`, as well as the
--   settings of the two HTTP clients of src/config.rs and src/resource.rs. `Workers` has the workers
--   that it starts, whose connections open, interleave and close in every order, under one budget.
--
-- A `String` is its bytes and its capacity, since the budget counts capacities. A budget is passed
-- along explicitly. A panic is `none`, or a constructor of its own. Where a task awaits, other
-- tasks change the budget: in `Resource` and `Delivery/Post` by a function of the bytes that they
-- hold, in `Session` by a function between the turns. The session's loop runs on the list of its
-- events, and the reconnect loop and the worker on the lists of their rounds, so that none needs
-- fuel; the loop over a body runs on the list of its chunks, that of the writer on what comes into
-- its queues, and that of the actor on its events. A turn of the session that waits for room in the
-- bulk queue is told by `Meanwhile` what the writer does until then; a wait that this does not end
-- is a wait for ever. In `Workers` each turn of a task is a step on the shared state, the end of a
-- connection is one step, and a task that waits for ever takes none. A post in flight holds its
-- response and the reservation for its form, which it takes in steps of its own. What the task of a scrape sends is the
-- result of a run of `scrape` in which the others stand still; whatever they do is the other steps.
-- The sending of a frame by the writer is one step, in which its reservation is dropped.
--
-- The libraries are parameters: the JSON serializer and parser, the `url` crate, header values, the
-- HTTP client, the allocator, and the floating-point operations of `Duration`. What is assumed of
-- them is their documented behaviour, in records such as `IsSerdeJson`, `IsRuntime`, `IsTransfer`.
--
-- Not modelled: in src/cli.rs what the option parser derives, and the texts of log records and of
-- foreign errors. The list of join handles in `main` is taken to be allocated, whatever the number
-- of connections. How each signal handler, the log and each HTTP client is set up, the handshake of
-- a connection, and the result of each post of the actor, are inputs of the model.
pub mod Base
pub mod Protocol
pub mod Memory
pub mod Error
pub mod Timing
pub mod Target
pub mod Config
pub mod Resource
pub mod Delivery
pub mod Session
pub mod Cli
pub mod Process
pub mod Workers
