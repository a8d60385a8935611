-- ===== src/Session/Turn.antt =====
-- src/worker.rs: `handle_text`, one turn of `Session::run`, the loop, and `finish`.
use prometheus_ws_proxy_clie.Base.{
  ℕ, Bool, true, false, not, ◌&&◌, Option, none, some, Result, ok, err, List, [], ◌∷◌, Bytes,
  OwnedString, codes, ltb, leb, if◌then◌else◌, empty_string,
}
use prometheus_ws_proxy_clie.Error.{BoxError, json, message}
use prometheus_ws_proxy_clie.Timing.{Duration, Timing}
use prometheus_ws_proxy_clie.Protocol.{
  JsonWriter, IncomingMessage, ping, pong, ready, request, unknown, validate, ready_json, ping_json,
  pong_json,
}
use prometheus_ws_proxy_clie.Protocol.Encoding.{response_json}
use prometheus_ws_proxy_clie.Memory.{MemoryBudget, drop, max_ws_message_size}
use prometheus_ws_proxy_clie.Memory.Response.{BudgetedResponse, try_new}
use prometheus_ws_proxy_clie.Session.{
  Meanwhile, Session, Message, text, ping_frame, pong_frame, binary, frame, close, close_message,
  away, Farewell, Progress, panicked, waiting, done, try_send, send_control, queue_ws_response,
  answer_busy, control_queue_capacity,
}

-- What a connection is given: its worker, the wire version, the timing, and `serde_json`.
pub record Connection : Type 0 where
  pub worker_name : Bytes
  pub protocol : ℕ
  pub timing : Timing
  pub writer : JsonWriter
  pub from_str : Bytes → Option IncomingMessage

abbrev pub is_some {ℓ} : {A : Type ℓ} → Option A → Bool
is_some none = false
is_some (some _) = true

abbrev pub Handled : Type 0
Handled = Progress (Result BoxError (Unit {0}))

module _ (c : Connection) where
  -- The answer to a ready message.
  unfoldable pub handle_ready : OwnedString → Session → MemoryBudget → Handled
  unfolding send_control ready_json
  handle_ready uid s b =
      if leb 2 c.protocol && not (is_some s.active_task)
      then elim (ready_json c.writer uid.bytes c.worker_name) [
        | none ↦ done (err json) s b
        | some answer ↦ done (ok tt) (send_control (text answer) s) b
      ]
      else done (ok tt) s b

  -- A request while a scrape is in progress: its answer is a 503 with an empty body.
  unfoldable pub handle_busy : Meanwhile → OwnedString → Session → MemoryBudget → Handled
  handle_busy taken uid s b =
      let (made, b') = try_new uid 503 empty_string b in
      elim made [
        | err _ ↦ done (ok tt) s b'
        | ok busy ↦
            answer_busy (response_json c.writer) max_ws_message_size c.protocol taken busy s b'
      ]

  unfoldable pub handle_request :
      Meanwhile → OwnedString → OwnedString → Session → MemoryBudget → Handled
  handle_request taken uid resource s b = elim s.active_task [
    | some _ ↦ handle_busy taken uid s b
    | none ↦
        done (ok tt)
          (record s { active_task = some (record { uid = uid; resource = resource.bytes }) }) b
  ]

  unfoldable pub handle_incoming : Meanwhile → IncomingMessage → Session → MemoryBudget → Handled
  unfolding send_control
  handle_incoming taken ping s b = done (ok tt) (send_control (text (codes pong_json)) s) b
  handle_incoming taken pong s b = done (ok tt) s b
  handle_incoming taken (ready uid) s b = handle_ready uid s b
  handle_incoming taken (request uid resource) s b = handle_request taken uid resource s b
  handle_incoming taken unknown s b = done (ok tt) s b

  unfoldable pub handle_text : Meanwhile → Bytes → Session → MemoryBudget → Handled
  handle_text taken content s b = elim (c.from_str content) [
    | none ↦ done (ok tt) s b
    | some incoming ↦ elim (validate incoming) [
      | err _ ↦ done (ok tt) s b
      | ok _ ↦ handle_incoming taken incoming s b
    ]
  ]

-- What one turn of `select!` takes: the cancelled token; the end of the writer task; a tick, with
-- the time since the last inbound frame; what the completion channel gives and what joining the
-- task gives; or what the stream gives. The last two may wait for room in the bulk queue.
pub data Event : Type 0 where
  shutdown : Event
  written : Result BoxError (Unit {0}) → Event
  tick : Duration → Event
  completion : Meanwhile → Option (Option BudgetedResponse) → Result BoxError (Unit {0}) → Event
  inbound : Meanwhile → Option (Result BoxError Message) → Event

-- The loop goes on, or `run` returns.
pub data Turn : Type 0 where
  panics waits : Turn
  continues : Session → MemoryBudget → Turn
  returns : Result BoxError (Unit {0}) → Farewell → Session → MemoryBudget → Turn

-- What follows a turn, if the loop goes on.
abbrev pub go_on : Turn → (Session → MemoryBudget → Turn) → Turn
go_on panics after = panics
go_on waits after = waits
go_on (continues s b) after = after s b
go_on (returns r f s b) after = returns r f s b

-- A property `P` of each turn that ends the loop gives `Q` of the loop's end.
abbrev pub Stops : (Turn → Type 0) → (Turn → Type 0) → Type 0
Stops P Q =
    (P panics → Q panics)
    × (P waits → Q waits)
    × ((r : Result BoxError (Unit {0})) (f : Farewell) (s : Session) (b : MemoryBudget)
        → P (returns r f s b)
        → Q (returns r f s b))

abbrev pub same_stops : (P : Turn → Type 0) → Stops P P
same_stops P = (λ p. p, λ p. p, λ r f s b p. p)

pub go_on_lem :
    (P Q : Turn → Type 0) (t : Turn) (after : Session → MemoryBudget → Turn)
    → Stops P Q
    → P t
    → ((s : Session) (b : MemoryBudget) → P (continues s b) → Q (after s b))
    → Q (go_on t after)
go_on_lem P Q panics after stops p k = stops.0 p
go_on_lem P Q waits after stops p k = stops.1 p
go_on_lem P Q (continues s b) after stops p k = k s b p
go_on_lem P Q (returns r f s b) after stops p k = stops.2 r f s b p

-- An error of a handler ends the connection with no farewell.
abbrev pub or_return : Handled → Turn
or_return panicked = panics
or_return waiting = waits
or_return (done (ok _) s b) = continues s b
or_return (done (err e) s b) = returns (err e) none s b

abbrev or_stopped : Result BoxError (Unit {0}) → BoxError
or_stopped (ok _) = message "websocket writer stopped"
or_stopped (err e) = e

module _ (c : Connection) where
  unfoldable pub on_tick : Duration → Session → MemoryBudget → Turn
  unfolding send_control close_message
  on_tick elapsed s b =
      if ltb c.timing.heartbeat_timeout elapsed
      then returns (err (message "websocket heartbeat timed out"))
          (some (close_message away "heartbeat timeout")) s b
      else continues
          (send_control (ping_frame c.worker_name) (send_control (text (codes ping_json)) s)) b

  -- The branch is enabled only while there is a task.
  unfoldable pub on_completion :
      Meanwhile
      → Option (Option BudgetedResponse)
      → Result BoxError (Unit {0})
      → Session
      → MemoryBudget
      → Turn
  on_completion taken none joined s b =
      returns (err (message "resource task channel closed")) none s b
  on_completion taken (some response) (err e) s b =
      returns (err e) none (record s { active_task = none })
        (elim response [ none ↦ b | some r ↦ drop r.retained b ])
  on_completion taken (some none) (ok _) s b = continues (record s { active_task = none }) b
  on_completion taken (some (some response)) (ok _) s b = or_return (
      queue_ws_response (response_json c.writer) max_ws_message_size taken response
        (record s { active_task = none }) b)

  unfoldable pub on_message : Meanwhile → Message → Session → MemoryBudget → Turn
  unfolding handle_text send_control
  on_message taken (text content) s b = or_return (handle_text c taken content s b)
  on_message taken (ping_frame payload) s b = continues (send_control (pong_frame payload) s) b
  on_message taken (pong_frame _) s b = continues s b
  on_message taken (close f) s b = returns (ok tt) (some (close f)) s b
  on_message taken (binary _) s b = continues s b
  on_message taken (frame _) s b = continues s b

  unfoldable pub turn : Event → Session → MemoryBudget → Turn
  unfolding on_tick on_completion on_message close_message
  turn shutdown s b = returns (ok tt) (some (close_message away "client shutdown")) s b
  turn (written result) s b =
      returns (err (or_stopped result)) none (record s { writer_done = true }) b
  turn (tick elapsed) s b = on_tick elapsed s b
  turn (completion taken response joined) s b =
      if is_some s.active_task then on_completion taken response joined s b else continues s b
  turn (inbound taken none) s b =
      returns (err (message "websocket closed without a close frame")) none s b
  turn (inbound taken (some (err e))) s b = returns (err e) none s b
  turn (inbound taken (some (ok m))) s b = on_message taken m s b

  -- The loop, over the events that come, with what the writer, the busy actor and the other
  -- holders of the budget do before each of them.
  unfoldable pub run :
      List ((Session → MemoryBudget → Session × MemoryBudget) × Event)
      → Session
      → MemoryBudget
      → Turn
  run [] s b = continues s b
  run ((between, event) ∷ events) s b =
      let (s', b') = between s b in go_on (turn event s' b') (run events)

-- How `finish` leaves the writer: already ended, left to flush a queued close frame in time, or
-- aborted.
pub data Finish : Type 0 where
  ended flushed aborted : Finish

-- The session without its task, and what becomes of the writer; `in_time` says whether the writer
-- ends before the close timeout.
unfoldable pub finish : Farewell → Bool → Session → Session × Finish
finish farewell in_time s =
    let idle : Session = record s { active_task = none } in
    let queued : Option (List Message) = elim farewell [
      | none ↦ none
      | some m ↦ try_send control_queue_capacity s.writer_ended s.control m
    ] in
    if s.writer_done then (idle, ended) else elim queued [
      | none ↦ (idle, aborted)
      | some queue ↦ (record idle { control = queue }, if in_time then flushed else aborted)
    ]
