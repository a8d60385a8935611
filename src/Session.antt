-- ===== src/Session.antt =====
-- src/worker.rs: one connection after the handshake. The state is the three queues that the session
-- sends to and the scrape in progress; each turn of the `select!` loop handles one event. The
-- writer task and the busy actor take from the queues between turns; while a turn waits for room
-- in the bulk queue, the writer takes the number of frames that the event names.
pub mod Turn
pub mod Queues
pub mod Bounded
pub mod Heartbeat
pub mod Silent
pub mod Moving
pub mod Stopped
pub mod Lifetime
pub mod Answered
pub mod Accounts
pub mod Covered
pub mod Conserved
pub mod RunCovered
pub mod Connect
pub mod Concluded
pub mod Requests
pub mod Farewells
pub mod Busy
pub mod Held
pub mod Posted
pub mod Returned
pub mod World
pub mod Safe
pub mod Owned
pub mod Scrape
pub mod Writer
pub mod Flushed
pub mod Ordered
pub mod Tests
pub mod ActorTests
pub mod ConnectionTests
pub mod HeartbeatTests
use prometheus_ws_proxy_clie.Base.{
  ℕ, zero, suc, ◌≤◌, ◌<◌, Bool, true, false, not, ◌&&◌, Option, none, some, Result, ok, err, List,
  [], ◌∷◌, ◌++◌, String, Bytes, OwnedString, codes, length, ltb, leb, ◌==◌, if◌then◌else◌,
  empty_string,
}
use prometheus_ws_proxy_clie.Error.{BoxError, json, message}
use prometheus_ws_proxy_clie.Protocol.{
  JsonWriter, IncomingMessage, ping, pong, ready, request, unknown, validate, ready_json, ping_json,
  pong_json,
}
use prometheus_ws_proxy_clie.Memory.{MemoryBudget, MemoryReservation, drop}
use prometheus_ws_proxy_clie.Memory.Response.{BudgetedResponse, try_new}
use prometheus_ws_proxy_clie.Delivery.Encode.{
  EncodedResponse, Encoder, bounded_response_json_with_limit_and_encoder,
}

abbrev pub control_queue_capacity : ℕ
control_queue_capacity = 32

abbrev pub bulk_queue_capacity : ℕ
bulk_queue_capacity = 8

abbrev pub busy_response_queue_capacity : ℕ
busy_response_queue_capacity = 8

-- `CloseCode::Away` is 1001.
pub record CloseFrame : Type 0 where
  pub code : ℕ
  pub reason : Bytes

-- tungstenite's messages, as far as the client tells them apart.
pub data Message : Type 0 where
  text ping_frame pong_frame binary frame : Bytes → Message
  close : Option CloseFrame → Message

abbrev pub away : ℕ
away = 1001

unfoldable pub close_message : ℕ → String → Message
close_message code reason = close (some (record { code = code; reason = codes reason }))

-- A scrape in progress: the request that its task works on.
pub record Task : Type 0 where
  pub uid : OwnedString
  pub resource : Bytes

-- The queues hold what has been sent and not yet taken. The receivers of `control` and `bulk` are
-- gone once the writer task has ended, that of `busy_responses` once the busy actor has.
pub record Session : Type 0 where
  pub control : List Message
  pub bulk : List EncodedResponse
  pub busy_responses : List BudgetedResponse
  pub writer_ended : Bool
  pub actor_ended : Bool
  pub writer_done : Bool
  pub active_task : Option Task

abbrev pub Farewell : Type 0
Farewell = Option Message

-- `Sender::try_send` on a bounded channel.
abbrev pub try_send {ℓ} : {A : Type ℓ} → ℕ → Bool → List A → A → Option (List A)
try_send capacity ended queue a =
    if ended then none else if ltb (length queue) capacity then some (queue ++ (a ∷ [])) else none

-- `let _ = self.control.try_send(message)`: a full or closed queue drops the message.
unfoldable pub send_control : Message → Session → Session
send_control m s = elim (try_send control_queue_capacity s.writer_ended s.control m) [
  | none ↦ s
  | some queue ↦ record s { control = queue }
]

-- What a part of a turn comes to: a panic, a wait that does not end, or a value with the state.
pub data Progress (A : Type 0) : Type 0 where
  panicked waiting : Progress A
  done : A → Session → MemoryBudget → Progress A

-- What the writer does while the bulk queue is waited for: it takes some frames, and may then return.
pub record Meanwhile : Type 0 where
  pub frames : ℕ
  pub writer_returns : Bool

-- The receiver of the bulk queue is dropped with what is queued.
unfoldable pub drop_queue : List EncodedResponse → MemoryBudget → MemoryBudget
drop_queue [] b = b
drop_queue (x ∷ queue) b = drop_queue queue (drop x.reservation b)

-- The writer takes `n` frames from the bulk queue, and drops their reservations once they are sent.
unfoldable pub take_frames :
    ℕ → List EncodedResponse → MemoryBudget → List EncodedResponse × MemoryBudget
unfolding drop
take_frames zero queue b = (queue, b)
take_frames (suc n) [] b = ([], b)
take_frames (suc n) (x ∷ queue) b = take_frames n queue (drop x.reservation b)

-- `bulk.send(encoded).await`: it fails if the writer has ended, and else waits for room.
unfoldable pub send_bulk :
    Meanwhile → EncodedResponse → Session → MemoryBudget → Progress (Result BoxError (Unit {0}))
send_bulk taken x s b =
    let (queue, b') = take_frames taken.frames s.bulk b in
    if s.writer_ended
    then done (err (message "websocket writer stopped")) s (drop x.reservation b)
    else if ltb (length queue) bulk_queue_capacity
    then done (ok tt) (record s { bulk = queue ++ (x ∷ []) }) b'
    else if taken.writer_returns
    then done (err (message "websocket writer stopped"))
        (record s { control = []; bulk = []; writer_ended = true })
        (drop x.reservation (drop_queue queue b'))
    else waiting

module _ (encoder : Encoder) (limit : ℕ) where
  -- A response that cannot be encoded is dropped, and the connection goes on.
  unfoldable pub queue_ws_response :
      Meanwhile → BudgetedResponse → Session → MemoryBudget → Progress (Result BoxError (Unit {0}))
  queue_ws_response taken response s b =
      elim (bounded_response_json_with_limit_and_encoder encoder response limit b) [
        | none ↦ panicked
        | some (result, response', b') ↦ elim result [
          | err _ ↦ done (ok tt) s (drop response'.retained b')
          | ok encoded ↦ send_bulk taken encoded s (drop response'.retained b')
        ]
      ]

  -- Wire v3 hands a busy answer to the actor that posts it, if it can be queued there.
  unfoldable pub answer_busy :
      ℕ
      → Meanwhile
      → BudgetedResponse
      → Session
      → MemoryBudget
      → Progress (Result BoxError (Unit {0}))
  answer_busy protocol taken response s b =
      let over_ws = queue_ws_response taken response s b in
      if protocol == 3
      then elim (try_send busy_response_queue_capacity s.actor_ended s.busy_responses response) [
        | some queue ↦ done (ok tt) (record s { busy_responses = queue }) b
        | none ↦ over_ws
      ]
      else over_ws
