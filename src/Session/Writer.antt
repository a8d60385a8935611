-- ===== src/Session/Writer.antt =====
-- src/worker.rs: `run_writer` and `send_ws`. The sink is a parameter: given the messages sent so far,
-- the message and the timeout, it says how the sending ends, if it ends in time. What comes into
-- the queues before each turn of the loop is a list of arrivals; once it is over, so are the senders.
use prometheus_ws_proxy_clie.Base.{ℕ, Option, none, some, Result, ok, err, List, [], ◌∷◌, ◌++◌, len}
use prometheus_ws_proxy_clie.Error.{BoxError, message}
use prometheus_ws_proxy_clie.Timing.{Duration, bulk_send_timeout}
use prometheus_ws_proxy_clie.Memory.{MemoryBudget, drop}
use prometheus_ws_proxy_clie.Delivery.Encode.{EncodedResponse}
use prometheus_ws_proxy_clie.Session.{
  drop_queue, Message, text, ping_frame, pong_frame, binary, frame, close,
}

abbrev pub Sink : Type 0
Sink = List Message → Message → Duration → Option (Result BoxError (Unit {0}))

abbrev pub Arrival : Type 0
Arrival = List Message × List EncodedResponse

-- The result, the messages sent, and the budget.
abbrev pub Written : Type 0
Written = Result BoxError (Unit {0}) × List Message × MemoryBudget

-- One select goes on, or the writer returns, with the message that has still gone out, if any.
pub data Writing : Type 0 where
  goes : Writing
  stops : Result BoxError (Unit {0}) → List Message → Writing

abbrev pub or_stops : Result BoxError (Unit {0}) → Writing
or_stops (ok _) = goes
or_stops (err e) = stops (err e) []

-- A message whose sending has not failed.
abbrev pub sent_out : Message → Result BoxError (Unit {0}) → List Message
sent_out m (ok _) = m ∷ []
sent_out m (err _) = []

abbrev pub frame_of : EncodedResponse → Message
frame_of x = text x.json.bytes

module _ (sink : Sink) (transfer : ℕ → Duration) (send_timeout : Duration) where
  unfoldable pub send_ws : List Message → Message → Duration → Result BoxError (Unit {0})
  send_ws sent m timeout = elim (sink sent m timeout) [
    | none ↦ err (message "websocket send timed out")
    | some result ↦ result
  ]

  -- After a close frame the writer returns, however its sending and the closing of the sink end.
  unfoldable pub write_control : List Message → Message → Writing
  unfolding send_ws
  write_control sent (close f) =
      stops (ok tt) (sent_out (close f) (send_ws sent (close f) send_timeout))
  write_control sent (text m) = or_stops (send_ws sent (text m) send_timeout)
  write_control sent (ping_frame m) = or_stops (send_ws sent (ping_frame m) send_timeout)
  write_control sent (pong_frame m) = or_stops (send_ws sent (pong_frame m) send_timeout)
  write_control sent (binary m) = or_stops (send_ws sent (binary m) send_timeout)
  write_control sent (frame m) = or_stops (send_ws sent (frame m) send_timeout)

  unfoldable pub write_bulk : List Message → EncodedResponse → Writing
  unfolding send_ws
  write_bulk sent x =
      or_stops (send_ws sent (frame_of x) (bulk_send_timeout transfer send_timeout (len x.json)))

  -- One turn of the loop, biased to the control queue, and what follows it.
  unfoldable pub select :
      List Message
      → List Message
      → List EncodedResponse
      → MemoryBudget
      → (List Message → List Message → List EncodedResponse → MemoryBudget → Written)
      → Written
  select sent (m ∷ control) bulk b next = elim (write_control sent m) [
    | stops result last ↦ (result, sent ++ last, drop_queue bulk b)
    | goes ↦ next (sent ++ (m ∷ [])) control bulk b
  ]
  select sent [] (x ∷ bulk) b next = elim (write_bulk sent x) [
    | stops result last ↦ (result, sent ++ last, drop_queue bulk (drop x.reservation b))
    | goes ↦ next (sent ++ (frame_of x ∷ [])) [] bulk (drop x.reservation b)
  ]
  select sent [] [] b next = next sent [] [] b

  -- The loop once the senders are gone.
  unfoldable pub drain : List Message → List Message → List EncodedResponse → MemoryBudget → Written
  unfolding select
  drain sent (m ∷ control) bulk b =
      select sent (m ∷ control) bulk b λ sent' _ _ b'. drain sent' control bulk b'
  drain sent [] (x ∷ bulk) b = select sent [] (x ∷ bulk) b λ sent' _ _ b'. drain sent' [] bulk b'
  drain sent [] [] b = (ok tt, sent, b)

  unfoldable pub run_writer :
      List Arrival → List Message → List Message → List EncodedResponse → MemoryBudget → Written
  unfolding select drain
  run_writer [] sent control bulk b = drain sent control bulk b
  run_writer ((ms, xs) ∷ arrivals) sent control bulk b =
      select sent (control ++ ms) (bulk ++ xs) b (run_writer arrivals)
