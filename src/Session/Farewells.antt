-- ===== src/Session/Farewells.antt =====
-- src/worker.rs: when `Session::run` returns, and with which close frame.
use prometheus_ws_proxy_clie.Session.{Meanwhile}
use prometheus_ws_proxy_clie.Base.{◌≡◌, Option, none, some, Result, ok, err, List, [], ◌∷◌, arith}
use prometheus_ws_proxy_clie.Error.{BoxError, message}
use prometheus_ws_proxy_clie.Timing.{Duration}
use prometheus_ws_proxy_clie.Memory.{MemoryBudget}
use prometheus_ws_proxy_clie.Memory.Response.{BudgetedResponse}
use prometheus_ws_proxy_clie.Session.{
  Session, Message, text, ping_frame, pong_frame, binary, frame, close, close_message, away,
  Farewell, panicked, waiting, done,
}
use prometheus_ws_proxy_clie.Session.Turn.{
  Connection, Event, shutdown, written, tick, completion, inbound, Turn, panics, waits, continues,
  returns, go_on_lem, same_stops, or_return, on_tick, on_completion, on_message, turn, run, Handled,
}

-- How a connection may end: after a shutdown or a close frame of the server, with a close frame to
-- send; after a heartbeat timeout, with its close frame; or with another error and none.
abbrev pub IsFarewell : Result BoxError (Unit {0}) → Farewell → Type 0
IsFarewell (ok _) none = ⊥
IsFarewell (ok _) (some (close f)) = Unit
IsFarewell (ok _) (some _) = ⊥
IsFarewell (err e) none = Unit
IsFarewell (err e) (some m) =
    (e ≡ message "websocket heartbeat timed out") × (m ≡ close_message away "heartbeat timeout")

abbrev pub EndsWell : Turn → Type 0
EndsWell panics = Unit
EndsWell waits = Unit
EndsWell (continues _ _) = Unit
EndsWell (returns r f _ _) = IsFarewell r f

or_return-EndsWell : (h : Handled) → EndsWell (or_return h)
or_return-EndsWell panicked = tt
or_return-EndsWell waiting = tt
or_return-EndsWell (done (ok _) s b) = tt
or_return-EndsWell (done (err e) s b) = tt

module _ (c : Connection) where
  on_message-EndsWell :
      (taken : Meanwhile) (m : Message) (s : Session) (b : MemoryBudget)
      → EndsWell (on_message c taken m s b)
  unfolding on_message
  on_message-EndsWell taken (text content) s b = or_return-EndsWell _
  on_message-EndsWell taken (ping_frame payload) s b = tt
  on_message-EndsWell taken (pong_frame _) s b = tt
  on_message-EndsWell taken (close f) s b = tt
  on_message-EndsWell taken (binary _) s b = tt
  on_message-EndsWell taken (frame _) s b = tt

  on_tick-EndsWell :
      (elapsed : Duration) (s : Session) (b : MemoryBudget) → EndsWell (on_tick c elapsed s b)
  unfolding on_tick
  on_tick-EndsWell elapsed s b = ground arith

  on_completion-EndsWell :
      (taken : Meanwhile) (response : Option (Option BudgetedResponse))
      (joined : Result BoxError (Unit {0})) (s : Session) (b : MemoryBudget)
      → EndsWell (on_completion c taken response joined s b)
  unfolding on_completion
  on_completion-EndsWell taken none joined s b = tt
  on_completion-EndsWell taken (some response) (err e) s b = tt
  on_completion-EndsWell taken (some none) (ok _) s b = tt
  on_completion-EndsWell taken (some (some response)) (ok _) s b = or_return-EndsWell _

  turn-EndsWell : (event : Event) (s : Session) (b : MemoryBudget) → EndsWell (turn c event s b)
  unfolding turn close_message
  turn-EndsWell shutdown s b = tt
  turn-EndsWell (written result) s b = tt
  turn-EndsWell (tick elapsed) s b = on_tick-EndsWell elapsed s b
  turn-EndsWell (completion taken response joined) s b =
      ground (arith, on_completion-EndsWell taken response joined s b)
  turn-EndsWell (inbound taken none) s b = tt
  turn-EndsWell (inbound taken (some (err e))) s b = tt
  turn-EndsWell (inbound taken (some (ok m))) s b = on_message-EndsWell taken m s b

  -- Whatever the events, if the loop of a connection returns, then it returns without an error and
  -- with a close frame to send, or with the heartbeat timeout and its close frame, or with an error
  -- and no close frame.
  pub run-EndsWell :
      (events : List ((Session → MemoryBudget → Session × MemoryBudget) × Event)) (s : Session)
      (b : MemoryBudget)
      → EndsWell (run c events s b)
  unfolding run
  run-EndsWell [] s b = tt
  run-EndsWell ((between, event) ∷ events) s b =
      go_on_lem EndsWell EndsWell (turn c event (between s b).0 (between s b).1) (run c events)
        (same_stops EndsWell) (turn-EndsWell event _ _) λ s' b' _. run-EndsWell events s' b'
