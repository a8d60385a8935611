-- ===== src/Session/Bounded.antt =====
-- src/worker.rs: every turn of a session, and so its whole loop, keeps the queues bounded.
use prometheus_ws_proxy_clie.Session.{Meanwhile}
use prometheus_ws_proxy_clie.Base.{
  Bool, Option, none, some, Result, ok, err, List, [], ◌∷◌, Bytes, OwnedString, arith, All,
  Option-cases, Result-cases, inl, inr, empty_string, codes,
}
use prometheus_ws_proxy_clie.Error.{BoxError}
use prometheus_ws_proxy_clie.Protocol.{
  IncomingMessage, ping, pong, ready, request, unknown, validate, ready_json, ping_json, pong_json,
}
use prometheus_ws_proxy_clie.Timing.{Duration}
use prometheus_ws_proxy_clie.Protocol.Encoding.{response_json}
use prometheus_ws_proxy_clie.Memory.{MemoryBudget, max_ws_message_size}
use prometheus_ws_proxy_clie.Memory.Response.{BudgetedResponse, try_new}
use prometheus_ws_proxy_clie.Session.{
  Session, Task, Message, text, ping_frame, pong_frame, binary, frame, close,
}
use prometheus_ws_proxy_clie.Session.Turn.{
  Connection, Event, shutdown, written, tick, completion, inbound, go_on_lem, same_stops,
  handle_ready, handle_busy, handle_request, handle_incoming, handle_text, on_tick, on_completion,
  on_message, turn, run,
}
use prometheus_ws_proxy_clie.Session.Queues.{
  IsBounded, Leaves, TurnLeaves, or_return-Leaves, send_control-IsBounded,
  queue_ws_response-IsBounded, answer_busy-IsBounded,
}

same_queues :
    {s : Session} {active_task : Option Task} {writer_done : Bool}
    → IsBounded s
    → IsBounded (record s { writer_done = writer_done; active_task = active_task })
same_queues h = record {
  control_bound = h.control_bound;
  bulk_bound = h.bulk_bound;
  busy_bound = h.busy_bound;
}

module _ (c : Connection) where
  handle_ready-IsBounded :
      (uid : OwnedString) (s : Session) (b : MemoryBudget)
      → IsBounded s
      → Leaves IsBounded (handle_ready c uid s b)
  unfolding handle_ready
  handle_ready-IsBounded uid s b h =
      elim (Option-cases (ready_json c.writer uid.bytes c.worker_name)) [
        | inl e ↦ ground (arith, e, h)
        | inr (answer, e) ↦ ground (arith, e, h, send_control-IsBounded (text answer) s h)
      ]

  handle_busy-IsBounded :
      (taken : Meanwhile) (uid : OwnedString) (s : Session) (b : MemoryBudget)
      → IsBounded s
      → Leaves IsBounded (handle_busy c taken uid s b)
  unfolding handle_busy
  handle_busy-IsBounded taken uid s b h = elim (Result-cases (try_new uid 503 empty_string b).0) [
    | inl (busy, e) ↦
        rw (e, handle_busy)
          (answer_busy-IsBounded (response_json c.writer) max_ws_message_size c.protocol taken busy
            s _ h)
    | inr (_, e) ↦ rw (e, handle_busy) h
  ]

  handle_request-IsBounded :
      (taken : Meanwhile) (uid resource : OwnedString) (s : Session) (b : MemoryBudget)
      → IsBounded s
      → Leaves IsBounded (handle_request c taken uid resource s b)
  unfolding handle_request
  handle_request-IsBounded taken uid resource s b h =
      ground (arith, handle_busy-IsBounded taken uid s b h)

  handle_incoming-IsBounded :
      (taken : Meanwhile) (m : IncomingMessage) (s : Session) (b : MemoryBudget)
      → IsBounded s
      → Leaves IsBounded (handle_incoming c taken m s b)
  unfolding handle_incoming
  handle_incoming-IsBounded taken ping s b h = send_control-IsBounded (text (codes pong_json)) s h
  handle_incoming-IsBounded taken pong s b h = h
  handle_incoming-IsBounded taken (ready uid) s b h = handle_ready-IsBounded uid s b h
  handle_incoming-IsBounded taken (request uid resource) s b h =
      handle_request-IsBounded taken uid resource s b h
  handle_incoming-IsBounded taken unknown s b h = h

  handle_text-IsBounded :
      (taken : Meanwhile) (content : Bytes) (s : Session) (b : MemoryBudget)
      → IsBounded s
      → Leaves IsBounded (handle_text c taken content s b)
  unfolding handle_text
  handle_text-IsBounded taken content s b h = elim (Option-cases (c.from_str content)) [
    | inl e ↦ rw (e, handle_text) h
    | inr (m, e) ↦ elim (Result-cases (validate m)) [
      | inl (_, v) ↦ rw (e, handle_text, v) (handle_incoming-IsBounded taken m s b h)
      | inr (_, v) ↦ rw (e, handle_text, v) h
    ]
  ]

  on_message-IsBounded :
      (taken : Meanwhile) (m : Message) (s : Session) (b : MemoryBudget)
      → IsBounded s
      → TurnLeaves IsBounded (on_message c taken m s b)
  unfolding on_message
  on_message-IsBounded taken (text content) s b h =
      or_return-Leaves IsBounded (handle_text c taken content s b)
        (handle_text-IsBounded taken content s b h)
  on_message-IsBounded taken (ping_frame payload) s b h =
      send_control-IsBounded (pong_frame payload) s h
  on_message-IsBounded taken (pong_frame _) s b h = h
  on_message-IsBounded taken (close f) s b h = h
  on_message-IsBounded taken (binary _) s b h = h
  on_message-IsBounded taken (frame _) s b h = h

  on_tick-IsBounded :
      (elapsed : Duration) (s : Session) (b : MemoryBudget)
      → IsBounded s
      → TurnLeaves IsBounded (on_tick c elapsed s b)
  unfolding on_tick
  on_tick-IsBounded elapsed s b h =
      let pinged = send_control-IsBounded (text (codes ping_json)) s h in
      let both = send_control-IsBounded (ping_frame c.worker_name) _ pinged in
      ground (arith, both, h)

  on_completion-IsBounded :
      (taken : Meanwhile) (response : Option (Option BudgetedResponse))
      (joined : Result BoxError (Unit {0})) (s : Session) (b : MemoryBudget)
      → IsBounded s
      → TurnLeaves IsBounded (on_completion c taken response joined s b)
  unfolding on_completion
  on_completion-IsBounded taken none joined s b h = h
  on_completion-IsBounded taken (some response) (err e) s b h = same_queues h
  on_completion-IsBounded taken (some none) (ok _) s b h = same_queues h
  on_completion-IsBounded taken (some (some response)) (ok _) s b h = or_return-Leaves IsBounded _ (
      queue_ws_response-IsBounded (response_json c.writer) max_ws_message_size taken response
        (record s { active_task = none }) b (same_queues h))

  -- A turn, whatever its event, leaves no queue over its capacity if none was.
  pub turn-IsBounded :
      (event : Event) (s : Session) (b : MemoryBudget)
      → IsBounded s
      → TurnLeaves IsBounded (turn c event s b)
  unfolding turn
  turn-IsBounded shutdown s b h = h
  turn-IsBounded (written result) s b h = same_queues h
  turn-IsBounded (tick elapsed) s b h = on_tick-IsBounded elapsed s b h
  turn-IsBounded (completion taken response joined) s b h =
      ground (arith, on_completion-IsBounded taken response joined s b h, h)
  turn-IsBounded (inbound taken none) s b h = h
  turn-IsBounded (inbound taken (some (err e))) s b h = h
  turn-IsBounded (inbound taken (some (ok m))) s b h = on_message-IsBounded taken m s b h

  -- What the other tasks do between the turns keeps the queues within their capacities.
  abbrev pub KeepsBounds : List ((Session → MemoryBudget → Session × MemoryBudget) × Event) → Type 0
  KeepsBounds = All λ p. (s : Session) (b : MemoryBudget) → IsBounded s → IsBounded (p.0 s b).0

  -- If what the other tasks do between the turns keeps every queue within its capacity, then so
  -- does the whole loop: after any events, whether it goes on or returns, the control queue holds
  -- at most 32 messages, and the bulk queue and the queue of busy responses at most 8 each.
  pub run-IsBounded :
      (events : List ((Session → MemoryBudget → Session × MemoryBudget) × Event)) (s : Session)
      (b : MemoryBudget)
      → KeepsBounds events
      → IsBounded s
      → TurnLeaves IsBounded (run c events s b)
  unfolding run
  run-IsBounded [] s b keeps h = h
  run-IsBounded ((between, event) ∷ events) s b (here, rest) h =
      go_on_lem (TurnLeaves IsBounded) (TurnLeaves IsBounded)
        (turn c event (between s b).0 (between s b).1) (run c events)
        (same_stops (TurnLeaves IsBounded)) (turn-IsBounded event _ _ (here s b h))
        λ t b'. run-IsBounded events t b' rest
