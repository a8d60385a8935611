-- ===== src/Session/Requests.antt =====
-- src/worker.rs: one scrape at a time: what a request does while a scrape is in progress.
use prometheus_ws_proxy_clie.Session.{Meanwhile}
use prometheus_ws_proxy_clie.Base.{
  ℕ, ◌≡◌, refl, ◌∙◌, subst, Option, none, some, ok, err, Bytes, OwnedString, arith, Option-cases,
  Result-cases, inl, inr, empty_string, codes,
}
use prometheus_ws_proxy_clie.Timing.{Duration}
use prometheus_ws_proxy_clie.Protocol.{
  IncomingMessage, ping, pong, ready, request, unknown, validate, ready_json, ping_json, pong_json,
}
use prometheus_ws_proxy_clie.Protocol.Encoding.{response_json}
use prometheus_ws_proxy_clie.Memory.{MemoryBudget, max_ws_message_size}
use prometheus_ws_proxy_clie.Memory.Response.{BudgetedResponse, try_new}
use prometheus_ws_proxy_clie.Delivery.Encode.{
  EncodedResponse, Encoder, bounded_response_json_with_limit_and_encoder,
}
use prometheus_ws_proxy_clie.Session.{
  Session, Task, Message, text, ping_frame, pong_frame, binary, frame, close, send_control,
  send_bulk, queue_ws_response, answer_busy,
}
use prometheus_ws_proxy_clie.Session.Turn.{
  Connection, Event, shutdown, written, tick, completion, inbound, handle_ready, handle_busy,
  handle_request, handle_incoming, handle_text, on_tick, on_message, turn,
}
use prometheus_ws_proxy_clie.Session.Queues.{Leaves, TurnLeaves, or_return-Leaves}

-- The session works on the given task, or on none.
abbrev pub WorksOn : Option Task → Session → Type 0
WorksOn t s = s.active_task ≡ t

send_control-WorksOn : (m : Message) (s : Session) → WorksOn s.active_task (send_control m s)
unfolding send_control
send_control-WorksOn m s = ground arith

module _ (encoder : Encoder) (limit : ℕ) where
  send_bulk-WorksOn :
      (taken : Meanwhile) (x : EncodedResponse) (s : Session) (b : MemoryBudget)
      → Leaves (WorksOn s.active_task) (send_bulk taken x s b)
  unfolding send_bulk
  send_bulk-WorksOn taken x s b = ground arith

  queue_ws_response-WorksOn :
      (taken : Meanwhile) (r : BudgetedResponse) (s : Session) (b : MemoryBudget)
      → Leaves (WorksOn s.active_task) (queue_ws_response encoder limit taken r s b)
  unfolding queue_ws_response
  queue_ws_response-WorksOn taken r s b =
      elim (Option-cases (bounded_response_json_with_limit_and_encoder encoder r limit b)) [
        | inl e ↦ rw (e, queue_ws_response) tt
        | inr ((ok x, r', b'), e) ↦ rw (e, queue_ws_response) (send_bulk-WorksOn taken x s _)
        | inr ((err x, r', b'), e) ↦ rw (e, queue_ws_response) refl
      ]

  answer_busy-WorksOn :
      (protocol : ℕ) (taken : Meanwhile) (r : BudgetedResponse) (s : Session) (b : MemoryBudget)
      → Leaves (WorksOn s.active_task) (answer_busy encoder limit protocol taken r s b)
  unfolding answer_busy
  answer_busy-WorksOn protocol taken r s b = ground (arith, queue_ws_response-WorksOn taken r s b)

module _ (c : Connection) where
  handle_ready-WorksOn :
      (uid : OwnedString) (s : Session) (b : MemoryBudget)
      → Leaves (WorksOn s.active_task) (handle_ready c uid s b)
  unfolding handle_ready
  handle_ready-WorksOn uid s b = elim (Option-cases (ready_json c.writer uid.bytes c.worker_name)) [
    | inl e ↦ ground (arith, e)
    | inr (answer, e) ↦ ground (arith, e, send_control-WorksOn (text answer) s)
  ]

  handle_busy-WorksOn :
      (taken : Meanwhile) (uid : OwnedString) (s : Session) (b : MemoryBudget)
      → Leaves (WorksOn s.active_task) (handle_busy c taken uid s b)
  unfolding handle_busy
  handle_busy-WorksOn taken uid s b = elim (Result-cases (try_new uid 503 empty_string b).0) [
    | inl (busy, e) ↦
        rw (e, handle_busy)
          (answer_busy-WorksOn (response_json c.writer) max_ws_message_size c.protocol taken busy s
            _)
    | inr (_, e) ↦ rw (e, handle_busy) refl
  ]

  handle_request-WorksOn :
      (taken : Meanwhile) (uid resource : OwnedString) (s : Session) (b : MemoryBudget) (t : Task)
      → s.active_task ≡ some t
      → Leaves (WorksOn (some t)) (handle_request c taken uid resource s b)
  unfolding handle_request
  handle_request-WorksOn taken uid resource s b t h =
      ground (arith, h, handle_busy-WorksOn taken uid s b)

  handle_incoming-WorksOn :
      (taken : Meanwhile) (m : IncomingMessage) (s : Session) (b : MemoryBudget) (t : Task)
      → s.active_task ≡ some t
      → Leaves (WorksOn (some t)) (handle_incoming c taken m s b)
  unfolding handle_incoming
  handle_incoming-WorksOn taken ping s b t h = send_control-WorksOn (text (codes pong_json)) s ∙ h
  handle_incoming-WorksOn taken pong s b t h = h
  handle_incoming-WorksOn taken (ready uid) s b t h =
      subst (λ o. Leaves (WorksOn o) (handle_ready c uid s b)) h (handle_ready-WorksOn uid s b)
  handle_incoming-WorksOn taken (request uid resource) s b t h =
      handle_request-WorksOn taken uid resource s b t h
  handle_incoming-WorksOn taken unknown s b t h = h

  handle_text-WorksOn :
      (taken : Meanwhile) (content : Bytes) (s : Session) (b : MemoryBudget) (t : Task)
      → s.active_task ≡ some t
      → Leaves (WorksOn (some t)) (handle_text c taken content s b)
  unfolding handle_text
  handle_text-WorksOn taken content s b t h = elim (Option-cases (c.from_str content)) [
    | inl e ↦ rw (e, handle_text) h
    | inr (m, e) ↦ elim (Result-cases (validate m)) [
      | inl (_, v) ↦ rw (e, handle_text, v) (handle_incoming-WorksOn taken m s b t h)
      | inr (_, v) ↦ rw (e, handle_text, v) h
    ]
  ]

  on_message-WorksOn :
      (taken : Meanwhile) (m : Message) (s : Session) (b : MemoryBudget) (t : Task)
      → s.active_task ≡ some t
      → TurnLeaves (WorksOn (some t)) (on_message c taken m s b)
  unfolding on_message
  on_message-WorksOn taken (text content) s b t h =
      or_return-Leaves (WorksOn (some t)) (handle_text c taken content s b)
        (handle_text-WorksOn taken content s b t h)
  on_message-WorksOn taken (ping_frame payload) s b t h =
      send_control-WorksOn (pong_frame payload) s ∙ h
  on_message-WorksOn taken (pong_frame _) s b t h = h
  on_message-WorksOn taken (close f) s b t h = h
  on_message-WorksOn taken (binary _) s b t h = h
  on_message-WorksOn taken (frame _) s b t h = h

  on_tick-WorksOn :
      (elapsed : Duration) (s : Session) (b : MemoryBudget) (t : Task)
      → s.active_task ≡ some t
      → TurnLeaves (WorksOn (some t)) (on_tick c elapsed s b)
  unfolding on_tick
  on_tick-WorksOn elapsed s b t h =
      let pinged = send_control-WorksOn (text (codes ping_json)) s in
      let both =
        send_control-WorksOn (ping_frame c.worker_name) (send_control (text (codes ping_json)) s) in
      ground (arith, pinged, both, h)

  -- The event is the end of the scrape.
  abbrev IsCompletion : Event → Type 0
  IsCompletion (completion _ _ _) = Unit
  IsCompletion _ = ⊥

  -- Once a scrape is in progress, only its completion ends it: a turn for any other event, another
  -- request included, leaves the session with the same task.
  pub turn-WorksOn :
      (event : Event) (s : Session) (b : MemoryBudget) (t : Task)
      → s.active_task ≡ some t
      → ¬ IsCompletion event
      → TurnLeaves (WorksOn (some t)) (turn c event s b)
  unfolding turn
  turn-WorksOn shutdown s b t h other = h
  turn-WorksOn (written result) s b t h other = h
  turn-WorksOn (tick elapsed) s b t h other = on_tick-WorksOn elapsed s b t h
  turn-WorksOn (completion taken response joined) s b t h other = absurd (other tt)
  turn-WorksOn (inbound taken none) s b t h other = h
  turn-WorksOn (inbound taken (some (err e))) s b t h other = h
  turn-WorksOn (inbound taken (some (ok m))) s b t h other = on_message-WorksOn taken m s b t h
