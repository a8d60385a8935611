-- ===== src/Session/Moving.antt =====
-- src/worker.rs: no turn of a session waits for ever, as long as the writer takes frames or returns.
use prometheus_ws_proxy_clie.Base.{
  ℕ, ◌<◌, ◌≡◌, true, Option, none, some, Result, ok, err, List, [], ◌∷◌, Bytes, OwnedString, arith,
  length, Option-cases, Result-cases, inl, inr, ◌⊎◌, empty_string, zero, suc, ◌-◌,
}
use prometheus_ws_proxy_clie.Error.{BoxError}
use prometheus_ws_proxy_clie.Protocol.{
  IncomingMessage, ping, pong, ready, request, unknown, validate, ready_json,
}
use prometheus_ws_proxy_clie.Timing.{Duration}
use prometheus_ws_proxy_clie.Protocol.Encoding.{response_json}
use prometheus_ws_proxy_clie.Memory.{MemoryBudget, drop, max_ws_message_size}
use prometheus_ws_proxy_clie.Memory.Response.{BudgetedResponse, try_new}
use prometheus_ws_proxy_clie.Delivery.Encode.{
  EncodedResponse, Encoder, bounded_response_json_with_limit_and_encoder,
}
use prometheus_ws_proxy_clie.Session.{
  Session, Meanwhile, Message, text, ping_frame, pong_frame, binary, frame, close, Progress,
  panicked, waiting, done, take_frames, send_bulk, queue_ws_response, answer_busy,
}
use prometheus_ws_proxy_clie.Session.Queues.{IsBounded}
use prometheus_ws_proxy_clie.Session.Turn.{
  Connection, Event, shutdown, written, tick, completion, inbound, Turn, waits, Handled, or_return,
  handle_ready, handle_busy, handle_request, handle_incoming, handle_text, on_tick, on_completion,
  on_message, turn,
}

-- The writer takes a frame, or returns.
abbrev pub IsActive : Meanwhile → Type 0
IsActive m = (0 < m.frames) ⊎ (m.writer_returns ≡ true)

abbrev pub IsMoving : Event → Type 0
IsMoving (completion m _ _) = IsActive m
IsMoving (inbound m _) = IsActive m
IsMoving _ = Unit

abbrev Goes : {A : Type 0} → Progress A → Type 0
Goes waiting = ⊥
Goes _ = Unit

abbrev pub TurnGoes : Turn → Type 0
TurnGoes waits = ⊥
TurnGoes _ = Unit

or_return-TurnGoes : (h : Handled) → Goes h → TurnGoes (or_return h)
or_return-TurnGoes panicked g = tt
or_return-TurnGoes waiting g = g
or_return-TurnGoes (done (ok _) s b) g = tt
or_return-TurnGoes (done (err _) s b) g = tt

take_frames_shortens :
    (n : ℕ) (queue : List EncodedResponse) (b : MemoryBudget)
    → length (take_frames n queue b).0 ≡ length queue - n
unfolding take_frames
take_frames_shortens zero queue b = omega arith
take_frames_shortens (suc n) [] b = omega arith
take_frames_shortens (suc n) (x ∷ queue) b =
    omega (arith, take_frames_shortens n queue (drop x.reservation b))

send_bulk-Goes :
    (m : Meanwhile) (x : EncodedResponse) (s : Session) (b : MemoryBudget)
    → IsBounded s
    → IsActive m
    → Goes (send_bulk m x s b)
unfolding send_bulk
send_bulk-Goes m x s b k (inl takes) =
    ground (arith, take_frames_shortens m.frames s.bulk b, k.bulk_bound, takes)
send_bulk-Goes m x s b k (inr ends) = ground (arith, ends)

module _ (encoder : Encoder) (limit : ℕ) where
  queue_ws_response-Goes :
      (m : Meanwhile) (r : BudgetedResponse) (s : Session) (b : MemoryBudget)
      → IsBounded s
      → IsActive m
      → Goes (queue_ws_response encoder limit m r s b)
  unfolding queue_ws_response
  queue_ws_response-Goes m r s b k a =
      elim (Option-cases (bounded_response_json_with_limit_and_encoder encoder r limit b)) [
        | inl e ↦ rw (e, queue_ws_response) tt
        | inr ((ok x, r', b'), e) ↦ rw (e, queue_ws_response) (send_bulk-Goes m x s _ k a)
        | inr ((err x, r', b'), e) ↦ rw (e, queue_ws_response) tt
      ]

  answer_busy-Goes :
      (protocol : ℕ) (m : Meanwhile) (r : BudgetedResponse) (s : Session) (b : MemoryBudget)
      → IsBounded s
      → IsActive m
      → Goes (answer_busy encoder limit protocol m r s b)
  unfolding answer_busy
  answer_busy-Goes protocol m r s b k a = ground (arith, queue_ws_response-Goes m r s b k a)

module _ (c : Connection) where
  handle_ready-Goes :
      (uid : OwnedString) (s : Session) (b : MemoryBudget) → Goes (handle_ready c uid s b)
  unfolding handle_ready
  handle_ready-Goes uid s b = elim (Option-cases (ready_json c.writer uid.bytes c.worker_name)) [
    | inl e ↦ ground (arith, e)
    | inr (answer, e) ↦ ground (arith, e)
  ]

  handle_busy-Goes :
      (m : Meanwhile) (uid : OwnedString) (s : Session) (b : MemoryBudget)
      → IsBounded s
      → IsActive m
      → Goes (handle_busy c m uid s b)
  unfolding handle_busy
  handle_busy-Goes m uid s b k a = elim (Result-cases (try_new uid 503 empty_string b).0) [
    | inl (busy, e) ↦
        rw (e, handle_busy)
          (answer_busy-Goes (response_json c.writer) max_ws_message_size c.protocol m busy s _ k a)
    | inr (_, e) ↦ rw (e, handle_busy) tt
  ]

  handle_incoming-Goes :
      (m : Meanwhile) (i : IncomingMessage) (s : Session) (b : MemoryBudget)
      → IsBounded s
      → IsActive m
      → Goes (handle_incoming c m i s b)
  unfolding handle_incoming handle_request
  handle_incoming-Goes m ping s b k a = tt
  handle_incoming-Goes m pong s b k a = tt
  handle_incoming-Goes m (ready uid) s b k a = handle_ready-Goes uid s b
  handle_incoming-Goes m (request uid resource) s b k a =
      ground (arith, handle_busy-Goes m uid s b k a)
  handle_incoming-Goes m unknown s b k a = tt

  handle_text-Goes :
      (m : Meanwhile) (content : Bytes) (s : Session) (b : MemoryBudget)
      → IsBounded s
      → IsActive m
      → Goes (handle_text c m content s b)
  unfolding handle_text
  handle_text-Goes m content s b k a = elim (Option-cases (c.from_str content)) [
    | inl e ↦ rw (e, handle_text) tt
    | inr (i, e) ↦ elim (Result-cases (validate i)) [
      | inl (_, v) ↦ rw (e, handle_text, v) (handle_incoming-Goes m i s b k a)
      | inr (_, v) ↦ rw (e, handle_text, v) tt
    ]
  ]

  on_message-TurnGoes :
      (m : Meanwhile) (i : Message) (s : Session) (b : MemoryBudget)
      → IsBounded s
      → IsActive m
      → TurnGoes (on_message c m i s b)
  unfolding on_message
  on_message-TurnGoes m (text content) s b k a =
      or_return-TurnGoes (handle_text c m content s b) (handle_text-Goes m content s b k a)
  on_message-TurnGoes m (ping_frame payload) s b k a = tt
  on_message-TurnGoes m (pong_frame _) s b k a = tt
  on_message-TurnGoes m (close f) s b k a = tt
  on_message-TurnGoes m (binary _) s b k a = tt
  on_message-TurnGoes m (frame _) s b k a = tt

  on_completion-TurnGoes :
      (m : Meanwhile) (response : Option (Option BudgetedResponse))
      (joined : Result BoxError (Unit {0})) (s : Session) (b : MemoryBudget)
      → IsBounded s
      → IsActive m
      → TurnGoes (on_completion c m response joined s b)
  unfolding on_completion
  on_completion-TurnGoes m none joined s b k a = tt
  on_completion-TurnGoes m (some response) (err e) s b k a = tt
  on_completion-TurnGoes m (some none) (ok _) s b k a = tt
  on_completion-TurnGoes m (some (some response)) (ok _) s b k a = or_return-TurnGoes _ (
      queue_ws_response-Goes (response_json c.writer) max_ws_message_size m response
        (record s { active_task = none }) b
        (record {
          control_bound = k.control_bound;
          bulk_bound = k.bulk_bound;
          busy_bound = k.busy_bound;
        })
        a)

  on_tick-TurnGoes :
      (elapsed : Duration) (s : Session) (b : MemoryBudget) → TurnGoes (on_tick c elapsed s b)
  unfolding on_tick
  on_tick-TurnGoes elapsed s b = ground arith

  -- A turn on bounded queues does not wait for ever, as long as the writer takes a frame or returns.
  pub turn-TurnGoes :
      (event : Event) (s : Session) (b : MemoryBudget)
      → IsBounded s
      → IsMoving event
      → TurnGoes (turn c event s b)
  unfolding turn
  turn-TurnGoes shutdown s b k a = tt
  turn-TurnGoes (written result) s b k a = tt
  turn-TurnGoes (tick elapsed) s b k a = on_tick-TurnGoes elapsed s b
  turn-TurnGoes (completion m response joined) s b k a =
      ground (arith, on_completion-TurnGoes m response joined s b k a)
  turn-TurnGoes (inbound m none) s b k a = tt
  turn-TurnGoes (inbound m (some (err e))) s b k a = tt
  turn-TurnGoes (inbound m (some (ok i))) s b k a = on_message-TurnGoes m i s b k a
