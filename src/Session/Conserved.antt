-- ===== src/Session/Conserved.antt =====
-- src/worker.rs: each turn of a session, and so the whole loop, loses no byte of the budget.
use prometheus_ws_proxy_clie.Session.{Meanwhile}
use prometheus_ws_proxy_clie.Base.{
  ℕ, ◌+◌, ◌≤◌, ◌≡◌, sym, subst, Bool, true, Option, none, some, Result, ok, err, Bytes, OwnedString,
  IsAllocated, length, arith, Option-cases, Result-cases, inl, inr, empty_string, codes,
}
use prometheus_ws_proxy_clie.Protocol.{
  response_fields, IncomingMessage, ping, pong, ready, request, unknown, validate, ready_json,
  ping_json, pong_json,
}
use prometheus_ws_proxy_clie.Protocol.Encoding.{response_json, or_zero}
use prometheus_ws_proxy_clie.Protocol.Length.{response_json_encoded_len}
use prometheus_ws_proxy_clie.Memory.{MemoryBudget, max_ws_message_size}
use prometheus_ws_proxy_clie.Memory.Acquire.{taken}
use prometheus_ws_proxy_clie.Memory.Response.{BudgetedResponse}
use prometheus_ws_proxy_clie.Memory.Backed.{backed, try_new_cases}
use prometheus_ws_proxy_clie.Session.{
  Session, Message, text, panicked, waiting, done, queue_ws_response, answer_busy,
}
use prometheus_ws_proxy_clie.Session.Accounts.{holdings}
use prometheus_ws_proxy_clie.Session.Turn.{
  Connection, handle_ready, handle_busy, handle_request, handle_incoming, handle_text,
}
use prometheus_ws_proxy_clie.Error.{BoxError}
use prometheus_ws_proxy_clie.Timing.{Duration}
use prometheus_ws_proxy_clie.Session.{Task, ping_frame, pong_frame, binary, frame, close}
use prometheus_ws_proxy_clie.Memory.Acquire.{drop-released}
use prometheus_ws_proxy_clie.Session.Turn.{
  Event, shutdown, written, tick, completion, inbound, Turn, panics, waits, continues, returns,
  or_return, on_tick, on_completion, on_message, turn, Handled, is_some,
}
use prometheus_ws_proxy_clie.Session.Covered.{
  IsCovered, IsExact, Moves, Covers, Covers-moved, send_control-Moves, queue_ws_response-Covers,
  answer_busy-Covers,
}

-- A serializer's text is allocated, whatever its capacity was at first.
pub response_json-IsAllocated :
    (c : Connection)
    → ((n : ℕ) (bs : Bytes) → length bs ≤ c.writer.grown_capacity n bs)
    → (r : BudgetedResponse) (s : OwnedString) → response_json c.writer r.response ≡ some s
    → IsAllocated s
unfolding response_json
response_json-IsAllocated c grows r s e =
    elim (Option-cases (c.writer.to_bytes (response_fields r.response))) [
      | inl failed ↦ cc (rw (failed, response_json) at e)
      | inr (bytes, wrote) ↦
          ground (arith, wrote, e, grows (or_zero (response_json_encoded_len r.response)) bytes)
    ]

-- The bytes that an event brings: the response of a completed scrape holds its own.
abbrev pub brought : Event → ℕ
brought (completion _ (some (some r)) _) = r.retained.bytes
brought _ = 0

-- The event may come: the completion of a scrape only while there is one, and the response holds
-- exactly its two allocations.
abbrev pub IsEnabled : Session → Event → Type 0
IsEnabled s (completion _ (some (some r)) _) = (is_some s.active_task ≡ true) × IsExact r
IsEnabled s _ = Unit

abbrev pub TurnCovers : ℕ → Session → MemoryBudget → Turn → Type 0
TurnCovers n s b panics = ⊥
TurnCovers n s b waits = Unit
TurnCovers n s b (continues s' b') = Moves n s b s' b'
TurnCovers n s b (returns _ _ s' b') = Moves n s b s' b'

or_return-Covers :
    (n : ℕ) (s : Session) (b : MemoryBudget) (h : Handled)
    → Covers n s b h
    → TurnCovers n s b (or_return h)
or_return-Covers n s b panicked l = l
or_return-Covers n s b waiting l = tt
or_return-Covers n s b (done (ok _) s' b') l = l
or_return-Covers n s b (done (err e) s' b') l = l

-- A session that differs in its task alone.
same_queues :
    {s : Session} {b : MemoryBudget} {active_task : Option Task} {writer_done : Bool}
    → IsCovered s b
    → IsCovered (record s { writer_done = writer_done; active_task = active_task }) b
same_queues k = record { holds = k.holds; exact = k.exact }

module _ (c : Connection)
    (grows : (n : ℕ) (bs : Bytes) → length bs ≤ c.writer.grown_capacity n bs) where
  handle_busy-Covers :
      (taken : Meanwhile) (uid : OwnedString) (s : Session) (b : MemoryBudget)
      → IsCovered s b
      → Covers 0 s b (handle_busy c taken uid s b)
  unfolding handle_busy
  handle_busy-Covers n uid s b k = elim (try_new_cases uid 503 empty_string b k.holds.0) [
    | inl (room, made) ↦
        let busy : BudgetedResponse = backed uid 503 empty_string in
        let whole : handle_busy c n uid s b
            ≡ answer_busy (response_json c.writer) max_ws_message_size c.protocol n busy s
                (taken busy.retained.bytes b) =
          ground (arith, made) in
        subst (Covers 0 s b) (sym whole) (
          Covers-moved _ busy.retained.bytes 0 s (taken busy.retained.bytes b) b (omega arith) (
            answer_busy-Covers (response_json c.writer) (response_json-IsAllocated c grows)
              max_ws_message_size c.protocol n busy s (taken busy.retained.bytes b)
              (ground (arith, k.holds, k.exact)) (omega arith) (omega (arith, k.holds))))
    | inr (inl (full, small, refused)) ↦ ground (arith, refused)
    | inr (inr (overflow, refused)) ↦ ground (arith, refused)
  ]

  handle_ready-Covers :
      (uid : OwnedString) (s : Session) (b : MemoryBudget)
      → IsCovered s b
      → Covers 0 s b (handle_ready c uid s b)
  unfolding handle_ready
  handle_ready-Covers uid s b k =
      elim (Option-cases (ready_json c.writer uid.bytes c.worker_name)) [
        | inl e ↦ ground (arith, e, k)
        | inr (answer, e) ↦ ground (arith, e, k, send_control-Moves (text answer) s b k)
      ]

  handle_incoming-Covers :
      (taken : Meanwhile) (m : IncomingMessage) (s : Session) (b : MemoryBudget)
      → IsCovered s b
      → Covers 0 s b (handle_incoming c taken m s b)
  unfolding handle_incoming handle_request
  handle_incoming-Covers taken ping s b k = send_control-Moves (text (codes pong_json)) s b k
  handle_incoming-Covers taken pong s b k = (k, omega arith)
  handle_incoming-Covers taken (ready uid) s b k = handle_ready-Covers uid s b k
  handle_incoming-Covers taken (request uid resource) s b k =
      ground (arith, handle_busy-Covers taken uid s b k)
  handle_incoming-Covers taken unknown s b k = (k, omega arith)

  handle_text-Covers :
      (taken : Meanwhile) (content : Bytes) (s : Session) (b : MemoryBudget)
      → IsCovered s b
      → Covers 0 s b (handle_text c taken content s b)
  unfolding handle_text
  handle_text-Covers taken content s b k = elim (Option-cases (c.from_str content)) [
    | inl e ↦ rw (e, handle_text) (k, omega arith)
    | inr (m, e) ↦ elim (Result-cases (validate m)) [
      | inl (_, v) ↦ rw (e, handle_text, v) (handle_incoming-Covers taken m s b k)
      | inr (_, v) ↦ rw (e, handle_text, v) (k, omega arith)
    ]
  ]

  on_message-Covers :
      (taken : Meanwhile) (m : Message) (s : Session) (b : MemoryBudget)
      → IsCovered s b
      → TurnCovers 0 s b (on_message c taken m s b)
  unfolding on_message
  on_message-Covers taken (text content) s b k =
      or_return-Covers 0 s b (handle_text c taken content s b)
        (handle_text-Covers taken content s b k)
  on_message-Covers taken (ping_frame payload) s b k = send_control-Moves (pong_frame payload) s b k
  on_message-Covers taken (pong_frame _) s b k = (k, omega arith)
  on_message-Covers taken (close f) s b k = (k, omega arith)
  on_message-Covers taken (binary _) s b k = (k, omega arith)
  on_message-Covers taken (frame _) s b k = (k, omega arith)

  on_tick-Covers :
      (elapsed : Duration) (s : Session) (b : MemoryBudget)
      → IsCovered s b
      → TurnCovers 0 s b (on_tick c elapsed s b)
  unfolding on_tick
  on_tick-Covers elapsed s b k =
      let pinged = send_control-Moves (text (codes ping_json)) s b k in
      let both = send_control-Moves (ping_frame c.worker_name) _ b pinged.0 in
      ground (arith, pinged, both, k)

  on_completion-Covers :
      (taken : Meanwhile) (r : BudgetedResponse) (joined : Result BoxError (Unit {0})) (s : Session)
      (b : MemoryBudget)
      → IsCovered s b
      → IsExact r
      → holdings s + r.retained.bytes ≤ b.used
      → TurnCovers r.retained.bytes s b (on_completion c taken (some (some r)) joined s b)
  unfolding on_completion
  on_completion-Covers taken r (err e) s b k x le =
      ground (arith, drop-released r.retained b (k.holds.0, omega (arith, le)), k.holds, k.exact)
  on_completion-Covers taken r (ok _) s b k x le =
      let idle : Session = record s { active_task = none } in
      or_return-Covers r.retained.bytes idle b
        (queue_ws_response (response_json c.writer) max_ws_message_size taken r idle b)
        (queue_ws_response-Covers (response_json c.writer) (response_json-IsAllocated c grows)
          max_ws_message_size taken r idle b (same_queues k) x le)

  -- A turn never panics on a session whose queues hold a part of the usage, and whatever its event, it
  -- keeps the limit and changes the usage by exactly what the queues hold more, less the bytes of the
  -- response that a completed scrape brings: no byte of the budget is lost, whether a response is
  -- queued, downgraded, refused or dropped.
  pub turn-Covers :
      (event : Event) (s : Session) (b : MemoryBudget)
      → IsCovered s b
      → IsEnabled s event
      → holdings s + brought event ≤ b.used
      → TurnCovers (brought event) s b (turn c event s b)
  unfolding turn on_completion
  turn-Covers shutdown s b k x le = (k, omega arith)
  turn-Covers (written result) s b k x le = (same_queues k, omega arith)
  turn-Covers (tick elapsed) s b k x le = on_tick-Covers elapsed s b k
  turn-Covers (completion taken none joined) s b k x le = ground (arith, k)
  turn-Covers (completion taken (some none) (err _)) s b k x le = ground (arith, k)
  turn-Covers (completion taken (some none) (ok _)) s b k x le = ground (arith, k)
  turn-Covers (completion taken (some (some r)) joined) s b k x le =
      rw (x.0, turn) (on_completion-Covers taken r joined s b k x.1 le)
  turn-Covers (inbound taken none) s b k x le = (k, omega arith)
  turn-Covers (inbound taken (some (err e))) s b k x le = (k, omega arith)
  turn-Covers (inbound taken (some (ok m))) s b k x le = on_message-Covers taken m s b k
