-- ===== src/Session/Answered.antt =====
-- src/worker.rs: a request, from the frame that brings it to the answer in the bulk queue.
use prometheus_ws_proxy_clie.Base.{
  ℕ, ◌+◌, ◌-◌, ◌≤◌, ◌<◌, ◌≡◌, refl, false, none, some, ok, List, [], ◌∷◌, ◌++◌, Bytes, OwnedString,
  IsAllocated, len, length, arith,
}
use prometheus_ws_proxy_clie.Error.{BoxError, message}
use prometheus_ws_proxy_clie.Protocol.{request, validate}
use prometheus_ws_proxy_clie.Protocol.Length.{response_json_encoded_len}
use prometheus_ws_proxy_clie.Protocol.Encoding.{response_json}
use prometheus_ws_proxy_clie.Memory.{MemoryBudget, drop, max_ws_message_size}
use prometheus_ws_proxy_clie.Memory.Acquire.{IsSound, taken, try_reserve_cases, try_grow_cases}
use prometheus_ws_proxy_clie.Memory.Response.{BudgetedResponse}
use prometheus_ws_proxy_clie.Delivery.Encode.{
  EncodedResponse, Encoder, settle_text, encode_reserved,
  bounded_response_json_with_limit_and_encoder,
}
use prometheus_ws_proxy_clie.Session.{
  Session, Task, Meanwhile, text, done, take_frames, send_bulk, queue_ws_response,
  bulk_queue_capacity,
}
use prometheus_ws_proxy_clie.Session.Turn.{
  Connection, completion, inbound, continues, turn, run, handle_text, handle_incoming,
  handle_request, on_completion, on_message,
}

-- The text that an encoder writes for a response, its length as it is calculated, and its bounds.
pub record IsAnswer (encoder : Encoder) (limit : ℕ) (r : BudgetedResponse) (t : OwnedString)
    : Type 0 where
  pub written : encoder r.response ≡ some t
  pub measured : response_json_encoded_len r.response ≡ some (len t)
  pub allocated : IsAllocated t
  pub in_limit : len t ≤ limit

-- The frame of a text, with a reservation for its allocation.
abbrev pub answer : OwnedString → EncodedResponse
answer t = record { json = t; reservation = record { bytes = t.capacity } }

settle_answer :
    (t : OwnedString) (b : MemoryBudget) (e : BoxError)
    → IsAllocated t
    → IsSound b
    → b.used + t.capacity ≤ b.limit
    → settle_text t (len t) e (record { bytes = len t }) (taken (len t) b)
      ≡ (ok (answer t), taken t.capacity b)
unfolding settle_text
settle_answer t b e a k room = ground (
  arith,
  try_grow_cases (record { bytes = len t }) (t.capacity - len t) (taken (len t) b) (omega arith),
)

encode_answer :
    (encoder : Encoder) (limit : ℕ) (r : BudgetedResponse) (t : OwnedString) (b : MemoryBudget)
    → IsAnswer encoder limit r t
    → IsSound b
    → b.used + t.capacity ≤ b.limit
    → bounded_response_json_with_limit_and_encoder encoder r limit b
      ≡ some (ok (answer t), r, taken t.capacity b)
unfolding bounded_response_json_with_limit_and_encoder encode_reserved
encode_answer encoder limit r t b a k room = ground (
  arith,
  a.written,
  a.measured,
  a.allocated,
  a.in_limit,
  try_reserve_cases (len t) b k,
  settle_answer t b (message "websocket response length precheck disagreed with serializer")
      a.allocated k room,
)

-- While the writer is there and leaves room in the bulk queue, a frame is added to it.
send_answer :
    (m : Meanwhile) (x : EncodedResponse) (s : Session) (b : MemoryBudget)
    → s.writer_ended ≡ false
    → length (take_frames m.frames s.bulk b).0 < bulk_queue_capacity
    → send_bulk m x s b
      ≡ done
          (ok tt)
          (record s { bulk = (take_frames m.frames s.bulk b).0 ++ (x ∷ []) })
          (take_frames m.frames s.bulk b).1
unfolding send_bulk
send_answer m x s b up room = ground (arith, up, room)

-- The budget and the bulk queue when the answer of a task comes: the budget once the text is reserved
-- and the response dropped, and what is left of the queue once the writer has taken some frames.
abbrev pub settled : BudgetedResponse → OwnedString → MemoryBudget → MemoryBudget
settled r t b = drop r.retained (taken t.capacity b)

abbrev pub left :
    Meanwhile
    → BudgetedResponse
    → OwnedString
    → Session
    → MemoryBudget
    → List EncodedResponse × MemoryBudget
left m r t s b = take_frames m.frames s.bulk (settled r t b)

-- The task is in progress, the writer is there, and there is room for the text in the budget and
-- the queue.
pub record HasRoom (task : Task) (m : Meanwhile) (r : BudgetedResponse) (t : OwnedString)
    (s : Session) (b : MemoryBudget) : Type 0 where
  pub at_work : s.active_task ≡ some task
  pub up : s.writer_ended ≡ false
  pub sound : IsSound b
  pub budget_room : b.used + t.capacity ≤ b.limit
  pub queue_room : length (left m r t s b).0 < bulk_queue_capacity

module _ (c : Connection) where
  request_accepted :
      (m : Meanwhile) (content : Bytes) (uid resource : OwnedString) (s : Session)
      (b : MemoryBudget)
      → c.from_str content ≡ some (request uid resource)
      → validate (request uid resource) ≡ ok tt
      → s.active_task ≡ none
      → turn c (inbound m (some (ok (text content)))) s b
        ≡ continues
            (record s { active_task = some (record { uid = uid; resource = resource.bytes }) })
            b
  unfolding turn on_message handle_text handle_incoming handle_request
  request_accepted m content uid resource s b parsed valid idle =
      ground (arith, parsed, valid, idle)

  completion_queued :
      (m : Meanwhile) (r : BudgetedResponse) (t : OwnedString) (task : Task) (s : Session)
      (b : MemoryBudget)
      → IsAnswer (response_json c.writer) max_ws_message_size r t
      → HasRoom task m r t s b
      → turn c (completion m (some (some r)) (ok tt)) s b
        ≡ continues
            (record s { active_task = none; bulk = (left m r t s b).0 ++ (answer t ∷ []) })
            (left m r t s b).1
  unfolding turn on_completion queue_ws_response
  completion_queued m r t task s b a room = ground (
    arith,
    room.at_work,
    encode_answer (response_json c.writer) max_ws_message_size r t b a room.sound room.budget_room,
    send_answer m (answer t) (record s { active_task = none }) (settled r t b) room.up
        room.queue_room,
  )

  -- A request is answered. If an idle session takes a text that is a request with identifiers within
  -- their limits, and later, whatever has happened since, the response of its task, then with room
  -- for the answer in the budget and in the bulk queue, and the writer still there, both turns go on;
  -- the answer stands last in the queue with exactly its allocation reserved, the response has been
  -- dropped, nothing else of the session has changed, and it is idle again.
  pub request-Answered :
      (m m' : Meanwhile) (content : Bytes) (uid resource : OwnedString) (r : BudgetedResponse)
      (t : OwnedString) (since : Session → MemoryBudget → Session × MemoryBudget) (s s' : Session)
      (b b' : MemoryBudget)
      → c.from_str content ≡ some (request uid resource)
      → validate (request uid resource) ≡ ok tt
      → s.active_task ≡ none
      → since (record s { active_task = some (record { uid = uid; resource = resource.bytes }) }) b
        ≡ (s', b')
      → IsAnswer (response_json c.writer) max_ws_message_size r t
      → HasRoom (record { uid = uid; resource = resource.bytes }) m' r t s' b'
      → run c
          (((λ s b. (s, b)), inbound m (some (ok (text content))))
            ∷ (since, completion m' (some (some r)) (ok tt))
            ∷ [])
          s
          b
        ≡ continues
            (record s' { active_task = none; bulk = (left m' r t s' b').0 ++ (answer t ∷ []) })
            (left m' r t s' b').1
  unfolding run
  request-Answered m m' content uid resource r t since s s' b b' parsed valid idle later a room =
      rw
        (
          request_accepted m content uid resource s b parsed valid idle,
          later,
          completion_queued m' r t _ s' b' a room,
          run,
        )
        refl
