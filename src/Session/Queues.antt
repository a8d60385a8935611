-- ===== src/Session/Queues.antt =====
-- src/worker.rs: the queues of a session stay within their capacities.
use prometheus_ws_proxy_clie.Session.{Meanwhile}
use prometheus_ws_proxy_clie.Base.{
  ℕ, ◌≤◌, Result, ok, err, [], ◌∷◌, length, length-append, arith, Option-cases, inl, inr,
}
use prometheus_ws_proxy_clie.Error.{BoxError}
use prometheus_ws_proxy_clie.Memory.{MemoryBudget}
use prometheus_ws_proxy_clie.Memory.Response.{BudgetedResponse}
use prometheus_ws_proxy_clie.Delivery.Encode.{
  EncodedResponse, Encoder, bounded_response_json_with_limit_and_encoder,
}
use prometheus_ws_proxy_clie.Session.{
  Session, Message, Progress, panicked, waiting, done, send_control, take_frames, send_bulk,
  queue_ws_response, answer_busy, control_queue_capacity, bulk_queue_capacity,
  busy_response_queue_capacity,
}
use prometheus_ws_proxy_clie.Session.Turn.{Turn, panics, waits, continues, returns, or_return}

-- No queue holds more than its capacity.
pub record IsBounded (s : Session) : Type 0 where
  pub control_bound : length s.control ≤ control_queue_capacity
  pub bulk_bound : length s.bulk ≤ bulk_queue_capacity
  pub busy_bound : length s.busy_responses ≤ busy_response_queue_capacity

abbrev pub Leaves : {A : Type 0} → (Session → Type 0) → Progress A → Type 0
Leaves P panicked = Unit
Leaves P waiting = Unit
Leaves P (done _ s _) = P s

abbrev pub TurnLeaves : (Session → Type 0) → Turn → Type 0
TurnLeaves P panics = Unit
TurnLeaves P waits = Unit
TurnLeaves P (continues s _) = P s
TurnLeaves P (returns _ _ s _) = P s

pub or_return-Leaves :
    (P : Session → Type 0) (h : Progress (Result BoxError (Unit {0})))
    → Leaves P h
    → TurnLeaves P (or_return h)
or_return-Leaves P panicked l = tt
or_return-Leaves P waiting l = tt
or_return-Leaves P (done (ok _) s b) l = l
or_return-Leaves P (done (err e) s b) l = l

pub send_control-IsBounded :
    (m : Message) (s : Session) → IsBounded s → IsBounded (send_control m s)
unfolding send_control
send_control-IsBounded m s h = ground (arith, length-append s.control (m ∷ []))

send_bulk-IsBounded :
    (taken : Meanwhile) (x : EncodedResponse) (s : Session) (b : MemoryBudget)
    → IsBounded s
    → Leaves IsBounded (send_bulk taken x s b)
unfolding send_bulk
send_bulk-IsBounded taken x s b h =
    ground (arith, length-append (take_frames taken.frames s.bulk b).0 (x ∷ []))

module _ (encoder : Encoder) (limit : ℕ) where
  pub queue_ws_response-IsBounded :
      (taken : Meanwhile) (r : BudgetedResponse) (s : Session) (b : MemoryBudget)
      → IsBounded s
      → Leaves IsBounded (queue_ws_response encoder limit taken r s b)
  unfolding queue_ws_response
  queue_ws_response-IsBounded taken r s b h =
      elim (Option-cases (bounded_response_json_with_limit_and_encoder encoder r limit b)) [
        | inl e ↦ rw (e, queue_ws_response) tt
        | inr ((ok x, r', b'), e) ↦ rw (e, queue_ws_response) (send_bulk-IsBounded taken x s _ h)
        | inr ((err x, r', b'), e) ↦ rw (e, queue_ws_response) h
      ]

  pub answer_busy-IsBounded :
      (protocol : ℕ) (taken : Meanwhile) (r : BudgetedResponse) (s : Session) (b : MemoryBudget)
      → IsBounded s
      → Leaves IsBounded (answer_busy encoder limit protocol taken r s b)
  unfolding answer_busy
  answer_busy-IsBounded protocol taken r s b h =
      ground
        (arith, length-append s.busy_responses (r ∷ []), queue_ws_response-IsBounded taken r s b h)
