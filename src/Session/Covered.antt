-- ===== src/Session/Covered.antt =====
-- src/worker.rs: the bytes that a handler moves between the budget and the queues of a session.
use prometheus_ws_proxy_clie.Session.{Meanwhile}
use prometheus_ws_proxy_clie.Base.{
  All-append, ℕ, ◌+◌, ◌≤◌, ◌≡◌, refl, sym, subst, some, ok, err, [], ◌∷◌, OwnedString, IsAllocated,
  total-append, arith, All, Option-cases, inl, inr,
}
use prometheus_ws_proxy_clie.Memory.{MemoryBudget}
use prometheus_ws_proxy_clie.Memory.Acquire.{Shifts, Holds, taken}
use prometheus_ws_proxy_clie.Memory.Response.{BudgetedResponse}
use prometheus_ws_proxy_clie.Memory.Backed.{allocated}
use prometheus_ws_proxy_clie.Delivery.Encode.{
  EncodedResponse, Encoder, bounded_response_json_with_limit_and_encoder,
}
use prometheus_ws_proxy_clie.Session.{
  Session, Message, Progress, panicked, waiting, done, send_control, send_bulk, queue_ws_response,
  answer_busy,
}
use prometheus_ws_proxy_clie.Session.Accounts.{holdings, Accounts, queue_ws_response-Accounts}
use prometheus_ws_proxy_clie.Session.Queues.{Leaves}

-- A response holds exactly its two allocations.
abbrev pub IsExact : BudgetedResponse → Type 0
IsExact r = r.retained.bytes ≡ allocated r

-- The bytes that the queues hold are a part of the usage, and each response that waits to be posted
-- holds exactly its allocations.
pub record IsCovered (s : Session) (b : MemoryBudget) : Type 0 where
  pub holds : Holds (holdings s) b
  pub exact : All IsExact s.busy_responses

-- From one session and budget to others: the usage changes by exactly what the queues hold more, less
-- the bytes that the caller gives.
abbrev pub Moves : ℕ → Session → MemoryBudget → Session → MemoryBudget → Type 0
Moves bytes s b s' b' = IsCovered s' b' × Shifts (holdings s + bytes) (holdings s') b b'

abbrev pub Covers : {A : Type 0} → ℕ → Session → MemoryBudget → Progress A → Type 0
Covers bytes s b panicked = ⊥
Covers bytes s b waiting = Unit
Covers bytes s b (done _ s' b') = Moves bytes s b s' b'

-- The same responses wait to be posted.
abbrev SameBusy : Session → Session → Type 0
SameBusy s s' = s'.busy_responses ≡ s.busy_responses

Accounts-Covers :
    {A : Type 0} (p : Progress A) (n : ℕ) (s : Session) (b : MemoryBudget)
    → All IsExact s.busy_responses
    → Leaves (SameBusy s) p
    → Accounts n s b p
    → Covers n s b p
Accounts-Covers panicked n s b x l a = a
Accounts-Covers waiting n s b x l a = a
Accounts-Covers (done _ s' b') n s b x l (h, moved) =
    (record { holds = h; exact = subst (All IsExact) (sym l) x }, moved)

pub Covers-moved :
    {A : Type 0} (p : Progress A) (m n : ℕ) (s : Session) (b c : MemoryBudget)
    → Shifts n m c b
    → Covers m s b p
    → Covers n s c p
Covers-moved panicked m n s b c e a = a
Covers-moved waiting m n s b c e a = a
Covers-moved (done _ s' b') m n s b c e (covered, moved) = (covered, omega (arith, moved, e))

send_bulk-SameBusy :
    (taken : Meanwhile) (x : EncodedResponse) (s : Session) (b : MemoryBudget)
    → Leaves (SameBusy s) (send_bulk taken x s b)
unfolding send_bulk
send_bulk-SameBusy taken x s b = ground arith

pub send_control-Moves :
    (m : Message) (s : Session) (b : MemoryBudget)
    → IsCovered s b
    → Moves 0 s b (send_control m s) b
unfolding send_control
send_control-Moves m s b c = ground arith

module _ (encoder : Encoder)
    (allocates : (r : BudgetedResponse) (s : OwnedString)
      → encoder r.response ≡ some s
      → IsAllocated s)
    (limit : ℕ) where
  queue_ws_response-SameBusy :
      (taken : Meanwhile) (r : BudgetedResponse) (s : Session) (b : MemoryBudget)
      → Leaves (SameBusy s) (queue_ws_response encoder limit taken r s b)
  unfolding queue_ws_response
  queue_ws_response-SameBusy taken r s b =
      elim (Option-cases (bounded_response_json_with_limit_and_encoder encoder r limit b)) [
        | inl e ↦ rw (e, queue_ws_response) tt
        | inr ((ok x, r', b'), e) ↦ rw (e, queue_ws_response) (send_bulk-SameBusy taken x s _)
        | inr ((err x, r', b'), e) ↦ rw (e, queue_ws_response) refl
      ]

  pub queue_ws_response-Covers :
      (taken : Meanwhile) (r : BudgetedResponse) (s : Session) (b : MemoryBudget)
      → IsCovered s b
      → IsExact r
      → holdings s + r.retained.bytes ≤ b.used
      → Covers r.retained.bytes s b (queue_ws_response encoder limit taken r s b)
  queue_ws_response-Covers taken r s b c x le =
      Accounts-Covers _ r.retained.bytes s b c.exact (queue_ws_response-SameBusy taken r s b) (
        queue_ws_response-Accounts encoder allocates limit taken r s b
          (record { exact = x; holds = (c.holds.0, omega (arith, le)) }) le)

  pub answer_busy-Covers :
      (protocol : ℕ) (taken : Meanwhile) (r : BudgetedResponse) (s : Session) (b : MemoryBudget)
      → IsCovered s b
      → IsExact r
      → holdings s + r.retained.bytes ≤ b.used
      → Covers r.retained.bytes s b (answer_busy encoder limit protocol taken r s b)
  unfolding answer_busy
  answer_busy-Covers protocol taken r s b c x le = ground (
    arith,
    queue_ws_response-Covers taken r s b c x le,
    total-append (λ (q : BudgetedResponse). q.retained.bytes) s.busy_responses (r ∷ []),
    All-append IsExact s.busy_responses r c.exact x,
  )
