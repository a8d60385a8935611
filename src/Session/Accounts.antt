-- ===== src/Session/Accounts.antt =====
-- src/worker.rs: the bytes of the responses in the queues of a session.
use prometheus_ws_proxy_clie.Session.{drop_queue, Meanwhile}
use prometheus_ws_proxy_clie.Base.{
  ℕ, zero, suc, ◌+◌, ◌≤◌, ◌≡◌, subst, some, ok, err, List, [], ◌∷◌, OwnedString, IsAllocated, total,
  total-append, arith, Option-cases, inl, inr,
}
use prometheus_ws_proxy_clie.Memory.{MemoryBudget, drop}
use prometheus_ws_proxy_clie.Memory.Acquire.{Shifts, IsSound, Holds, drop-released}
use prometheus_ws_proxy_clie.Memory.Response.{BudgetedResponse}
use prometheus_ws_proxy_clie.Memory.Backed.{IsBacked, downgraded}
use prometheus_ws_proxy_clie.Delivery.Encode.{
  EncodedResponse, Encoder, bounded_response_json_with_limit_and_encoder,
}
use prometheus_ws_proxy_clie.Delivery.Encoded.{Ends, bounded_response_json-Ends}
use prometheus_ws_proxy_clie.Session.{
  Session, Progress, panicked, waiting, done, take_frames, send_bulk, queue_ws_response,
}

abbrev pub queued_bytes : List EncodedResponse → ℕ
queued_bytes = total λ x. x.reservation.bytes

abbrev pub busy_bytes : List BudgetedResponse → ℕ
busy_bytes = total λ r. r.retained.bytes

-- The bytes that the queues of a session hold.
abbrev pub holdings : Session → ℕ
holdings s = queued_bytes s.bulk + busy_bytes s.busy_responses

-- Some bytes of the caller have gone into the queues or back to the budget: the usage has changed
-- by exactly what the queues hold more, less those bytes.
abbrev pub Accounts : {A : Type 0} → ℕ → Session → MemoryBudget → Progress A → Type 0
Accounts bytes s b panicked = ⊥
Accounts bytes s b waiting = Unit
Accounts bytes s b (done _ s' b') =
    Holds (holdings s') b' × Shifts (holdings s + bytes) (holdings s') b b'

pub drop_queue-released :
    (queue : List EncodedResponse) (b : MemoryBudget)
    → Holds (queued_bytes queue) b
    → IsSound (drop_queue queue b) × Shifts (queued_bytes queue) 0 b (drop_queue queue b)
unfolding drop_queue
drop_queue-released [] b h = (h.0, ground arith)
drop_queue-released (x ∷ queue) b h =
    let freed = drop-released x.reservation b (ground arith) in
    let (sound, all) = drop_queue-released queue (drop x.reservation b) (ground (arith, freed)) in
    (sound, ground (arith, freed))

take_frames-released :
    (n : ℕ) (queue : List EncodedResponse) (b : MemoryBudget)
    → Holds (queued_bytes queue) b
    → let (queue', b') = take_frames n queue b in
      IsSound b' × Shifts (queued_bytes queue) (queued_bytes queue') b b'
unfolding take_frames
take_frames-released zero queue b h = (h.0, omega arith)
take_frames-released (suc n) [] b h = (h.0, omega arith)
take_frames-released (suc n) (x ∷ queue) b h =
    let freed = drop-released x.reservation b (ground arith) in
    let (sound, moved) =
      take_frames-released n queue (drop x.reservation b) (ground (arith, freed)) in
    (sound, ground (arith, freed))

send_bulk-Accounts :
    (taken : Meanwhile) (x : EncodedResponse) (s : Session) (b : MemoryBudget)
    → Holds (holdings s + x.reservation.bytes) b
    → Accounts x.reservation.bytes s b (send_bulk taken x s b)
unfolding send_bulk
send_bulk-Accounts taken x s b h =
    let left = (take_frames taken.frames s.bulk b).0 in
    let taking = take_frames-released taken.frames s.bulk b (h.0, omega (arith, h.1)) in
    ground (
      arith,
      taking,
      drop-released x.reservation b,
      total-append (λ (y : EncodedResponse). y.reservation.bytes) left (x ∷ []),
      drop_queue-released left (take_frames taken.frames s.bulk b).1,
      drop-released x.reservation (drop_queue left (take_frames taken.frames s.bulk b).1),
    )

Accounts-moved :
    {A : Type 0} (p : Progress A) (m n : ℕ) (s : Session) (b c : MemoryBudget)
    → Shifts n m c b
    → Accounts m s b p
    → Accounts n s c p
Accounts-moved panicked m n s b c e a = a
Accounts-moved waiting m n s b c e a = a
Accounts-moved (done _ s' b') m n s b c e (holds, moved) = (holds, omega (arith, moved, e))

module _ (encoder : Encoder)
    (allocates : (r : BudgetedResponse) (s : OwnedString)
      → encoder r.response ≡ some s
      → IsAllocated s) where
  encoded-Accounts :
      (limit : ℕ) (taken : Meanwhile) (r r₁ : BudgetedResponse) (s : Session) (b : MemoryBudget)
      → Holds (holdings s + r.retained.bytes) b
      → Ends encoder allocates r r₁ limit b
          (bounded_response_json_with_limit_and_encoder encoder r limit b)
      → Accounts r.retained.bytes s b (queue_ws_response encoder limit taken r s b)
  unfolding queue_ws_response
  encoded-Accounts limit taken r r₁ s b h e =
      elim (Option-cases (bounded_response_json_with_limit_and_encoder encoder r limit b)) [
        | inl panics ↦ absurd (subst (Ends encoder allocates r r₁ limit b) panics e)
        | inr ((ok x, r', b'), eq) ↦
            let ends = subst (Ends encoder allocates r r₁ limit b) eq e in
            let dropped = drop-released r'.retained b' (ground arith) in
            let sent =
              send_bulk-Accounts taken x s (drop r'.retained b') (ground (arith, dropped)) in
            rw (eq, queue_ws_response)
              (Accounts-moved _ x.reservation.bytes r.retained.bytes s (drop r'.retained b') b
                (ground (arith, dropped)) sent)
        | inr ((err x, r', b'), eq) ↦
            let ends = subst (Ends encoder allocates r r₁ limit b) eq e in
            let dropped = drop-released r'.retained b' (ground arith) in
            rw (eq, queue_ws_response) (ground (arith, dropped))
      ]

  -- If the bytes of a response and those of the queues are a part of the usage, then queueing the
  -- response for the WebSocket never panics, and where it does not wait for ever, the usage
  -- has changed by exactly what the queues hold more, less the bytes of the response: nothing leaks,
  -- whether it is queued, downgraded, dropped, or refused by a writer that has ended.
  pub queue_ws_response-Accounts :
      (limit : ℕ) (taken : Meanwhile) (r : BudgetedResponse) (s : Session) (b : MemoryBudget)
      → IsBacked r b
      → holdings s + r.retained.bytes ≤ b.used
      → Accounts r.retained.bytes s b (queue_ws_response encoder limit taken r s b)
  queue_ws_response-Accounts limit taken r s b k le =
      elim (bounded_response_json-Ends encoder allocates r limit b k) [
        | inl e ↦ encoded-Accounts limit taken r r s b (k.holds.0, le) e
        | inr e ↦ encoded-Accounts limit taken r (downgraded r) s b (k.holds.0, le) e
      ]
