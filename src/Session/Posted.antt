-- ===== src/Session/Posted.antt =====
-- src/worker.rs: what the actor that posts busy answers holds and gives back.
use prometheus_ws_proxy_clie.Base.{
  All-append, ℕ, suc, ◌+◌, ◌≤◌, ◌≡◌, refl, ap, subst, if◌then◌else◌, some, Result, ok, err, List,
  [], ◌∷◌, ◌++◌, OwnedString, IsAllocated, length, length-append, total-append, arith, All,
  Option-cases, Bool-cases, inl, inr,
}
use prometheus_ws_proxy_clie.Error.{BoxError}
use prometheus_ws_proxy_clie.Memory.{MemoryBudget, MemoryReservation, drop}
use prometheus_ws_proxy_clie.Memory.Acquire.{drop-Shifts, try_grow_cases, IsSound, taken}
use prometheus_ws_proxy_clie.Memory.Response.{BudgetedResponse}
use prometheus_ws_proxy_clie.Delivery.Encode.{Encoder}
use prometheus_ws_proxy_clie.Session.{
  Meanwhile, Session, Progress, panicked, waiting, done, queue_ws_response,
}
use prometheus_ws_proxy_clie.Session.Accounts.{busy_bytes}
use prometheus_ws_proxy_clie.Session.Covered.{IsExact, Covers, queue_ws_response-Covers}
use prometheus_ws_proxy_clie.Session.Busy.{
  busy_response_concurrency, InFlight, on_prepared, prepared, Actor, ActorEvent, receive,
  close_input, completed, Acting, panics, waits, goes, ends, take_at, leave, fallen_back,
  may_receive, is_over, on_receive, on_completed, actor_turn, run_busy_response_actor,
}
use prometheus_ws_proxy_clie.Session.Held.{
  flight_bytes, IsExactPost, Conserves, Conserves-moved, Taken, held, leave-Conserves,
  take_at-Taken, IsPosting,
}

abbrev just_received : BudgetedResponse → InFlight
just_received r = record { response = r; form = record { bytes = 0 } }

on_receive-Conserves :
    (a : Actor) (s : Session) (b : MemoryBudget)
    → IsPosting a s b
    → Conserves (held a s) b (on_receive a s b)
unfolding on_receive
on_receive-Conserves a s b k = go s.busy_responses refl
  where
    go :
        (queue : List BudgetedResponse)
        → s.busy_responses ≡ queue
        → Conserves (held a s) b (elim queue [
          | [] ↦ goes a s b
          | response ∷ responses ↦
              if may_receive a
              then goes
                  (record a {
                    posts =
                        a.posts
                        ++ (record { response = response; form = record { bytes = 0 } } ∷ []);
                  })
                  (record s { busy_responses = responses })
                  b
              else goes a s b
        ])
    go [] e = (k, omega arith)
    go (r ∷ rs) e =
        let bytes : busy_bytes s.busy_responses ≡ r.retained.bytes + busy_bytes rs =
          ap busy_bytes e in
        let exact : IsExact r × All IsExact rs = subst (All IsExact) e k.waiting in
        ground (
          arith,
          bytes,
          exact,
          k.few,
          k.holds,
          k.posting,
          k.waiting,
          total-append (λ (p : InFlight). p.response.retained.bytes + p.form.bytes) a.posts
              (just_received r ∷ []),
          length-append a.posts (just_received r ∷ []),
          All-append IsExactPost a.posts (just_received r) k.posting exact.0,
        )

-- A post that has been taken comes back with another reservation for its form.
re_added-IsPosting :
    (p : InFlight) (rest : List InFlight) (form : MemoryReservation) (a : Actor) (s : Session)
    (b b' : MemoryBudget)
    → IsExactPost p
    → All IsExactPost rest
    → flight_bytes a.posts ≡ p.response.retained.bytes + p.form.bytes + flight_bytes rest
    → length a.posts ≡ suc (length rest)
    → IsPosting a s b
    → IsSound b'
    → b'.limit ≡ b.limit
    → b'.used + p.form.bytes ≡ b.used + form.bytes
    → Conserves
        (held a s)
        b
        (goes (record a { posts = rest ++ (record p { form = form } ∷ []) }) s b')
re_added-IsPosting p rest form a s b b' exact all bytes count k sound same moved =
    let back : InFlight = record p { form = form } in
    let sum =
      total-append (λ (q : InFlight). q.response.retained.bytes + q.form.bytes) rest (back ∷ []) in
    let counted = length-append rest (back ∷ []) in
    (
      record {
        few = omega (arith, count, counted, k.few);
        holds = (sound, omega (arith, k.holds.1, bytes, sum, moved));
        waiting = k.waiting;
        posting = All-append IsExactPost rest back all exact;
      },
      record { usage = omega (arith, bytes, sum, moved); same_limit = same },
    )

on_prepared-Conserves :
    (place n : ℕ) (a : Actor) (s : Session) (b : MemoryBudget)
    → IsPosting a s b
    → Conserves (held a s) b (on_prepared place n a s b)
unfolding on_prepared
on_prepared-Conserves place n a s b k = elim (Option-cases (take_at place a.posts)) [
  | inl e ↦ rw (e, on_prepared) (k, omega arith)
  | inr ((p, rest), e) ↦
      let (exact, all, bytes, count) =
        subst (Taken a.posts) e (take_at-Taken place a.posts k.posting) in
      elim (try_grow_cases p.form n b (k.holds.0, omega (arith, bytes, k.holds.1))) [
        | inl (room, grew) ↦
            rw (e, on_prepared, grew)
              (re_added-IsPosting p rest (record { bytes = p.form.bytes + n }) a s b (taken n b)
                exact all bytes count k (omega (arith, room, k.holds.0)) refl (omega arith))
        | inr (full, refused) ↦
            rw (e, on_prepared, refused)
              (re_added-IsPosting p rest p.form a s b b exact all bytes count k k.holds.0 refl refl)
      ]
]

module _ (encoder : Encoder)
    (allocates : (r : BudgetedResponse) (s : OwnedString)
      → encoder r.response ≡ some s
      → IsAllocated s)
    (limit : ℕ) where
  fallen_back-Conserves :
      (a : Actor) (s : Session) (b : MemoryBudget) (n : ℕ)
      (p : Progress (Result BoxError (Unit {0})))
      → length a.posts ≤ busy_response_concurrency
      → All IsExactPost a.posts
      → held a s + n ≤ b.used
      → Covers n s b p
      → Conserves (held a s + n) b (fallen_back a p)
  unfolding fallen_back
  fallen_back-Conserves a s b n panicked few x le k = k
  fallen_back-Conserves a s b n waiting few x le k = tt
  fallen_back-Conserves a s b n (done (ok _) s' b') few x le (k, moved) = (
    record {
      few = few;
      holds = (k.holds.0, omega (arith, moved, le));
      waiting = k.exact;
      posting = x;
    },
    omega (arith, moved),
  )
  fallen_back-Conserves a s b n (done (err _) s' b') few x le (k, moved) =
      Conserves-moved (leave a s' b') (held a s') (held a s + n) b' b (omega (arith, moved)) (
        leave-Conserves a s' b' (record {
          few = few;
          holds = (k.holds.0, omega (arith, moved, le));
          waiting = k.exact;
          posting = x;
        }))

  on_completed-Conserves :
      (place : ℕ) (result : Result BoxError (Unit {0})) (n : Meanwhile) (a : Actor) (s : Session)
      (b : MemoryBudget)
      → IsPosting a s b
      → Conserves (held a s) b (on_completed encoder limit place result n a s b)
  unfolding on_completed
  on_completed-Conserves place result n a s b k = elim (Option-cases (take_at place a.posts)) [
    | inl e ↦ rw (e, on_completed) (k, omega arith)
    | inr ((r, rest), e) ↦
        let (exact, all, bytes, count) =
          subst (Taken a.posts) e (take_at-Taken place a.posts k.posting) in
        rw (e, on_completed) (settle r rest exact all bytes count result)
  ]
    where
      settle :
          (p : InFlight) (rest : List InFlight)
          → IsExactPost p
          → All IsExactPost rest
          → flight_bytes a.posts ≡ p.response.retained.bytes + p.form.bytes + flight_bytes rest
          → length a.posts ≡ suc (length rest)
          → (result' : Result BoxError (Unit {0}))
          → Conserves (held a s) b (elim result' [
            | ok _ ↦ goes (record a { posts = rest }) s (drop p.response.retained (drop p.form b))
            | err _ ↦
                fallen_back
                  (record a { posts = rest })
                  (queue_ws_response encoder limit n p.response s (drop p.form b))
          ])
      settle p rest exact all bytes count (ok _) =
          let (sound, form) = drop-Shifts p.form b (k.holds.0, omega (arith, bytes, k.holds.1)) in
          let (sound', response) =
            drop-Shifts p.response.retained (drop p.form b)
              (sound, omega (arith, bytes, k.holds.1, form)) in
          (
            record {
              few = omega (arith, count, k.few);
              holds = (sound', omega (arith, bytes, k.holds.1, form, response));
              waiting = k.waiting;
              posting = all;
            },
            omega (arith, bytes, form, response),
          )
      settle p rest exact all bytes count (err _) =
          let others : Actor = record a { posts = rest } in
          let (sound, form) = drop-Shifts p.form b (k.holds.0, omega (arith, bytes, k.holds.1)) in
          Conserves-moved
            (fallen_back others (queue_ws_response encoder limit n p.response s (drop p.form b)))
            (held others s + p.response.retained.bytes) (held a s) (drop p.form b) b
            (omega (arith, bytes, form))
            (fallen_back-Conserves others s (drop p.form b) p.response.retained.bytes
              (queue_ws_response encoder limit n p.response s (drop p.form b))
              (omega (arith, count, k.few)) all (omega (arith, bytes, k.holds.1, form))
              (queue_ws_response-Covers encoder allocates limit n p.response s (drop p.form b)
                (record {
                  holds = (sound, omega (arith, bytes, k.holds.1, form));
                  exact = k.waiting;
                })
                exact (omega (arith, bytes, k.holds.1, form))))

  pub actor_turn-Conserves :
      (event : ActorEvent) (a : Actor) (s : Session) (b : MemoryBudget)
      → IsPosting a s b
      → Conserves (held a s) b (actor_turn encoder limit event a s b)
  unfolding actor_turn
  actor_turn-Conserves receive a s b k = on_receive-Conserves a s b k
  actor_turn-Conserves close_input a s b k = ground (arith, k)
  actor_turn-Conserves (prepared place n) a s b k = on_prepared-Conserves place n a s b k
  actor_turn-Conserves (completed place result n) a s b k =
      on_completed-Conserves place result n a s b k

  go_on-Conserves :
      (before : ℕ) (b : MemoryBudget) (acting : Acting)
      (after : Actor → Session → MemoryBudget → Acting)
      → Conserves before b acting
      → ((a : Actor) (s : Session) (b' : MemoryBudget)
          → IsPosting a s b'
          → Conserves (held a s) b' (after a s b'))
      → Conserves before b (elim acting [
        | goes a' s' b' ↦ after a' s' b'
        | ends s' b' ↦ ends s' b'
        | panics ↦ panics
        | waits ↦ waits
      ])
  go_on-Conserves before b panics after l k = l
  go_on-Conserves before b waits after l k = tt
  go_on-Conserves before b (goes a s b') after l k =
      Conserves-moved (after a s b') (held a s) before b' b (omega (arith, l.1)) (k a s b' l.0)
  go_on-Conserves before b (ends s b') after l k = l

  -- Over any events, the actor never panics and has at most four posts in flight, and the usage changes
  -- by exactly what its posts, the reservations for their forms, and the queues of the session hold
  -- more: a response that is posted, falls back to the WebSocket or is dropped when the actor returns
  -- gives up exactly its bytes and those of its form. A turn may also wait for room in the bulk queue.
  pub run_busy_response_actor-Conserves :
      (events : List ActorEvent) (a : Actor) (s : Session) (b : MemoryBudget)
      → IsPosting a s b
      → Conserves (held a s) b (run_busy_response_actor encoder limit events a s b)
  unfolding run_busy_response_actor
  run_busy_response_actor-Conserves [] a s b k = ground (arith, leave-Conserves a s b k, k)
  run_busy_response_actor-Conserves (event ∷ events) a s b k = elim (Bool-cases (is_over a)) [
    | inl over ↦ rw (over, run_busy_response_actor) (leave-Conserves a s b k)
    | inr busy ↦
        rw (busy, run_busy_response_actor)
          (go_on-Conserves (held a s) b (actor_turn encoder limit event a s b)
            (run_busy_response_actor encoder limit events) (actor_turn-Conserves event a s b k)
            (run_busy_response_actor-Conserves events))
  ]
