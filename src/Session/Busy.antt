-- ===== src/Session/Busy.antt =====
-- src/worker.rs: `run_busy_response_actor`, which posts the busy answers of wire v3, at most four at a
-- time, and queues those that cannot be posted for the WebSocket. The result of a post is part of
-- the event that completes it.
use prometheus_ws_proxy_clie.Base.{
  ℕ, zero, suc, Bool, true, false, not, ◌&&◌, Option, none, some, Result, ok, err, List, [], ◌∷◌,
  ◌++◌, length, ltb, if◌then◌else◌,
}
use prometheus_ws_proxy_clie.Error.{BoxError}
use prometheus_ws_proxy_clie.Memory.{MemoryBudget, MemoryReservation, try_grow, drop}
use prometheus_ws_proxy_clie.Memory.Response.{BudgetedResponse}
use prometheus_ws_proxy_clie.Delivery.Encode.{Encoder}
use prometheus_ws_proxy_clie.Session.{
  Meanwhile, Session, Progress, panicked, waiting, done, queue_ws_response,
}

abbrev pub busy_response_concurrency : ℕ
busy_response_concurrency = 4

-- A post in flight: its response, and what `prepare_form_request` has reserved for its form so far.
pub record InFlight : Type 0 where
  pub response : BudgetedResponse
  pub form : MemoryReservation

-- The posts in flight; `responses` and `bulk` are those of the session.
pub record Actor : Type 0 where
  pub posts : List InFlight
  pub input_open : Bool

-- What one turn of `select!` takes: what the queue gives, a response or its end; or the end of a
-- post, by its place, with its result. While a fallback waits, the writer takes some frames. Between
-- these a post that is polled may reserve bytes for its form: first the length of the form, and then
-- the spare capacity of its text.
pub data ActorEvent : Type 0 where
  receive : ActorEvent
  close_input : ActorEvent
  prepared : ℕ → ℕ → ActorEvent
  completed : ℕ → Result BoxError (Unit {0}) → Meanwhile → ActorEvent

-- The actor goes on or has returned; a turn may also panic, or wait for ever for room in the bulk
-- queue.
pub data Acting : Type 0 where
  panics waits : Acting
  goes : Actor → Session → MemoryBudget → Acting
  ends : Session → MemoryBudget → Acting

-- The element at a place, and the list without it.
unfoldable pub take_at {ℓ} : {A : Type ℓ} → ℕ → List A → Option (A × List A)
take_at n [] = none
take_at zero (x ∷ xs) = some (x, xs)
take_at (suc n) (x ∷ xs) = elim (take_at n xs) [ none ↦ none | some (y, ys) ↦ some (y, x ∷ ys) ]

abbrev pub is_empty {ℓ} : {A : Type ℓ} → List A → Bool
is_empty [] = true
is_empty (_ ∷ _) = false

unfoldable pub drop_responses : List BudgetedResponse → MemoryBudget → MemoryBudget
drop_responses [] b = b
drop_responses (r ∷ rs) b = drop_responses rs (drop r.retained b)

-- A post ends, or is dropped, with the reservation for its form and its response.
unfoldable pub drop_posts : List InFlight → MemoryBudget → MemoryBudget
drop_posts [] b = b
drop_posts (p ∷ posts) b = drop_posts posts (drop p.response.retained (drop p.form b))

-- The actor returns, or is aborted: its posts and its end of the queue are dropped.
unfoldable pub leave : Actor → Session → MemoryBudget → Acting
unfolding drop_responses drop_posts
leave a s b =
    ends (record s { busy_responses = []; actor_ended = true })
      (drop_responses s.busy_responses (drop_posts a.posts b))

-- The fallback of a failed post; the loop ends if the writer has.
unfoldable pub fallen_back : Actor → Progress (Result BoxError (Unit {0})) → Acting
unfolding leave
fallen_back a panicked = panics
fallen_back a waiting = waits
fallen_back a (done (ok _) s b) = goes a s b
fallen_back a (done (err _) s b) = leave a s b

abbrev pub is_over : Actor → Bool
is_over a = not a.input_open && is_empty a.posts

-- A guard that fails leaves the branch out of the select.
abbrev pub may_receive : Actor → Bool
may_receive a = a.input_open && ltb (length a.posts) busy_response_concurrency

unfoldable pub on_receive : Actor → Session → MemoryBudget → Acting
on_receive a s b = elim s.busy_responses [
  | [] ↦ goes a s b
  | response ∷ responses ↦
      if may_receive a
      then goes
          (record a {
            posts = a.posts ++ (record { response = response; form = record { bytes = 0 } } ∷ []);
          })
          (record s { busy_responses = responses }) b
      else goes a s b
]

-- A post reserves bytes for its form, if they fit in the budget. Its place has no meaning but to tell
-- it from the others.
unfoldable pub on_prepared : ℕ → ℕ → Actor → Session → MemoryBudget → Acting
unfolding try_grow
on_prepared place n a s b = elim (take_at place a.posts) [
  | none ↦ goes a s b
  | some (p, posts) ↦
      let (_, form, b') = try_grow p.form n b in
      goes (record a { posts = posts ++ (record p { form = form } ∷ []) }) s b'
]

module _ (encoder : Encoder) (limit : ℕ) where
  unfoldable pub on_completed :
      ℕ → Result BoxError (Unit {0}) → Meanwhile → Actor → Session → MemoryBudget → Acting
  on_completed place result taken a s b = elim (take_at place a.posts) [
    | none ↦ goes a s b
    | some (p, posts) ↦ elim result [
      | ok _ ↦ goes (record a { posts = posts }) s (drop p.response.retained (drop p.form b))
      | err _ ↦
          fallen_back (record a { posts = posts })
            (queue_ws_response encoder limit taken p.response s (drop p.form b))
    ]
  ]

  unfoldable pub actor_turn : ActorEvent → Actor → Session → MemoryBudget → Acting
  unfolding on_receive on_prepared on_completed
  actor_turn receive a s b = on_receive a s b
  actor_turn close_input a s b =
      goes
        (if may_receive a && is_empty s.busy_responses then record a { input_open = false } else a)
        s b
  actor_turn (prepared place n) a s b = on_prepared place n a s b
  actor_turn (completed place result taken) a s b = on_completed place result taken a s b

  -- The loop, over the events that come.
  unfoldable pub run_busy_response_actor : List ActorEvent → Actor → Session → MemoryBudget → Acting
  run_busy_response_actor [] a s b = if is_over a then leave a s b else goes a s b
  run_busy_response_actor (event ∷ events) a s b =
      let next : Acting = elim (actor_turn event a s b) [
        | goes a' s' b' ↦ run_busy_response_actor events a' s' b'
        | ends s' b' ↦ ends s' b'
        | panics ↦ panics
        | waits ↦ waits
      ] in
      if is_over a then leave a s b else next
