-- ===== src/Session/Safe.antt =====
-- src/worker.rs: a connection with bounded queues that holds a part of the usage.
use prometheus_ws_proxy_clie.Base.{
  ℕ, ◌+◌, ◌≤◌, ◌≡◌, Option, some, Result, ok, err, List, arith, Option-cases, inl, inr,
}
use prometheus_ws_proxy_clie.Error.{BoxError}
use prometheus_ws_proxy_clie.Memory.{MemoryBudget, drop}
use prometheus_ws_proxy_clie.Memory.Response.{BudgetedResponse}
use prometheus_ws_proxy_clie.Delivery.Encode.{Encoder}
use prometheus_ws_proxy_clie.Session.{
  Meanwhile, Session, Progress, panicked, waiting, done, queue_ws_response,
}
use prometheus_ws_proxy_clie.Session.Busy.{
  InFlight, prepared, on_prepared, Actor, ends, ActorEvent, panics, waits, receive, close_input,
  completed, Acting, goes, actor_turn, on_receive, on_completed, fallen_back, take_at, leave,
}
use prometheus_ws_proxy_clie.Session.Covered.{IsCovered, Moves}
use prometheus_ws_proxy_clie.Session.Held.{IsPosting}
use prometheus_ws_proxy_clie.Session.Held.{held}
use prometheus_ws_proxy_clie.Session.Queues.{IsBounded, Leaves, queue_ws_response-IsBounded}
use prometheus_ws_proxy_clie.Session.World.{World, scraped_bytes, IsExactOption}

-- The queues and the posts are bounded, the connection holds a part of the usage, and each response
-- holds exactly its allocations.
pub record IsSafe (w : World) : Type 0 where
  pub bounded : IsBounded w.session
  pub posting : IsPosting w.actor w.session w.budget
  pub scraped : scraped_bytes w.scraped + held w.actor w.session ≤ w.budget.used
  pub exact : (o : Option BudgetedResponse) → w.scraped ≡ some o → IsExactOption o

-- The queues of the session that the actor leaves are bounded.
abbrev pub ActingBounded : Acting → Type 0
ActingBounded panics = Unit
ActingBounded waits = Unit
ActingBounded (goes _ s _) = IsBounded s
ActingBounded (ends s _) = IsBounded s

fallen_back-Bounded :
    (a : Actor) (p : Progress (Result BoxError (Unit {0})))
    → Leaves IsBounded p
    → ActingBounded (fallen_back a p)
unfolding fallen_back leave
fallen_back-Bounded a panicked l = tt
fallen_back-Bounded a waiting l = tt
fallen_back-Bounded a (done (ok _) s b) l = l
fallen_back-Bounded a (done (err _) s b) l = record {
  control_bound = l.control_bound;
  bulk_bound = l.bulk_bound;
  busy_bound = omega arith;
}

on_completed-Bounded :
    (encoder : Encoder) (limit place : ℕ) (result : Result BoxError (Unit {0})) (n : Meanwhile)
    (a : Actor) (s : Session) (b : MemoryBudget)
    → IsBounded s
    → ActingBounded (on_completed encoder limit place result n a s b)
unfolding on_completed
on_completed-Bounded encoder limit place result n a s b k =
    elim (Option-cases (take_at place a.posts)) [
      | inl e ↦ rw (e, on_completed) k
      | inr ((r, rest), e) ↦ rw (e, on_completed) (settle r rest result)
    ]
  where
    settle :
        (p : InFlight) (rest : List InFlight) (result' : Result BoxError (Unit {0}))
        → ActingBounded (elim result' [
          | ok _ ↦ goes (record a { posts = rest }) s (drop p.response.retained (drop p.form b))
          | err _ ↦
              fallen_back
                (record a { posts = rest })
                (queue_ws_response encoder limit n p.response s (drop p.form b))
        ])
    settle p rest (ok _) = k
    settle p rest (err _) =
        fallen_back-Bounded (record a { posts = rest }) _
          (queue_ws_response-IsBounded encoder limit n p.response s (drop p.form b) k)

on_prepared-Bounded :
    (place n : ℕ) (a : Actor) (s : Session) (b : MemoryBudget)
    → IsBounded s
    → ActingBounded (on_prepared place n a s b)
unfolding on_prepared
on_prepared-Bounded place n a s b k = elim (Option-cases (take_at place a.posts)) [
  | inl e ↦ rw (e, on_prepared) k
  | inr ((p, rest), e) ↦ rw (e, on_prepared) k
]

on_receive-Bounded :
    (a : Actor) (s : Session) (b : MemoryBudget) → IsBounded s → ActingBounded (on_receive a s b)
unfolding on_receive
on_receive-Bounded a s b k = ground (arith, k)

pub actor_turn-Bounded :
    (encoder : Encoder) (limit : ℕ) (event : ActorEvent) (a : Actor) (s : Session)
    (b : MemoryBudget)
    → IsBounded s
    → ActingBounded (actor_turn encoder limit event a s b)
unfolding actor_turn
actor_turn-Bounded encoder limit receive a s b k = on_receive-Bounded a s b k
actor_turn-Bounded encoder limit close_input a s b k = k
actor_turn-Bounded encoder limit (prepared place n) a s b k = on_prepared-Bounded place n a s b k
actor_turn-Bounded encoder limit (completed place result n) a s b k =
    on_completed-Bounded encoder limit place result n a s b k

-- What the invariant says of the session alone.
pub IsSafe-IsCovered : {w : World} → IsSafe w → IsCovered w.session w.budget
IsSafe-IsCovered k = record {
  holds = (k.posting.holds.0, omega (arith, k.posting.holds.1));
  exact = k.posting.waiting;
}

-- A turn of the session keeps the rest.
pub IsSafe-Moves :
    {w : World} (n : ℕ) (o : Option (Option BudgetedResponse)) (s : Session) (b : MemoryBudget)
    → IsSafe w
    → scraped_bytes w.scraped ≡ n + scraped_bytes o
    → ((p : Option BudgetedResponse) → o ≡ some p → IsExactOption p)
    → IsBounded s
    → Moves n w.session w.budget s b
    → IsSafe (record w { session = s; scraped = o; budget = b })
IsSafe-Moves {w} n o s b k bytes x bound (covered, moved) = record {
  bounded = bound;
  posting = record {
    few = k.posting.few;
    holds = (covered.holds.0, omega (arith, k.scraped, moved, bytes));
    waiting = covered.exact;
    posting = k.posting.posting;
  };
  scraped = omega (arith, k.scraped, moved, bytes);
  exact = x;
}
