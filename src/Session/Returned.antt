-- ===== src/Session/Returned.antt =====
-- src/worker.rs: the actor that posts busy answers returns once its posts have completed.
use prometheus_ws_proxy_clie.Base.{
  ℕ, zero, suc, ◌-◌, ◌<◌, ◌≡◌, refl, sym, subst, true, false, some, Result, ok, err, List, [], ◌∷◌,
  OwnedString, IsAllocated, length, arith, length-append, Option-cases, Bool-cases, inl, inr,
}
use prometheus_ws_proxy_clie.Error.{BoxError}
use prometheus_ws_proxy_clie.Memory.{MemoryBudget, try_grow}
use prometheus_ws_proxy_clie.Memory.Acquire.{Shifts}
use prometheus_ws_proxy_clie.Memory.Response.{BudgetedResponse}
use prometheus_ws_proxy_clie.Delivery.Encode.{Encoder}
use prometheus_ws_proxy_clie.Session.{Meanwhile, Session, Progress, panicked, waiting, done}
use prometheus_ws_proxy_clie.Session.Accounts.{holdings}
use prometheus_ws_proxy_clie.Session.Covered.{IsCovered}
use prometheus_ws_proxy_clie.Session.Busy.{
  InFlight, prepared, on_prepared, Actor, ActorEvent, receive, close_input, completed, Acting,
  panics, waits, goes, ends, take_at, is_empty, leave, fallen_back, is_over, on_completed,
  actor_turn, run_busy_response_actor,
}
use prometheus_ws_proxy_clie.Session.Posted.{actor_turn-Conserves}
use prometheus_ws_proxy_clie.Session.Held.{IsPosting}
use prometheus_ws_proxy_clie.Session.Held.{held, Conserves, leave-Conserves}

-- As many posts complete as are in flight, in any order, with any results; before it does, each may
-- reserve bytes for its form.
abbrev pub AllComplete : List ActorEvent → ℕ → Type 0
AllComplete [] n = n ≡ 0
AllComplete (prepared _ _ ∷ events) n = AllComplete events n
AllComplete (completed place _ _ ∷ events) n = (place < n) × AllComplete events (n - 1)
AllComplete (_ ∷ _) n = ⊥

-- The actor has returned, or waits for room in the bulk queue, and `before` bytes are accounted for.
abbrev pub Returns : ℕ → MemoryBudget → Acting → Type 0
Returns before b panics = ⊥
Returns before b waits = Unit
Returns before b (goes _ _ _) = ⊥
Returns before b (ends s b') = IsCovered s b' × Shifts before (holdings s) b b'

-- If the actor goes on, its input is closed and it has `n` posts in flight.
abbrev GoesWith : ℕ → Acting → Type 0
GoesWith n panics = Unit
GoesWith n waits = Unit
GoesWith n (goes a _ _) = (length a.posts ≡ n) × (a.input_open ≡ false)
GoesWith n (ends _ _) = Unit

Returns-moved :
    (acting : Acting) (m n : ℕ) (b c : MemoryBudget)
    → Shifts n m c b
    → Returns m b acting
    → Returns n c acting
Returns-moved panics m n b c e k = k
Returns-moved waits m n b c e k = tt
Returns-moved (goes _ _ _) m n b c e k = k
Returns-moved (ends s b') m n b c e (k, moved) = (k, omega (arith, moved, e))

leave-Returns :
    (a : Actor) (s : Session) (b : MemoryBudget)
    → IsPosting a s b
    → Returns (held a s) b (leave a s b)
unfolding leave
leave-Returns a s b k = leave-Conserves a s b k

take_at-some :
    (n : ℕ) (posts : List InFlight)
    → n < length posts
    → (r : InFlight) × (rest : List InFlight) × (take_at n posts ≡ some (r, rest))
      × (length posts ≡ suc (length rest))
unfolding take_at
take_at-some n [] h = absurd (omega arith)
take_at-some zero (r ∷ posts) h = (r, posts, refl, refl)
take_at-some (suc n) (r ∷ posts) h =
    let (y, rest, e, count) = take_at-some n posts (omega arith) in
    (y, r ∷ rest, rw (e, take_at) refl, omega (arith, count))

take_at-length :
    (n : ℕ) (posts : List InFlight) (p : InFlight) (rest : List InFlight)
    → take_at n posts ≡ some (p, rest)
    → length posts ≡ suc (length rest)
unfolding take_at
take_at-length n [] p rest e = cc
take_at-length zero (q ∷ posts) p rest e = ground (arith, e)
take_at-length (suc n) (q ∷ posts) p rest e = elim (Option-cases (take_at n posts)) [
  | inl missing ↦ cc (rw missing at e)
  | inr ((y, ys), found) ↦ ground (arith, e, found, take_at-length n posts y ys found)
]

fallen_back-GoesWith :
    (a : Actor) (p : Progress (Result BoxError (Unit {0})))
    → a.input_open ≡ false
    → GoesWith (length a.posts) (fallen_back a p)
unfolding fallen_back leave
fallen_back-GoesWith a panicked e = tt
fallen_back-GoesWith a waiting e = tt
fallen_back-GoesWith a (done (ok _) s b) e = (refl, e)
fallen_back-GoesWith a (done (err _) s b) e = tt

is_over-empty : (a : Actor) → a.input_open ≡ false → length a.posts ≡ 0 → is_over a ≡ true
is_over-empty a closed e = ground (arith, empty a.posts e)
  where
    empty : (posts : List InFlight) → length posts ≡ 0 → is_empty posts ≡ true
    empty [] e' = refl
    empty (_ ∷ _) e' = absurd (omega arith)

module _ (encoder : Encoder)
    (allocates : (r : BudgetedResponse) (s : OwnedString)
      → encoder r.response ≡ some s
      → IsAllocated s)
    (limit : ℕ) where
  on_prepared-GoesWith :
      (place m : ℕ) (a : Actor) (s : Session) (b : MemoryBudget)
      → a.input_open ≡ false
      → GoesWith (length a.posts) (on_prepared place m a s b)
  unfolding on_prepared
  on_prepared-GoesWith place m a s b closed = elim (Option-cases (take_at place a.posts)) [
    | inl e ↦ rw (e, on_prepared) (refl, closed)
    | inr ((p, rest), e) ↦
        let count = take_at-length place a.posts p rest e in
        let back : InFlight = record p { form = (try_grow p.form m b).1 } in
        rw (e, on_prepared) (omega (arith, count, length-append rest (back ∷ [])), closed)
  ]

  on_completed-GoesWith :
      (place : ℕ) (result : Result BoxError (Unit {0})) (n : Meanwhile) (a : Actor) (s : Session)
      (b : MemoryBudget)
      → a.input_open ≡ false
      → place < length a.posts
      → GoesWith (length a.posts - 1) (on_completed encoder limit place result n a s b)
  unfolding on_completed
  on_completed-GoesWith place (ok _) n a s b closed h =
      let (r, rest, e, count) = take_at-some place a.posts h in
      rw (e, on_completed) (omega (arith, count), closed)
  on_completed-GoesWith place (err _) n a s b closed h =
      let (r, rest, e, count) = take_at-some place a.posts h in
      let left : length a.posts - 1 ≡ length rest = omega (arith, count) in
      rw (e, on_completed, left) (fallen_back-GoesWith (record a { posts = rest }) _ closed)

  go_on-Returns :
      (before n : ℕ) (b : MemoryBudget) (acting : Acting)
      (after : Actor → Session → MemoryBudget → Acting)
      → Conserves before b acting
      → GoesWith n acting
      → ((a : Actor) (s : Session) (b' : MemoryBudget)
          → IsPosting a s b'
          → length a.posts ≡ n
          → a.input_open ≡ false
          → Returns (held a s) b' (after a s b'))
      → Returns before b (elim acting [
        | goes a' s' b' ↦ after a' s' b'
        | ends s' b' ↦ ends s' b'
        | panics ↦ panics
        | waits ↦ waits
      ])
  go_on-Returns before n b panics after l g k = l
  go_on-Returns before n b waits after l g k = tt
  go_on-Returns before n b (goes a s b') after l g k =
      Returns-moved (after a s b') (held a s) before b' b (omega (arith, l.1))
        (k a s b' l.0 g.0 g.1)
  go_on-Returns before n b (ends s b') after l g k = l

  -- Once the input is closed and as many posts have completed as were in flight, in any order, with
  -- any results, and with any reservations for their forms before, the actor has returned, and has
  -- given back or queued every byte that it and the forms held; unless a fallback waits for room in
  -- the bulk queue.
  pub run_busy_response_actor-Returns :
      (events : List ActorEvent) (a : Actor) (s : Session) (b : MemoryBudget)
      → IsPosting a s b
      → a.input_open ≡ false
      → AllComplete events (length a.posts)
      → Returns (held a s) b (run_busy_response_actor encoder limit events a s b)
  unfolding run_busy_response_actor actor_turn
  run_busy_response_actor-Returns [] a s b k closed all =
      rw (is_over-empty a closed all, run_busy_response_actor) (leave-Returns a s b k)
  run_busy_response_actor-Returns (completed place result n ∷ events) a s b k closed (h, all) =
      elim (Bool-cases (is_over a)) [
        | inl over ↦ rw (over, run_busy_response_actor) (leave-Returns a s b k)
        | inr busy ↦
            rw (busy, run_busy_response_actor)
              (go_on-Returns (held a s) (length a.posts - 1) b _
                (run_busy_response_actor encoder limit events)
                (actor_turn-Conserves encoder allocates limit (completed place result n) a s b k)
                (on_completed-GoesWith place result n a s b closed h)
                λ a' s' b' k' count closed'.
                  run_busy_response_actor-Returns events a' s' b' k' closed'
                    (subst (AllComplete events) (sym count) all))
      ]
  run_busy_response_actor-Returns (prepared place n ∷ events) a s b k closed all =
      elim (Bool-cases (is_over a)) [
        | inl over ↦ rw (over, run_busy_response_actor) (leave-Returns a s b k)
        | inr busy ↦
            rw (busy, run_busy_response_actor)
              (go_on-Returns (held a s) (length a.posts) b _
                (run_busy_response_actor encoder limit events)
                (actor_turn-Conserves encoder allocates limit (prepared place n) a s b k)
                (on_prepared-GoesWith place n a s b closed)
                λ a' s' b' k' count closed'.
                  run_busy_response_actor-Returns events a' s' b' k' closed'
                    (subst (AllComplete events) (sym count) all))
      ]
  run_busy_response_actor-Returns (receive ∷ events) a s b k closed all = absurd all
  run_busy_response_actor-Returns (close_input ∷ events) a s b k closed all = absurd all
