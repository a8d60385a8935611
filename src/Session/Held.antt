-- ===== src/Session/Held.antt =====
-- src/worker.rs: the bytes that the actor and the queues of a session hold together.
use prometheus_ws_proxy_clie.Base.{
  ℕ, zero, suc, ◌+◌, ◌≤◌, ◌≡◌, refl, subst, Option, none, some, List, [], ◌∷◌, length, arith, All,
  total, Option-cases, inl, inr,
}
use prometheus_ws_proxy_clie.Memory.{MemoryBudget, drop}
use prometheus_ws_proxy_clie.Memory.Acquire.{Shifts, IsSound, Holds, drop-released, drop-Shifts}
use prometheus_ws_proxy_clie.Memory.Response.{BudgetedResponse}
use prometheus_ws_proxy_clie.Session.{Session}
use prometheus_ws_proxy_clie.Session.Accounts.{holdings, busy_bytes}
use prometheus_ws_proxy_clie.Session.Covered.{IsCovered, IsExact}
use prometheus_ws_proxy_clie.Session.Busy.{
  busy_response_concurrency, InFlight, drop_posts, Actor, Acting, panics, waits, goes, ends,
  take_at, drop_responses, leave,
}

-- The bytes of the posts in flight, and those with the queues of the session.
abbrev pub flight_bytes : List InFlight → ℕ
flight_bytes = total λ p. p.response.retained.bytes + p.form.bytes

abbrev pub held : Actor → Session → ℕ
held a s = holdings s + flight_bytes a.posts

abbrev pub IsExactPost : InFlight → Type 0
IsExactPost p = IsExact p.response

-- At most four posts are in flight; they and the queues hold a part of the usage, and each response
-- holds exactly its allocations.
pub record IsPosting (a : Actor) (s : Session) (b : MemoryBudget) : Type 0 where
  pub few : length a.posts ≤ busy_response_concurrency
  pub holds : Holds (held a s) b
  pub waiting : All IsExact s.busy_responses
  pub posting : All IsExactPost a.posts

-- From a usage of which `before` bytes were held: it has changed by exactly what the posts and the
-- queues hold more.
abbrev pub Conserves : ℕ → MemoryBudget → Acting → Type 0
Conserves before b panics = ⊥
Conserves before b waits = Unit
Conserves before b (goes a s b') = IsPosting a s b' × Shifts before (held a s) b b'
Conserves before b (ends s b') = IsCovered s b' × Shifts before (holdings s) b b'

pub Conserves-moved :
    (acting : Acting) (m n : ℕ) (b c : MemoryBudget)
    → Shifts n m c b
    → Conserves m b acting
    → Conserves n c acting
Conserves-moved panics m n b c e k = k
Conserves-moved waits m n b c e k = tt
Conserves-moved (goes a s b') m n b c e (k, moved) = (k, omega (arith, moved, e))
Conserves-moved (ends s b') m n b c e (k, moved) = (k, omega (arith, moved, e))

pub drop_responses-released :
    (rs : List BudgetedResponse) (b : MemoryBudget)
    → Holds (busy_bytes rs) b
    → IsSound (drop_responses rs b) × Shifts (busy_bytes rs) 0 b (drop_responses rs b)
unfolding drop_responses
drop_responses-released [] b h = (h.0, ground arith)
drop_responses-released (r ∷ rs) b h =
    let freed = drop-released r.retained b (ground arith) in
    let (sound, all) = drop_responses-released rs (drop r.retained b) (ground (arith, freed)) in
    (sound, ground (arith, freed))

pub drop_posts-released :
    (posts : List InFlight) (b : MemoryBudget)
    → Holds (flight_bytes posts) b
    → IsSound (drop_posts posts b) × Shifts (flight_bytes posts) 0 b (drop_posts posts b)
unfolding drop_posts
drop_posts-released [] b h = (h.0, ground arith)
drop_posts-released (p ∷ posts) b h =
    let (sound, form) = drop-Shifts p.form b (h.0, omega (arith, h.1)) in
    let (sound', response) =
      drop-Shifts p.response.retained (drop p.form b) (sound, omega (arith, h.1, form)) in
    let (sound'', all) =
      drop_posts-released posts (drop p.response.retained (drop p.form b))
        (sound', omega (arith, h.1, form, response)) in
    (sound'', omega (arith, form, response, all))

pub leave-Conserves :
    (a : Actor) (s : Session) (b : MemoryBudget)
    → IsPosting a s b
    → Conserves (held a s) b (leave a s b)
unfolding leave
leave-Conserves a s b k =
    let (sound, posts) = drop_posts-released a.posts b (k.holds.0, omega (arith, k.holds.1)) in
    let (sound', queue) =
      drop_responses-released s.busy_responses (drop_posts a.posts b)
        (sound, omega (arith, k.holds.1, posts)) in
    (
      record { holds = (sound', omega (arith, k.holds.1, posts, queue)); exact = tt },
      omega (arith, posts, queue),
    )

-- What is at a place holds its part of the bytes, and keeps a predicate; the rest is one shorter.
abbrev pub Taken : List InFlight → Option (InFlight × List InFlight) → Type 0
Taken posts none = Unit
Taken posts (some (p, rest)) =
    IsExactPost p
    × All IsExactPost rest
    × (flight_bytes posts ≡ p.response.retained.bytes + p.form.bytes + flight_bytes rest)
    × (length posts ≡ suc (length rest))

pub take_at-Taken :
    (n : ℕ) (posts : List InFlight) → All IsExactPost posts → Taken posts (take_at n posts)
unfolding take_at
take_at-Taken zero [] x = tt
take_at-Taken (suc n) [] x = tt
take_at-Taken zero (r ∷ posts) x = (x.0, x.1, omega arith, refl)
take_at-Taken (suc n) (r ∷ posts) x = elim (Option-cases (take_at n posts)) [
  | inl e ↦ rw (e, take_at) tt
  | inr ((y, rest), e) ↦
      let (exact, all, bytes, count) = subst (Taken posts) e (take_at-Taken n posts x.1) in
      rw (e, take_at) (exact, (x.0, all), omega (arith, bytes), omega (arith, count))
]
