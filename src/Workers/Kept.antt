-- ===== src/Workers/Kept.antt =====
-- src/worker.rs: what one act of a worker keeps of its connection and of the budget.
use prometheus_ws_proxy_clie.Base.{
  Result, refl, List, OwnedString, IsAllocated, ap, inl, inr, ℕ, ◌+◌, ◌-◌, ◌≤◌, ◌≡◌, subst, Option,
  none, some, [], ◌∷◌, Bytes, length, arith, All,
}
use prometheus_ws_proxy_clie.Error.{BoxError}
use prometheus_ws_proxy_clie.Protocol.{JsonWriter, IncomingMessage}
use prometheus_ws_proxy_clie.Memory.{MemoryBudget, drop}
use prometheus_ws_proxy_clie.Memory.Acquire.{IsSound, Holds, Shifts, try_acquire_cases, drop-Shifts}
use prometheus_ws_proxy_clie.Memory.Response.{BudgetedResponse}
use prometheus_ws_proxy_clie.Delivery.Post.{WorkerContext, PostLib}
use prometheus_ws_proxy_clie.Session.{Message, text}
use prometheus_ws_proxy_clie.Session.Busy.{busy_response_concurrency, drop_posts}
use prometheus_ws_proxy_clie.Session.Covered.{IsExact}
use prometheus_ws_proxy_clie.Session.Conserved.{brought, TurnCovers}
use prometheus_ws_proxy_clie.Session.Held.{drop_posts-released, IsExactPost}
use prometheus_ws_proxy_clie.Session.Queues.{IsBounded}
use prometheus_ws_proxy_clie.Session.Connect.{new_session, Network, connection}
use prometheus_ws_proxy_clie.Session.Concluded.{open_session-ok, drop_session-released}
use prometheus_ws_proxy_clie.Session.World.{scraped_bytes, response_bytes, IsExactOption}
use prometheus_ws_proxy_clie.Session.Safe.{IsSafe}
use prometheus_ws_proxy_clie.Session.Owned.{Own-Keeps, Offered-Covers}
use prometheus_ws_proxy_clie.Resource.{Others, Exporter, Runtime}
use prometheus_ws_proxy_clie.Resource.Grown.{IsRuntime}
use prometheus_ws_proxy_clie.Session.Scrape.{Scraped, scrape-Scraped}
use prometheus_ws_proxy_clie.Workers.{
  just_opened, Live, under, live_bytes, reservation, drop_scraped, drop_live, Act, opens, own,
  acquires, gives_back, reports, closes,
}

-- The queues and the posts of a connection are bounded, and each of its responses holds exactly its
-- allocations.
pub record IsKept (l : Live) : Type 0 where
  pub bounded : IsBounded l.session
  pub few : length l.actor.posts ≤ busy_response_concurrency
  pub waiting : All IsExact l.session.busy_responses
  pub posting : All IsExactPost l.actor.posts
  pub exact : (o : Option BudgetedResponse) → l.scraped ≡ some o → IsExactOption o

abbrev pub Kept : Option Live → Type 0
Kept none = Unit
Kept (some l) = IsKept l

IsKept-IsSafe :
    (l : Live) (b : MemoryBudget) → IsKept l → Holds (live_bytes (some l)) b → IsSafe (under l b)
IsKept-IsSafe l b k h = record {
  bounded = k.bounded;
  posting = record {
    few = k.few;
    holds = (h.0, omega (arith, h.1));
    waiting = k.waiting;
    posting = k.posting;
  };
  scraped = omega (arith, h.1);
  exact = k.exact;
}

drop_scraped-released :
    (o : Option (Option BudgetedResponse)) (b : MemoryBudget)
    → Holds (scraped_bytes o) b
    → IsSound (drop_scraped o b) × Shifts (scraped_bytes o) 0 b (drop_scraped o b)
unfolding drop_scraped
drop_scraped-released none b h = (h.0, omega arith)
drop_scraped-released (some none) b h = (h.0, omega arith)
drop_scraped-released (some (some r)) b h = drop-Shifts r.retained b h

-- A connection that ends gives back exactly what it held.
drop_live-released :
    (l : Live) (b : MemoryBudget)
    → Holds (live_bytes (some l)) b
    → IsSound (drop_live l b) × Shifts (live_bytes (some l)) 0 b (drop_live l b)
unfolding drop_live
drop_live-released l b h =
    let (sound, response) = drop_scraped-released l.scraped b (h.0, omega (arith, h.1)) in
    let (sound₁, work) =
      drop-Shifts (reservation l.working) (drop_scraped l.scraped b)
        (sound, omega (arith, h.1, response)) in
    let left : MemoryBudget = drop (reservation l.working) (drop_scraped l.scraped b) in
    let (sound₂, posts) =
      drop_posts-released l.actor.posts left (sound₁, omega (arith, h.1, response, work)) in
    let (sound₃, queues) =
      drop_session-released l.session (drop_posts l.actor.posts left)
        (sound₂, omega (arith, h.1, response, work, posts)) in
    (sound₃, omega (arith, response, work, posts, queues))

-- The bytes of the task matter to the usage alone.
IsKept-working : {l : Live} (n : ℕ) → IsKept l → IsKept (record l { working = n })
IsKept-working n k = record {
  bounded = k.bounded;
  few = k.few;
  waiting = k.waiting;
  posting = k.posting;
  exact = k.exact;
}

registered-IsKept : (m : Message) → IsKept (just_opened (new_session (m ∷ [])))
registered-IsKept m = record {
  bounded = record {
    control_bound = omega arith;
    bulk_bound = omega arith;
    busy_bound = omega arith;
  };
  few = omega arith;
  waiting = tt;
  posting = tt;
  exact = λ o e. cc;
}

-- After an act: the connection is kept, and the usage changes by exactly what it holds more or less.
abbrev pub Sustains : Option Live → MemoryBudget → Option Live → MemoryBudget → Type 0
Sustains l b l' b' = Kept l' × IsSound b' × Shifts (live_bytes l) (live_bytes l') b b'

module _ {Url : Type 0} (rt : Runtime) (laws : IsRuntime rt) (lib : PostLib Url)
    (allocates : (n : ℕ) (pairs : List (Bytes × Bytes)) → IsAllocated (lib.serialize n pairs))
    (net : Network Url) (writer : JsonWriter) (from_str : Bytes → Option IncomingMessage)
    (grows : (n : ℕ) (bs : Bytes) → length bs ≤ writer.grown_capacity n bs)
    (context : WorkerContext Url) where
  -- What a scrape sends holds exactly its allocations, and these are the bytes that the task still has.
  scraped_bytes_lem :
      (Q : ℕ → Type 0) (client : Bytes → Others × Result BoxError Exporter) (lib' : PostLib Url)
      (allocates' : (n : ℕ) (pairs : List (Bytes × Bytes)) → IsAllocated (lib'.serialize n pairs))
      (uid : OwnedString) (resource : Bytes) (o : Option BudgetedResponse) (b : MemoryBudget)
      → Scraped rt laws Q client lib' allocates' context uid resource (some (o, b))
      → IsExactOption o × Q (b.used - response_bytes o) × (response_bytes o ≤ b.used)
  scraped_bytes_lem Q client lib' allocates' uid resource none b k =
      let same : b.used ≡ b.used - 0 = omega arith in (tt, subst Q same k.1, omega arith)
  scraped_bytes_lem Q client lib' allocates' uid resource (some r) b k =
      (k.0.exact, k.1, k.0.holds.1)

  pub Act-Sustains :
      {worker_name : Bytes} {b b' : MemoryBudget} {l l' : Option Live}
      → Act rt lib net writer from_str context worker_name b l l' b'
      → Kept l
      → Holds (live_bytes l) b
      → Sustains l b l' b'
  Act-Sustains {worker_name} {b} (opens s e) k h =
      let (_, _, j, _, fresh) = open_session-ok lib net writer from_str context worker_name s e in
      (rw fresh (registered-IsKept (text j)), h.0, rw fresh (omega arith))
  Act-Sustains {worker_name} {b} (own l v o) k h =
      let (safe, shifts) =
        Own-Keeps (connection lib net writer from_str context worker_name) grows o
          (IsKept-IsSafe l b k h) in
      (
        record {
          bounded = safe.bounded;
          few = safe.posting.few;
          waiting = safe.posting.waiting;
          posting = safe.posting.posting;
          exact = safe.exact;
        },
        safe.posting.holds.0,
        omega (arith, shifts),
      )
  Act-Sustains {worker_name} {b} (acquires l n b' busy free e) k h =
      elim (try_acquire_cases n b h.0) [
        | inl (fits, grant) ↦ (
          IsKept-working (l.working + n) k,
          ground (arith, fits, grant, e, h.0),
          ground (arith, grant, e),
        )
        | inr (full, refusal) ↦ cc
      ]
  Act-Sustains {worker_name} {b} (gives_back l n le) k h =
      let freed = drop-Shifts (reservation n) b (h.0, omega (arith, le, h.1)) in
      (IsKept-working (l.working - n) k, freed.0, omega (arith, freed.1, le))
  Act-Sustains {worker_name} {b}
        (reports l task client send before after o busy free sound waits chunks sends e bytes) k h =
      let lib' : PostLib Url = record lib { send = send } in
      let (scraped, _, _) =
        scrape-Scraped rt laws (λ n. n ≡ before.used) client lib' allocates context task.uid
          task.resource before (λ url. (waits url, chunks url)) sends refl sound in
      let (exact, others, fits) =
        scraped_bytes_lem (λ n. n ≡ before.used) client lib' allocates task.uid task.resource o
          after
          (subst
            (Scraped rt laws (λ n. n ≡ before.used) client lib' allocates context task.uid
              task.resource)
            e scraped) in
      (
        record {
          bounded = k.bounded;
          few = k.few;
          waiting = k.waiting;
          posting = k.posting;
          exact = λ p same. let same_one : o ≡ p = cc in subst IsExactOption same_one exact;
        },
        h.0,
        omega (arith, bytes, others, fits, ap scraped_bytes free),
      )
  Act-Sustains {worker_name} {b} (closes l event o result farewell s b' offer e) k h =
      let (covers, bytes, exact) =
        Offered-Covers (connection lib net writer from_str context worker_name) grows offer
          (IsKept-IsSafe l b k h) in
      let moves = subst (TurnCovers (brought event) l.session b) e covers in
      let left =
        drop_live-released (record l { session = s; scraped = o }) b'
          (moves.0.holds.0, omega (arith, bytes, moves.1, h)) in
      (tt, left.0, omega (arith, bytes, moves.1, left.1))
