-- ===== src/Session/Scrape.antt =====
-- src/worker.rs: the task that a request spawns: the call of the resource and, for wire v3, the post of
-- its answer. What it sends to the session is the response to queue for the WebSocket, or none.
use prometheus_ws_proxy_clie.Base.{
  ◌-◌, ◌≢◌, ◌⊎◌, min, ℕ, ◌+◌, ◌<◌, ◌≤◌, ◌≡◌, refl, sym, subst, Option, none, some, Result, ok, err,
  List, Bytes, OwnedString, IsAllocated, len, arith, ◌==◌, if◌then◌else◌, Bool-cases, inl, inr,
}
use prometheus_ws_proxy_clie.Error.{BoxError}
use prometheus_ws_proxy_clie.Memory.{MemoryBudget, max_body_size}
use prometheus_ws_proxy_clie.Memory.Acquire.{IsSound}
use prometheus_ws_proxy_clie.Memory.Response.{BudgetedResponse}
use prometheus_ws_proxy_clie.Memory.Backed.{IsBacked}
use prometheus_ws_proxy_clie.Resource.{Others, Exporter, Runtime, call_resource, find_resource}
use prometheus_ws_proxy_clie.Resource.Grown.{IsRuntime, Respects}
use prometheus_ws_proxy_clie.Resource.Call.{
  IsSpacious, Answers, ClientRespects, call_resource-IsAnswer,
}
use prometheus_ws_proxy_clie.Delivery.Post.{
  WorkerContext, PostLib, FormRequest, post_response, deliver_by_post,
}
use prometheus_ws_proxy_clie.Delivery.Delivered.{Posted, Returned, handed, deliver_by_post-Returned}

module _ {Url : Type 0} (rt : Runtime) (client : Bytes → Others × Result BoxError Exporter)
    (lib : PostLib Url) where
  unfoldable pub scrape :
      WorkerContext Url
      → OwnedString
      → Bytes
      → MemoryBudget
      → Option (Option BudgetedResponse × MemoryBudget)
  scrape context uid resource b =
      elim (call_resource rt client context.config.resources uid resource b) [
        | none ↦ none
        | some (none, b') ↦ some (none, b')
        | some (some response, b') ↦
            if context.protocol == 3
            then some (deliver_by_post lib context response b')
            else some (some response, b')
      ]

module _ {Url : Type 0} (rt : Runtime) (laws : IsRuntime rt) (Q : ℕ → Type 0)
    (client : Bytes → Others × Result BoxError Exporter) (lib : PostLib Url)
    (allocates : (n : ℕ) (pairs : List (Bytes × Bytes)) → IsAllocated (lib.serialize n pairs))
    (context : WorkerContext Url) (uid : OwnedString) (resource : Bytes) where
  -- A scrape gives a response to the uid, which is backed and within the size limit, or none, while `Q`
  -- holds of the others' bytes; or the call of the resource has panicked.
  abbrev pub Scraped : Option (Option BudgetedResponse × MemoryBudget) → Type 0
  Scraped none = (find_resource context.config.resources resource ≡ none) × IsSpacious rt
  Scraped (some (none, b)) = IsSound b × Q b.used
  Scraped (some (some r, b)) =
      IsBacked r b
      × Q (b.used - r.retained.bytes)
      × (r.response.uid ≡ uid)
      × (len r.response.body ≤ max_body_size)

  -- For wire v3 an answer of the call is posted, and what the post returns is the result.
  abbrev pub Posts :
      Option (Option BudgetedResponse × MemoryBudget)
      → Option (Option BudgetedResponse × MemoryBudget)
      → Type 0
  Posts none out = out ≡ none
  Posts (some (none, b)) out = out ≡ some (none, b)
  Posts (some (some r, b)) out =
      (kept : Option BudgetedResponse) × (b' : MemoryBudget) × (out ≡ some (kept, b'))
      × Returned lib allocates r (post_response lib context r b).0 kept

  -- For the others the answer of the call is the result.
  abbrev pub Routes :
      Option (Option BudgetedResponse × MemoryBudget)
      → Option (Option BudgetedResponse × MemoryBudget)
      → Type 0
  Routes called out =
      ((context.protocol ≡ 3) × Posts called out) ⊎ ((context.protocol ≢ 3) × (out ≡ called))

  -- The call gives no answer, where the uid does not fit, or one that the exporter allows.
  abbrev pub Called : MemoryBudget → Option (Option BudgetedResponse × MemoryBudget) → Type 0
  Called b called =
      ((b.limit < b.used + uid.capacity) × (called ≡ some (none, b)))
      ⊎ ((b.used + uid.capacity ≤ b.limit)
          × Answers rt laws Q client context.config.resources uid resource b called)

  Returned-Scraped :
      (r : BudgetedResponse) (b : MemoryBudget) (result : Result BoxError (Unit {0}))
      (kept : Option BudgetedResponse)
      → r.response.uid ≡ uid
      → IsBacked r b
      → Q (b.used - r.retained.bytes)
      → len r.response.body ≤ max_body_size
      → Returned lib allocates r result kept
      → Scraped (some (kept, handed lib allocates r kept b))
  Returned-Scraped r b (ok _) none u k q small e = (ground arith, q)
  Returned-Scraped r b (err _) none u k q small e = (ground arith, q)
  Returned-Scraped r b (ok _) (some r') u k q small e = cc
  Returned-Scraped r b (err _) (some r') u k q small (inl e) = cc
  Returned-Scraped r b (err _) (some r') u k q small (inr e) =
      let same : r ≡ r' = ground (arith, e) in
      subst (λ p. Scraped (some (some p, b))) same (k, q, u, small)

  Posted-respects :
      (r : BudgetedResponse) (b b' : MemoryBudget)
      → ((request : FormRequest Url) → Respects Q (lib.send request).0)
      → IsBacked r b
      → Q (b.used - r.retained.bytes)
      → Posted lib allocates r b b'
      → Q (b'.used - r.retained.bytes)
  Posted-respects r b b' keeps k q (backed, inl same) = subst Q (omega (arith, same)) q
  Posted-respects r b b' keeps k q (backed, inr (request, n, room, used)) =
      let share : ℕ = min ((lib.send request).0 (b.used - r.retained.bytes)) n in
      let same : share ≡ b'.used - r.retained.bytes = omega (arith, used) in
      subst Q same (keeps request (b.used - r.retained.bytes) n room q)

  -- For the answer of the call, what the scrape makes of it.
  posted-Scraped :
      (r : BudgetedResponse) (b : MemoryBudget)
      → context.protocol ≡ 3
      → ((request : FormRequest Url) → Respects Q (lib.send request).0)
      → Scraped (some (some r, b))
      → Scraped (some (deliver_by_post lib context r b))
        × Routes (some (some r, b)) (some (deliver_by_post lib context r b))
  posted-Scraped r b v3 keeps (backed, q, same, small) =
      let (posted, returned, left) = deliver_by_post-Returned lib allocates context r b backed in
      let (kept, b') = deliver_by_post lib context r b in
      let later : MemoryBudget = (post_response lib context r b).1 in
      let respected = Posted-respects r b later keeps backed q posted in
      (
        subst (λ c. Scraped (some (kept, c))) (sym left)
            (Returned-Scraped r later (post_response lib context r b).0 kept same posted.0 respected
              small returned),
        inl (v3, (kept, b', refl, returned)),
      )

  routed :
      (called out : Option (Option BudgetedResponse × MemoryBudget))
      → out ≡ called
      → Posts called out
      → Routes called out
  routed called out same posts = elim (Bool-cases (context.protocol == 3)) [
    | inl v3 ↦ inl (ground (arith, v3), posts)
    | inr other ↦ inr ((λ e. ground (arith, other, e)), same)
  ]

  -- The outcomes of the call, and of the scrape.
  called-Scraped :
      (called : Option (Option BudgetedResponse × MemoryBudget)) (b : MemoryBudget)
      → ((request : FormRequest Url) → Respects Q (lib.send request).0)
      → call_resource rt client context.config.resources uid resource b ≡ called
      → Scraped called
      → Scraped (scrape rt client lib context uid resource b)
        × Routes called (scrape rt client lib context uid resource b)
  unfolding scrape
  called-Scraped none b keeps e s = rw (e, scrape) (s, routed none none refl refl)
  called-Scraped (some (none, b')) b keeps e s =
      rw (e, scrape) (s, routed (some (none, b')) (some (none, b')) refl refl)
  called-Scraped (some (some r, b')) b keeps e s = elim (Bool-cases (context.protocol == 3)) [
    | inl v3 ↦ rw (e, scrape, v3) (posted-Scraped r b' (ground (arith, v3)) keeps s)
    | inr other ↦ rw (e, scrape, other) (s, inr ((λ v3. ground (arith, other, v3)), refl))
  ]

  Answers-Scraped :
      (b : MemoryBudget) (called : Option (Option BudgetedResponse × MemoryBudget))
      → Answers rt laws Q client context.config.resources uid resource b called
      → Scraped called
  Answers-Scraped b none a = a
  Answers-Scraped b (some (none, b')) a = absurd a
  Answers-Scraped b (some (some r, b')) a = (a.0, a.1, a.2, a.3)

  -- Let what the others do, while the client and the server are waited for, keep some predicate of
  -- the bytes that they hold. A scrape under a sound budget ends with the budget sound, and with
  -- nothing to send over the WebSocket, or with a response to the uid of the request that is backed
  -- by exactly its allocations and has a body within the size limit; and the rest of the usage is
  -- the others' bytes, of which the predicate still holds. It panics only for a name that is not
  -- configured, and only if the allocator gives the copy of the 404's text spare capacity. For wire
  -- v3 the answer of the call is posted, and sent over the WebSocket exactly if the post returns
  -- it; for the other versions it is sent over the WebSocket as it is. The call gives no answer
  -- exactly if the uid does not fit in the budget, and then changes nothing; else it answers 404
  -- or, for want of room, 500 to a name that is not configured, and the exporter's status and whole
  -- body, or 500 if there is no response that is ready, to one that is.
  pub scrape-Scraped :
      (b : MemoryBudget)
      → ClientRespects rt laws Q client context.config.resources uid resource
      → ((request : FormRequest Url) → Respects Q (lib.send request).0)
      → Q b.used
      → IsSound b
      → Scraped (scrape rt client lib context uid resource b)
        × Routes
            (call_resource rt client context.config.resources uid resource b)
            (scrape rt client lib context uid resource b)
        × Called b (call_resource rt client context.config.resources uid resource b)
  scrape-Scraped b fetches sends q s =
      let called = call_resource rt client context.config.resources uid resource b in
      elim (call_resource-IsAnswer rt laws Q client context.config.resources uid resource b fetches
        q s) [
          | inl (full, e) ↦
              let (scraped, routes) = called-Scraped called b sends refl (rw e (s, q)) in
              (scraped, routes, inl (full, e))
          | inr (room, a) ↦
              let (scraped, routes) =
                called-Scraped called b sends refl (Answers-Scraped b called a) in
              (scraped, routes, inr (room, a))
        ]
