-- ===== src/Resource/Call.antt =====
-- src/resource.rs: every branch of `call_resource`.
use prometheus_ws_proxy_clie.Base.{
  sym, ◌-◌, subst, All, ltb, ltb→lt, Bool-cases, ℕ, ◌+◌, ◌≤◌, ◌<◌, ◌≡◌, refl, true, Option, none,
  some, Result, ok, err, List, [], Bytes, OwnedString, len, length, arith, empty_string,
  Option-cases, inl, inr, ◌⊎◌,
}
use prometheus_ws_proxy_clie.Error.{BoxError}
use prometheus_ws_proxy_clie.Memory.{
  MemoryBudget, MemoryBudgetError, MemoryReservation, try_grow, max_body_size,
}
use prometheus_ws_proxy_clie.Memory.Response.{BudgetedResponse, from_reserved}
use prometheus_ws_proxy_clie.Memory.Acquire.{
  IsSound, Holds, taken, try_reserve_cases, try_grow_cases, shrink_to-released,
}
use prometheus_ws_proxy_clie.Memory.Backed.{IsBacked, from_reserved-backed, from_reserved_panics}
use prometheus_ws_proxy_clie.Resource.{
  Others, Exporter, Runtime, Growing, fetch_resource, answer_unknown, answer_fetched, find_resource,
  call_resource, answered, no_such_resource,
}
use prometheus_ws_proxy_clie.Resource.Fetch.{Fetched, fetch_resource-After}
use prometheus_ws_proxy_clie.Resource.Ready.{IsReady, Fails, Gets-Fails, fetch_resource-Gets}
use prometheus_ws_proxy_clie.Resource.Grown.{IsRuntime, Respects, Stays, body_of, After}

-- A panic-free result with a backed response to `uid` that satisfies `P`, while `Q` holds of the
-- bytes of the others.
abbrev pub Gives :
    (ℕ → Type 0)
    → OwnedString
    → (ℕ → Bytes → Type 0)
    → Option (BudgetedResponse × MemoryBudget)
    → Type 0
Gives Q uid P none = ⊥
Gives Q uid P (some (r, b)) =
    IsBacked r b
    × Q (b.used - r.retained.bytes)
    × (r.response.uid ≡ uid)
    × (len r.response.body ≤ max_body_size)
    × P r.response.status r.response.body.bytes

from_reserved-Gives :
    (Q : ℕ → Type 0) (P : ℕ → Bytes → Type 0) (uid : OwnedString) (status : ℕ) (body : OwnedString)
    (r : MemoryReservation) (b : MemoryBudget)
    → Holds r.bytes b
    → Q (b.used - r.bytes)
    → uid.capacity + body.capacity ≤ r.bytes
    → len body ≤ max_body_size
    → P status body.bytes
    → Gives Q uid P (from_reserved uid status body r b)
from_reserved-Gives Q P uid status body r b h q le small p =
    let n : ℕ = uid.capacity + body.capacity in
    let same : b.used - r.bytes ≡ b.used - (r.bytes - n) - n = omega (arith, h.1, le) in
    rw (from_reserved-backed uid status body r b h le)
      (record { exact = refl; holds = ground arith }, subst Q same q, refl, small, p)

-- The answer for a resource that is not configured: a 404 with its text, or, exactly if the budget
-- has no room for this, an empty 500.
abbrev pub IsUnknownAnswer : MemoryBudget → ℕ → Bytes → Type 0
IsUnknownAnswer b status body =
    ((status ≡ 404) × (body ≡ no_such_resource) × (b.used + length no_such_resource ≤ b.limit))
    ⊎ ((status ≡ 500) × (body ≡ []) × (b.limit < b.used + length no_such_resource))

-- There is no response that is ready.
abbrev pub Refused : Runtime → (ℕ → Type 0) → ℕ → ℕ → Result BoxError Exporter → Type 0
Refused rt Q base limit answer = (e : Exporter) → answer ≡ ok e → ¬ IsReady rt Q base limit e

-- The answer for a configured resource: the exporter's own status with its whole body; or a 500, only
-- where the exporter does not answer or its response is not ready.
abbrev pub IsFetchedAnswer :
    Runtime → (ℕ → Type 0) → ℕ → ℕ → Result BoxError Exporter → ℕ → Bytes → Type 0
IsFetchedAnswer rt Q base limit answer status body =
    ((exporter : Exporter) × (answer ≡ ok exporter)
      × (status ≡ exporter.status)
      × (body_of exporter.items ≡ some body)
      × (rt.is_utf8 body ≡ true))
    ⊎ ((status ≡ 500) × (body ≡ []) × Refused rt Q base limit answer)

-- The copy of the answer's text has spare capacity.
abbrev pub IsSpacious : Runtime → Type 0
IsSpacious rt = length no_such_resource < (rt.to_owned no_such_resource).capacity

module _ (rt : Runtime) (laws : IsRuntime rt) (Q : ℕ → Type 0) where
  answer_unknown-grew :
      (uid : OwnedString) (r : MemoryReservation) (b : MemoryBudget)
      → let r' : MemoryReservation = record { bytes = r.bytes + length no_such_resource } in
        let b' = taken (length no_such_resource) b in
        try_grow r (length no_such_resource) b ≡ (ok tt, r', b')
        → answer_unknown rt uid r b ≡ from_reserved uid 404 (rt.to_owned no_such_resource) r' b'
  unfolding answer_unknown
  answer_unknown-grew uid r b e = ground arith

  answer_unknown-full :
      (uid : OwnedString) (r : MemoryReservation) (b : MemoryBudget) (e : MemoryBudgetError)
      → try_grow r (length no_such_resource) b ≡ (err e, r, b)
      → answer_unknown rt uid r b ≡ from_reserved uid 500 empty_string r b
  unfolding answer_unknown
  answer_unknown-full uid r b e refused = ground arith

  -- A panic only if the copy of the text has spare capacity; else the answer.
  abbrev GivesUnlessSpacious :
      OwnedString → (ℕ → Bytes → Type 0) → Option (BudgetedResponse × MemoryBudget) → Type 0
  GivesUnlessSpacious uid P m = ((m ≡ none) × IsSpacious rt) ⊎ Gives Q uid P m

  answer_unknown-Gives :
      (uid : OwnedString) (r : MemoryReservation) (b : MemoryBudget)
      → r.bytes ≡ uid.capacity
      → Holds r.bytes b
      → Q (b.used - r.bytes)
      → GivesUnlessSpacious uid (IsUnknownAnswer b) (answer_unknown rt uid r b)
  unfolding answer_unknown
  answer_unknown-Gives uid r b start h q = elim (try_grow_cases r (length no_such_resource) b h) [
    | inl (room, grew) ↦
        let n : ℕ = length no_such_resource in
        let r' : MemoryReservation = record { bytes = r.bytes + n } in
        let (text, fits) = laws.copied no_such_resource in
        let same : b.used - r.bytes ≡ b.used + n - (r.bytes + n) = omega arith in
        rw (answer_unknown-grew uid r b grew)
          (elim (Bool-cases (ltb n (rt.to_owned no_such_resource).capacity)) [
            | inl spare ↦
                let more : n < (rt.to_owned no_such_resource).capacity = ltb→lt _ _ spare in
                inl (
                  from_reserved_panics uid 404 (rt.to_owned no_such_resource) r' (taken n b)
                      (omega (arith, more, start)),
                  more,
                )
            | inr tight ↦
                let exact : (rt.to_owned no_such_resource).capacity ≤ n = ground (arith, tight) in
                inr (
                  from_reserved-Gives Q (IsUnknownAnswer b) uid 404 (rt.to_owned no_such_resource)
                    r' (taken n b) (ground (arith, h, room)) (subst Q same q)
                    (omega (arith, exact, start)) (omega (arith, exact, fits))
                    (inl (refl, text, room)))
          ])
    | inr (full, refused) ↦ rw (answer_unknown-full uid r b _ refused) (
        inr (
          from_reserved-Gives Q (IsUnknownAnswer b) uid 500 empty_string r b h q (omega arith)
            (omega arith) (inr (refl, refl, full))))
  ]

  answer_fetched-Gives :
      (uid : OwnedString) (answer : Result BoxError Exporter) (limit : ℕ)
      (g : Growing (ℕ × OwnedString))
      → After uid.capacity limit Q
          (λ a r. (e : Exporter) × (answer ≡ ok e) × Fetched uid.capacity limit Q rt laws e a r)
          g
      → (Fails g → Refused rt Q uid.capacity limit answer)
      → Gives Q uid (IsFetchedAnswer rt Q uid.capacity limit answer) (answer_fetched rt uid g)
  unfolding answer_fetched
  answer_fetched-Gives uid answer limit (ok (status, body), r, b)
        (s, (e, got, (c, same, all, valid))) why =
      from_reserved-Gives Q (IsFetchedAnswer rt Q uid.capacity limit answer) uid status body r b s.0
        s.3 (omega arith) c.2 (inl (e, got, same, all, valid))
  answer_fetched-Gives uid answer limit (err x, r, b) s why =
      let same : b.used - r.bytes ≡ b.used - (r.bytes - uid.capacity) - uid.capacity =
        omega (arith, s.0.1, s.1) in
      rw (shrink_to-released r uid.capacity b s.0 s.1, answer_fetched)
        (from_reserved-Gives Q (IsFetchedAnswer rt Q uid.capacity limit answer) uid 500 empty_string
          _ _ (ground arith) (subst Q same s.3) (omega arith) (omega arith)
          (inr (refl, refl, why tt)))

  fetch_resource-Refused :
      (uid : OwnedString) (others : Others) (answer : Result BoxError Exporter)
      (r : MemoryReservation) (b : MemoryBudget) (limit : ℕ)
      → Respects Q others
      → r.bytes ≡ uid.capacity
      → Stays uid.capacity limit Q r b
      → Fails (fetch_resource rt others answer r b)
      → Refused rt Q uid.capacity limit answer
  fetch_resource-Refused uid others answer r b limit keeps start s fails e got ready =
      Gets-Fails (λ _ _ _. Unit {0}) (fetch_resource rt others (ok e) r b)
        (fetch_resource-Gets uid.capacity limit Q rt laws others e r b keeps ready start s)
        (subst (λ a. Fails (fetch_resource rt others a r b)) got fails)

  module _ (client : Bytes → Others × Result BoxError Exporter) (resources : List (Bytes × Bytes))
      (uid : OwnedString) (resource : Bytes) where
    -- The answers that the configuration and the exporter allow.
    abbrev pub IsAnswer : MemoryBudget → ℕ → Bytes → Type 0
    IsAnswer b status body =
        ((find_resource resources resource ≡ none)
          × IsUnknownAnswer (taken uid.capacity b) status body)
        ⊎ ((url : Bytes) × (find_resource resources resource ≡ some url)
            × IsFetchedAnswer rt Q uid.capacity b.limit (client url).1 status body)

    Gives-map :
        (P R : ℕ → Bytes → Type 0) (m : Option (BudgetedResponse × MemoryBudget))
        → ((status : ℕ) (body : Bytes) → P status body → R status body)
        → Gives Q uid P m
        → Gives Q uid R m
    Gives-map P R none f g = g
    Gives-map P R (some (r, b')) f g = (g.0, g.1, g.2, g.3, f _ _ g.4)

    -- The outcomes of a call once its uid has been reserved: an answer; or a panic, where the name
    -- is not configured and the copy of the answer's text has spare capacity, which is not
    -- reserved.
    abbrev pub Answers : MemoryBudget → Option (Option BudgetedResponse × MemoryBudget) → Type 0
    Answers b none = (find_resource resources resource ≡ none) × IsSpacious rt
    Answers b (some (none, b')) = ⊥
    Answers b (some (some r, b')) = Gives Q uid (IsAnswer b) (some (r, b'))

    settle :
        (b : MemoryBudget) (m : Option (BudgetedResponse × MemoryBudget))
        → Gives Q uid (IsAnswer b) m
        → Answers b (answered rt client m)
    settle b none g = absurd g
    settle b (some (r, b')) g = g

    settle_unknown :
        (b : MemoryBudget) (m : Option (BudgetedResponse × MemoryBudget))
        → find_resource resources resource ≡ none
        → GivesUnlessSpacious uid (IsUnknownAnswer (taken uid.capacity b)) m
        → Answers b (answered rt client m)
    settle_unknown b m missing (inl (panics, spare)) = rw panics (missing, spare)
    settle_unknown b m missing (inr g) = settle b m (
        Gives-map (IsUnknownAnswer (taken uid.capacity b)) (IsAnswer b) m
          (λ status body p. inl (missing, p)) g)

    -- What the others do while the client waits for a response, and between its chunks, keeps `Q`.
    abbrev pub ClientRespects : Type 0
    ClientRespects =
        (url : Bytes)
        → Respects Q (client url).0
          × ((e : Exporter) → (client url).1 ≡ ok e → All (λ item. Respects Q item.others) e.items)

    -- Let what the others do while the call waits keep some predicate of the bytes that they hold.
    -- A call gives no answer exactly if the uid alone does not fit in the budget, and then it
    -- changes nothing. Else it ends with a response to the uid that is backed by exactly its two
    -- allocations and has a body within the size limit, and beside these the usage is the others'
    -- bytes, of which the predicate still holds, so that the call loses none: for a name that is
    -- not configured a 404, or an empty 500 exactly if the budget has no room for the 404's text;
    -- for one that is, the exporter's status with the whole body, which is UTF-8, or an empty 500.
    -- A response that is ready is not answered with the 500: one whose Content-Length is within the
    -- size limit, whose chunks give, without an error, a UTF-8 body not longer than that length,
    -- and for which the budget has room whatever the predicate lets the others hold. It panics only
    -- for a name that is not configured, and only if the allocator gives the copy of the 404's text
    -- more capacity than its length.
    pub call_resource-IsAnswer :
        (b : MemoryBudget)
        → ClientRespects
        → Q b.used
        → IsSound b
        → ((b.limit < b.used + uid.capacity)
            × (call_resource rt client resources uid resource b ≡ some (none, b)))
          ⊎ ((b.used + uid.capacity ≤ b.limit)
              × Answers b (call_resource rt client resources uid resource b))
    unfolding call_resource
    call_resource-IsAnswer b keeps q s = elim (try_reserve_cases uid.capacity b s) [
      | inr (full, refused) ↦ inl (full, ground arith)
      | inl (room, reserved) ↦
          let same : b.used ≡ b.used + uid.capacity - uid.capacity = omega arith in
          let held : MemoryReservation = record { bytes = uid.capacity } in
          let rest : MemoryBudget = taken uid.capacity b in
          let fits : Holds uid.capacity rest = ground (arith, room, s) in
          elim (Option-cases (find_resource resources resource)) [
            | inl missing ↦
                let unknown = answer_unknown rt uid held rest in
                let whole : call_resource rt client resources uid resource b
                    ≡ answered rt client unknown =
                  ground (arith, reserved, missing) in
                let gives = answer_unknown-Gives uid held rest refl fits (subst Q same q) in
                inr (room, subst (Answers b) (sym whole) (settle_unknown b unknown missing gives))
            | inr (url, found) ↦
                let (others, answer) = client url in
                let fetched = fetch_resource rt others answer held rest in
                let whole : call_resource rt client resources uid resource b
                    ≡ answered rt client (answer_fetched rt uid fetched) =
                  ground (arith, reserved, found) in
                let after =
                  fetch_resource-After uid.capacity b.limit Q rt laws others answer held rest
                    (keeps url).0 (keeps url).1 refl (fits, omega arith, refl, subst Q same q) in
                let gives =
                  Gives-map (IsFetchedAnswer rt Q uid.capacity b.limit answer) (IsAnswer b)
                    (answer_fetched rt uid fetched) (λ status body p. inr (url, found, p))
                    (answer_fetched-Gives uid answer b.limit fetched after (
                      fetch_resource-Refused uid others answer held rest b.limit (keeps url).0 refl
                        (fits, omega arith, refl, subst Q same q))) in
                inr (
                  room,
                  subst (Answers b) (sym whole) (settle b (answer_fetched rt uid fetched) gives),
                )
          ]
    ]
