-- ===== src/Resource.antt =====
-- src/resource.rs: the call of one local resource under the memory budget. The HTTP client and the
-- allocator are parameters. A task that waits lets others change the usage: `resume` gives their
-- bytes another value, up to what the limit leaves.
pub mod Grown
pub mod Fetch
pub mod Ready
pub mod Call
pub mod Tests
use prometheus_ws_proxy_clie.Base.{
  ℕ, ◌+◌, ◌-◌, ◌≤◌, ◌<◌, Bool, true, false, Option, none, some, Result, ok, err, List, [], ◌∷◌,
  ◌++◌, Bytes, OwnedString, bytes_eq, codes, length, leb, ltb, if◌then◌else◌, min, max,
  saturating_add, empty_string,
}
use prometheus_ws_proxy_clie.Error.{BoxError, memory_budget, message, utf8, allocation, http}
use prometheus_ws_proxy_clie.Memory.{
  MemoryBudget, MemoryBudgetError, MemoryReservation, try_reserve, try_grow, shrink_to, drop,
  max_body_size,
}
use prometheus_ws_proxy_clie.Memory.Response.{BudgetedResponse, from_reserved}

-- What the other holders do to the bytes that they hold while this task waits.
abbrev pub Others : Type 0
Others = ℕ → ℕ

abbrev pub resume : Others → MemoryReservation → MemoryBudget → MemoryBudget
resume others r b =
    let used = r.bytes + min (others (b.used - r.bytes)) (b.limit - r.bytes) in
    record b { used = used; high_watermark = max b.high_watermark used }

-- One item of the body's stream, after what the others did: a chunk, or a transport error.
pub record Item : Type 0 where
  pub others : Others
  pub chunk : Result BoxError Bytes

-- The response of an exporter, after the wait for it. `content_length` is the header's value, if
-- there is one that is a `u64`.
pub record Exporter : Type 0 where
  pub status : ℕ
  pub content_length : Option ℕ
  pub items : List Item

-- The allocator: the capacity of `Vec::with_capacity`, that after `try_reserve_exact` for so many
-- bytes behind a length in a capacity (if it succeeds), and the string made from a literal;
-- and `String::from_utf8`, which keeps the allocation.
pub record Runtime : Type 0 where
  pub with_capacity : ℕ → ℕ
  pub try_reserve_exact : ℕ → ℕ → ℕ → Option ℕ
  pub to_owned : Bytes → OwnedString
  pub is_utf8 : Bytes → Bool

-- A `Vec<u8>`.
abbrev pub Vec : Type 0
Vec = OwnedString

-- The results of a step that may grow the reservation.
abbrev pub Growing : Type 0 → Type 0
Growing A = Result BoxError A × MemoryReservation × MemoryBudget

abbrev pub grown :
    Result MemoryBudgetError (Unit {0}) × MemoryReservation × MemoryBudget → Growing (Unit {0})
grown (ok a, r, b) = (ok a, r, b)
grown (err e, r, b) = (err (memory_budget e), r, b)

infixl 5 ◌then_grow◌
abbrev pub ◌then_grow◌ :
    {A B : Type 0} → Growing A → (A → MemoryReservation → MemoryBudget → Growing B) → Growing B
(ok a, r, b) then_grow f = f a r b
(err e, r, b) then_grow f = (err e, r, b)

-- Grows by the excess of one number over another, if there is any.
abbrev pub grow_excess : ℕ → ℕ → MemoryReservation → MemoryBudget → Growing (Unit {0})
grow_excess actual expected r b =
    if ltb expected actual then grown (try_grow r (actual - expected) b) else (ok tt, r, b)

abbrev pub or_default : Option ℕ → ℕ
or_default none = 0
or_default (some n) = n

abbrev pub limit_error : BoxError
limit_error = message "resource response exceeds the 64 MiB limit"

abbrev pub no_such_resource : Bytes
no_such_resource = codes "No such resource"

module _ (rt : Runtime) where
  -- `Vec::try_reserve_exact` and the growth of the reservation to the new capacity.
  unfoldable pub make_room : Vec → Bytes → MemoryReservation → MemoryBudget → Growing ℕ
  unfolding try_grow
  make_room bytes chunk r b =
      let next_length = saturating_add (length bytes.bytes) (length chunk) in
      let minimum_growth = next_length - bytes.capacity in
      if ltb bytes.capacity next_length
      then (grown (try_grow r minimum_growth b) then_grow λ _ r1 b1.
          elim (rt.try_reserve_exact bytes.capacity (length bytes.bytes) (length chunk)) [
            | none ↦ (err allocation, r1, b1)
            | some capacity ↦
                grow_excess (capacity - bytes.capacity) minimum_growth r1 b1 then_grow λ _ r2 b2.
                (ok capacity, r2, b2)
          ])
      else (ok bytes.capacity, r, b)

  -- One chunk of the stream.
  unfoldable pub append_chunk : Vec → Bytes → MemoryReservation → MemoryBudget → Growing Vec
  unfolding make_room
  append_chunk bytes chunk r b =
      if ltb max_body_size (saturating_add (length bytes.bytes) (length chunk))
      then (err limit_error, r, b)
      else (make_room bytes chunk r b then_grow λ capacity r' b'.
          (ok (record { bytes = bytes.bytes ++ chunk; capacity = capacity }), r', b'))

  -- The loop over the stream.
  unfoldable pub read_body : List Item → Vec → MemoryReservation → MemoryBudget → Growing Vec
  unfolding append_chunk
  read_body [] bytes r b = (ok bytes, r, b)
  read_body (item ∷ items) bytes r b = elim item.chunk [
    | err e ↦ (err e, r, resume item.others r b)
    | ok chunk ↦ append_chunk bytes chunk r (resume item.others r b) then_grow λ bytes' r' b'.
        read_body items bytes' r' b'
  ]

  -- `fetch_resource` from the exporter's response on.
  unfoldable pub fetch_body :
      Exporter → MemoryReservation → MemoryBudget → Growing (ℕ × OwnedString)
  unfolding read_body try_grow
  fetch_body response r b =
      let declared = or_default response.content_length in
      let initial_capacity = min declared max_body_size in
      let capacity = rt.with_capacity initial_capacity in
      if ltb max_body_size declared
      then (err limit_error, r, b)
      else (grown (try_grow r initial_capacity b) then_grow λ _ r1 b1.
          grow_excess capacity initial_capacity r1 b1 then_grow λ _ r2 b2.
          read_body response.items (record { bytes = []; capacity = capacity }) r2 b2
          then_grow λ bytes r3 b3.
              (if rt.is_utf8 bytes.bytes then ok (response.status, bytes) else err utf8, r3, b3))

  -- What the HTTP client gives for the URL of the resource: an error, or a response. Then the
  -- others have had their turn.
  unfoldable pub fetch_resource :
      Others
      → Result BoxError Exporter
      → MemoryReservation
      → MemoryBudget
      → Growing (ℕ × OwnedString)
  unfolding fetch_body
  fetch_resource others (err e) r b = (err e, r, resume others r b)
  fetch_resource others (ok response) r b = fetch_body response r (resume others r b)

  -- The answer to a request for an unknown resource.
  unfoldable pub answer_unknown :
      OwnedString → MemoryReservation → MemoryBudget → Option (BudgetedResponse × MemoryBudget)
  answer_unknown uid retained b =
      let (result, r, b') = try_grow retained (length no_such_resource) b in
      elim result [
        | ok _ ↦ from_reserved uid 404 (rt.to_owned no_such_resource) r b'
        | err _ ↦ from_reserved uid 500 empty_string r b'
      ]

  -- The answer to a request for a known resource.
  unfoldable pub answer_fetched :
      OwnedString → Growing (ℕ × OwnedString) → Option (BudgetedResponse × MemoryBudget)
  answer_fetched uid (ok (status, body), r, b) = from_reserved uid status body r b
  answer_fetched uid (err _, r, b) = elim (shrink_to r uid.capacity b) [
    | none ↦ none
    | some (r', b') ↦ from_reserved uid 500 empty_string r' b'
  ]

-- `HashMap::get`
unfoldable pub find_resource : List (Bytes × Bytes) → Bytes → Option Bytes
find_resource [] name = none
find_resource ((k, u) ∷ rs) name = if bytes_eq k name then some u else find_resource rs name

-- The answers of a call: none where the uid alone does not fit, and a panic is `none` outside.
module _ (rt : Runtime) (client : Bytes → Others × Result BoxError Exporter) where
  abbrev pub answered :
      Option (BudgetedResponse × MemoryBudget) → Option (Option BudgetedResponse × MemoryBudget)
  answered none = none
  answered (some (r, b)) = some (some r, b)

  -- The client gives, for a URL, what the others do during the request and what it answers.
  unfoldable pub call_resource :
      List (Bytes × Bytes)
      → OwnedString
      → Bytes
      → MemoryBudget
      → Option (Option BudgetedResponse × MemoryBudget)
  call_resource resources uid resource b =
      let (reserved, b') = try_reserve uid.capacity b in
      elim reserved [
        | err _ ↦ some (none, b')
        | ok retained ↦ elim (find_resource resources resource) [
          | none ↦ answered (answer_unknown rt uid retained b')
          | some url ↦
              let (others, response) = client url in
              answered (answer_fetched rt uid (fetch_resource rt others response retained b'))
        ]
      ]
