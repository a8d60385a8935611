-- ===== src/Delivery/Encoded.antt =====
-- src/worker.rs: what an encoding holds afterwards, on every branch.
use prometheus_ws_proxy_clie.Base.{
  ℕ, ◌+◌, ◌-◌, ◌≤◌, ◌≡◌, refl, sym, subst, none, some, Result, ok, err, OwnedString, IsAllocated,
  len, arith, ltb, leb, Bool-cases, leb→le, Option-cases, inl, inr, ◌⊎◌,
}
use prometheus_ws_proxy_clie.Error.{BoxError}
use prometheus_ws_proxy_clie.Protocol.Length.{response_json_encoded_len}
use prometheus_ws_proxy_clie.Memory.{MemoryBudget, MemoryReservation}
use prometheus_ws_proxy_clie.Memory.Acquire.{
  Shifts, IsSound, Holds, taken, released, try_reserve_cases, try_grow_cases, drop-released,
}
use prometheus_ws_proxy_clie.Memory.Response.{BudgetedResponse}
use prometheus_ws_proxy_clie.Memory.Backed.{IsBacked, downgraded, downgrade_to_error-IsBacked}
use prometheus_ws_proxy_clie.Delivery.Encode.{
  EncodedResponse, Encoder, Encoding, settle_text, encode_reserved, keep, encode_downgraded,
  encode_fallback, bounded_response_json_with_limit_and_encoder,
}

-- A text that was settled for `n` reserved bytes holds its whole allocation; an error has given
-- those bytes back.
abbrev pub Settled :
    OwnedString → ℕ → MemoryBudget → Result BoxError EncodedResponse × MemoryBudget → Type 0
Settled text n b (ok x, b') =
    IsSound b'
    × (b'.limit ≡ b.limit)
    × (x.json ≡ text)
    × (len text ≡ n)
    × (x.reservation.bytes ≡ text.capacity)
    × (b'.used + n ≡ b.used + text.capacity)
Settled text n b (err e, b') = IsSound b' × (b'.limit ≡ b.limit) × (b'.used + n ≡ b.used)

pub settle_text-Settled :
    (text : OwnedString) (n : ℕ) (mismatch : BoxError) (r : MemoryReservation) (b : MemoryBudget)
    → IsAllocated text
    → r.bytes ≡ n
    → Holds r.bytes b
    → Settled text n b (settle_text text n mismatch r b)
unfolding settle_text
settle_text-Settled text n mismatch r b a e h =
    ground (arith, try_grow_cases r (text.capacity - n) b h, drop-released r b h)

module _ (encoder : Encoder)
    (allocates : (r : BudgetedResponse) (s : OwnedString)
      → encoder r.response ≡ some s
      → IsAllocated s) where
  -- The bytes that an encoding has added to the usage.
  abbrev pub added : Result BoxError EncodedResponse → ℕ
  added (ok x) = x.reservation.bytes
  added (err _) = 0

  -- A text is the encoder's, of a length within the limit, and its reservation is its allocation.
  abbrev pub IsText : BudgetedResponse → ℕ → Result BoxError EncodedResponse → Type 0
  IsText r limit (ok x) =
      (encoder r.response ≡ some x.json)
      × (len x.json ≤ limit)
      × (x.reservation.bytes ≡ x.json.capacity)
  IsText r limit (err _) = Unit

  -- An encoding that began with the response `original` and the budget `b` ends with the response
  -- `r`, and the usage has changed by exactly what the response gave up and the text takes.
  abbrev pub Ends : BudgetedResponse → BudgetedResponse → ℕ → MemoryBudget → Encoding → Type 0
  Ends original r limit b none = ⊥
  Ends original r limit b (some (result, r', b')) =
      (r' ≡ r)
      × IsBacked r b'
      × Holds (r.retained.bytes + added result) b'
      × IsText r limit result
      × Shifts original.retained.bytes (r.retained.bytes + added result) b b'

  Settled-Ends :
      (r : BudgetedResponse) (limit n : ℕ) (text : OwnedString) (b : MemoryBudget)
      (result : Result BoxError EncodedResponse × MemoryBudget)
      → IsBacked r b
      → n ≤ limit
      → encoder r.response ≡ some text
      → Settled text n (taken n b) result
      → Ends r r limit b (keep r result)
  Settled-Ends r limit n text b (ok x, b') k le e s = ground arith
  Settled-Ends r limit n text b (err x, b') k le e s = ground arith

  encode_reserved-Ends :
      (r : BudgetedResponse) (limit n : ℕ) (b : MemoryBudget)
      → IsBacked r b
      → n ≤ limit
      → b.used + n ≤ b.limit
      → Ends r r limit b (keep r (encode_reserved encoder r n (record { bytes = n }) (taken n b)))
  unfolding encode_reserved
  encode_reserved-Ends r limit n b k le room = elim (Option-cases (encoder r.response)) [
    | inl failed ↦
        rw (failed, encode_reserved)
          (ground (arith, drop-released (record { bytes = n }) (taken n b)))
    | inr (text, e) ↦
        rw (e, encode_reserved)
          (Settled-Ends r limit n text b _ k le e (
            settle_text-Settled text n _ (record { bytes = n }) (taken n b) (allocates r text e)
              refl (ground arith)))
  ]

  encode_downgraded-Ends :
      (r : BudgetedResponse) (limit : ℕ) (b : MemoryBudget)
      → IsBacked r b
      → Ends r r limit b (encode_downgraded encoder r limit b)
  unfolding encode_downgraded
  encode_downgraded-Ends r limit b k = elim (Option-cases (response_json_encoded_len r.response)) [
    | inl overflow ↦ rw (overflow, encode_downgraded) (ground arith)
    | inr (n, e) ↦ elim (Bool-cases (ltb limit n)) [
      | inl over ↦ rw (e, encode_downgraded, over) (ground arith)
      | inr fits ↦ elim (try_reserve_cases n b k.holds.0) [
        | inl (room, got) ↦
            let whole : encode_downgraded encoder r limit b
                ≡ keep r (encode_reserved encoder r n (record { bytes = n }) (taken n b)) =
              ground arith in
            subst (Ends r r limit b) (sym whole)
              (encode_reserved-Ends r limit n b k (ground arith) room)
        | inr (full, refused) ↦ ground arith
      ]
    ]
  ]

  -- The downgrade gives the body's bytes back before anything else is reserved.
  Ends-downgraded :
      (r : BudgetedResponse) (limit : ℕ) (b : MemoryBudget) (e : Encoding)
      → IsBacked r b
      → Ends (downgraded r) (downgraded r) limit (released r.response.body.capacity b) e
      → Ends r (downgraded r) limit b e
  Ends-downgraded r limit b none k e = e
  Ends-downgraded r limit b (some (result, r', b')) k e =
      (e.0, e.1, e.2, e.3, omega (arith, e.4, k.exact, k.holds.1))

  encode_fallback-Ends :
      (r : BudgetedResponse) (limit : ℕ) (b : MemoryBudget)
      → IsBacked r b
      → Ends r (downgraded r) limit b (encode_fallback encoder r limit b)
  unfolding encode_fallback
  encode_fallback-Ends r limit b k =
      let (lowered, kept) = downgrade_to_error-IsBacked r b k in
      rw (lowered, encode_fallback)
        (Ends-downgraded r limit b _ k
          (encode_downgraded-Ends (downgraded r) limit (released r.response.body.capacity b) kept))

  -- An encoding never panics, and ends with the response unchanged, or downgraded to an empty 500
  -- that has given its body back. If it succeeds, the text is the encoder's text for that response,
  -- within the limit, and its reservation is exactly its allocation; the response stays backed, and
  -- the usage has changed by exactly the bytes of the text, less those of a body given back. If it
  -- fails, it has left no reservation behind.
  pub bounded_response_json-Ends :
      (r : BudgetedResponse) (limit : ℕ) (b : MemoryBudget)
      → IsBacked r b
      → let e = bounded_response_json_with_limit_and_encoder encoder r limit b in
        Ends r r limit b e ⊎ Ends r (downgraded r) limit b e
  unfolding bounded_response_json_with_limit_and_encoder
  bounded_response_json-Ends r limit b k =
      elim (Option-cases (response_json_encoded_len r.response)) [
        | inl overflow ↦
            inl (rw (overflow, bounded_response_json_with_limit_and_encoder) (ground arith))
        | inr (n, e) ↦ elim (Bool-cases (leb n limit)) [
          | inr over ↦ inr (
              rw (e, bounded_response_json_with_limit_and_encoder, over)
                (encode_fallback-Ends r limit b k))
          | inl fits ↦ elim (try_reserve_cases n b k.holds.0) [
            | inl (room, got) ↦
                let whole : bounded_response_json_with_limit_and_encoder encoder r limit b
                    ≡ keep r (encode_reserved encoder r n (record { bytes = n }) (taken n b)) =
                  ground arith in
                inl (
                  subst (Ends r r limit b) (sym whole)
                    (encode_reserved-Ends r limit n b k (leb→le n limit fits) room))
            | inr (full, refused) ↦
                let whole : bounded_response_json_with_limit_and_encoder encoder r limit b
                    ≡ encode_fallback encoder r limit b =
                  ground arith in
                inr (
                  subst (Ends r (downgraded r) limit b) (sym whole)
                    (encode_fallback-Ends r limit b k))
          ]
        ]
      ]
