-- ===== src/Delivery/Delivered.antt =====
-- src/worker.rs: what a posted response holds afterwards, on every branch.
use prometheus_ws_proxy_clie.Base.{
  ℕ, ◌+◌, ◌-◌, ◌≤◌, ◌<◌, ◌≡◌, refl, sym, subst, true, false, Option, none, some, Result, ok, err,
  List, [], ◌∷◌, Bytes, OwnedString, codes, IsAllocated, len, arith, min, Option-cases,
  Result-cases, inl, inr, ◌⊎◌,
}
use prometheus_ws_proxy_clie.Error.{BoxError, is_timeout}
use prometheus_ws_proxy_clie.Protocol.{ResourceResponse}
use prometheus_ws_proxy_clie.Protocol.Length.{response_form_encoded_len}
use prometheus_ws_proxy_clie.Memory.{MemoryBudget, MemoryReservation}
use prometheus_ws_proxy_clie.Memory.Acquire.{
  IsSound, Holds, taken, released, try_reserve_cases, drop-released,
}
use prometheus_ws_proxy_clie.Memory.Response.{BudgetedResponse}
use prometheus_ws_proxy_clie.Memory.Backed.{IsBacked}
use prometheus_ws_proxy_clie.Resource.{resume}
use prometheus_ws_proxy_clie.Delivery.Encode.{EncodedResponse}
use prometheus_ws_proxy_clie.Delivery.Encoded.{Settled, settle_text-Settled}
use prometheus_ws_proxy_clie.Delivery.Post.{
  WorkerContext, FormRequest, PostLib, encode_form, form_request, with_request, reserved_form,
  prepare_form_request_with_encoder, prepare_form_request, send_prepared, post_response,
  deliver_by_post, fallback_after_timeout_limit,
}

module _ {Url : Type 0} (lib : PostLib Url)
    (allocates : (n : ℕ) (pairs : List (Bytes × Bytes)) → IsAllocated (lib.serialize n pairs)) where
  -- A prepared request holds its form's bytes over the usage before; an error holds nothing.
  abbrev pub Prepares :
      MemoryBudget → Result BoxError (FormRequest Url × MemoryReservation) × MemoryBudget → Type 0
  Prepares b (err e, b') = IsSound b' × (b'.limit ≡ b.limit) × (b'.used ≡ b.used)
  Prepares b (ok (q, r), b') = IsSound b' × (b'.limit ≡ b.limit) × (b'.used ≡ b.used + r.bytes)

  with_request-Prepares :
      (context : WorkerContext Url) (response : BudgetedResponse) (text : OwnedString) (n : ℕ)
      (b : MemoryBudget) (settled : Result BoxError EncodedResponse × MemoryBudget)
      → b.used + n ≤ b.limit
      → Settled text n (taken n b) settled
      → Prepares b (with_request lib context response n settled)
  unfolding with_request
  with_request-Prepares context response text n b (err e, b') room s = ground arith
  with_request-Prepares context response text n b (ok x, b') room s =
      elim (Result-cases (form_request lib context response n x.json)) [
        | inl (q, e) ↦ rw (e, with_request) (ground arith)
        | inr (failed, e) ↦ rw (e, with_request) (ground (arith, drop-released x.reservation b'))
      ]

  abbrev form_of : ResourceResponse → ℕ → OwnedString
  form_of response n =
      lib.serialize n (
        (codes "status", lib.status_text response.status)
        ∷ (codes "body", response.body.bytes)
        ∷ [])

  reserved_form-Settled :
      (response : ResourceResponse) (n : ℕ) (b : MemoryBudget)
      → Holds n (taken n b)
      → Settled
          (form_of response n)
          n
          (taken n b)
          (reserved_form lib (encode_form lib) response n (record { bytes = n }) (taken n b))
  unfolding reserved_form encode_form
  reserved_form-Settled response n b h =
      settle_text-Settled (form_of response n) n _ (record { bytes = n }) (taken n b)
        (allocates _ _) refl h

  prepare_with_encoder-Prepares :
      (context : WorkerContext Url) (response : BudgetedResponse) (b : MemoryBudget)
      → IsSound b
      → Prepares b (prepare_form_request_with_encoder lib context response (encode_form lib) b)
  unfolding prepare_form_request_with_encoder
  prepare_with_encoder-Prepares context response b s =
      elim (Option-cases (response_form_encoded_len response.response)) [
        | inl overflow ↦ rw (overflow, prepare_form_request_with_encoder) (ground arith)
        | inr (n, e) ↦ elim (try_reserve_cases n b s) [
          | inl (room, got) ↦
              let whole : prepare_form_request_with_encoder lib context response (encode_form lib) b
                  ≡ with_request lib context response n (
                      reserved_form lib (encode_form lib) response.response n (record { bytes = n })
                        (taken n b)) =
                ground (arith, e, got) in
              subst (Prepares b) (sym whole) (
                with_request-Prepares context response _ n b _ room
                  (reserved_form-Settled response.response n b (ground arith)))
          | inr (full, refused) ↦ rw (e, prepare_form_request_with_encoder, refused) (ground arith)
        ]
      ]

  -- After a post the response is still backed. The usage is as before; or the request was sent, and
  -- the usage is the bytes of the response and what the others made of theirs meanwhile, up to
  -- what the limit leaves.
  abbrev pub Posted : BudgetedResponse → MemoryBudget → MemoryBudget → Type 0
  Posted r b b' =
      IsBacked r b'
      × ((b'.used ≡ b.used)
          ⊎ ((q : FormRequest Url) × (n : ℕ) × (b.used - r.retained.bytes ≤ n)
              × (b'.used ≡ r.retained.bytes + min ((lib.send q).0 (b.used - r.retained.bytes)) n)))

  send_prepared-Posted :
      (r : BudgetedResponse) (b : MemoryBudget)
      (prepared : Result BoxError (FormRequest Url × MemoryReservation) × MemoryBudget)
      → IsBacked r b
      → Prepares b prepared
      → Posted r b (send_prepared lib r prepared).1
  unfolding send_prepared
  send_prepared-Posted r b (err e, b') k p = (ground arith, inl p.2)
  send_prepared-Posted r b (ok (q, form), b') k p =
      let holding : MemoryReservation = record { bytes = r.retained.bytes + form.bytes } in
      let back : b'.used - holding.bytes ≡ b.used - r.retained.bytes =
        omega (arith, p.2, k.holds.1) in
      let later : MemoryBudget = resume (lib.send q).0 holding b' in
      let dropped = drop-released form later (ground arith) in
      (
        ground (arith, dropped),
        inr (
          q,
          b'.limit - holding.bytes,
          ground (arith, p, k.holds),
          rw (sym back) (ground (arith, dropped)),
        ),
      )

  -- A response that is returned for the WebSocket is the one that was given.
  abbrev pub Returned :
      BudgetedResponse → Result BoxError (Unit {0}) → Option BudgetedResponse → Type 0
  Returned r (ok _) kept = kept ≡ none
  Returned r (err e) kept =
      ((is_timeout e ≡ true) × (fallback_after_timeout_limit < len r.response.body) × (kept ≡ none))
      ⊎ (((is_timeout e ≡ false) ⊎ (len r.response.body ≤ fallback_after_timeout_limit))
          × (kept ≡ some r))

  -- The usage, with the bytes of a response that is done with given back.
  abbrev pub handed : BudgetedResponse → Option BudgetedResponse → MemoryBudget → MemoryBudget
  handed r none b = released r.retained.bytes b
  handed r (some _) b = b

  -- A post of a backed response leaves it backed and no reservation for the form behind, whether the
  -- preparation, the transport or the server failed. The response is returned for the WebSocket
  -- exactly if the post failed, and not with a timeout on a body of more than 256 KiB; else its bytes
  -- are given back.
  pub deliver_by_post-Returned :
      (context : WorkerContext Url) (r : BudgetedResponse) (b : MemoryBudget)
      → IsBacked r b
      → let (result, posted) = post_response lib context r b in
        let (kept, b') = deliver_by_post lib context r b in
        Posted r b posted × Returned r result kept × (b' ≡ handed r kept posted)
  unfolding deliver_by_post post_response prepare_form_request
  deliver_by_post-Returned context r b k =
      let posted =
        send_prepared-Posted r b _ k (prepare_with_encoder-Prepares context r b k.holds.0) in
      let dropped = drop-released r.retained (post_response lib context r b).1 posted.0.holds in
      (posted, ground (arith, dropped), ground (arith, dropped))
