-- ===== src/Resource/Ready.antt =====
-- src/resource.rs: a response that `fetch_resource` does not refuse.
use mathlib.Core.List.{append-nil, append_assoc}
use prometheus_ws_proxy_clie.Base.{
  ℕ, ◌+◌, ◌-◌, ◌≤◌, ◌≡◌, sym, ap, ◌∙◌, subst, true, false, some, ok, err, List, [], ◌∷◌, ◌++◌,
  Bytes, len, length, length-append, arith, ltb, min, inl, inr, Bool-cases,
}
use prometheus_ws_proxy_clie.Memory.{MemoryBudget, MemoryReservation, try_grow, max_body_size}
use prometheus_ws_proxy_clie.Memory.Acquire.{try_grow_cases}
use prometheus_ws_proxy_clie.Resource.{
  Others, resume, Item, Exporter, Runtime, Vec, Growing, grown, or_default, ◌then_grow◌,
  grow_excess, append_chunk, make_room, read_body, fetch_body, fetch_resource,
}
use prometheus_ws_proxy_clie.Resource.Grown.{
  IsRuntime, Respects, Stays, After, body_of, try_grow-After, resume-Stays,
}

-- The first capacity of the body's vector.
abbrev pub initial : Exporter → ℕ
initial e = min (or_default e.content_length) max_body_size

-- Whatever the others may hold leaves room for so many bytes.
abbrev pub HasRoom : (ℕ → Type 0) → ℕ → ℕ → Type 0
HasRoom Q limit n = (m : ℕ) → Q m → m + n ≤ limit

-- A response with a header within the size limit, a whole UTF-8 body within the header, and room
-- for the vector of that capacity beside what the reservation has already.
pub record IsReady (rt : Runtime) (Q : ℕ → Type 0) (base limit : ℕ) (e : Exporter) : Type 0 where
  pub declared : or_default e.content_length ≤ max_body_size
  pub body : Bytes
  pub whole : body_of e.items ≡ some body
  pub within : length body ≤ or_default e.content_length
  pub valid : rt.is_utf8 body ≡ true
  pub room : HasRoom Q limit (base + rt.with_capacity (initial e))

-- A step that succeeds, with a result that satisfies `P`.
abbrev pub Gets :
    {A : Type 0} → (A → MemoryReservation → MemoryBudget → Type 0) → Growing A → Type 0
Gets P (ok a, r, b) = P a r b
Gets P (err _, r, b) = ⊥

-- A step that ends with an error.
abbrev pub Fails : {A : Type 0} → Growing A → Type 0
Fails (ok _, r, b) = ⊥
Fails (err _, r, b) = Unit {0}

pub Gets-Fails :
    {A : Type 0} (P : A → MemoryReservation → MemoryBudget → Type 0) (m : Growing A)
    → Gets P m
    → ¬ Fails m
Gets-Fails P (ok a, r, b) g f = f
Gets-Fails P (err e, r, b) g f = g

Gets-then_grow :
    {A B : Type 0} (P : A → MemoryReservation → MemoryBudget → Type 0)
    (R : B → MemoryReservation → MemoryBudget → Type 0) (m : Growing A)
    (f : A → MemoryReservation → MemoryBudget → Growing B)
    → Gets P m
    → ((a : A) (r : MemoryReservation) (b : MemoryBudget) → P a r b → Gets R (f a r b))
    → Gets R (m then_grow f)
Gets-then_grow P R (ok a, r, b) f h k = k a r b h
Gets-then_grow P R (err e, r, b) f h k = absurd h

module _ (base limit : ℕ) (Q : ℕ → Type 0) where
  abbrev Grew : ℕ → Unit {0} → MemoryReservation → MemoryBudget → Type 0
  Grew n _ r b = Stays base limit Q r b × (r.bytes ≡ n)

  After-Gets :
      (n : ℕ) (m : Growing (Unit {0})) (r : MemoryReservation) (b : MemoryBudget)
      → m ≡ (ok tt, r, b)
      → After base limit Q (λ _ r'. r'.bytes ≡ n) m
      → Gets (Grew n) m
  After-Gets n m r b e h =
      subst (λ x. After base limit Q (λ _ r'. r'.bytes ≡ n) x → Gets (Grew n) x) (sym e) (λ a. a) h

  try_grow-Gets :
      (r : MemoryReservation) (n : ℕ) (b : MemoryBudget)
      → Stays base limit Q r b
      → HasRoom Q limit (r.bytes + n)
      → Gets (Grew (r.bytes + n)) (grown (try_grow r n b))
  try_grow-Gets r n b s room = elim (try_grow_cases r n b s.0) [
    | inl (_, grew) ↦
        After-Gets (r.bytes + n) (grown (try_grow r n b)) _ _ (ap grown grew)
          (try_grow-After base limit Q r n b s)
    | inr (full, _) ↦ absurd (omega (arith, full, room (b.used - r.bytes) s.3, s.0.1, s.2))
  ]

  grow_excess-Gets :
      (actual expected : ℕ) (r : MemoryReservation) (b : MemoryBudget)
      → Stays base limit Q r b
      → HasRoom Q limit (r.bytes + (actual - expected))
      → Gets (Grew (r.bytes + (actual - expected))) (grow_excess actual expected r b)
  grow_excess-Gets actual expected r b s room = elim (Bool-cases (ltb expected actual)) [
    | inl more ↦ rw more (try_grow-Gets r (actual - expected) b s room)
    | inr same ↦ rw same (s, ground (arith, same))
  ]

  module _ (rt : Runtime) (laws : IsRuntime rt) where
    append_chunk-fitting :
        (v : Vec) (chunk : Bytes) (r : MemoryReservation) (b : MemoryBudget)
        → len v + length chunk ≤ max_body_size
        → len v + length chunk ≤ v.capacity
        → append_chunk rt v chunk r b
          ≡ (ok (record { bytes = v.bytes ++ chunk; capacity = v.capacity }), r, b)
    unfolding append_chunk make_room
    append_chunk-fitting v chunk r b small fits = ground arith

    body_of_cases :
        (item : Item) (items : List Item) (body : Bytes)
        → body_of (item ∷ items) ≡ some body
        → (chunk : Bytes) × (item.chunk ≡ ok chunk)
          × (rest : Bytes) × (body_of items ≡ some rest)
          × (body ≡ chunk ++ rest)
    body_of_cases item items body e = grind arith

    read_body-Gets :
        (items : List Item) (v : Vec) (r : MemoryReservation) (b : MemoryBudget) (body : Bytes)
        → body_of items ≡ some body
        → len v + length body ≤ v.capacity
        → len v + length body ≤ max_body_size
        → Gets (λ v' r' b'. v'.bytes ≡ v.bytes ++ body) (read_body rt items v r b)
    unfolding read_body
    read_body-Gets [] v r b body whole fits small =
        let none_left : [] ≡ body = cc in
        subst (λ x. v.bytes ≡ v.bytes ++ x) none_left (sym (append-nil v.bytes))
    read_body-Gets (item ∷ items) v r b body whole fits small =
        let (chunk, got, rest, more, parts) = body_of_cases item items body whole in
        let sizes : length body ≡ length chunk + length rest =
          ap length parts ∙ length-append chunk rest in
        let v1 : Vec = record { bytes = v.bytes ++ chunk; capacity = v.capacity } in
        let longer : len v1 ≡ len v + length chunk = length-append v.bytes chunk in
        let b1 = resume item.others r b in
        rw got (
          rw
            (append_chunk-fitting v chunk r b1 (omega (arith, sizes, small))
              (omega (arith, sizes, fits)))
            (subst (λ x. Gets (λ v' r' b'. v'.bytes ≡ x) (read_body rt items v1 r b1))
              (append_assoc v.bytes chunk rest ∙ ap (λ x. v.bytes ++ x) (sym parts))
              (read_body-Gets items v1 r b1 rest more (omega (arith, sizes, fits, longer))
                (omega (arith, sizes, small, longer)))))

    fetch_body-Gets :
        (e : Exporter) (r : MemoryReservation) (b : MemoryBudget)
        → IsReady rt Q base limit e
        → r.bytes ≡ base
        → Stays base limit Q r b
        → Gets (λ _ _ _. Unit {0}) (fetch_body rt e r b)
    unfolding fetch_body
    fetch_body-Gets e r b ready start s =
        let capacity = rt.with_capacity (initial e) in
        let enough : initial e ≤ capacity = laws.room (initial e) in
        let whole : initial e ≡ or_default e.content_length = omega (arith, ready.declared) in
        let fits : ltb max_body_size (or_default e.content_length) ≡ false =
          ground (arith, ready.declared) in
        rw fits (
          Gets-then_grow (Grew (r.bytes + initial e)) _ _ _
            (try_grow-Gets r (initial e) b s (λ m q. omega (arith, ready.room m q, enough, start)))
            λ _ r1 b1 (s1, p1).
              Gets-then_grow (Grew (r1.bytes + (capacity - initial e))) _ _ _
                (grow_excess-Gets capacity (initial e) r1 b1 s1
                  (λ m q. omega (arith, ready.room m q, enough, start, p1)))
                λ _ r2 b2 _.
                  Gets-then_grow (λ v' r' b'. v'.bytes ≡ ready.body) _ _ _
                    (read_body-Gets e.items (record { bytes = []; capacity = capacity }) r2 b2
                      ready.body ready.whole (omega (arith, ready.within, enough, whole))
                      (omega (arith, ready.within, ready.declared)))
                    λ v r3 b3 same. rw same (rw ready.valid tt))

    pub fetch_resource-Gets :
        (others : Others) (e : Exporter) (r : MemoryReservation) (b : MemoryBudget)
        → Respects Q others
        → IsReady rt Q base limit e
        → r.bytes ≡ base
        → Stays base limit Q r b
        → Gets (λ _ _ _. Unit {0}) (fetch_resource rt others (ok e) r b)
    unfolding fetch_resource
    fetch_resource-Gets others e r b keeps ready start s =
        fetch_body-Gets e r (resume others r b) ready start
          (resume-Stays base limit Q others r b keeps s)
