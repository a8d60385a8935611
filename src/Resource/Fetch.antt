-- ===== src/Resource/Fetch.antt =====
-- src/resource.rs: `fetch_resource` keeps the reservation equal to what is allocated, and reads a
-- body within the size limit.
use mathlib.Core.List.{append-nil, append_assoc}
use prometheus_ws_proxy_clie.Base.{
  All, ℕ, ◌+◌, ◌-◌, ◌≤◌, ◌<◌, ◌≡◌, refl, sym, ap, ◌∙◌, true, none, some, Result, ok, err, List, [],
  ◌∷◌, ◌++◌, Bytes, OwnedString, len, length, length-append, arith, ltb, if◌then◌else◌, min,
  saturating_add, usize_mod, Bool-cases, ltb→lt, Option-cases, inl, inr,
}
use prometheus_ws_proxy_clie.Error.{BoxError, allocation, utf8}
use prometheus_ws_proxy_clie.Memory.{MemoryBudget, MemoryReservation, max_body_size}
use prometheus_ws_proxy_clie.Resource.{
  Others, resume, Item, Exporter, Runtime, Vec, or_default, ◌then_grow◌, grow_excess, make_room,
  append_chunk, read_body, fetch_body, fetch_resource,
}
use prometheus_ws_proxy_clie.Resource.Grown.{
  Respects, After, After-map, After-then_grow, Covers, IsRuntime, Stays, body_of, grow_excess-After,
  resume-Stays, try_grow-After,
}

module _ (base limit : ℕ) (Q : ℕ → Type 0) where
  module _ (rt : Runtime) (laws : IsRuntime rt) where
    abbrev RoomFor : Vec → Bytes → ℕ → MemoryReservation → Type 0
    RoomFor v chunk capacity r = (r.bytes ≡ base + capacity) × (len v + length chunk ≤ capacity)

    -- The growth of the vector, once the least growth is reserved.
    reserve_exact-After :
        (v : Vec) (chunk : Bytes) (least : ℕ) (r : MemoryReservation) (b : MemoryBudget)
        → least ≡ len v + length chunk - v.capacity
        → v.capacity < len v + length chunk
        → Stays base limit Q r b
        → r.bytes ≡ base + v.capacity + least
        → After base limit Q
            (RoomFor v chunk)
            (elim (rt.try_reserve_exact v.capacity (len v) (length chunk)) [
              | none ↦ (err allocation, r, b)
              | some capacity ↦ grow_excess (capacity - v.capacity) least r b then_grow λ _ r2 b2.
                  (ok capacity, r2, b2)
            ])
    reserve_exact-After v chunk least r b exact more s p =
        elim (Option-cases (rt.try_reserve_exact v.capacity (len v) (length chunk))) [
          | inl e ↦ rw e s
          | inr (c, e) ↦ rw e (
              After-then_grow base limit Q _ _ _ _
                (grow_excess-After base limit Q (c - v.capacity) least r b s)
                λ _ r2 b2 s2 p2.
                  (s2, omega (arith, laws.reserved v.capacity (len v) (length chunk) c e)))
        ]

    make_room-After :
        (v : Vec) (chunk : Bytes) (r : MemoryReservation) (b : MemoryBudget)
        → len v + length chunk < usize_mod
        → Stays base limit Q r b
        → Covers base limit Q v r
        → After base limit Q (RoomFor v chunk) (make_room rt v chunk r b)
    unfolding make_room
    make_room-After v chunk r b small s c =
        let next_length = saturating_add (len v) (length chunk) in
        elim (Bool-cases (ltb v.capacity next_length)) [
          | inr enough ↦ rw enough (ground arith)
          | inl more ↦
              let grows : v.capacity < next_length = ltb→lt _ _ more in
              rw more (
                After-then_grow base limit Q _ _ _ _
                  (try_grow-After base limit Q r (next_length - v.capacity) b s)
                  λ _ r1 b1 s1 p1.
                    reserve_exact-After v chunk (next_length - v.capacity) r1 b1 (omega arith)
                      (omega arith) s1 (omega arith))
        ]

    -- The vector after a chunk.
    abbrev Appended : Vec → Bytes → Vec → MemoryReservation → Type 0
    Appended v chunk v' r = Covers base limit Q v' r × (v'.bytes ≡ v.bytes ++ chunk)

    append_chunk-After :
        (v : Vec) (chunk : Bytes) (r : MemoryReservation) (b : MemoryBudget)
        → Stays base limit Q r b
        → Covers base limit Q v r
        → After base limit Q (Appended v chunk) (append_chunk rt v chunk r b)
    unfolding append_chunk
    append_chunk-After v chunk r b s c =
        elim (Bool-cases (ltb max_body_size (saturating_add (len v) (length chunk)))) [
          | inl over ↦ rw over s
          | inr fits ↦
              let small : len v + length chunk ≤ max_body_size = ground arith in
              rw fits (
                After-then_grow base limit Q _ _ _ _ (make_room-After v chunk r b (omega arith) s c)
                  λ capacity r1 b1 s1 p1. (
                    s1,
                    (
                      (
                        p1.0,
                        omega (arith, length-append v.bytes chunk),
                        omega (arith, length-append v.bytes chunk),
                      ),
                      refl,
                    ),
                  ))
        ]

    -- The vector after the rest of a stream.
    abbrev Read : Vec → List Item → Vec → MemoryReservation → Type 0
    Read v items v' r =
        Covers base limit Q v' r
        × (rest : Bytes) × (body_of items ≡ some rest)
        × (v'.bytes ≡ v.bytes ++ rest)

    Read-cons :
        (item : Item) (items : List Item) (v v1 v2 : Vec) (chunk : Bytes)
        (r1 r2 : MemoryReservation)
        → item.chunk ≡ ok chunk
        → Appended v chunk v1 r1
        → Read v1 items v2 r2
        → Read v (item ∷ items) v2 r2
    Read-cons item items v v1 v2 chunk r1 r2 got (c1, e1) (c2, rest, all, e2) = (
      c2,
      chunk ++ rest,
      rw got (rw all refl),
      e2 ∙ ap (λ bs. bs ++ rest) e1 ∙ append_assoc v.bytes chunk rest,
    )

    abbrev pub ItemRespects : Item → Type 0
    ItemRespects item = Respects Q item.others

    -- One round of the loop, given the rounds after it.
    read_body_cons-After :
        (item : Item) (items : List Item) (answer : Result BoxError Bytes) (v : Vec)
        (r : MemoryReservation) (b : MemoryBudget)
        → item.chunk ≡ answer
        → Stays base limit Q r b
        → Covers base limit Q v r
        → ((v1 : Vec) (r1 : MemoryReservation) (b1 : MemoryBudget)
            → Stays base limit Q r1 b1
            → Covers base limit Q v1 r1
            → After base limit Q (Read v1 items) (read_body rt items v1 r1 b1))
        → After base limit Q (Read v (item ∷ items)) (elim answer [
          | err e ↦ (err e, r, b)
          | ok chunk ↦ append_chunk rt v chunk r b then_grow λ v1 r1 b1. read_body rt items v1 r1 b1
        ])
    read_body_cons-After item items (err e) v r b got s c later = s
    read_body_cons-After item items (ok chunk) v r b got s c later =
        After-then_grow base limit Q _ _ _ _ (append_chunk-After v chunk r b s c) λ v1 r1 b1 s1 p1.
          After-map base limit Q _ _ (read_body rt items v1 r1 b1)
            (λ v2 r2 p2. Read-cons item items v v1 v2 chunk r1 r2 got p1 p2)
            (later v1 r1 b1 s1 p1.0)

    read_body-After :
        (items : List Item) (v : Vec) (r : MemoryReservation) (b : MemoryBudget)
        → All ItemRespects items
        → Stays base limit Q r b
        → Covers base limit Q v r
        → After base limit Q (Read v items) (read_body rt items v r b)
    unfolding read_body
    read_body-After [] v r b keeps s c = (s, (c, [], refl, sym (append-nil v.bytes)))
    read_body-After (item ∷ items) v r b keeps s c =
        read_body_cons-After item items item.chunk v r (resume item.others r b) refl
          (resume-Stays base limit Q item.others r b keeps.0 s) c
          (λ v1 r1 b1 s1 c1. read_body-After items v1 r1 b1 keeps.1 s1 c1)

    -- A body is the concatenation of the chunks, is UTF-8, and is within the size limit; the
    -- reservation covers it and the uid exactly.
    abbrev pub Fetched : Exporter → ℕ × OwnedString → MemoryReservation → Type 0
    Fetched response (status, body) r =
        Covers base limit Q body r
        × (status ≡ response.status)
        × (body_of response.items ≡ some body.bytes)
        × (rt.is_utf8 body.bytes ≡ true)

    fetch_body-After :
        (response : Exporter) (r : MemoryReservation) (b : MemoryBudget)
        → All ItemRespects response.items
        → r.bytes ≡ base
        → Stays base limit Q r b
        → After base limit Q (Fetched response) (fetch_body rt response r b)
    unfolding fetch_body
    fetch_body-After response r b keeps start s =
        elim (Bool-cases (ltb max_body_size (or_default response.content_length))) [
          | inl over ↦ rw over s
          | inr fits ↦ rw fits (
              After-then_grow base limit Q _ _ _ _ (try_grow-After base limit Q r initial b s)
                λ _ r1 b1 s1 p1.
                  After-then_grow base limit Q _ _ _ _
                    (grow_excess-After base limit Q capacity initial r1 b1 s1)
                    λ _ r2 b2 s2 p2.
                      After-then_grow base limit Q _ _ _ _
                        (read_body-After response.items (record { bytes = []; capacity = capacity })
                          r2 b2 keeps s2
                          (omega (arith, laws.room initial), omega arith, omega arith))
                        λ v r3 b3 s3 p3. utf8-After v r3 b3 s3 p3)
        ]
      where
        initial : ℕ
        initial = min (or_default response.content_length) max_body_size

        capacity : ℕ
        capacity = rt.with_capacity initial

        utf8-After :
            (v : Vec) (r3 : MemoryReservation) (b3 : MemoryBudget)
            → Stays base limit Q r3 b3
            → Read (record { bytes = []; capacity = capacity }) response.items v r3
            → After base limit Q
                (Fetched response)
                (if rt.is_utf8 v.bytes then ok (response.status, v) else err utf8, r3, b3)
        utf8-After v r3 b3 s3 (c, rest, all, same) = elim (Bool-cases (rt.is_utf8 v.bytes)) [
          | inl valid ↦ rw valid (s3, (c, refl, all ∙ ap some (sym same), valid))
          | inr bad ↦ rw bad s3
        ]

    pub fetch_resource-After :
        (others : Others) (answer : Result BoxError Exporter) (r : MemoryReservation)
        (b : MemoryBudget)
        → Respects Q others
        → ((response : Exporter) → answer ≡ ok response → All ItemRespects response.items)
        → r.bytes ≡ base
        → Stays base limit Q r b
        → After base limit Q
            (λ a r'. (response : Exporter) × (answer ≡ ok response) × Fetched response a r')
            (fetch_resource rt others answer r b)
    unfolding fetch_resource
    fetch_resource-After others (err e) r b keeps items start s =
        resume-Stays base limit Q others r b keeps s
    fetch_resource-After others (ok response) r b keeps items start s =
        After-map base limit Q _ _ (fetch_body rt response r (resume others r b))
          (λ a r' p. (response, refl, p))
          (fetch_body-After response r (resume others r b) (items response refl) start
            (resume-Stays base limit Q others r b keeps s))
