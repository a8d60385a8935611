-- ===== src/Resource/Grown.antt =====
-- src/resource.rs: a reservation that grows with what is allocated.
use prometheus_ws_proxy_clie.Base.{
  min, subst, refl, ℕ, ◌+◌, ◌-◌, ◌≤◌, ◌≡◌, Option, none, some, ok, err, List, [], ◌∷◌, ◌++◌, Bytes,
  IsAllocated, len, arith, ltb, Bool-cases, inl, inr,
}
use prometheus_ws_proxy_clie.Memory.{MemoryBudget, MemoryReservation, try_grow, max_body_size}
use prometheus_ws_proxy_clie.Memory.Acquire.{Holds, taken, try_grow_cases}
use prometheus_ws_proxy_clie.Resource.{
  Others, resume, Item, Runtime, Vec, Growing, grown, ◌then_grow◌, grow_excess,
}

-- What the standard library documents of its allocations.
pub record IsRuntime (rt : Runtime) : Type 0 where
  pub room : (n : ℕ) → n ≤ rt.with_capacity n
  pub reserved :
      (capacity n additional c : ℕ)
      → rt.try_reserve_exact capacity n additional ≡ some c
      → (n + additional ≤ c) × (capacity ≤ c)
  pub copied : (bs : Bytes) → ((rt.to_owned bs).bytes ≡ bs) × IsAllocated (rt.to_owned bs)

-- The chunks of a stream that has no error, in order.
abbrev pub body_of : List Item → Option Bytes
body_of [] = some []
body_of (item ∷ items) = elim item.chunk [
  | err _ ↦ none
  | ok chunk ↦ elim (body_of items) [ none ↦ none | some rest ↦ some (chunk ++ rest) ]
]

-- What the others do keeps a predicate of the bytes that they hold, as far as there is room for these.
abbrev pub Respects : (ℕ → Type 0) → Others → Type 0
Respects Q others = (n room : ℕ) → n ≤ room → Q n → Q (min (others n) room)

-- Some bytes of the reservation are not for the body: those of the uid. `Q` holds of the others' bytes.
module _ (base limit : ℕ) (Q : ℕ → Type 0) where
  abbrev pub Stays : MemoryReservation → MemoryBudget → Type 0
  Stays r b = Holds r.bytes b × (base ≤ r.bytes) × (b.limit ≡ limit) × Q (b.used - r.bytes)

  -- A reservation that changes together with the usage leaves the others their bytes.
  pub Stays-shifted :
      (r r' : MemoryReservation) (b b' : MemoryBudget)
      → Stays r b
      → Holds r'.bytes b'
      → base ≤ r'.bytes
      → b'.limit ≡ b.limit
      → b'.used + r.bytes ≡ b.used + r'.bytes
      → Stays r' b'
  Stays-shifted r r' b b' s h le same moved =
      let others : b.used - r.bytes ≡ b'.used - r'.bytes = omega (arith, moved, s.0.1, h.1) in
      (h, le, omega (arith, same, s.2), subst Q others s.3)

  -- A step keeps this, and establishes `P` if it succeeds.
  abbrev pub After : {A : Type 0} → (A → MemoryReservation → Type 0) → Growing A → Type 0
  After P (ok a, r, b) = Stays r b × P a r
  After P (err _, r, b) = Stays r b

  pub After-then_grow :
      {A B : Type 0} (P : A → MemoryReservation → Type 0) (Q : B → MemoryReservation → Type 0)
      (m : Growing A) (f : A → MemoryReservation → MemoryBudget → Growing B)
      → After P m
      → ((a : A) (r : MemoryReservation) (b : MemoryBudget) → Stays r b → P a r → After Q (f a r b))
      → After Q (m then_grow f)
  After-then_grow P Q (ok a, r, b) f h k = k a r b h.0 h.1
  After-then_grow P Q (err e, r, b) f h k = h

  pub After-map :
      {A : Type 0} (P Q : A → MemoryReservation → Type 0) (m : Growing A)
      → ((a : A) (r : MemoryReservation) → P a r → Q a r)
      → After P m
      → After Q m
  After-map P Q (ok a, r, b) k h = (h.0, k a r h.1)
  After-map P Q (err e, r, b) k h = h

  -- The reservation covers the uid and the vector, and the vector's contents fit.
  abbrev pub Covers : Vec → MemoryReservation → Type 0
  Covers v r = (r.bytes ≡ base + v.capacity) × IsAllocated v × (len v ≤ max_body_size)

  pub resume-Stays :
      (others : Others) (r : MemoryReservation) (b : MemoryBudget)
      → Respects Q others
      → Stays r b
      → Stays r (resume others r b)
  resume-Stays others r b keeps s =
      let share : ℕ = min (others (b.used - r.bytes)) (b.limit - r.bytes) in
      let same : share ≡ r.bytes + share - r.bytes = omega arith in
      let kept : Q share =
        keeps (b.used - r.bytes) (b.limit - r.bytes) (omega (arith, s.0.0.within, s.0.0.bounded))
          s.3 in
      (
        (omega (arith, s.0.0.word, s.0.0.within, s.0.0.bounded, s.0.1), omega arith),
        s.1,
        s.2,
        subst Q same kept,
      )

  pub try_grow-After :
      (r : MemoryReservation) (n : ℕ) (b : MemoryBudget)
      → Stays r b
      → After (λ _ r'. r'.bytes ≡ r.bytes + n) (grown (try_grow r n b))
  try_grow-After r n b s = elim (try_grow_cases r n b s.0) [
    | inl (room, grew) ↦ rw grew (
      Stays-shifted r (record { bytes = r.bytes + n }) b (taken n b) s
          (
            omega (arith, room, s.0.0.word, s.0.0.within, s.0.0.bounded, s.0.1),
            omega (arith, s.0.1),
          )
          (omega (arith, s.1)) refl (omega arith),
      refl,
    )
    | inr (full, refused) ↦ rw refused s
  ]

  pub grow_excess-After :
      (actual expected : ℕ) (r : MemoryReservation) (b : MemoryBudget)
      → Stays r b
      → After (λ _ r'. r'.bytes ≡ r.bytes + (actual - expected)) (grow_excess actual expected r b)
  grow_excess-After actual expected r b s = elim (Bool-cases (ltb expected actual)) [
    | inl more ↦ rw more (try_grow-After r (actual - expected) b s)
    | inr same ↦ rw same (s, ground (arith, same))
  ]
