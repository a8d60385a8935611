-- ===== src/Memory/Ledger.antt =====
-- src/memory.rs: a budget with all the reservations on it, over any sequence of calls.
use prometheus_ws_proxy_clie.Base.{
  ℕ, zero, suc, ◌+◌, ◌≤◌, ◌<◌, ◌≡◌, refl, Option, none, some, List, [], ◌∷◌, ok, err, arith, total,
  usize_mod, Option-cases, inl, inr, Bool-cases, leb,
}
use prometheus_ws_proxy_clie.Memory.{
  MemoryBudget, MemoryReservation, new, try_reserve, try_grow, shrink_to, drop,
}
use prometheus_ws_proxy_clie.Memory.Acquire.{
  IsSound, new-IsSound, try_reserve_cases, try_grow_cases, shrink_to-released, shrink_to_panics,
  drop-released,
}

-- The live reservations, each known to its owner by its place.
pub record Ledger : Type 0 where
  pub budget : MemoryBudget
  pub live : List MemoryReservation

pub data Call : Type 0 where
  reserve : ℕ → Call
  grow shrink : ℕ → ℕ → Call
  release : ℕ → Call

abbrev get_elem? : List MemoryReservation → ℕ → Option MemoryReservation
get_elem? [] i = none
get_elem? (x ∷ xs) zero = some x
get_elem? (x ∷ xs) (suc i) = get_elem? xs i

abbrev set : List MemoryReservation → ℕ → MemoryReservation → List MemoryReservation
set [] i v = []
set (x ∷ xs) zero v = v ∷ xs
set (x ∷ xs) (suc i) v = x ∷ set xs i v

abbrev remove : List MemoryReservation → ℕ → List MemoryReservation
remove [] i = []
remove (x ∷ xs) zero = xs
remove (x ∷ xs) (suc i) = x ∷ remove xs i

abbrev pub held : List MemoryReservation → ℕ
held = total λ r. r.bytes

held-set :
    (rs : List MemoryReservation) (i : ℕ) (r v : MemoryReservation)
    → get_elem? rs i ≡ some r
    → held (set rs i v) + r.bytes ≡ held rs + v.bytes
held-set [] i r v e = ground arith
held-set (x ∷ rs) zero r v e = ground arith
held-set (x ∷ rs) (suc i) r v e = ground (arith, held-set rs i r v e)

held-remove :
    (rs : List MemoryReservation) (i : ℕ) (r : MemoryReservation)
    → get_elem? rs i ≡ some r
    → held (remove rs i) + r.bytes ≡ held rs
held-remove [] i r e = ground arith
held-remove (x ∷ rs) zero r e = ground arith
held-remove (x ∷ rs) (suc i) r e = ground (arith, held-remove rs i r e)

-- A new reservation is held if there is one.
reserve_at : Ledger → ℕ → Ledger
reserve_at l n =
    let (reserved, b) = try_reserve n l.budget in
    elim reserved [
      | ok r ↦ record { budget = b; live = r ∷ l.live }
      | err _ ↦ record { budget = b; live = l.live }
    ]

grow_at : Ledger → ℕ → ℕ → MemoryReservation → Ledger
grow_at l i n r =
    let (_, r', b) = try_grow r n l.budget in record { budget = b; live = set l.live i r' }

-- A panic of `shrink_to` unwinds through the owner, which drops the reservation.
shrink_at : Ledger → ℕ → ℕ → MemoryReservation → Ledger
shrink_at l i n r = elim (shrink_to r n l.budget) [
  | some (r', b) ↦ record { budget = b; live = set l.live i r' }
  | none ↦ record { budget = drop r l.budget; live = remove l.live i }
]

drop_at : Ledger → ℕ → MemoryReservation → Ledger
drop_at l i r = record { budget = drop r l.budget; live = remove l.live i }

-- A call on a place that holds no reservation cannot be written, and does nothing here.
at : Ledger → ℕ → (MemoryReservation → Ledger) → Ledger
at l i f = elim (get_elem? l.live i) [ none ↦ l | some r ↦ f r ]

pub step : Ledger → Call → Ledger
step l (reserve n) = reserve_at l n
step l (grow i n) = at l i (grow_at l i n)
step l (shrink i n) = at l i (shrink_at l i n)
step l (release i) = at l i (drop_at l i)

pub run : Ledger → List Call → Ledger
run l [] = l
run l (c ∷ cs) = run (step l c) cs

pub start : ℕ → Ledger
start limit = record { budget = new limit; live = [] }

-- The usage is exactly the bytes of the live reservations, within the limit.
pub record IsAccounted (l : Ledger) : Type 0 where
  pub sound : IsSound l.budget
  pub exact : l.budget.used ≡ held l.live

start-IsAccounted : (limit : ℕ) → limit < usize_mod → IsAccounted (start limit)
unfolding start new
start-IsAccounted limit h = record { sound = new-IsSound limit h; exact = refl }

reserve_at-IsAccounted : (l : Ledger) (n : ℕ) → IsAccounted l → IsAccounted (reserve_at l n)
unfolding reserve_at
reserve_at-IsAccounted l n a = ground (arith, try_reserve_cases n l.budget a.sound)

module _ (l : Ledger) (i : ℕ) (r : MemoryReservation) (e : get_elem? l.live i ≡ some r)
    (a : IsAccounted l) where
  held_bytes : r.bytes ≤ l.budget.used
  held_bytes = omega (arith, held-remove l.live i r e)

  grow_at-IsAccounted : (n : ℕ) → IsAccounted (grow_at l i n r)
  unfolding grow_at
  grow_at-IsAccounted n = ground (
    arith,
    try_grow_cases r n l.budget (a.sound, held_bytes),
    held-set l.live i r (record { bytes = r.bytes + n }) e,
    held-set l.live i r r e,
  )

  drop_at-IsAccounted : IsAccounted (drop_at l i r)
  unfolding drop_at
  drop_at-IsAccounted =
      ground (arith, drop-released r l.budget (a.sound, held_bytes), held-remove l.live i r e)

  shrink_at-IsAccounted : (n : ℕ) → IsAccounted (shrink_at l i n r)
  unfolding shrink_at
  shrink_at-IsAccounted n = elim (Bool-cases (leb n r.bytes)) [
    | inl fits ↦ ground (
      arith,
      shrink_to-released r n l.budget (a.sound, held_bytes),
      held-set l.live i r (record { bytes = n }) e,
    )
    | inr over ↦ ground (
      arith,
      shrink_to_panics r n l.budget,
      drop-released r l.budget (a.sound, held_bytes),
      held-remove l.live i r e,
    )
  ]

at-IsAccounted :
    (l : Ledger) (i : ℕ) (f : MemoryReservation → Ledger)
    → IsAccounted l
    → ((r : MemoryReservation) → get_elem? l.live i ≡ some r → IsAccounted (f r))
    → IsAccounted (at l i f)
unfolding at
at-IsAccounted l i f a h = elim (Option-cases (get_elem? l.live i)) [
  | inl e ↦ rw (e, at) a
  | inr (r, e) ↦ rw (e, at) (h r e)
]

pub step-IsAccounted : (l : Ledger) (c : Call) → IsAccounted l → IsAccounted (step l c)
unfolding step
step-IsAccounted l (reserve n) a = reserve_at-IsAccounted l n a
step-IsAccounted l (grow i n) a =
    at-IsAccounted l i (grow_at l i n) a (λ r e. grow_at-IsAccounted l i r e a n)
step-IsAccounted l (shrink i n) a =
    at-IsAccounted l i (shrink_at l i n) a (λ r e. shrink_at-IsAccounted l i r e a n)
step-IsAccounted l (release i) a =
    at-IsAccounted l i (drop_at l i) a (λ r e. drop_at-IsAccounted l i r e a)

run-IsAccounted : (l : Ledger) (cs : List Call) → IsAccounted l → IsAccounted (run l cs)
unfolding run
run-IsAccounted l [] a = a
run-IsAccounted l (c ∷ cs) a = run-IsAccounted (step l c) cs (step-IsAccounted l c a)

-- After any sequence of reservations, growths, shrinkings (those that panic included) and drops
-- on a new budget, the usage is exactly the sum of the live reservations, it is at most the
-- watermark, and the watermark is at most the limit.
pub run-start-IsAccounted :
    (limit : ℕ) (cs : List Call) → limit < usize_mod → IsAccounted (run (start limit) cs)
run-start-IsAccounted limit cs h = run-IsAccounted (start limit) cs (start-IsAccounted limit h)
