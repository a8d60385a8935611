-- ===== src/Memory.antt =====
-- src/memory.rs: the process-wide budget for retained response bytes, its reservations, and the
-- responses that hold one. The budget is shared, so each method takes its state and returns the
-- new one; `Drop` is the function `drop`. `none` stands for a panic.
pub mod Response
pub mod Acquire
pub mod Backed
pub mod Ledger
pub mod Atomic
pub mod Pool
pub mod Tests
use prometheus_ws_proxy_clie.Base.{
  ℕ, ◌+◌, ◌-◌, ◌*◌, Bool, Option, none, some, Result, ok, err, leb, ltb, if◌then◌else◌, max,
  checked_add, wrapping_add, wrapping_sub,
}

abbrev pub max_body_size : ℕ
max_body_size = 64 * 1024 * 1024

abbrev pub max_ws_message_size : ℕ
max_ws_message_size = 64 * 1024 * 1024

abbrev pub default_memory_budget_size : ℕ
default_memory_budget_size = 4 * max_body_size

-- The counters of `MemoryBudgetInner`.
pub record MemoryBudget : Type 0 where
  pub limit : ℕ
  pub used : ℕ
  pub high_watermark : ℕ

pub record MemoryBudgetError : Type 0 where
  pub requested : ℕ
  pub available : ℕ

-- `MemoryBudget::new`
unfoldable pub new : ℕ → MemoryBudget
new limit = record { limit = limit; used = 0; high_watermark = 0 }

-- The closure of `fetch_update`: the next value of `used`, unless it overflows or passes the limit.
abbrev pub next_used : MemoryBudget → ℕ → Option ℕ
next_used b bytes = elim (checked_add b.used bytes) [
  | none ↦ none
  | some next ↦ if leb next b.limit then some next else none
]

unfoldable pub try_acquire : ℕ → MemoryBudget → Result MemoryBudgetError (Unit {0}) × MemoryBudget
try_acquire bytes b = elim (next_used b bytes) [
  | none ↦ (err (record { requested = bytes; available = b.limit - b.used }), b)
  | some next ↦ (
    ok tt,
    record b { used = next; high_watermark = max b.high_watermark (wrapping_add b.used bytes) },
  )
]

-- The bytes that a holder has; its handle on the budget is the state that each call takes.
pub record MemoryReservation : Type 0 where
  pub bytes : ℕ

unfoldable pub try_reserve :
    ℕ → MemoryBudget → Result MemoryBudgetError MemoryReservation × MemoryBudget
unfolding try_acquire
try_reserve bytes b =
    let (acquired, b') = try_acquire bytes b in
    elim acquired [ ok _ ↦ (ok (record { bytes = bytes }), b') | err e ↦ (err e, b') ]

unfoldable pub try_grow :
    MemoryReservation
    → ℕ
    → MemoryBudget
    → Result MemoryBudgetError (Unit {0}) × MemoryReservation × MemoryBudget
unfolding try_acquire
try_grow r additional b =
    let (acquired, b') = try_acquire additional b in
    elim acquired [
      | ok _ ↦ (ok tt, record { bytes = wrapping_add r.bytes additional }, b')
      | err e ↦ (err e, r, b')
    ]

-- `shrink_to` panics where it would grow the reservation.
unfoldable pub shrink_to :
    MemoryReservation → ℕ → MemoryBudget → Option (MemoryReservation × MemoryBudget)
shrink_to r bytes b =
    if leb bytes r.bytes
    then some (record { bytes = bytes }, record b { used = wrapping_sub b.used (r.bytes - bytes) })
    else none

-- `Drop for MemoryReservation`
unfoldable pub drop : MemoryReservation → MemoryBudget → MemoryBudget
drop r b = record b { used = wrapping_sub b.used r.bytes }
