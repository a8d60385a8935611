-- ===== src/Memory/Acquire.antt =====
-- src/memory.rs: each method of the budget, on every branch.
use prometheus_ws_proxy_clie.Base.{
  ℕ, ◌+◌, ◌-◌, ◌≤◌, ◌<◌, ◌≡◌, ◌⊎◌, none, some, ok, err, arith, max, usize_mod,
}
use prometheus_ws_proxy_clie.Memory.{
  MemoryBudget, MemoryBudgetError, MemoryReservation, new, try_acquire, try_reserve, try_grow,
  shrink_to, drop,
}

-- The counters are within the limit, and the limit is a `usize`.
pub record IsSound (b : MemoryBudget) : Type 0 where
  pub word : b.limit < usize_mod
  pub within : b.used ≤ b.high_watermark
  pub bounded : b.high_watermark ≤ b.limit

-- A holder has `held` bytes of a sound budget.
abbrev pub Holds : ℕ → MemoryBudget → Type 0
Holds held b = IsSound b × (held ≤ b.used)

-- From one budget to another of the same limit, `less` bytes have gone and `more` have come.
pub record Shifts (less more : ℕ) (b b' : MemoryBudget) : Type 0 where
  pub usage : b'.used + less ≡ b.used + more
  pub same_limit : b'.limit ≡ b.limit

abbrev pub taken : ℕ → MemoryBudget → MemoryBudget
taken n b = record b { used = b.used + n; high_watermark = max b.high_watermark (b.used + n) }

abbrev pub released : ℕ → MemoryBudget → MemoryBudget
released n b = record b { used = b.used - n }

abbrev pub budget_error : ℕ → MemoryBudget → MemoryBudgetError
budget_error n b = record { requested = n; available = b.limit - b.used }

pub new-IsSound : (limit : ℕ) → limit < usize_mod → IsSound (new limit)
unfolding new
new-IsSound limit h = ground arith

-- An acquisition succeeds exactly if the bytes fit under the limit: then it adds them to the usage
-- and raises the watermark to the new usage. Else it reports the request and the bytes still
-- available, and changes nothing.
pub try_acquire_cases :
    (n : ℕ) (b : MemoryBudget)
    → IsSound b
    → ((b.used + n ≤ b.limit) × (try_acquire n b ≡ (ok tt, taken n b)))
      ⊎ ((b.limit < b.used + n) × (try_acquire n b ≡ (err (budget_error n b), b)))
unfolding try_acquire
try_acquire_cases n b s = ground arith

pub try_reserve_cases :
    (n : ℕ) (b : MemoryBudget)
    → IsSound b
    → ((b.used + n ≤ b.limit) × (try_reserve n b ≡ (ok (record { bytes = n }), taken n b)))
      ⊎ ((b.limit < b.used + n) × (try_reserve n b ≡ (err (budget_error n b), b)))
unfolding try_reserve
try_reserve_cases n b s = ground (arith, try_acquire_cases n b s)

pub try_grow_cases :
    (r : MemoryReservation) (n : ℕ) (b : MemoryBudget)
    → Holds r.bytes b
    → ((b.used + n ≤ b.limit)
        × (try_grow r n b ≡ (ok tt, record { bytes = r.bytes + n }, taken n b)))
      ⊎ ((b.limit < b.used + n) × (try_grow r n b ≡ (err (budget_error n b), r, b)))
unfolding try_grow
try_grow_cases r n b s = ground (arith, try_acquire_cases n b s.0)

pub shrink_to-released :
    (r : MemoryReservation) (n : ℕ) (b : MemoryBudget)
    → Holds r.bytes b
    → n ≤ r.bytes
    → shrink_to r n b ≡ some (record { bytes = n }, released (r.bytes - n) b)
unfolding shrink_to
shrink_to-released r n b s h = ground arith

pub shrink_to_panics :
    (r : MemoryReservation) (n : ℕ) (b : MemoryBudget) → r.bytes < n → shrink_to r n b ≡ none
unfolding shrink_to
shrink_to_panics r n b h = ground arith

pub drop-released :
    (r : MemoryReservation) (b : MemoryBudget) → Holds r.bytes b → drop r b ≡ released r.bytes b
unfolding drop
drop-released r b s = ground arith

pub drop-Shifts :
    (r : MemoryReservation) (b : MemoryBudget)
    → Holds r.bytes b
    → IsSound (drop r b) × Shifts r.bytes 0 b (drop r b)
drop-Shifts r b h =
    let freed = drop-released r b h in (ground (arith, freed, h), ground (arith, freed, h))

-- A reservation that is dropped at once gives every byte back.
pub drop-try_reserve :
    (n : ℕ) (b : MemoryBudget) (r : MemoryReservation) (b' : MemoryBudget)
    → IsSound b
    → try_reserve n b ≡ (ok r, b')
    → (drop r b').used ≡ b.used
unfolding drop
drop-try_reserve n b r b' s e = ground (arith, try_reserve_cases n b s)
