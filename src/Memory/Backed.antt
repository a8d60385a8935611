-- ===== src/Memory/Backed.antt =====
-- src/memory.rs: a response holds exactly the bytes of the allocations of its uid and body.
use prometheus_ws_proxy_clie.Base.{
  ℕ, ◌+◌, ◌-◌, ◌≤◌, ◌<◌, ◌≡◌, ◌⊎◌, none, some, ok, err, OwnedString, arith, usize_mod, usize_max,
  empty_string,
}
use prometheus_ws_proxy_clie.Protocol.{new_response}
use prometheus_ws_proxy_clie.Memory.{MemoryBudget, MemoryReservation}
use prometheus_ws_proxy_clie.Memory.Acquire.{
  IsSound, Holds, taken, released, budget_error, try_reserve_cases, shrink_to-released,
  shrink_to_panics,
}
use prometheus_ws_proxy_clie.Memory.Response.{
  BudgetedResponse, try_new, from_reserved, downgrade_to_error,
}

abbrev pub allocated : BudgetedResponse → ℕ
allocated r = r.response.uid.capacity + r.response.body.capacity

-- The reservation is exactly the two allocations, and is a part of the usage.
pub record IsBacked (r : BudgetedResponse) (b : MemoryBudget) : Type 0 where
  pub exact : r.retained.bytes ≡ allocated r
  pub holds : Holds r.retained.bytes b

abbrev pub backed : OwnedString → ℕ → OwnedString → BudgetedResponse
backed uid status body = record {
  response = new_response uid status body;
  retained = record { bytes = uid.capacity + body.capacity };
}

-- A response is made exactly if the allocations of its uid and body fit under the limit, and takes
-- that many bytes. If their sum overflows, the error asks for the largest `usize`; if they do not
-- fit, it asks for the sum. On an error the budget is unchanged.
pub try_new_cases :
    (uid : OwnedString) (status : ℕ) (body : OwnedString) (b : MemoryBudget)
    → IsSound b
    → let bytes = uid.capacity + body.capacity in
      ((b.used + bytes ≤ b.limit)
        × (try_new uid status body b ≡ (ok (backed uid status body), taken bytes b)))
      ⊎ ((b.limit < b.used + bytes)
          × (bytes < usize_mod)
          × (try_new uid status body b ≡ (err (budget_error bytes b), b)))
      ⊎ ((usize_mod ≤ bytes)
          × (try_new uid status body b
              ≡ (err (record { requested = usize_max; available = 0 }), b)))
unfolding try_new
try_new_cases uid status body b s =
    ground (arith, try_reserve_cases (uid.capacity + body.capacity) b s)

-- A response made from a larger reservation gives the rest back.
pub from_reserved-backed :
    (uid : OwnedString) (status : ℕ) (body : OwnedString) (r : MemoryReservation) (b : MemoryBudget)
    → Holds r.bytes b
    → uid.capacity + body.capacity ≤ r.bytes
    → from_reserved uid status body r b
      ≡ some (backed uid status body, released (r.bytes - (uid.capacity + body.capacity)) b)
unfolding from_reserved
from_reserved-backed uid status body r b h le =
    ground (arith, shrink_to-released r (uid.capacity + body.capacity) b h le)

pub from_reserved_panics :
    (uid : OwnedString) (status : ℕ) (body : OwnedString) (r : MemoryReservation) (b : MemoryBudget)
    → r.bytes < uid.capacity + body.capacity
    → from_reserved uid status body r b ≡ none
unfolding from_reserved
from_reserved_panics uid status body r b lt =
    ground (arith, shrink_to_panics r (uid.capacity + body.capacity) b)

abbrev pub downgraded : BudgetedResponse → BudgetedResponse
downgraded r = record {
  response = record r.response { body = empty_string; status = 500 };
  retained = record { bytes = r.response.uid.capacity };
}

-- A backed response is downgraded to status 500 with an empty body and the same uid, never with a
-- panic: exactly the allocation of the body is given back, and the response stays backed.
pub downgrade_to_error-IsBacked :
    (r : BudgetedResponse) (b : MemoryBudget)
    → IsBacked r b
    → (downgrade_to_error r b ≡ some (downgraded r, released r.response.body.capacity b))
      × IsBacked (downgraded r) (released r.response.body.capacity b)
unfolding downgrade_to_error
downgrade_to_error-IsBacked r b k =
    (ground (arith, shrink_to-released r.retained r.response.uid.capacity b k.holds), ground arith)
