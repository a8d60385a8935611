-- ===== src/Memory/Response.antt =====
-- src/memory.rs: `BudgetedResponse`, a response with the reservation for its uid and body.
use prometheus_ws_proxy_clie.Base.{
  ℕ, Option, none, some, Result, ok, err, OwnedString, empty_string, checked_add, usize_max,
}
use prometheus_ws_proxy_clie.Protocol.{ResourceResponse, new_response}
use prometheus_ws_proxy_clie.Memory.{
  MemoryBudget, MemoryBudgetError, MemoryReservation, try_reserve, shrink_to,
}

pub record BudgetedResponse : Type 0 where
  pub response : ResourceResponse
  pub retained : MemoryReservation

unfoldable pub retained_response_bytes : OwnedString → OwnedString → Result MemoryBudgetError ℕ
retained_response_bytes uid body = elim (checked_add uid.capacity body.capacity) [
  | none ↦ err (record { requested = usize_max; available = 0 })
  | some n ↦ ok n
]

-- `BudgetedResponse::try_new`
unfoldable pub try_new :
    OwnedString
    → ℕ
    → OwnedString
    → MemoryBudget
    → Result MemoryBudgetError BudgetedResponse × MemoryBudget
unfolding retained_response_bytes try_reserve
try_new uid status body b = elim (retained_response_bytes uid body) [
  | err e ↦ (err e, b)
  | ok bytes ↦
      let (reserved, b') = try_reserve bytes b in
      elim reserved [
        | err e ↦ (err e, b')
        | ok retained ↦
            (ok (record { response = new_response uid status body; retained = retained }), b')
      ]
]

-- Panics if the capacities overflow, or exceed the reservation.
unfoldable pub from_reserved :
    OwnedString
    → ℕ
    → OwnedString
    → MemoryReservation
    → MemoryBudget
    → Option (BudgetedResponse × MemoryBudget)
unfolding shrink_to
from_reserved uid status body retained b = elim (checked_add uid.capacity body.capacity) [
  | none ↦ none
  | some bytes ↦ elim (shrink_to retained bytes b) [
    | none ↦ none
    | some (r, b') ↦ some (record { response = new_response uid status body; retained = r }, b')
  ]
]

unfoldable pub downgrade_to_error :
    BudgetedResponse → MemoryBudget → Option (BudgetedResponse × MemoryBudget)
unfolding shrink_to
downgrade_to_error r b = elim (shrink_to r.retained r.response.uid.capacity b) [
  | none ↦ none
  | some (retained, b') ↦ some (
    record {
      response = record r.response { body = empty_string; status = 500 };
      retained = retained;
    },
    b',
  )
]

unfoldable pub retained_bytes : BudgetedResponse → ℕ
retained_bytes r = r.retained.bytes
