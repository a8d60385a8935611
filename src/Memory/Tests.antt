-- ===== src/Memory/Tests.antt =====
-- The properties of the memory budget at concrete inputs.
use prometheus_ws_proxy_clie.Base.{◌≡◌, refl, some, [], ◌∷◌, List, codes, OwnedString, arith}
use prometheus_ws_proxy_clie.Memory.{MemoryBudget, new}
use prometheus_ws_proxy_clie.Memory.Acquire.{released}
use prometheus_ws_proxy_clie.Memory.Response.{downgrade_to_error}
use prometheus_ws_proxy_clie.Memory.Backed.{
  IsBacked, backed, downgraded, downgrade_to_error-IsBacked,
}
use prometheus_ws_proxy_clie.Memory.Ledger.{
  Call, reserve, grow, shrink, release, IsAccounted, run, start, run-start-IsAccounted,
}
use prometheus_ws_proxy_clie.Memory.Atomic.{
  Machine, Reach, here, next, acquire, IsBalanced, fresh, Reach-fresh-IsBalanced,
}
use prometheus_ws_proxy_clie.Memory.Pool.{Moves, labels, pool_of, Reach-fresh-Moves}

-- 6 of 10 bytes are in use.
abbrev pub six_of_ten : MemoryBudget
six_of_ten = record { limit = 10; used = 6; high_watermark = 8 }

abbrev pub uid_of_three : OwnedString
uid_of_three = record { bytes = codes "one"; capacity = 3 }

abbrev pub body_of_two : OwnedString
body_of_two = record { bytes = codes "ok"; capacity = 2 }

-- The calls of the source's first test.
abbrev shared_calls : List Call
shared_calls =
    reserve 6 ∷ reserve 5 ∷ reserve 4 ∷ grow 0 1 ∷ shrink 0 2 ∷ release 1 ∷ shrink 0 3 ∷ []

run-start-IsAccounted_example : IsAccounted (run (start 10) shared_calls)
run-start-IsAccounted_example = run-start-IsAccounted 10 shared_calls (omega arith)

abbrev one_acquired : Machine
one_acquired = record {
  budget = record { limit = 10; used = 4; high_watermark = 0 };
  live = [];
  acquired = 4 ∷ [];
  owed = [];
  marks = 4 ∷ [];
}

one_acquired-Reach : Reach (fresh 10) one_acquired
unfolding new
one_acquired-Reach = next here (acquire 4 4 refl refl)

Reach-fresh-IsBalanced_example : IsBalanced one_acquired
Reach-fresh-IsBalanced_example = Reach-fresh-IsBalanced 10 (omega arith) one_acquired-Reach

Reach-fresh-Moves_example :
    Moves (record { limit = 10; gone = 0 }) (labels one_acquired-Reach) (pool_of one_acquired)
Reach-fresh-Moves_example = Reach-fresh-Moves 10 (omega arith) one_acquired-Reach

downgrade_to_error-IsBacked_example :
    (downgrade_to_error (backed uid_of_three 200 body_of_two) six_of_ten
      ≡ some (downgraded (backed uid_of_three 200 body_of_two), released 2 six_of_ten))
    × IsBacked (downgraded (backed uid_of_three 200 body_of_two)) (released 2 six_of_ten)
downgrade_to_error-IsBacked_example =
    downgrade_to_error-IsBacked (backed uid_of_three 200 body_of_two) six_of_ten (omega arith)
