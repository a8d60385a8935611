-- ===== src/Timing/Tests.antt =====
-- The properties of the delays and timeouts at concrete inputs.
use prometheus_ws_proxy_clie.Base.{ℕ, ◌+◌, ◌*◌, ◌/◌, ◌≤◌, ◌≡◌, false, [], ◌∷◌, arith, min, max, All}
use prometheus_ws_proxy_clie.Timing.{
  Duration, from_secs, IsTransfer, IsScaling, one, scaled_timeout, min_bulk_throughput, Round,
  run_worker, max_bulk_send_timeout,
}
use prometheus_ws_proxy_clie.Timing.Bounds.{
  InRange, IsFirst, IsAscending, scaled_timeout_bounds, run_worker-InRange, run_worker_ascends,
}

-- Exact arithmetic, rounded down to nanoseconds.
abbrev pub exact_transfer : ℕ → Duration
exact_transfer n = n * 1_000_000_000 / min_bulk_throughput

pub exact_transfer-IsTransfer : IsTransfer exact_transfer
exact_transfer-IsTransfer = record { mono = λ m n h. omega arith; exact = λ s. omega arith }

abbrev exact_mul : Duration → ℕ → Duration
exact_mul d n = d * n / one

mul_mono : (d m n : ℕ) → m ≤ n → d * m ≤ d * n
mul_mono d m n h = grind arith

exact_mul-IsScaling : IsScaling exact_mul
exact_mul-IsScaling = record {
  mono = λ d m n small h. omega (arith, mul_mono (from_secs d) m n h);
  whole = λ d small. omega arith;
  halved = λ d small. omega arith;
}

scaled_timeout_bounds_example :
    (from_secs 5 ≤ scaled_timeout exact_transfer (from_secs 5) 100 max_bulk_send_timeout)
    × (scaled_timeout exact_transfer (from_secs 5) 100 max_bulk_send_timeout
        ≤ max (from_secs 5) max_bulk_send_timeout)
    × (scaled_timeout exact_transfer (from_secs 5) 100 max_bulk_send_timeout
        ≤ scaled_timeout exact_transfer (from_secs 5) 655360 max_bulk_send_timeout)
    × (scaled_timeout exact_transfer (from_secs 5) (10 * min_bulk_throughput) max_bulk_send_timeout
        ≡ max (min (from_secs 5 + from_secs 10) max_bulk_send_timeout) (from_secs 5))
scaled_timeout_bounds_example =
    scaled_timeout_bounds exact_transfer exact_transfer-IsTransfer (from_secs 5) 100 655360 10
      max_bulk_send_timeout (omega arith) (omega arith)

abbrev quick_round : Round
quick_round = record {
  cancelled_before = false;
  elapsed = from_secs 2;
  uuid = 7;
  cancelled_asleep = false;
}

abbrev stable_round : Round
stable_round = record quick_round { elapsed = from_secs 90 }

run_worker-InRange_example :
    All InRange (run_worker exact_mul 0 (quick_round ∷ stable_round ∷ quick_round ∷ []))
    × (run_worker exact_mul 4 (stable_round ∷ quick_round ∷ [])
        ≡ run_worker exact_mul 0 (stable_round ∷ quick_round ∷ []))
    × IsFirst (run_worker exact_mul 4 (stable_round ∷ quick_round ∷ []))
run_worker-InRange_example =
    run_worker-InRange exact_mul exact_mul-IsScaling 0
      (quick_round ∷ stable_round ∷ quick_round ∷ []) 4 stable_round (quick_round ∷ [])
      (omega arith)

run_worker_ascends_example :
    IsAscending (run_worker exact_mul 0 (quick_round ∷ quick_round ∷ quick_round ∷ []))
run_worker_ascends_example =
    run_worker_ascends exact_mul exact_mul-IsScaling (quick_round ∷ quick_round ∷ quick_round ∷ [])
      (omega arith) (ground arith)
