-- ===== src/Timing/Bounds.antt =====
-- src/worker.rs: the range and the growth of the delays and timeouts.
use prometheus_ws_proxy_clie.Base.{
  ℕ, zero, suc, ◌+◌, ◌-◌, ◌*◌, ◌^◌, ◌≤◌, ◌<◌, ◌≡◌, List, [], ◌∷◌, arith, min, max, All, subst, sym,
  refl, false, length,
}
use prometheus_ws_proxy_clie.Timing.{
  saturating_mul, reconnect_delay_unit, max_reconnect_delay, Duration, from_secs, duration_max,
  IsTransfer, IsScaling, scaled_timeout, min_bulk_throughput, reconnect_base, reconnect_delay, one,
  half, Round, run_worker, random_fraction, next_failures, stable_connection,
}

module _ (transfer : ℕ → Duration) (t : IsTransfer transfer) where
  open t use {mono, exact}

  -- A scaled timeout is never below its base and never above the cap, unless the base is; it does
  -- not shrink with the length; and where the transfer takes whole seconds it is the base with
  -- these added, within that range.
  pub scaled_timeout_bounds :
      (base m n s cap : ℕ)
      → base + from_secs s ≤ duration_max
      → m ≤ n
      → (base ≤ scaled_timeout transfer base m cap)
        × (scaled_timeout transfer base m cap ≤ max base cap)
        × (scaled_timeout transfer base m cap ≤ scaled_timeout transfer base n cap)
        × (scaled_timeout transfer base (s * min_bulk_throughput) cap
            ≡ max (min (base + from_secs s) cap) base)
  unfolding scaled_timeout
  scaled_timeout_bounds base m n s cap small le = rw (exact s) (omega (arith, mono m n le))

-- The base delay by its exponent.
abbrev base_at : ℕ → Duration
base_at e = min (saturating_mul reconnect_delay_unit (2 ^ e)) max_reconnect_delay

base_at_facts :
    (e : ℕ)
    → e ≤ 5
    → (seconds : ℕ) × (base_at e ≡ from_secs seconds) × (1 ≤ seconds) × (seconds ≤ 30)
base_at_facts zero h = (1, omega arith, omega arith, omega arith)
base_at_facts (suc zero) h = (2, omega arith, omega arith, omega arith)
base_at_facts (suc (suc zero)) h = (4, omega arith, omega arith, omega arith)
base_at_facts (suc (suc (suc zero))) h = (8, omega arith, omega arith, omega arith)
base_at_facts (suc (suc (suc (suc zero)))) h = (16, omega arith, omega arith, omega arith)
base_at_facts (suc (suc (suc (suc (suc zero))))) h = (30, omega arith, omega arith, omega arith)
base_at_facts (suc (suc (suc (suc (suc (suc e)))))) h = absurd (omega arith)

-- The first five failures are consecutive exponents.
base_doubles : (e : ℕ) → e ≤ 3 → base_at (min (suc (suc e) - 1) 5) ≡ 2 * base_at (min (suc e - 1) 5)
base_doubles zero h = omega arith
base_doubles (suc zero) h = omega arith
base_doubles (suc (suc zero)) h = omega arith
base_doubles (suc (suc (suc zero))) h = omega arith
base_doubles (suc (suc (suc (suc e)))) h = absurd (omega arith)

-- A connection that failed quickly, in a round that is not cancelled.
abbrev pub IsQuick : Round → Type 0
IsQuick r =
    (r.elapsed < stable_connection) × (r.cancelled_before ≡ false) × (r.cancelled_asleep ≡ false)

abbrev pub IsAscending : List Duration → Type 0
IsAscending [] = Unit
IsAscending (a ∷ []) = Unit
IsAscending (a ∷ b ∷ ds) = (a ≤ b) × IsAscending (b ∷ ds)

abbrev pub InRange : Duration → Type 0
InRange d = (from_secs 1 ≤ 2 * d) × (d ≤ from_secs 30)

-- The first delay, if there is one, is at most a second.
abbrev pub IsFirst : List Duration → Type 0
IsFirst [] = Unit
IsFirst (d ∷ ds) = d ≤ from_secs 1

module _ (mul_f64 : Duration → ℕ → Duration) (f : IsScaling mul_f64) where
  open f use {mono, whole, halved}

  abbrev base : ℕ → Duration
  base = reconnect_base mul_f64

  abbrev delay : ℕ → ℕ → Duration
  delay = reconnect_delay mul_f64

  -- The jitter keeps a delay between half of its base, which is whole seconds, and its base.
  reconnect_delay_jitter :
      (failures fraction : ℕ)
      → (base failures ≤ 2 * delay failures fraction) × (delay failures fraction ≤ base failures)
  unfolding reconnect_delay
  reconnect_delay_jitter failures fraction =
      let (seconds, same, _, small) = base_at_facts (min (failures - 1) 5) (omega arith) in
      rw same (
        omega (
          arith,
          halved seconds small,
          whole seconds small,
          mono seconds half (half + min fraction half) small (omega arith),
          mono seconds (half + min fraction half) one small (omega arith),
        ))

  -- A delay is at least half a second and at most thirty seconds, after any number of failures and
  -- with any jitter.
  pub reconnect_delay-InRange : (failures fraction : ℕ) → InRange (delay failures fraction)
  reconnect_delay-InRange failures fraction = omega (
    arith,
    reconnect_delay_jitter failures fraction,
    base_at_facts (min (failures - 1) 5) (omega arith),
  )

  -- Up to the fifth quick failure in a row the next delay is never shorter, whatever the jitter.
  reconnect_delay_grows : (e m n : ℕ) → e ≤ 3 → delay (suc e) m ≤ delay (suc (suc e)) n
  reconnect_delay_grows e m n h = omega (
    arith,
    reconnect_delay_jitter (suc e) m,
    reconnect_delay_jitter (suc (suc e)) n,
    base_doubles e h,
  )

  delays-InRange :
      (failures : ℕ) (rounds : List Round) → All InRange (run_worker mul_f64 failures rounds)
  unfolding run_worker
  delays-InRange failures [] = tt
  delays-InRange failures (r ∷ rounds) =
      let n = next_failures mul_f64 failures r.elapsed in
      ground (arith, reconnect_delay-InRange n (random_fraction r.uuid), delays-InRange n rounds)

  -- After no failure a delay is at most a second.
  first_delay : (fraction : ℕ) → delay 0 fraction ≤ from_secs 1
  first_delay fraction = omega (arith, reconnect_delay_jitter 0 fraction)

  -- Every delay that the worker sleeps is at least half a second and at most thirty, over any
  -- rounds. After a connection that has lasted for a minute, the delays do not depend on the
  -- failures before it, and the first of them is at most a second.
  pub run_worker-InRange :
      (failures : ℕ) (rounds : List Round) (n : ℕ) (r : Round) (later : List Round)
      → stable_connection ≤ r.elapsed
      → All InRange (run_worker mul_f64 failures rounds)
        × (run_worker mul_f64 n (r ∷ later) ≡ run_worker mul_f64 failures (r ∷ later))
        × IsFirst (run_worker mul_f64 n (r ∷ later))
  unfolding run_worker next_failures
  run_worker-InRange failures rounds n r later stable = (
    delays-InRange failures rounds,
    ground (arith, stable),
    ground (arith, stable, first_delay (random_fraction r.uuid)),
  )

  run_worker-quick :
      (failures : ℕ) (r : Round) (rounds : List Round)
      → failures < 5
      → IsQuick r
      → run_worker mul_f64 failures (r ∷ rounds)
        ≡ delay (suc failures) (random_fraction r.uuid) ∷ run_worker mul_f64 (suc failures) rounds
  unfolding run_worker
  run_worker-quick failures r rounds h q =
      let e : next_failures mul_f64 failures r.elapsed ≡ suc failures = ground arith in
      rw (e, q.1, q.2) refl

  run_worker_ascends_from :
      (failures : ℕ) (rounds : List Round)
      → failures + length rounds ≤ 5
      → All IsQuick rounds
      → IsAscending (run_worker mul_f64 failures rounds)
  run_worker_ascends_from failures [] h q = unfold run_worker in tt
  run_worker_ascends_from failures (r ∷ []) h q =
      rw (run_worker-quick failures r [] (omega arith) q.0) (unfold run_worker in tt)
  run_worker_ascends_from failures (r ∷ s ∷ rounds) h q =
      let later = run_worker-quick (suc failures) s rounds (omega arith) q.1.0 in
      let ih = run_worker_ascends_from (suc failures) (s ∷ rounds) (omega arith) q.1 in
      rw (run_worker-quick failures r (s ∷ rounds) (omega arith) q.0) (
        subst (λ ds. IsAscending (delay (suc failures) (random_fraction r.uuid) ∷ ds)) (sym later)
          (reconnect_delay_grows failures _ _ (omega arith), subst IsAscending later ih))

  -- While the first five connections fail quickly, each delay is at least as long as the one
  -- before it, whatever the jitter.
  pub run_worker_ascends :
      (rounds : List Round)
      → length rounds ≤ 5
      → All IsQuick rounds
      → IsAscending (run_worker mul_f64 0 rounds)
  run_worker_ascends rounds h q = run_worker_ascends_from 0 rounds (omega arith) q
