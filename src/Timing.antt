-- ===== src/Timing.antt =====
-- src/worker.rs: the delays and timeouts. A `Duration` is a number of nanoseconds. The two floating
-- point operations are parameters: `transfer`, the time for a number of bytes at the least
-- throughput, and `mul_f64`, the product with a factor, which is a number of 2^-49ths.
pub mod Bounds
pub mod Tests
use prometheus_ws_proxy_clie.Base.{
  ℕ, ◌+◌, ◌-◌, ◌*◌, ◌/◌, ◌%◌, ◌^◌, ◌≤◌, ◌<◌, ◌≡◌, Bool, true, false, List, [], ◌∷◌, leb, ltb,
  if◌then◌else◌, min, max, not,
}

abbrev pub Duration : Type 0
Duration = ℕ

abbrev pub from_secs : ℕ → Duration
from_secs s = s * 1_000_000_000

abbrev pub duration_max : Duration
duration_max = 2 ^ 64 * 1_000_000_000 - 1

-- `Duration::saturating_add` and `saturating_mul`
abbrev pub saturating_add : Duration → Duration → Duration
saturating_add a b = min (a + b) duration_max

abbrev pub saturating_mul : Duration → ℕ → Duration
saturating_mul a n = min (a * n) duration_max

abbrev pub connect_timeout : Duration
connect_timeout = from_secs 10

abbrev pub reconnect_delay_unit : Duration
reconnect_delay_unit = from_secs 1

abbrev pub max_reconnect_delay : Duration
max_reconnect_delay = from_secs 30

abbrev pub stable_connection : Duration
stable_connection = from_secs 60

abbrev pub max_bulk_send_timeout : Duration
max_bulk_send_timeout = from_secs 45

abbrev pub max_post_timeout : Duration
max_post_timeout = from_secs 60

-- Bytes per second.
abbrev pub min_bulk_throughput : ℕ
min_bulk_throughput = 64 * 1024

pub record Timing : Type 0 where
  pub heartbeat_interval : Duration
  pub heartbeat_timeout : Duration
  pub send_timeout : Duration
  pub post_timeout : Duration
  pub close_timeout : Duration

abbrev pub default_timing : Timing
default_timing = record {
  heartbeat_interval = from_secs 20;
  heartbeat_timeout = from_secs 45;
  send_timeout = from_secs 5;
  post_timeout = from_secs 10;
  close_timeout = from_secs 1;
}

-- `Duration::from_secs_f64(length as f64 / MIN_BULK_THROUGHPUT)`: it never shrinks with the length,
-- and it is exact where the time is a whole number of seconds.
pub record IsTransfer (transfer : ℕ → Duration) : Type 0 where
  pub mono : (m n : ℕ) → m ≤ n → transfer m ≤ transfer n
  pub exact : (s : ℕ) → transfer (s * min_bulk_throughput) ≡ from_secs s

module _ (transfer : ℕ → Duration) where
  unfoldable pub scaled_timeout : Duration → ℕ → Duration → Duration
  scaled_timeout base length cap = max (min (saturating_add base (transfer length)) cap) base

  unfoldable pub bulk_send_timeout : Duration → ℕ → Duration
  unfolding scaled_timeout
  bulk_send_timeout send_timeout length = scaled_timeout send_timeout length max_bulk_send_timeout

  unfoldable pub post_timeout : Duration → ℕ → Duration
  unfolding scaled_timeout
  post_timeout base length = scaled_timeout base length max_post_timeout

-- Factors are in 2^-49ths.
abbrev pub one : ℕ
one = 2 ^ 49

abbrev pub half : ℕ
half = 2 ^ 48

-- `Duration::mul_f64` at whole seconds, up to thirty: it never shrinks with the factor, and since a
-- float holds these seconds and half seconds exactly, it is exact at 1 and 1/2.
pub record IsScaling (mul_f64 : Duration → ℕ → Duration) : Type 0 where
  pub mono :
      (seconds m n : ℕ)
      → seconds ≤ 30
      → m ≤ n
      → mul_f64 (from_secs seconds) m ≤ mul_f64 (from_secs seconds) n
  pub whole : (seconds : ℕ) → seconds ≤ 30 → mul_f64 (from_secs seconds) one ≡ from_secs seconds
  pub halved :
      (seconds : ℕ) → seconds ≤ 30 → mul_f64 (from_secs seconds) half * 2 ≡ from_secs seconds

-- The 48 leading bits of a v4 UUID: a fraction of 2^48.
abbrev pub random_fraction : ℕ → ℕ
random_fraction uuid = uuid % 2 ^ 128 / 2 ^ 80

abbrev pub u32_mod : ℕ
u32_mod = 2 ^ 32

-- One round of the loop of `run_worker`: what the clock, the generator and the token gave it.
pub record Round : Type 0 where
  pub cancelled_before : Bool
  pub elapsed : Duration
  pub uuid : ℕ
  pub cancelled_asleep : Bool

module _ (mul_f64 : Duration → ℕ → Duration) where
  abbrev pub reconnect_base : ℕ → Duration
  reconnect_base quick_failures =
      min (saturating_mul reconnect_delay_unit (2 ^ min (quick_failures - 1) 5)) max_reconnect_delay

  unfoldable pub reconnect_delay : ℕ → ℕ → Duration
  reconnect_delay quick_failures fraction =
      mul_f64 (reconnect_base quick_failures) (half + min fraction half)

  unfoldable pub next_failures : ℕ → Duration → ℕ
  next_failures quick_failures elapsed =
      if leb stable_connection elapsed then 0 else (quick_failures + 1) % u32_mod

  -- The loop of `run_worker` from a number of quick failures: the delays that it draws, until the
  -- token is cancelled or the given rounds are over.
  unfoldable pub run_worker : ℕ → List Round → List Duration
  unfolding next_failures
  run_worker quick_failures [] = []
  run_worker quick_failures (r ∷ rounds) =
      let failures = next_failures quick_failures r.elapsed in
      let delay = reconnect_delay failures (random_fraction r.uuid) in
      let rest = run_worker failures rounds in
      if r.cancelled_before then [] else if r.cancelled_asleep then delay ∷ [] else delay ∷ rest
