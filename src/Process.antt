-- ===== src/Process.antt =====
-- src/main.rs: the process: the cap on the log records of the transport libraries, the set-up of the
-- workers, and the wait for them at a shutdown. Signals, the subscriber and Sentry are set up by
-- libraries.
pub mod Capped
pub mod Waited
pub mod Startup
pub mod Ready
pub mod Ended
pub mod Tests
use prometheus_ws_proxy_clie.Base.{
  ℕ, zero, suc, ◌+◌, ◌-◌, ◌≤◌, Bool, true, false, not, ◌||◌, Option, none, some, Result, ok, err,
  ◌>>=◌, ◌>>◌, List, [], ◌∷◌, String, Bytes, codes, bytes_eq, leb, if◌then◌else◌, max, min,
  strip_prefix,
}
use prometheus_ws_proxy_clie.Error.{BoxError}
use prometheus_ws_proxy_clie.Timing.{Duration, from_secs, Timing, default_timing}
use prometheus_ws_proxy_clie.Memory.{MemoryBudget, new, default_memory_budget_size}
use prometheus_ws_proxy_clie.Config.{Config}
use prometheus_ws_proxy_clie.Target.{Target, UrlLib, parse}
use prometheus_ws_proxy_clie.Delivery.Post.{WorkerContext}
use prometheus_ws_proxy_clie.Cli.{Cli}

-- `tracing::Level`
pub data Level : Type 0 where
  error warn info debug trace : Level

unfoldable pub default_log_filter : ℕ → String
default_log_filter zero = "warn"
default_log_filter (suc zero) = "info"
default_log_filter (suc (suc zero)) = "debug"
default_log_filter (suc (suc (suc _))) = "trace"

abbrev pub transport_log_targets : List Bytes
transport_log_targets =
    codes "tungstenite"
    ∷ codes "tokio_tungstenite"
    ∷ codes "reqwest"
    ∷ codes "hyper"
    ∷ codes "hyper_util"
    ∷ codes "h2"
    ∷ codes "tower_http"
    ∷ []

abbrev is_some : Option Bytes → Bool
is_some none = false
is_some (some _) = true

abbrev pub starts_with : Bytes → Bytes → Bool
starts_with target prefix = is_some (strip_prefix prefix target)

abbrev pub is_submodule : Option Bytes → Bool
is_submodule none = false
is_submodule (some suffix) = starts_with suffix (codes "::")

-- The closure of `any`, for one prefix.
unfoldable pub matches_prefix : Bytes → Bytes → Bool
unfolding strip_prefix
matches_prefix target prefix = bytes_eq target prefix || is_submodule (strip_prefix prefix target)

abbrev pub any : (Bytes → Bool) → List Bytes → Bool
any p [] = false
any p (x ∷ xs) = p x || any p xs

unfoldable pub transport_target : Bytes → Bool
unfolding matches_prefix
transport_target target = any (matches_prefix target) transport_log_targets

abbrev pub is_severe : Level → Bool
is_severe warn = true
is_severe error = true
is_severe _ = false

unfoldable pub transport_level_allowed : Bytes → Level → Bool
unfolding transport_target
transport_level_allowed target level = not (transport_target target) || is_severe level

-- What `main` starts: the context that all workers share, their budget, and their names.
pub record Started (Url : Type 0) : Type 0 where
  pub context : WorkerContext Url
  pub budget : MemoryBudget
  pub workers : List Bytes

-- The names are those of the first `parallel` identifiers that the generator gives.
abbrev pub names : (ℕ → Bytes) → ℕ → ℕ → List Bytes
names uuid first zero = []
names uuid first (suc n) = uuid first ∷ names uuid (first + 1) n

-- From the loaded configuration on; `uuid` gives the text of each generated identifier, and the last
-- argument says how `shared_http_client` ends.
unfoldable pub start_workers :
    {Url : Type 0}
    → UrlLib Url
    → (ℕ → Bytes)
    → Cli
    → Result BoxError Config
    → Result BoxError (Unit {0})
    → Result BoxError (Started Url)
start_workers lib uuid cli loaded client = do
  config ← loaded
  target ← parse lib config.target
  client
  ok (record {
    context = record {
      config = config;
      target = target;
      protocol = cli.protocol;
      timing = default_timing;
    };
    budget = new default_memory_budget_size;
    workers = names uuid 0 cli.parallel;
  })

abbrev pub shutdown_grace : Duration
shutdown_grace = from_secs 15

-- The wait for the workers, each with the time at which it ends, if it ever does: whether all
-- have been joined, and the time at the end. A `timeout` gives a worker that has already ended.
unfoldable pub await_workers : Duration → Duration → List (Option Duration) → Bool × Duration
await_workers deadline now [] = (true, now)
await_workers deadline now (none ∷ workers) = (false, now + (deadline - now))
await_workers deadline now (some end ∷ workers) =
    let rest = await_workers deadline (max now end) workers in
    if leb end (now + (deadline - now)) then rest else (false, now + (deadline - now))

unfoldable pub shut_down : Duration → List (Option Duration) → Bool × Duration
unfolding await_workers
shut_down now workers = await_workers (now + shutdown_grace) now workers

-- The signals that the process handles.
pub data Signal : Type 0 where
  hangup interrupt terminate : Signal

-- `ShutdownSignals::recv`, awaited from `ready` on, over the signals that come, with their times: the
-- time at which it takes the first one that it selects, if any comes. A stream keeps a signal that has
-- come before it is awaited. A hangup is taken by `ignore_reload_signal`, which goes on.
unfoldable pub recv : Duration → List (Duration × Signal) → Option Duration
recv ready [] = none
recv ready ((_, hangup) ∷ signals) = recv ready signals
recv ready ((at, interrupt) ∷ signals) = some (max ready at)
recv ready ((at, terminate) ∷ signals) = some (max ready at)

-- `main` from the wait for a signal on: it goes on for ever, or ends as the wait for the workers does.
unfoldable pub run_until_signal :
    Duration → List (Duration × Signal) → List (Option Duration) → Option (Bool × Duration)
unfolding recv shut_down
run_until_signal ready signals workers = elim (recv ready signals) [
  | none ↦ none
  | some now ↦ some (shut_down now workers)
]
