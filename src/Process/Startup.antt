-- ===== src/Process/Startup.antt =====
-- src/main.rs, src/config.rs and src/resource.rs: `main` up to the workers. What the system and the
-- libraries answer is a parameter; what `main` does to them is a list of operations, in order.
use prometheus_ws_proxy_clie.Base.{
  ◌>>=◌, ℕ, Bool, ◌&&◌, Option, none, some, Result, ok, err, List, [], ◌∷◌, ◌++◌, String, Bytes,
  codes,
}
use prometheus_ws_proxy_clie.Error.{BoxError}
use prometheus_ws_proxy_clie.Timing.{Duration, from_secs}
use prometheus_ws_proxy_clie.Target.{UrlLib}
use prometheus_ws_proxy_clie.Config.{Request, Environment, load}
use prometheus_ws_proxy_clie.Cli.{Cli}
use prometheus_ws_proxy_clie.Process.{
  Level, Signal, hangup, interrupt, terminate, Started, default_log_filter, transport_level_allowed,
  start_workers, run_until_signal,
}

-- The settings of an HTTP client.
pub record ClientOptions : Type 0 where
  pub connect_timeout : Duration
  pub timeout : Duration
  pub user_agent : Option Bytes

-- How `ClientBuilder::build` ends.
abbrev pub Build : Type 0
Build = ClientOptions → Result BoxError (Unit {0})

unfoldable pub metadata_client : Build → Result BoxError (Unit {0})
metadata_client build =
    build (record { connect_timeout = from_secs 5; timeout = from_secs 5; user_agent = none })

-- The package has version 3.0.3.
unfoldable pub shared_http_client : Build → Result BoxError (Unit {0})
shared_http_client build = build (record {
  connect_timeout = from_secs 5;
  timeout = from_secs 60;
  user_agent = some (codes "proxy-client/3.0.3");
})

-- Which records a filter lets through.
abbrev pub LogFilter : Type 0
LogFilter = Bytes → Level → Bool

-- `user_filter.and(TransportLogCap)`
unfoldable pub capped : LogFilter → LogFilter
unfolding transport_level_allowed
capped user_filter target level = user_filter target level && transport_level_allowed target level

-- What the system and the libraries answer: `signal`, `EnvFilter::try_from_default_env` and
-- `EnvFilter::new`, the `try_init` of the subscriber, the builder of the HTTP clients, the file
-- system, the metadata service with the JSON parser, URLs, and the identifiers that are generated.
pub record Host (Url : Type 0) : Type 0 where
  pub signal : Signal → Result BoxError (Unit {0})
  pub env_filter : Option LogFilter
  pub new_filter : String → LogFilter
  pub try_init : LogFilter → Result BoxError (Unit {0})
  pub build : Build
  pub read : Bytes → Result BoxError Bytes
  pub metadata : Environment
  pub urls : UrlLib Url
  pub uuid : ℕ → Bytes

pub data Operation : Type 0 where
  handle : Signal → Operation
  init_log : LogFilter → Operation
  init_sentry : Bytes → Operation
  read_file : Bytes → Operation
  request : Request → Operation
  spawn : Bytes → Operation

-- The operations so far, and a result.
abbrev pub Traced : Type 0 → Type 0
Traced A = List Operation × Result BoxError A

abbrev pub after : List Operation → {A : Type 0} → Traced A → Traced A
after before (operations, result) = (before ++ operations, result)

-- `?`: what follows a step, if the step succeeds.
abbrev pub and_then : {A B : Type 0} → Result BoxError A → (A → Traced B) → Traced B
and_then (err e) next = ([], err e)
and_then (ok a) next = next a

abbrev pub requests : List Request → List Operation
requests [] = []
requests (r ∷ rs) = request r ∷ requests rs

abbrev pub spawns : List Bytes → List Operation
spawns [] = []
spawns (worker_name ∷ workers) = spawn worker_name ∷ spawns workers

abbrev pub sentry : Option Bytes → List Operation
sentry none = []
sentry (some sentry_dsn) = init_sentry sentry_dsn ∷ []

module _ {Url : Type 0} (host : Host Url) where
  -- The stream of a signal, which replaces its default action.
  abbrev listen : Signal → Traced (Started Url) → Traced (Started Url)
  listen signal next = after (handle signal ∷ []) (and_then (host.signal signal) λ _. next)

  -- `ShutdownSignals::install`
  abbrev install : Traced (Started Url) → Traced (Started Url)
  install next = listen interrupt (listen terminate next)

  abbrev pub user_filter : Cli → LogFilter
  user_filter cli = elim host.env_filter [
    | some f ↦ f
    | none ↦ host.new_filter (default_log_filter cli.verbose)
  ]

  abbrev spawn_all : Result BoxError (Started Url) → Traced (Started Url)
  spawn_all started = and_then started λ s. (spawns s.workers, ok s)

  -- The configuration, the target and the client, and the workers.
  unfoldable pub start_from_config : Cli → Traced (Started Url)
  unfolding load metadata_client shared_http_client start_workers
  start_from_config cli = and_then (metadata_client host.build) λ _.
      let (sent, loaded) = load host.metadata (host.read cli.config) in
      after (read_file cli.config ∷ requests sent)
        (spawn_all (start_workers host.urls host.uuid cli loaded (shared_http_client host.build)))

  unfoldable pub start : Cli → Traced (Started Url)
  unfolding start_from_config capped default_log_filter
  start cli = install (
      listen hangup (
        after (init_log (capped (user_filter cli)) ∷ []) (
          and_then (host.try_init (capped (user_filter cli)))
            λ _. after (sentry cli.sentry_dsn) (start_from_config cli))))

  -- `main`, over the signals that come, with the time at which its set-up is over, if that
  -- succeeds, and with the times at which the workers end, if they do: it fails before there are
  -- workers, or goes on until a signal.
  unfoldable pub main :
      Cli
      → Duration
      → List (Duration × Signal)
      → List (Option Duration)
      → Traced (Option (Bool × Duration))
  unfolding start run_until_signal
  main cli ready signals workers =
      let (operations, started) = start cli in
      (operations, started >>= λ _. ok (run_until_signal ready signals workers))
