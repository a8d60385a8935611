-- ===== src/Process/Tests.antt =====
-- The properties of the process at concrete inputs.
use prometheus_ws_proxy_clie.Base.{
  ◌≡◌, ◌↔◌, ◌⊎◌, true, Option, none, some, List, [], ◌∷◌, Bytes, codes,
}
use prometheus_ws_proxy_clie.Timing.{Duration, from_secs}
use prometheus_ws_proxy_clie.Process.{
  warn, error, info, transport_target, transport_level_allowed, transport_log_targets, hangup,
  terminate,
}
use prometheus_ws_proxy_clie.Process.Capped.{IsModuleOf, AnyOf, transport_target-AnyOf}
use prometheus_ws_proxy_clie.Base.{ok, err}
use prometheus_ws_proxy_clie.Error.{http}
use prometheus_ws_proxy_clie.Cli.{Cli}
use prometheus_ws_proxy_clie.Delivery.Tests.{slow_lib, plain_config}
use prometheus_ws_proxy_clie.Process.Startup.{main, LogFilter, capped, Host, start}
use prometheus_ws_proxy_clie.Process.Ready.{Starts, start-Starts}
use prometheus_ws_proxy_clie.Process.Ended.{Ends, GoesOn, main-Ends}

-- One worker ends in a second, one never does.
abbrev two_workers : List (Option Duration)
two_workers = some (from_secs 1) ∷ none ∷ []

abbrev client_target : Bytes
client_target = codes "hyper::client"

-- A user who asks for everything.
abbrev verbose_filter : LogFilter
verbose_filter _ _ = true

transport_target-AnyOf_example :
    ((transport_target client_target ≡ true)
      ↔ AnyOf (IsModuleOf client_target) transport_log_targets)
    × ((transport_level_allowed client_target info ≡ true) ↔ (
        (¬ AnyOf (IsModuleOf client_target) transport_log_targets)
        ⊎ (info ≡ warn)
        ⊎ (info ≡ error)))
    × ((capped verbose_filter client_target info ≡ true) ↔ (
        (verbose_filter client_target info ≡ true)
        × ((¬ AnyOf (IsModuleOf client_target) transport_log_targets)
            ⊎ (info ≡ warn)
            ⊎ (info ≡ error))))
transport_target-AnyOf_example = transport_target-AnyOf verbose_filter client_target info

-- A host on which every step succeeds, with a file that holds the plain configuration.
abbrev plain_host : Host Bytes
plain_host = record {
  signal = λ _. ok tt;
  env_filter = none;
  new_filter = λ _. verbose_filter;
  try_init = λ _. ok tt;
  build = λ _. ok tt;
  read = λ _. ok (codes "{}");
  metadata = record {
    send = λ _. err (http true);
    header_value = λ value. some value;
    from_slice = λ _. some plain_config;
  };
  urls = slow_lib.urls;
  uuid = λ _. codes "worker-1";
}

abbrev two_connections : Cli
two_connections = record {
  config = codes "client_config.json";
  parallel = 2;
  protocol = 3;
  sentry_dsn = none;
  verbose = 1;
}

start-Starts_example : Starts plain_host two_connections (start plain_host two_connections)
start-Starts_example = start-Starts plain_host two_connections

-- The termination comes at 2, while the set-up takes until 3.
main-Ends_example :
    Ends plain_host two_connections 3 two_workers
      (main plain_host two_connections 3 ((1, hangup) ∷ (2, terminate) ∷ []) two_workers)
    × GoesOn (main plain_host two_connections 3 ((1, hangup) ∷ []) two_workers)
main-Ends_example =
    main-Ends plain_host two_connections 3 2 two_workers ((1, hangup) ∷ []) terminate [] (tt, tt)
      λ impossible. impossible
