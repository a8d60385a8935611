-- ===== src/Process/Ended.antt =====
-- src/main.rs: how `main` ends, from its start to the end of its workers.
use prometheus_ws_proxy_clie.Base.{
  max, ◌+◌, ◌≤◌, ◌≡◌, Bool, Option, none, some, ok, err, List, ◌∷◌, ◌++◌, All, ◌>>=◌,
}
use prometheus_ws_proxy_clie.Timing.{Duration}
use prometheus_ws_proxy_clie.Config.{Config, Request}
use prometheus_ws_proxy_clie.Target.{Target}
use prometheus_ws_proxy_clie.Cli.{Cli}
use prometheus_ws_proxy_clie.Process.{Signal, Started, shutdown_grace, run_until_signal}
use prometheus_ws_proxy_clie.Process.Startup.{Host, Traced, start, main}
use prometheus_ws_proxy_clie.Process.Waited.{Waits, IsHangup, run_until_signal-Waits}
use prometheus_ws_proxy_clie.Process.Ready.{
  IsQuiet, IsGuarded, Succeeds, setting_up, Starts, start-Starts,
}

-- `main` has not ended without an error.
abbrev pub GoesOn : Traced (Option (Bool × Duration)) → Type 0
GoesOn (operations, err _) = Unit
GoesOn (operations, ok none) = Unit
GoesOn (operations, ok (some _)) = ⊥

waiting-GoesOn :
    {Url : Type 0} (t : Traced (Started Url)) (wait : Option (Bool × Duration))
    → wait ≡ none
    → GoesOn (t.0, t.1 >>= λ _. ok wait)
waiting-GoesOn (operations, err e) wait w = tt
waiting-GoesOn (operations, ok s) wait w = rw w tt

module _ {Url : Type 0} (host : Host Url) (cli : Cli) (now : Duration)
    (workers : List (Option Duration)) where
  -- `main` has failed before there are workers; or it has set everything up, and ends once it has
  -- waited for the workers from the time on at which it has taken the signal.
  abbrev pub Ends : Traced (Option (Bool × Duration)) → Type 0
  Ends (operations, err _) =
      IsGuarded operations
      × All IsQuiet operations
      × ((sent : List Request) (config : Config) (target : Target Url)
          → ¬ Succeeds host cli sent config target)
  Ends (operations, ok none) = ⊥
  Ends (operations, ok (some (joined, end))) =
      (sent : List Request) × (config : Config) × (target : Target Url) × Succeeds host cli sent
        config target
      × (operations ≡ setting_up host cli sent)
      × Waits (now + shutdown_grace) now workers (joined, end)
      × (end ≤ now + shutdown_grace)

  started-Ends :
      (t : Traced (Started Url)) (wait : Option (Bool × Duration)) (joined : Bool) (end : Duration)
      → Starts host cli t
      → wait ≡ some (joined, end)
      → Waits (now + shutdown_grace) now workers (joined, end)
      → end ≤ now + shutdown_grace
      → Ends (t.0, t.1 >>= λ _. ok wait)
  started-Ends (operations, err e) wait joined end failed w waits in_time = failed
  started-Ends (operations, ok s) wait joined end (sent, config, target, k, o, m) w waits in_time =
      rw w (sent, config, target, k, o, waits, in_time)

-- The whole of `main`, when hangups and then the first interrupt or termination come. If a step of
-- the set-up fails, `main` fails, has handled the three signals before anything else that it has
-- done, and has started no worker. Else it has handled the three signals, set up the log, set up
-- Sentry if there is a key, read the configuration, sent the requests that resolve the instance,
-- and spawned the workers, in this order; and it ends without an error at most 15 seconds after
-- both the signal has come and the set-up is over: once the last worker has ended if all of them
-- end in that time, and else after exactly 15 seconds. Over the hangups alone it does not end
-- without an error.
pub main-Ends :
    {Url : Type 0} (host : Host Url) (cli : Cli) (ready at : Duration)
    (workers : List (Option Duration)) (before : List (Duration × Signal)) (signal : Signal)
    (later : List (Duration × Signal))
    → All IsHangup before
    → ¬ IsHangup (at, signal)
    → Ends host cli
        (max ready at)
        workers
        (main host cli ready (before ++ ((at, signal) ∷ later)) workers)
      × GoesOn (main host cli ready before workers)
unfolding main
main-Ends host cli ready at workers before signal later hangups stops =
    let (never, joined, end, waited, waits, in_time) =
      run_until_signal-Waits ready before at signal later workers hangups stops in
    (
      started-Ends host cli (max ready at) workers (start host cli)
          (run_until_signal ready (before ++ ((at, signal) ∷ later)) workers) joined end
          (start-Starts host cli) waited waits in_time,
      waiting-GoesOn (start host cli) (run_until_signal ready before workers) never,
    )
