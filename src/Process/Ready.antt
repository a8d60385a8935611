-- ===== src/Process/Ready.antt =====
-- src/main.rs: what `main` has done when the workers start, and when it fails before.
use mathlib.Core.List.{append-nil}
use prometheus_ws_proxy_clie.Base.{
  ap, ◌⊎◌, ◌≡◌, refl, Option, none, some, ok, err, List, [], ◌∷◌, ◌++◌, Bytes, All, Result-cases,
  inl, inr,
}
use prometheus_ws_proxy_clie.Timing.{default_timing}
use prometheus_ws_proxy_clie.Memory.{new, default_memory_budget_size}
use prometheus_ws_proxy_clie.Config.{Config, Request, load}
use prometheus_ws_proxy_clie.Target.{Target, parse}
use prometheus_ws_proxy_clie.Cli.{Cli}
use prometheus_ws_proxy_clie.Process.{
  Signal, hangup, interrupt, terminate, Started, names, start_workers,
}
use prometheus_ws_proxy_clie.Process.Startup.{
  Host, Operation, handle, init_log, read_file, spawn, Traced, after, requests, spawns, sentry,
  user_filter, capped, metadata_client, shared_http_client, start_from_config, start,
}

-- The operations of the set-up that are not about signals, and those that start nothing.
abbrev pub IsWork : Operation → Type 0
IsWork (handle _) = ⊥
IsWork _ = Unit

abbrev pub IsQuiet : Operation → Type 0
IsQuiet (spawn _) = ⊥
IsQuiet _ = Unit

abbrev pub IsHandle : Operation → Type 0
IsHandle (handle _) = Unit
IsHandle _ = ⊥

abbrev pub handlers : List Operation
handlers = handle interrupt ∷ handle terminate ∷ handle hangup ∷ []

-- Nothing but handlers is set up before all three are.
abbrev pub IsGuarded : List Operation → Type 0
IsGuarded operations =
    All IsHandle operations
    ⊎ ((rest : List Operation) × (operations ≡ handlers ++ rest) × All IsWork rest)

requests-IsQuiet : (rs : List Request) → All IsWork (requests rs) × All IsQuiet (requests rs)
requests-IsQuiet [] = (tt, tt)
requests-IsQuiet (r ∷ rs) = let (work, quiet) = requests-IsQuiet rs in ((tt, work), (tt, quiet))

module _ {Url : Type 0} (host : Host Url) (cli : Cli) where
  -- The steps from the HTTP client for the metadata service on succeed.
  pub record Configured (sent : List Request) (config : Config) (target : Target Url) : Type 0 where
    pub metadata : metadata_client host.build ≡ ok tt
    pub loaded : load host.metadata (host.read cli.config) ≡ (sent, ok config)
    pub parsed : parse host.urls config.target ≡ ok target
    pub client : shared_http_client host.build ≡ ok tt

  -- All steps do.
  pub record Succeeds (sent : List Request) (config : Config) (target : Target Url) : Type 0 where
    pub handled : (signal : Signal) → host.signal signal ≡ ok tt
    pub logs : host.try_init (capped (user_filter host cli)) ≡ ok tt
    pub configured : Configured sent config target

  -- What the workers are started with.
  abbrev pub made : Config → Target Url → Started Url
  made config target = record {
    context = record {
      config = config;
      target = target;
      protocol = cli.protocol;
      timing = default_timing;
    };
    budget = new default_memory_budget_size;
    workers = names host.uuid 0 cli.parallel;
  }

  abbrev configuring : List Request → List Operation
  configuring sent =
      (read_file cli.config ∷ requests sent) ++ spawns (names host.uuid 0 cli.parallel)

  abbrev pub setting_up : List Request → List Operation
  setting_up sent =
      handlers
      ++ (init_log (capped (user_filter host cli)) ∷ (sentry cli.sentry_dsn ++ configuring sent))

  start_from_config-Configured :
      (sent : List Request) (config : Config) (target : Target Url)
      → Configured sent config target
      → start_from_config host cli ≡ (configuring sent, ok (made config target))
  unfolding start_from_config start_workers
  start_from_config-Configured sent config target k =
      rw (k.metadata, k.loaded, k.parsed, k.client, start_from_config) refl

  abbrev FromConfig : Traced (Started Url) → Type 0
  FromConfig (operations, err _) = All IsWork operations × All IsQuiet operations
  FromConfig (operations, ok s) =
      (sent : List Request) × (config : Config) × (target : Target Url) × Configured sent config
        target
      × (operations ≡ configuring sent)
      × (s ≡ made config target)

  start_from_config-FromConfig : FromConfig (start_from_config host cli)
  unfolding start_from_config start_workers
  start_from_config-FromConfig =
      let sent = (load host.metadata (host.read cli.config)).0 in
      let (work, quiet) = requests-IsQuiet sent in
      let failed : All IsWork ((read_file cli.config ∷ requests sent) ++ [])
          × All IsQuiet ((read_file cli.config ∷ requests sent) ++ []) =
        rw (append-nil (requests sent)) ((tt, work), (tt, quiet)) in
      elim (Result-cases (metadata_client host.build)) [
        | inr (e, m) ↦ rw (m, start_from_config) (tt, tt)
        | inl (_, m) ↦ elim (Result-cases (load host.metadata (host.read cli.config)).1) [
          | inr (e, l) ↦ rw (m, l, start_from_config) failed
          | inl (config, l) ↦ elim (Result-cases (parse host.urls config.target)) [
            | inr (e, p) ↦ rw (m, l, p, start_from_config) failed
            | inl (target, p) ↦ elim (Result-cases (shared_http_client host.build)) [
              | inr (e, c) ↦ rw (m, l, p, c, start_from_config) failed
              | inl (_, c) ↦
                  rw (m, l, p, c, start_from_config)
                    (
                      sent,
                      config,
                      target,
                      record {
                        metadata = m;
                        loaded = ap (λ r. (sent, r)) l;
                        parsed = p;
                        client = c;
                      },
                      refl,
                      refl,
                    )
            ]
          ]
        ]
      ]

  start-Succeeds :
      (sent : List Request) (config : Config) (target : Target Url)
      → Succeeds sent config target
      → start host cli ≡ (setting_up sent, ok (made config target))
  unfolding start
  start-Succeeds sent config target k =
      rw
        (
          k.handled interrupt,
          k.handled terminate,
          k.handled hangup,
          k.logs,
          start_from_config-Configured sent config target k.configured,
          start,
        )
        refl

  -- A start that fails has spawned nothing; the workers are started with what the steps gave.
  abbrev pub IsSetUp : Traced (Started Url) → Type 0
  IsSetUp (operations, err _) = IsGuarded operations × All IsQuiet operations
  IsSetUp (operations, ok s) =
      (sent : List Request) × (config : Config) × (target : Target Url) × Succeeds sent config
        target
      × (operations ≡ setting_up sent)
      × (s ≡ made config target)

  sentry-IsQuiet :
      (sentry_dsn : Option Bytes) (operations : List Operation)
      → (All IsWork operations → All IsWork (sentry sentry_dsn ++ operations))
        × (All IsQuiet operations → All IsQuiet (sentry sentry_dsn ++ operations))
  sentry-IsQuiet none operations = ((λ work. work), λ quiet. quiet)
  sentry-IsQuiet (some sentry_dsn) operations = ((λ work. (tt, work)), λ quiet. (tt, quiet))

  -- From `FromConfig` to `IsSetUp`, behind the steps that have succeeded.
  configured-IsSetUp :
      (t : Traced (Started Url))
      → ((signal : Signal) → host.signal signal ≡ ok tt)
      → host.try_init (capped (user_filter host cli)) ≡ ok tt
      → FromConfig t
      → IsSetUp (
          after handlers (
            after
              (init_log (capped (user_filter host cli)) ∷ [])
              (after (sentry cli.sentry_dsn) t)))
  configured-IsSetUp (operations, err e) handled logs (work, quiet) =
      let (works, quiets) = sentry-IsQuiet cli.sentry_dsn operations in
      (inr (_, refl, (tt, works work)), (tt, (tt, (tt, (tt, quiets quiet)))))
  configured-IsSetUp (operations, ok s) handled logs (sent, config, target, k, o, m) = (
    sent,
    config,
    target,
    record { handled = handled; logs = logs; configured = k },
    ap
        (λ rest.
          handlers ++ (init_log (capped (user_filter host cli)) ∷ (sentry cli.sentry_dsn ++ rest)))
        o,
    m,
  )

  all_handled :
      host.signal interrupt ≡ ok tt
      → host.signal terminate ≡ ok tt
      → host.signal hangup ≡ ok tt
      → (signal : Signal) → host.signal signal ≡ ok tt
  all_handled i t h interrupt = i
  all_handled i t h terminate = t
  all_handled i t h hangup = h

  start-IsSetUp : IsSetUp (start host cli)
  unfolding start
  start-IsSetUp = elim (Result-cases (host.signal interrupt)) [
    | inr (e, i) ↦ rw (i, start) (inl (tt, tt), (tt, tt))
    | inl (_, i) ↦ elim (Result-cases (host.signal terminate)) [
      | inr (e, t) ↦ rw (i, t, start) (inl (tt, (tt, tt)), (tt, (tt, tt)))
      | inl (_, t) ↦ elim (Result-cases (host.signal hangup)) [
        | inr (e, h) ↦ rw (i, t, h, start) (inl (tt, (tt, (tt, tt))), (tt, (tt, (tt, tt))))
        | inl (_, h) ↦ elim (Result-cases (host.try_init (capped (user_filter host cli)))) [
          | inr (e, l) ↦
              rw (i, t, h, l, start) (inr (_, refl, (tt, tt)), (tt, (tt, (tt, (tt, tt)))))
          | inl (_, l) ↦
              rw (i, t, h, l, start)
                (configured-IsSetUp (start_from_config host cli) (all_handled i t h) l
                  start_from_config-FromConfig)
        ]
      ]
    ]
  ]

  -- That, and it fails only if a step does.
  abbrev pub Starts : Traced (Started Url) → Type 0
  Starts (operations, err _) =
      IsGuarded operations
      × All IsQuiet operations
      × ((sent : List Request) (config : Config) (target : Target Url)
          → ¬ Succeeds sent config target)
  Starts (operations, ok s) = IsSetUp (operations, ok s)

  IsSetUp-Starts : (t : Traced (Started Url)) → t ≡ start host cli → IsSetUp t → Starts t
  IsSetUp-Starts (operations, err e) same (guarded, quiet) =
      (guarded, quiet, λ sent config target k. cc (same, start-Succeeds sent config target k))
  IsSetUp-Starts (operations, ok s) same made = made

  -- `main` handles interrupts, terminations and hangups before it does anything else. If all steps up
  -- to the workers succeed, then it has set up the log, set up Sentry if there is a key, read the
  -- configuration, sent the requests that resolve the instance, and spawned the workers, in this order,
  -- with the context and the budget that the steps give; if one fails, no worker has been spawned.
  pub start-Starts : Starts (start host cli)
  start-Starts = IsSetUp-Starts (start host cli) refl start-IsSetUp
