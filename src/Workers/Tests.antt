-- ===== src/Workers/Tests.antt =====
-- The properties of the workers at concrete inputs.
use prometheus_ws_proxy_clie.Session.Tests.{no_frames}
use prometheus_ws_proxy_clie.Base.{
  ℕ, ◌≤◌, ◌≡◌, refl, ok, codes, some, none, Bytes, [], ◌∷◌, All, decimal,
}
use prometheus_ws_proxy_clie.Protocol.{validate, validate_instance, validate_worker, register_json}
use prometheus_ws_proxy_clie.Protocol.Tests.{exact, rfc_writer}
use prometheus_ws_proxy_clie.Memory.{new, default_memory_budget_size}
use prometheus_ws_proxy_clie.Target.{parse}
use prometheus_ws_proxy_clie.Delivery.Post.{WorkerContext, add_websocket_cf_headers}
use prometheus_ws_proxy_clie.Delivery.Tests.{
  slow_lib, slow_lib_allocates, plain_config, plain_context,
}
use prometheus_ws_proxy_clie.Session.{Session, text}
use prometheus_ws_proxy_clie.Session.Connect.{connection, new_session, open_session}
use prometheus_ws_proxy_clie.Session.ConnectionTests.{
  open_network, from_str, registration, rfc_grows,
}
use prometheus_ws_proxy_clie.Resource.Tests.{exact_runtime, exact_runtime-IsRuntime}
use prometheus_ws_proxy_clie.Cli.{Cli}
use prometheus_ws_proxy_clie.Process.{Started, start_workers}
use prometheus_ws_proxy_clie.Session.World.{turned, outside}
use prometheus_ws_proxy_clie.Session.Turn.{
  Event, inbound, turn, continues, handle_incoming, handle_request,
}
use prometheus_ws_proxy_clie.Memory.{try_acquire}
use prometheus_ws_proxy_clie.Memory.Acquire.{taken}
use prometheus_ws_proxy_clie.Workers.{
  Live, acquires, Workers, Worker, just_opened, started, acts, opens, own, Reach, here, next,
}
use prometheus_ws_proxy_clie.Workers.Shared.{IsShared, IsIdle, Reach-started-IsShared}

-- The generator gives the same name to both workers.
abbrev same_name : ℕ → Bytes
same_name _ = codes "worker-1"

abbrev two_connections : Cli
two_connections = record {
  config = codes "client_config.json";
  parallel = 2;
  protocol = 3;
  sentry_dsn = none;
  verbose = 0;
}

abbrev proxy_context : WorkerContext Bytes
proxy_context = record plain_context {
  target = record { ws_url = codes "http://proxy/ws/"; response_base = codes "http://proxy/" };
}

abbrev two_started : Started Bytes
two_started = record {
  context = proxy_context;
  budget = record { limit = default_memory_budget_size; used = 0; high_watermark = 0 };
  workers = codes "worker-1" ∷ codes "worker-1" ∷ [];
}

two_started-made :
    start_workers slow_lib.urls same_name two_connections (ok plain_config) (ok tt) ≡ ok two_started
unfolding start_workers parse new
two_started-made = refl

opened_proxy :
    open_session slow_lib open_network rfc_writer from_str proxy_context (codes "worker-1")
    ≡ ok (new_session (text registration ∷ []))
unfolding open_session validate_instance validate_worker add_websocket_cf_headers register_json
    decimal
opened_proxy = refl

abbrev idle_worker : Worker
idle_worker = record { worker_name = codes "worker-1"; live = none }

abbrev live_worker : Live → Worker
live_worker l = record { worker_name = codes "worker-1"; live = some l }

abbrev registered : Live
registered = just_opened (new_session (text registration ∷ []))

abbrev scraping : Session
scraping = record (new_session (text registration ∷ [])) {
  active_task = some (record { uid = exact (codes "u1"); resource = codes "node" });
}

abbrev request_frame : Event
request_frame = inbound no_frames (some (ok (text (codes "{}"))))

requested :
    turn
      (connection slow_lib open_network rfc_writer from_str proxy_context (codes "worker-1"))
      request_frame
      registered.session
      two_started.budget
    ≡ continues scraping two_started.budget
unfolding turn validate handle_incoming handle_request
requested = refl

-- The second worker has a connection whose scrape has acquired five bytes.
abbrev one_scraping : Workers
one_scraping = record {
  all = idle_worker ∷ live_worker (record (just_opened scraping) { working = 5 }) ∷ [];
  budget = taken 5 two_started.budget;
}

acquired : try_acquire 5 two_started.budget ≡ (ok tt, taken 5 two_started.budget)
unfolding try_acquire
acquired = refl

one_scraping-Reach :
    Reach exact_runtime slow_lib open_network rfc_writer from_str proxy_context
      (started two_started)
      one_scraping
one_scraping-Reach =
    next
      (next
        (next here (
          acts (idle_worker ∷ []) [] (codes "worker-1") none (some registered) two_started.budget
            refl (opens registered.session opened_proxy)))
        (acts (idle_worker ∷ []) [] (codes "worker-1") (some registered)
          (some (just_opened scraping)) two_started.budget refl
          (own registered _ (
            turned request_frame none scraping two_started.budget (outside request_frame tt)
              requested))))
      (acts (idle_worker ∷ []) [] (codes "worker-1") (some (just_opened scraping))
        (some (record (just_opened scraping) { working = 5 })) (taken 5 two_started.budget) refl
        (acquires (just_opened scraping) 5 (taken 5 two_started.budget) (λ e. cc) refl acquired))

Reach-started-IsShared_example :
    IsShared 2 one_scraping
    × (one_scraping.budget.used ≤ default_memory_budget_size)
    × (All IsIdle one_scraping.all → one_scraping.budget.used ≡ 0)
Reach-started-IsShared_example =
    Reach-started-IsShared exact_runtime exact_runtime-IsRuntime slow_lib slow_lib_allocates
      open_network rfc_writer from_str rfc_grows same_name two_connections (ok plain_config) (ok tt)
      two_started two_started-made one_scraping-Reach
