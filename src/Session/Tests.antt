-- ===== src/Session/Tests.antt =====
-- The properties of a session at concrete inputs.
use prometheus_ws_proxy_clie.Session.{Meanwhile}
use prometheus_ws_proxy_clie.Base.{
  Bytes, ◌≡◌, refl, false, some, none, ok, [], ◌∷◌, List, codes, arith,
}
use prometheus_ws_proxy_clie.Protocol.{request}
use prometheus_ws_proxy_clie.Protocol.Tests.{rfc_writer, exact}
use prometheus_ws_proxy_clie.Timing.{default_timing, from_secs}
use prometheus_ws_proxy_clie.Memory.{MemoryBudget}
use prometheus_ws_proxy_clie.Memory.Tests.{six_of_ten}
use prometheus_ws_proxy_clie.Session.{Session, Task, text}
use prometheus_ws_proxy_clie.Delivery.Encode.{EncodedResponse}
use prometheus_ws_proxy_clie.Timing.{Duration}
use prometheus_ws_proxy_clie.Timing.Tests.{exact_transfer}
use prometheus_ws_proxy_clie.Session.{Message, ping_frame}
use prometheus_ws_proxy_clie.Session.Writer.{Sink, drain, run_writer}
use prometheus_ws_proxy_clie.Session.{drop_queue}
use prometheus_ws_proxy_clie.Session.Flushed.{Releases, run_writer-Releases}
use prometheus_ws_proxy_clie.Session.Ordered.{drain_ordered}
use prometheus_ws_proxy_clie.Delivery.Post.{WorkerContext}
use prometheus_ws_proxy_clie.Delivery.Tests.{
  slow_lib, slow_lib_allocates, plain_context, plain_config, six_of_hundred,
}
use prometheus_ws_proxy_clie.Resource.Tests.{
  exact_runtime, exact_runtime-IsRuntime, chunk_client, node_only, SixHeld,
  chunk_client-ClientRespects,
}
use prometheus_ws_proxy_clie.Memory.Tests.{uid_of_three}
use prometheus_ws_proxy_clie.Resource.{call_resource}
use prometheus_ws_proxy_clie.Session.Scrape.{scrape, Scraped, Routes, Called, scrape-Scraped}
use prometheus_ws_proxy_clie.Session.Turn.{Connection, Event, shutdown, tick, inbound, turn, run}
use prometheus_ws_proxy_clie.Session.Queues.{IsBounded, TurnLeaves}
use prometheus_ws_proxy_clie.Session.Bounded.{KeepsBounds, run-IsBounded}
use prometheus_ws_proxy_clie.Session.Requests.{WorksOn, turn-WorksOn}
use prometheus_ws_proxy_clie.Session.Farewells.{EndsWell, run-EndsWell}

-- The writer does nothing.
abbrev pub no_frames : Meanwhile
no_frames = record { frames = 0; writer_returns = false }

-- Every text is a request for `node`.
abbrev pub node_connection : Connection
node_connection = record {
  worker_name = codes "worker-1";
  protocol = 3;
  timing = default_timing;
  writer = rfc_writer;
  from_str = λ _. some (request (exact (codes "u1")) (exact (codes "node")));
}

abbrev pub idle_session : Session
idle_session = record {
  control = [];
  bulk = [];
  busy_responses = [];
  writer_ended = false;
  actor_ended = false;
  writer_done = false;
  active_task = none;
}

abbrev pub node_task : Task
node_task = record { uid = exact (codes "u0"); resource = codes "node" }

abbrev pub busy_session : Session
busy_session = record idle_session { active_task = some node_task }

abbrev pub request_frame : Event
request_frame = inbound no_frames (some (ok (text (codes "{}"))))

-- Two requests, a tick and the shutdown, with nothing in between.
abbrev short_run : List ((Session → MemoryBudget → Session × MemoryBudget) × Event)
short_run =
    (λ s b. (s, b), request_frame)
    ∷ (λ s b. (s, b), request_frame)
    ∷ (λ s b. (s, b), tick (from_secs 1))
    ∷ (λ s b. (s, b), shutdown)
    ∷ []

short_run-KeepsBounds : KeepsBounds node_connection short_run
short_run-KeepsBounds = (λ s b h. h, (λ s b h. h, (λ s b h. h, (λ s b h. h, tt))))

run-IsBounded_example : TurnLeaves IsBounded (run node_connection short_run idle_session six_of_ten)
run-IsBounded_example =
    run-IsBounded node_connection short_run idle_session six_of_ten short_run-KeepsBounds
      (omega arith)

turn-WorksOn_example :
    TurnLeaves
      (WorksOn (some node_task))
      (turn node_connection request_frame busy_session six_of_ten)
turn-WorksOn_example =
    turn-WorksOn node_connection request_frame busy_session six_of_ten node_task refl
      λ impossible. impossible

run-EndsWell_example : EndsWell (run node_connection short_run idle_session six_of_ten)
run-EndsWell_example = run-EndsWell node_connection short_run idle_session six_of_ten

-- A sink that takes every message at once.
abbrev pub open_sink : Sink
open_sink _ _ _ = some (ok tt)

pub open_sink_works :
    (s : List Message) (m : Message) (d : Duration) → open_sink s m d ≡ some (ok tt)
open_sink_works s m d = refl

abbrev pub queued_frame : EncodedResponse
queued_frame = record { json = exact (codes "four"); reservation = record { bytes = 4 } }

run_writer-Releases_example : Releases (text [] ∷ []) 4 ((ping_frame [] ∷ [], []) ∷ []) six_of_ten (
    run_writer open_sink exact_transfer
      (from_secs 5)
      ((ping_frame [] ∷ [], []) ∷ [])
      []
      (text [] ∷ [])
      (queued_frame ∷ [])
      six_of_ten)
run_writer-Releases_example =
    run_writer-Releases open_sink exact_transfer (from_secs 5) ((ping_frame [] ∷ [], []) ∷ []) []
      (text [] ∷ []) (queued_frame ∷ []) six_of_ten (omega arith)

drain_ordered_example :
    drain open_sink exact_transfer
      (from_secs 5)
      []
      (text [] ∷ ping_frame [] ∷ [])
      (queued_frame ∷ [])
      six_of_ten
    ≡ (
      ok tt,
      text [] ∷ ping_frame [] ∷ text (codes "four") ∷ [],
      drop_queue (queued_frame ∷ []) six_of_ten,
    )
drain_ordered_example =
    drain_ordered open_sink exact_transfer (from_secs 5) open_sink_works []
      (text [] ∷ ping_frame [] ∷ []) (queued_frame ∷ []) six_of_ten (tt, (tt, tt))

abbrev pub node_context : WorkerContext Bytes
node_context = record plain_context { config = record plain_config { resources = node_only } }

scrape-Scraped_example :
    Scraped exact_runtime exact_runtime-IsRuntime SixHeld chunk_client slow_lib slow_lib_allocates
      node_context uid_of_three
      (codes "node")
      (scrape exact_runtime chunk_client slow_lib node_context uid_of_three
        (codes "node")
        six_of_hundred)
    × Routes exact_runtime exact_runtime-IsRuntime SixHeld chunk_client slow_lib slow_lib_allocates
        node_context uid_of_three
        (codes "node")
        (call_resource exact_runtime chunk_client node_only uid_of_three
          (codes "node")
          six_of_hundred)
        (scrape exact_runtime chunk_client slow_lib node_context uid_of_three
          (codes "node")
          six_of_hundred)
    × Called exact_runtime exact_runtime-IsRuntime SixHeld chunk_client slow_lib slow_lib_allocates
        node_context uid_of_three
        (codes "node")
        six_of_hundred
        (call_resource exact_runtime chunk_client node_only uid_of_three
          (codes "node")
          six_of_hundred)
scrape-Scraped_example =
    scrape-Scraped exact_runtime exact_runtime-IsRuntime SixHeld chunk_client slow_lib
      slow_lib_allocates node_context uid_of_three (codes "node") six_of_hundred
      chunk_client-ClientRespects (λ request n room le q. omega (arith, le, q)) (omega arith)
      (omega arith)
