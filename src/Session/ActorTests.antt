-- ===== src/Session/ActorTests.antt =====
-- The properties of the actor and of the writer's last message at concrete inputs.
use prometheus_ws_proxy_clie.Session.Tests.{no_frames}
use prometheus_ws_proxy_clie.Base.{◌≡◌, refl, true, false, none, ok, err, [], ◌∷◌, List, arith}
use prometheus_ws_proxy_clie.Error.{http}
use prometheus_ws_proxy_clie.Timing.{from_secs}
use prometheus_ws_proxy_clie.Timing.Tests.{exact_transfer}
use prometheus_ws_proxy_clie.Memory.Tests.{six_of_ten}
use prometheus_ws_proxy_clie.Delivery.Tests.{body_only, body_only_allocates, small_response}
use prometheus_ws_proxy_clie.Session.{Session, text, ping_frame, close}
use prometheus_ws_proxy_clie.Session.Tests.{idle_session, open_sink, open_sink_works, queued_frame}
use prometheus_ws_proxy_clie.Session.Writer.{drain}
use prometheus_ws_proxy_clie.Session.{drop_queue}
use prometheus_ws_proxy_clie.Session.Ordered.{drain-close}
use prometheus_ws_proxy_clie.Session.Busy.{
  Actor, ActorEvent, receive, close_input, prepared, completed, run_busy_response_actor,
}
use prometheus_ws_proxy_clie.Session.Posted.{run_busy_response_actor-Conserves}
use prometheus_ws_proxy_clie.Session.Held.{Conserves}
use prometheus_ws_proxy_clie.Session.Returned.{Returns, run_busy_response_actor-Returns}

-- One response waits to be posted.
abbrev waiting_session : Session
waiting_session = record idle_session { busy_responses = small_response ∷ [] }

abbrev fresh_actor : Actor
fresh_actor = record { posts = []; input_open = true }

abbrev failed_post : List ActorEvent
failed_post = receive ∷ close_input ∷ prepared 0 4 ∷ completed 0 (err (http true)) no_frames ∷ []

run_busy_response_actor-Conserves_example :
    Conserves 5 six_of_ten
      (run_busy_response_actor body_only 100 failed_post fresh_actor waiting_session six_of_ten)
run_busy_response_actor-Conserves_example =
    run_busy_response_actor-Conserves body_only body_only_allocates 100 failed_post fresh_actor
      waiting_session six_of_ten (omega arith)

-- One post is in flight, and no more come.
abbrev last_post : Actor
last_post = record {
  posts = record { response = small_response; form = record { bytes = 0 } } ∷ [];
  input_open = false;
}

run_busy_response_actor-Returns_example : Returns 5 six_of_ten (
    run_busy_response_actor body_only 100
      (prepared 0 3 ∷ completed 0 (ok tt) no_frames ∷ [])
      last_post
      idle_session
      six_of_ten)
run_busy_response_actor-Returns_example =
    run_busy_response_actor-Returns body_only body_only_allocates 100
      (prepared 0 3 ∷ completed 0 (ok tt) no_frames ∷ []) last_post idle_session six_of_ten
      (omega arith) refl (omega arith)

drain-close_example :
    drain open_sink exact_transfer
      (from_secs 5)
      []
      (ping_frame [] ∷ close none ∷ text [] ∷ [])
      (queued_frame ∷ [])
      six_of_ten
    ≡ (ok tt, ping_frame [] ∷ close none ∷ [], drop_queue (queued_frame ∷ []) six_of_ten)
drain-close_example =
    drain-close open_sink exact_transfer (from_secs 5) open_sink_works [] (ping_frame [] ∷ [])
      (text [] ∷ []) none (queued_frame ∷ []) six_of_ten (tt, tt)
