-- ===== src/Session/Connect.antt =====
-- src/worker.rs: `run_connection`: the handshake, the registration, the session, and its end. The
-- handshake is a parameter: given the URL, the headers and the timeout, it says how it ends, if it
-- ends in time.
use prometheus_ws_proxy_clie.Base.{
  Bool, true, false, Option, none, some, Result, ok, err, ok_or, ◌>>=◌, ◌>>◌, List, [], Bytes,
}
use prometheus_ws_proxy_clie.Error.{BoxError, json, url, message, or_field_limit}
use prometheus_ws_proxy_clie.Protocol.{
  JsonWriter, IncomingMessage, validate_instance, validate_worker, register_json,
}
use prometheus_ws_proxy_clie.Timing.{Duration, connect_timeout}
use prometheus_ws_proxy_clie.Memory.{MemoryBudget}
use prometheus_ws_proxy_clie.Delivery.Post.{
  WorkerContext, CfHeaders, PostLib, add_websocket_cf_headers,
}
use prometheus_ws_proxy_clie.Session.{Session, Message, text, try_send, control_queue_capacity}
use prometheus_ws_proxy_clie.Session.Turn.{
  Connection, Event, Turn, panics, waits, continues, returns, run, Finish, finish,
}
use prometheus_ws_proxy_clie.Session.{drop_queue}
use prometheus_ws_proxy_clie.Session.Busy.{drop_responses}

-- `into_client_request`, and `connect_async_with_config`, a failure of which is an error.
pub record Network (Url : Type 0) : Type 0 where
  pub is_request : Url → Bool
  pub connect : Url → CfHeaders → Duration → Option (Result BoxError (Unit {0}))

-- How a connection ends: it is refused before there is a session; it is over, with its result, the
-- session that it leaves and the budget; or it is still running, waits for ever, or has panicked.
pub data Outcome : Type 0 where
  panicked stuck : Outcome
  refused : BoxError → Outcome
  running : Session → MemoryBudget → Outcome
  over : Result BoxError (Unit {0}) → Session → Finish → MemoryBudget → Outcome

abbrev ok_if : Bool → BoxError → Result BoxError (Unit {0})
ok_if true e = ok tt
ok_if false e = err e

abbrev in_time : Option (Result BoxError (Unit {0})) → Result BoxError (Unit {0})
in_time none = err (message "websocket connect timed out")
in_time (some result) = result

-- The session of a new connection, with one message queued.
abbrev pub new_session : List Message → Session
new_session queue = record {
  control = queue;
  bulk = [];
  busy_responses = [];
  writer_ended = false;
  actor_ended = false;
  writer_done = false;
  active_task = none;
}

-- The session and the actor are gone: the queues are dropped with what they hold.
unfoldable pub drop_session : Session → MemoryBudget → MemoryBudget
unfolding drop_queue drop_responses
drop_session s b = drop_queue s.bulk (drop_responses s.busy_responses b)

module _ {Url : Type 0} (lib : PostLib Url) (net : Network Url) (writer : JsonWriter)
    (from_str : Bytes → Option IncomingMessage) where
  -- Everything up to the registration.
  unfoldable pub open_session : WorkerContext Url → Bytes → Result BoxError Session
  open_session context worker_name = do
    or_field_limit (validate_instance context.config.instance')
    or_field_limit (validate_worker worker_name)
    ok_if (net.is_request context.target.ws_url) url
    headers ← add_websocket_cf_headers lib context.config
    in_time (net.connect context.target.ws_url headers connect_timeout)
    registration ←
        ok_or (register_json writer context.protocol context.config.instance' worker_name) json
    queue ←
        ok_or (try_send control_queue_capacity false [] (text registration))
          (message "register message could not be queued")
    ok (new_session queue)

  abbrev pub connection : WorkerContext Url → Bytes → Connection
  connection context worker_name = record {
    worker_name = worker_name;
    protocol = context.protocol;
    timing = context.timing;
    writer = writer;
    from_str = from_str;
  }

  -- `finish`, and the end of the actor.
  unfoldable pub conclude : Bool → Turn → Outcome
  unfolding finish drop_session
  conclude flushes panics = panicked
  conclude flushes waits = stuck
  conclude flushes (continues s b) = running s b
  conclude flushes (returns result farewell s b) =
      let (s', writer_end) = finish farewell flushes s in
      over result s' writer_end (drop_session s b)

  -- The connection over the events that come; `flushes` says whether the writer ends in time.
  unfoldable pub run_connection :
      WorkerContext Url
      → Bytes
      → List ((Session → MemoryBudget → Session × MemoryBudget) × Event)
      → Bool
      → MemoryBudget
      → Outcome
  unfolding open_session conclude
  run_connection context worker_name events flushes b = elim (open_session context worker_name) [
    | err e ↦ refused e
    | ok s ↦ conclude flushes (run (connection context worker_name) events s b)
  ]
