-- ===== src/Session/Concluded.antt =====
-- src/worker.rs: how a connection begins and ends.
use prometheus_ws_proxy_clie.Base.{
  ℕ, ◌+◌, ◌≤◌, ◌≡◌, refl, Bool, true, false, Option, none, some, Result, ok, err, List, [], ◌∷◌,
  ◌++◌, Bytes, length, arith, All, Option-cases, Bool-cases, Result-cases, inl, inr, ◌⊎◌,
}
use prometheus_ws_proxy_clie.Error.{BoxError}
use prometheus_ws_proxy_clie.Protocol.{
  JsonWriter, IncomingMessage, validate_instance, validate_worker, register_json, max_instance_size,
  max_worker_size,
}
use prometheus_ws_proxy_clie.Memory.{MemoryBudget}
use prometheus_ws_proxy_clie.Memory.Acquire.{Shifts, IsSound, Holds}
use prometheus_ws_proxy_clie.Delivery.Post.{WorkerContext, PostLib}
use prometheus_ws_proxy_clie.Session.{
  Session, Message, text, ping_frame, pong_frame, binary, frame, close, CloseFrame, close_message,
  Farewell, try_send, control_queue_capacity,
}
use prometheus_ws_proxy_clie.Session.Turn.{
  Connection, Event, Turn, panics, waits, continues, returns, run, Finish, ended, flushed, aborted,
  finish,
}
use prometheus_ws_proxy_clie.Session.Accounts.{drop_queue-released}
use prometheus_ws_proxy_clie.Session.Busy.{drop_responses}
use prometheus_ws_proxy_clie.Session.Held.{drop_responses-released}
use prometheus_ws_proxy_clie.Session.Accounts.{holdings}
use prometheus_ws_proxy_clie.Session.Covered.{IsCovered}
use prometheus_ws_proxy_clie.Session.RunCovered.{IsCoveredTurn, Supports, run-IsCovered}
use prometheus_ws_proxy_clie.Session.Farewells.{IsFarewell, EndsWell, run-EndsWell}
use prometheus_ws_proxy_clie.Session.Connect.{
  Network, Outcome, panicked, stuck, refused, running, over, new_session, drop_session,
  open_session, connection, conclude, run_connection,
}

pub drop_session-released :
    (s : Session) (b : MemoryBudget)
    → Holds (holdings s) b
    → IsSound (drop_session s b) × Shifts (holdings s) 0 b (drop_session s b)
unfolding drop_session
drop_session-released s b k =
    let (sound, busy) = drop_responses-released s.busy_responses b (k.0, omega (arith, k.1)) in
    let (sound', bulk) =
      drop_queue-released s.bulk (drop_responses s.busy_responses b)
        (sound, omega (arith, k.1, busy)) in
    (sound', omega (arith, busy, bulk))

-- Where the writer has flushed, a close frame was the last message that it was given.
abbrev pub Flushes : Finish → Session → Type 0
Flushes ended s = Unit
Flushes aborted s = Unit
Flushes flushed s =
    (before : List Message) × (f : Option CloseFrame) × (s.control ≡ before ++ (close f ∷ []))

farewell_close :
    (result : Result BoxError (Unit {0})) (m : Message)
    → IsFarewell result (some m)
    → (f : Option CloseFrame) × (m ≡ close f)
unfolding close_message
farewell_close (ok _) (close f) k = (f, refl)
farewell_close (ok _) (text _) k = absurd k
farewell_close (ok _) (ping_frame _) k = absurd k
farewell_close (ok _) (pong_frame _) k = absurd k
farewell_close (ok _) (binary _) k = absurd k
farewell_close (ok _) (frame _) k = absurd k
farewell_close (err e) m k = (_, k.1)

finish-Flushes :
    (result : Result BoxError (Unit {0})) (farewell : Farewell) (in_time : Bool) (s : Session)
    → IsFarewell result farewell
    → let (s', e) = finish farewell in_time s in Flushes e s' × (s'.active_task ≡ none)
unfolding finish
finish-Flushes result none in_time s f = ground arith
finish-Flushes result (some m) false s f = ground arith
finish-Flushes result (some m) true s f =
    let (reason, e) = farewell_close result m f in
    elim (Bool-cases s.writer_done) [
      | inl done ↦ ground (arith, done)
      | inr live ↦
          elim (Option-cases (try_send control_queue_capacity s.writer_ended s.control m)) [
            | inl full ↦ rw (live, finish, full) (tt, refl)
            | inr (queue, q) ↦
                let last : queue ≡ s.control ++ (close reason ∷ []) = ground (arith, q, e) in
                rw (live, finish, q) ((s.control, reason, last), refl)
          ]
    ]

finish-holdings :
    (farewell : Farewell) (in_time : Bool) (s : Session)
    → holdings (finish farewell in_time s).0 ≡ holdings s
unfolding finish
finish-holdings farewell in_time s = ground arith

module _ {Url : Type 0} (lib : PostLib Url) (net : Network Url) (writer : JsonWriter)
    (from_str : Bytes → Option IncomingMessage) where
  -- A session is opened only if the instance and the worker's name are within their limits, and then
  -- its queues are empty but for the registration, and no scrape is in progress.
  pub open_session-ok :
      (context : WorkerContext Url) (worker_name : Bytes) (s : Session)
      → open_session lib net writer from_str context worker_name ≡ ok s
      → (length context.config.instance' ≤ max_instance_size)
        × (length worker_name ≤ max_worker_size)
        × (j : Bytes) × (register_json writer context.protocol context.config.instance' worker_name
            ≡ some j)
        × (s ≡ new_session (text j ∷ []))
  unfolding open_session validate_instance validate_worker
  open_session-ok context worker_name s e =
      elim (Option-cases
        (register_json writer context.protocol context.config.instance' worker_name)) [
          | inl failed ↦ ground (arith, failed, e)
          | inr (j, made) ↦ (ground (arith, e), ground (arith, e), j, made, ground (arith, made, e))
        ]

  module _ (grows : (n : ℕ) (bs : Bytes) → length bs ≤ writer.grown_capacity n bs)
      (context : WorkerContext Url) (worker_name : Bytes) where
    -- How the loop of a session has ended in `t`: with this result, and, beside the bytes that its
    -- queues held, with the usage of `b`.
    abbrev pub IsLeft : Turn → Result BoxError (Unit {0}) → MemoryBudget → Type 0
    IsLeft panics result b = ⊥
    IsLeft waits result b = ⊥
    IsLeft (continues _ _) result b = ⊥
    IsLeft (returns result' _ s b') result b =
        (result ≡ result')
        × Holds (holdings s) b'
        × (b.used + holdings s ≡ b'.used)
        × (b.limit ≡ b'.limit)

    -- A connection that is over has no task; if its writer has flushed, a close frame was the last
    -- message in the control queue; and of the usage with which its loop `t` returned, exactly what its
    -- queues held has been given back.
    abbrev pub ConcludesLoop : Turn → Outcome → Type 0
    ConcludesLoop t panicked = ⊥
    ConcludesLoop t stuck = t ≡ waits
    ConcludesLoop t (refused e) = ⊥
    ConcludesLoop t (running s b) = (t ≡ continues s b) × IsCovered s b
    ConcludesLoop t (over result s e b) =
        (s.active_task ≡ none) × Flushes e s × IsSound b × IsLeft t result b

    -- The connection is refused by the checks, or its loop over the events has concluded.
    abbrev pub Concludes :
        List ((Session → MemoryBudget → Session × MemoryBudget) × Event)
        → MemoryBudget
        → Outcome
        → Type 0
    Concludes events b o =
        ((e : BoxError) × (open_session lib net writer from_str context worker_name ≡ err e)
          × (o ≡ refused e))
        ⊎ ((s : Session) × (open_session lib net writer from_str context worker_name ≡ ok s)
            × ConcludesLoop
                (run (connection lib net writer from_str context worker_name) events s b) o)

    conclude-Concludes :
        (flushes : Bool) (t : Turn)
        → IsCoveredTurn (connection lib net writer from_str context worker_name) grows t
        → EndsWell t
        → ConcludesLoop t (conclude lib net writer from_str flushes t)
    unfolding conclude
    conclude-Concludes flushes panics k f = k
    conclude-Concludes flushes waits k f = refl
    conclude-Concludes flushes (continues s b) k f = (refl, k)
    conclude-Concludes flushes (returns result farewell s b) k f =
        let (last, idle) = finish-Flushes result farewell flushes s f in
        let (sound, left) = drop_session-released s b k.holds in
        let same = finish-holdings farewell flushes s in
        (idle, last, sound, (refl, k.holds, omega (arith, left), omega (arith, left)))

    pub run_connection-Concludes :
        (events : List ((Session → MemoryBudget → Session × MemoryBudget) × Event)) (flushes : Bool)
        (b : MemoryBudget)
        → All (Supports (connection lib net writer from_str context worker_name) grows) events
        → IsSound b
        → Concludes events b
            (run_connection lib net writer from_str context worker_name events flushes b)
    unfolding run_connection
    run_connection-Concludes events flushes b keeps sound =
        elim (Result-cases (open_session lib net writer from_str context worker_name)) [
          | inr (e, refusal) ↦ rw (refusal, run_connection) (inl (e, refl, refl))
          | inl (s, opened) ↦
              let (_, _, j, _, fresh) = open_session-ok context worker_name s opened in
              let c : Connection = connection lib net writer from_str context worker_name in
              let covered : IsCovered s b =
                rw fresh (record { holds = (sound, omega arith); exact = tt }) in
              rw (opened, run_connection)
                (inr (
                  s,
                  refl,
                  conclude-Concludes flushes (run c events s b)
                      (run-IsCovered c grows events s b keeps covered) (run-EndsWell c events s b),
                ))
        ]
