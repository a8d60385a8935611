-- ===== src/Session/Stopped.antt =====
-- src/worker.rs: a connection is over once its loop has taken the cancelled token.
use prometheus_ws_proxy_clie.Base.{
  ℕ, Bool, ◌≤◌, Option, List, [], ◌∷◌, Bytes, length, arith, All, Result-cases, inl, inr, ◌⊎◌,
}
use prometheus_ws_proxy_clie.Protocol.{JsonWriter, IncomingMessage}
use prometheus_ws_proxy_clie.Memory.{MemoryBudget}
use prometheus_ws_proxy_clie.Memory.Acquire.{IsSound}
use prometheus_ws_proxy_clie.Delivery.Post.{WorkerContext, PostLib}
use prometheus_ws_proxy_clie.Session.{Session}
use prometheus_ws_proxy_clie.Session.Turn.{
  Connection, Event, shutdown, written, tick, completion, inbound, Turn, panics, waits, continues,
  returns, Stops, go_on_lem, turn, run,
}
use prometheus_ws_proxy_clie.Session.Heartbeat.{Happening}
use prometheus_ws_proxy_clie.Session.Queues.{IsBounded, TurnLeaves}
use prometheus_ws_proxy_clie.Session.Bounded.{KeepsBounds, turn-IsBounded}
use prometheus_ws_proxy_clie.Session.Covered.{IsCovered}
use prometheus_ws_proxy_clie.Session.Conserved.{brought, TurnCovers, turn-Covers}
use prometheus_ws_proxy_clie.Session.RunCovered.{Supports}
use prometheus_ws_proxy_clie.Session.Moving.{IsMoving, TurnGoes, turn-TurnGoes}
use prometheus_ws_proxy_clie.Session.Connect.{
  Network, Outcome, refused, over, open_session, connection, conclude, run_connection,
}
use prometheus_ws_proxy_clie.Session.Concluded.{open_session-ok}

abbrev pub IsShutdown : Happening → Type 0
IsShutdown (_, shutdown) = Unit
IsShutdown _ = ⊥

abbrev pub HasShutdown : List Happening → Type 0
HasShutdown [] = ⊥
HasShutdown (h ∷ events) = IsShutdown h ⊎ HasShutdown events

abbrev pub Moves : Happening → Type 0
Moves h = IsMoving h.1

abbrev pub IsReturned : Turn → Type 0
IsReturned (returns _ _ _ _) = Unit
IsReturned _ = ⊥

-- The loop does not go on.
abbrev pub HasStopped : Turn → Type 0
HasStopped (continues _ _) = ⊥
HasStopped _ = Unit

abbrev pub any_stop : Stops (λ _. Unit) HasStopped
any_stop = (λ _. tt, λ _. tt, λ r f s b _. tt)

-- The loop has neither panicked nor waits for ever.
abbrev IsSettled : Turn → Type 0
IsSettled panics = ⊥
IsSettled waits = ⊥
IsSettled _ = Unit

stopped_settled : (t : Turn) → HasStopped t → IsSettled t → IsReturned t
stopped_settled panics s t = t
stopped_settled waits s t = t
stopped_settled (continues _ _) s t = s
stopped_settled (returns _ _ _ _) s t = tt

module _ (c : Connection)
    (grows : (n : ℕ) (bs : Bytes) → length bs ≤ c.writer.grown_capacity n bs) where
  -- What the other tasks do keeps the queues bounded and covered, and the writer is active.
  pub record Sustained (events : List Happening) : Type 0 where
    pub supports : All (Supports c grows) events
    pub keeps : KeepsBounds c events
    pub moves : All Moves events

  run-IsSettled :
      (events : List Happening) (s : Session) (b : MemoryBudget)
      → Sustained events
      → IsCovered s b
      → IsBounded s
      → IsSettled (run c events s b)
  unfolding run
  run-IsSettled [] s b u k l = tt
  run-IsSettled ((between, event) ∷ events) s b u k l =
      let (covered, enabled, room) = u.supports.0 s b k in
      let few = u.keeps.0 s b l in
      go_on_lem
        (λ t.
          TurnCovers (brought event) (between s b).0 (between s b).1 t
          × TurnLeaves IsBounded t
          × TurnGoes t)
        IsSettled (turn c event (between s b).0 (between s b).1) (run c events)
        (λ p. p.0, λ p. p.2, λ r f s' b' p. tt)
        (
          turn-Covers c grows event _ _ covered enabled room,
          turn-IsBounded c event _ _ few,
          turn-TurnGoes c event _ _ few u.moves.0,
        )
        λ s' b' p.
          run-IsSettled events s' b'
            (record { supports = u.supports.1; keeps = u.keeps.1; moves = u.moves.1 }) p.0.0 p.1

  -- A loop that does not go on has returned.
  pub run-IsReturned :
      (events : List Happening) (s : Session) (b : MemoryBudget)
      → Sustained events
      → IsCovered s b
      → IsBounded s
      → HasStopped (run c events s b)
      → IsReturned (run c events s b)
  run-IsReturned events s b u k l stopped =
      stopped_settled (run c events s b) stopped (run-IsSettled events s b u k l)

  stops_here :
      (between : Session → MemoryBudget → Session × MemoryBudget) (event : Event)
      (events : List Happening) (s : Session) (b : MemoryBudget)
      → IsShutdown (between, event)
      → HasStopped (run c ((between, event) ∷ events) s b)
  unfolding run turn
  stops_here between shutdown events s b h = tt
  stops_here between (written _) events s b h = absurd h
  stops_here between (tick _) events s b h = absurd h
  stops_here between (completion _ _ _) events s b h = absurd h
  stops_here between (inbound _ _) events s b h = absurd h

  pub run-HasStopped :
      (events : List Happening) (s : Session) (b : MemoryBudget)
      → HasShutdown events
      → HasStopped (run c events s b)
  unfolding run
  run-HasStopped [] s b has = absurd has
  run-HasStopped ((between, event) ∷ events) s b (inl here) =
      stops_here between event events s b here
  run-HasStopped ((between, event) ∷ events) s b (inr later) =
      go_on_lem (λ _. Unit) HasStopped (turn c event (between s b).0 (between s b).1) (run c events)
        any_stop tt λ s' b' _. run-HasStopped events s' b' later

-- The connection was refused, or it is over.
abbrev pub IsOver : Outcome → Type 0
IsOver (refused _) = Unit
IsOver (over _ _ _ _) = Unit
IsOver _ = ⊥

module _ {Url : Type 0} (lib : PostLib Url) (net : Network Url) (writer : JsonWriter)
    (from_str : Bytes → Option IncomingMessage) where
  conclude-IsOver :
      (flushes : Bool) (t : Turn)
      → IsReturned t
      → IsOver (conclude lib net writer from_str flushes t)
  unfolding conclude
  conclude-IsOver flushes panics r = r
  conclude-IsOver flushes waits r = r
  conclude-IsOver flushes (continues s b) r = r
  conclude-IsOver flushes (returns _ _ s b) r = tt

  -- The loop does not go on over these events, wherever it begins.
  abbrev pub IsEnding : Connection → List Happening → Type 0
  IsEnding c events = (s : Session) (b : MemoryBudget) → HasStopped (run c events s b)

  pub run_connection-ended :
      (grows : (n : ℕ) (bs : Bytes) → length bs ≤ writer.grown_capacity n bs)
      (context : WorkerContext Url) (worker_name : Bytes) (events : List Happening) (flushes : Bool)
      (b : MemoryBudget)
      → Sustained (connection lib net writer from_str context worker_name) grows events
      → IsEnding (connection lib net writer from_str context worker_name) events
      → IsSound b
      → IsOver (run_connection lib net writer from_str context worker_name events flushes b)
  unfolding run_connection
  run_connection-ended grows context worker_name events flushes b sustained ending sound =
      elim (Result-cases (open_session lib net writer from_str context worker_name)) [
        | inr (e, refusal) ↦ rw (refusal, run_connection) tt
        | inl (s, opened) ↦
            let (_, _, j, _, fresh) =
              open_session-ok lib net writer from_str context worker_name s opened in
            let c : Connection = connection lib net writer from_str context worker_name in
            let covered : IsCovered s b =
              rw fresh (record { holds = (sound, omega arith); exact = tt }) in
            let few : IsBounded s = rw fresh (record {
              control_bound = omega arith;
              bulk_bound = omega arith;
              busy_bound = omega arith;
            }) in
            rw (opened, run_connection)
              (conclude-IsOver flushes (run c events s b)
                (run-IsReturned c grows events s b sustained covered few (ending s b)))
      ]

  -- If the events of a connection under a sound budget have the cancelled token among them, and,
  -- whenever a turn waits for room in the bulk queue, the writer takes a frame or returns, then the
  -- connection is refused or over: it neither panics nor waits for ever nor goes on. What the other
  -- tasks do is assumed to keep the queues bounded and covered, and a vector to hold what is
  -- written to it.
  pub run_connection-IsOver :
      (grows : (n : ℕ) (bs : Bytes) → length bs ≤ writer.grown_capacity n bs)
      (context : WorkerContext Url) (worker_name : Bytes) (events : List Happening) (flushes : Bool)
      (b : MemoryBudget)
      → Sustained (connection lib net writer from_str context worker_name) grows events
      → HasShutdown events
      → IsSound b
      → IsOver (run_connection lib net writer from_str context worker_name events flushes b)
  run_connection-IsOver grows context worker_name events flushes b sustained has sound =
      run_connection-ended grows context worker_name events flushes b sustained
        (λ s b.
          run-HasStopped (connection lib net writer from_str context worker_name) grows events s b
            has)
        sound
