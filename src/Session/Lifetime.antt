-- ===== src/Session/Lifetime.antt =====
-- src/worker.rs: `run_worker` with its connections: it opens the next one only once one has ended, and
-- returns once its token is cancelled. Its delays are in `Timing`.
use prometheus_ws_proxy_clie.Base.{
  ℕ, ◌≤◌, ◌≡◌, Bool, true, false, Option, none, some, List, [], ◌∷◌, Bytes, length, All,
  if◌then◌else◌, Bool-cases, Option-cases, subst, inl, inr, ◌⊎◌,
}
use prometheus_ws_proxy_clie.Protocol.{JsonWriter, IncomingMessage}
use prometheus_ws_proxy_clie.Timing.{Round}
use prometheus_ws_proxy_clie.Memory.{MemoryBudget}
use prometheus_ws_proxy_clie.Memory.Acquire.{IsSound}
use prometheus_ws_proxy_clie.Delivery.Post.{WorkerContext, PostLib}
use prometheus_ws_proxy_clie.Session.Heartbeat.{Happening}
use prometheus_ws_proxy_clie.Session.Connect.{
  Network, Outcome, panicked, stuck, refused, running, over, connection, run_connection,
}
use prometheus_ws_proxy_clie.Session.Concluded.{Concludes, run_connection-Concludes}
use prometheus_ws_proxy_clie.Session.Stopped.{Sustained, IsEnding, IsOver, run_connection-ended}

-- A round of the loop: what the clock and the token give it, what the others have done to the budget
-- since the round before, the events of its connection, and whether its writer ends in time.
pub record Attempt : Type 0 where
  pub round : Round
  pub others : MemoryBudget → MemoryBudget
  pub events : List Happening
  pub flushes : Bool

-- The worker has returned; it waits for its next round; or it is still at a connection that does not
-- end, or has panicked there.
pub data Life : Type 0 where
  returned asleep : MemoryBudget → Life
  held : Life

-- The budget that a connection leaves, if it ends.
abbrev pub left_by : MemoryBudget → Outcome → Option MemoryBudget
left_by b panicked = none
left_by b stuck = none
left_by b (refused _) = some b
left_by b (running _ _) = none
left_by b (over _ _ _ b') = some b'

module _ {Url : Type 0} (lib : PostLib Url) (net : Network Url) (writer : JsonWriter)
    (from_str : Bytes → Option IncomingMessage) (context : WorkerContext Url)
    (worker_name : Bytes) where
  abbrev attempt : Attempt → MemoryBudget → Outcome
  attempt a b = run_connection lib net writer from_str context worker_name a.events a.flushes b

  unfoldable pub run_attempts : List Attempt → MemoryBudget → Life
  run_attempts [] b = asleep b
  run_attempts (a ∷ attempts) b =
      if a.round.cancelled_before
      then returned (a.others b)
      else elim (left_by (a.others b) (attempt a (a.others b))) [
        | none ↦ held
        | some b' ↦ elim a.round.cancelled_asleep [
          | true ↦ returned b'
          | false ↦ run_attempts attempts b'
        ]
      ]

  -- A round in which the loop sees the cancelled token.
  abbrev pub IsCancelled : Attempt → Type 0
  IsCancelled a = (a.round.cancelled_before ≡ true) ⊎ (a.round.cancelled_asleep ≡ true)

  abbrev pub HasCancelled : List Attempt → Type 0
  HasCancelled [] = ⊥
  HasCancelled (a ∷ attempts) = IsCancelled a ⊎ HasCancelled attempts

  -- The worker has returned, with a sound budget.
  abbrev pub IsDone : Life → Type 0
  IsDone (returned b) = IsSound b
  IsDone _ = ⊥

  module _ (grows : (n : ℕ) (bs : Bytes) → length bs ≤ writer.grown_capacity n bs) where
    -- The connection of a round ends, with queues that the others keep bounded and covered and with a
    -- writer that is active; and they keep the budget sound between the connections.
    pub record Ends (a : Attempt) : Type 0 where
      pub sustained :
          Sustained (connection lib net writer from_str context worker_name) grows a.events
      pub ending :
          IsEnding lib net writer from_str
            (connection lib net writer from_str context worker_name)
            a.events
      pub keeps : (b : MemoryBudget) → IsSound b → IsSound (a.others b)

    -- A sound budget is left.
    abbrev Leaves : Option MemoryBudget → Type 0
    Leaves none = ⊥
    Leaves (some b) = IsSound b

    over-Leaves :
        (events : List Happening) (b : MemoryBudget) (o : Outcome)
        → IsOver o
        → Concludes lib net writer from_str grows context worker_name events b o
        → IsSound b
        → Leaves (left_by b o)
    over-Leaves events b panicked e k sound = e
    over-Leaves events b stuck e k sound = e
    over-Leaves events b (refused _) e k sound = sound
    over-Leaves events b (running _ _) e k sound = e
    over-Leaves events b (over _ _ _ b') e (inr (_, _, k)) sound = k.2
    over-Leaves events b (over _ _ _ b') e (inl (_, _, k)) sound = cc

    attempt-Leaves :
        (a : Attempt) (b : MemoryBudget) → Ends a → IsSound b → Leaves (left_by b (attempt a b))
    attempt-Leaves a b e sound =
        over-Leaves a.events b (attempt a b)
          (run_connection-ended lib net writer from_str grows context worker_name a.events a.flushes
            b e.sustained e.ending sound)
          (run_connection-Concludes lib net writer from_str grows context worker_name a.events
            a.flushes b e.sustained.supports sound)
          sound

    -- Where the first round does not see the token, a later one does.
    later :
        (a : Attempt) (attempts : List Attempt)
        → HasCancelled (a ∷ attempts)
        → a.round.cancelled_before ≡ false
        → a.round.cancelled_asleep ≡ false
        → HasCancelled attempts
    later a attempts (inl (inl before)) c s = cc
    later a attempts (inl (inr at_rest)) c s = cc
    later a attempts (inr has) c s = has

    -- A worker returns. Under a sound budget, which the others keep sound between its connections,
    -- if each connection's loop stops, and while it runs the others keep its queues bounded and
    -- covered and the writer takes a frame or returns whenever a turn waits for it, and if the
    -- worker sees the cancelled token in some round, then it returns in one of its rounds, and
    -- leaves a sound budget, with the usage within the limit.
    pub run_attempts-IsDone :
        (attempts : List Attempt) (b : MemoryBudget)
        → All Ends attempts
        → HasCancelled attempts
        → IsSound b
        → IsDone (run_attempts attempts b)
    unfolding run_attempts
    run_attempts-IsDone [] b ends has sound = absurd has
    run_attempts-IsDone (a ∷ attempts) b (e, ends) has sound =
        let left = attempt-Leaves a (a.others b) e (e.keeps b sound) in
        elim (Bool-cases a.round.cancelled_before) [
          | inl c ↦ rw (c, run_attempts) (e.keeps b sound)
          | inr c ↦ elim (Option-cases (left_by (a.others b) (attempt a (a.others b)))) [
            | inl n ↦ absurd (subst Leaves n left)
            | inr (b', n) ↦ elim (Bool-cases a.round.cancelled_asleep) [
              | inl s ↦ rw (c, n, s, run_attempts) (subst Leaves n left)
              | inr s ↦
                  rw (c, n, s, run_attempts)
                    (run_attempts-IsDone attempts b' ends (later a attempts has c s)
                      (subst Leaves n left))
            ]
          ]
        ]
