-- ===== src/Session/RunCovered.antt =====
-- src/worker.rs: the loop of a session, over any events, loses no byte of the budget.
use prometheus_ws_proxy_clie.Base.{ℕ, ◌+◌, ◌≤◌, List, [], ◌∷◌, Bytes, length, All}
use prometheus_ws_proxy_clie.Memory.{MemoryBudget}
use prometheus_ws_proxy_clie.Session.{Session}
use prometheus_ws_proxy_clie.Session.Accounts.{holdings}
use prometheus_ws_proxy_clie.Session.Turn.{go_on_lem, Connection}
use prometheus_ws_proxy_clie.Session.Turn.{
  Event, Turn, panics, waits, continues, returns, turn, run,
}
use prometheus_ws_proxy_clie.Session.Covered.{IsCovered}
use prometheus_ws_proxy_clie.Session.Conserved.{IsEnabled, TurnCovers, brought, turn-Covers}

module _ (c : Connection)
    (grows : (n : ℕ) (bs : Bytes) → length bs ≤ c.writer.grown_capacity n bs) where
  -- What the other tasks do before a turn keeps the queues covered, and lets the event come: the bytes
  -- of a completed scrape's response are a part of the usage besides those of the queues.
  abbrev pub Supports : (Session → MemoryBudget → Session × MemoryBudget) × Event → Type 0
  Supports (between, event) =
      (s : Session) (b : MemoryBudget)
      → IsCovered s b
      → let (s', b') = between s b in
        IsCovered s' b' × IsEnabled s' event × (holdings s' + brought event ≤ b'.used)

  -- The loop has not panicked, and its queues hold a part of the usage.
  abbrev pub IsCoveredTurn : Turn → Type 0
  IsCoveredTurn panics = ⊥
  IsCoveredTurn waits = Unit
  IsCoveredTurn (continues s b) = IsCovered s b
  IsCoveredTurn (returns _ _ s b) = IsCovered s b

  -- If what the other tasks do between the turns keeps the queues covered, and brings completed
  -- responses whose bytes are a part of the usage, then the loop never panics, over any events, and
  -- when it goes on or returns, its queues hold a part of the usage, with every response that waits to
  -- be posted backed by exactly its allocations.
  pub run-IsCovered :
      (events : List ((Session → MemoryBudget → Session × MemoryBudget) × Event)) (s : Session)
      (b : MemoryBudget)
      → All Supports events
      → IsCovered s b
      → IsCoveredTurn (run c events s b)
  unfolding run
  run-IsCovered [] s b keeps k = k
  run-IsCovered ((between, event) ∷ events) s b (here, rest) k =
      let (covered, enabled, room) = here s b k in
      go_on_lem (TurnCovers (brought event) (between s b).0 (between s b).1) IsCoveredTurn
        (turn c event (between s b).0 (between s b).1) (run c events)
        (λ p. p, λ p. tt, λ r f s' b' l. l.0) (turn-Covers c grows event _ _ covered enabled room)
        λ s' b' l. run-IsCovered events s' b' rest l.0
