-- ===== src/Session/Heartbeat.antt =====
-- src/worker.rs: the clock of `Session::run`: `last_inbound`, and the ticks of the heartbeat.
use prometheus_ws_proxy_clie.Base.{◌+◌, ◌-◌, ◌≤◌, none, some, ok, err, List, [], ◌∷◌, All}
use prometheus_ws_proxy_clie.Timing.{Duration}
use prometheus_ws_proxy_clie.Memory.{MemoryBudget}
use prometheus_ws_proxy_clie.Session.{Session}
use prometheus_ws_proxy_clie.Session.Turn.{Event, shutdown, written, tick, completion, inbound}

-- What happens before a turn, and its event.
abbrev pub Happening : Type 0
Happening = (Session → MemoryBudget → Session × MemoryBudget) × Event

-- A happening, with its time.
abbrev pub Timed : Type 0
Timed = Duration × Happening

-- `last_inbound` after a turn: a message, but no error, of the stream moves it.
unfoldable pub next_inbound : Duration → Duration → Event → Duration
next_inbound last now shutdown = last
next_inbound last now (written _) = last
next_inbound last now (tick _) = last
next_inbound last now (completion _ _ _) = last
next_inbound last now (inbound _ none) = last
next_inbound last now (inbound _ (some (err _))) = last
next_inbound last now (inbound _ (some (ok _))) = now

-- A tick sees the time since the last inbound message.
unfoldable pub at_time : Duration → Duration → Event → Event
at_time last now shutdown = shutdown
at_time last now (written result) = written result
at_time last now (tick _) = tick (now - last)
at_time last now (completion taken response joined) = completion taken response joined
at_time last now (inbound taken m) = inbound taken m

-- When the next tick is due at the latest, if each comes within a period after the one before it.
unfoldable pub next_due : Duration → Duration → Duration → Event → Duration
next_due period due now shutdown = due
next_due period due now (written _) = due
next_due period due now (tick _) = now + period
next_due period due now (completion _ _ _) = due
next_due period due now (inbound _ _) = due

-- The events of the loop, from the time of the last inbound message.
unfoldable pub clocked : Duration → List Timed → List Happening
unfolding next_inbound at_time
clocked last [] = []
clocked last ((now, (between, event)) ∷ events) =
    (between, at_time last now event) ∷ clocked (next_inbound last now event) events

-- The happenings up to a time, if the first tick is taken by the time that is due, and each further one
-- within a period after the one before it.
abbrev pub Ticks : Duration → Duration → Duration → List Timed → Type 0
Ticks period due until [] = until ≤ due
Ticks period due until ((now, (_, event)) ∷ events) =
    (now ≤ due) × Ticks period (next_due period due now event) until events

-- No message of the server.
abbrev pub IsSilent : Event → Type 0
IsSilent (inbound _ (some (ok _))) = ⊥
IsSilent _ = Unit

abbrev pub AllSilent : List Timed → Type 0
AllSilent = All λ h. IsSilent h.1.1

-- A tick comes within the timeout after the last message of the server.
abbrev pub IsInTime : Duration → Duration → Duration → Event → Type 0
IsInTime timeout last now (tick _) = now ≤ last + timeout
IsInTime timeout last now _ = Unit

-- Every tick does.
abbrev pub IsAttended : Duration → Duration → List Timed → Type 0
IsAttended timeout last [] = Unit
IsAttended timeout last ((now, (_, event)) ∷ events) =
    IsInTime timeout last now event × IsAttended timeout (next_inbound last now event) events
