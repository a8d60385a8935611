-- ===== src/Session/Silent.antt =====
-- src/worker.rs: when the heartbeat ends a connection, and when it does not.
use prometheus_ws_proxy_clie.Base.{
  ℕ, ◌+◌, ◌-◌, ◌≤◌, ◌<◌, ◌≡◌, refl, Option, none, some, Result, ok, err, List, [], ◌∷◌, Bytes,
  length, arith, Bool-cases, inl, inr, ◌⊎◌, ltb,
}
use prometheus_ws_proxy_clie.Error.{BoxError}
use prometheus_ws_proxy_clie.Timing.{Duration}
use prometheus_ws_proxy_clie.Memory.{MemoryBudget}
use prometheus_ws_proxy_clie.Memory.Response.{BudgetedResponse}
use prometheus_ws_proxy_clie.Session.{
  Session, Meanwhile, Message, text, ping_frame, pong_frame, binary, frame, close, panicked,
  waiting, done,
}
use prometheus_ws_proxy_clie.Session.Turn.{
  Connection, Event, shutdown, written, tick, completion, inbound, Turn, returns, go_on_lem,
  same_stops, Handled, or_return, on_tick, on_completion, on_message, turn, run,
}
use prometheus_ws_proxy_clie.Session.Queues.{IsBounded}
use prometheus_ws_proxy_clie.Session.Covered.{IsCovered}
use prometheus_ws_proxy_clie.Session.Heartbeat.{
  Timed, next_inbound, at_time, next_due, clocked, Ticks, IsSilent, AllSilent, IsInTime, IsAttended,
}
use prometheus_ws_proxy_clie.Session.Stopped.{
  IsReturned, HasStopped, any_stop, Sustained, run-IsReturned,
}

-- The heartbeat has not ended the loop: only it ends with an error and a close frame.
abbrev pub NoTimeout : Turn → Type 0
NoTimeout (returns (err _) (some _) _ _) = ⊥
NoTimeout _ = Unit

or_return-NoTimeout : (h : Handled) → NoTimeout (or_return h)
or_return-NoTimeout panicked = tt
or_return-NoTimeout waiting = tt
or_return-NoTimeout (done (ok _) s b) = tt
or_return-NoTimeout (done (err _) s b) = tt

module _ (c : Connection) where
  late_tick :
      (elapsed : Duration) (s : Session) (b : MemoryBudget)
      → c.timing.heartbeat_timeout < elapsed
      → HasStopped (turn c (tick elapsed) s b)
  unfolding turn on_tick
  late_tick elapsed s b late = ground (arith, late)

  early_tick :
      (elapsed : Duration) (s : Session) (b : MemoryBudget)
      → elapsed ≤ c.timing.heartbeat_timeout
      → NoTimeout (turn c (tick elapsed) s b)
  unfolding turn on_tick
  early_tick elapsed s b early = ground (arith, early)

  -- A turn in silence ends the loop, or leaves the clock and a due time that is not too late.
  silent_turn :
      (late last due now : Duration) (event : Event) (s : Session) (b : MemoryBudget)
      → IsSilent event
      → due ≤ last + c.timing.heartbeat_timeout + c.timing.heartbeat_interval + late
      → HasStopped (turn c (at_time last now event) s b)
        ⊎ ((next_inbound last now event ≡ last)
            × (next_due (c.timing.heartbeat_interval + late) due now event
                ≤ last + c.timing.heartbeat_timeout + c.timing.heartbeat_interval + late))
  unfolding at_time next_inbound next_due
  silent_turn late last due now shutdown s b q near = inr (refl, near)
  silent_turn late last due now (written _) s b q near = inr (refl, near)
  silent_turn late last due now (tick _) s b q near =
      elim (Bool-cases (ltb c.timing.heartbeat_timeout (now - last))) [
        | inl over ↦ inl (late_tick (now - last) s b (ground (arith, over)))
        | inr fine ↦ inr (refl, ground (arith, fine))
      ]
  silent_turn late last due now (completion _ _ _) s b q near = inr (refl, near)
  silent_turn late last due now (inbound _ none) s b q near = inr (refl, near)
  silent_turn late last due now (inbound _ (some (err _))) s b q near = inr (refl, near)
  silent_turn late last due now (inbound _ (some (ok _))) s b q near = absurd q

  silence-HasStopped :
      (late last due until : Duration) (events : List Timed) (s : Session) (b : MemoryBudget)
      → AllSilent events
      → Ticks (c.timing.heartbeat_interval + late) due until events
      → due ≤ last + c.timing.heartbeat_timeout + c.timing.heartbeat_interval + late
      → last + c.timing.heartbeat_timeout + c.timing.heartbeat_interval + late < until
      → HasStopped (run c (clocked last events) s b)
  unfolding run clocked
  silence-HasStopped late last due until [] s b q t near far = absurd (omega (arith, t, near, far))
  silence-HasStopped late last due until ((now, (between, event)) ∷ events) s b q t near far =
      elim (silent_turn late last due now event (between s b).0 (between s b).1 q.0 near) [
        | inl over ↦
            go_on_lem HasStopped HasStopped
              (turn c (at_time last now event) (between s b).0 (between s b).1)
              (run c (clocked (next_inbound last now event) events)) (same_stops HasStopped) over
              λ s' b' still. absurd still
        | inr (same, near') ↦ rw same (
            go_on_lem (λ _. Unit) HasStopped
              (turn c (at_time last now event) (between s b).0 (between s b).1)
              (run c (clocked last events)) any_stop tt
              λ s' b' _.
                silence-HasStopped late last
                  (next_due (c.timing.heartbeat_interval + late) due now event) until events s' b'
                  q.1 t.1 near' far)
      ]

  -- A connection on which the server is silent ends. If the ticks are taken at most `late` after
  -- they are due, then over any happenings up to a time later than the last message by more than
  -- the heartbeat timeout, one interval and `late`, a loop that began with bounded and covered
  -- queues has returned; what the other tasks do is assumed to keep them so, and the writer to take
  -- a frame or return while a turn waits for it.
  pub silence-IsReturned :
      (grows : (n : ℕ) (bs : Bytes) → length bs ≤ c.writer.grown_capacity n bs)
      (late last due until : Duration) (events : List Timed) (s : Session) (b : MemoryBudget)
      → Sustained c grows (clocked last events)
      → IsCovered s b
      → IsBounded s
      → AllSilent events
      → Ticks (c.timing.heartbeat_interval + late) due until events
      → due ≤ last + c.timing.heartbeat_timeout + c.timing.heartbeat_interval + late
      → last + c.timing.heartbeat_timeout + c.timing.heartbeat_interval + late < until
      → IsReturned (run c (clocked last events) s b)
  silence-IsReturned grows late last due until events s b u k l q t near far =
      run-IsReturned c grows (clocked last events) s b u k l
        (silence-HasStopped late last due until events s b q t near far)

  on_message-NoTimeout :
      (m : Meanwhile) (i : Message) (s : Session) (b : MemoryBudget)
      → NoTimeout (on_message c m i s b)
  unfolding on_message
  on_message-NoTimeout m (text content) s b = or_return-NoTimeout _
  on_message-NoTimeout m (ping_frame payload) s b = tt
  on_message-NoTimeout m (pong_frame _) s b = tt
  on_message-NoTimeout m (close f) s b = tt
  on_message-NoTimeout m (binary _) s b = tt
  on_message-NoTimeout m (frame _) s b = tt

  on_completion-NoTimeout :
      (m : Meanwhile) (response : Option (Option BudgetedResponse))
      (joined : Result BoxError (Unit {0})) (s : Session) (b : MemoryBudget)
      → NoTimeout (on_completion c m response joined s b)
  unfolding on_completion
  on_completion-NoTimeout m none joined s b = tt
  on_completion-NoTimeout m (some response) (err e) s b = tt
  on_completion-NoTimeout m (some none) (ok _) s b = tt
  on_completion-NoTimeout m (some (some response)) (ok _) s b = or_return-NoTimeout _

  attended_turn :
      (last now : Duration) (event : Event) (s : Session) (b : MemoryBudget)
      → IsInTime c.timing.heartbeat_timeout last now event
      → NoTimeout (turn c (at_time last now event) s b)
  unfolding at_time turn
  attended_turn last now shutdown s b h = tt
  attended_turn last now (written _) s b h = tt
  attended_turn last now (tick _) s b h = early_tick (now - last) s b (omega (arith, h))
  attended_turn last now (completion m response joined) s b h =
      ground (arith, on_completion-NoTimeout m response joined s b)
  attended_turn last now (inbound m none) s b h = tt
  attended_turn last now (inbound m (some (err _))) s b h = tt
  attended_turn last now (inbound m (some (ok i))) s b h = on_message-NoTimeout m i s b

  -- As long as each tick comes at most the heartbeat timeout after the last message of the server, the
  -- heartbeat does not end the connection: over any happenings, if the loop returns with an error,
  -- then it is not the one that comes with a close frame.
  pub run-NoTimeout :
      (last : Duration) (events : List Timed) (s : Session) (b : MemoryBudget)
      → IsAttended c.timing.heartbeat_timeout last events
      → NoTimeout (run c (clocked last events) s b)
  unfolding run clocked
  run-NoTimeout last [] s b h = tt
  run-NoTimeout last ((now, (between, event)) ∷ events) s b h =
      go_on_lem NoTimeout NoTimeout
        (turn c (at_time last now event) (between s b).0 (between s b).1)
        (run c (clocked (next_inbound last now event) events)) (same_stops NoTimeout)
        (attended_turn last now event _ _ h.0)
        λ s' b' _. run-NoTimeout (next_inbound last now event) events s' b' h.1
