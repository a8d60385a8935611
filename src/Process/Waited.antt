-- ===== src/Process/Waited.antt =====
-- src/main.rs: which signals end the process, and how soon.
use mathlib.Core.List.{append-nil}
use prometheus_ws_proxy_clie.Base.{
  ◌++◌, ap, sym, ◌∙◌, ◌+◌, ◌-◌, ◌≤◌, ◌<◌, ◌≡◌, refl, Bool, true, false, Option, none, some, List,
  [], ◌∷◌, All, arith, leb, max, Bool-cases, inl, inr, ◌⊎◌,
}
use prometheus_ws_proxy_clie.Timing.{Duration}
use prometheus_ws_proxy_clie.Process.{
  Signal, hangup, interrupt, terminate, recv, run_until_signal, shutdown_grace, await_workers,
  shut_down,
}

-- A worker ends, and by the deadline.
abbrev pub EndsBy : Duration → Option Duration → Type 0
EndsBy deadline none = ⊥
EndsBy deadline (some end) = end ≤ deadline

-- The time at which the last of them has ended.
abbrev pub last_end : Duration → List (Option Duration) → Duration
last_end now [] = now
last_end now (none ∷ workers) = last_end now workers
last_end now (some end ∷ workers) = last_end (max now end) workers

-- All workers end by the deadline and have been joined when the last of them has ended; or some
-- worker does not, and the wait ends at the deadline.
abbrev pub Waits : Duration → Duration → List (Option Duration) → Bool × Duration → Type 0
Waits deadline now workers (joined, end) =
    ((joined ≡ true)
      × All (EndsBy deadline) workers
      × (end ≡ last_end now workers)
      × (end ≤ deadline))
    ⊎ ((joined ≡ false) × (¬ All (EndsBy deadline) workers) × (end ≡ deadline))

await_workers-Waits :
    (deadline now : Duration) (workers : List (Option Duration))
    → now ≤ deadline
    → Waits deadline now workers (await_workers deadline now workers)
unfolding await_workers
await_workers-Waits deadline now [] h = inl (refl, tt, refl, h)
await_workers-Waits deadline now (none ∷ workers) h = inr (refl, (λ all. absurd all.0), omega arith)
await_workers-Waits deadline now (some end ∷ workers) h =
    elim (Bool-cases (leb end (now + (deadline - now)))) [
      | inl early ↦
          let in_time : end ≤ deadline = ground (arith, early) in
          rw (early, await_workers)
            (elim (await_workers-Waits deadline (max now end) workers (omega arith)) [
              | inl (joined, all, last, by) ↦ inl (joined, (in_time, all), last, by)
              | inr (missed, some_late, at) ↦ inr (missed, (λ all. some_late all.1), at)
            ])
      | inr late ↦
          let over : deadline < end = ground (arith, late) in
          rw (late, await_workers)
            (inr (refl, (λ all. absurd (omega (arith, over, all.0))), omega arith))
    ]

shut_down-Waits :
    (now : Duration) (workers : List (Option Duration))
    → Waits (now + shutdown_grace) now workers (shut_down now workers)
      × ((shut_down now workers).1 ≤ now + shutdown_grace)
unfolding shut_down
shut_down-Waits now workers =
    let w = await_workers-Waits (now + shutdown_grace) now workers (omega arith) in
    (w, elim w [ inl (_, _, _, by) ↦ by | inr (_, _, at) ↦ omega (arith, at) ])

abbrev pub IsHangup : Duration × Signal → Type 0
IsHangup (_, hangup) = Unit
IsHangup _ = ⊥

recv-hangups :
    (ready : Duration) (before signals : List (Duration × Signal))
    → All IsHangup before
    → recv ready (before ++ signals) ≡ recv ready signals
unfolding recv
recv-hangups ready [] signals h = refl
recv-hangups ready ((_, hangup) ∷ before) signals h = recv-hangups ready before signals h.1
recv-hangups ready ((_, interrupt) ∷ before) signals h = absurd h.0
recv-hangups ready ((_, terminate) ∷ before) signals h = absurd h.0

recv_first :
    (ready at : Duration) (signal : Signal) (later : List (Duration × Signal))
    → ¬ IsHangup (at, signal)
    → recv ready ((at, signal) ∷ later) ≡ some (max ready at)
unfolding recv
recv_first ready at hangup later stops = absurd (stops tt)
recv_first ready at interrupt later stops = refl
recv_first ready at terminate later stops = refl

-- Hangups alone never end the process. Whatever hangups come before, the first interrupt or termination
-- ends it within 15 seconds after it has come and the signals are awaited, whatever the workers do: if
-- all of them end in that time, it ends once the last has, with all joined; else it ends after
-- exactly 15 seconds.
pub run_until_signal-Waits :
    (ready : Duration) (before : List (Duration × Signal)) (at : Duration) (signal : Signal)
    (later : List (Duration × Signal)) (workers : List (Option Duration))
    → All IsHangup before
    → ¬ IsHangup (at, signal)
    → (run_until_signal ready before workers ≡ none)
      × (joined : Bool) × (end : Duration) × (run_until_signal ready
            (before ++ ((at, signal) ∷ later))
            workers
          ≡ some (joined, end))
      × Waits (max ready at + shutdown_grace) (max ready at) workers (joined, end)
      × (end ≤ max ready at + shutdown_grace)
unfolding run_until_signal
run_until_signal-Waits ready before at signal later workers hangups stops =
    let never : recv ready before ≡ none =
      ap (recv ready) (sym (append-nil before)) ∙ recv-hangups ready before [] hangups in
    let first =
      recv-hangups ready before ((at, signal) ∷ later) hangups
      ∙ recv_first ready at signal later stops in
    let (waits, in_time) = shut_down-Waits (max ready at) workers in
    (
      ground (arith, never),
      (shut_down (max ready at) workers).0,
      (shut_down (max ready at) workers).1,
      ground (arith, first),
      waits,
      in_time,
    )
