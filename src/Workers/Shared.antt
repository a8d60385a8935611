-- ===== src/Workers/Shared.antt =====
-- src/main.rs and src/worker.rs: the budget that the workers share, in every interleaving.
use prometheus_ws_proxy_clie.Base.{
  IsAllocated, ℕ, zero, suc, ◌+◌, ◌≤◌, ◌≡◌, refl, sym, ap, subst, Option, none, Result, ok, err,
  List, [], ◌∷◌, Bytes, length, length-append, arith, All, All-at, All-replace, total, total-append,
  Result-cases, inl, inr,
}
use prometheus_ws_proxy_clie.Error.{BoxError}
use prometheus_ws_proxy_clie.Protocol.{JsonWriter, IncomingMessage}
use prometheus_ws_proxy_clie.Memory.{new, default_memory_budget_size}
use prometheus_ws_proxy_clie.Memory.Acquire.{IsSound, new-IsSound}
use prometheus_ws_proxy_clie.Config.{Config}
use prometheus_ws_proxy_clie.Target.{parse}
use prometheus_ws_proxy_clie.Delivery.Post.{PostLib}
use prometheus_ws_proxy_clie.Session.Connect.{Network}
use prometheus_ws_proxy_clie.Cli.{Cli}
use prometheus_ws_proxy_clie.Process.{Started, start_workers, names}
use prometheus_ws_proxy_clie.Resource.{Runtime}
use prometheus_ws_proxy_clie.Resource.Grown.{IsRuntime}
use prometheus_ws_proxy_clie.Workers.{
  Worker, Workers, live_bytes, idle_workers, Step, acts, Reach, here, next, started,
}
use prometheus_ws_proxy_clie.Workers.Kept.{Kept, Act-Sustains}

abbrev pub worker_bytes : Worker → ℕ
worker_bytes w = live_bytes w.live

abbrev pub IsKeptWorker : Worker → Type 0
IsKeptWorker w = Kept w.live

abbrev pub IsIdle : Worker → Type 0
IsIdle w = w.live ≡ none

-- There are `parallel` workers, their connections are kept, and what they hold is all of the usage,
-- which is within the limit that the process has set.
pub record IsShared (parallel : ℕ) (w : Workers) : Type 0 where
  pub count : length w.all ≡ parallel
  pub kept : All IsKeptWorker w.all
  pub sound : IsSound w.budget
  pub limit : w.budget.limit ≡ default_memory_budget_size
  pub usage : w.budget.used ≡ total worker_bytes w.all

idle-bytes : (workers : List Worker) → All IsIdle workers → total worker_bytes workers ≡ 0
idle-bytes [] idle = refl
idle-bytes (w ∷ workers) idle = omega (arith, ap live_bytes idle.0, idle-bytes workers idle.1)

idle_workers-kept :
    (worker_names : List Bytes)
    → (length (idle_workers worker_names) ≡ length worker_names)
      × All IsKeptWorker (idle_workers worker_names)
      × (total worker_bytes (idle_workers worker_names) ≡ 0)
idle_workers-kept [] = (refl, tt, refl)
idle_workers-kept (worker_name ∷ worker_names) =
    let (count, kept, none_held) = idle_workers-kept worker_names in
    (omega (arith, count), (tt, kept), omega (arith, none_held))

length-names : (uuid : ℕ → Bytes) (first n : ℕ) → length (names uuid first n) ≡ n
length-names uuid first zero = refl
length-names uuid first (suc n) = omega (arith, length-names uuid (first + 1) n)

module _ {Url : Type 0} (rt : Runtime) (laws : IsRuntime rt) (lib : PostLib Url)
    (allocates : (n : ℕ) (pairs : List (Bytes × Bytes)) → IsAllocated (lib.serialize n pairs))
    (net : Network Url) (writer : JsonWriter) (from_str : Bytes → Option IncomingMessage)
    (grows : (n : ℕ) (bs : Bytes) → length bs ≤ writer.grown_capacity n bs) where
  start_workers-made :
      (uuid : ℕ → Bytes) (cli : Cli) (loaded : Result BoxError Config)
      (client : Result BoxError (Unit {0})) (s : Started Url)
      → start_workers lib.urls uuid cli loaded client ≡ ok s
      → (s.budget ≡ new default_memory_budget_size) × (s.workers ≡ names uuid 0 cli.parallel)
  unfolding start_workers
  start_workers-made uuid cli (err x) client s e = cc
  start_workers-made uuid cli (ok config) client s e =
      elim (Result-cases (parse lib.urls config.target)) [
        | inl (target, p) ↦ ground (arith, p, e)
        | inr (x, p) ↦ ground (arith, p, e)
      ]

  start_workers-IsShared :
      (uuid : ℕ → Bytes) (cli : Cli) (loaded : Result BoxError Config)
      (client : Result BoxError (Unit {0})) (s : Started Url)
      → start_workers lib.urls uuid cli loaded client ≡ ok s
      → IsShared cli.parallel (started s)
  unfolding new
  start_workers-IsShared uuid cli loaded client s e =
      let (budget, workers) = start_workers-made uuid cli loaded client s e in
      let (count, kept, none_held) = idle_workers-kept s.workers in
      record {
        count = omega (arith, count, ap length workers, length-names uuid 0 cli.parallel);
        kept = kept;
        sound = subst IsSound (sym budget) (new-IsSound default_memory_budget_size (omega arith));
        limit = rw budget refl;
        usage = rw budget (omega (arith, none_held));
      }

  Step-IsShared :
      (s : Started Url) {parallel : ℕ} {w v : Workers}
      → Step rt lib net writer from_str s.context w v
      → IsShared parallel w
      → IsShared parallel v
  Step-IsShared s {parallel} {w} (acts before after worker_name l l' b e act) k =
      let x : Worker = record { worker_name = worker_name; live = l } in
      let y : Worker = record { worker_name = worker_name; live = l' } in
      let all_kept = subst (All IsKeptWorker) e k.kept in
      let bytes = ap (total worker_bytes) e in
      let before_bytes = total-append worker_bytes before (x ∷ after) in
      let after_bytes = total-append worker_bytes before (y ∷ after) in
      let (kept, sound, shifts) =
        Act-Sustains rt laws lib allocates net writer from_str grows s.context act
          (All-at IsKeptWorker before x after all_kept)
          (k.sound, omega (arith, k.usage, bytes, before_bytes)) in
      record {
        count = omega (
          arith,
          k.count,
          ap length e,
          length-append before (x ∷ after),
          length-append before (y ∷ after),
        );
        kept = All-replace IsKeptWorker before x y after all_kept kept;
        sound = sound;
        limit = omega (arith, shifts, k.limit);
        usage = omega (arith, k.usage, bytes, before_bytes, after_bytes, shifts);
      }

  Reach-IsShared :
      (s : Started Url) {parallel : ℕ} {w v : Workers}
      → Reach rt lib net writer from_str s.context w v
      → IsShared parallel w
      → IsShared parallel v
  Reach-IsShared s here k = k
  Reach-IsShared s (next r st) k = Step-IsShared s st (Reach-IsShared s r k)

  -- Given what the libraries document of their allocations, from the workers that the process
  -- starts, over every interleaving of the tasks of all their connections, which open and close in
  -- any order: there are always as many workers as were asked for, the queues and posts of each
  -- connection are bounded, each of its responses holds exactly its allocations, the usage of the
  -- budget is exactly what the connections and the tasks of their scrapes hold, and it never passes
  -- the default limit. So nothing leaks: while no worker has a connection, the usage is zero.
  pub Reach-started-IsShared :
      (uuid : ℕ → Bytes) (cli : Cli) (loaded : Result BoxError Config)
      (client : Result BoxError (Unit {0})) (s : Started Url) {w : Workers}
      → start_workers lib.urls uuid cli loaded client ≡ ok s
      → Reach rt lib net writer from_str s.context (started s) w
      → IsShared cli.parallel w
        × (w.budget.used ≤ default_memory_budget_size)
        × (All IsIdle w.all → w.budget.used ≡ 0)
  Reach-started-IsShared uuid cli loaded client s {w} e r =
      let k = Reach-IsShared s r (start_workers-IsShared uuid cli loaded client s e) in
      (
        k,
        omega (arith, k.sound.within, k.sound.bounded, k.limit),
        λ idle. omega (arith, k.usage, idle-bytes w.all idle),
      )
