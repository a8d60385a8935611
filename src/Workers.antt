-- ===== src/Workers.antt =====
-- src/main.rs and src/worker.rs: the workers of the process, which share one budget. Each has at
-- most one connection at a time; the turns of all their tasks interleave.
pub mod Kept
pub mod Shared
pub mod Tests
use prometheus_ws_proxy_clie.Base.{
  All, ℕ, ◌+◌, ◌-◌, ◌≤◌, ◌≡◌, ◌≢◌, true, Option, none, some, Result, ok, err, List, [], ◌∷◌, ◌++◌,
  Bytes,
}
use prometheus_ws_proxy_clie.Error.{BoxError}
use prometheus_ws_proxy_clie.Protocol.{JsonWriter, IncomingMessage}
use prometheus_ws_proxy_clie.Memory.{MemoryBudget, MemoryReservation, try_acquire, drop}
use prometheus_ws_proxy_clie.Memory.Response.{BudgetedResponse}
use prometheus_ws_proxy_clie.Delivery.Post.{WorkerContext, PostLib, FormRequest}
use prometheus_ws_proxy_clie.Session.{Session, Farewell}
use prometheus_ws_proxy_clie.Session.Turn.{Event, returns, turn}
use prometheus_ws_proxy_clie.Session.Busy.{Actor, drop_posts}
use prometheus_ws_proxy_clie.Session.Held.{held}
use prometheus_ws_proxy_clie.Session.Connect.{Network, open_session, drop_session, connection}
use prometheus_ws_proxy_clie.Session.World.{World, scraped_bytes, response_bytes, Offered, Own}
use prometheus_ws_proxy_clie.Process.{Started}
use prometheus_ws_proxy_clie.Resource.{Others, Exporter, Runtime}
use prometheus_ws_proxy_clie.Session.Scrape.{scrape}
use prometheus_ws_proxy_clie.Resource.Grown.{Respects}
use prometheus_ws_proxy_clie.Memory.Acquire.{IsSound}
use prometheus_ws_proxy_clie.Session.{Task}

-- A connection, but for the budget; `working` are the bytes that the task of its scrape has acquired.
pub record Live : Type 0 where
  pub session : Session
  pub actor : Actor
  pub scraped : Option (Option BudgetedResponse)
  pub working : ℕ

pub record Worker : Type 0 where
  pub worker_name : Bytes
  pub live : Option Live

pub record Workers : Type 0 where
  pub all : List Worker
  pub budget : MemoryBudget

abbrev pub under : Live → MemoryBudget → World
under l b = record { session = l.session; actor = l.actor; scraped = l.scraped; budget = b }

abbrev pub live_bytes : Option Live → ℕ
live_bytes none = 0
live_bytes (some l) = held l.actor l.session + scraped_bytes l.scraped + l.working

abbrev pub fresh_actor : Actor
fresh_actor = record { posts = []; input_open = true }

-- A connection that has just been registered.
abbrev pub just_opened : Session → Live
just_opened s = record { session = s; actor = fresh_actor; scraped = none; working = 0 }

-- Others that hold so many bytes keep them, as far as there is room.
abbrev pub Stands : ℕ → Others → Type 0
Stands held others = Respects (λ n. n ≡ held) others

abbrev pub reservation : ℕ → MemoryReservation
reservation n = record { bytes = n }

unfoldable pub drop_scraped : Option (Option BudgetedResponse) → MemoryBudget → MemoryBudget
drop_scraped (some (some r)) b = drop r.retained b
drop_scraped (some none) b = b
drop_scraped none b = b

-- A connection ends: its scrape and its actor are aborted, and all that they and the queues hold is
-- dropped.
unfoldable pub drop_live : Live → MemoryBudget → MemoryBudget
unfolding drop_scraped drop_posts drop_session
drop_live l b =
    let b' = drop (reservation l.working) (drop_scraped l.scraped b) in
    drop_session l.session (drop_posts l.actor.posts b')

-- All workers of the process before any of them has a connection.
abbrev pub idle_workers : List Bytes → List Worker
idle_workers [] = []
idle_workers (worker_name ∷ names) =
    record { worker_name = worker_name; live = none } ∷ idle_workers names

module _ {Url : Type 0} (rt : Runtime) (lib : PostLib Url) (net : Network Url) (writer : JsonWriter)
    (from_str : Bytes → Option IncomingMessage) (context : WorkerContext Url) where
  -- A worker and the budget change together.
  pub data Act (worker_name : Bytes) (b : MemoryBudget)
      : Option Live → Option Live → MemoryBudget → Type 0 where
    -- a connection is opened and registered
    opens :
        (s : Session)
        → open_session lib net writer from_str context worker_name ≡ ok s
        → Act worker_name b none (some (just_opened s)) b
    -- a task of the connection does something
    own :
        (l : Live) (v : World)
        → Own (connection lib net writer from_str context worker_name) (under l b) v
        → Act worker_name b
            (some l)
            (some (record {
              session = v.session;
              actor = v.actor;
              scraped = v.scraped;
              working = l.working;
            }))
            v.budget
    -- the task of a scrape acquires bytes
    acquires :
        (l : Live) (n : ℕ) (b' : MemoryBudget)
        → l.session.active_task ≢ none
        → l.scraped ≡ none
        → try_acquire n b ≡ (ok tt, b')
        → Act worker_name b (some l) (some (record l { working = l.working + n })) b'
    -- it gives some of its bytes back
    gives_back :
        (l : Live) (n : ℕ)
        → n ≤ l.working
        → Act worker_name b
            (some l)
            (some (record l { working = l.working - n }))
            (drop (reservation n) b)
    -- it sends the result of a scrape, whatever the exporter and the server have answered; the
    -- bytes that the task still has are those by which such a scrape changes the usage of a budget
    -- on which the others stand still
    reports :
        (l : Live) (task : Task) (client : Bytes → Others × Result BoxError Exporter)
        (send : FormRequest Url → Others × Result BoxError ℕ) (before after : MemoryBudget)
        (o : Option BudgetedResponse)
        → l.session.active_task ≡ some task
        → l.scraped ≡ none
        → IsSound before
        → ((url : Bytes) → Stands before.used (client url).0)
        → ((url : Bytes) (e : Exporter)
            → (client url).1 ≡ ok e
            → All (λ item. Stands before.used item.others) e.items)
        → ((request : FormRequest Url) → Stands before.used (send request).0)
        → scrape rt client (record lib { send = send }) context task.uid task.resource before
          ≡ some (o, after)
        → before.used + l.working ≡ after.used
        → Act worker_name b (some l) (some (record l { scraped = some o; working = 0 })) b
    -- the loop returns
    closes :
        (l : Live) (event : Event) (o : Option (Option BudgetedResponse))
        (result : Result BoxError (Unit {0})) (farewell : Farewell) (s : Session)
        (b' : MemoryBudget)
        → Offered (under l b) event o
        → turn (connection lib net writer from_str context worker_name) event l.session b
          ≡ returns result farewell s b'
        → Act worker_name b (some l) none (drop_live (record l { session = s; scraped = o }) b')

  -- One worker acts, and the others stand still.
  pub data Step (w : Workers) : Workers → Type 0 where
    acts :
        (before after : List Worker) (worker_name : Bytes) (l l' : Option Live) (b : MemoryBudget)
        → w.all ≡ before ++ (record { worker_name = worker_name; live = l } ∷ after)
        → Act worker_name w.budget l l' b
        → Step w (record {
          all = before ++ (record { worker_name = worker_name; live = l' } ∷ after);
          budget = b;
        })

  pub data Reach (w : Workers) : Workers → Type 0 where
    here : Reach w w
    next : {v u : Workers} → Reach w v → Step v u → Reach w u

-- The workers as the process starts them.
abbrev pub started : {Url : Type 0} → Started Url → Workers
started s = record { all = idle_workers s.workers; budget = s.budget }
