-- ===== src/Session/World.antt =====
-- src/worker.rs: one connection as its tasks interleave: the session's loop, the writer, and the actor
-- that posts busy answers. One turn of a task is one step. What the task of a scrape does stands in
-- `Workers`.
use prometheus_ws_proxy_clie.Session.{Meanwhile}
use prometheus_ws_proxy_clie.Base.{
  ℕ, ◌+◌, ◌≡◌, ◌≢◌, true, false, Option, none, some, Result, List, [], ◌∷◌,
}
use prometheus_ws_proxy_clie.Error.{BoxError}
use prometheus_ws_proxy_clie.Memory.{MemoryBudget, drop}
use prometheus_ws_proxy_clie.Memory.Response.{BudgetedResponse}
use prometheus_ws_proxy_clie.Delivery.Encode.{EncodedResponse}
use prometheus_ws_proxy_clie.Session.{Session, Message}
use prometheus_ws_proxy_clie.Session.Turn.{Connection, Event, completion, continues, turn}
use prometheus_ws_proxy_clie.Session.Busy.{Actor, ActorEvent, goes, ends, actor_turn}
use prometheus_ws_proxy_clie.Session.{drop_queue}
use prometheus_ws_proxy_clie.Session.Covered.{IsExact}
use prometheus_ws_proxy_clie.Session.Held.{held}
use prometheus_ws_proxy_clie.Protocol.Encoding.{response_json}
use prometheus_ws_proxy_clie.Memory.{max_ws_message_size}

-- `scraped` is the completion channel, whose capacity is one: what the task of a scrape has sent.
pub record World : Type 0 where
  pub session : Session
  pub actor : Actor
  pub scraped : Option (Option BudgetedResponse)
  pub budget : MemoryBudget

abbrev pub response_bytes : Option BudgetedResponse → ℕ
response_bytes none = 0
response_bytes (some r) = r.retained.bytes

abbrev pub scraped_bytes : Option (Option BudgetedResponse) → ℕ
scraped_bytes none = 0
scraped_bytes (some o) = response_bytes o

-- The bytes that the connection holds.
abbrev pub held_by : World → ℕ
held_by w = held w.actor w.session + scraped_bytes w.scraped

abbrev pub IsExactOption : Option BudgetedResponse → Type 0
IsExactOption none = Unit
IsExactOption (some r) = IsExact r

-- The event is not the completion of a scrape.
abbrev pub IsOutside : Event → Type 0
IsOutside (completion _ _ _) = ⊥
IsOutside _ = Unit

-- An event that may come to the loop, and what it leaves in the completion channel.
pub data Offered (w : World) : Event → Option (Option BudgetedResponse) → Type 0 where
  outside : (event : Event) → IsOutside event → Offered w event w.scraped
  complete :
      (o : Option BudgetedResponse) (taken : Meanwhile) (joined : Result BoxError (Unit {0}))
      → w.scraped ≡ some o
      → w.session.active_task ≢ none
      → Offered w (completion taken (some o) joined) none

-- The actor once it has returned.
abbrev pub gone : Actor
gone = record { posts = []; input_open = false }

module _ (c : Connection) where
  -- What the tasks of the connection do, but for the task of a scrape.
  pub data Own (w : World) : World → Type 0 where
    -- a turn of the loop that goes on
    turned :
        (event : Event) (o : Option (Option BudgetedResponse)) (s : Session) (b : MemoryBudget)
        → Offered w event o
        → turn c event w.session w.budget ≡ continues s b
        → Own w (record w { session = s; scraped = o; budget = b })
    -- the writer has sent a control message
    control_sent :
        (m : Message) (control : List Message)
        → w.session.control ≡ m ∷ control
        → Own w (record w { session = record w.session { control = control } })
    -- the writer has sent a response
    bulk_sent :
        (x : EncodedResponse) (bulk : List EncodedResponse)
        → w.session.bulk ≡ x ∷ bulk
        → Own w (record w {
          session = record w.session { bulk = bulk };
          budget = drop x.reservation w.budget;
        })
    -- the writer has returned, and its ends of the queues are dropped
    writer_returned : Own w (record w {
      session = record w.session { control = []; bulk = []; writer_ended = true };
      budget = drop_queue w.session.bulk w.budget;
    })
    -- a turn of the actor that goes on
    act :
        (event : ActorEvent) (a : Actor) (s : Session) (b : MemoryBudget)
        → actor_turn (response_json c.writer) max_ws_message_size event w.actor w.session w.budget
          ≡ goes a s b
        → Own w (record w { session = s; actor = a; budget = b })
    -- a turn of the actor with which it returns
    actor_returned :
        (event : ActorEvent) (s : Session) (b : MemoryBudget)
        → actor_turn (response_json c.writer) max_ws_message_size event w.actor w.session w.budget
          ≡ ends s b
        → Own w (record w { session = s; actor = gone; budget = b })
