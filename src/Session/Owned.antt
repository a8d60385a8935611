-- ===== src/Session/Owned.antt =====
-- src/worker.rs: what each task of a connection keeps.
use prometheus_ws_proxy_clie.Session.{Meanwhile}
use prometheus_ws_proxy_clie.Base.{
  [], ◌∷◌, Bool, ℕ, ◌+◌, ◌≤◌, ◌≡◌, ◌≢◌, refl, ap, subst, true, Option, none, some, Result, List,
  Bytes, length, arith,
}
use prometheus_ws_proxy_clie.Error.{BoxError}
use prometheus_ws_proxy_clie.Memory.{MemoryBudget, drop, max_ws_message_size}
use prometheus_ws_proxy_clie.Memory.Acquire.{IsSound, Shifts, drop-released}
use prometheus_ws_proxy_clie.Memory.Response.{BudgetedResponse}
use prometheus_ws_proxy_clie.Protocol.Encoding.{response_json}
use prometheus_ws_proxy_clie.Delivery.Encode.{EncodedResponse}
use prometheus_ws_proxy_clie.Session.{
  Session, Task, Message, control_queue_capacity, bulk_queue_capacity,
}
use prometheus_ws_proxy_clie.Session.Turn.{
  turn, Connection, Event, shutdown, written, tick, completion, inbound, is_some,
}
use prometheus_ws_proxy_clie.Session.Accounts.{queued_bytes}
use prometheus_ws_proxy_clie.Session.Conserved.{
  brought, IsEnabled, TurnCovers, turn-Covers, response_json-IsAllocated,
}
use prometheus_ws_proxy_clie.Session.Posted.{actor_turn-Conserves}
use prometheus_ws_proxy_clie.Session.Held.{held, Conserves}
use prometheus_ws_proxy_clie.Session.Queues.{IsBounded, TurnLeaves}
use prometheus_ws_proxy_clie.Session.Bounded.{turn-IsBounded}
use prometheus_ws_proxy_clie.Session.World.{
  World, response_bytes, scraped_bytes, held_by, IsExactOption, IsOutside, Offered, outside,
  complete, Own, turned, control_sent, bulk_sent, writer_returned, act, actor_returned,
}
use prometheus_ws_proxy_clie.Session.{drop_queue}
use prometheus_ws_proxy_clie.Session.Accounts.{drop_queue-released}
use prometheus_ws_proxy_clie.Session.Safe.{
  IsSafe, ActingBounded, actor_turn-Bounded, IsSafe-IsCovered, IsSafe-Moves,
}

-- The connection stays safe, and the usage changes by exactly what it holds more or less.
abbrev pub Keeps : World → World → Type 0
Keeps w v = IsSafe v × Shifts (held_by w) (held_by v) w.budget v.budget

outside_event :
    (event : Event) (s : Session) → IsOutside event → (brought event ≡ 0) × IsEnabled s event
outside_event shutdown s o = (refl, tt)
outside_event (written _) s o = (refl, tt)
outside_event (tick _) s o = (refl, tt)
outside_event (completion _ _ _) s o = absurd o
outside_event (inbound _ _) s o = (refl, tt)

some_task : (t : Option Task) → t ≢ none → is_some t ≡ true
some_task none busy = absurd (busy refl)
some_task (some _) busy = refl

completion_event :
    (o : Option BudgetedResponse) (taken : Meanwhile) (joined : Result BoxError (Unit {0}))
    (s : Session)
    → s.active_task ≢ none
    → IsExactOption o
    → (brought (completion taken (some o) joined) ≡ response_bytes o)
      × IsEnabled s (completion taken (some o) joined)
completion_event none taken joined s busy x = (refl, tt)
completion_event (some r) taken joined s busy x = (refl, (some_task s.active_task busy, x))

brings :
    {w : World} {event : Event} {o : Option (Option BudgetedResponse)}
    → Offered w event o
    → IsSafe w
    → (scraped_bytes w.scraped ≡ brought event + scraped_bytes o)
      × IsEnabled w.session event
      × ((p : Option BudgetedResponse) → o ≡ some p → IsExactOption p)
brings {w} (outside event out) k =
    let (nothing, enabled) = outside_event event w.session out in
    (omega (arith, nothing), enabled, k.exact)
brings {w} (complete o taken joined sent busy) k =
    let (bytes, enabled) = completion_event o taken joined w.session busy (k.exact o sent) in
    let all : scraped_bytes w.scraped ≡ response_bytes o = ap scraped_bytes sent in
    (omega (arith, bytes, all), enabled, λ p none_is. cc)

control_sent-Keeps :
    (w : World) (m : Message) (control : List Message)
    → w.session.control ≡ m ∷ control
    → IsSafe w
    → Keeps w (record w { session = record w.session { control = control } })
control_sent-Keeps w m control e k = (
  record {
    bounded = record {
      control_bound = omega (arith, ap length e, k.bounded.control_bound);
      bulk_bound = k.bounded.bulk_bound;
      busy_bound = k.bounded.busy_bound;
    };
    posting = record {
      few = k.posting.few;
      holds = k.posting.holds;
      waiting = k.posting.waiting;
      posting = k.posting.posting;
    };
    scraped = k.scraped;
    exact = k.exact;
  },
  omega arith,
)

-- The bulk queue is shortened, and the bytes of what it loses are given back.
bulk-Keeps :
    (w : World) (control : List Message) (bulk : List EncodedResponse) (ended : Bool) (n : ℕ)
    (b : MemoryBudget)
    → length control ≤ control_queue_capacity
    → length bulk ≤ bulk_queue_capacity
    → queued_bytes w.session.bulk ≡ n + queued_bytes bulk
    → IsSound b
    → Shifts n 0 w.budget b
    → IsSafe w
    → Keeps w (record w {
      session = record w.session { control = control; bulk = bulk; writer_ended = ended };
      budget = b;
    })
bulk-Keeps w control bulk ended n b few fewer bytes sound freed k = (
  record {
    bounded = record { control_bound = few; bulk_bound = fewer; busy_bound = k.bounded.busy_bound };
    posting = record {
      few = k.posting.few;
      holds = (sound, omega (arith, freed, bytes, k.posting.holds));
      waiting = k.posting.waiting;
      posting = k.posting.posting;
    };
    scraped = omega (arith, freed, bytes, k.scraped);
    exact = k.exact;
  },
  omega (arith, freed, bytes),
)

module _ (c : Connection)
    (grows : (n : ℕ) (bs : Bytes) → length bs ≤ c.writer.grown_capacity n bs) where
  -- What a turn leaves, whether the loop goes on or returns.
  pub Offered-Covers :
      {w : World} {event : Event} {o : Option (Option BudgetedResponse)}
      → Offered w event o
      → IsSafe w
      → TurnCovers (brought event) w.session w.budget (turn c event w.session w.budget)
        × (scraped_bytes w.scraped ≡ brought event + scraped_bytes o)
        × ((p : Option BudgetedResponse) → o ≡ some p → IsExactOption p)
  Offered-Covers {w} {event} offer k =
      let (bytes, enabled, exact) = brings offer k in
      (
        turn-Covers c grows event w.session w.budget (IsSafe-IsCovered k) enabled
            (omega (arith, bytes, k.scraped)),
        bytes,
        exact,
      )

  pub Own-Keeps : {w v : World} → Own c w v → IsSafe w → Keeps w v
  Own-Keeps {w} (turned event o s b offer e) k =
      let (covers, bytes, exact) = Offered-Covers offer k in
      let moves = subst (TurnCovers (brought event) w.session w.budget) e covers in
      let bound =
        subst (TurnLeaves IsBounded) e (turn-IsBounded c event w.session w.budget k.bounded) in
      (IsSafe-Moves (brought event) o s b k bytes exact bound moves, omega (arith, bytes, moves.1))
  Own-Keeps {w} (control_sent m control e) k = control_sent-Keeps w m control e k
  Own-Keeps {w} (bulk_sent x bulk e) k =
      let bytes : queued_bytes w.session.bulk ≡ x.reservation.bytes + queued_bytes bulk =
        ap queued_bytes e in
      let freed =
        drop-released x.reservation w.budget
          (k.posting.holds.0, omega (arith, k.posting.holds.1, bytes)) in
      bulk-Keeps w w.session.control bulk w.session.writer_ended x.reservation.bytes
        (drop x.reservation w.budget) k.bounded.control_bound
        (omega (arith, ap length e, k.bounded.bulk_bound)) bytes
        (ground (arith, freed, k.posting.holds.0)) (ground (arith, freed, bytes, k.posting.holds)) k
  Own-Keeps {w} writer_returned k =
      let (sound, freed) =
        drop_queue-released w.session.bulk w.budget
          (k.posting.holds.0, omega (arith, k.posting.holds.1)) in
      bulk-Keeps w [] [] true (queued_bytes w.session.bulk) (drop_queue w.session.bulk w.budget)
        (omega arith) (omega arith) (omega arith) sound freed k
  Own-Keeps {w} (act event a s b e) k =
      let (posting, moved) = subst (Conserves (held w.actor w.session) w.budget) e (
        actor_turn-Conserves (response_json c.writer) (response_json-IsAllocated c grows)
          max_ws_message_size event w.actor w.session w.budget k.posting) in
      (
        record {
          bounded = subst ActingBounded e (
              actor_turn-Bounded (response_json c.writer) max_ws_message_size event w.actor
                w.session w.budget k.bounded);
          posting = posting;
          scraped = omega (arith, moved, k.scraped);
          exact = k.exact;
        },
        omega (arith, moved),
      )
  Own-Keeps {w} (actor_returned event s b e) k =
      let (covered, moved) = subst (Conserves (held w.actor w.session) w.budget) e (
        actor_turn-Conserves (response_json c.writer) (response_json-IsAllocated c grows)
          max_ws_message_size event w.actor w.session w.budget k.posting) in
      (
        record {
          bounded = subst ActingBounded e (
              actor_turn-Bounded (response_json c.writer) max_ws_message_size event w.actor
                w.session w.budget k.bounded);
          posting = record {
            few = omega arith;
            holds = (covered.holds.0, omega (arith, covered.holds.1));
            waiting = covered.exact;
            posting = tt;
          };
          scraped = omega (arith, moved, k.scraped);
          exact = k.exact;
        },
        omega (arith, moved),
      )
