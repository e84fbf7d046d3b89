-- ===== src/Service.antt =====
-- internal/app/app.go, the running service: what `Run` starts side by side. A receiver for each topic
-- (internal/pubsub/subscriber.go), `fanIn` behind it, the workers of the pool (internal/worker/pool.go) and the
-- committer (internal/replay/committer.go), joined by channels.
pub mod Carried
pub mod Held
pub mod Refines
pub mod Accounts
pub mod Committed
pub mod Places
pub mod Conserved
pub mod Lengths
pub mod Bounded
pub mod Finishes
pub mod Ranks
pub mod Drains
pub mod Restart
pub mod Shutdown
use pubsub_event_processor.Common.{
  ℕ, ◌+◌, ◌-◌, ◌*◌, ◌^◌, ◌≤◌, ◌<◌, String, ◌≡◌, Bool, true, false, Option, none, some, List, [],
  ◌∷◌, ◌++◌, map, Result, Error, Has, length, replicate,
}
use pubsub_event_processor.Replay.Cursor.{Bytes, ReplayId}
use pubsub_event_processor.Replay.Invariant.{IsPosition}
use pubsub_event_processor.Replay.Committer.{Pending, new_committer}
use pubsub_event_processor.Replay.System.{System}
use pubsub_event_processor.Replay.System as Replay
use pubsub_event_processor.Event.Services.{Services}
use pubsub_event_processor.Pipeline.{Wiring}
use pubsub_event_processor.Subscriber.Stream.{Receiver, ConsumerEvent, new_receiver, emit}
use pubsub_event_processor.Worker.{RawEvent}
use pubsub_event_processor.Worker.Tasks.{
  Task, idle, fetching, fetch_failed, acking, seeing, storing, sending, marking, handle_failed,
  Shared, advance,
}
use pubsub_event_processor.App.{Subscription, ack}

-- `subscriberOutBuffer`
abbrev pub out_buffer : ℕ
out_buffer = 1024

-- A subscriber with the goroutine that runs `fanIn` for it. The receiver's `out` is the channel, the next event
-- first; `waiting` counts the events of the response that `runReceiver` goes through and has not yet sent on
-- `out`, and `hand` is the event that `fanIn` has taken and not yet sent on.
pub record Feed : Type 0 where
  pub receiver : Receiver
  pub waiting : ℕ
  pub hand : Option RawEvent
  pub stopped : Bool

abbrev pub new_feed : ℕ → String → Feed
new_feed batch_size topic = record {
  receiver = new_receiver topic batch_size;
  waiting = 0;
  hand = none;
  stopped = false;
}

-- What runs: the feeds, the channel `events`, the workers, what these share, the committer with its table; the
-- events that were given up on, and whether the context is cancelled.
pub record Service {P : Type 0} (Sch N : Type 0) (s : Services P) : Type 0 where
  pub feeds : List Feed
  pub events : List RawEvent
  pub workers : List (Task P)
  pub shared : Shared Sch N s
  pub log : System
  pub abandoned : List RawEvent
  pub is_cancelled : Bool

-- The event in a worker's hands, and the one that it waits to try again.
unfoldable pub carried : {P : Type 0} → Task P → Option RawEvent
carried idle = none
carried (fetching raw) = some raw
carried (fetch_failed raw) = some raw
carried (acking raw) = some raw
carried (seeing raw payload) = some raw
carried (storing raw payload) = some raw
carried (sending raw payload) = some raw
carried (marking raw payload) = some raw
carried (handle_failed raw payload) = some raw

abbrev pub waits_on : {P : Type 0} → Task P → Option RawEvent
waits_on (fetch_failed raw) = some raw
waits_on (handle_failed raw payload) = some raw
waits_on _ = none

-- The goroutines that `Pool.Run` starts.
abbrev pub spawned : {P : Type 0} → ℕ → List (Task P)
spawned count = replicate count idle

-- No topic stands twice.
abbrev pub Differ : List String → Type 0
Differ [] = Unit
Differ (t ∷ ts) = (¬ Has t ts) × Differ ts

-- `stream topic k` is the event that the subscriber of the topic receives as its k-th.
module _ {P Sch N : Type 0} (s : Services P) (g : Wiring)
    (src : String → N → Result (Error s.E) String × N) (parse : String → Result s.E Sch)
    (unmarshal : Sch → Bytes → Result s.E P) (stream : String → ℕ → ConsumerEvent) where
  abbrev pub rid : String → ℕ → ReplayId
  rid topic k = (stream topic k).replay_id

  -- The event that the receiver of a topic puts on `out` as its k-th.
  abbrev pub raw_of : String → ℕ → RawEvent
  raw_of topic k = record {
    topic = topic;
    seq = k;
    event_id = (stream topic k).event_id;
    schema_id = (stream topic k).schema_id;
    payload = (stream topic k).payload;
    replay_id = (stream topic k).replay_id;
    received_at = (stream topic k).arrived;
  }

  -- `runReceiver` sends the next event of its response.
  abbrev pub receive_next : Feed → Feed
  receive_next f = record f {
    waiting = f.waiting - 1;
    receiver = emit f.receiver (stream f.receiver.topic (f.receiver.seq + 1));
  }

  -- One step of one goroutine. `batch_size` is FlowBatchSize, and `events` has room for twice as many.
  pub data Step (batch_size : ℕ) (v : Service Sch N s) : Service Sch N s → Type 0 where
    -- `stream.Recv` in `runReceiver`, once the response before is used up: one of `n` events comes.
    respond :
        (before after : List Feed) (f : Feed) (n : ℕ)
        → v.feeds ≡ before ++ f ∷ after
        → f.waiting ≡ 0
        → f.receiver.seq + n + 1 < 2 ^ 64
        → Step batch_size v (record v { feeds = before ++ record f { waiting = n } ∷ after })
    -- The stream ends, and `runReceiver` with it: the rest of its response is dropped, and comes again.
    hang_up :
        (before after : List Feed) (f : Feed)
        → v.feeds ≡ before ++ f ∷ after
        → Step batch_size v (record v { feeds = before ++ record f { waiting = 0 } ∷ after })
    -- The send on `out` in `runReceiver`, which waits while the channel is full.
    receive :
        (before after : List Feed) (f : Feed)
        → v.feeds ≡ before ++ f ∷ after
        → 1 ≤ f.waiting
        → length f.receiver.out < out_buffer
        → IsPosition (f.receiver.seq + 1)
        → Step batch_size v (record v { feeds = before ++ receive_next f ∷ after })
    -- `for e := range sub.Out()`
    pick :
        (before after : List Feed) (f : Feed) (raw : RawEvent) (rest : List RawEvent)
        → v.feeds ≡ before ++ f ∷ after
        → f.stopped ≡ false
        → f.hand ≡ none
        → f.receiver.out ≡ raw ∷ rest
        → Step batch_size v (record v {
          feeds =
              before
              ++ record f { receiver = record f.receiver { out = rest }; hand = some raw } ∷ after;
        })
    -- `case out <- e` of `fanIn`
    put :
        (before after : List Feed) (f : Feed) (raw : RawEvent)
        → v.feeds ≡ before ++ f ∷ after
        → f.hand ≡ some raw
        → length v.events < batch_size * 2
        → Step batch_size v (record v {
          feeds = before ++ record f { hand = none } ∷ after;
          events = v.events ++ raw ∷ [];
        })
    -- `case <-ctx.Done()` of `fanIn`
    quit :
        (before after : List Feed) (f : Feed) (raw : RawEvent)
        → v.feeds ≡ before ++ f ∷ after
        → f.hand ≡ some raw
        → v.is_cancelled ≡ true
        → Step batch_size v (record v {
          feeds = before ++ record f { hand = none; stopped = true } ∷ after;
          abandoned = raw ∷ v.abandoned;
        })
    -- `case raw, ok := <-in` of `worker`
    take :
        (before after : List (Task P)) (raw : RawEvent) (rest : List RawEvent)
        → v.workers ≡ before ++ idle ∷ after
        → v.events ≡ raw ∷ rest
        → Step batch_size v (record v { workers = before ++ fetching raw ∷ after; events = rest })
    -- `case <-ctx.Done()` of `worker`
    leave :
        (before after : List (Task P))
        → v.workers ≡ before ++ idle ∷ after
        → v.is_cancelled ≡ true
        → Step batch_size v (record v { workers = before ++ after })
    -- A worker goes on within `process`.
    work :
        (before after : List (Task P)) (t : Task P)
        → v.workers ≡ before ++ t ∷ after
        → Step batch_size v (record v {
          workers = before ++ (advance s g src parse unmarshal t v.shared).0 ∷ after;
          shared = (advance s g src parse unmarshal t v.shared).1;
        })
    -- `retry` returns false.
    abandon :
        (before after : List (Task P)) (t : Task P) (raw : RawEvent)
        → v.workers ≡ before ++ t ∷ after
        → waits_on t ≡ some raw
        → v.is_cancelled ≡ true
        → Step batch_size v
            (record v { workers = before ++ idle ∷ after; abandoned = raw ∷ v.abandoned })
    -- `App.ack`, whatever slots the subscribers have by then; it ends `process`.
    acknowledge :
        (before after : List (Task P)) (raw : RawEvent) (slots : List Subscription)
        → v.workers ≡ before ++ acking raw ∷ after
        → Step batch_size v (record v {
          workers = before ++ idle ∷ after;
          log = record v.log {
            committer = (ack raw (v.log.committer, slots)).0;
            reports = (raw.topic, raw.seq) ∷ v.log.reports;
          };
        })
    -- A flush goes on: one that `Committer.Run` started, or `flushReplay`.
    flush :
        (l : System)
        → Replay.Step rid v.log l
        → l.reports ≡ v.log.reports
        → Step batch_size v (record v { log = l })
    cancel : Step batch_size v (record v { is_cancelled = true })

  abbrev pub initial_log : Pending → System
  initial_log table = record {
    committer = new_committer;
    table = table;
    writing = [];
    busy = false;
    reports = [];
  }

  -- `Run` before its goroutines do anything.
  abbrev pub start : ℕ → List String → ℕ → Shared Sch N s → Pending → Service Sch N s
  start batch_size topics count shared table = record {
    feeds = map (new_feed batch_size) topics;
    events = [];
    workers = spawned count;
    shared = shared;
    log = initial_log table;
    abandoned = [];
    is_cancelled = false;
  }

  -- What the service can reach with `count` workers over the table `table`. The configured topics differ: two
  -- subscribers of one topic would each have a stream and a numbering of their own.
  pub data Reach (batch_size : ℕ) (topics : List String) (count : ℕ) (shared : Shared Sch N s)
      (table : Pending) : Service Sch N s → Type 0 where
    begin :
        Differ topics
        → Reach batch_size topics count shared table (start batch_size topics count shared table)
    next :
        {v w : Service Sch N s}
        → Reach batch_size topics count shared table v
        → Step batch_size v w
        → Reach batch_size topics count shared table w

  -- What the service reaches from a state on.
  pub data Later (batch_size : ℕ) (v : Service Sch N s) : Service Sch N s → Type 0 where
    now : Later batch_size v v
    step_on :
        {u w : Service Sch N s} → Later batch_size v u → Step batch_size u w → Later batch_size v w

  pub Later-Reach :
      (batch_size : ℕ) (topics : List String) (count : ℕ) (shared : Shared Sch N s)
      (table : Pending) {v w : Service Sch N s}
      → Reach batch_size topics count shared table v
      → Later batch_size v w
      → Reach batch_size topics count shared table w
  Later-Reach n topics count shared table r now = r
  Later-Reach n topics count shared table r (step_on l st) =
      next (Later-Reach n topics count shared table r l) st
