-- ===== src/Examples/Runs.antt =====
-- One event on its way through the running service, from its stream to the table.
use pubsub_event_processor.Examples.Lists.{lists, wiring, empty_state}
use pubsub_event_processor.Common.{
  ℕ, ◌+◌, ◌^◌, ◌≤◌, ◌<◌, length, String, ◌≡◌, refl, ap, true, false, none, some, [], ◌∷◌, Result,
  ok, err, Error, arith, lookup, insert, delete, dec_lt, ℕ_discrete, string_discrete,
}
use pubsub_event_processor.Replay.Cursor.{Bytes, ReplayId, TopicCursor, record_done, drain}
use pubsub_event_processor.Replay.Cursor as Cursor
use pubsub_event_processor.Replay.Committer.{done, snapshot, pending_of, cleaned}
use pubsub_event_processor.Replay.System.{System}
use pubsub_event_processor.Replay.Invariant.{IsPosition}
use pubsub_event_processor.Replay.System as Replay
use pubsub_event_processor.Pipeline.{seen_step, mark_step, persist_step, forward_step}
use pubsub_event_processor.Schema.{get, decode, fetch}
use pubsub_event_processor.Storage.{upsert}
use pubsub_event_processor.Subscriber.Stream.{ConsumerEvent, emit}
use pubsub_event_processor.Worker.{RawEvent}
use pubsub_event_processor.Worker.Tasks.{Task, idle, fetching, acking, Shared, advance}
use pubsub_event_processor.App.{ack}
use pubsub_event_processor.Service.{
  out_buffer, Feed, new_feed, Service, raw_of, receive_next, start, respond, receive, pick, put,
  take, work, acknowledge, flush, cancel, leave, Reach, begin, next,
}
use pubsub_event_processor.Service.{Later, now, step_on}

-- A schema source that always answers, with schemas that are numbers, and payloads that are their first byte.
abbrev pub source : String → ℕ → Result (Error ℕ) String × ℕ
source id n = (ok "long", n + 1)

abbrev pub parse : String → Result ℕ ℕ
parse raw = ok 1

abbrev pub unmarshal : ℕ → Bytes → Result ℕ ℕ
unmarshal sch [] = err 7
unmarshal sch (b ∷ bs) = ok b

abbrev pub stream : String → ℕ → ConsumerEvent
stream topic k = record {
  event_id = "u";
  schema_id = "s";
  payload = k ∷ [];
  replay_id = some (k ∷ []);
  arrived = k;
}

abbrev pub shared : Shared ℕ ℕ lists
shared = record {
  pipeline = empty_state;
  schemas = record { parsed = []; hits = 0; misses = 0 };
  source = 0;
}

abbrev pub Run : Service ℕ ℕ lists → Type 0
Run v = Reach lists wiring source parse unmarshal stream 100 ("t" ∷ []) 1 shared [] v

abbrev pub raw : RawEvent
raw = raw_of lists wiring source parse unmarshal stream "t" 1

abbrev pub v0 : Service ℕ ℕ lists
v0 = start lists wiring source parse unmarshal stream 100 ("t" ∷ []) 1 shared []

-- A response of one event comes.
abbrev pub f0 : Feed
f0 = record (new_feed 100 "t") { waiting = 1 }

-- The response fits, and its event can be sent on.
pub one_fits : f0.receiver.seq + 1 + 1 < 2 ^ 64
one_fits = ground arith

pub has_room : length f0.receiver.out < out_buffer
has_room = ground arith

pub is_first : IsPosition (f0.receiver.seq + 1)
is_first = ground arith

pub one_waits : 1 ≤ f0.waiting
one_waits = ground arith

abbrev pub run0 : Run (record v0 { feeds = f0 ∷ [] })
run0 = next (begin ((λ h. h), tt)) (respond [] [] (new_feed 100 "t") 1 refl refl one_fits)

abbrev pub f1 : Feed
f1 = receive_next lists wiring source parse unmarshal stream f0

abbrev pub v1 : Service ℕ ℕ lists
v1 = record v0 { feeds = f1 ∷ [] }

abbrev pub run1 : Run v1
run1 = next run0 (receive [] [] f0 refl one_waits has_room is_first)

abbrev pub f2 : Feed
f2 = record f1 { receiver = record f1.receiver { out = [] }; hand = some raw }

abbrev pub v2 : Service ℕ ℕ lists
v2 = record v0 { feeds = f2 ∷ [] }

run2 : Run v2
unfolding emit
run2 = next run1 (pick [] [] f1 raw [] refl refl refl refl)

abbrev pub v3 : Service ℕ ℕ lists
v3 = record v0 { feeds = record f2 { hand = none } ∷ []; events = raw ∷ [] }

pub run3 : Run v3
run3 = next run2 (put [] [] f2 raw refl refl (ground arith))

abbrev pub v4 : Service ℕ ℕ lists
v4 = record v3 { events = []; workers = fetching raw ∷ [] }

run4 : Run v4
run4 = next run3 (take [] [] raw [] refl refl)

abbrev pub after_work : Task ℕ × Shared ℕ ℕ lists → Task ℕ × Shared ℕ ℕ lists
after_work (t, sh) = advance lists wiring source parse unmarshal t sh

abbrev pub working : Task ℕ × Shared ℕ ℕ lists → Service ℕ ℕ lists
working (t, sh) = record v4 { workers = t ∷ []; shared = sh }

more : (c : Task ℕ × Shared ℕ ℕ lists) → Run (working c) → Run (working (after_work c))
more c r = next r (work [] [] c.0 refl)

-- The schema, the cache, the row, the record and the key.
abbrev pub c5 : Task ℕ × Shared ℕ ℕ lists
c5 = after_work (after_work (after_work (after_work (after_work (fetching raw, shared)))))

run5 : Run (working c5)
run5 = more _ (more _ (more _ (more _ (more (fetching raw, shared) run4))))

acked : c5.0 ≡ acking raw
unfolding advance seen_step mark_step persist_step forward_step upsert get fetch decode lookup
acked = refl

-- The event is acknowledged, and a flush takes its snapshot and writes it.
abbrev pub v6 : Service ℕ ℕ lists
v6 = record (working c5) {
  workers = idle ∷ [];
  log = record v0.log { committer = (ack raw (v0.log.committer, [])).0; reports = ("t", 1) ∷ [] };
}

run6 : Run v6
run6 = next run5 (acknowledge [] [] raw [] (ap (λ t. t ∷ []) acked))

abbrev pub l7 : System
l7 = record v6.log {
  committer = (snapshot v6.log.committer).0;
  writing = (snapshot v6.log.committer).1;
  busy = true;
}

run7 : Run (record v6 { log = l7 })
run7 = next run6 (flush l7 (Replay.start refl) refl)

snapshot_is : l7.writing ≡ ("t", some (1 ∷ [])) ∷ []
unfolding snapshot pending_of ack done record_done drain Cursor.advance lookup insert delete
    string_discrete dec_lt ℕ_discrete
snapshot_is = refl

abbrev pub l8 : System
l8 = record l7 {
  committer = Replay.with_save l7.committer;
  table = insert string_discrete "t" (some (1 ∷ [])) [];
  writing = [];
}

abbrev pub v8 : Service ℕ ℕ lists
v8 = record v6 { log = l8 }

pub run8 : Run v8
run8 = next run7 (flush l8 (Replay.saved "t" (some (1 ∷ [])) [] snapshot_is) refl)

pub in_table : lookup string_discrete "t" v8.log.table ≡ some (some (1 ∷ []))
unfolding lookup insert string_discrete
in_table = refl

-- The process is told to stop, and the worker leaves before the flush is finished.
abbrev pub v9 : Service ℕ ℕ lists
v9 = record v8 { is_cancelled = true; workers = [] }

pub run9 : Run v9
run9 = next (next run8 cancel) (leave [] [] refl refl)

abbrev pub v10 : Service ℕ ℕ lists
v10 = record v9 { log = record l8 { busy = false } }

pub later10 : Later lists wiring source parse unmarshal stream 100 v9 v10
later10 = step_on now (flush (record l8 { busy = false }) (Replay.finish refl) refl)

abbrev pub cursor : TopicCursor
cursor = record { next = 2; done = []; replay_id = some (1 ∷ []); dirty = false }

pub cursor_there : lookup string_discrete "t" v10.log.committer.topics ≡ some cursor
unfolding snapshot cleaned pending_of ack done record_done drain Cursor.advance lookup insert delete
    string_discrete dec_lt ℕ_discrete
cursor_there = refl
