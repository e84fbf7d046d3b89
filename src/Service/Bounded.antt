-- ===== src/Service/Bounded.antt =====
-- How much the running service can hold: backpressure.
use pubsub_event_processor.Common.{
  ℕ, zero, suc, ◌+◌, ◌*◌, ◌≤◌, String, ◌≡◌, refl, ap, List, [], ◌∷◌, map, Result, Error, arith,
  none, some, Option, All, length, replicate, total,
}
use pubsub_event_processor.Replay.Cursor.{Bytes}
use pubsub_event_processor.Replay.Committer.{Pending}
use pubsub_event_processor.Event.Services.{Services}
use pubsub_event_processor.Pipeline.{Wiring}
use pubsub_event_processor.Subscriber.Stream.{ConsumerEvent}
use pubsub_event_processor.Worker.Tasks.{Task, idle, Shared}
use pubsub_event_processor.Service.Lengths.{IsRoomy, IsWithin, response_of, Bounded, Step-Bounded}
use pubsub_event_processor.Service.{Feed, new_feed, Service, carried, Reach, begin, next}

abbrev pub hand_size : {A : Type 0} → Option A → ℕ
hand_size none = 0
hand_size (some a) = 1

-- The events that the service holds between the streams and the acknowledgements, those of the responses that
-- the receivers go through included.
abbrev pub in_service : {P Sch N : Type 0} {s : Services P} → Service Sch N s → ℕ
in_service v =
    total (λ f. f.waiting + length f.receiver.out + hand_size f.hand) v.feeds
    + length v.events
    + total (λ t. hand_size (carried t)) v.workers

module _ {P Sch N : Type 0} (s : Services P) (g : Wiring)
    (src : String → N → Result (Error s.E) String × N) (parse : String → Result s.E Sch)
    (unmarshal : Sch → Bytes → Result s.E P) (stream : String → ℕ → ConsumerEvent) (batch_size : ℕ)
    (topics : List String) (count : ℕ) where
  start_feeds :
      (limit : ℕ) (ts : List String)
      → All (IsWithin limit) (map (new_feed batch_size) ts)
        × All IsRoomy (map (new_feed batch_size) ts)
        × (length (map (new_feed batch_size) ts) ≡ length ts)
  start_feeds limit [] = (tt, tt, refl)
  start_feeds limit (t ∷ ts) =
      let (c, a, b) = start_feeds limit ts in ((omega arith, c), (omega arith, a), omega (arith, b))

  start_workers : (n : ℕ) → length (replicate n (let t : Task P = idle in t)) ≡ n
  start_workers zero = refl
  start_workers (suc n) = omega (arith, start_workers n)

  -- Every response that the service received on the way has at most this many events.
  abbrev pub Within :
      ℕ
      → {shared : Shared Sch N s} {table : Pending} {v : Service Sch N s}
      → Reach s g src parse unmarshal stream batch_size topics count shared table v
      → Type 0
  Within limit (begin d) = Unit
  Within limit (next r st) =
      Within limit r
      × (response_of s g src parse unmarshal stream batch_size topics count st ≤ limit)

  Reach-Bounded :
      (limit : ℕ) (shared : Shared Sch N s) (table : Pending) {v : Service Sch N s}
      (r : Reach s g src parse unmarshal stream batch_size topics count shared table v)
      → Within limit r
      → Bounded s g src parse unmarshal stream batch_size topics count limit v
  Reach-Bounded limit shared table (begin d) within =
      let (c, a, b) = start_feeds limit topics in
      record {
        waits = c;
        outs = a;
        feeds = b;
        events = omega arith;
        workers = omega (arith, start_workers count);
      }
  Reach-Bounded limit shared table (next r st) (before, small) =
      Step-Bounded s g src parse unmarshal stream batch_size topics count limit st small
        (Reach-Bounded limit shared table r before)

  hand-size-le : {A : Type 0} (o : Option A) → hand_size o ≤ 1
  hand-size-le none = omega arith
  hand-size-le (some a) = omega arith

  feeds-le :
      (limit : ℕ) (fs : List Feed)
      → All (IsWithin limit) fs
      → All IsRoomy fs
      → total (λ f. f.waiting + length f.receiver.out + hand_size f.hand) fs
        ≤ length fs * (1025 + limit)
  feeds-le limit [] w h = omega arith
  feeds-le limit (f ∷ fs) w h =
      omega (arith, w.0, h.0, feeds-le limit fs w.1 h.1, hand-size-le f.hand)

  workers-le : (ts : List (Task P)) → total (λ t. hand_size (carried t)) ts ≤ length ts
  workers-le [] = omega arith
  workers-le (t ∷ ts) = omega (arith, workers-le ts, hand-size-le (carried t))

  -- If no topic is configured twice, and no response of Salesforce has more than `limit` events: however far
  -- the services fall behind, and however many responses come, between a stream and an acknowledgement the
  -- service never holds more than 1025 events and a response for each topic, two batches, and one event for
  -- each worker. The events of a response that wait to be sent on `out` are counted.
  pub service_is_bounded :
      (limit : ℕ) (shared : Shared Sch N s) (table : Pending) {v : Service Sch N s}
      (r : Reach s g src parse unmarshal stream batch_size topics count shared table v)
      → Within limit r
      → in_service v ≤ length topics * (1025 + limit) + batch_size * 2 + count
  service_is_bounded limit shared table {v} r within =
      let b = Reach-Bounded limit shared table r within in
      omega (
        arith,
        ap (λ n. n * (1025 + limit)) b.feeds,
        b.events,
        b.workers,
        feeds-le limit v.feeds b.waits b.outs,
        workers-le v.workers,
      )
