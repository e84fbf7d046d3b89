-- ===== src/Worker/Tasks.antt =====
-- internal/worker/pool.go, the workers of one pool side by side: `process` cut at its calls of the schema
-- cache, Redis, Postgres and Kafka, so that the calls of different workers can interleave.
pub mod Alone
pub mod Progress
use pubsub_event_processor.Common.{
  ℕ, String, Bool, true, false, Option, none, some, Result, ok, err, Error, if◌then◌else◌,
}
use pubsub_event_processor.Replay.Cursor.{Bytes}
use pubsub_event_processor.Event.Services.{Services}
use pubsub_event_processor.Schema.{Cache, get, decode}
use pubsub_event_processor.Pipeline.{
  Wiring, State, persist_step, forward_step, seen_step, mark_step,
}
use pubsub_event_processor.Worker.{RawEvent, decoded_event}

-- Where a worker stands. `fetch_failed` and `handle_failed` are the waits of `retry` after a failed attempt,
-- and in `acking` the call of `ack` is next.
pub data Task (P : Type 0) : Type 0 where
  idle : Task P
  fetching fetch_failed acking : RawEvent → Task P
  seeing storing sending marking handle_failed : RawEvent → P → Task P

-- What the workers share: the services with the counters, the schema cache, and the source of the schemas.
pub record Shared {P : Type 0} (Sch N : Type 0) (s : Services P) : Type 0 where
  pub pipeline : State s
  pub schemas : Cache Sch
  pub source : N

-- `src` is the source of the schema cache, `parse` is avro.Parse, and `unmarshal` is avro.Unmarshal.
module _ {P Sch N : Type 0} (s : Services P) (g : Wiring)
    (src : String → N → Result (Error s.E) String × N) (parse : String → Result s.E Sch)
    (unmarshal : Sch → Bytes → Result s.E P) where
  -- The start of `root`.
  abbrev pub handle_start : RawEvent → P → Task P
  handle_start raw payload = if g.redis_enabled then seeing raw payload else storing raw payload

  -- The chain has returned nil.
  abbrev pub chain_end : RawEvent → P → Task P
  chain_end raw payload = if g.redis_enabled then marking raw payload else acking raw

  -- `process` after its first `retry`: what becomes of the decoded payload.
  abbrev pub after_decode : RawEvent → Result (Error s.E) P → Task P
  after_decode raw (err x) = acking raw
  after_decode raw (ok payload) = handle_start raw payload

  abbrev pub after_get : RawEvent → Result (Error s.E) Sch → Task P
  after_get raw (err x) = fetch_failed raw
  after_get raw (ok sch) = after_decode raw (decode unmarshal (some sch) raw.payload)

  abbrev pub after_seen : RawEvent → P → Result (Error s.E) Bool → Task P
  after_seen raw payload (ok true) = acking raw
  after_seen raw payload (ok false) = storing raw payload
  after_seen raw payload (err x) = storing raw payload

  abbrev pub after_persist : RawEvent → P → Option (Error s.E) → Task P
  after_persist raw payload (some x) = handle_failed raw payload
  after_persist raw payload none =
      if g.kafka_enabled then sending raw payload else chain_end raw payload

  abbrev pub after_forward : RawEvent → P → Option (Error s.E) → Task P
  after_forward raw payload (some x) = handle_failed raw payload
  after_forward raw payload none = chain_end raw payload

  abbrev pub with_pipeline : Shared Sch N s → State s → Shared Sch N s
  with_pipeline sh st = record sh { pipeline = st }

  -- A worker goes on by one call, or from a wait to the next attempt.
  unfoldable pub advance : Task P → Shared Sch N s → Task P × Shared Sch N s
  advance idle sh = (idle, sh)
  advance (acking raw) sh = (acking raw, sh)
  advance (fetch_failed raw) sh = (fetching raw, sh)
  advance (handle_failed raw payload) sh = (handle_start raw payload, sh)
  advance (fetching raw) sh =
      let (r, c) = get src parse raw.schema_id (sh.schemas, sh.source) in
      (after_get raw r, record sh { schemas = c.0; source = c.1 })
  advance (seeing raw payload) sh =
      let (r, st) = seen_step s g.key_prefix raw.event_id sh.pipeline in
      (after_seen raw payload r, with_pipeline sh st)
  advance (storing raw payload) sh =
      let (r, st) = persist_step s (decoded_event raw payload) sh.pipeline in
      (after_persist raw payload r, with_pipeline sh st)
  advance (sending raw payload) sh =
      let (r, st) = forward_step s g.kafka_topic (decoded_event raw payload) sh.pipeline in
      (after_forward raw payload r, with_pipeline sh st)
  advance (marking raw payload) sh =
      let (r, st) = mark_step s g.key_prefix raw.event_id sh.pipeline in
      (acking raw, with_pipeline sh st)
