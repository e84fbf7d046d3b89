-- ===== src/Worker.antt =====
-- internal/worker/pool.go: one worker takes one event to completion.
pub mod Retry
pub mod Acks
pub mod Attempts
pub mod EndToEnd
pub mod Tasks
use pubsub_event_processor.Common.{
  ℕ, zero, suc, ◌+◌, ◌*◌, min, String, Bool, true, false, Option, none, some, List, [], ◌∷◌, Result,
  ok, err, Error, length,
}
use pubsub_event_processor.Replay.Cursor.{Bytes, ReplayId}
use pubsub_event_processor.Event.{DecodedEvent}

-- time.Duration, in nanoseconds.
abbrev pub retry_min_delay : ℕ
retry_min_delay = 100_000_000

abbrev pub retry_max_delay : ℕ
retry_max_delay = 10_000_000_000

-- `pubsub.RawEvent` with the fields of its protobuf `ConsumerEvent` that the program reads.
pub record RawEvent : Type 0 where
  pub topic : String
  pub seq : ℕ
  pub event_id : String
  pub schema_id : String
  pub payload : Bytes
  pub replay_id : ReplayId
  pub received_at : ℕ

-- What the context does around a failed attempt: it is live, it was cancelled before the test of `ctx.Err`,
-- or it is cancelled during the wait.
pub data Ctx : Type 0 where
  live cancelled cancelled_waiting : Ctx

-- How `retry` stands: it returned true, it returned false, or it is still trying when the sequence of
-- attempts that is looked at ends.
pub data Outcome (A : Type 0) : Type 0 where
  succeeded : A → Outcome A
  abandoned : Outcome A
  trying : Outcome A

-- The counters of `poolMetrics`.
pub record PoolMetrics : Type 0 where
  pub processed : ℕ
  pub failed_schema : ℕ
  pub failed_decode : ℕ
  pub failed_handler : ℕ

abbrev pub next_delay : ℕ → ℕ
next_delay delay = min (delay * 2) retry_max_delay

module _ {A X S : Type 0} (fn : S → Result X A × S) where
  -- The loop of `retry`. `ctxs` says what the context does after each failure; the waits are recorded,
  -- one for each failure that was counted and logged.
  unfoldable pub retry_from : List Ctx → ℕ → S → Outcome A × S × List ℕ
  retry_from [] delay s =
      let (r, s') = fn s in elim r [ ok a ↦ (succeeded a, s', []) | err x ↦ (trying, s', []) ]
  retry_from (c ∷ cs) delay s =
      let (r, s') = fn s in
      elim r [
        | ok a ↦ (succeeded a, s', [])
        | err x ↦ elim c [
          | cancelled ↦ (abandoned, s', [])
          | cancelled_waiting ↦ (abandoned, s', delay ∷ [])
          | live ↦
              let (o, s'', waits) = retry_from cs (next_delay delay) s' in (o, s'', delay ∷ waits)
        ]
      ]

-- What a call of `process` leaves: the calls of `ack`, the counters and the state.
pub record Processed (S : Type 0) : Type 0 where
  pub acks : List RawEvent
  pub metrics : PoolMetrics
  pub state : S

-- The event that `process` hands on.
abbrev pub decoded_event : {P : Type 0} → RawEvent → P → DecodedEvent P
decoded_event raw payload = record {
  topic = raw.topic;
  event_id = raw.event_id;
  schema_id = raw.schema_id;
  replay_id = raw.replay_id;
  payload = payload;
  received_at = raw.received_at;
}

module _ {Sch P X S : Type 0} (get_schema : String → S → Result (Error X) Sch × S)
    (decode : Sch → Bytes → Result (Error X) P)
    (handle : DecodedEvent P → S → Option (Error X) × S) where
  -- The function that the second `retry` of `process` runs.
  unfoldable pub try_handler : RawEvent → P → S → Result (Error X) (Unit {0}) × S
  try_handler raw payload s =
      let (r, s') = handle (decoded_event raw payload) s in
      (elim r [ none ↦ ok tt | some x ↦ err x ], s')

  -- `process` behind its second `retry`.
  abbrev pub after_handler : RawEvent → PoolMetrics → Outcome (Unit {0}) × S × List ℕ → Processed S
  after_handler raw m (succeeded _, s, waits) = record {
    acks = raw ∷ [];
    metrics = record m {
      processed = m.processed + 1;
      failed_handler = m.failed_handler + length waits;
    };
    state = s;
  }
  after_handler raw m (abandoned, s, waits) = record {
    acks = [];
    metrics = record m { failed_handler = m.failed_handler + length waits };
    state = s;
  }
  after_handler raw m (trying, s, waits) = record {
    acks = [];
    metrics = record m { failed_handler = m.failed_handler + length waits };
    state = s;
  }

  -- `process` from the decoding on.
  unfoldable pub decode_and_handle : List Ctx → RawEvent → PoolMetrics → Sch → S → Processed S
  unfolding try_handler
  decode_and_handle ctxs raw m sch s = elim (decode sch raw.payload) [
    | err x ↦ record {
      acks = raw ∷ [];
      metrics = record m { failed_decode = m.failed_decode + 1 };
      state = s;
    }
    | ok payload ↦ after_handler raw m (retry_from (try_handler raw payload) ctxs retry_min_delay s)
  ]

  abbrev pub count_schema : PoolMetrics → List ℕ → PoolMetrics
  count_schema m waits = record m { failed_schema = m.failed_schema + length waits }

  -- `process` behind its first `retry`.
  unfoldable pub after_schema :
      List Ctx → RawEvent → PoolMetrics → Outcome Sch × S × List ℕ → Processed S
  unfolding decode_and_handle
  after_schema ctxs raw m (succeeded sch, s, waits) =
      decode_and_handle ctxs raw (count_schema m waits) sch s
  after_schema ctxs raw m (abandoned, s, waits) = record {
    acks = [];
    metrics = count_schema m waits;
    state = s;
  }
  after_schema ctxs raw m (trying, s, waits) = record {
    acks = [];
    metrics = count_schema m waits;
    state = s;
  }

  -- `process`; the two lists say what the context does during the two retries.
  unfoldable pub process : List Ctx → List Ctx → RawEvent → PoolMetrics → S → Processed S
  unfolding after_schema
  process schema_ctxs handler_ctxs raw m s =
      after_schema handler_ctxs raw m
        (retry_from (get_schema raw.schema_id) schema_ctxs retry_min_delay s)
