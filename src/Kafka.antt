-- ===== src/Kafka.antt =====
-- internal/kafka/producer.go: publishing one record.
pub mod Build
use pubsub_event_processor.Common.{
  ℕ, ◌+◌, String, Option, none, some, Error, cause, wrap, quoted, length, List,
}
use pubsub_event_processor.Replay.Cursor.{Bytes}
use pubsub_event_processor.Event.Services.{Services}

-- The counters of `producerMetrics`.
pub record ProducerMetrics : Type 0 where
  pub produced : ℕ
  pub failed : ℕ
  pub bytes : ℕ

module _ {P : Type 0} (s : Services P) where
  open s use {W, E, produce_sync}

  abbrev pub counted : Option E → Bytes → ProducerMetrics → ProducerMetrics
  counted (some e) value m = record m { failed = m.failed + 1 }
  counted none value m = record m { produced = m.produced + 1; bytes = m.bytes + length value }

  abbrev pub produce_error : String → Option E → Option (Error E)
  produce_error topic none = none
  produce_error topic (some e) = some (wrap (quoted "produce to" topic) (cause e))

  -- `Producer.Produce`, with `topic` the field of the producer.
  unfoldable pub produce :
      String
      → String
      → Bytes
      → List (String × String)
      → W × ProducerMetrics
      → Option (Error E) × (W × ProducerMetrics)
  produce topic key value headers (w, m) =
      let (r, w') =
        produce_sync (record { topic = topic; key = key; value = value; headers = headers }) w in
      (produce_error topic r, (w', counted r value m))
