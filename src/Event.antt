-- ===== src/Event.antt =====
-- internal/event/event.go, and what the pipeline asks of Postgres, Kafka, Redis and the encoders.
pub mod Services
use pubsub_event_processor.Common.{ℕ, String}
use pubsub_event_processor.Replay.Cursor.{ReplayId}

-- `DecodedEvent`; `P` is the type of decoded payloads, `map[string]any`.
pub record DecodedEvent (P : Type 0) : Type 0 where
  pub topic : String
  pub event_id : String
  pub schema_id : String
  pub replay_id : ReplayId
  pub payload : P
  pub received_at : ℕ
