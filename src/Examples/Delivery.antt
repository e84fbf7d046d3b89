-- ===== src/Examples/Delivery.antt =====
-- The theorems on the pipeline and the workers at concrete inputs.
use pubsub_event_processor.Examples.Lists.{
  lists, lists_promises, wiring, empty_state, empty-IsTruthful,
}
use pubsub_event_processor.Common.{
  ℕ, ◌+◌, String, ◌≡◌, ◌≢◌, refl, ◌⊎◌, inl, some, [], ◌∷◌, ◌++◌, Result, ok, err, Error, message,
  if◌then◌else◌, ltb, Has, arith, length, replicate,
}
use pubsub_event_processor.Replay.Cursor.{Bytes}
use pubsub_event_processor.Event.{DecodedEvent}
use pubsub_event_processor.Handler.Chain.{chain}
use pubsub_event_processor.Handler.Dedup.{dedup}
use pubsub_event_processor.Pipeline.{
  State, root, seen_step, mark_step, handlers, persist_step, forward_step,
}
use pubsub_event_processor.Storage.{upsert}
use pubsub_event_processor.RedisCache.{key}
use pubsub_event_processor.Pipeline.Delivery.{Delivered, root-IsTruthful}
use pubsub_event_processor.Worker.{
  live, cancelled_waiting, RawEvent, PoolMetrics, process, decode_and_handle, try_handler,
  after_schema, retry_from, retry_min_delay, succeeded,
}
use pubsub_event_processor.Worker.Retry.{SucceedsAfter, at_once, fails_first, retry_outlasts_outage}
use pubsub_event_processor.Worker.Acks.{AcksMatch, process_acks_once}
use pubsub_event_processor.Worker.EndToEnd.{ack-Delivered}

abbrev event : DecodedEvent ℕ
event = record {
  topic = "/data/AccountChangeEvent";
  event_id = "u-1";
  schema_id = "s-1";
  replay_id = some (7 ∷ []);
  payload = 42;
  received_at = 1;
}

event_marked : Has (key "p:" "u-1") (root lists wiring event empty_state).1.world.marks
unfolding root dedup seen_step mark_step chain handlers persist_step upsert forward_step
event_marked = inl refl

root-IsTruthful_example :
    Delivered lists lists_promises wiring "u-1" (root lists wiring event empty_state).1.world
root-IsTruthful_example =
    root-IsTruthful lists lists_promises wiring event empty_state empty-IsTruthful "u-1"
      event_marked

-- A service that is down twice and then answers.
abbrev flaky : ℕ → Result ℕ ℕ × ℕ
flaky s = (if ltb s 2 then err 503 else ok 9, s + 1)

flaky_recovers : SucceedsAfter flaky 2 0 9 3
flaky_recovers = fails_first refl (fails_first refl (at_once refl))

retry_outlasts_outage_example :
    ((retry_from flaky (replicate 2 live ++ []) retry_min_delay 0).0 ≡ succeeded 9)
    × ((retry_from flaky (replicate 2 live ++ []) retry_min_delay 0).1 ≡ 3)
    × (length (retry_from flaky (replicate 2 live ++ []) retry_min_delay 0).2 ≡ 2)
retry_outlasts_outage_example = retry_outlasts_outage flaky 2 0 3 9 [] flaky_recovers

-- A received event, its schema, and a decoder that refuses the empty payload.
abbrev raw : RawEvent
raw = record {
  topic = "/data/AccountChangeEvent";
  seq = 1;
  event_id = "u-1";
  schema_id = "s-1";
  payload = 42 ∷ [];
  replay_id = some (7 ∷ []);
  received_at = 1;
}

abbrev no_metrics : PoolMetrics
no_metrics = record { processed = 0; failed_schema = 0; failed_decode = 0; failed_handler = 0 }

abbrev schema_of : String → State lists → Result (Error ℕ) ℕ × State lists
schema_of id st = (ok 1, st)

abbrev decode_first : ℕ → Bytes → Result (Error ℕ) ℕ
decode_first sch [] = err (message "empty payload")
decode_first sch (b ∷ bs) = ok b

process_acks_once_example :
    AcksMatch schema_of decode_first
      (root lists wiring)
      []
      (cancelled_waiting ∷ [])
      raw
      empty_state
      (process schema_of decode_first
        (root lists wiring)
        []
        (cancelled_waiting ∷ [])
        raw
        no_metrics
        empty_state)
process_acks_once_example =
    process_acks_once schema_of decode_first (root lists wiring) [] (cancelled_waiting ∷ []) raw
      no_metrics empty_state

raw_is_acked :
    (process schema_of decode_first (root lists wiring) [] [] raw no_metrics empty_state).acks ≢ []
unfolding process decode_and_handle try_handler after_schema retry_from root dedup seen_step chain
    handlers persist_step upsert forward_step
raw_is_acked h = ground arith

ack-Delivered_example :
    ((sch : ℕ) × (x : Error ℕ) × ((t : State lists) × ((schema_of raw.schema_id t).0 ≡ ok sch))
      × (decode_first sch raw.payload ≡ err x))
    ⊎ (ℕ
        × Delivered lists lists_promises wiring "u-1"
            (process schema_of decode_first
              (root lists wiring)
              []
              []
              raw
              no_metrics
              empty_state).state.world)
ack-Delivered_example =
    ack-Delivered lists lists_promises wiring schema_of decode_first (λ id st. refl) [] [] raw
      no_metrics empty_state empty-IsTruthful raw_is_acked
