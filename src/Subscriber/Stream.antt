-- ===== src/Subscriber/Stream.antt =====
-- Opening a stream and receiving from it: `initialFetch`, `runReceiver`, and what `Run` does with them
-- from one stream to the next.
pub mod Numbering
use pubsub_event_processor.Common.{
  ℕ, zero, suc, ◌+◌, ◌%◌, ◌^◌, String, Bool, true, false, Option, none, some, List, [], ◌∷◌, ◌++◌,
  Result, ok, err, Error, wrap, text,
}
use pubsub_event_processor.Replay.Cursor.{Bytes, ReplayId, u64}
use pubsub_event_processor.Worker.{RawEvent}

pub data ReplayPreset : Type 0 where
  latest earliest custom : ReplayPreset

-- `FetchRequest`
pub record FetchRequest : Type 0 where
  pub topic_name : String
  pub replay_preset : ReplayPreset
  pub replay_id : ReplayId
  pub num_requested : ℕ

-- The fields of `Subscriber` that its receiver owns, and the events put on `out`, the first one first.
pub record Receiver : Type 0 where
  pub topic : String
  pub batch_size : ℕ
  pub seq : ℕ  -- uint64
  pub last_replay_id : ReplayId
  pub out : List RawEvent

-- What `NewSubscriber` makes of them; the batch size is the one that it has clamped to an `int32`.
abbrev pub new_receiver : String → ℕ → Receiver
new_receiver topic batch_size = record {
  topic = topic;
  batch_size = batch_size;
  seq = 0;
  last_replay_id = none;
  out = [];
}

-- A `ConsumerEvent` with the time of its arrival.
pub record ConsumerEvent : Type 0 where
  pub event_id : String
  pub schema_id : String
  pub payload : Bytes
  pub replay_id : ReplayId
  pub arrived : ℕ

-- The request for a replay ID, nil or not.
abbrev pub fetch_from : Receiver → ReplayId → FetchRequest
fetch_from r none = record {
  topic_name = r.topic;
  replay_preset = latest;
  replay_id = none;
  num_requested = r.batch_size;
}
fetch_from r (some rid) = record {
  topic_name = r.topic;
  replay_preset = custom;
  replay_id = some rid;
  num_requested = r.batch_size;
}

module _ {X S : Type 0} (load_replay : String → S → Result (Error X) ReplayId × S) where
  abbrev pub fetch_loaded : Receiver → Result (Error X) ReplayId → Result (Error X) FetchRequest
  fetch_loaded r (err x) = err (wrap (text "load replay cursor") x)
  fetch_loaded r (ok rid) = ok (fetch_from r rid)

  -- `initialFetch`
  unfoldable pub initial_fetch : Receiver → S → Result (Error X) FetchRequest × S
  initial_fetch r s = elim r.last_replay_id [
    | some rid ↦ (ok (fetch_from r (some rid)), s)
    | none ↦ let (loaded, s') = load_replay r.topic s in (fetch_loaded r loaded, s')
  ]

-- One event sent on `out`, and what the receiver then records.
unfoldable pub emit : Receiver → ConsumerEvent → Receiver
emit r e = record r {
  seq = u64 (r.seq + 1);
  last_replay_id = e.replay_id;
  out =
      r.out
      ++ record {
        topic = r.topic;
        seq = u64 (r.seq + 1);
        event_id = e.event_id;
        schema_id = e.schema_id;
        payload = e.payload;
        replay_id = e.replay_id;
        received_at = e.arrived;
      }
        ∷ [];
}

-- How a stream ends: an error of `Recv`, or the context is cancelled.
pub data StreamEnd (X : Type 0) : Type 0 where
  recv_error : X → StreamEnd X
  cancelled : StreamEnd X

-- What a stream brings: batches of events, in each of which the context may be cancelled before an event is
-- sent on `out` (the events after that one are not received), and an end.
pub data Incoming (X : Type 0) : Type 0 where
  batch : List ConsumerEvent → Incoming X → Incoming X
  cut : List ConsumerEvent → Incoming X
  broken : X → Incoming X

-- The inner loop of `runReceiver`.
unfoldable pub emit_all : Receiver → List ConsumerEvent → Receiver
unfolding emit
emit_all r [] = r
emit_all r (e ∷ es) = emit_all (emit r e) es

-- `runReceiver`; `cut es` is a batch of which `es` were sent when the context was cancelled.
unfoldable pub run_receiver : {X : Type 0} → Receiver → Incoming X → Receiver × StreamEnd X
run_receiver r (batch es more) = run_receiver (emit_all r es) more
run_receiver r (cut es) = (emit_all r es, cancelled)
run_receiver r (broken x) = (r, recv_error x)

-- The streams of `Run`, one after the other: `runOnce` waits for the receiver before it returns.
unfoldable pub run_streams : {X : Type 0} → Receiver → List (Incoming X) → Receiver
run_streams r [] = r
run_streams r (i ∷ is) = run_streams (run_receiver r i).0 is

-- The events that a stream brings to `out`.
unfoldable pub received : {X : Type 0} → Incoming X → List ConsumerEvent
received (batch es more) = es ++ received more
received (cut es) = es
received (broken x) = []

unfoldable pub all_received : {X : Type 0} → List (Incoming X) → List ConsumerEvent
all_received [] = []
all_received (i ∷ is) = received i ++ all_received is
