-- ===== src/Handler/Forward.antt =====
-- internal/handler/kafka.go
use pubsub_event_processor.Common.{
  String, Option, none, some, ok, err, Error, cause, wrap, quoted, List, [], ◌∷◌,
}
use pubsub_event_processor.Replay.Cursor.{Bytes}
use pubsub_event_processor.Event.{DecodedEvent}
use pubsub_event_processor.Handler.{Handler}
use pubsub_event_processor.Event.Services.{Services, Envelope}

module _ {P : Type 0} (s : Services P) where
  open s use {E, marshal_envelope, base64}

  abbrev pub envelope_of : DecodedEvent P → Envelope P
  envelope_of e = record {
    event_id = e.event_id;
    topic = e.topic;
    schema_id = e.schema_id;
    replay_id = base64 e.replay_id;
    received_at = e.received_at;
    payload = e.payload;
  }

  abbrev pub headers_of : DecodedEvent P → List (String × String)
  headers_of e = ("event_id", e.event_id) ∷ ("schema_id", e.schema_id) ∷ ("sf_topic", e.topic) ∷ []

  -- `ForwardHandler.Handle` over `producer.Produce`.
  unfoldable pub forward :
      {S : Type 0}
      → (String → Bytes → List (String × String) → S → Option (Error E) × S)
      → Handler P E S
  forward produce e s = elim (marshal_envelope (envelope_of e)) [
    | err x ↦ (some (wrap (quoted "marshal envelope for" e.event_id) (cause x)), s)
    | ok value ↦
        let (r, s') = produce e.topic value (headers_of e) s in
        (elim r [ none ↦ none | some x ↦ some (wrap (quoted "forward event" e.event_id) x) ], s')
  ]
