-- ===== src/Handler/Persist.antt =====
-- internal/handler/persist.go
use pubsub_event_processor.Common.{Bool, none, some, Result, ok, err, Error, wrap, quoted}
use pubsub_event_processor.Event.{DecodedEvent}
use pubsub_event_processor.Handler.{Handler}

-- `PersistHandler.Handle` over `store.PersistEvent`.
unfoldable pub persist :
    {P X S : Type 0} → (DecodedEvent P → S → Result (Error X) Bool × S) → Handler P X S
persist persist_event e s =
    let (r, s') = persist_event e s in
    (elim r [ ok inserted ↦ none | err x ↦ some (wrap (quoted "persist event" e.event_id) x) ], s')
