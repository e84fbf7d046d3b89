-- ===== src/Handler.antt =====
-- internal/handler: what runs for each decoded event. A handler gives the error that it returns, nil if
-- none, and the state it leaves; `S` is that state, `X` the errors.
pub mod Chain
pub mod Dedup
pub mod Persist
pub mod Forward
pub mod Log
use pubsub_event_processor.Common.{Option, Error}
use pubsub_event_processor.Event.{DecodedEvent}

abbrev pub Handler : Type 0 → Type 0 → Type 0 → Type 0
Handler P X S = DecodedEvent P → S → Option (Error X) × S
