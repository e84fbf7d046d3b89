-- ===== src/Handler/Log.antt =====
-- internal/handler/log.go
use pubsub_event_processor.Common.{none}
use pubsub_event_processor.Handler.{Handler}

-- `LogHandler.Handle` writes a log line, which is not modelled, and succeeds.
unfoldable pub log_event : {P X S : Type 0} → Handler P X S
log_event e s = (none, s)
