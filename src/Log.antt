-- ===== src/Log.antt =====
-- internal/log/log.go: what logger `New` builds. L are the levels of zap.
use pubsub_event_processor.Common.{
  String, ◌≡◌, Bool, true, List, [], ◌∷◌, Result, ok, err, Error, cause, wrap, quoted, arith,
  Result-cases, inl, inr,
}

-- zapcore.EncoderConfig, as far as the program sets it; `iso8601_time` stands for ISO8601TimeEncoder.
pub record EncoderConfig : Type 0 where
  pub iso8601_time : Bool
  pub time_key : String
  pub message_key : String

-- What zap.New is given; S are the writers.
pub record Logger (L S : Type 0) : Type 0 where
  pub encoder : EncoderConfig
  pub writer : S
  pub level : L
  pub adds_caller : Bool
  pub stacktrace_from : L
  pub fields : List (String × String)

abbrev pub service_name : String
service_name = "pubsub-event-processor"

-- `parse_level` is zapcore.ParseLevel, and `error_level` is zapcore.ErrorLevel.
module _ {L X S : Type 0} (parse_level : String → Result X L) (error_level : L) where
  -- `newCore`
  unfoldable pub new_core : String → String → S → Result (Error X) (Logger L S)
  new_core level version ws = elim (parse_level level) [
    | err x ↦ err (wrap (quoted "parse log level" level) (cause x))
    | ok lvl ↦ ok (record {
      encoder = record { iso8601_time = true; time_key = "ts"; message_key = "msg" };
      writer = ws;
      level = lvl;
      adds_caller = true;
      stacktrace_from = error_level;
      fields = ("service", service_name) ∷ ("version", version) ∷ [];
    })
  ]

  -- `New`; `stdout` is the process's standard output.
  unfoldable pub new_logger : S → String → String → Result (Error X) (Logger L S)
  unfolding new_core
  new_logger stdout level version = new_core level version stdout

  -- A logger logs from the level that was parsed on.
  new_logger-level :
      (stdout : S) (level version : String) (l : Logger L S)
      → new_logger stdout level version ≡ ok l
      → parse_level level ≡ ok l.level
  unfolding new_logger new_core
  new_logger-level stdout level version l h = elim (Result-cases (parse_level level)) [
    | inl (v, e) ↦ ground arith
    | inr (x, e) ↦ absurd (ground arith)
  ]
