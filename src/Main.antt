-- ===== src/Main.antt =====
-- cmd/processor/main.go and internal/storage/migrate.go: the start of the program and its end.
use pubsub_event_processor.Common.{
  ◌≡◌, ◌⊎◌, Bool, true, Option, none, some, List, [], ◌∷◌, ◌++◌, Error, cause, wrap, text,
  if◌then◌else◌,
}

-- What `run` has done, in order; `app_closed` and `logger_synced` are its deferred calls.
pub data Stage : Type 0 where
  logger_made migrated app_built app_ran app_closed logger_synced : Stage

-- The errors of the calls that `Migrate` makes: iofs.New, migrate.NewWithSourceInstance and `m.Up`;
-- `is_no_change` tests for migrate.ErrNoChange. The calls of `run` besides: config.Load, log.New, app.New and
-- `App.Run`; `is_canceled` tests for context.Canceled.
pub record Calls (X : Type 0) : Type 0 where
  pub open_source : Option X
  pub open_migrator : Option X
  pub up : Option X
  pub is_no_change : X → Bool
  pub load : Option (Error X)
  pub make_logger : Option (Error X)
  pub new : Option (Error X)
  pub run_app : Option (Error X)
  pub is_canceled : Error X → Bool

module _ {X : Type 0} (calls : Calls X) where
  -- `Migrate`, less its log lines.
  unfoldable pub migrate : Option (Error X)
  migrate = elim calls.open_source [
    | some x ↦ some (wrap (text "init embedded migration source") (cause x))
    | none ↦ elim calls.open_migrator [
      | some x ↦ some (wrap (text "init migrate") (cause x))
      | none ↦ elim calls.up [
        | some x ↦
            if calls.is_no_change x then none else some (wrap (text "apply migrations") (cause x))
        | none ↦ none
      ]
    ]
  ]

  -- `run` once the service is built.
  unfoldable pub run_built : Option (Error X) × List Stage
  run_built = elim calls.run_app [
    | none ↦ (none, app_ran ∷ app_closed ∷ [])
    | some x ↦ (if calls.is_canceled x then none else some x, app_ran ∷ app_closed ∷ [])
  ]

  -- `run` once there is a logger.
  unfoldable pub run_logged : Option (Error X) × List Stage
  unfolding migrate run_built
  run_logged = elim migrate [
    | some x ↦ (some x, [])
    | none ↦ elim calls.new [
      | some x ↦ (some x, migrated ∷ [])
      | none ↦ (run_built.0, migrated ∷ app_built ∷ run_built.1)
    ]
  ]

  -- `run`
  unfoldable pub run : Option (Error X) × List Stage
  unfolding run_logged
  run = elim calls.load [
    | some x ↦ (some x, [])
    | none ↦ elim calls.make_logger [
      | some x ↦ (some x, [])
      | none ↦ (run_logged.0, logger_made ∷ run_logged.1 ++ logger_synced ∷ [])
    ]
  ]

  -- `App.Run` returned nil or a cancellation.
  unfoldable pub IsCleanEnd : Type 0
  IsCleanEnd =
      (calls.run_app ≡ none)
      ⊎ ((x : Error X) × (calls.run_app ≡ some x) × (calls.is_canceled x ≡ true))

  -- config.Load and log.New succeed.
  abbrev pub HasLogger : Type 0
  HasLogger = (calls.load ≡ none) × (calls.make_logger ≡ none)
