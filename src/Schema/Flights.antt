-- ===== src/Schema/Flights.antt =====
-- internal/schema/cache.go: `Get` called by several goroutines at once.
pub mod Held
pub mod Agree
pub mod Alone
use pubsub_event_processor.Common.{
  ℕ, ◌+◌, ◌≡◌, String, Option, none, some, List, Result, ok, err, Error, lookup, string_discrete,
  arith, Option-cases, Result-cases, ◌≢◌, inl, inr, lookup-insert, lookup-insert_self, refl, ◌⊎◌,
}
use pubsub_event_processor.Schema.{Cache, parse_and_store, get, fetch}
use pubsub_event_processor.Singleflight.{
  Caller, idle, missed, leading, asking, waiting, finishing, returned, Flights, FlightState,
  FlightUser, Step, look, join, lead, look_again, answer, finish, leave, Reach, here, next, IsStart,
  looked, looked_again, update, handed_on,
}
use pubsub_event_processor.Singleflight.Manned.{IsManned, step-IsManned, reach-IsManned}
use pubsub_event_processor.Singleflight.Returning.{CanReturn, reach_returns}

-- `c.parsed.Load(id)`, as an answer of `Get`.
abbrev pub parsed_again : {Sch X : Type 0} → String → Cache Sch → Option (Result (Error X) Sch)
parsed_again id c = elim (lookup string_discrete id c.parsed) [
  | none ↦ none
  | some sch ↦ some (ok sch)
]

-- The look before `Do`, with its counter.
abbrev pub look_up :
    {Sch X : Type 0} → String → Cache Sch → Option (Result (Error X) Sch) × Cache Sch
look_up id c = elim (lookup string_discrete id c.parsed) [
  | none ↦ (none, record c { misses = c.misses + 1 })
  | some sch ↦ (some (ok sch), record c { hits = c.hits + 1 })
]

-- What `Get` does around its `singleflight.Group`.
abbrev pub get_client :
    {Sch X : Type 0}
    → (String → Result X Sch)
    → FlightUser (Cache Sch) String (Result (Error X) String) (Result (Error X) Sch)
get_client parse = record {
  key = λ id. id;
  look = look_up;
  again = parsed_again;
  answer = λ raw id c. parse_and_store parse id raw c;
}
