-- ===== src/Schema/Flights/Agree.antt =====
-- internal/schema/cache.go: what interleaved calls of `Get` agree on.
use pubsub_event_processor.Common.{
  ℕ, ◌≡◌, String, Option, none, some, Result, ok, Error, lookup, string_discrete, arith,
  Option-cases,
}
use pubsub_event_processor.Singleflight.{
  asking, returned, Flights, Step, look, join, lead, look_again, answer, finish, leave, Reach, here,
  next, IsStart, called_key,
}
use pubsub_event_processor.Singleflight.Manned.{IsManned, step-IsManned, reach-IsManned}
use pubsub_event_processor.Singleflight.Returning.{CanReturn, reach_returns}
use pubsub_event_processor.Schema.Flights.{get_client}
use pubsub_event_processor.Schema.Flights.Held.{GetState, IsCached, step-IsCached, answer_other}

module _ {G Sch X : Type 0} (f : Flights G) (parse : String → Result X Sch) where
  start-IsCached : (s : GetState f parse) → IsStart f s → IsCached f parse s
  start-IsCached s st = record {
    holds = λ i k sch h. ground (arith, st.all_idle i);
    misses = λ i k h. ground (arith, st.all_idle i);
  }

  reach-IsCached :
      {s t : GetState f parse}
      → IsStart f s
      → Reach f (get_client parse) s t
      → ((l : String → Option ℕ) × IsManned f t l) × IsCached f parse t
  reach-IsCached st here = (reach-IsManned f (get_client parse) st here, start-IsCached _ st)
  reach-IsCached st (next r u) =
      let ((l, mn), m) = reach-IsCached st r in
      (step-IsManned f (get_client parse) l u mn, step-IsCached f parse l u mn m)

  -- From a state in which nobody has called yet: the source is asked for an ID by one call of `Get` at a
  -- time, however many run, and only while the cache has no schema for the ID.
  pub get_fetches_alone :
      {s t : GetState f parse} (i j : ℕ) (id : String)
      → IsStart f s
      → Reach f (get_client parse) s t
      → t.callers i ≡ asking id
      → t.callers j ≡ asking id
      → (i ≡ j) × (lookup string_discrete id t.cache.parsed ≡ none)
  get_fetches_alone i j id st r hi hj =
      let ((l, mn), m) = reach-IsCached st r in
      (ground (arith, mn.owner i id (ground arith), mn.owner j id (ground arith)), m.misses i id hi)

  step_keeps :
      {s t : GetState f parse} (id : String) (sch : Sch)
      → Step f (get_client parse) s t
      → IsCached f parse s
      → lookup string_discrete id s.cache.parsed ≡ some sch
      → lookup string_discrete id t.cache.parsed ≡ some sch
  step_keeps {s} id sch (look i k at) m h =
      ground (arith, Option-cases (lookup string_discrete k s.cache.parsed))
  step_keeps id sch (join i k at busy) m h = h
  step_keeps id sch (lead i k at free) m h = h
  step_keeps id sch (look_again i k at) m h = h
  step_keeps {s} id sch (answer i k raw at) m h = elim (string_discrete k id) [
    | yes e ↦ absurd (ground (arith, m.misses i k at))
    | no d ↦ ground (arith, answer_other {X = X} f parse raw k id s.cache d)
  ]
  step_keeps id sch (finish i k r at) m h = h
  step_keeps id sch (leave i k r at) m h = h

  later_holds :
      {s t : GetState f parse} (l : String → Option ℕ) (id : String) (sch : Sch)
      → Reach f (get_client parse) s t
      → IsManned f s l
      → IsCached f parse s
      → lookup string_discrete id s.cache.parsed ≡ some sch
      → ((l' : String → Option ℕ) × IsManned f t l')
        × IsCached f parse t
        × (lookup string_discrete id t.cache.parsed ≡ some sch)
  later_holds l id sch here mn m h = ((l, mn), m, h)
  later_holds l id sch (next r u) mn m h =
      let ((l', mn'), m', h') = later_holds l id sch r mn m h in
      (
        step-IsManned f (get_client parse) l' u mn',
        step-IsCached f parse l' u mn' m',
        step_keeps id sch u m' h',
      )

  -- From a state in which nobody has called yet, whatever the interleaving of the calls, and however often
  -- the source is asked: two calls of `Get` for one ID that succeed, at the same time or one long after the
  -- other, return the same schema.
  pub gets_agree :
      {s t u : GetState f parse} (i j : ℕ) (id : String) (a b : Sch)
      → IsStart f s
      → Reach f (get_client parse) s t
      → Reach f (get_client parse) t u
      → t.callers i ≡ returned id (ok a)
      → u.callers j ≡ returned id (ok b)
      → a ≡ b
  gets_agree i j id a b st r q hi hj =
      let ((l, mn), m) = reach-IsCached st r in
      let (mn', m', h) = later_holds l id a q mn m (m.holds i id a (ground arith)) in
      ground (arith, m'.holds j id b (ground arith))

  -- From a state in which nobody has called yet, whatever the callers do: a call of `Get` for an ID that is
  -- in progress, wherever it stands, can come back with a result for that ID.
  pub get-CanReturn :
      (raw : Result (Error X) String) {s t : GetState f parse} (j : ℕ) (id : String)
      → IsStart f s
      → Reach f (get_client parse) s t
      → called_key (t.callers j) ≡ some id
      → CanReturn f (get_client parse) t j id
  get-CanReturn raw j id st r h = reach_returns f (get_client parse) raw j id st r h
