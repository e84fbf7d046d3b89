-- ===== src/Schema/Flights/Alone.antt =====
-- internal/schema/cache.go: one call of `Get` that nobody else disturbs, beside the function of the whole call.
use pubsub_event_processor.Common.{
  ℕ, ◌+◌, ◌≡◌, String, Result, Error, false, lookup, string_discrete, arith, Option-cases, inl, inr,
}
use pubsub_event_processor.Schema.{Cache, parse_and_store, get, fetch}
use pubsub_event_processor.Singleflight.{
  idle, returned, Flights, look, lead, look_again, answer, finish, Reach, here, next,
}
use pubsub_event_processor.Schema.Flights.{get_client}
use pubsub_event_processor.Schema.Flights.Held.{GetState}

module _ {G Sch X S : Type 0} (f : Flights G) (src : String → S → Result (Error X) String × S)
    (parse : String → Result X Sch) where
  -- A call of `Get` that finds no flight for its ID and is not disturbed returns what the function `get`
  -- returns, when the source answers it as `src` says, and leaves the cache that `get` leaves.
  pub get_alone :
      (s : GetState f parse) (i : ℕ) (id : String) (w : S)
      → s.callers i ≡ idle
      → f.in_flight id s.group ≡ false
      → let (r, (c, w')) = get src parse id (s.cache, w) in
        (t : GetState f parse) × Reach f (get_client parse) s t
        × (t.callers i ≡ returned id r)
        × (t.cache ≡ c)
  unfolding get fetch
  get_alone s i id w at free = elim (Option-cases (lookup string_discrete id s.cache.parsed)) [
    | inr (sch, hit) ↦ (_, next here (look i id at), ground arith, ground arith)
    | inl miss ↦
        let c : Cache Sch = record s.cache { misses = s.cache.misses + 1 } in
        let r1 = next here (look i id at) in
        let r2 = next r1 (lead i id (ground arith) free) in
        let r3 = next r2 (look_again i id (ground arith)) in
        let r4 = next r3 (answer i id (src id w).0 (ground arith)) in
        let r5 = next r4 (finish i id (parse_and_store parse id (src id w).0 c).0 (ground arith)) in
        (_, r5, ground arith, ground arith)
  ]
