-- ===== src/Examples/Draining.antt =====
-- The theorem on the service that comes to hold no event, at a concrete input.
use pubsub_event_processor.Common.{
  ℕ, ◌≤◌, String, ◌≡◌, refl, false, none, [], ◌∷◌, ok, Has, arith, lookup, string_discrete, total,
  Bool-cases, Option-cases, inl, inr,
}
use pubsub_event_processor.Schema.{Cache, get, fetch}
use pubsub_event_processor.Event.{DecodedEvent}
use pubsub_event_processor.Pipeline.{State, persist_step, forward_step}
use pubsub_event_processor.Handler.Persist.{persist}
use pubsub_event_processor.Handler.Forward.{forward}
use pubsub_event_processor.Storage.{persist_event, upsert}
use pubsub_event_processor.Kafka.{produce}
use pubsub_event_processor.Service.{Service, Feed, Later}
use pubsub_event_processor.Service.Bounded.{in_service}
use pubsub_event_processor.Service.Places.{report_here}
use pubsub_event_processor.Service.Ranks.{IsResponsive}
use pubsub_event_processor.Service.Drains.Empty.{service_drains}
use pubsub_event_processor.Examples.Lists.{lists, wiring, mem}
use pubsub_event_processor.Examples.Runs.{source, parse, unmarshal, stream, shared, v3, run3}

lists_store : (e : DecodedEvent ℕ) (st : State lists) → (persist_step lists e st).0 ≡ none
unfolding persist_step persist persist_event upsert
lists_store e st = ground (arith, Bool-cases (mem e.event_id st.world.rows))

lists_forward :
    (e : DecodedEvent ℕ) (st : State lists) → (forward_step lists "events" e st).0 ≡ none
unfolding forward_step forward produce
lists_forward e st = refl

source_fetches : (id : String) (c : Cache ℕ × ℕ) → (sch : ℕ) × ((get source parse id c).0 ≡ ok sch)
unfolding get fetch
source_fetches id (c, n) = elim (Option-cases (lookup string_discrete id c.parsed)) [
  | inl e ↦ (1, ground arith)
  | inr (sch, e) ↦ (sch, ground arith)
]

lists-IsResponsive : IsResponsive lists wiring source parse
lists-IsResponsive = record {
  stores = lists_store;
  forwards = lists_forward;
  fetches = source_fetches;
}

service_drains_example :
    (w : Service ℕ ℕ lists) × Later lists wiring source parse unmarshal stream 100 v3 w
    × (w.is_cancelled ≡ false)
    × (in_service w ≡ 0)
    × ((f : Feed) (k : ℕ)
        → Has f v3.feeds
        → 1 ≤ k
        → k ≤ f.receiver.seq
        → total (report_here f.receiver.topic k) w.log.reports ≡ 1)
service_drains_example =
    service_drains lists wiring source parse unmarshal stream 100 ("t" ∷ []) 1 shared []
      lists-IsResponsive (ground arith) (ground arith) v3 run3 refl
