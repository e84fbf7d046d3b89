-- ===== src/Pipeline.antt =====
-- internal/app/app.go, the handler graph that `New` builds: the chain persists and then forwards, and the
-- dedup cache wraps the chain.
pub mod Frames
pub mod Delivery
use pubsub_event_processor.Common.{
  String, Bool, Option, Result, Error, List, [], ◌∷◌, if◌then◌else◌,
}
use pubsub_event_processor.Event.{DecodedEvent}
use pubsub_event_processor.Event.Services.{Services}
use pubsub_event_processor.Storage.{persist_event}
use pubsub_event_processor.Kafka.{ProducerMetrics, produce}
use pubsub_event_processor.RedisCache.{CacheMetrics, seen, mark_seen}
use pubsub_event_processor.Handler.{Handler}
use pubsub_event_processor.Handler.Chain.{chain}
use pubsub_event_processor.Handler.Dedup.{dedup}
use pubsub_event_processor.Handler.Persist.{persist}
use pubsub_event_processor.Handler.Forward.{forward}

-- The configuration that decides the graph.
pub record Wiring : Type 0 where
  pub kafka_enabled : Bool
  pub kafka_topic : String
  pub redis_enabled : Bool
  pub key_prefix : String

module _ {P : Type 0} (s : Services P) where
  -- The services, and the counters of the producer and of the cache.
  pub record State : Type 0 where
    pub world : s.W
    pub producer : ProducerMetrics
    pub cache : CacheMetrics

  unfoldable pub persist_step : Handler P s.E State
  unfolding persist persist_event
  persist_step =
      persist λ e st. let (r, w) = persist_event s e st.world in (r, record st { world = w })

  unfoldable pub forward_step : String → Handler P s.E State
  unfolding forward produce
  forward_step topic = forward s λ key value headers st.
      let (r, c) = produce s topic key value headers (st.world, st.producer) in
      (r, record st { world = c.0; producer = c.1 })

  unfoldable pub seen_step : String → String → State → Result (Error s.E) Bool × State
  unfolding seen
  seen_step prefix event_id st =
      let (r, c) = seen s prefix event_id (st.world, st.cache) in
      (r, record st { world = c.0; cache = c.1 })

  unfoldable pub mark_step : String → String → State → Option (Error s.E) × State
  unfolding mark_seen
  mark_step prefix event_id st =
      let (r, c) = mark_seen s prefix event_id (st.world, st.cache) in
      (r, record st { world = c.0; cache = c.1 })

  -- The slice `handlers`.
  unfoldable pub handlers : Wiring → List (Handler P s.E State)
  handlers g =
      if g.kafka_enabled then persist_step ∷ forward_step g.kafka_topic ∷ [] else persist_step ∷ []

  -- `root`
  unfoldable pub root : Wiring → Handler P s.E State
  root g =
      if g.redis_enabled
      then dedup (seen_step g.key_prefix) (mark_step g.key_prefix) (chain (handlers g))
      else chain (handlers g)
