-- ===== src/Metrics.antt =====
-- The Prometheus collectors of the subsystems, and their registration while `New` of internal/app/app.go
-- builds the service. Registration is the registry's part; a nil registry, which only tests pass, skips it.
pub mod Registry
pub mod Startup
use pubsub_event_processor.Common.{
  ℕ, ◌+◌, String, Bool, true, false, Option, none, some, List, [], ◌∷◌, if◌then◌else◌, ◌==◌,
}

-- The Go type of a collector, which a type assertion tests.
pub data GoType : Type 0 where
  counter counter_vec gauge_func gauge_vec histogram histogram_vec : GoType

abbrev pub type_number : GoType → ℕ
type_number counter = 0
type_number counter_vec = 1
type_number gauge_func = 2
type_number gauge_vec = 3
type_number histogram = 4
type_number histogram_vec = 5

-- A collector, a pointer: `owner` tells apart those that are made under one name, with the number of the
-- subscriber that makes it, and 0 for the rest, which are made once.
pub record Collector : Type 0 where
  pub owner : ℕ
  pub name : String
  pub go_type : GoType
  pub labels : List String

abbrev collector : String → GoType → List String → Collector
collector name go_type labels = record {
  owner = 0;
  name = name;
  go_type = go_type;
  labels = labels;
}

-- `newProviderMetrics` of internal/auth/oauth.go
abbrev pub provider_metrics : List Collector
provider_metrics =
    collector "auth_token_refresh_total" counter_vec ("result" ∷ [])
    ∷ collector "auth_token_expiry_seconds" gauge_func []
    ∷ []

-- `newClientMetrics` of internal/pubsub/client.go
abbrev pub client_metrics : List Collector
client_metrics =
    collector "pubsub_grpc_rpc_duration_seconds" histogram_vec ("method" ∷ [])
    ∷ collector "pubsub_grpc_rpc_total" counter_vec ("method" ∷ "code" ∷ [])
    ∷ collector "pubsub_grpc_rpc_retries_total" counter_vec ("method" ∷ "code" ∷ [])
    ∷ []

-- `newCacheMetrics` of internal/schema/cache.go
abbrev pub schema_metrics : List Collector
schema_metrics =
    collector "schema_cache_hits_total" counter []
    ∷ collector "schema_cache_misses_total" counter []
    ∷ []

-- `newProducerMetrics` of internal/kafka/producer.go
abbrev pub producer_metrics : List Collector
producer_metrics =
    collector "kafka_records_produced_total" counter []
    ∷ collector "kafka_records_failed_total" counter []
    ∷ collector "kafka_record_bytes_total" counter []
    ∷ collector "kafka_produce_duration_seconds" histogram []
    ∷ []

-- `newCacheMetrics` of internal/rediscache/cache.go
abbrev pub dedup_metrics : List Collector
dedup_metrics =
    collector "dedup_cache_hits_total" counter []
    ∷ collector "dedup_cache_misses_total" counter []
    ∷ collector "dedup_cache_errors_total" counter_vec ("op" ∷ [])
    ∷ []

-- `newCommitterMetrics` of internal/replay/committer.go
abbrev pub committer_metrics : List Collector
committer_metrics = collector "replay_cursor_commits_total" counter_vec ("result" ∷ []) ∷ []

-- `newPoolMetrics` of internal/worker/pool.go
abbrev pub pool_metrics : List Collector
pool_metrics =
    collector "events_processed_total" counter []
    ∷ collector "events_failed_total" counter_vec ("stage" ∷ [])
    ∷ collector "processing_latency_seconds" histogram []
    ∷ []

-- `subscriberMetrics`
pub record SubscriberMetrics : Type 0 where
  pub events_received : Collector
  pub reconnects : Collector
  pub stream_open : Collector

-- The collectors that `newSubscriberMetrics` makes, for a subscriber with this number.
abbrev pub subscriber_metrics : ℕ → SubscriberMetrics
subscriber_metrics k = record {
  events_received = record (collector "pubsub_events_received_total" counter_vec ("topic" ∷ [])) {
    owner = k;
  };
  reconnects = record (collector "pubsub_reconnects_total" counter_vec ("topic" ∷ "reason" ∷ [])) {
    owner = k;
  };
  stream_open = record (collector "pubsub_stream_open" gauge_vec ("topic" ∷ [])) { owner = k };
}

-- The result of `Register`: nil, an AlreadyRegisteredError with the collector that is there, or another error.
pub data Registration : Type 0 where
  accepted : Registration
  already : Collector → Registration
  refused : Registration

-- `register` is the registry's Register and `must_register` its MustRegister, where `none` is a panic.
module _ {R : Type 0} (register : Collector → R → Registration × R)
    (must_register : List Collector → R → Option R) where
  -- `registerOrReuse`: the collector to use, or a panic.
  unfoldable pub register_or_reuse : Collector → R → Option (Collector × R)
  register_or_reuse c r =
      let (answer, r') = register c r in
      elim answer [
        | accepted ↦ some (c, r')
        | already d ↦ if type_number d.go_type == type_number c.go_type then some (d, r') else none
        | refused ↦ none
      ]

  -- `newSubscriberMetrics`, for the subscriber with this number.
  unfoldable pub new_subscriber_metrics : ℕ → R → Option (SubscriberMetrics × R)
  unfolding register_or_reuse
  new_subscriber_metrics k r = elim (register_or_reuse (subscriber_metrics k).events_received r) [
    | none ↦ none
    | some (received, r1) ↦ elim (register_or_reuse (subscriber_metrics k).reconnects r1) [
      | none ↦ none
      | some (reconnects, r2) ↦ elim (register_or_reuse (subscriber_metrics k).stream_open r2) [
        | none ↦ none
        | some (open_streams, r3) ↦ some (
          record {
            events_received = received;
            reconnects = reconnects;
            stream_open = open_streams;
          },
          r3,
        )
      ]
    ]
  ]

  -- The loop of `New` over the topics, as far as the collectors go, from the subscriber with this number on.
  unfoldable pub subscribe_metrics : ℕ → List String → R → Option (List SubscriberMetrics × R)
  unfolding new_subscriber_metrics
  subscribe_metrics k [] r = some ([], r)
  subscribe_metrics k (topic ∷ topics) r = elim (new_subscriber_metrics k r) [
    | none ↦ none
    | some (m, r') ↦ elim (subscribe_metrics (k + 1) topics r') [
      | none ↦ none
      | some (ms, r'') ↦ some (m ∷ ms, r'')
    ]
  ]

  unfoldable pub must_register_if : Bool → List Collector → R → Option R
  must_register_if true cs r = must_register cs r
  must_register_if false cs r = some r

  unfoldable pub all_registered : List (Bool × List Collector) → R → Option R
  unfolding must_register_if
  all_registered [] r = some r
  all_registered ((wanted, cs) ∷ rest) r = elim (must_register_if wanted cs r) [
    | none ↦ none
    | some r' ↦ all_registered rest r'
  ]

  -- What `New` registers, in its order, where no call fails before: the provider, the client and the schema
  -- cache, the subscribers, then the producer and the cache if they are enabled, the committer and the pool.
  unfoldable pub new_metrics : List String → Bool → Bool → R → Option (List SubscriberMetrics × R)
  unfolding all_registered subscribe_metrics
  new_metrics topics kafka redis r =
      elim (all_registered
        ((true, provider_metrics) ∷ (true, client_metrics) ∷ (true, schema_metrics) ∷ []) r) [
          | none ↦ none
          | some r1 ↦ elim (subscribe_metrics 0 topics r1) [
            | none ↦ none
            | some (ms, r2) ↦
                elim (all_registered
                  ((kafka, producer_metrics)
                    ∷ (redis, dedup_metrics)
                    ∷ (true, committer_metrics)
                    ∷ (true, pool_metrics)
                    ∷ [])
                  r2) [ none ↦ none | some r3 ↦ some (ms, r3) ]
          ]
        ]
