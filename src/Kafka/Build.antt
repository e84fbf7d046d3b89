-- ===== src/Kafka/Build.antt =====
-- internal/kafka/producer.go: `New` with the options that it gives to franz-go, and what the producer's methods
-- read of it. K are the clients that kgo.NewClient makes.
use pubsub_event_processor.Common.{
  String, ◌≡◌, Option, none, some, List, [], ◌∷◌, Result, ok, err, Error, cause, wrap, text, quoted,
  ℤ, arith, Result-cases, Bool, if◌then◌else◌, inl, inr,
}
use pubsub_event_processor.Replay.Cursor.{Bytes}
use pubsub_event_processor.Event.Services.{Services}
use pubsub_event_processor.Config.{KafkaConfig}
use pubsub_event_processor.Kafka.{ProducerMetrics, produce}

-- kgo.AllISRAcks, the only setting of the program
pub data Acks : Type 0 where
  all_isr_acks : Acks

pub data Codec : Type 0 where
  snappy_compression no_compression : Codec

-- kgo.Opt, as far as the program goes.
pub data ClientOption : Type 0 where
  seed_brokers : List String → ClientOption
  client_id default_produce_topic : String → ClientOption
  required_acks : Acks → ClientOption
  producer_batch_compression : List Codec → ClientOption
  record_delivery_timeout : ℤ → ClientOption

abbrev pub options_of : KafkaConfig → List ClientOption
options_of cfg =
    seed_brokers cfg.brokers
    ∷ client_id cfg.client_id
    ∷ default_produce_topic cfg.topic
    ∷ required_acks all_isr_acks
    ∷ producer_batch_compression (snappy_compression ∷ no_compression ∷ [])
    ∷ record_delivery_timeout cfg.produce_timeout
    ∷ []

-- `Producer`, less the logger and the metrics.
pub record Producer (K : Type 0) : Type 0 where
  pub client : K
  pub topic : String
  pub timeout : ℤ
  pub cfg : KafkaConfig

-- `new_client` is kgo.NewClient.
module _ {K X S : Type 0} (new_client : List ClientOption → S → Result X K × S) where
  -- `New`
  unfoldable pub new_producer : KafkaConfig → S → Result (Error X) (Producer K) × S
  new_producer cfg s =
      let (r, s') = new_client (options_of cfg) s in
      elim r [
        | err x ↦ (err (wrap (text "new kafka client") (cause x)), s')
        | ok client ↦ (
          ok (record {
            client = client;
            topic = cfg.topic;
            timeout = cfg.produce_timeout;
            cfg = cfg;
          }),
          s',
        )
      ]

  -- The producer keeps the configuration that its client was made with.
  new_producer_lem :
      (cfg : KafkaConfig) (s : S) (p : Producer K)
      → (new_producer cfg s).0 ≡ ok p
      → ((new_client (options_of cfg) s).0 ≡ ok p.client)
        × (p.topic ≡ cfg.topic)
        × (p.timeout ≡ cfg.produce_timeout)
        × (p.cfg ≡ cfg)
  unfolding new_producer
  new_producer_lem cfg s p h = elim (Result-cases (new_client (options_of cfg) s).0) [
    | inl (k, e) ↦ ground arith
    | inr (x, e) ↦ absurd (ground arith)
  ]

-- `admin_create` is CreateTopic of kadm.NewClient(client): partitions, replication factor and name; `is_existing`
-- is isTopicAlreadyExists.
module _ {K X S : Type 0} (admin_create : K → ℤ → ℤ → String → S → Option X × S)
    (is_existing : X → Bool) where
  -- `EnsureTopic` of a producer.
  unfoldable pub ensure_topic_of : Producer K → S → Option (Error X) × S
  ensure_topic_of p s =
      let (r, s') =
        admin_create p.client p.cfg.topic_partitions p.cfg.topic_replication_factor p.topic s in
      elim r [
        | none ↦ (none, s')
        | some x ↦ (
          if is_existing x then none else some (wrap (quoted "create topic" p.topic) (cause x)),
          s',
        )
      ]

-- `Producer.Topic`
abbrev pub topic_of : {K : Type 0} → Producer K → String
topic_of p = p.topic

-- `Produce` of a producer, through its client.
module _ {P K : Type 0} (s : Services P) where
  open s use {W, E}

  abbrev pub produce_with :
      Producer K
      → String
      → Bytes
      → List (String × String)
      → W × ProducerMetrics
      → Option (Error E) × (W × ProducerMetrics)
  produce_with p = produce s p.topic
