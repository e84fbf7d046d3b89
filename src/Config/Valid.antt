-- ===== src/Config/Valid.antt =====
-- `Validate` against an independent description of a valid configuration.
use Prim.Native.String.{String}
use pubsub_event_processor.Common.{
  ℕ, ◌+◌, ◌≡◌, ◌≢◌, refl, ◌⊎◌, ◌↔◌, inl, inr, Bool, true, false, not, Option, some, List, [], ◌∷◌,
  if◌then◌else◌, string_discrete, All, Within, AtLeast, arith, Option-cases,
}
use pubsub_event_processor.Config.{
  Config, RedisConfig, KafkaConfig, ConfigError, Url, check, not_absolute, worker_errors,
  topic_errors, is_nil, is_empty, pubsub_errors, redis_errors, broker_errors, topic_creation_errors,
  kafka_errors, sink_errors, validate,
}
use pubsub_event_processor.Config.Checks.{
  append_nil_iff, AtLeast-iff, Within-iff, not_empty_iff, host_port_iff, join_iff, switched_iff,
}

module _ (is_host_port : String → Bool) (parse_url : String → Option Url) where
  -- The text parses as a URL with a scheme and a host.
  abbrev pub IsAbsolute : String → Type 0
  IsAbsolute s = (u : Url) × (parse_url s ≡ some u) × (u.scheme ≢ "") × (u.host ≢ "")

  pub record RedisValid (r : RedisConfig) : Type 0 where
    pub addr : (r.addr ≢ "") × (is_host_port r.addr ≡ true)
    pub ttl : AtLeast 1 r.ttl
    pub timeout : AtLeast 1 r.timeout

  pub record KafkaValid (k : KafkaConfig) : Type 0 where
    pub brokers : k.brokers ≢ []
    pub all_brokers : All (λ b. is_host_port b ≡ true) k.brokers
    pub topic : k.topic ≢ ""
    pub timeout : AtLeast 1 k.produce_timeout
    pub creation :
        (k.create_topic ≡ false)
        ⊎ (AtLeast 1 k.topic_partitions × AtLeast 1 k.topic_replication_factor)

  pub record IsValid (c : Config) : Type 0 where
    pub workers : AtLeast 1 c.worker.count
    pub batch : AtLeast 1 c.worker.flow_batch_size
    pub conns : Within 1 1000 c.database.max_conns
    pub topics : c.pubsub.topics ≢ []
    pub all_topics : All (λ t. t ≢ "") c.pubsub.topics
    pub endpoint : is_host_port c.pubsub.endpoint ≡ true
    pub login : IsAbsolute c.salesforce.login_url
    pub redis : (c.redis.enabled ≡ false) ⊎ RedisValid c.redis
    pub kafka : (c.kafka.enabled ≡ false) ⊎ KafkaValid c.kafka
    pub sink : (c.sink.webhook_url ≡ "") ⊎ IsAbsolute c.sink.webhook_url

  IsAbsolute-iff :
      (s : String) (e : ConfigError)
      → (check (not_absolute is_host_port parse_url (parse_url s)) e ≡ []) ↔ IsAbsolute s
  IsAbsolute-iff s e = elim (Option-cases (parse_url s)) [
    | inl bad ↦ (λ h. absurd (ground arith), λ h. absurd (ground arith))
    | inr (u, good) ↦ (λ h. (u, good, ground arith, ground arith), λ h. ground arith)
  ]

  topics_iff :
      (i : ℕ) (ts : List String)
      → (topic_errors is_host_port parse_url i ts ≡ []) ↔ All (λ t. t ≢ "") ts
  unfolding topic_errors
  topics_iff i [] = (λ h. tt, λ h. refl)
  topics_iff i (t ∷ ts) =
      let split =
        append_nil_iff (check (is_empty t) (ConfigError.empty_topic i))
          (topic_errors is_host_port parse_url (i + 1) ts) in
      let here = not_empty_iff t (ConfigError.empty_topic i) in
      let rest = topics_iff (i + 1) ts in
      (λ h. (here.0 (split.0 h).0, rest.0 (split.0 h).1), λ h. split.1 (here.1 h.0, rest.1 h.1))

  brokers_iff :
      (i : ℕ) (bs : List String)
      → (broker_errors is_host_port parse_url i bs ≡ []) ↔ All (λ b. is_host_port b ≡ true) bs
  unfolding broker_errors
  brokers_iff i [] = (λ h. tt, λ h. refl)
  brokers_iff i (b ∷ bs) =
      let split =
        append_nil_iff (check (not (is_host_port b)) (ConfigError.broker_not_host_port i))
          (broker_errors is_host_port parse_url (i + 1) bs) in
      let here = host_port_iff (is_host_port b) (ConfigError.broker_not_host_port i) in
      let rest = brokers_iff (i + 1) bs in
      (λ h. (here.0 (split.0 h).0, rest.0 (split.0 h).1), λ h. split.1 (here.1 h.0, rest.1 h.1))

  not_nil_iff {ℓ} :
      {A : Type ℓ} (xs : List A) (e : ConfigError)
      → (check (is_nil is_host_port parse_url xs) e ≡ []) ↔ (xs ≢ [])
  not_nil_iff [] e = (λ h. absurd (cc), λ h. absurd (h refl))
  not_nil_iff (x ∷ xs) e = (λ h p. cc, λ h. refl)

  addr_iff :
      (s : String)
      → ((if is_empty s
            then ConfigError.redis_addr_missing ∷ []
            else check (not (is_host_port s)) ConfigError.redis_addr_not_host_port)
          ≡ [])
        ↔ ((s ≢ "") × (is_host_port s ≡ true))
  addr_iff s = (λ h. (ground arith, ground arith), λ h. ground arith)

  redis_iff :
      (r : RedisConfig)
      → (redis_errors is_host_port parse_url r ≡ []) ↔ ((r.enabled ≡ false) ⊎ RedisValid r)
  unfolding redis_errors
  redis_iff r =
      let parts = switched_iff r.enabled _ (
        join_iff _ _
          (join_iff _ _ (addr_iff r.addr) (AtLeast-iff r.ttl (ConfigError.redis_ttl r.ttl)))
          (AtLeast-iff r.timeout (ConfigError.redis_timeout r.timeout))) in
      (
        λ h. elim (parts.0 h) [
          | inl off ↦ inl off
          | inr v ↦ inr (record { addr = v.0.0; ttl = v.0.1; timeout = v.1 })
        ],
        λ h. parts.1 (elim h [ inl off ↦ inl off | inr v ↦ inr ((v.addr, v.ttl), v.timeout) ]),
      )

  creation_iff :
      (k : KafkaConfig)
      → (topic_creation_errors is_host_port parse_url k ≡ []) ↔ (
          (k.create_topic ≡ false)
          ⊎ (AtLeast 1 k.topic_partitions × AtLeast 1 k.topic_replication_factor))
  unfolding topic_creation_errors
  creation_iff k = switched_iff k.create_topic _ (
      join_iff _ _
        (AtLeast-iff k.topic_partitions (ConfigError.topic_partitions k.topic_partitions))
        (AtLeast-iff k.topic_replication_factor
          (ConfigError.topic_replication_factor k.topic_replication_factor)))

  kafka_iff :
      (k : KafkaConfig)
      → (kafka_errors is_host_port parse_url k ≡ []) ↔ ((k.enabled ≡ false) ⊎ KafkaValid k)
  unfolding kafka_errors
  kafka_iff k =
      let parts = switched_iff k.enabled _ (
        join_iff _ _
          (join_iff _ _
            (join_iff _ _
              (join_iff _ _ (not_nil_iff k.brokers ConfigError.no_brokers)
                (brokers_iff 0 k.brokers))
              (not_empty_iff k.topic ConfigError.kafka_topic_empty))
            (AtLeast-iff k.produce_timeout (ConfigError.produce_timeout k.produce_timeout)))
          (creation_iff k)) in
      (
        λ h. elim (parts.0 h) [
          | inl off ↦ inl off
          | inr v ↦ inr (record {
            brokers = v.0.0.0.0;
            all_brokers = v.0.0.0.1;
            topic = v.0.0.1;
            timeout = v.0.1;
            creation = v.1;
          })
        ],
        λ h. parts.1 (elim h [
          | inl off ↦ inl off
          | inr v ↦ inr ((((v.brokers, v.all_brokers), v.topic), v.timeout), v.creation)
        ]),
      )

  sink_iff :
      (c : Config)
      → (sink_errors is_host_port parse_url c ≡ [])
        ↔ ((c.sink.webhook_url ≡ "") ⊎ IsAbsolute c.sink.webhook_url)
  unfolding sink_errors
  sink_iff c = elim (string_discrete c.sink.webhook_url "") [
    | yes unset ↦ (λ h. inl unset, λ h. ground arith)
    | no given ↦
        let inner =
          IsAbsolute-iff c.sink.webhook_url (ConfigError.webhook_url c.sink.webhook_url) in
        (
          λ h. inr (inner.0 (ground arith)),
          λ h. elim h [
            | inl unset ↦ absurd (given unset)
            | inr good ↦ ground (arith, inner.1 good)
          ],
        )
  ]

  worker_iff :
      (c : Config)
      → (worker_errors is_host_port parse_url c ≡ []) ↔ (
          (AtLeast 1 c.worker.count × AtLeast 1 c.worker.flow_batch_size)
          × Within 1 1000 c.database.max_conns)
  unfolding worker_errors
  worker_iff c =
      join_iff _ _
        (join_iff _ _ (AtLeast-iff c.worker.count (ConfigError.worker_count c.worker.count)) (
          AtLeast-iff c.worker.flow_batch_size
            (ConfigError.flow_batch_size c.worker.flow_batch_size)))
        (Within-iff c.database.max_conns (ConfigError.max_conns c.database.max_conns))

  pubsub_iff :
      (c : Config)
      → (pubsub_errors is_host_port parse_url c ≡ []) ↔ (
          ((c.pubsub.topics ≢ [] × All (λ t. t ≢ "") c.pubsub.topics)
            × (is_host_port c.pubsub.endpoint ≡ true))
          × IsAbsolute c.salesforce.login_url)
  unfolding pubsub_errors
  pubsub_iff c =
      join_iff _ _
        (join_iff _ _
          (join_iff _ _ (not_nil_iff c.pubsub.topics ConfigError.no_topics)
            (topics_iff 0 c.pubsub.topics))
          (host_port_iff (is_host_port c.pubsub.endpoint) ConfigError.endpoint_not_host_port))
        (IsAbsolute-iff c.salesforce.login_url (ConfigError.login_url c.salesforce.login_url))

  -- `Validate` returns nil exactly for a valid configuration: positive worker and batch counts, 1 to 1000
  -- connections, topics that are there and not empty, a host:port endpoint, an absolute login URL, and, for
  -- each part that is switched on, the settings that this part needs.
  pub validate_iff : (c : Config) → (validate is_host_port parse_url c ≡ []) ↔ IsValid c
  unfolding validate
  validate_iff c =
      let parts =
        join_iff _ _
          (join_iff _ _
            (join_iff _ _ (join_iff _ _ (worker_iff c) (pubsub_iff c)) (redis_iff c.redis))
            (kafka_iff c.kafka))
          (sink_iff c) in
      (
        λ h.
            let v = parts.0 h in
            record {
              workers = v.0.0.0.0.0.0;
              batch = v.0.0.0.0.0.1;
              conns = v.0.0.0.0.1;
              topics = v.0.0.0.1.0.0.0;
              all_topics = v.0.0.0.1.0.0.1;
              endpoint = v.0.0.0.1.0.1;
              login = v.0.0.0.1.1;
              redis = v.0.0.1;
              kafka = v.0.1;
              sink = v.1;
            },
        λ v. parts.1 (
          (
            (
              (((v.workers, v.batch), v.conns), (((v.topics, v.all_topics), v.endpoint), v.login)),
              v.redis,
            ),
            v.kafka,
          ),
          v.sink,
        ),
      )
