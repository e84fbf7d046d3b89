-- ===== src/Config.antt =====
-- internal/config/config.go: the configuration and `Validate`. Reading it from the environment is left to a
-- library, and is not modelled.
pub mod Checks
pub mod Valid
pub mod Load
use Prim.Native.String.{String}
use pubsub_event_processor.Common.{
  ℕ, ◌+◌, ◌≡◌, Bool, true, false, not, ◌||◌, Option, none, some, List, [], ◌∷◌, ◌++◌, if◌then◌else◌,
  ite, string_discrete, ℤ, lt_const, gt_const,
}

pub record SalesforceConfig : Type 0 where
  pub client_id : String
  pub client_secret : String
  pub login_url : String

pub record PubSubConfig : Type 0 where
  pub endpoint : String
  pub topics : List String

pub record DatabaseConfig : Type 0 where
  pub url : String
  pub max_conns : ℤ

pub record RedisConfig : Type 0 where
  pub enabled : Bool
  pub addr : String
  pub password : String
  pub db : ℤ
  pub key_prefix : String
  pub ttl : ℤ
  pub timeout : ℤ

pub record KafkaConfig : Type 0 where
  pub enabled : Bool
  pub brokers : List String
  pub topic : String
  pub client_id : String
  pub produce_timeout : ℤ
  pub create_topic : Bool
  pub topic_partitions : ℤ
  pub topic_replication_factor : ℤ

pub record SinkConfig : Type 0 where
  pub webhook_url : String

pub record HttpConfig : Type 0 where
  pub addr : String

pub record WorkerConfig : Type 0 where
  pub count : ℤ
  pub flow_batch_size : ℤ

pub record Config : Type 0 where
  pub salesforce : SalesforceConfig
  pub pubsub : PubSubConfig
  pub database : DatabaseConfig
  pub redis : RedisConfig
  pub kafka : KafkaConfig
  pub sink : SinkConfig
  pub http : HttpConfig
  pub worker : WorkerConfig
  pub log_level : String

-- The errors that `Validate` joins, with the values that they print.
pub data ConfigError : Type 0 where
  worker_count flow_batch_size max_conns : ℤ → ConfigError
  no_topics endpoint_not_host_port redis_addr_missing redis_addr_not_host_port no_brokers :
      ConfigError
  empty_topic broker_not_host_port : ℕ → ConfigError
  redis_ttl redis_timeout : ℤ → ConfigError
  kafka_topic_empty : ConfigError
  produce_timeout topic_partitions topic_replication_factor : ℤ → ConfigError
  login_url webhook_url : String → ConfigError

-- `if bad { errs = append(errs, e) }`
abbrev pub check : Bool → ConfigError → List ConfigError
check true e = e ∷ []
check false e = []

abbrev pub is_empty : String → Bool
is_empty s = ite (string_discrete s "") true false

-- url.Parse, of which the program reads the scheme and the host.
pub record Url : Type 0 where
  pub scheme : String
  pub host : String

-- `is_host_port` says that net.SplitHostPort returns no error, `parse_url` is url.Parse.
module _ (is_host_port : String → Bool) (parse_url : String → Option Url) where
  -- err != nil || u.Scheme == "" || u.Host == ""
  abbrev pub not_absolute : Option Url → Bool
  not_absolute none = true
  not_absolute (some u) = is_empty u.scheme || is_empty u.host

  unfoldable pub worker_errors : Config → List ConfigError
  worker_errors c =
      check (lt_const c.worker.count 1) (worker_count c.worker.count)
      ++ check (lt_const c.worker.flow_batch_size 1) (flow_batch_size c.worker.flow_batch_size)
      ++ check (lt_const c.database.max_conns 1 || gt_const c.database.max_conns 1000)
          (max_conns c.database.max_conns)

  -- The loop over the topics, from index `i` on.
  unfoldable pub topic_errors : ℕ → List String → List ConfigError
  topic_errors i [] = []
  topic_errors i (t ∷ ts) = check (is_empty t) (empty_topic i) ++ topic_errors (i + 1) ts

  abbrev pub is_nil {ℓ} : {A : Type ℓ} → List A → Bool
  is_nil [] = true
  is_nil (x ∷ xs) = false

  unfoldable pub pubsub_errors : Config → List ConfigError
  pubsub_errors c =
      check (is_nil c.pubsub.topics) no_topics
      ++ topic_errors 0 c.pubsub.topics
      ++ check (not (is_host_port c.pubsub.endpoint)) endpoint_not_host_port
      ++ check (not_absolute (parse_url c.salesforce.login_url)) (login_url c.salesforce.login_url)

  unfoldable pub redis_errors : RedisConfig → List ConfigError
  redis_errors r =
      if r.enabled
      then (if is_empty r.addr
          then redis_addr_missing ∷ []
          else check (not (is_host_port r.addr)) redis_addr_not_host_port)
        ++ check (lt_const r.ttl 1) (redis_ttl r.ttl)
        ++ check (lt_const r.timeout 1) (redis_timeout r.timeout)
      else []

  -- The loop over the brokers, from index `i` on.
  unfoldable pub broker_errors : ℕ → List String → List ConfigError
  broker_errors i [] = []
  broker_errors i (b ∷ bs) =
      check (not (is_host_port b)) (broker_not_host_port i) ++ broker_errors (i + 1) bs

  unfoldable pub topic_creation_errors : KafkaConfig → List ConfigError
  topic_creation_errors k =
      if k.create_topic
      then check (lt_const k.topic_partitions 1) (topic_partitions k.topic_partitions)
        ++ check (lt_const k.topic_replication_factor 1)
            (topic_replication_factor k.topic_replication_factor)
      else []

  unfoldable pub kafka_errors : KafkaConfig → List ConfigError
  kafka_errors k =
      if k.enabled
      then check (is_nil k.brokers) no_brokers
        ++ broker_errors 0 k.brokers
        ++ check (is_empty k.topic) kafka_topic_empty
        ++ check (lt_const k.produce_timeout 1) (produce_timeout k.produce_timeout)
        ++ topic_creation_errors k
      else []

  unfoldable pub sink_errors : Config → List ConfigError
  sink_errors c =
      if is_empty c.sink.webhook_url
      then []
      else check (not_absolute (parse_url c.sink.webhook_url)) (webhook_url c.sink.webhook_url)

  -- `Validate`: the errors that it joins; nil if there are none.
  unfoldable pub validate : Config → List ConfigError
  validate c =
      worker_errors c
      ++ pubsub_errors c
      ++ redis_errors c.redis
      ++ kafka_errors c.kafka
      ++ sink_errors c
