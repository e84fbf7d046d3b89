-- ===== src/RedisCache/Build.antt =====
-- internal/rediscache/cache.go: `New` with the options that it gives to go-redis. K are the clients.
use pubsub_event_processor.Common.{String, ℤ}
use pubsub_event_processor.Config.{RedisConfig}
use pubsub_event_processor.RedisCache.{CacheMetrics}

-- redis.Options, as far as the program sets them.
pub record ClientOptions : Type 0 where
  pub addr : String
  pub password : String
  pub db : ℤ

-- `Cache`, with the values that its metrics start from.
pub record Cache (K : Type 0) : Type 0 where
  pub client : K
  pub prefix : String
  pub ttl : ℤ
  pub timeout : ℤ
  pub metrics : CacheMetrics

-- `New`; `new_client` is redis.NewClient, which does not connect.
abbrev pub new_cache : {K : Type 0} → (ClientOptions → K) → RedisConfig → Cache K
new_cache new_client cfg = record {
  client = new_client (record { addr = cfg.addr; password = cfg.password; db = cfg.db });
  prefix = cfg.key_prefix;
  ttl = cfg.ttl;
  timeout = cfg.timeout;
  metrics = record { hits = 0; misses = 0; errors_seen = 0; errors_mark = 0 };
}
