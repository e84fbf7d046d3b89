-- ===== src/RedisCache.antt =====
-- internal/rediscache/cache.go: the cache of processed events.
pub mod Build
use Prim.Native.String.{◌++◌}
use pubsub_event_processor.Common.{
  ℕ, zero, suc, ◌+◌, String, Bool, true, false, Option, none, some, Result, ok, err, Error, cause,
  wrap, text,
}
use pubsub_event_processor.Event.Services.{Services}

-- The counters of `cacheMetrics`.
pub record CacheMetrics : Type 0 where
  pub hits : ℕ
  pub misses : ℕ
  pub errors_seen : ℕ
  pub errors_mark : ℕ

-- `Cache.key`
abbrev pub key : String → String → String
key prefix event_id = prefix ++ event_id

module _ {P : Type 0} (s : Services P) (prefix : String) where
  open s use {W, E, exists, set}

  abbrev pub seen_answer : Result E ℕ → Result (Error E) Bool
  seen_answer (err e) = err (wrap (text "redis exists") (cause e))
  seen_answer (ok zero) = ok false
  seen_answer (ok (suc n)) = ok true

  abbrev pub seen_counted : Result E ℕ → CacheMetrics → CacheMetrics
  seen_counted (err e) m = record m { errors_seen = m.errors_seen + 1 }
  seen_counted (ok zero) m = record m { misses = m.misses + 1 }
  seen_counted (ok (suc n)) m = record m { hits = m.hits + 1 }

  -- `Cache.Seen`
  unfoldable pub seen : String → W × CacheMetrics → Result (Error E) Bool × (W × CacheMetrics)
  seen event_id (w, m) =
      let (r, w') = exists (key prefix event_id) w in (seen_answer r, (w', seen_counted r m))

  abbrev pub mark_answer : Option E → Option (Error E)
  mark_answer none = none
  mark_answer (some e) = some (wrap (text "redis set") (cause e))

  abbrev pub mark_counted : Option E → CacheMetrics → CacheMetrics
  mark_counted none m = m
  mark_counted (some e) m = record m { errors_mark = m.errors_mark + 1 }

  -- `Cache.MarkSeen`
  unfoldable pub mark_seen : String → W × CacheMetrics → Option (Error E) × (W × CacheMetrics)
  mark_seen event_id (w, m) =
      let (r, w') = set (key prefix event_id) w in (mark_answer r, (w', mark_counted r m))
