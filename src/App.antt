-- ===== src/App.antt =====
-- internal/app/app.go: building the service, closing it, and the acknowledgement of an event. The handler graph
-- that `New` builds is in Pipeline.
pub mod Resources
pub mod Slots
pub mod Lifecycle
pub mod Discovery
pub mod Checkers
use pubsub_event_processor.Common.{
  ℕ, ◌+◌, String, Bool, true, false, Option, none, some, List, [], ◌∷◌, ◌++◌, map, Result, ok, err,
  Error, cause, wrap, text, quoted, if◌then◌else◌, string_discrete, ite,
}
use pubsub_event_processor.Config.{Config}
use pubsub_event_processor.Replay.Committer.{Committer, done}
use pubsub_event_processor.Worker.{RawEvent}

-- What holds connections, and has to be closed.
pub data Resource : Type 0 where
  client_connection database_pool kafka_producer redis_client : Resource

pub data Action : Type 0 where
  opened closed : Resource → Action

-- `App`, with the fields that its other functions read; a nil pointer is `false`.
pub record App : Type 0 where
  pub subs : List String
  pub has_redis : Bool
  pub has_producer : Bool
  pub checkers : List String

-- What has been opened and closed so far, and the state of the services.
abbrev pub Trace : Type 0 → Type 0
Trace S = List Action × S

-- `dial` is `pubsub.Dial`, `new_pool` is `storage.NewPool`, `new_client` is `kgo.NewClient`, `create_topic` is
-- kadm's CreateTopic and `is_existing` tests its error for TOPIC_ALREADY_EXISTS; `close_redis` and `close_conn`
-- are the errors that the two `Close` calls return, and `is_closed` tests for redis.ErrClosed.
pub record Outside (X S : Type 0) : Type 0 where
  pub dial : S → Option X × S
  pub new_pool : S → Option X × S
  pub new_client : S → Option X × S
  pub create_topic : S → Option X × S
  pub is_existing : X → Bool
  pub close_redis : S → Option X × S
  pub is_closed : X → Bool
  pub close_conn : S → Option X × S

module _ {X S : Type 0} (out : Outside X S) where
  -- `EnsureTopic` of internal/kafka/producer.go
  unfoldable pub ensure_topic : String → S → Option (Error X) × S
  ensure_topic topic s =
      let (r, s') = out.create_topic s in
      elim r [
        | none ↦ (none, s')
        | some x ↦ (
          if out.is_existing x then none else some (wrap (quoted "create topic" topic) (cause x)),
          s',
        )
      ]

  -- The `CreateTopic` block of `New`: whether there is a producer.
  unfoldable pub start_topic : Config → Trace S → Result (Error X) Bool × Trace S
  unfolding ensure_topic
  start_topic cfg (actions, s) =
      let (r, s') = ensure_topic cfg.kafka.topic s in
      elim r [
        | some x ↦ (
          err (wrap (text "ensure kafka topic") x),
          (
            actions ++ closed kafka_producer ∷ closed database_pool ∷ closed client_connection ∷ [],
            s',
          ),
        )
        | none ↦ (ok true, (actions, s'))
      ]

  -- The producer block of `New`, where Kafka is enabled.
  unfoldable pub start_enabled : Config → Trace S → Result (Error X) Bool × Trace S
  unfolding start_topic
  start_enabled cfg (actions, s) =
      let (r, s') = out.new_client s in
      elim r [
        | some x ↦ (
          err (wrap (text "kafka producer") (wrap (text "new kafka client") (cause x))),
          (actions ++ closed database_pool ∷ closed client_connection ∷ [], s'),
        )
        | none ↦
            if cfg.kafka.create_topic
            then start_topic cfg (actions ++ opened kafka_producer ∷ [], s')
            else (ok true, (actions ++ opened kafka_producer ∷ [], s'))
      ]

  -- The producer block of `New`.
  unfoldable pub start_producer : Config → Trace S → Result (Error X) Bool × Trace S
  unfolding start_enabled
  start_producer cfg t = if cfg.kafka.enabled then start_enabled cfg t else (ok false, t)

  -- The rest of `New`, which cannot fail: rediscache.New does not connect.
  unfoldable pub start_rest : Config → Bool → Trace S → App × Trace S
  start_rest cfg producer (actions, s) = (
    record {
      subs = cfg.pubsub.topics;
      has_redis = cfg.redis.enabled;
      has_producer = producer;
      checkers =
          "auth" ∷ "database" ∷ (if producer then "kafka" ∷ [] else [])
          ++ (if cfg.redis.enabled then "redis" ∷ [] else []);
    },
    (if cfg.redis.enabled then actions ++ opened redis_client ∷ [] else actions, s),
  )

  -- `New` once the client is there.
  unfoldable pub start_dialled : Config → Trace S → Result (Error X) App × Trace S
  unfolding start_producer start_rest
  start_dialled cfg (actions, s) =
      let (r, s') = out.new_pool s in
      elim r [
        | some x ↦ (
          err (wrap (text "database pool") (cause x)),
          (actions ++ closed client_connection ∷ [], s'),
        )
        | none ↦
            let (r', t) = start_producer cfg (actions ++ opened database_pool ∷ [], s') in
            elim r' [
              | err x ↦ (err x, t)
              | ok producer ↦ let (app, t') = start_rest cfg producer t in (ok app, t')
            ]
      ]

  -- `New`
  unfoldable pub new_app : Config → S → Result (Error X) App × Trace S
  unfolding start_dialled
  new_app cfg s =
      let (r, s') = out.dial s in
      elim r [
        | some x ↦ (err (wrap (text "pubsub dial") (cause x)), ([], s'))
        | none ↦ start_dialled cfg (opened client_connection ∷ [], s')
      ]

  -- `Close` of internal/rediscache/cache.go
  unfoldable pub close_cache : S → Option (Error X) × S
  close_cache s =
      let (r, s') = out.close_redis s in
      elim r [
        | none ↦ (none, s')
        | some x ↦
            (if out.is_closed x then none else some (wrap (text "close redis") (cause x)), s')
      ]

  -- `App.Close`: an error of the cache is logged and dropped.
  unfoldable pub close_app : App → Trace S → Option X × Trace S
  unfolding close_cache
  close_app a (actions, s) =
      let s' = if a.has_redis then (close_cache s).1 else s in
      let (r, s'') = out.close_conn s' in
      (
        r,
        (
          actions
              ++ (if a.has_redis then closed redis_client ∷ [] else [])
              ++ (if a.has_producer then closed kafka_producer ∷ [] else [])
              ++ closed database_pool ∷ closed client_connection ∷ [],
          s'',
        ),
      )

-- A subscriber, as `App.ack` sees it: `pendingAck`, and whether `ackWake` holds its token.
pub record Subscription : Type 0 where
  pub topic : String
  pub pending_ack : ℕ
  pub wake : Bool

-- `Subscriber.Ack(1)`
abbrev pub ack_one : Subscription → Subscription
ack_one s = record s { pending_ack = s.pending_ack + 1; wake = true }

-- The loop of `App.ack`, which returns at the first subscriber of the topic.
unfoldable pub ack_first : String → List Subscription → List Subscription
ack_first t [] = []
ack_first t (s ∷ subs) =
    let rest = ack_first t subs in ite (string_discrete s.topic t) (ack_one s ∷ subs) (s ∷ rest)

-- `App.ack`
unfoldable pub ack : RawEvent → Committer × List Subscription → Committer × List Subscription
unfolding ack_first
ack e (c, subs) = (done c e.topic e.seq e.replay_id, ack_first e.topic subs)
