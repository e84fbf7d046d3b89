-- ===== src/App/Checkers.antt =====
-- internal/app/app.go with internal/kafka/producer.go and internal/rediscache/cache.go: what /readyz asks.
use pubsub_event_processor.Common.{
  ◌≡◌, refl, ◌∙◌, ◌↔◌, String, Option, none, some, List, [], ◌∷◌, ◌++◌, map, Result, ok, err, Error,
  cause, wrap, text, arith, if◌then◌else◌, Bool-cases, All, inl, inr, true, false, Bool,
}
use pubsub_event_processor.Auth.{Credentials}
use pubsub_event_processor.Config.{Config}
use pubsub_event_processor.Health.{
  Checker, auth_check, readiness, run_checks, readiness_reports, checks_agree,
}
use pubsub_event_processor.HttpServer.Routes.{Routes}
use pubsub_event_processor.App.{Trace, start_rest, Outside}

-- `ping_database` is pgxpool's Ping, `ping_kafka` that of franz-go, `ping_redis` that of go-redis, and
-- `token` is the provider's `Token`.
module _ {X S : Type 0} (token : S → Result (Error X) Credentials × S)
    (ping_database ping_kafka ping_redis : S → Option X × S) where
  abbrev pinged : String → Option X → Option (Error X)
  pinged name none = none
  pinged name (some x) = some (wrap (text name) (cause x))

  -- `newDBChecker`
  unfoldable pub check_database : Checker X S
  check_database s = let (r, s') = ping_database s in (pinged "database ping" r, s')

  -- `Producer.Check`, through `newKafkaChecker`.
  unfoldable pub check_kafka : Checker X S
  check_kafka s = let (r, s') = ping_kafka s in (pinged "kafka ping" r, s')

  -- `Cache.Check`, through `newRedisChecker`.
  unfoldable pub check_redis : Checker X S
  check_redis s = let (r, s') = ping_redis s in (pinged "redis ping" r, s')

  -- The map `checkers` of `New`.
  unfoldable pub checkers_of : Config → List (String × Checker X S)
  checkers_of cfg =
      ("auth", auth_check token)
        ∷ ("database", check_database)
        ∷ (if cfg.kafka.enabled then ("kafka", check_kafka) ∷ [] else [])
      ++ (if cfg.redis.enabled then ("redis", check_redis) ∷ [] else [])

  -- An error under the text that goes before it.
  abbrev pub prefixed : String → Option X → Option (Error X)
  prefixed name r = elim r [ none ↦ none | some x ↦ some (wrap (text name) (cause x)) ]

  abbrev pub asked_if :
      Bool → String → String → (S → Option X × S) → S → List (String × Option (Error X)) × S
  asked_if true name said ping s = ((name, prefixed said (ping s).0) ∷ [], (ping s).1)
  asked_if false name said ping s = ([], s)

  -- What is asked and what is answered, without the checkers: a token and the database always, then Kafka and
  -- Redis where they are enabled.
  abbrev pub answers : Config → S → List (String × Option (Error X)) × S
  answers cfg s =
      let (a, s1) = token s in
      let (d, s2) = ping_database s1 in
      let (k, s3) = asked_if cfg.kafka.enabled "kafka" "kafka ping" ping_kafka s2 in
      let (r, s4) = asked_if cfg.redis.enabled "redis" "redis ping" ping_redis s3 in
      (
        ("auth", elim a [ ok creds ↦ none | err x ↦ some (wrap (text "salesforce token") x) ])
              ∷ ("database", prefixed "database ping" d)
              ∷ k
            ++ r,
        s4,
      )

  names_agree :
      {Y T : Type 0} (out : Outside Y T) (cfg : Config) (t : Trace T)
      → map (λ c. c.0) (checkers_of cfg) ≡ (start_rest out cfg cfg.kafka.enabled t).0.checkers
  unfolding checkers_of start_rest
  names_agree out cfg (actions, s) = elim (Bool-cases cfg.kafka.enabled) [
    | inl k ↦ elim (Bool-cases cfg.redis.enabled) [
      | inl r ↦ rw (k, r) refl
      | inr r ↦ rw (k, r) refl
    ]
    | inr k ↦ elim (Bool-cases cfg.redis.enabled) [
      | inl r ↦ rw (k, r) refl
      | inr r ↦ rw (k, r) refl
    ]
  ]

  status_agrees :
      (checkers : List (String × Checker X S)) (s : S)
      → let response = (readiness checkers s).0 in
        (response.status ≡ 200) ↔ All (λ c. c.1 ≡ none) response.checks
  unfolding readiness
  status_agrees checkers s = elim (Bool-cases (run_checks checkers s).0.0) [
    | inl e ↦ ground (arith, checks_agree checkers s)
    | inr e ↦ ground (arith, checks_agree checkers s)
  ]

  -- The probe of a service that `New` has built asks for a token and pings the database, and pings Kafka and
  -- Redis exactly if they are enabled: the response names those checkers, and its status is 200 if and only
  -- if every one of them answered nil.
  app_readiness :
      {Y T : Type 0} (out : Outside Y T) (cfg : Config) (t : Trace T) (s : S)
      → let response = (readiness (checkers_of cfg) s).0 in
        (map (λ c. c.0) response.checks ≡ (start_rest out cfg cfg.kafka.enabled t).0.checkers)
        × ((response.status ≡ 200) ↔ All (λ c. c.1 ≡ none) response.checks)
  app_readiness out cfg t s = (
    (readiness_reports (checkers_of cfg) s).0 ∙ names_agree out cfg t,
    status_agrees (checkers_of cfg) s,
  )
