-- ===== src/App/Resources.antt =====
-- What `New` and `Close` of internal/app/app.go open and close.
use mathlib.Core.List.{reverse}
use pubsub_event_processor.Common.{
  ◌≡◌, inl, inr, Bool, true, List, [], ◌∷◌, ◌++◌, ◌⊎◌, if◌then◌else◌, wrap, text, map, ok, err,
  Error, arith, Bool-cases, Option-cases, Result-cases,
}
use pubsub_event_processor.Config.{Config}
use pubsub_event_processor.App.{
  Resource, client_connection, database_pool, kafka_producer, redis_client, Action, opened, closed,
  App, Outside, ensure_topic, start_topic, start_enabled, start_producer, start_rest, start_dialled,
  new_app, close_app,
}

-- Everything that was opened was closed again, the last one first.
unfoldable pub IsBalanced : List Action → Type 0
IsBalanced actions = (rs : List Resource) × (actions ≡ map opened rs ++ map closed (reverse rs))

-- The trace when the client and the pool are open.
abbrev base : List Action
base = opened client_connection ∷ opened database_pool ∷ []

module _ {X S : Type 0} (out : Outside X S) where
  topic_trace :
      (cfg : Config) (acts : List Action) (s : S)
      → let (r, t) = start_topic out cfg (acts, s) in
        ((x : Error X) × (r ≡ err x)
          × (t.0
              ≡ acts
                ++ closed kafka_producer ∷ closed database_pool ∷ closed client_connection ∷ []))
        ⊎ ((r ≡ ok true) × (t.0 ≡ acts))
  unfolding start_topic
  topic_trace cfg acts s = elim (Option-cases (ensure_topic out cfg.kafka.topic s).0) [
    | inl e ↦ inr (ground arith)
    | inr (x, e) ↦ inl (wrap (text "ensure kafka topic") x, ground arith, ground arith)
  ]

  producer_failure :
      (cfg : Config) (s : S) (x : Error X)
      → (start_producer out cfg (base, s)).0 ≡ err x
      → IsBalanced (start_producer out cfg (base, s)).1.0
  unfolding start_producer start_enabled IsBalanced
  producer_failure cfg s x h = elim (Bool-cases cfg.kafka.enabled) [
    | inr k ↦ absurd (ground arith)
    | inl k ↦ elim (Option-cases (out.new_client s).0) [
      | inr (y, e) ↦ (client_connection ∷ database_pool ∷ [], ground arith)
      | inl e ↦ elim (Bool-cases cfg.kafka.create_topic) [
        | inr c ↦ absurd (ground arith)
        | inl c ↦ elim (topic_trace cfg (base ++ opened kafka_producer ∷ []) (out.new_client s).1) [
          | inl (y, r, t) ↦ (client_connection ∷ database_pool ∷ kafka_producer ∷ [], ground arith)
          | inr (r, t) ↦ absurd (ground arith)
        ]
      ]
    ]
  ]

  producer_success :
      (cfg : Config) (s : S) (producer : Bool)
      → (start_producer out cfg (base, s)).0 ≡ ok producer
      → (start_producer out cfg (base, s)).1.0
        ≡ (if producer then base ++ opened kafka_producer ∷ [] else base)
  unfolding start_producer start_enabled
  producer_success cfg s producer h = elim (Bool-cases cfg.kafka.enabled) [
    | inr k ↦ ground arith
    | inl k ↦ elim (Option-cases (out.new_client s).0) [
      | inr (y, e) ↦ absurd (ground arith)
      | inl e ↦ elim (Bool-cases cfg.kafka.create_topic) [
        | inr c ↦ ground arith
        | inl c ↦ elim (topic_trace cfg (base ++ opened kafka_producer ∷ []) (out.new_client s).1) [
          | inl (y, r, t) ↦ absurd (ground arith)
          | inr (r, t) ↦ ground arith
        ]
      ]
    ]
  ]

  -- If `New` fails, at whatever step, it has closed what it opened, in the reverse order.
  pub new_failure_releases :
      (cfg : Config) (s : S) (e : Error X)
      → (new_app out cfg s).0 ≡ err e
      → IsBalanced (new_app out cfg s).1.0
  unfolding new_app start_dialled start_rest IsBalanced
  new_failure_releases cfg s e h = elim (Option-cases (out.dial s).0) [
    | inr (x, a) ↦ ([], ground arith)
    | inl a ↦ elim (Option-cases (out.new_pool (out.dial s).1).0) [
      | inr (x, b) ↦ (client_connection ∷ [], ground arith)
      | inl b ↦
          let s' = (out.new_pool (out.dial s).1).1 in
          elim (Result-cases (start_producer out cfg (base, s')).0) [
            | inl (producer, c) ↦ absurd (ground arith)
            | inr (x, c) ↦ let (rs, t) = producer_failure cfg s' x c in (rs, ground arith)
          ]
    ]
  ]

  -- The trace of `New` when it succeeds.
  opened_trace : App → List Action
  opened_trace app =
      opened client_connection
        ∷ opened database_pool
        ∷ (if app.has_producer then opened kafka_producer ∷ [] else [])
      ++ (if app.has_redis then opened redis_client ∷ [] else [])

  new_success :
      (cfg : Config) (s : S) (app : App)
      → (new_app out cfg s).0 ≡ ok app
      → (new_app out cfg s).1.0 ≡ opened_trace app
  unfolding new_app start_dialled start_rest opened_trace
  new_success cfg s app h = elim (Option-cases (out.dial s).0) [
    | inr (x, a) ↦ absurd (ground arith)
    | inl a ↦ elim (Option-cases (out.new_pool (out.dial s).1).0) [
      | inr (x, b) ↦ absurd (ground arith)
      | inl b ↦
          let s' = (out.new_pool (out.dial s).1).1 in
          elim (Result-cases (start_producer out cfg (base, s')).0) [
            | inl (producer, c) ↦
                let t = producer_success cfg s' producer c in
                elim (Bool-cases producer) [
                  | inl d ↦ elim (Bool-cases cfg.redis.enabled) [
                    | inl f ↦ ground arith
                    | inr f ↦ ground arith
                  ]
                  | inr d ↦ elim (Bool-cases cfg.redis.enabled) [
                    | inl f ↦ ground arith
                    | inr f ↦ ground arith
                  ]
                ]
            | inr (x, c) ↦ absurd (ground arith)
          ]
    ]
  ]

  close_balances : (app : App) (s : S) → IsBalanced (close_app out app (opened_trace app, s)).1.0
  unfolding close_app opened_trace IsBalanced
  close_balances app s = elim (Bool-cases app.has_redis) [
    | inl r ↦ elim (Bool-cases app.has_producer) [
      | inl p ↦
          (client_connection ∷ database_pool ∷ kafka_producer ∷ redis_client ∷ [], ground arith)
      | inr p ↦ (client_connection ∷ database_pool ∷ redis_client ∷ [], ground arith)
    ]
    | inr r ↦ elim (Bool-cases app.has_producer) [
      | inl p ↦ (client_connection ∷ database_pool ∷ kafka_producer ∷ [], ground arith)
      | inr p ↦ (client_connection ∷ database_pool ∷ [], ground arith)
    ]
  ]

  -- `Close` of an `App` that `New` built closes exactly what `New` opened, in the reverse order, whatever
  -- errors the two closing calls return.
  pub close_releases :
      (cfg : Config) (s : S) (app : App) (s' : S)
      → (new_app out cfg s).0 ≡ ok app
      → IsBalanced (close_app out app ((new_app out cfg s).1.0, s')).1.0
  close_releases cfg s app s' h = rw (new_success cfg s app h) (close_balances app s')
