-- ===== src/Examples/Probes.antt =====
-- The theorem on the admin endpoints at a concrete router, and the constructors at a concrete configuration.
use pubsub_event_processor.Common.{
  ℕ, ◌+◌, String, ◌≡◌, refl, Option, none, some, List, [], ◌∷◌, Result, ok, err, Error, cause, wrap,
  quoted, lookup, string_discrete,
}
use pubsub_event_processor.HttpServer.Routes.{HttpHandler, Routes, status_ok}
use pubsub_event_processor.Kafka.Build.{Producer, new_producer}
use pubsub_event_processor.Client.Dial.{dial}
use pubsub_event_processor.Log.{new_logger, new_core}
use pubsub_event_processor.Examples.Start.{config}

abbrev found : Option (HttpHandler ℕ ℕ) → HttpHandler ℕ ℕ
found none s = (record { content_type = "text/plain"; status = 404; body = status_ok }, s)
found (some h) s = h s

-- A router that looks its patterns up.
abbrev exact : List (String × HttpHandler ℕ ℕ) → String → HttpHandler ℕ ℕ
exact rs path = found (lookup string_discrete path rs)

abbrev metrics : HttpHandler ℕ ℕ
metrics s = (record { content_type = "text/plain"; status = 200; body = status_ok }, s)

-- The number of the options is the client that they make.
abbrev counts : {A : Type 0} → List A → ℕ → Result ℕ ℕ × ℕ
counts [] s = (ok s, s)
counts (o ∷ os) s = counts os (s + 1)

abbrev made : Result (Error ℕ) (Producer ℕ) × ℕ
made = new_producer counts config.kafka 0

producer_is_made : made ≡ (
  ok (record {
    client = 6;
    topic = config.kafka.topic;
    timeout = config.kafka.produce_timeout;
    cfg = config.kafka;
  }),
  6,
)
unfolding new_producer
producer_is_made = refl

client_is_dialled : dial (λ endpoint. counts) config.pubsub 0 ≡ (ok (record { conn = 4 }), 4)
unfolding dial
client_is_dialled = refl

bad_level : String → Result ℕ ℕ
bad_level level = err 1

level_is_refused :
    new_logger {S = ℕ} bad_level 2 0 "nope" "v1"
    ≡ err (wrap (quoted "parse log level" "nope") (cause 1))
unfolding new_logger new_core bad_level
level_is_refused = refl
