-- ===== src/Examples/Starting.antt =====
-- The theorems on the start of the service and its end at concrete inputs.
use pubsub_event_processor.Common.{
  ℕ, ◌+◌, ◌*◌, ◌^◌, ◌≤◌, ◌<◌, min, String, ◌≡◌, refl, sym, subst, inl, inr, ◌↔◌, Bool, true, false,
  Option, none, some, List, [], ◌∷◌, Result, ok, Error, cause, wrap, text, Has, arith,
  string_discrete, ite, Option-cases, pos, negsuc,
}
use pubsub_event_processor.Auth.{Credentials}
use pubsub_event_processor.Config.{
  validate, worker_errors, pubsub_errors, topic_errors, redis_errors, kafka_errors, broker_errors,
  topic_creation_errors, sink_errors,
}
use pubsub_event_processor.Config.Valid.{IsValid}
use pubsub_event_processor.Config.Load.{
  load, to_int32, new_subscriber, events_capacity, loaded_sizes,
}
use pubsub_event_processor.Subscriber.Flow.{max_int32}
use pubsub_event_processor.HttpServer.{cancelled, run_server}
use pubsub_event_processor.App.Lifecycle.{
  Member, subscriber, committer, pool, http, members, run_app, ServerFails, run_error_is_http,
}
use pubsub_event_processor.Examples.Start.{config, is_host_port, parse_url}
use pubsub_event_processor.Metrics.{
  Collector, subscriber_metrics, Registration, accepted, already, new_metrics,
}
use pubsub_event_processor.Metrics.Registry.{RegistryLaws}
use pubsub_event_processor.Metrics.Startup.{startup_never_panics}

-- A registry that is a list, and finds by name.
abbrev find : String → List Collector → Option Collector
find n [] = none
find n (d ∷ ds) = let rest = find n ds in ite (string_discrete d.name n) (some d) rest

abbrev answer : Collector → List Collector → Option Collector → Registration × List Collector
answer c r none = (accepted, c ∷ r)
answer c r (some d) = (already d, r)

abbrev register : Collector → List Collector → Registration × List Collector
register c r = answer c r (find c.name r)

-- A name that is there is a panic.
abbrev must_register : List Collector → List Collector → Option (List Collector)
must_register [] r = some r
must_register (c ∷ cs) r = elim (find c.name r) [ none ↦ must_register cs (c ∷ r) | some d ↦ none ]

abbrev Holds : Collector → List Collector → Type 0
Holds c r = find c.name r ≡ some c

found_name : (n : String) (d : Collector) (r : List Collector) → find n r ≡ some d → d.name ≡ n
found_name n d [] e = ground arith
found_name n d (x ∷ r) e = elim (string_discrete x.name n) [
  | yes q ↦ ground arith
  | no q ↦ found_name n d r (ground arith)
]

registry_laws : RegistryLaws register must_register Holds
registry_laws = record {
  accepts = λ c r new. elim (Option-cases (find c.name r)) [
    | inl e ↦ ground arith
    | inr (d, e) ↦
        let same = found_name c.name d r e in
        absurd (new d (subst (λ n. find n r ≡ some d) (sym same) e) same)
  ];
  again = λ c d r h (same, _, _). ground (arith, subst (λ n. find n r ≡ some d) same h);
  holds = λ c r h. elim (Option-cases (find c.name r)) [
    | inl e ↦ ground arith
    | inr (d, e) ↦ absurd (ground arith)
  ];
  keeps = λ c d r h. elim (Option-cases (find c.name r)) [
    | inl e ↦ ground arith
    | inr (x, e) ↦ ground arith
  ];
  adds = λ c d r h. elim (Option-cases (find c.name r)) [
    | inl e ↦ ground arith
    | inr (x, e) ↦ inr (ground arith)
  ];
  must_nothing = λ r. refl;
  must_next = λ c cs r new. elim (Option-cases (find c.name r)) [
    | inl e ↦ ground arith
    | inr (x, e) ↦ absurd (ground arith)
  ];
}

startup_never_panics_example :
    (r' : List Collector) × (new_metrics register must_register ("a" ∷ "b" ∷ "a" ∷ []) true true []
      ≡ some (subscriber_metrics 0 ∷ subscriber_metrics 0 ∷ subscriber_metrics 0 ∷ [], r'))
startup_never_panics_example =
    startup_never_panics register must_register registry_laws ("a" ∷ "b" ∷ "a" ∷ []) true true []
      (λ d h. ground arith)

-- A port that is taken.
abbrev listen : String → ℕ → Option ℕ × ℕ
listen addr s = (some 98, s)

abbrev shutdown : ℕ → Option ℕ × ℕ
shutdown s = (none, s)

abbrev is_server_closed : ℕ → Bool
is_server_closed x = false

abbrev is_canceled : Error ℕ → Bool
is_canceled e = false

abbrev ends : List Member
ends = http ∷ pool ∷ subscriber "a" ∷ committer ∷ []

all_return : (m : Member) → Has m (members ("a" ∷ [])) → Has m ends
unfolding members
all_return m (inl e) = inr (inr (inl e))
all_return m (inr (inl e)) = inr (inr (inr (inl e)))
all_return m (inr (inr (inl e))) = inr (inl e)
all_return m (inr (inr (inr (inl e)))) = inl e
all_return m (inr (inr (inr (inr h)))) = absurd h

run_error_is_http_example :
    let answer = (run_server listen shutdown is_server_closed ":8080" cancelled 0).0 in
    (run_app is_canceled answer ends ≡ some (wrap (text "listen :8080") (cause 98))
      ↔ ((answer ≡ some (wrap (text "listen :8080") (cause 98))) × (false ≡ false)))
    × (run_app is_canceled answer ends ≡ some (wrap (text "listen :8080") (cause 98))
        → ServerFails is_canceled listen shutdown is_server_closed ":8080" cancelled 0
            (wrap (text "listen :8080") (cause 98)))
run_error_is_http_example =
    run_error_is_http is_canceled listen shutdown is_server_closed ("a" ∷ []) ":8080" cancelled 0
      ends (wrap (text "listen :8080") (cause 98)) all_return

abbrev pub token_of : ℕ → Result (Error ℕ) Credentials × ℕ
token_of s = (ok (record { access_token = 1 ∷ []; instance_url = 2 ∷ []; tenant_id = 3 ∷ [] }), s)

abbrev pub pings : ℕ → Option ℕ × ℕ
pings s = (none, s + 1)

abbrev pub refuses : ℕ → Option ℕ × ℕ
refuses s = (some 111, s)

config_loads : load is_host_port parse_url {X = ℕ} (ok config) ≡ ok config
unfolding load validate worker_errors pubsub_errors topic_errors string_discrete redis_errors
    kafka_errors broker_errors topic_creation_errors sink_errors
config_loads = refl

loaded_sizes_example :
    IsValid is_host_port parse_url config
    × (to_int32 (pos 10) ≡ pos 10)
    × ((n : ℕ) × (pos 100 ≡ pos n)
        × (1 ≤ n)
        × ((new_subscriber "t" (pos 100)).batch_size ≡ min n max_int32)
        × (n < 2 ^ 62 → events_capacity n ≡ pos (n * 2))
        × (2 ^ 62 ≤ n → n < 2 ^ 63 → (m : ℕ) × (events_capacity n ≡ negsuc m)))
loaded_sizes_example =
    loaded_sizes is_host_port parse_url {X = ℕ} (ok config) config "t" config_loads
