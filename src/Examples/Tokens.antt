-- ===== src/Examples/Tokens.antt =====
-- The theorems on callers of `Token` side by side, at concrete inputs.
use pubsub_event_processor.Common.{
  ℕ, ◌≡◌, ◌≢◌, refl, String, Bool, false, some, Result, ok, Error, arith, string_discrete,
  ℕ_discrete,
}
use pubsub_event_processor.Auth.{
  Credentials, Provider, refresh, fetch_token, fetch_built, response_checked, token_checked,
}
use pubsub_event_processor.Auth.Identity.{
  tenant_id_from_identity_url, trim_left, trim_right, split, tenant_of_parts, is_id,
}
use pubsub_event_processor.Auth.Freshness.{IsUsable, IsSound}
use pubsub_event_processor.Auth.Flights.{token_client, refreshed, tokens_fetch_alone}
use pubsub_event_processor.Auth.Flights.Usable.{tokens-IsUsable}
use pubsub_event_processor.Auth.Flights.Late.{late_caller_refreshes}
use pubsub_event_processor.Singleflight.{
  idle, asking, returned, FlightState, look, join, lead, look_again, answer, finish, Reach, here,
  next, IsStart,
}
use pubsub_event_processor.Examples.Sessions.{
  build, send, read_all, unmarshal, path_of, fresh_provider, credentials, fresh-IsSound,
}
use pubsub_event_processor.Examples.Calls.{group_of_keys}

abbrev Tokens : Type 0
Tokens = FlightState (String → Bool) Provider (Result (Error ℕ) Credentials)

abbrev nobody : Tokens
nobody = record { group = λ k. false; cache = fresh_provider; callers = λ i. idle }

nobody-IsStart : IsStart group_of_keys nobody
nobody-IsStart = record { none_flying = λ k. refl; all_idle = λ i. refl }

abbrev Run : Tokens → Type 0
Run t = Reach group_of_keys (token_client build send read_all unmarshal path_of) nobody t

-- The first caller leads and is in the request, the second one waits.
abbrev asked : (t : Tokens) × Run t
unfolding string_discrete ℕ_discrete
asked =
    let r1 : Run _ = next here (look 0 7 refl) in
    let r2 : Run _ = next r1 (look 1 8 refl) in
    let r3 : Run _ = next r2 (lead 0 "refresh" refl refl) in
    let r4 : Run _ = next r3 (join 1 "refresh" refl refl) in
    (_, next r4 (look_again 0 "refresh" refl))

is_asked : asked.0.callers 0 ≡ asking "refresh"
unfolding string_discrete ℕ_discrete
is_asked = refl

tokens_fetch_alone_example : ◌≡◌ {A = ℕ} 0 0
tokens_fetch_alone_example =
    tokens_fetch_alone build send read_all unmarshal path_of group_of_keys 0 0 "refresh" "refresh"
      nobody-IsStart asked.1 is_asked is_asked

-- The token endpoint answers, and the flight ends.
abbrev answered : (t : Tokens) × Run t
unfolding string_discrete ℕ_discrete refresh fetch_token fetch_built response_checked token_checked
    tenant_id_from_identity_url trim_left trim_right split tenant_of_parts is_id
answered =
    let r1 : Run _ = next asked.1 (answer 0 "refresh" (9, 1) refl) in
    (_, next r1 (finish 0 "refresh" (ok credentials) refl))

tokens-IsUsable_example :
    IsSound answered.0.cache
    × ((i : ℕ) (k : String) (c : Credentials)
        → answered.0.callers i ≡ returned k (ok c)
        → IsUsable c)
tokens-IsUsable_example =
    tokens-IsUsable build send read_all unmarshal path_of group_of_keys fresh-IsSound nobody-IsStart
      answered.1

abbrev refreshed_provider : Provider
refreshed_provider =
    (refreshed build send read_all unmarshal path_of (9, 1) "refresh" fresh_provider).1

refresh_succeeds :
    refreshed build send read_all unmarshal path_of (9, 1) "refresh" fresh_provider
    ≡ (ok credentials, refreshed_provider)
unfolding refresh fetch_token fetch_built response_checked token_checked tenant_id_from_identity_url
    trim_left trim_right split tenant_of_parts is_id
refresh_succeeds = refl

zero_is_not_one : ◌≢◌ {A = ℕ} 0 1
zero_is_not_one h = ground arith

late_caller_refreshes_example :
    (t : Tokens) × Run t
    × (t.callers 0 ≡ returned "refresh" (ok credentials))
    × (t.callers 1 ≡ asking "refresh")
    × (t.cache ≡ refreshed_provider)
    × (refreshed_provider.cached ≡ some credentials)
late_caller_refreshes_example =
    late_caller_refreshes build send read_all unmarshal path_of group_of_keys nobody 0 1 7 9 1
      credentials refreshed_provider nobody-IsStart zero_is_not_one refl refresh_succeeds
