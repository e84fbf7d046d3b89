-- ===== src/Auth/Flights.antt =====
-- internal/auth/oauth.go: `Token` called by several goroutines at once, the unary interceptor's and the streams'.
pub mod Usable
pub mod Late
pub mod Alone
use pubsub_event_processor.Common.{
  ℕ, ℕ_discrete, ◌+◌, ◌<◌, ◌≡◌, ◌≢◌, String, Bool, true, false, Option, none, some, Result, ok, err,
  Error, string_discrete, arith, Option-cases, Result-cases, Bool-cases, refl, sym, inl, inr, ◌⊎◌,
  if◌then◌else◌,
}
use pubsub_event_processor.Replay.Cursor.{Bytes}
use pubsub_event_processor.Auth.{Credentials, TokenResponse, Provider, is_fresh, refresh, token}
use pubsub_event_processor.Auth.Freshness.{IsUsable, IsSound, refresh-IsUsable}
use pubsub_event_processor.Singleflight.{
  Caller, idle, missed, leading, asking, waiting, finishing, returned, Flights, FlightState,
  FlightUser, Step, look, join, lead, look_again, answer, finish, leave, Reach, here, next, IsStart,
  looked, looked_again, update, handed_on, called_key,
}
use pubsub_event_processor.Singleflight.Manned.{reach-IsManned}
use pubsub_event_processor.Singleflight.Keys.{reach-called_key}

-- The look at the cached token, between `Lock` and `Unlock`; `now` is the clock.
abbrev pub look_fresh :
    {X : Type 0} → ℕ → Provider → Option (Result (Error X) Credentials) × Provider
look_fresh now p = elim p.cached [
  | none ↦ (none, p)
  | some creds ↦ if is_fresh now p then (some (ok creds), p) else (none, p)
]

module _ {X Q B S : Type 0} (build : Bytes → Result X Q) (send : Q → S → Result X (ℕ × B) × S)
    (read_all : B → Result X Bytes) (unmarshal : Bytes → Result X TokenResponse)
    (parse_url : Bytes → Result X Bytes) where
  -- `refresh` of the leader: the clock when the answer is there, and the world that gives it.
  abbrev pub refreshed : ℕ × S → String → Provider → Result (Error X) Credentials × Provider
  refreshed (later, w) k p =
      let (r, (p', w')) = refresh build send read_all unmarshal parse_url later p w in (r, p')

  -- What `Token` does around its `singleflight.Group`, which it gives one key only, and without a second look.
  abbrev pub token_client : FlightUser Provider ℕ (ℕ × S) (Result (Error X) Credentials)
  token_client = record {
    key = λ now. "refresh";
    look = look_fresh;
    again = λ k p. none;
    answer = refreshed;
  }

  module _ {G : Type 0} (f : Flights G) where
    abbrev pub TokenState : Type 0
    TokenState = FlightState G Provider (Result (Error X) Credentials)

    -- However many goroutines call `Token`, at most one of them is in the request to the token endpoint.
    pub tokens_fetch_alone :
        {s t : TokenState} (i j : ℕ) (k n : String)
        → IsStart f s
        → Reach f token_client s t
        → t.callers i ≡ asking k
        → t.callers j ≡ asking n
        → i ≡ j
    tokens_fetch_alone i j k n st r hi hj =
        let (l, m) = reach-IsManned f token_client st r in
        let (e, a) = reach-called_key f token_client i k st r (ground arith) in
        let (d, b) = reach-called_key f token_client j n st r (ground arith) in
        ground (arith, m.owner i k (ground arith), m.owner j n (ground arith))
