-- ===== src/Auth/Flights/Alone.antt =====
-- internal/auth/oauth.go: one call of `Token` that nobody else disturbs, beside the function of the whole call.
use pubsub_event_processor.Common.{
  ℕ, ◌≡◌, false, Result, Error, arith, Option-cases, Bool-cases, inl, inr,
}
use pubsub_event_processor.Replay.Cursor.{Bytes}
use pubsub_event_processor.Auth.{Credentials, TokenResponse, Provider, is_fresh, token}
use pubsub_event_processor.Singleflight.{
  idle, returned, Flights, FlightState, look, lead, look_again, answer, finish, Reach, here, next,
}
use pubsub_event_processor.Auth.Flights.{look_fresh, refreshed, token_client}

module _ {X Q B S : Type 0} (build : Bytes → Result X Q) (send : Q → S → Result X (ℕ × B) × S)
    (read_all : B → Result X Bytes) (unmarshal : Bytes → Result X TokenResponse)
    (parse_url : Bytes → Result X Bytes) {G : Type 0} (f : Flights G) where
  -- A call of `Token` that finds no refresh in flight and is not disturbed returns what the function `token`
  -- returns, and leaves the cached credentials, their expiry and the counters that `token` leaves.
  pub token_alone :
      (s : FlightState G Provider (Result (Error X) Credentials)) (i now later : ℕ) (w : S)
      → s.callers i ≡ idle
      → f.in_flight "refresh" s.group ≡ false
      → let (r, (p, w')) = token build send read_all unmarshal parse_url now later s.cache w in
        (t : FlightState G Provider (Result (Error X) Credentials)) × Reach f
          (token_client build send read_all unmarshal parse_url)
          s
          t
        × (t.callers i ≡ returned "refresh" r)
        × (t.cache ≡ p)
  unfolding token
  token_alone s i now later w at free = elim (Option-cases (look_fresh {X = X} now s.cache).0) [
    | inr (r, hit) ↦ (
      _,
      next here (look i now at),
      ground (arith, Option-cases s.cache.cached, Bool-cases (is_fresh now s.cache)),
      ground (arith, Option-cases s.cache.cached, Bool-cases (is_fresh now s.cache)),
    )
    | inl miss ↦
        let done = refreshed build send read_all unmarshal parse_url (later, w) "refresh" s.cache in
        let r1 = next here (look i now at) in
        let r2 = next r1 (lead i "refresh" (ground arith) free) in
        let r3 = next r2 (look_again i "refresh" (ground arith)) in
        let r4 = next r3 (answer i "refresh" (later, w) (ground arith)) in
        let r5 = next r4 (finish i "refresh" done.0 (ground arith)) in
        (
          _,
          r5,
          ground (arith, Option-cases s.cache.cached, Bool-cases (is_fresh now s.cache)),
          ground (arith, Option-cases s.cache.cached, Bool-cases (is_fresh now s.cache)),
        )
  ]
