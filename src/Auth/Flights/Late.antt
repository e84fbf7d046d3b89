-- ===== src/Auth/Flights/Late.antt =====
-- internal/auth/oauth.go: a caller of `Token` that comes to `Do` late.
use pubsub_event_processor.Common.{ℕ, ◌≡◌, ◌≢◌, String, none, some, Result, ok, Error, arith}
use pubsub_event_processor.Replay.Cursor.{Bytes}
use pubsub_event_processor.Auth.{Credentials, TokenResponse, Provider}
use pubsub_event_processor.Singleflight.{
  missed, asking, finishing, returned, Flights, FlightState, FlightUser, look, lead, look_again,
  answer, finish, Reach, here, next, IsStart,
}
use pubsub_event_processor.Singleflight.Returning.{Reach-trans}
use pubsub_event_processor.Auth.Flights.Usable.{refreshed_caches}
use pubsub_event_processor.Auth.Flights.{refreshed, token_client}

module _ {X Q B S : Type 0} (build : Bytes → Result X Q) (send : Q → S → Result X (ℕ × B) × S)
    (read_all : B → Result X Bytes) (unmarshal : Bytes → Result X TokenResponse)
    (parse_url : Bytes → Result X Bytes) {G : Type 0} (f : Flights G) where
  abbrev client : FlightUser Provider ℕ (ℕ × S) (Result (Error X) Credentials)
  client = token_client build send read_all unmarshal parse_url

  -- After the flight of `i` has ended, `j`, which has looked before, leads the next one.
  late_caller_asks :
      (s : FlightState G Provider (Result (Error X) Credentials)) (i j : ℕ) (k : String)
      (creds : Credentials)
      → s.callers i ≡ finishing k (ok creds)
      → s.callers j ≡ missed k
      → (t : FlightState G Provider (Result (Error X) Credentials)) × Reach f client s t
        × (t.callers i ≡ returned k (ok creds))
        × (t.callers j ≡ asking k)
        × (t.cache ≡ s.cache)
  late_caller_asks s i j k creds hi hj =
      let r1 = next here (finish i k (ok creds) hi) in
      let r2 = next r1 (lead j k (ground arith) (ground (arith, f.in_flight-finish k k s.group))) in
      let r3 = next r2 (look_again j k (ground arith)) in
      (_, r3, ground arith, ground arith, ground arith)

  -- Both have looked in vain, and `i` leads the flight up to the answer.
  flight_answers :
      (s : FlightState G Provider (Result (Error X) Credentials)) (i j now later : ℕ) (w : S)
      → IsStart f s
      → i ≢ j
      → s.cache.cached ≡ none
      → let (r, p) =
          refreshed build send read_all unmarshal parse_url (later, w) "refresh" s.cache in
        (t : FlightState G Provider (Result (Error X) Credentials)) × Reach f client s t
        × (t.callers i ≡ finishing "refresh" r)
        × (t.callers j ≡ missed "refresh")
        × (t.cache ≡ p)
  flight_answers s i j now later w st ne empty =
      let r1 = next here (look i now (st.all_idle i)) in
      let r2 = next r1 (look j now (ground (arith, st.all_idle j))) in
      let r3 = next r2 (lead i "refresh" (ground arith) (st.none_flying "refresh")) in
      let r4 = next r3 (look_again i "refresh" (ground arith)) in
      let r5 = next r4 (answer i "refresh" (later, w) (ground arith)) in
      (_, r5, ground arith, ground arith, ground arith)

  -- `Do` shares a request only among the callers that are in it together. From a state in which nobody has
  -- called yet and nothing is cached, where the refresh of a first caller succeeds: a second caller, which
  -- has also found nothing cached, can come to `Do` after the flight of the first one has ended; it is then
  -- in a request of its own, while the credentials of the first stand in the cache as its refresh has left
  -- it.
  pub late_caller_refreshes :
      (s : FlightState G Provider (Result (Error X) Credentials)) (i j now later : ℕ) (w : S)
      (creds : Credentials) (p : Provider)
      → IsStart f s
      → i ≢ j
      → s.cache.cached ≡ none
      → refreshed build send read_all unmarshal parse_url (later, w) "refresh" s.cache
        ≡ (ok creds, p)
      → (t : FlightState G Provider (Result (Error X) Credentials)) × Reach f client s t
        × (t.callers i ≡ returned "refresh" (ok creds))
        × (t.callers j ≡ asking "refresh")
        × (t.cache ≡ p)
        × (p.cached ≡ some creds)
  late_caller_refreshes s i j now later w creds p st ne empty done =
      let (t, r, hi, hj, hc) = flight_answers s i j now later w st ne empty in
      let (u, q, gi, gj, gc) = late_caller_asks t i j "refresh" creds (ground arith) hj in
      (
        u,
        Reach-trans f client r q,
        gi,
        gj,
        ground arith,
        refreshed_caches build send read_all unmarshal parse_url later w s.cache creds p done,
      )
