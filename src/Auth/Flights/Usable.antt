-- ===== src/Auth/Flights/Usable.antt =====
-- internal/auth/oauth.go: the credentials that interleaved calls of `Token` get.
use pubsub_event_processor.Common.{
  ℕ, subst, ◌≡◌, String, some, Result, ok, Error, arith, Option-cases, Result-cases, refl, sym, inl,
  inr,
}
use pubsub_event_processor.Replay.Cursor.{Bytes}
use pubsub_event_processor.Auth.{Credentials, TokenResponse, Provider, refresh, fetch_token}
use pubsub_event_processor.Auth.Freshness.{IsUsable, IsSound, refresh-IsUsable}
use pubsub_event_processor.Singleflight.{returned, Flights, FlightState, Reach, IsStart}
use pubsub_event_processor.Singleflight.Results.{Gives, reach-Good}
use pubsub_event_processor.Auth.Flights.{look_fresh, refreshed, token_client}

module _ {X Q B S : Type 0} (build : Bytes → Result X Q) (send : Q → S → Result X (ℕ × B) × S)
    (read_all : B → Result X Bytes) (unmarshal : Bytes → Result X TokenResponse)
    (parse_url : Bytes → Result X Bytes) where
  pub refreshed_caches :
      (later : ℕ) (w : S) (p : Provider) (creds : Credentials) (p' : Provider)
      → refreshed build send read_all unmarshal parse_url (later, w) "refresh" p ≡ (ok creds, p')
      → p'.cached ≡ some creds
  unfolding refresh
  refreshed_caches later w p creds p' h =
      ground (arith, Result-cases (fetch_token build send read_all unmarshal parse_url p w).0)

  abbrev Usable : Result (Error X) Credentials → Type 0
  Usable r = (c : Credentials) → r ≡ ok c → IsUsable c

  answer-IsSound :
      (a : ℕ × S) (k : String) (p : Provider)
      → IsSound p
      → IsSound (refreshed build send read_all unmarshal parse_url a k p).1
  unfolding IsSound refresh
  answer-IsSound (later, w) k p sound c h =
      elim (Result-cases (fetch_token build send read_all unmarshal parse_url p w).0) [
        | inl ((d, ttl), e) ↦
            refresh-IsUsable build send read_all unmarshal parse_url later p w c (ground arith)
        | inr (x, e) ↦ sound c (ground arith)
      ]

  look-same : (now : ℕ) (p : Provider) → (look_fresh {X = X} now p).1 ≡ p
  look-same now p = ground (arith, Option-cases p.cached)

  token-Gives : Gives (token_client build send read_all unmarshal parse_url) IsSound Usable
  unfolding IsSound
  token-Gives = record {
    look_keeps = λ now p v. subst IsSound (sym (look-same now p)) v;
    look_gives = λ now p r v h c e. v c (ground (arith, Option-cases p.cached));
    again_gives = λ k p r v h. absurd (ground arith);
    answer_keeps = answer-IsSound;
    answer_gives = λ a k p v c h.
        refresh-IsUsable build send read_all unmarshal parse_url a.0 p a.1 c (ground arith);
  }

  -- From a state in which nobody has called yet, and in which the cached credentials, where there are any,
  -- have no empty value: none of the calls of `Token`, whether it finds the cache fresh, leads a refresh or
  -- waits for another's, gets an empty value, however the calls interleave and whatever the token endpoint
  -- answers; nor does the cache hold one.
  pub tokens-IsUsable :
      {G : Type 0} (f : Flights G) {s t : FlightState G Provider (Result (Error X) Credentials)}
      → IsSound s.cache
      → IsStart f s
      → Reach f (token_client build send read_all unmarshal parse_url) s t
      → IsSound t.cache
        × ((i : ℕ) (k : String) (c : Credentials) → t.callers i ≡ returned k (ok c) → IsUsable c)
  tokens-IsUsable f sound st r =
      let (v, m) = reach-Good f _ token-Gives sound st r in
      (v, λ i k c h. m i k (ok c) (ground arith) c refl)
