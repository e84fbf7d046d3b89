-- ===== src/Client/Metadata.antt =====
-- What `GetRequestMetadata` of internal/pubsub/credentials.go puts on a call, with the provider's `Token`.
use pubsub_event_processor.Common.{
  ℕ, ◌≡◌, refl, subst, ◌≢◌, inl, inr, String, List, [], ◌∷◌, Result, ok, Error, arith, Result-cases,
  All, map,
}
use pubsub_event_processor.Replay.Cursor.{Bytes}
use pubsub_event_processor.Auth.{Credentials, TokenResponse, Provider, token}
use pubsub_event_processor.Auth.Freshness.{IsSound, token-IsUsable}
use pubsub_event_processor.Client.{metadata_of, request_metadata}

module _ {X Q B S : Type 0} (build : Bytes → Result X Q) (send : Q → S → Result X (ℕ × B) × S)
    (read_all : B → Result X Bytes) (unmarshal : Bytes → Result X TokenResponse)
    (parse_url : Bytes → Result X Bytes) where
  -- `Token` at one moment.
  abbrev pub token_at : ℕ → ℕ → Provider × S → Result (Error X) Credentials × (Provider × S)
  token_at now later (p, s) = token build send read_all unmarshal parse_url now later p s

  -- If the cached credentials, where there are any, have no empty value, then a call either fails for want of a
  -- token or carries the three headers, none of them empty.
  pub metadata_is_complete :
      (now later : ℕ) (p : Provider) (s : S) (headers : List (String × Bytes))
      → IsSound p
      → (request_metadata (token_at now later) (p, s)).0 ≡ ok headers
      → (map (λ h. h.0) headers ≡ "accesstoken" ∷ "instanceurl" ∷ "tenantid" ∷ [])
        × All (λ h. h.1 ≢ []) headers
  unfolding request_metadata
  metadata_is_complete now later p s headers sound h =
      elim (Result-cases (token build send read_all unmarshal parse_url now later p s).0) [
        | inr (x, e) ↦ absurd (ground arith)
        | inl (c, e) ↦
            let u =
              (token-IsUsable build send read_all unmarshal parse_url now later p s sound).0 c e in
            let same : metadata_of c ≡ headers = ground arith in
            subst
              (λ hs.
                (map (λ h. h.0) hs ≡ "accesstoken" ∷ "instanceurl" ∷ "tenantid" ∷ [])
                × All (λ h. h.1 ≢ []) hs)
              same (refl, (u.has_token, (u.has_instance, (u.has_tenant, tt))))
      ]
