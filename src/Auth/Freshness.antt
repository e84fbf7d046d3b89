-- ===== src/Auth/Freshness.antt =====
-- What `Provider.Token` of internal/auth/oauth.go returns and keeps.
use pubsub_event_processor.Common.{
  ℕ, ◌+◌, ◌≡◌, refl, subst, ◌≢◌, ◌⊎◌, ◌++◌, ◌<◌, inl, inr, some, List, [], ◌∷◌, Result, ok, err,
  Error, arith, Bool-cases, Option-cases, Result-cases,
}
use pubsub_event_processor.Replay.Cursor.{Bytes}
use pubsub_event_processor.Auth.{
  Credentials, TokenResponse, Provider, token, token_endpoint_path, refresh, fetch_token,
  fetch_built, response_checked, token_checked, is_fresh,
}
use pubsub_event_processor.Auth.Identity.{
  trim_right, tenant_id_from_identity_url, tenant_of_parts, split, trim,
}

-- None of the three values is empty.
pub record IsUsable (c : Credentials) : Type 0 where
  pub has_token : c.access_token ≢ []
  pub has_instance : c.instance_url ≢ []
  pub has_tenant : c.tenant_id ≢ []

-- What the cache holds can be used.
unfoldable pub IsSound : Provider → Type 0
IsSound p = (c : Credentials) → p.cached ≡ some c → IsUsable c

cons_nonempty : {A : Type 0} (x : A) (xs : List A) → x ∷ xs ≢ []
cons_nonempty x xs h = ground arith

Bytes-cases : (xs : Bytes) → (xs ≡ []) ⊎ ((x : ℕ) × (rest : Bytes) × (xs ≡ x ∷ rest))
Bytes-cases [] = inl refl
Bytes-cases (x ∷ rest) = inr (x, rest, refl)

parts_tenant_nonempty :
    {X : Type 0} (ps : List Bytes) (t : Bytes) → tenant_of_parts {X = X} ps ≡ ok t → t ≢ []
unfolding tenant_of_parts
parts_tenant_nonempty [] t h = ground arith
parts_tenant_nonempty (p ∷ []) t h = ground arith
parts_tenant_nonempty (p ∷ [] ∷ ps) t h = ground arith
parts_tenant_nonempty (p ∷ (x ∷ xs) ∷ ps) t h = ground arith

module _ {X Q B S : Type 0} (build : Bytes → Result X Q) (send : Q → S → Result X (ℕ × B) × S)
    (read_all : B → Result X Bytes) (unmarshal : Bytes → Result X TokenResponse)
    (parse_url : Bytes → Result X Bytes) where
  tenant_nonempty : (url t : Bytes) → tenant_id_from_identity_url parse_url url ≡ ok t → t ≢ []
  unfolding tenant_id_from_identity_url
  tenant_nonempty [] t h = ground arith
  tenant_nonempty (c ∷ url) t h = elim (Result-cases (parse_url (c ∷ url))) [
    | inl (path, e) ↦ parts_tenant_nonempty {X = X} (split b'/' (trim b'/' path)) t (ground arith)
    | inr (x, e) ↦ absurd (ground arith)
  ]

  checked-IsUsable :
      (p : Provider) (tr : TokenResponse) (c : Credentials) (ttl : ℕ)
      → token_checked build send read_all unmarshal parse_url p tr ≡ ok (c, ttl)
      → IsUsable c
  unfolding token_checked
  checked-IsUsable p tr c ttl h = elim (Bytes-cases tr.access_token) [
    | inl e ↦ absurd (ground arith)
    | inr (x, a, ea) ↦ elim (Bytes-cases tr.instance_url) [
      | inl e ↦ absurd (ground arith)
      | inr (y, i, ei) ↦ elim (Result-cases (tenant_id_from_identity_url parse_url tr.id)) [
        | inl (t, e) ↦ record {
          has_token = subst (λ u. u ≢ []) (ground arith) (cons_nonempty x a);
          has_instance = subst (λ u. u ≢ []) (ground arith) (cons_nonempty y i);
          has_tenant = subst (λ u. u ≢ []) (ground arith) (tenant_nonempty tr.id t e);
        }
        | inr (er, e) ↦ absurd (ground arith)
      ]
    ]
  ]

  fetched-IsUsable :
      (p : Provider) (s : S) (c : Credentials) (ttl : ℕ)
      → (fetch_token build send read_all unmarshal parse_url p s).0 ≡ ok (c, ttl)
      → IsUsable c
  unfolding fetch_token fetch_built response_checked
  fetched-IsUsable p s c ttl h =
      elim (Result-cases (build (trim_right b'/' p.login_url ++ token_endpoint_path))) [
        | inr (x, e) ↦ absurd (ground arith)
        | inl (q, e) ↦ elim (Result-cases (send q s).0) [
          | inr (x, e2) ↦ absurd (ground arith)
          | inl ((status, b), e2) ↦ elim (Result-cases (read_all b)) [
            | inr (x, e3) ↦ absurd (ground arith)
            | inl (bytes, e3) ↦ elim (Result-cases (unmarshal bytes)) [
              | inr (x, e4) ↦ absurd (ground arith)
              | inl (tr, e4) ↦ checked-IsUsable p tr c ttl (ground arith)
            ]
          ]
        ]
      ]

  -- A refresh that fails leaves the cached credentials and their expiry as they were.
  token_error_keeps_cache :
      (now later : ℕ) (p : Provider) (s : S) (e : Error X)
      → let (r, (p', s')) = token build send read_all unmarshal parse_url now later p s in
        r ≡ err e → (p'.cached ≡ p.cached) × (p'.expires_at ≡ p.expires_at)
  unfolding token refresh
  token_error_keeps_cache now later p s e h = elim (Option-cases p.cached) [
    | inl c ↦
        ground (arith, Result-cases (fetch_token build send read_all unmarshal parse_url p s).0)
    | inr (old, c) ↦
        ground (arith, Result-cases (fetch_token build send read_all unmarshal parse_url p s).0)
  ]

  fresh_hit :
      (now later : ℕ) (p : Provider) (s : S) (c : Credentials)
      → p.cached ≡ some c
      → now + p.refresh_ahead < p.expires_at
      → token build send read_all unmarshal parse_url now later p s ≡ (ok c, (p, s))
  unfolding token
  fresh_hit now later p s c h fresh = ground arith

  token_caches :
      (now later : ℕ) (p : Provider) (s : S) (c : Credentials)
      → let (r, (p', s')) = token build send read_all unmarshal parse_url now later p s in
        r ≡ ok c → p'.cached ≡ some c
  unfolding token refresh
  token_caches now later p s c h = elim (Option-cases p.cached) [
    | inl e ↦
        ground (arith, Result-cases (fetch_token build send read_all unmarshal parse_url p s).0)
    | inr (old, e) ↦
        ground (arith, Result-cases (fetch_token build send read_all unmarshal parse_url p s).0)
  ]

  pub refresh-IsUsable :
      (now : ℕ) (p : Provider) (s : S) (c : Credentials)
      → (refresh build send read_all unmarshal parse_url now p s).0 ≡ ok c
      → IsUsable c
  unfolding refresh
  refresh-IsUsable now p s c h =
      elim (Result-cases (fetch_token build send read_all unmarshal parse_url p s).0) [
        | inl ((d, ttl), e) ↦ fetched-IsUsable p s c ttl (ground arith)
        | inr (x, e) ↦ absurd (ground arith)
      ]

  token_source :
      (now later : ℕ) (p : Provider) (s : S) (c : Credentials)
      → (token build send read_all unmarshal parse_url now later p s).0 ≡ ok c
      → (p.cached ≡ some c) ⊎ ((refresh build send read_all unmarshal parse_url later p s).0 ≡ ok c)
  unfolding token
  token_source now later p s c h = elim (Option-cases p.cached) [
    | inl e ↦ ground arith
    | inr (old, e) ↦ elim (Bool-cases (is_fresh now p)) [
      | inl f ↦ inl (ground arith)
      | inr f ↦ inr (ground arith)
    ]
  ]

  cache_source :
      (now later : ℕ) (p : Provider) (s : S) (c : Credentials)
      → let (r, (p', s')) = token build send read_all unmarshal parse_url now later p s in
        p'.cached ≡ some c → (p.cached ≡ some c) ⊎ (r ≡ ok c)
  unfolding token refresh
  cache_source now later p s c h = elim (Option-cases p.cached) [
    | inl e ↦
        ground (arith, Result-cases (fetch_token build send read_all unmarshal parse_url p s).0)
    | inr (old, e) ↦
        ground (arith, Result-cases (fetch_token build send read_all unmarshal parse_url p s).0)
  ]

  token_result-IsUsable :
      (now later : ℕ) (p : Provider) (s : S)
      → IsSound p
      → (c : Credentials) → (token build send read_all unmarshal parse_url now later p s).0 ≡ ok c
      → IsUsable c
  unfolding IsSound
  token_result-IsUsable now later p s sound c h = elim (token_source now later p s c h) [
    | inl e ↦ sound c e
    | inr e ↦ refresh-IsUsable later p s c e
  ]

  -- If the cached credentials, where there are any, have no empty value, then the ones that `Token` returns
  -- have none either, nor have those that it leaves in the cache.
  pub token-IsUsable :
      (now later : ℕ) (p : Provider) (s : S)
      → IsSound p
      → let (r, (p', s')) = token build send read_all unmarshal parse_url now later p s in
        ((c : Credentials) → r ≡ ok c → IsUsable c) × IsSound p'
  unfolding IsSound
  token-IsUsable now later p s sound = (
    token_result-IsUsable now later p s sound,
    λ c h. elim (cache_source now later p s c h) [
      | inl e ↦ sound c e
      | inr e ↦ token_result-IsUsable now later p s sound c e
    ],
  )

  -- Once `Token` has returned credentials, every further call until `refreshAhead` before their expiry returns
  -- the same ones, makes no request and changes nothing.
  pub token_is_reused :
      (now later : ℕ) (p : Provider) (s : S) (c : Credentials) (now' later' : ℕ)
      → let (r, (p', s')) = token build send read_all unmarshal parse_url now later p s in
        r ≡ ok c
        → now' + p'.refresh_ahead < p'.expires_at
        → token build send read_all unmarshal parse_url now' later' p' s' ≡ (ok c, (p', s'))
  token_is_reused now later p s c now' later' h fresh =
      fresh_hit now' later' _ _ c (token_caches now later p s c h) fresh
