-- ===== src/Auth/Build.antt =====
-- internal/auth/oauth.go: `New` with its options, and the gauge of the token's expiry. The HTTP client of
-- WithHTTPClient is the parameter `send` of Auth.
use pubsub_event_processor.Common.{
  ℕ, ◌-◌, ◌<◌, ◌≡◌, none, some, List, [], ◌∷◌, true, arith, if◌then◌else◌, ltb,
}
use pubsub_event_processor.Replay.Cursor.{Bytes}
use pubsub_event_processor.Auth.{Credentials, Provider, is_fresh}

-- `defaultRefreshAhead` and `defaultTTL`
abbrev pub default_refresh_ahead : ℕ
default_refresh_ahead = 60_000_000_000

abbrev pub default_ttl : ℕ
default_ttl = 3_600_000_000_000

-- `Option`: a function on the provider that is being built.
abbrev pub ProviderOption : Type 0
ProviderOption = Provider → Provider

abbrev pub with_default_ttl : ℕ → ProviderOption
with_default_ttl d p = record p { default_ttl = d }

abbrev pub with_refresh_ahead : ℕ → ProviderOption
with_refresh_ahead d p = record p { refresh_ahead = d }

unfoldable pub apply_options : List ProviderOption → Provider → Provider
apply_options [] p = p
apply_options (o ∷ os) p = apply_options os (o p)

-- `New`
unfoldable pub new_provider : Bytes → List ProviderOption → Provider
unfolding apply_options
new_provider login_url opts = apply_options opts (record {
  login_url = login_url;
  refresh_ahead = default_refresh_ahead;
  default_ttl = default_ttl;
  cached = none;
  expires_at = 0;
  refresh_success = 0;
  refresh_error = 0;
})

-- The gauge `auth_token_expiry_seconds`, in nanoseconds, at the time `now`.
unfoldable pub expiry_gauge : ℕ → Provider → ℕ
expiry_gauge now p = elim p.cached [
  | none ↦ 0
  | some creds ↦ if ltb now p.expires_at then p.expires_at - now else 0
]

-- A token that `Token` still hands out shows more than the margin in which it is refreshed.
gauge_of_fresh :
    (now : ℕ) (p : Provider) (creds : Credentials)
    → p.cached ≡ some creds
    → is_fresh now p ≡ true
    → p.refresh_ahead < expiry_gauge now p
unfolding expiry_gauge
gauge_of_fresh now p creds e fresh = ground arith
