-- ===== src/Auth.antt =====
-- internal/auth/oauth.go: the token provider. Texts are bytes here, since the code takes them apart; times are
-- nanoseconds.
pub mod Identity
pub mod Freshness
pub mod Build
pub mod Flights
use pubsub_event_processor.Common.{
  ℕ, ◌+◌, ◌-◌, ◌*◌, ◌%◌, ◌^◌, String, Bool, true, false, Option, none, some, List, [], ◌∷◌, ◌++◌,
  Result, ok, err, Error, cause, message, wrap, text, ℤ, pos, negsuc, ◌>>=◌, if◌then◌else◌, ltb,
  ◌==◌, map_err,
}
use pubsub_event_processor.Replay.Cursor.{Bytes}
use pubsub_event_processor.Auth.Identity.{trim_right, tenant_id_from_identity_url}

-- `Credentials`
pub record Credentials : Type 0 where
  pub access_token : Bytes
  pub instance_url : Bytes
  pub tenant_id : Bytes

-- `tokenResponse`, with the fields that the program reads.
pub record TokenResponse : Type 0 where
  pub access_token : Bytes
  pub instance_url : Bytes
  pub id : Bytes
  pub expires_in : ℤ

-- `Provider`: the cache, the settings, and the two values of `auth_token_refresh_total`.
pub record Provider : Type 0 where
  pub login_url : Bytes
  pub refresh_ahead : ℕ
  pub default_ttl : ℕ
  pub cached : Option Credentials
  pub expires_at : ℕ
  pub refresh_success : ℕ
  pub refresh_error : ℕ

abbrev pub slash : ℕ
slash = b'/'

-- "/services/oauth2/token"
abbrev pub token_endpoint_path : Bytes
token_endpoint_path =
    slash ∷ b's' ∷ b'e' ∷ b'r' ∷ b'v' ∷ b'i' ∷ b'c' ∷ b'e' ∷ b's' ∷ slash ∷ b'o' ∷ b'a' ∷ b'u'
    ∷ b't' ∷ b'h' ∷ b'2' ∷ slash ∷ b't' ∷ b'o' ∷ b'k' ∷ b'e' ∷ b'n' ∷ []

-- time.Duration(n) * time.Second on an `int64`, as a bit pattern.
abbrev pub seconds : ℕ → ℕ
seconds n = n * 1_000_000_000 % 2 ^ 64

-- now.Add(d); from 2^63 on the pattern is a negative duration, and the instant lies in the past.
abbrev pub add_duration : ℕ → ℕ → ℕ
add_duration now d = if ltb d (2 ^ 63) then now + d else now + d - 2 ^ 64

abbrev pub ttl_of : ℕ → ℤ → ℕ
ttl_of default_ttl (pos n) = if n == 0 then default_ttl else seconds n
ttl_of default_ttl (negsuc n) = default_ttl

-- time.Until(p.expiresAt) > p.refreshAhead
abbrev pub is_fresh : ℕ → Provider → Bool
is_fresh now p = ltb (now + p.refresh_ahead) p.expires_at

-- `build` is http.NewRequestWithContext with the form and the headers, `send` is the HTTP client, which
-- gives the status and a body to read, and `read_all` is io.ReadAll. `unmarshal` is json.Unmarshal,
-- `parse_url` gives the path of a URL (url.Parse). S is the state of the world outside.
module _ {X Q B S : Type 0} (build : Bytes → Result X Q) (send : Q → S → Result X (ℕ × B) × S)
    (read_all : B → Result X Bytes) (unmarshal : Bytes → Result X TokenResponse)
    (parse_url : Bytes → Result X Bytes) where
  -- `fetchToken` once the body is decoded.
  unfoldable pub token_checked : Provider → TokenResponse → Result (Error X) (Credentials × ℕ)
  token_checked p tr = elim tr.access_token [
    | [] ↦ err (message "empty access_token in token response")
    | a ∷ rest ↦ elim tr.instance_url [
      | [] ↦ err (message "empty instance_url in token response")
      | i ∷ more ↦ elim (tenant_id_from_identity_url parse_url tr.id) [
        | err x ↦ err (wrap (text "parse identity URL") x)
        | ok tenant ↦ ok (
          record {
            access_token = tr.access_token;
            instance_url = tr.instance_url;
            tenant_id = tenant;
          },
          ttl_of p.default_ttl tr.expires_in,
        )
      ]
    ]
  ]

  -- `fetchToken` once the response is there.
  unfoldable pub response_checked : Provider → ℕ × B → Result (Error X) (Credentials × ℕ)
  unfolding token_checked
  response_checked p (status, body) = elim (read_all body) [
    | err x ↦ err (wrap (text "read body") (cause x))
    | ok bytes ↦
        if status == 200
        then elim (unmarshal bytes) [
          | err x ↦ err (wrap (text "decode response") (cause x))
          | ok tr ↦ token_checked p tr
        ]
        else err (message "token endpoint returned another status")
  ]

  -- `fetchToken` once the request is built.
  unfoldable pub fetch_built : Provider → Q → S → Result (Error X) (Credentials × ℕ) × S
  unfolding response_checked
  fetch_built p request s =
      let (r, s') = send request s in
      elim r [
        | err x ↦ (err (wrap (text "post") (cause x)), s')
        | ok response ↦ (response_checked p response, s')
      ]

  -- `fetchToken`
  unfoldable pub fetch_token : Provider → S → Result (Error X) (Credentials × ℕ) × S
  unfolding fetch_built
  fetch_token p s = elim (build (trim_right slash p.login_url ++ token_endpoint_path)) [
    | err x ↦ (err (wrap (text "build request") (cause x)), s)
    | ok request ↦ fetch_built p request s
  ]

  -- `refresh`; `now` is the clock when the answer is there.
  unfoldable pub refresh : ℕ → Provider → S → Result (Error X) Credentials × (Provider × S)
  refresh now p s =
      let (r, s') = fetch_token p s in
      elim r [
        | err x ↦ (
          err (wrap (text "refresh token") x),
          (record p { refresh_error = p.refresh_error + 1 }, s'),
        )
        | ok (creds, ttl) ↦ (
          ok creds,
          (
            record p {
              cached = some creds;
              expires_at = add_duration now ttl;
              refresh_success = p.refresh_success + 1;
            },
            s',
          ),
        )
      ]

  -- `Token` of a caller that leads its flight; `now` is the clock at the test, `later` after the refresh.
  unfoldable pub token : ℕ → ℕ → Provider → S → Result (Error X) Credentials × (Provider × S)
  token now later p s = elim p.cached [
    | none ↦ refresh later p s
    | some creds ↦ if is_fresh now p then (ok creds, (p, s)) else refresh later p s
  ]
