-- ===== src/Examples/Sessions.antt =====
-- The theorem on the tenant of an identity URL at a concrete input, and the data that the files beside it use of the
-- schema cache and the credentials.
use pubsub_event_processor.Common.{
  ℕ, ◌+◌, String, ◌≡◌, refl, none, [], ◌∷◌, Result, ok, err, Error, message, arith, string_discrete,
  pos, ite, if◌then◌else◌, ◌==◌,
}
use pubsub_event_processor.Replay.Cursor.{Bytes}
use pubsub_event_processor.Schema.{Cache, new_cache}
use pubsub_event_processor.Auth.{Credentials, TokenResponse, Provider}
use pubsub_event_processor.Auth.Identity.{tenant_id_from_identity_url}
use pubsub_event_processor.Auth.Identity.RoundTrip.{IsSegment, identity_path, identity_tenant}
use pubsub_event_processor.Auth.Freshness.{IsSound}

-- Schemas are numbers; the source knows "a" only, and counts its calls.
abbrev pub source : String → ℕ → Result (Error ℕ) String × ℕ
source id s = (ite (string_discrete id "a") (ok "{}") (err (message "unknown")), s + 1)

abbrev pub parse : String → Result ℕ ℕ
parse raw = ok 1

abbrev pub no_schemas : Cache ℕ
no_schemas = new_cache

-- The path /id/ab/c.
abbrev pub path_of : Bytes → Result ℕ Bytes
path_of url = ok (identity_path (b'a' ∷ b'b' ∷ []) (b'c' ∷ []))

org-IsSegment : IsSegment b'/' (b'a' ∷ b'b' ∷ [])
unfolding IsSegment
org-IsSegment = ground arith

user-IsSegment : IsSegment b'/' (b'c' ∷ [])
unfolding IsSegment
user-IsSegment = ground arith

identity_tenant_example : tenant_id_from_identity_url path_of (1 ∷ []) ≡ ok (b'a' ∷ b'b' ∷ [])
identity_tenant_example =
    identity_tenant path_of 1 [] b'a' (b'b' ∷ []) b'c' [] refl org-IsSegment user-IsSegment

-- The token endpoint answers from its second request on.
abbrev pub build : Bytes → Result ℕ Bytes
build endpoint = ok endpoint

abbrev pub send : Bytes → ℕ → Result ℕ (ℕ × Bytes) × ℕ
send request s = (if s == 0 then err 7 else ok (200, request), s + 1)

abbrev pub read_all : Bytes → Result ℕ Bytes
read_all b = ok b

abbrev pub unmarshal : Bytes → Result ℕ TokenResponse
unmarshal b =
    ok (record { access_token = 1 ∷ []; instance_url = 2 ∷ []; id = 3 ∷ []; expires_in = pos 3600 })

abbrev pub fresh_provider : Provider
fresh_provider = record {
  login_url = [];
  refresh_ahead = 60_000_000_000;
  default_ttl = 3_600_000_000_000;
  cached = none;
  expires_at = 0;
  refresh_success = 0;
  refresh_error = 0;
}

abbrev pub credentials : Credentials
credentials = record { access_token = 1 ∷ []; instance_url = 2 ∷ []; tenant_id = b'a' ∷ b'b' ∷ [] }

pub fresh-IsSound : IsSound fresh_provider
unfolding IsSound
fresh-IsSound c h = absurd (ground arith)
