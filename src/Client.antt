-- ===== src/Client.antt =====
-- internal/pubsub/client.go and internal/pubsub/credentials.go: the unary calls, and the credentials that go
-- with every call.
pub mod Metadata
pub mod Dial
use pubsub_event_processor.Common.{
  ℕ, ◌≡◌, refl, ◌↔◌, ◌⊎◌, inl, inr, String, Bool, true, false, Option, none, some, List, [], ◌∷◌,
  Result, ok, err, Error, cause, message, message_of, wrap, text, quoted, arith, Result-cases,
  Bool-cases, map_err, if◌then◌else◌,
}
use pubsub_event_processor.Replay.Cursor.{Bytes}
use pubsub_event_processor.Interceptor.{
  Code, success, canceled, deadline_exceeded, not_found, unavailable, other,
}
use pubsub_event_processor.Auth.{Credentials}

-- `TopicInfo` and `SchemaInfo`, with the fields that the program reads.
pub record TopicInfo : Type 0 where
  pub topic_name : String
  pub schema_id : String

pub record SchemaInfo : Type 0 where
  pub schema_id : String
  pub schema_json : String

-- `ErrTopicNotFound` and `ErrSchemaNotFound`
abbrev pub topic_not_found : String
topic_not_found = "topic not found"

abbrev pub schema_not_found : String
schema_not_found = "schema not found"

-- errors.Is(err, target), for a target made by errors.New.
unfoldable pub IsWrapped : {X : Type 0} → String → Error X → Type 0
IsWrapped target (cause x) = ⊥
IsWrapped target (message m) = m ≡ target
IsWrapped target (message_of m about) = ⊥
IsWrapped target (wrap c e) = IsWrapped target e

-- status.Code(err) == codes.NotFound
unfoldable pub is_not_found : Code → Bool
is_not_found not_found = true
is_not_found _ = false

is_not_found_lem :
    (c : Code) → (is_not_found c ≡ true → c ≡ not_found) × (c ≡ not_found → is_not_found c ≡ true)
unfolding is_not_found
is_not_found_lem not_found = ground arith
is_not_found_lem success = ground arith
is_not_found_lem canceled = ground arith
is_not_found_lem deadline_exceeded = ground arith
is_not_found_lem unavailable = ground arith
is_not_found_lem (other n) = ground arith

found_is_false : (c : Code) → is_not_found c ≡ false → c ≡ not_found → ⊥
found_is_false c e h = ground (arith, (is_not_found_lem c).1 h)

-- `code` is status.Code; the two calls are those of the generated client, through the interceptor.
module _ {X S : Type 0} (code : X → Code) (topic_call : String → S → Result X TopicInfo × S)
    (schema_call : String → S → Result X SchemaInfo × S) where
  -- What both functions make of an error.
  unfoldable pub rpc_error : String → String → String → X → Error X
  rpc_error missing call name x =
      if is_not_found (code x)
      then wrap (text name) (message missing)
      else wrap (quoted call name) (cause x)

  -- `GetTopic`
  unfoldable pub get_topic : String → S → Result (Error X) TopicInfo × S
  get_topic name s =
      let (r, s') = topic_call name s in (map_err (rpc_error topic_not_found "GetTopic" name) r, s')

  -- `GetSchema`
  unfoldable pub get_schema : String → S → Result (Error X) SchemaInfo × S
  get_schema id s =
      let (r, s') = schema_call id s in (map_err (rpc_error schema_not_found "GetSchema" id) r, s')

  -- The source of the schema cache: the closure in `New` of internal/app/app.go.
  unfoldable pub schema_source : String → S → Result (Error X) String × S
  unfolding get_schema
  schema_source id s =
      let (r, s') = get_schema id s in
      elim r [ ok info ↦ (ok info.schema_json, s') | err x ↦ (err x, s') ]

  plain_is_not_wrapped :
      (missing call name : String) (x : X)
      → is_not_found (code x) ≡ false
      → IsWrapped missing (rpc_error missing call name x)
      → ⊥
  unfolding rpc_error IsWrapped
  plain_is_not_wrapped missing call name x e = rw e (λ h. h)

  rpc_error_lem :
      (missing call name : String) (x : X)
      → (IsWrapped missing (rpc_error missing call name x) → code x ≡ not_found)
        × (code x ≡ not_found → IsWrapped missing (rpc_error missing call name x))
  unfolding rpc_error IsWrapped
  rpc_error_lem missing call name x = elim (Bool-cases (is_not_found (code x))) [
    | inl e ↦ (λ h. (is_not_found_lem (code x)).0 e, λ h. rw e refl)
    | inr e ↦ (
      λ h. absurd (plain_is_not_wrapped missing call name x e h),
      λ h. absurd (found_is_false (code x) e h),
    )
  ]

  -- If the calls for a topic and for a schema fail, then `GetTopic` and `GetSchema` fail, and `errors.Is`
  -- finds ErrTopicNotFound, ErrSchemaNotFound in what they return exactly where the status of the failure
  -- is NotFound.
  pub not_found_is_told :
      (name id : String) (s : S) (x y : X)
      → (topic_call name s).0 ≡ err x
      → (schema_call id s).0 ≡ err y
      → ((e : Error X) × ((get_topic name s).0 ≡ err e)
          × (IsWrapped topic_not_found e ↔ (code x ≡ not_found)))
        × ((e : Error X) × ((get_schema id s).0 ≡ err e)
            × (IsWrapped schema_not_found e ↔ (code y ≡ not_found)))
  unfolding get_topic get_schema
  not_found_is_told name id s x y h k = (
    (
      rpc_error topic_not_found "GetTopic" name x,
      ground arith,
      rpc_error_lem topic_not_found "GetTopic" name x,
    ),
    (
      rpc_error schema_not_found "GetSchema" id y,
      ground arith,
      rpc_error_lem schema_not_found "GetSchema" id y,
    ),
  )

abbrev pub metadata_of : Credentials → List (String × Bytes)
metadata_of creds =
    ("accesstoken", creds.access_token)
    ∷ ("instanceurl", creds.instance_url)
    ∷ ("tenantid", creds.tenant_id)
    ∷ []

-- `GetRequestMetadata`; `token` is the provider's `Token`.
unfoldable pub request_metadata :
    {X S : Type 0}
    → (S → Result (Error X) Credentials × S)
    → S
    → Result (Error X) (List (String × Bytes)) × S
request_metadata token s =
    let (r, s') = token s in
    elim r [
      | err x ↦ (err (wrap (text "get token") x), s')
      | ok creds ↦ (ok (metadata_of creds), s')
    ]
