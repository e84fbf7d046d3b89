-- ===== src/App/Discovery.antt =====
-- internal/app/app.go, `discoverTopics`: what the start of `Run` asks Salesforce about each topic. Every
-- error is logged and passed over.
use pubsub_event_processor.Common.{
  ◌≡◌, refl, ap, String, List, [], ◌∷◌, map, Result, ok, err, Error,
}
use pubsub_event_processor.Interceptor.{Code}
use pubsub_event_processor.Client.{TopicInfo, SchemaInfo, get_topic, get_schema}

-- The line that is logged for a topic: it was not found, or its schema was not, or both were.
pub data Discovered (X : Type 0) : Type 0 where
  topic_failed : Error X → Discovered X
  schema_failed : TopicInfo → Error X → Discovered X
  discovered : TopicInfo → SchemaInfo → Discovered X

module _ {X S : Type 0} (code : X → Code) (topic_call : String → S → Result X TopicInfo × S)
    (schema_call : String → S → Result X SchemaInfo × S) where
  -- The body of the loop once the topic is known.
  unfoldable pub discover_schema : TopicInfo → S → Discovered X × S
  discover_schema info s =
      let (r, s') = get_schema code topic_call schema_call info.schema_id s in
      (elim r [ err x ↦ schema_failed info x | ok found ↦ discovered info found ], s')

  -- The body of the loop.
  unfoldable pub discover_topic : String → S → Discovered X × S
  unfolding discover_schema
  discover_topic topic s =
      let (r, s') = get_topic code topic_call schema_call topic s in
      elim r [ err x ↦ (topic_failed x, s') | ok info ↦ discover_schema info s' ]

  -- `discoverTopics`
  unfoldable pub discover_topics : List String → S → List (String × Discovered X) × S
  unfolding discover_topic
  discover_topics [] s = ([], s)
  discover_topics (topic ∷ topics) s =
      let (d, s1) = discover_topic topic s in
      let (rest, s2) = discover_topics topics s1 in ((topic, d) ∷ rest, s2)

  -- Whatever fails, each configured topic is asked about, in order.
  discovery_asks_all :
      (topics : List String) (s : S) → map (λ d. d.0) (discover_topics topics s).0 ≡ topics
  unfolding discover_topics
  discovery_asks_all [] s = refl
  discovery_asks_all (topic ∷ topics) s =
      ap (λ rest. topic ∷ rest) (discovery_asks_all topics (discover_topic topic s).1)
