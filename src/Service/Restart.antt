-- ===== src/Service/Restart.antt =====
-- Where the next process resumes, over the table that the service leaves.
use pubsub_event_processor.Common.{
  ℕ, ◌≤◌, String, ◌≡◌, ◌∙◌, sym, ◌⊎◌, inl, inr, Option, none, some, List, [], Result, ok, Error,
  arith, lookup, string_discrete, Option-cases, Result-cases,
}
use pubsub_event_processor.Replay.Cursor.{Bytes, ReplayId}
use pubsub_event_processor.Replay.Committer.{Pending}
use pubsub_event_processor.Event.Services.{Services, KafkaRecord, Promises}
use pubsub_event_processor.Pipeline.{Wiring}
use pubsub_event_processor.Pipeline.Delivery.{IsTruthful}
use pubsub_event_processor.Subscriber.Stream.{
  ConsumerEvent, FetchRequest, latest, custom, new_receiver, initial_fetch,
}
use pubsub_event_processor.Worker.Tasks.{Shared}
use pubsub_event_processor.Worker.Tasks.Progress.{IsAccounted}
use pubsub_event_processor.Service.{Service, raw_of, Reach}
use pubsub_event_processor.Service.Committed.{committed_is_delivered}

-- What the query for a topic gives, where nil is "never committed".
abbrev pub entry : Option ReplayId → ReplayId
entry none = none
entry (some rid) = rid

-- How a first request can come about from the table.
request_cases :
    {X S : Type 0} (load_replay : String → S → Result (Error X) ReplayId × S) (table : Pending)
    (topic : String) (n : ℕ) (t : S) (req : FetchRequest)
    → ((rid : ReplayId)
        → (load_replay topic t).0 ≡ ok rid
        → rid ≡ entry (lookup string_discrete topic table))
    → (initial_fetch load_replay (new_receiver topic n) t).0 ≡ ok req
    → ((req.replay_preset ≡ latest) × (entry (lookup string_discrete topic table) ≡ none))
      ⊎ ((rid : Bytes) × (req.replay_preset ≡ custom)
          × (req.replay_id ≡ some rid)
          × (lookup string_discrete topic table ≡ some (some rid)))
unfolding initial_fetch
request_cases load_replay table topic n t req reads h =
    elim (Result-cases (load_replay topic t).0) [
      | inr (x, e) ↦ absurd (ground arith)
      | inl (rid, e) ↦ elim (Option-cases rid) [
        | inl none_there ↦ inl (ground arith, sym (reads rid e) ∙ none_there)
        | inr (bytes, there) ↦ inr (
          bytes,
          ground arith,
          ground arith,
          ground (arith, reads rid e, Option-cases (lookup string_discrete topic table)),
        )
      ]
    ]

module _ {P Sch N : Type 0} (s : Services P) (g : Wiring)
    (src : String → N → Result (Error s.E) String × N) (parse : String → Result s.E Sch)
    (unmarshal : Sch → Bytes → Result s.E P) {Stored : String → s.W → Type 0}
    {Published : KafkaRecord → s.W → Type 0} {Marked : String → s.W → Type 0}
    (laws : Promises s Stored Published Marked) {Gave : String → String → Type 0}
    (gives : (id : String) (n : N) (text : String) → (src id n).0 ≡ ok text → Gave id text)
    (stream : String → ℕ → ConsumerEvent) where
  -- If the services keep their promises, the source answers a schema ID with a text that stands under it or
  -- with an error, no topic is configured twice, the Redis cache had keys only of events that went through
  -- every stage, the schema cache starts empty, and what the next process loads is what the table holds:
  -- whenever this one stops, the first request of the next one for a topic, if it is made, asks for LATEST, and
  -- then the table has no replay ID for the topic; or it asks for what follows a replay ID, and then this
  -- process already found that one in the table, or it is that of an event such that it and every event of the
  -- topic before it is accounted for: its payload does not decode with the schema parsed from a text that
  -- stands under its schema ID, or it has a row in the database and, with Kafka on, an accepted record.
  pub restart_point :
      (batch_size : ℕ) (topics : List String) (count : ℕ) (shared : Shared Sch N s)
      (table : Pending)
      → IsTruthful s laws g shared.pipeline.world
      → shared.schemas.parsed ≡ []
      → {v : Service Sch N s}
      → Reach s g src parse unmarshal stream batch_size topics count shared table v
      → {X S : Type 0} (load_replay : String → S → Result (Error X) ReplayId × S) (topic : String)
        (n : ℕ) (t : S) (req : FetchRequest)
      → ((rid : ReplayId)
          → (load_replay topic t).0 ≡ ok rid
          → rid ≡ entry (lookup string_discrete topic v.log.table))
      → (initial_fetch load_replay (new_receiver topic n) t).0 ≡ ok req
      → ((req.replay_preset ≡ latest) × (entry (lookup string_discrete topic v.log.table) ≡ none))
        ⊎ ((rid : Bytes) × (req.replay_preset ≡ custom)
            × (req.replay_id ≡ some rid)
            × ((lookup string_discrete topic table ≡ some (some rid))
                ⊎ ((last : ℕ) × (1 ≤ last)
                    × (some rid ≡ (stream topic last).replay_id)
                    × ((k : ℕ)
                        → 1 ≤ k
                        → k ≤ last
                        → IsAccounted s g src parse unmarshal laws gives
                            (raw_of s g src parse unmarshal stream topic k)
                            v.shared.pipeline.world))))
  restart_point batch_size topics count shared table truth empty {v} reach load_replay topic n t req
        reads h =
      elim (request_cases load_replay v.log.table topic n t req reads h) [
        | inl fresh ↦ inl fresh
        | inr (rid, preset, id, there) ↦ inr (
          rid,
          preset,
          id,
          committed_is_delivered s g src parse unmarshal laws gives stream batch_size topics count
              shared table truth empty reach topic (some rid) there,
        )
      ]
