-- ===== src/Service/Committed.antt =====
-- The committed cursors of the running service, and the events that they cover.
use pubsub_event_processor.Common.{
  ℕ, zero, suc, ◌≤◌, String, ◌≡◌, subst, ◌⊎◌, inl, inr, some, List, [], ◌∷◌, Result, ok, Error,
  arith, All, Has, replicate, lookup, string_discrete,
}
use pubsub_event_processor.Replay.Cursor.{Bytes, ReplayId}
use pubsub_event_processor.Schema.Genuine.{empty-IsGenuine}
use pubsub_event_processor.Replay.Committer.{Pending}
use pubsub_event_processor.Replay.System.{positions}
use pubsub_event_processor.Replay.System.Recovery.{committed_is_safe}
use pubsub_event_processor.Event.Services.{Services, KafkaRecord, Promises}
use pubsub_event_processor.Pipeline.{Wiring}
use pubsub_event_processor.Pipeline.Delivery.{IsTruthful}
use pubsub_event_processor.Subscriber.Stream.{ConsumerEvent}
use pubsub_event_processor.Worker.Tasks.{idle, Shared}
use pubsub_event_processor.Worker.Tasks.Progress.{IsAccounted}
use pubsub_event_processor.Service.Held.{Step-Held, start-Held}
use pubsub_event_processor.Service.{Service, rid, raw_of, Reach, begin, next}
use pubsub_event_processor.Service.Accounts.{IsSettled, Accounts, Ready, Step-Accounts}
use pubsub_event_processor.Service.Refines.{service_is_committer}

-- The positions of a topic are its entries among the reports.
pub Has-positions :
    (Q : String × ℕ → Type 0) (topic : String) (k : ℕ) (reports : List (String × ℕ))
    → All Q reports
    → Has k (positions topic reports)
    → Q (topic, k)
unfolding positions
Has-positions Q topic k [] h m = absurd m
Has-positions Q topic k ((t, j) ∷ rest) h m = elim (string_discrete t topic) [
  | yes e ↦ elim (let m' : Has k (j ∷ positions topic rest) = ground (arith, e, m) in m') [
    | inl q ↦ subst Q (ground (arith, e, q)) h.0
    | inr m' ↦ Has-positions Q topic k rest h.1 m'
  ]
  | no n ↦ Has-positions Q topic k rest h.1 (ground (arith, n, m))
]

module _ {P Sch N : Type 0} (s : Services P) (g : Wiring)
    (src : String → N → Result (Error s.E) String × N) (parse : String → Result s.E Sch)
    (unmarshal : Sch → Bytes → Result s.E P) {Stored : String → s.W → Type 0}
    {Published : KafkaRecord → s.W → Type 0} {Marked : String → s.W → Type 0}
    (laws : Promises s Stored Published Marked) {Gave : String → String → Type 0}
    (gives : (id : String) (n : N) (text : String) → (src id n).0 ≡ ok text → Gave id text)
    (stream : String → ℕ → ConsumerEvent) where
  idle-Ready :
      (w : s.W) (count : ℕ)
      → All (Ready s g src parse unmarshal laws gives stream w) (replicate count idle)
  idle-Ready w zero = tt
  idle-Ready w (suc n) = (tt, idle-Ready w n)

  pub Reach-Accounts :
      (batch_size : ℕ) (topics : List String) (count : ℕ) (shared : Shared Sch N s)
      (table : Pending)
      → IsTruthful s laws g shared.pipeline.world
      → shared.schemas.parsed ≡ []
      → {v : Service Sch N s}
      → Reach s g src parse unmarshal stream batch_size topics count shared table v
      → Accounts s g src parse unmarshal laws gives stream v
  Reach-Accounts n topics count shared table truth empty (begin d) = record {
    held = start-Held s g src parse unmarshal stream n topics count shared table;
    truthful = truth;
    genuine = empty-IsGenuine src parse gives shared.schemas empty;
    achieved = idle-Ready shared.pipeline.world count;
    reported = tt;
  }
  Reach-Accounts n topics count shared table truth empty (next r st) =
      let a = Reach-Accounts n topics count shared table truth empty r in
      Step-Accounts s g src parse unmarshal laws gives stream n st a
        (Step-Held s g src parse unmarshal stream n st a.held)

  -- If the services keep their promises, the source answers a schema ID with a text that stands under it or
  -- with an error, no topic is configured twice, the Redis cache had keys only of events that went through
  -- every stage, and the schema cache starts empty: in whatever order receivers, fan-in, workers,
  -- acknowledgements and flushes interleave, and whatever fails, a replay ID in the table is the one that the
  -- process found there, or that of an event such that it and every event of its topic before it is accounted
  -- for by now: its payload does not decode with the schema parsed from a text that stands under its schema
  -- ID, or it has a row in the database and, with Kafka on, an accepted record.
  pub committed_is_delivered :
      (batch_size : ℕ) (topics : List String) (count : ℕ) (shared : Shared Sch N s)
      (table : Pending)
      → IsTruthful s laws g shared.pipeline.world
      → shared.schemas.parsed ≡ []
      → {v : Service Sch N s}
      → Reach s g src parse unmarshal stream batch_size topics count shared table v
      → (topic : String) (r : ReplayId) → lookup string_discrete topic v.log.table ≡ some r
      → (lookup string_discrete topic table ≡ some r)
        ⊎ ((last : ℕ) × (1 ≤ last)
            × (r ≡ (stream topic last).replay_id)
            × ((k : ℕ)
                → 1 ≤ k
                → k ≤ last
                → IsAccounted s g src parse unmarshal laws gives
                    (raw_of s g src parse unmarshal stream topic k)
                    v.shared.pipeline.world))
  committed_is_delivered n topics count shared table truth empty {v} reach topic r e =
      let a = Reach-Accounts n topics count shared table truth empty reach in
      elim (committed_is_safe (rid s g src parse unmarshal stream) table
        (service_is_committer s g src parse unmarshal stream n topics count shared table reach)
        topic r e) [
          | inl old ↦ inl old
          | inr (last, low, same, all) ↦ inr (
            last,
            low,
            same,
            λ k from to.
                Has-positions
                  (IsSettled s g src parse unmarshal laws gives stream v.shared.pipeline.world)
                  topic k v.log.reports a.reported (all k from to),
          )
        ]
