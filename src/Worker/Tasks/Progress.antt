-- ===== src/Worker/Tasks/Progress.antt =====
-- What a worker has achieved at each point of `process`, while the other workers of the pool go on.
use pubsub_event_processor.Common.{
  String, ◌≡◌, refl, ◌⊎◌, inl, inr, Bool, true, false, Option, none, some, Result, ok, err, Error,
  arith, if◌then◌else◌,
}
use pubsub_event_processor.Replay.Cursor.{Bytes}
use pubsub_event_processor.Event.Services.{Services, KafkaRecord, Promises}
use pubsub_event_processor.Schema.{decode}
use pubsub_event_processor.Schema.Genuine.{IsSchemaOf, IsGenuine, get-IsGenuine}
use pubsub_event_processor.Pipeline.{Wiring}
use pubsub_event_processor.Pipeline.Frames.{
  Frame, record_of, persist_step-Frame, persist_step-Stored, forward_step-Frame,
  forward_step-Published, seen_step-Frame, seen_step-Marked, mark_step-rows, mark_step-records,
}
use pubsub_event_processor.Pipeline.Delivery.{
  Delivered, IsTruthful, IsTruthful-Frame, mark-IsTruthful,
}
use pubsub_event_processor.Worker.{RawEvent, decoded_event}
use pubsub_event_processor.Worker.Tasks.{
  Task, idle, fetching, fetch_failed, acking, seeing, storing, sending, marking, handle_failed,
  Shared, handle_start, after_decode, after_get, after_seen, after_persist, after_forward,
  chain_end, advance,
}

module _ {P Sch N : Type 0} (s : Services P) (g : Wiring)
    (src : String → N → Result (Error s.E) String × N) (parse : String → Result s.E Sch)
    (unmarshal : Sch → Bytes → Result s.E P) {Stored : String → s.W → Type 0}
    {Published : KafkaRecord → s.W → Type 0} {Marked : String → s.W → Type 0}
    (laws : Promises s Stored Published Marked) {Gave : String → String → Type 0}
    (gives : (id : String) (n : N) (text : String) → (src id n).0 ≡ ok text → Gave id text) where
  -- Rows and records stay.
  pub record Grows (w w' : s.W) : Type 0 where
    pub rows : (u : String) → Stored u w → Stored u w'
    pub records : (q : KafkaRecord) → Published q w → Published q w'

  Frame-Grows : (w w' : s.W) → Frame s laws w w' → Grows w w'
  Frame-Grows w w' f = record { rows = f.rows; records = f.records }

  pub Delivered-Grows :
      (id : String) (w w' : s.W) → Grows w w' → Delivered s laws g id w → Delivered s laws g id w'
  Delivered-Grows id w w' f (row, sent) =
      (f.rows id row, λ on. let (q, p, h) = sent on in (q, f.records q p, h))

  -- The payload does not decode with the schema of the event's ID, the parsed text that stands under this ID.
  abbrev pub IsUndecodable : RawEvent → Type 0
  IsUndecodable raw =
      (sch : Sch) × (x : Error s.E) × IsSchemaOf src parse gives raw.schema_id sch
      × (decode unmarshal (some sch) raw.payload ≡ err x)

  -- What an acknowledgement of the event stands for.
  abbrev pub IsAccounted : RawEvent → s.W → Type 0
  IsAccounted raw w = IsUndecodable raw ⊎ Delivered s laws g raw.event_id w

  abbrev pub Achieved : Task P → s.W → Type 0
  Achieved (sending raw payload) w = Stored raw.event_id w
  Achieved (marking raw payload) w = Delivered s laws g raw.event_id w
  Achieved (acking raw) w = IsAccounted raw w
  Achieved _ w = Unit

  pub Achieved-Grows : (t : Task P) (w w' : s.W) → Grows w w' → Achieved t w → Achieved t w'
  Achieved-Grows idle w w' f h = tt
  Achieved-Grows (fetching raw) w w' f h = tt
  Achieved-Grows (fetch_failed raw) w w' f h = tt
  Achieved-Grows (handle_failed raw payload) w w' f h = tt
  Achieved-Grows (seeing raw payload) w w' f h = tt
  Achieved-Grows (storing raw payload) w w' f h = tt
  Achieved-Grows (sending raw payload) w w' f h = f.rows raw.event_id h
  Achieved-Grows (marking raw payload) w w' f h = Delivered-Grows raw.event_id w w' f h
  Achieved-Grows (acking raw) w w' f (inl bad) = inl bad
  Achieved-Grows (acking raw) w w' f (inr h) = inr (Delivered-Grows raw.event_id w w' f h)

  pub advance-Grows :
      (t : Task P) (sh : Shared Sch N s)
      → Grows sh.pipeline.world (advance s g src parse unmarshal t sh).1.pipeline.world
  unfolding advance
  advance-Grows idle sh = record { rows = λ u h. h; records = λ q h. h }
  advance-Grows (acking raw) sh = record { rows = λ u h. h; records = λ q h. h }
  advance-Grows (fetching raw) sh = record { rows = λ u h. h; records = λ q h. h }
  advance-Grows (fetch_failed raw) sh = record { rows = λ u h. h; records = λ q h. h }
  advance-Grows (handle_failed raw payload) sh = record { rows = λ u h. h; records = λ q h. h }
  advance-Grows (seeing raw payload) sh =
      Frame-Grows _ _ (seen_step-Frame s laws g.key_prefix raw.event_id sh.pipeline)
  advance-Grows (storing raw payload) sh =
      Frame-Grows _ _ (persist_step-Frame s laws (decoded_event raw payload) sh.pipeline)
  advance-Grows (sending raw payload) sh =
      Frame-Grows _ _
        (forward_step-Frame s laws g.kafka_topic (decoded_event raw payload) sh.pipeline)
  advance-Grows (marking raw payload) sh = record {
    rows = λ u h. mark_step-rows s laws g.key_prefix raw.event_id u sh.pipeline h;
    records = λ q h. mark_step-records s laws g.key_prefix raw.event_id q sh.pipeline h;
  }

  pub advance-IsTruthful :
      (t : Task P) (sh : Shared Sch N s)
      → Achieved t sh.pipeline.world
      → IsTruthful s laws g sh.pipeline.world
      → IsTruthful s laws g (advance s g src parse unmarshal t sh).1.pipeline.world
  unfolding advance
  advance-IsTruthful idle sh a h = h
  advance-IsTruthful (acking raw) sh a h = h
  advance-IsTruthful (fetching raw) sh a h = h
  advance-IsTruthful (fetch_failed raw) sh a h = h
  advance-IsTruthful (handle_failed raw payload) sh a h = h
  advance-IsTruthful (seeing raw payload) sh a h =
      IsTruthful-Frame s laws g _ _ (seen_step-Frame s laws g.key_prefix raw.event_id sh.pipeline) h
  advance-IsTruthful (storing raw payload) sh a h =
      IsTruthful-Frame s laws g _ _
        (persist_step-Frame s laws (decoded_event raw payload) sh.pipeline) h
  advance-IsTruthful (sending raw payload) sh a h =
      IsTruthful-Frame s laws g _ _
        (forward_step-Frame s laws g.kafka_topic (decoded_event raw payload) sh.pipeline) h
  advance-IsTruthful (marking raw payload) sh a h =
      mark-IsTruthful s laws g raw.event_id sh.pipeline h a

  pub advance-IsGenuine :
      (t : Task P) (sh : Shared Sch N s)
      → IsGenuine src parse gives sh.schemas
      → IsGenuine src parse gives (advance s g src parse unmarshal t sh).1.schemas
  unfolding advance
  advance-IsGenuine idle sh h = h
  advance-IsGenuine (acking raw) sh h = h
  advance-IsGenuine (fetch_failed raw) sh h = h
  advance-IsGenuine (handle_failed raw payload) sh h = h
  advance-IsGenuine (fetching raw) sh h =
      (get-IsGenuine src parse gives raw.schema_id sh.schemas sh.source h).1
  advance-IsGenuine (seeing raw payload) sh h = h
  advance-IsGenuine (storing raw payload) sh h = h
  advance-IsGenuine (sending raw payload) sh h = h
  advance-IsGenuine (marking raw payload) sh h = h

  either-Achieved :
      (b : Bool) (t u : Task P) (w : s.W)
      → (b ≡ true → Achieved t w)
      → (b ≡ false → Achieved u w)
      → Achieved (if b then t else u) w
  either-Achieved true t u w ht hu = ht refl
  either-Achieved false t u w ht hu = hu refl

  start-Achieved :
      (raw : RawEvent) (payload : P) (w : s.W)
      → Achieved (handle_start s g src parse unmarshal raw payload) w
  start-Achieved raw payload w =
      either-Achieved g.redis_enabled (seeing raw payload) (storing raw payload) w (λ on. tt)
        (λ off. tt)

  end-Achieved :
      (raw : RawEvent) (payload : P) (w : s.W)
      → Delivered s laws g raw.event_id w
      → Achieved (chain_end s g src parse unmarshal raw payload) w
  end-Achieved raw payload w h =
      either-Achieved g.redis_enabled (marking raw payload) (acking raw) w (λ on. h) (λ off. inr h)

  decode-Achieved :
      (raw : RawEvent) (sch : Sch) (r : Result (Error s.E) P) (w : s.W)
      → IsSchemaOf src parse gives raw.schema_id sch
      → decode unmarshal (some sch) raw.payload ≡ r
      → Achieved (after_decode s g src parse unmarshal raw r) w
  decode-Achieved raw sch (ok payload) w from d = start-Achieved raw payload w
  decode-Achieved raw sch (err x) w from d = inl (sch, x, from, d)

  get-Achieved :
      (raw : RawEvent) (r : Result (Error s.E) Sch) (w : s.W)
      → ((sch : Sch) → r ≡ ok sch → IsSchemaOf src parse gives raw.schema_id sch)
      → Achieved (after_get s g src parse unmarshal raw r) w
  get-Achieved raw (err x) w from = tt
  get-Achieved raw (ok sch) w from = decode-Achieved raw sch _ w (from sch refl) refl

  seen-Achieved :
      (raw : RawEvent) (payload : P) (r : Result (Error s.E) Bool) (w : s.W)
      → (r ≡ ok true → Delivered s laws g raw.event_id w)
      → Achieved (after_seen s g src parse unmarshal raw payload r) w
  seen-Achieved raw payload (ok true) w h = inr (h refl)
  seen-Achieved raw payload (ok false) w h = tt
  seen-Achieved raw payload (err x) w h = tt

  persist-Achieved :
      (raw : RawEvent) (payload : P) (r : Option (Error s.E)) (w : s.W)
      → (r ≡ none → Stored raw.event_id w)
      → Achieved (after_persist s g src parse unmarshal raw payload r) w
  persist-Achieved raw payload (some x) w h = tt
  persist-Achieved raw payload none w h =
      either-Achieved g.kafka_enabled (sending raw payload)
        (chain_end s g src parse unmarshal raw payload) w (λ on. h refl)
        (λ off. end-Achieved raw payload w (h refl, λ on. absurd (ground arith)))

  forward-Achieved :
      (raw : RawEvent) (payload : P) (r : Option (Error s.E)) (w : s.W)
      → (r ≡ none → Delivered s laws g raw.event_id w)
      → Achieved (after_forward s g src parse unmarshal raw payload r) w
  forward-Achieved raw payload (some x) w h = tt
  forward-Achieved raw payload none w h = end-Achieved raw payload w (h refl)

  pub advance-Achieved :
      (t : Task P) (sh : Shared Sch N s)
      → IsTruthful s laws g sh.pipeline.world
      → IsGenuine src parse gives sh.schemas
      → Achieved t sh.pipeline.world
      → let (t', sh') = advance s g src parse unmarshal t sh in Achieved t' sh'.pipeline.world
  unfolding advance
  advance-Achieved idle sh truth cached a = tt
  advance-Achieved (acking raw) sh truth cached a = a
  advance-Achieved (fetch_failed raw) sh truth cached a = tt
  advance-Achieved (handle_failed raw payload) sh truth cached a =
      start-Achieved raw payload sh.pipeline.world
  advance-Achieved (fetching raw) sh truth cached a =
      get-Achieved raw _ sh.pipeline.world
        (get-IsGenuine src parse gives raw.schema_id sh.schemas sh.source cached).0
  advance-Achieved (seeing raw payload) sh truth cached a = seen-Achieved raw payload _ _ (λ h.
      IsTruthful-Frame s laws g _ _ (seen_step-Frame s laws g.key_prefix raw.event_id sh.pipeline)
        truth raw.event_id (seen_step-Marked s laws g.key_prefix raw.event_id sh.pipeline h))
  advance-Achieved (storing raw payload) sh truth cached a =
      persist-Achieved raw payload _ _
        (λ h. persist_step-Stored s laws (decoded_event raw payload) sh.pipeline h)
  advance-Achieved (sending raw payload) sh truth cached a =
      let e = decoded_event raw payload in
      forward-Achieved raw payload _ _ (λ h. (
        (forward_step-Frame s laws g.kafka_topic e sh.pipeline).rows raw.event_id a,
        λ on.
            let (value, _, sent) = forward_step-Published s laws g.kafka_topic e sh.pipeline h in
            (record_of s laws g.kafka_topic e value, sent, inl refl),
      ))
  advance-Achieved (marking raw payload) sh truth cached a =
      inr (Delivered-Grows raw.event_id _ _ (advance-Grows (marking raw payload) sh) a)
