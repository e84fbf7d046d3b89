-- ===== src/Examples/Lists.antt =====
-- Services that keep lists, and answer every call.
use pubsub_event_processor.Common.{
  ℕ, String, ◌≡◌, refl, inl, inr, Bool, true, false, none, List, [], ◌∷◌, ok, err, ite,
  if◌then◌else◌, ◌==◌, string_discrete, Has, arith,
}
use pubsub_event_processor.Event.Services.{Services, Promises, KafkaRecord}
use pubsub_event_processor.Pipeline.{Wiring, State}
use pubsub_event_processor.Pipeline.Delivery.{IsTruthful}

-- The UUIDs of the rows, the accepted records, and the keys of the cache.
pub record World : Type 0 where
  pub rows : List String
  pub records : List KafkaRecord
  pub marks : List String

abbrev pub mem : String → List String → Bool
mem k [] = false
mem k (x ∷ xs) = let rest = mem k xs in ite (string_discrete k x) true rest

mem-Has : (k : String) (xs : List String) → mem k xs ≡ true → Has k xs
mem-Has k [] h = ground arith
mem-Has k (x ∷ xs) h = grind (arith, mem-Has k xs)

-- Payloads are numbers, and the error 0 is pgx.ErrNoRows.
abbrev pub lists : Services ℕ
lists = record {
  W = World;
  E = ℕ;
  insert_event = λ r w.
      (if mem r.event_uuid w.rows then err 0 else ok 1, record w { rows = r.event_uuid ∷ w.rows });
  select_replay = λ topic w. (err 0, w);
  upsert_replay = λ topic rid w. (none, w);
  is_no_rows = λ e. e == 0;
  produce_sync = λ r w. (none, record w { records = r ∷ w.records });
  exists = λ k w. (ok (if mem k w.marks then 1 else 0), w);
  set = λ k w. (none, record w { marks = k ∷ w.marks });
  marshal_payload = λ p. ok (p ∷ []);
  marshal_envelope = λ e. ok (e.payload ∷ []);
  base64 = λ rid. "";
}

abbrev pub StoredIn : String → World → Type 0
StoredIn u w = Has u w.rows

abbrev pub PublishedIn : KafkaRecord → World → Type 0
PublishedIn q w = Has q w.records

abbrev pub MarkedIn : String → World → Type 0
MarkedIn k w = Has k w.marks

pub lists_promises : Promises lists StoredIn PublishedIn MarkedIn
lists_promises = record {
  inserted = λ r w id h. inl refl;
  conflict = λ r w e h no. inl refl;
  acknowledged = λ r w h. inl refl;
  found = λ k w n h. mem-Has k w.marks (ground arith);
  marked_by_set = λ k j w h. h;
  marked_by_insert = λ k r w h. h;
  marked_by_produce = λ k r w h. h;
  marked_by_exists = λ k j w h. h;
  row_over_insert = λ u r w h. inr h;
  row_over_produce = λ u r w h. h;
  row_over_exists = λ u k w h. h;
  row_over_set = λ u k w h. h;
  record_over_insert = λ q r w h. h;
  record_over_produce = λ q r w h. inr h;
  record_over_exists = λ q k w h. h;
  record_over_set = λ q k w h. h;
}

-- Kafka and the cache are on.
abbrev pub wiring : Wiring
wiring = record {
  kafka_enabled = true;
  kafka_topic = "events";
  redis_enabled = true;
  key_prefix = "p:";
}

abbrev pub empty_state : State lists
empty_state = record {
  world = record { rows = []; records = []; marks = [] };
  producer = record { produced = 0; failed = 0; bytes = 0 };
  cache = record { hits = 0; misses = 0; errors_seen = 0; errors_mark = 0 };
}

pub empty-IsTruthful : IsTruthful lists lists_promises wiring empty_state.world
empty-IsTruthful id h = absurd h
