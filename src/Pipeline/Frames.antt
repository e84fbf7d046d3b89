-- ===== src/Pipeline/Frames.antt =====
-- What each stage of the pipeline leaves alone, and what it has done when it succeeds.
use pubsub_event_processor.Common.{
  ℕ, suc, String, ◌≡◌, ◌⊎◌, inl, inr, true, none, ok, arith, Result-cases,
}
use pubsub_event_processor.Event.{DecodedEvent}
use pubsub_event_processor.Event.Services.{Services, Row, KafkaRecord, Promises}
use pubsub_event_processor.Storage.{row_of, upsert}
use pubsub_event_processor.Replay.Cursor.{Bytes}
use pubsub_event_processor.RedisCache.{key}
use pubsub_event_processor.Handler.Forward.{envelope_of, headers_of, forward}
use pubsub_event_processor.Pipeline.{State, persist_step, forward_step, seen_step, mark_step}

module _ {P : Type 0} (s : Services P) {Stored : String → s.W → Type 0}
    {Published : KafkaRecord → s.W → Type 0} {Marked : String → s.W → Type 0}
    (laws : Promises s Stored Published Marked) where
  -- Rows and records stay, and no key is marked.
  pub record Frame (w w' : s.W) : Type 0 where
    pub rows : (u : String) → Stored u w → Stored u w'
    pub records : (q : KafkaRecord) → Published q w → Published q w'
    pub marks : (k : String) → Marked k w' → Marked k w

  pub Frame-refl : (w : s.W) → Frame w w
  Frame-refl w = record { rows = λ u h. h; records = λ q h. h; marks = λ k h. h }

  pub Frame-trans : (u v w : s.W) → Frame u v → Frame v w → Frame u w
  Frame-trans u v w f g = record {
    rows = λ x h. g.rows x (f.rows x h);
    records = λ q h. g.records q (f.records q h);
    marks = λ k h. f.marks k (g.marks k h);
  }

  insert-Frame : (r : Row) (w : s.W) → Frame w (s.insert_event r w).1
  insert-Frame r w = record {
    rows = λ u h. laws.row_over_insert u r w h;
    records = λ q h. laws.record_over_insert q r w h;
    marks = λ k h. laws.marked_by_insert k r w h;
  }

  produce-Frame : (r : KafkaRecord) (w : s.W) → Frame w (s.produce_sync r w).1
  produce-Frame r w = record {
    rows = λ u h. laws.row_over_produce u r w h;
    records = λ q h. laws.record_over_produce q r w h;
    marks = λ k h. laws.marked_by_produce k r w h;
  }

  exists-Frame : (k : String) (w : s.W) → Frame w (s.exists k w).1
  exists-Frame k w = record {
    rows = λ u h. laws.row_over_exists u k w h;
    records = λ q h. laws.record_over_exists q k w h;
    marks = λ j h. laws.marked_by_exists j k w h;
  }

  -- `persist_step` runs one statement at most.
  pub persist_step-Frame :
      (e : DecodedEvent P) (st : State s) → Frame st.world (persist_step s e st).1.world
  unfolding persist_step upsert
  persist_step-Frame e st = elim (Result-cases (s.marshal_payload e.payload)) [
    | inl (payload, m) ↦ rw (m, upsert) (insert-Frame _ st.world)
    | inr (x, m) ↦ rw (m, upsert) (Frame-refl st.world)
  ]

  -- When it succeeds the event has a row, new or old.
  pub persist_step-Stored :
      (e : DecodedEvent P) (st : State s)
      → (persist_step s e st).0 ≡ none
      → Stored e.event_id (persist_step s e st).1.world
  unfolding persist_step upsert
  persist_step-Stored e st h = elim (Result-cases (s.marshal_payload e.payload)) [
    | inl (payload, m) ↦ elim (Result-cases (s.insert_event (row_of s e payload) st.world).0) [
      | inl (id, a) ↦ rw (m, upsert) (laws.inserted (row_of s e payload) st.world id a)
      | inr (x, a) ↦ rw (m, upsert) (laws.conflict (row_of s e payload) st.world x a (ground arith))
    ]
    | inr (x, m) ↦ absurd (ground arith)
  ]

  pub forward_step-Frame :
      (topic : String) (e : DecodedEvent P) (st : State s)
      → Frame st.world (forward_step s topic e st).1.world
  unfolding forward_step
  forward_step-Frame topic e st = elim (Result-cases (s.marshal_envelope (envelope_of s e))) [
    | inl (value, m) ↦ rw (m, forward) (produce-Frame _ st.world)
    | inr (x, m) ↦ rw (m, forward) (Frame-refl st.world)
  ]

  -- The record that `forward_step` produces, from its value.
  abbrev pub record_of : String → DecodedEvent P → Bytes → KafkaRecord
  record_of topic e value = record {
    topic = topic;
    key = e.topic;
    value = value;
    headers = headers_of s e;
  }

  -- When it succeeds the brokers have accepted a record with the event's envelope.
  pub forward_step-Published :
      (topic : String) (e : DecodedEvent P) (st : State s)
      → (forward_step s topic e st).0 ≡ none
      → (value : Bytes) × (s.marshal_envelope (envelope_of s e) ≡ ok value)
        × Published (record_of topic e value) (forward_step s topic e st).1.world
  unfolding forward_step
  forward_step-Published topic e st h = elim (Result-cases (s.marshal_envelope (envelope_of s e))) [
    | inl (value, m) ↦ (
      value,
      m,
      rw (m, forward) (laws.acknowledged (record_of topic e value) st.world (ground arith)),
    )
    | inr (x, m) ↦ absurd (ground arith)
  ]

  pub seen_step-Frame :
      (prefix id : String) (st : State s) → Frame st.world (seen_step s prefix id st).1.world
  unfolding seen_step
  seen_step-Frame prefix id st = exists-Frame (key prefix id) st.world

  -- A hit is a key that is there.
  pub seen_step-Marked :
      (prefix id : String) (st : State s)
      → (seen_step s prefix id st).0 ≡ ok true
      → Marked (key prefix id) (seen_step s prefix id st).1.world
  unfolding seen_step
  seen_step-Marked prefix id st h = let (n, a) = counted in laws.found (key prefix id) st.world n a
    where
      counted : (n : ℕ) × ((s.exists (key prefix id) st.world).0 ≡ ok (suc n))
      counted = ground arith

  -- The mark writes one key.
  pub mark_step-marks :
      (prefix id k : String) (st : State s)
      → Marked k (mark_step s prefix id st).1.world
      → (k ≡ key prefix id) ⊎ Marked k st.world
  unfolding mark_step
  mark_step-marks prefix id k st h = laws.marked_by_set k (key prefix id) st.world h

  pub mark_step-rows :
      (prefix id u : String) (st : State s)
      → Stored u st.world
      → Stored u (mark_step s prefix id st).1.world
  unfolding mark_step
  mark_step-rows prefix id u st h = laws.row_over_set u (key prefix id) st.world h

  pub mark_step-records :
      (prefix id : String) (q : KafkaRecord) (st : State s)
      → Published q st.world
      → Published q (mark_step s prefix id st).1.world
  unfolding mark_step
  mark_step-records prefix id q st h = laws.record_over_set q (key prefix id) st.world h
