-- ===== src/Worker/EndToEnd.antt =====
-- A worker over the handler graph of `New`: what an acknowledged event has gone through.
use pubsub_event_processor.Common.{
  String, ◌≡◌, ◌≢◌, ◌⊎◌, List, [], Result, ok, err, Error, subst, sym,
}
use pubsub_event_processor.Replay.Cursor.{Bytes}
use pubsub_event_processor.Event.Services.{Services, KafkaRecord, Promises}
use pubsub_event_processor.Pipeline.{Wiring, State, root}
use pubsub_event_processor.Pipeline.Delivery.{Delivered, IsTruthful, root_delivers, root-IsTruthful}
use pubsub_event_processor.Worker.{Ctx, RawEvent, PoolMetrics, process}
use pubsub_event_processor.Worker.Acks.{process_accounts}

module _ {P Sch : Type 0} (s : Services P) {Stored : String → s.W → Type 0}
    {Published : KafkaRecord → s.W → Type 0} {Marked : String → s.W → Type 0}
    (laws : Promises s Stored Published Marked) (g : Wiring)
    (get_schema : String → State s → Result (Error s.E) Sch × State s)
    (decode : Sch → Bytes → Result (Error s.E) P)
    -- A schema is fetched from Salesforce: the fetch touches none of the three services.
    (elsewhere : (id : String) (st : State s) → (get_schema id st).1.world ≡ st.world) where
  -- If the services keep their promises, and fetching a schema does not touch them: an event is acknowledged
  -- only if its payload does not decode with a schema that was fetched for its schema ID, or it has a row in
  -- the database and, with Kafka on, an accepted record: through any outages, retries and cache answers,
  -- from a state in which the cache had keys only of events that went through every stage.
  pub ack-Delivered :
      (schema_ctxs handler_ctxs : List Ctx) (raw : RawEvent) (m : PoolMetrics) (st : State s)
      → IsTruthful s laws g st.world
      → (process get_schema decode (root s g) schema_ctxs handler_ctxs raw m st).acks ≢ []
      → ((sch : Sch) × (x : Error s.E) × ((t : State s) × ((get_schema raw.schema_id t).0 ≡ ok sch))
          × (decode sch raw.payload ≡ err x))
        ⊎ (P
            × Delivered s laws g raw.event_id
                (process get_schema decode
                  (root s g)
                  schema_ctxs
                  handler_ctxs
                  raw
                  m
                  st).state.world)
  ack-Delivered schema_ctxs handler_ctxs raw m st truth =
      (process_accounts get_schema decode (root s g) (λ u. IsTruthful s laws g u.world)
        (λ e u. Delivered s laws g e.event_id u.world)
        (λ id u h. subst (IsTruthful s laws g) (sym (elsewhere id u)) h) (root-IsTruthful s laws g)
        (root_delivers s laws g) schema_ctxs handler_ctxs raw m st truth).1
