-- ===== src/Service/Finishes.antt =====
-- The way of an event from `events` to its acknowledgement, by the steps of one worker.
use pubsub_event_processor.Common.{
  ℕ, zero, suc, String, ◌≡◌, refl, ◌∙◌, ap, subst, none, some, List, [], ◌∷◌, ◌++◌, Result, ok,
  Error,
}
use pubsub_event_processor.Replay.Cursor.{Bytes}
use pubsub_event_processor.Event.Services.{Services}
use pubsub_event_processor.Schema.{get, decode}
use pubsub_event_processor.Pipeline.{Wiring, root}
use pubsub_event_processor.Subscriber.Stream.{ConsumerEvent}
use pubsub_event_processor.Worker.{RawEvent, decoded_event}
use pubsub_event_processor.Worker.Tasks.{
  Task, idle, fetching, acking, Shared, handle_start, after_get, after_decode, advance,
}
use pubsub_event_processor.Worker.Tasks.Alone.{advances, attempted, alone_is_root}
use pubsub_event_processor.Service.{Service, take, work, acknowledge, Later, now, step_on}
use pubsub_event_processor.App.{ack}

module _ {P Sch N : Type 0} (s : Services P) (g : Wiring)
    (src : String → N → Result (Error s.E) String × N) (parse : String → Result s.E Sch)
    (unmarshal : Sch → Bytes → Result s.E P) (stream : String → ℕ → ConsumerEvent)
    (batch_size : ℕ) where
  abbrev with_worker :
      Service Sch N s → List (Task P) → List (Task P) → Task P × Shared Sch N s → Service Sch N s
  with_worker v before after (t, sh) = record v { workers = before ++ t ∷ after; shared = sh }

  -- Steps of one worker, the one between `before` and `after`: it takes an event, goes on, or acknowledges.
  pub data OneWorker (before after : List (Task P)) (v : Service Sch N s)
      : Service Sch N s → Type 0 where
    rests : OneWorker before after v v
    takes :
        {u : Service Sch N s} (raw : RawEvent) (rest : List RawEvent)
        → OneWorker before after v u
        → u.workers ≡ before ++ idle ∷ after
        → u.events ≡ raw ∷ rest
        → OneWorker before after v
            (record u { workers = before ++ fetching raw ∷ after; events = rest })
    works :
        {u : Service Sch N s} (t : Task P)
        → OneWorker before after v u
        → u.workers ≡ before ++ t ∷ after
        → OneWorker before after v (record u {
          workers = before ++ (advance s g src parse unmarshal t u.shared).0 ∷ after;
          shared = (advance s g src parse unmarshal t u.shared).1;
        })
    acknowledges :
        {u : Service Sch N s} (raw : RawEvent)
        → OneWorker before after v u
        → u.workers ≡ before ++ acking raw ∷ after
        → OneWorker before after v (record u {
          workers = before ++ idle ∷ after;
          log = record u.log {
            committer = (ack raw (u.log.committer, [])).0;
            reports = (raw.topic, raw.seq) ∷ u.log.reports;
          };
        })

  -- They are steps of the service.
  OneWorker-Later :
      (before after : List (Task P)) (v : Service Sch N s) {w : Service Sch N s}
      → OneWorker before after v w
      → Later s g src parse unmarshal stream batch_size v w
  OneWorker-Later before after v rests = now
  OneWorker-Later before after v (takes raw rest l at full) =
      step_on (OneWorker-Later before after v l) (take before after raw rest at full)
  OneWorker-Later before after v (works t l at) =
      step_on (OneWorker-Later before after v l) (work before after t at)
  OneWorker-Later before after v (acknowledges raw l at) =
      step_on (OneWorker-Later before after v l) (acknowledge before after raw [] at)

  -- The calls of one worker, while the others wait.
  OneWorker-advances :
      (n : ℕ) (v u : Service Sch N s) (before after : List (Task P)) (c : Task P × Shared Sch N s)
      → OneWorker before after v (with_worker u before after c)
      → OneWorker before after v (with_worker u before after (advances s g src parse unmarshal n c))
  unfolding advances
  OneWorker-advances zero v u before after c r = r
  OneWorker-advances (suc n) v u before after (t, sh) r =
      OneWorker-advances n v u before after (advance s g src parse unmarshal t sh) (works t r refl)

  -- The schema is there, and the payload decodes with it.
  fetched :
      (raw : RawEvent) (sch : Sch) (payload : P) (sh : Shared Sch N s)
      → (get src parse raw.schema_id (sh.schemas, sh.source)).0 ≡ ok sch
      → decode unmarshal (some sch) raw.payload ≡ ok payload
      → (advance s g src parse unmarshal (fetching raw) sh).0
        ≡ handle_start s g src parse unmarshal raw payload
  unfolding advance
  fetched raw sch payload sh e d =
      ap (after_get s g src parse unmarshal raw) e ∙ ap (after_decode s g src parse unmarshal raw) d

  fetch_leaves :
      (raw : RawEvent) (sh : Shared Sch N s)
      → (advance s g src parse unmarshal (fetching raw) sh).1.pipeline ≡ sh.pipeline
  unfolding advance
  fetch_leaves raw sh = refl

  -- Where a worker is free and an event stands first in `events`, the cache gives its schema, its payload
  -- decodes, and the handler returns nil: by steps of that worker alone, from this state on, the service can
  -- come to a state in which the event is acknowledged and the worker is free again; the services are then as
  -- the handler leaves them, and the other workers, the feeds and the context as they were.
  pub worker_can_finish :
      (v : Service Sch N s) (before after : List (Task P)) (raw : RawEvent) (rest : List RawEvent)
      (sch : Sch) (payload : P)
      → v.workers ≡ before ++ idle ∷ after
      → v.events ≡ raw ∷ rest
      → (get src parse raw.schema_id (v.shared.schemas, v.shared.source)).0 ≡ ok sch
      → decode unmarshal (some sch) raw.payload ≡ ok payload
      → (root s g (decoded_event raw payload) v.shared.pipeline).0 ≡ none
      → (w : Service Sch N s) × OneWorker before after v w
        × Later s g src parse unmarshal stream batch_size v w
        × (w.events ≡ rest)
        × (w.workers ≡ before ++ idle ∷ after)
        × (w.feeds ≡ v.feeds)
        × (w.is_cancelled ≡ v.is_cancelled)
        × (w.log.reports ≡ (raw.topic, raw.seq) ∷ v.log.reports)
        × (w.shared.pipeline ≡ (root s g (decoded_event raw payload) v.shared.pipeline).1)
  worker_can_finish v before after raw rest sch payload at full e d fine =
      let v1 : Service Sch N s = record v {
        workers = before ++ fetching raw ∷ after;
        events = rest;
      } in
      let c = advance s g src parse unmarshal (fetching raw) v.shared in
      let r1 : OneWorker before after v v1 = takes raw rest rests at full in
      let r2 : OneWorker before after v (with_worker v1 before after c) =
        works (fetching raw) r1 refl in
      let (n, ends) = alone_is_root s g src parse unmarshal raw payload c.1 in
      let r3 = OneWorker-advances n v v1 before after c r2 in
      let done : advances s g src parse unmarshal n c ≡ (
        acking raw,
        record c.1 { pipeline = (root s g (decoded_event raw payload) c.1.pipeline).1 },
      ) =
        ap (λ t. advances s g src parse unmarshal n (t, c.1)) (fetched raw sch payload v.shared e d)
        ∙ ends
        ∙ ap
            (λ o. (
              attempted s g src parse unmarshal raw payload o,
              record c.1 { pipeline = (root s g (decoded_event raw payload) c.1.pipeline).1 },
            ))
            (ap (λ st. (root s g (decoded_event raw payload) st).0) (fetch_leaves raw v.shared)
              ∙ fine) in
      let r4 = subst (λ x. OneWorker before after v (with_worker v1 before after x)) done r3 in
      let ended = acknowledges raw r4 refl in
      (
        _,
        ended,
        OneWorker-Later before after v ended,
        refl,
        refl,
        refl,
        refl,
        refl,
        ap (λ st. (root s g (decoded_event raw payload) st).1) (fetch_leaves raw v.shared),
      )
