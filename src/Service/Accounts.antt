-- ===== src/Service/Accounts.antt =====
-- What the workers of the service have achieved, and what is reported as done.
use pubsub_event_processor.Common.{
  ℕ, String, ◌≡◌, refl, sym, subst, inl, inr, List, ◌∷◌, ◌++◌, Result, ok, Error, All, All-append,
  All-before, All-after, All-replace, All-map,
}
use pubsub_event_processor.Replay.Cursor.{Bytes}
use pubsub_event_processor.Schema.Genuine.{IsGenuine}
use pubsub_event_processor.Replay.System.{System}
use pubsub_event_processor.Event.Services.{Services, KafkaRecord, Promises}
use pubsub_event_processor.Pipeline.{Wiring}
use pubsub_event_processor.Pipeline.Delivery.{IsTruthful}
use pubsub_event_processor.Subscriber.Stream.{ConsumerEvent}
use pubsub_event_processor.Worker.{RawEvent}
use pubsub_event_processor.Worker.Tasks.{Task, idle, acking, Shared, advance}
use pubsub_event_processor.Worker.Tasks.Progress.{
  Grows, IsAccounted, Achieved, Achieved-Grows, Delivered-Grows, advance-Grows, advance-IsTruthful,
  advance-IsGenuine, advance-Achieved,
}
use pubsub_event_processor.App.{Subscription, ack}
use pubsub_event_processor.Service.Held.{IsRealTask, Held}
use pubsub_event_processor.Service.{
  Service, carried, raw_of, Step, respond, hang_up, receive, pick, put, quit, take, leave, work,
  abandon, acknowledge, flush, cancel,
}

module _ {P Sch N : Type 0} (s : Services P) (g : Wiring)
    (src : String → N → Result (Error s.E) String × N) (parse : String → Result s.E Sch)
    (unmarshal : Sch → Bytes → Result s.E P) {Stored : String → s.W → Type 0}
    {Published : KafkaRecord → s.W → Type 0} {Marked : String → s.W → Type 0}
    (laws : Promises s Stored Published Marked) {Gave : String → String → Type 0}
    (gives : (id : String) (n : N) (text : String) → (src id n).0 ≡ ok text → Gave id text)
    (stream : String → ℕ → ConsumerEvent) where
  -- The event at a position is accounted for.
  abbrev pub IsSettled : s.W → String × ℕ → Type 0
  IsSettled w (topic, k) =
      IsAccounted s g src parse unmarshal laws gives (raw_of s g src parse unmarshal stream topic k)
        w

  IsSettled-Grows :
      (w w' : s.W)
      → Grows s g src parse unmarshal laws gives w w'
      → (p : String × ℕ) → IsSettled w p
      → IsSettled w' p
  IsSettled-Grows w w' f (topic, k) (inl bad) = inl bad
  IsSettled-Grows w w' f (topic, k) (inr there) =
      inr (Delivered-Grows s g src parse unmarshal laws gives _ w w' f there)

  pub record Accounts (v : Service Sch N s) : Type 0 where
    pub held : Held s g src parse unmarshal stream v
    pub truthful : IsTruthful s laws g v.shared.pipeline.world
    pub genuine : IsGenuine src parse gives v.shared.schemas
    pub achieved :
        All (λ t. Achieved s g src parse unmarshal laws gives t v.shared.pipeline.world) v.workers
    pub reported : All (IsSettled v.shared.pipeline.world) v.log.reports

  abbrev pub Ready : s.W → Task P → Type 0
  Ready w t = Achieved s g src parse unmarshal laws gives t w

  -- The step of a worker, or of a feed, that leaves the services and the committer alone.
  quiet :
      (v w : Service Sch N s)
      → w.shared ≡ v.shared
      → w.log ≡ v.log
      → Held s g src parse unmarshal stream w
      → All (Ready v.shared.pipeline.world) w.workers
      → Accounts v
      → Accounts w
  quiet v w same_shared same_log h ready a = record {
    held = h;
    truthful =
        subst (λ (x : Shared Sch N s). IsTruthful s laws g x.pipeline.world) (sym same_shared)
          a.truthful;
    genuine =
        subst (λ (x : Shared Sch N s). IsGenuine src parse gives x.schemas) (sym same_shared)
          a.genuine;
    achieved =
        subst (λ (x : Shared Sch N s). All (Ready x.pipeline.world) w.workers) (sym same_shared)
          ready;
    reported =
        subst (λ (x : Shared Sch N s). All (IsSettled x.pipeline.world) w.log.reports)
          (sym same_shared)
          (subst (λ (l : System). All (IsSettled v.shared.pipeline.world) l.reports) (sym same_log)
            a.reported);
  }

  work-Accounts :
      (v : Service Sch N s) (before after : List (Task P)) (t : Task P)
      → v.workers ≡ before ++ t ∷ after
      → Accounts v
      → Held s g src parse unmarshal stream (record v {
        workers = before ++ (advance s g src parse unmarshal t v.shared).0 ∷ after;
        shared = (advance s g src parse unmarshal t v.shared).1;
      })
      → Accounts (record v {
        workers = before ++ (advance s g src parse unmarshal t v.shared).0 ∷ after;
        shared = (advance s g src parse unmarshal t v.shared).1;
      })
  work-Accounts v before after t at a h =
      let w = v.shared.pipeline.world in
      let sh = (advance s g src parse unmarshal t v.shared).1 in
      let f = advance-Grows s g src parse unmarshal laws gives t v.shared in
      let ts : All (Ready w) (before ++ t ∷ after) = subst (All (Ready w)) at a.achieved in
      let mine = (All-after (Ready w) before (t ∷ after) ts).0 in
      record {
        held = h;
        truthful = advance-IsTruthful s g src parse unmarshal laws gives t v.shared mine a.truthful;
        genuine = advance-IsGenuine s g src parse unmarshal laws gives t v.shared a.genuine;
        achieved =
            All-replace (Ready sh.pipeline.world) before after t _
              (All-map (Ready w) (Ready sh.pipeline.world)
                (λ u r. Achieved-Grows s g src parse unmarshal laws gives u w sh.pipeline.world f r)
                _ ts)
              (advance-Achieved s g src parse unmarshal laws gives t v.shared a.truthful a.genuine
                mine);
        reported =
            All-map (IsSettled w) (IsSettled sh.pipeline.world)
              (IsSettled-Grows w sh.pipeline.world f) v.log.reports a.reported;
      }

  acknowledge-Accounts :
      (v : Service Sch N s) (before after : List (Task P)) (raw : RawEvent)
      (slots : List Subscription)
      → v.workers ≡ before ++ acking raw ∷ after
      → Accounts v
      → Held s g src parse unmarshal stream (record v { workers = before ++ idle ∷ after })
      → Accounts (record v {
        workers = before ++ idle ∷ after;
        log = record v.log {
          committer = (ack raw (v.log.committer, slots)).0;
          reports = (raw.topic, raw.seq) ∷ v.log.reports;
        };
      })
  unfolding carried
  acknowledge-Accounts v before after raw slots at a h =
      let w = v.shared.pipeline.world in
      let ts : All (Ready w) (before ++ acking raw ∷ after) = subst (All (Ready w)) at a.achieved in
      let rs : All (IsRealTask s g src parse unmarshal stream) (before ++ acking raw ∷ after) =
        subst (All (IsRealTask s g src parse unmarshal stream)) at a.held.workers in
      let real =
        (All-after (IsRealTask s g src parse unmarshal stream) before (acking raw ∷ after) rs).0 raw
          refl in
      record {
        held = record { feeds = h.feeds; events = h.events; workers = h.workers };
        truthful = a.truthful;
        genuine = a.genuine;
        achieved = All-replace (Ready w) before after (acking raw) idle ts tt;
        reported = (
          subst (λ x. IsAccounted s g src parse unmarshal laws gives x w) real.1
              (All-after (Ready w) before (acking raw ∷ after) ts).0,
          a.reported,
        );
      }

  flush-Accounts :
      (v : Service Sch N s) (l : System)
      → l.reports ≡ v.log.reports
      → Accounts v
      → Accounts (record v { log = l })
  flush-Accounts v l same a = record {
    held = record { feeds = a.held.feeds; events = a.held.events; workers = a.held.workers };
    truthful = a.truthful;
    genuine = a.genuine;
    achieved = a.achieved;
    reported = subst (All (IsSettled v.shared.pipeline.world)) (sym same) a.reported;
  }

  pub Step-Accounts :
      (batch_size : ℕ) {v w : Service Sch N s}
      → Step s g src parse unmarshal stream batch_size v w
      → Accounts v
      → Held s g src parse unmarshal stream w
      → Accounts w
  Step-Accounts n {v} (respond before after f k _ _ _) a h = quiet v _ refl refl h a.achieved a
  Step-Accounts n {v} (hang_up before after f _) a h = quiet v _ refl refl h a.achieved a
  Step-Accounts n {v} (receive before after f _ _ _ _) a h = quiet v _ refl refl h a.achieved a
  Step-Accounts n {v} (pick before after f raw rest _ _ _ _) a h =
      quiet v _ refl refl h a.achieved a
  Step-Accounts n {v} (put before after f raw _ _ _) a h = quiet v _ refl refl h a.achieved a
  Step-Accounts n {v} (quit before after f raw _ _ _) a h = quiet v _ refl refl h a.achieved a
  Step-Accounts n {v} cancel a h = quiet v _ refl refl h a.achieved a
  Step-Accounts n {v} (take before after raw rest at _) a h =
      let w = v.shared.pipeline.world in
      quiet v _ refl refl h
        (All-replace (Ready w) before after idle _ (subst (All (Ready w)) at a.achieved) tt) a
  Step-Accounts n {v} (leave before after at _) a h =
      let w = v.shared.pipeline.world in
      let ts : All (Ready w) (before ++ idle ∷ after) = subst (All (Ready w)) at a.achieved in
      quiet v _ refl refl h
        (All-append (Ready w) before after (All-before (Ready w) before (idle ∷ after) ts)
          (All-after (Ready w) before (idle ∷ after) ts).1)
        a
  Step-Accounts n {v} (abandon before after t raw at _ _) a h =
      let w = v.shared.pipeline.world in
      quiet v _ refl refl h
        (All-replace (Ready w) before after t idle (subst (All (Ready w)) at a.achieved) tt) a
  Step-Accounts n {v} (work before after t at) a h = work-Accounts v before after t at a h
  Step-Accounts n {v} (acknowledge before after raw slots at) a h =
      acknowledge-Accounts v before after raw slots at a
        (record { feeds = h.feeds; events = h.events; workers = h.workers })
  Step-Accounts n {v} (flush l st same) a h = flush-Accounts v l same a
