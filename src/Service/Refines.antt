-- ===== src/Service/Refines.antt =====
-- The service beside its committer.
use pubsub_event_processor.Common.{
  ℕ, String, refl, sym, ap, subst, List, ◌∷◌, ◌++◌, Result, Error, All, All-after,
}
use pubsub_event_processor.Replay.Cursor.{Bytes}
use pubsub_event_processor.Replay.Committer.{Pending, done}
use pubsub_event_processor.Replay.System.{System, positions, report}
use pubsub_event_processor.Replay.System as Replay
use pubsub_event_processor.Event.Services.{Services}
use pubsub_event_processor.Pipeline.{Wiring}
use pubsub_event_processor.Subscriber.Stream.{ConsumerEvent}
use pubsub_event_processor.Worker.{RawEvent}
use pubsub_event_processor.Worker.Tasks.{acking, Shared}
use pubsub_event_processor.App.{Subscription, ack}
use pubsub_event_processor.Service.Held.{IsReal, IsRealTask, Held, Step-Held, start-Held}
use pubsub_event_processor.Service.{
  Service, carried, rid, Step, respond, hang_up, receive, pick, put, quit, take, leave, work,
  abandon, acknowledge, flush, cancel, Reach, begin, next,
}

module _ {P Sch N : Type 0} (s : Services P) (g : Wiring)
    (src : String → N → Result (Error s.E) String × N) (parse : String → Result s.E Sch)
    (unmarshal : Sch → Bytes → Result s.E P) (stream : String → ℕ → ConsumerEvent) where
  -- What `ack` reports is the event at its position of the stream.
  ack_reports :
      (table : Pending) (l : System) (raw : RawEvent) (slots : List Subscription)
      → IsReal s g src parse unmarshal stream raw
      → Replay.Reach (rid s g src parse unmarshal stream) table l
      → Replay.Reach (rid s g src parse unmarshal stream) table (record l {
        committer = (ack raw (l.committer, slots)).0;
        reports = (raw.topic, raw.seq) ∷ l.reports;
      })
  unfolding ack
  ack_reports table l raw slots (pos, same) r =
      subst
        (λ i. Replay.Reach (rid s g src parse unmarshal stream) table (record l {
          committer = done l.committer raw.topic raw.seq i;
          reports = (raw.topic, raw.seq) ∷ l.reports;
        }))
        (sym (ap (λ (x : RawEvent). x.replay_id) same))
        (Replay.next r (report raw.topic raw.seq pos))

  Step-log :
      (batch_size : ℕ) (table : Pending) {v w : Service Sch N s}
      → Step s g src parse unmarshal stream batch_size v w
      → Held s g src parse unmarshal stream v
      → Replay.Reach (rid s g src parse unmarshal stream) table v.log
      → Replay.Reach (rid s g src parse unmarshal stream) table w.log
  unfolding carried
  Step-log n table (respond before after f k _ _ _) h r = r
  Step-log n table (hang_up before after f _) h r = r
  Step-log n table (receive before after f _ _ _ _) h r = r
  Step-log n table (pick before after f raw rest _ _ _ _) h r = r
  Step-log n table (put before after f raw _ _ _) h r = r
  Step-log n table (quit before after f raw _ _ _) h r = r
  Step-log n table cancel h r = r
  Step-log n table (take before after raw rest _ _) h r = r
  Step-log n table (leave before after _ _) h r = r
  Step-log n table (work before after t _) h r = r
  Step-log n table (abandon before after t raw _ _ _) h r = r
  Step-log n table (flush l st same) h r = Replay.next r st
  Step-log n table {v} (acknowledge before after raw slots at) h r =
      let rs : All (IsRealTask s g src parse unmarshal stream) (before ++ acking raw ∷ after) =
        subst (All (IsRealTask s g src parse unmarshal stream)) at h.workers in
      ack_reports table v.log raw slots
        ((All-after (IsRealTask s g src parse unmarshal stream) before (acking raw ∷ after) rs).0
          raw refl)
        r

  pub Reach-Held :
      (batch_size : ℕ) (topics : List String) (count : ℕ) (shared : Shared Sch N s)
      (table : Pending) {v : Service Sch N s}
      → Reach s g src parse unmarshal stream batch_size topics count shared table v
      → Held s g src parse unmarshal stream v
  Reach-Held n topics count shared table (begin d) =
      start-Held s g src parse unmarshal stream n topics count shared table
  Reach-Held n topics count shared table (next r st) =
      Step-Held s g src parse unmarshal stream n st (Reach-Held n topics count shared table r)

  -- If no topic is configured twice, the service refines the committer: in whatever order its goroutines
  -- run, its committer and table are in a state that a sequence of reports and flushes alone leads to, each
  -- report that of the event which the topic's receiver received at that position, with that event's replay
  -- ID.
  pub service_is_committer :
      (batch_size : ℕ) (topics : List String) (count : ℕ) (shared : Shared Sch N s)
      (table : Pending) {v : Service Sch N s}
      → Reach s g src parse unmarshal stream batch_size topics count shared table v
      → Replay.Reach (rid s g src parse unmarshal stream) table v.log
  service_is_committer n topics count shared table (begin d) = Replay.begin
  service_is_committer n topics count shared table (next r st) =
      Step-log n table st (Reach-Held n topics count shared table r)
        (service_is_committer n topics count shared table r)
