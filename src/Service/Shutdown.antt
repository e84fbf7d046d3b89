-- ===== src/Service/Shutdown.antt =====
-- The end of `Run`: the workers have left, and the final flush is all that remains.
use pubsub_event_processor.Common.{
  ℕ, ◌+◌, ap, ◌-◌, ◌≤◌, ◌<◌, String, ◌≡◌, refl, sym, ◌∙◌, subst, false, some, List, [], ◌∷◌, ◌++◌,
  Result, Error, Has, arith, lookup, string_discrete,
}
use pubsub_event_processor.Replay.Cursor.{Bytes, TopicCursor}
use pubsub_event_processor.Replay.Committer.{Pending}
use pubsub_event_processor.Replay.System.{positions}
use pubsub_event_processor.Replay.System.Recovery.{clean_is_committed}
use pubsub_event_processor.Event.Services.{Services}
use pubsub_event_processor.Pipeline.{Wiring}
use pubsub_event_processor.Subscriber.Stream.{ConsumerEvent}
use pubsub_event_processor.Worker.Tasks.{Shared}
use pubsub_event_processor.Service.{
  Service, rid, Step, respond, hang_up, receive, pick, put, quit, take, leave, work, abandon,
  acknowledge, flush, cancel, Reach, Later, now, step_on, Later-Reach,
}
use pubsub_event_processor.Service.Refines.{service_is_committer}

nobody : {A : Type 0} (before after : List A) (x : A) → [] ≡ before ++ x ∷ after → ⊥
nobody [] after x e = absurd (cc)
nobody (y ∷ before) after x e = absurd (cc)

module _ {P Sch N : Type 0} (s : Services P) (g : Wiring)
    (src : String → N → Result (Error s.E) String × N) (parse : String → Result s.E Sch)
    (unmarshal : Sch → Bytes → Result s.E P) (stream : String → ℕ → ConsumerEvent)
    (batch_size : ℕ) where
  -- No worker, and these reports.
  abbrev Still : Service Sch N s → Service Sch N s → Type 0
  Still v w = (w.workers ≡ []) × (w.log.reports ≡ v.log.reports)

  Step-Still :
      (v : Service Sch N s) {u w : Service Sch N s}
      → Step s g src parse unmarshal stream batch_size u w
      → Still v u
      → Still v w
  Step-Still v (respond before after f k _ _ _) h = h
  Step-Still v (hang_up before after f _) h = h
  Step-Still v (receive before after f _ _ _ _) h = h
  Step-Still v (pick before after f raw rest _ _ _ _) h = h
  Step-Still v (put before after f raw _ _ _) h = h
  Step-Still v (quit before after f raw _ _ _) h = h
  Step-Still v cancel h = h
  Step-Still v (flush l st same) h = (h.0, same ∙ h.1)
  Step-Still v (take before after raw rest at _) h = absurd (nobody before after _ (sym h.0 ∙ at))
  Step-Still v (leave before after at _) h = absurd (nobody before after _ (sym h.0 ∙ at))
  Step-Still v (work before after t at) h = absurd (nobody before after t (sym h.0 ∙ at))
  Step-Still v (abandon before after t raw at _ _) h = absurd (nobody before after t (sym h.0 ∙ at))
  Step-Still v (acknowledge before after raw slots at) h =
      absurd (nobody before after _ (sym h.0 ∙ at))

  Later-Still :
      (v : Service Sch N s)
      → v.workers ≡ []
      → {w : Service Sch N s} → Later s g src parse unmarshal stream batch_size v w
      → Still v w
  Later-Still v gone now = (gone, refl)
  Later-Still v gone (step_on l st) = Step-Still v st (Later-Still v gone l)

  module _ (topics : List String) (count : ℕ) (shared : Shared Sch N s) (table : Pending) where
    -- If no topic is configured twice: once the workers have left, no acknowledgement comes any more, and as
    -- soon as no flush is running and the cursor of a topic that has moved is clean, the table holds for the
    -- topic the replay ID of the last event up to which every event was acknowledged when they left.
    pub last_flush_is_complete :
        {v w : Service Sch N s}
        → Reach s g src parse unmarshal stream batch_size topics count shared table v
        → v.workers ≡ []
        → Later s g src parse unmarshal stream batch_size v w
        → (topic : String) (t : TopicCursor) → w.log.busy ≡ false
        → lookup string_discrete topic w.log.committer.topics ≡ some t
        → t.dirty ≡ false
        → 1 < t.next
        → (w.log.reports ≡ v.log.reports)
          × ((last : ℕ) × (1 ≤ last)
              × (lookup string_discrete topic w.log.table ≡ some (stream topic last).replay_id)
              × ((k : ℕ) → 1 ≤ k → k ≤ last → Has k (positions topic v.log.reports))
              × (¬ Has (last + 1) (positions topic v.log.reports)))
    last_flush_is_complete {v} {w} reach gone later topic t free there calm big =
        let still = (Later-Still v gone later).1 in
        let log =
          service_is_committer s g src parse unmarshal stream batch_size topics count shared table (
            Later-Reach s g src parse unmarshal stream batch_size topics count shared table reach
              later) in
        let (stored, at, below, gap) =
          clean_is_committed (rid s g src parse unmarshal stream) table log topic t free there calm
            big in
        let same : positions topic w.log.reports ≡ positions topic v.log.reports =
          ap (positions topic) still in
        let edge : t.next - 1 + 1 ≡ t.next = omega (arith, big) in
        (
          still,
          (
            t.next - 1,
            omega (arith, big),
            stored ∙ ap some at,
            λ k low high. subst (Has k) same (below k low (omega (arith, big, high))),
            λ h. gap (
                subst (Has t.next) (sym same)
                  (subst (λ j. Has j (positions topic v.log.reports)) edge h)),
          ),
        )
