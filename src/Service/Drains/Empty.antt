-- ===== src/Service/Drains/Empty.antt =====
-- The running service comes to hold no event.
use pubsub_event_processor.Common.{
  ℕ, zero, suc, ◌+◌, ◌≤◌, String, ◌≡◌, refl, ap, List, [], ◌∷◌, Result, Error, arith, total, length,
  false, inl, inr, dec_le, Option-cases, ◌∙◌, Has,
}
use pubsub_event_processor.Replay.Cursor.{Bytes}
use pubsub_event_processor.Replay.Committer.{Pending}
use pubsub_event_processor.Event.Services.{Services}
use pubsub_event_processor.Pipeline.{Wiring}
use pubsub_event_processor.Subscriber.Stream.{ConsumerEvent}
use pubsub_event_processor.Worker.Tasks.{Task, Shared}
use pubsub_event_processor.Service.Bounded.{in_service, hand_size}
use pubsub_event_processor.Service.Places.{
  here, report_here, hand_here, feed_here, task_here, received_by, Reach-Balanced,
}
use pubsub_event_processor.Service.Conserved.{event_in_one_place, Reach-received-le}
use pubsub_event_processor.Service.Ranks.{rank, held, feed_rank, distance, IsResponsive}
use pubsub_event_processor.Service.{
  Feed, Service, carried, Step, Reach, next, Later, now, step_on, Later-Reach,
}
use pubsub_event_processor.Service.Drains.{Reach-Running}
use pubsub_event_processor.Service.Drains.Nearer.{List-cases, idle_of_rank, some-Nearer}

-- Nothing is left where no step is left.
nil_of_length : {A : Type 0} (l : List A) → length l ≡ 0 → l ≡ []
nil_of_length [] e = refl
nil_of_length (x ∷ xs) e = absurd (omega (arith, e))

no_feeds :
    (topic : String) (k : ℕ) (fs : List Feed)
    → total feed_rank fs ≡ 0
    → total (feed_here topic k) fs ≡ 0
no_feeds topic k [] e = refl
no_feeds topic k (f ∷ fs) e = elim (List-cases f.receiver.out) [
  | inr (x, xs, o) ↦ absurd (omega (arith, e, ap length o))
  | inl o ↦ elim (Option-cases f.hand) [
    | inr (x, d) ↦ absurd (omega (arith, e, ap held d))
    | inl d ↦ omega (
      arith,
      e,
      no_feeds topic k fs (omega (arith, e)),
      ap (total (here topic k)) o,
      ap (hand_here topic k) d,
    )
  ]
]

no_tasks :
    {P : Type 0} (topic : String) (k : ℕ) (ts : List (Task P))
    → total rank ts ≡ 0
    → total (task_here topic k) ts ≡ 0
unfolding carried
no_tasks topic k [] e = refl
no_tasks topic k (t ∷ ts) e = omega (
  arith,
  no_tasks topic k ts (omega (arith, e)),
  ap (task_here topic k) (idle_of_rank t (omega (arith, e))),
)

feeds_empty :
    (fs : List Feed)
    → total feed_rank fs ≡ 0
    → total (λ f. f.waiting + length f.receiver.out + hand_size f.hand) fs ≡ 0
feeds_empty [] e = refl
feeds_empty (f ∷ fs) e = elim (Option-cases f.hand) [
  | inr (x, d) ↦ absurd (omega (arith, e, ap held d))
  | inl d ↦ omega (arith, e, feeds_empty fs (omega (arith, e)), ap hand_size d)
]

workers_empty :
    {P : Type 0} (ts : List (Task P))
    → total rank ts ≡ 0
    → total (λ t. hand_size (carried t)) ts ≡ 0
unfolding carried
workers_empty [] e = refl
workers_empty (t ∷ ts) e = omega (
  arith,
  workers_empty ts (omega (arith, e)),
  ap (λ x. hand_size (carried x)) (idle_of_rank t (omega (arith, e))),
)

module _ {P Sch N : Type 0} (s : Services P) (g : Wiring)
    (src : String → N → Result (Error s.E) String × N) (parse : String → Result s.E Sch)
    (unmarshal : Sch → Bytes → Result s.E P) (stream : String → ℕ → ConsumerEvent) (batch_size : ℕ)
    (topics : List String) (count : ℕ) (shared : Shared Sch N s) (table : Pending)
    (h : IsResponsive s g src parse) (big : 1 ≤ batch_size) (staffed : 1 ≤ count) where
  abbrev Reached : Service Sch N s → Type 0
  Reached v = Reach s g src parse unmarshal stream batch_size topics count shared table v

  -- A step before the others.
  earlier :
      {v w u : Service Sch N s}
      → Step s g src parse unmarshal stream batch_size v w
      → Later s g src parse unmarshal stream batch_size w u
      → Later s g src parse unmarshal stream batch_size v u
  earlier st now = step_on now st
  earlier st (step_on l more) = step_on (earlier st l) more

  abbrev Drained : Service Sch N s → Type 0
  Drained v =
      (w : Service Sch N s) × Later s g src parse unmarshal stream batch_size v w
      × (distance w ≡ 0)
      × (w.is_cancelled ≡ v.is_cancelled)
      × ((topic : String) (k : ℕ)
          → total (received_by topic k) v.feeds ≤ total (received_by topic k) w.feeds)

  drains_within :
      (n : ℕ) (v : Service Sch N s)
      → Reached v
      → v.is_cancelled ≡ false
      → distance v ≤ n
      → Drained v
  drains_within zero v r up low = (v, now, omega (arith, low), refl, λ topic k. omega arith)
  drains_within (suc n) v r up low = elim (dec_le 1 (distance v)) [
    | no none_left ↦ (v, now, omega (arith, none_left), refl, λ topic k. omega arith)
    | yes some_left ↦
        let (w, st, near, same, kept) =
          some-Nearer s g src parse unmarshal stream batch_size topics count v h big staffed
            (Reach-Running s g src parse unmarshal stream batch_size topics count shared table r) up
            some_left in
        let (u, q, e, same', kept') =
          drains_within n w (next r st) (same ∙ up) (omega (arith, near, low)) in
        (u, earlier st q, e, same' ∙ same, λ topic k. omega (arith, kept' topic k, kept topic k))
  ]

  -- No backpressure locks the service. If no topic is configured twice, the services answer every call without an
  -- error, and there are a worker and a batch of at least one event: from every state that the service can reach
  -- and in which its context is not cancelled, it can go on, by steps from that state, to one in which its context
  -- is still not cancelled, in which it holds no event, the responses that the receivers go through included, and
  -- in which every event that had been received is acknowledged, once.
  pub service_drains :
      (v : Service Sch N s)
      → Reached v
      → v.is_cancelled ≡ false
      → (w : Service Sch N s) × Later s g src parse unmarshal stream batch_size v w
        × (w.is_cancelled ≡ false)
        × (in_service w ≡ 0)
        × ((f : Feed) (k : ℕ)
            → Has f v.feeds
            → 1 ≤ k
            → k ≤ f.receiver.seq
            → total (report_here f.receiver.topic k) w.log.reports ≡ 1)
  service_drains v r up =
      let (w, later, e, same, got) = drains_within (distance v) v r up (omega arith) in
      let q : Reached w =
        Later-Reach s g src parse unmarshal stream batch_size topics count shared table r later in
      let feeds : total feed_rank w.feeds ≡ 0 = omega (arith, e) in
      let tasks : total rank w.workers ≡ 0 = omega (arith, e) in
      let none_there : length w.events ≡ 0 = omega (arith, e) in
      let kept =
        (Reach-Running s g src parse unmarshal stream batch_size topics count shared table q).kept
          (same ∙ up) in
      (
        w,
        later,
        same ∙ up,
        omega (arith, feeds_empty w.feeds feeds, workers_empty w.workers tasks, none_there),
        λ f k there low high.
            let t = f.receiver.topic in
            omega (
              arith,
              event_in_one_place s g src parse unmarshal stream batch_size topics count shared table
                  r f k there low high,
              Reach-Balanced t k s g src parse unmarshal stream batch_size topics count shared table
                  r,
              Reach-Balanced t k s g src parse unmarshal stream batch_size topics count shared table
                  q,
              got t k,
              Reach-received-le s g src parse unmarshal stream batch_size topics count shared table
                  q t k,
              no_feeds t k w.feeds feeds,
              no_tasks t k w.workers tasks,
              ap (total (here t k)) (nil_of_length w.events none_there),
              ap (total (here t k)) kept,
            ),
      )
