-- ===== src/Service/Places.antt =====
-- Where an event can be, as counts, and what each step of the service changes of them.
use pubsub_event_processor.Common.{
  ℕ, zero, suc, ◌+◌, ◌%◌, ◌^◌, ◌<◌, String, ◌≡◌, refl, ◌∙◌, ap, true, Option, none, some, List, [],
  ◌∷◌, ◌++◌, map, ite, Result, Error, arith, total, total-append, replicate, string_discrete,
  ℕ_discrete, dec_le,
}
use pubsub_event_processor.Replay.Cursor.{Bytes}
use pubsub_event_processor.Replay.Committer.{Pending}
use pubsub_event_processor.Event.Services.{Services}
use pubsub_event_processor.Pipeline.{Wiring}
use pubsub_event_processor.Subscriber.Stream.{ConsumerEvent, emit}
use pubsub_event_processor.Worker.{RawEvent}
use pubsub_event_processor.Worker.Tasks.{Task, idle, fetching, acking, Shared, advance}
use pubsub_event_processor.Service.Carried.{carried-waits_on, carried-advance}
use pubsub_event_processor.Service.{
  Feed, new_feed, Service, carried, receive_next, Step, respond, hang_up, receive, pick, put, quit,
  take, leave, work, abandon, acknowledge, flush, cancel, Reach, begin, next,
}

-- Whether the event is the one at position `k` of the topic, as a count.
module _ (topic : String) (k : ℕ) where
  abbrev pub here : RawEvent → ℕ
  here raw = ite (string_discrete raw.topic topic) (ite (ℕ_discrete raw.seq k) 1 0) 0

  abbrev pub report_here : String × ℕ → ℕ
  report_here (t, j) = ite (string_discrete t topic) (ite (ℕ_discrete j k) 1 0) 0

  abbrev pub hand_here : Option RawEvent → ℕ
  hand_here none = 0
  hand_here (some raw) = here raw

  abbrev pub feed_here : Feed → ℕ
  feed_here f = total here f.receiver.out + hand_here f.hand

  abbrev pub task_here : {P : Type 0} → Task P → ℕ
  task_here t = hand_here (carried t)

  -- How often the event stands with a receiver, in `events`, with a worker, among those given up on, or among
  -- those acknowledged.
  abbrev pub everywhere : {P Sch N : Type 0} {s : Services P} → Service Sch N s → ℕ
  everywhere v =
      total feed_here v.feeds
      + total here v.events
      + total task_here v.workers
      + total here v.abandoned
      + total report_here v.log.reports

  -- How often it was received.
  abbrev pub received_by : Feed → ℕ
  received_by f =
      ite (string_discrete f.receiver.topic topic)
        (ite (dec_le 1 k) (ite (dec_le k f.receiver.seq) 1 0) 0) 0

  middle :
      {A : Type 0} (f : A → ℕ) (l before after : List A) (x : A)
      → l ≡ before ++ x ∷ after
      → total f l ≡ total f before + (f x + total f after)
  middle f l before after x e = ap (total f) e ∙ total-append f before (x ∷ after)

  -- One entry of a list is replaced.
  replaced :
      {A : Type 0} (f : A → ℕ) (l before after : List A) (x y : A)
      → l ≡ before ++ x ∷ after
      → total f (before ++ y ∷ after) + f x ≡ total f l + f y
  replaced f l before after x y e =
      omega (arith, middle f l before after x e, total-append f before (y ∷ after))

  -- A receiver that takes the next event holds it, once.
  feed-received :
      (f : Feed) (e : ConsumerEvent)
      → f.receiver.seq + 1 < 2 ^ 64
      → let f' = record f { receiver = emit f.receiver e } in
        feed_here f' + received_by f ≡ feed_here f + received_by f'
  unfolding emit
  feed-received f e fits =
      let exact : (f.receiver.seq + 1) % 2 ^ 64 ≡ f.receiver.seq + 1 = omega arith in
      let raw : RawEvent = record {
        topic = f.receiver.topic;
        seq = f.receiver.seq + 1;
        event_id = e.event_id;
        schema_id = e.schema_id;
        payload = e.payload;
        replay_id = e.replay_id;
        received_at = e.arrived;
      } in
      rw exact (ground (arith, total-append here f.receiver.out (raw ∷ [])))

  same_topic :
      (f f' : Feed)
      → f'.receiver.topic ≡ f.receiver.topic
      → f'.receiver.seq ≡ f.receiver.seq
      → received_by f' ≡ received_by f
  same_topic f f' e q = rw (e, q) refl

  module _ {P Sch N : Type 0} (s : Services P) (g : Wiring)
      (src : String → N → Result (Error s.E) String × N) (parse : String → Result s.E Sch)
      (unmarshal : Sch → Bytes → Result s.E P) (stream : String → ℕ → ConsumerEvent) where
    abbrev pub Balanced : Service Sch N s → Type 0
    Balanced v = everywhere v ≡ total received_by v.feeds

    waits-Balanced :
        (v : Service Sch N s) (before after : List Feed) (f : Feed) (k : ℕ)
        → v.feeds ≡ before ++ f ∷ after
        → Balanced v
        → Balanced (record v { feeds = before ++ record f { waiting = k } ∷ after })
    waits-Balanced v before after f k at h =
        let f' : Feed = record f { waiting = k } in
        omega (
          arith,
          h,
          replaced feed_here v.feeds before after f f' at,
          replaced received_by v.feeds before after f f' at,
        )

    Step-Balanced :
        (batch_size : ℕ) {v w : Service Sch N s}
        → Step s g src parse unmarshal stream batch_size v w
        → Balanced v
        → Balanced w
    unfolding carried
    Step-Balanced n {v} (receive before after f at some_there room pos) h =
        let f' = receive_next s g src parse unmarshal stream f in
        omega (
          arith,
          h,
          replaced feed_here v.feeds before after f f' at,
          replaced received_by v.feeds before after f f' at,
          feed-received f (stream f.receiver.topic (f.receiver.seq + 1)) (omega (arith, pos)),
        )
    Step-Balanced n {v} (respond before after f k at used fits) h =
        waits-Balanced v before after f k at h
    Step-Balanced n {v} (hang_up before after f at) h = waits-Balanced v before after f 0 at h
    Step-Balanced n {v} (pick before after f raw rest at on free full) h =
        let f' : Feed = record f { receiver = record f.receiver { out = rest }; hand = some raw } in
        let out : total here f.receiver.out ≡ here raw + total here rest = ap (total here) full in
        let none_in : hand_here f.hand ≡ 0 = ap hand_here free in
        omega (
          arith,
          h,
          out,
          none_in,
          replaced feed_here v.feeds before after f f' at,
          replaced received_by v.feeds before after f f' at,
        )
    Step-Balanced n {v} (put before after f raw at full room) h =
        let f' : Feed = record f { hand = none } in
        let one_in : hand_here f.hand ≡ here raw = ap hand_here full in
        omega (
          arith,
          h,
          one_in,
          replaced feed_here v.feeds before after f f' at,
          replaced received_by v.feeds before after f f' at,
          total-append here v.events (raw ∷ []),
        )
    Step-Balanced n {v} (quit before after f raw at full over) h =
        let f' : Feed = record f { hand = none; stopped = true } in
        let one_in : hand_here f.hand ≡ here raw = ap hand_here full in
        omega (
          arith,
          h,
          one_in,
          replaced feed_here v.feeds before after f f' at,
          replaced received_by v.feeds before after f f' at,
        )
    Step-Balanced n {v} (take before after raw rest at full) h =
        let es : total here v.events ≡ here raw + total here rest = ap (total here) full in
        omega (arith, h, es, replaced task_here v.workers before after idle (fetching raw) at)
    Step-Balanced n {v} (leave before after at over) h = omega (
      arith,
      h,
      middle task_here v.workers before after idle at,
      total-append task_here before after,
    )
    Step-Balanced n {v} (work before after t at) h =
        let t' = (advance s g src parse unmarshal t v.shared).0 in
        let same : task_here t' ≡ task_here t =
          ap hand_here (carried-advance s g src parse unmarshal t v.shared) in
        omega (arith, h, same, replaced task_here v.workers before after t t' at)
    Step-Balanced n {v} (abandon before after t raw at waits over) h =
        let same : task_here t ≡ here raw = ap hand_here (carried-waits_on t raw waits) in
        omega (arith, h, same, replaced task_here v.workers before after t idle at)
    Step-Balanced n {v} (acknowledge before after raw slots at) h =
        omega (arith, h, replaced task_here v.workers before after (acking raw) idle at)
    Step-Balanced n {v} (flush l st same) h =
        let kept : total report_here l.reports ≡ total report_here v.log.reports =
          ap (total report_here) same in
        omega (arith, h, kept)
    Step-Balanced n cancel h = h

    fresh_feeds :
        (n : ℕ) (topics : List String)
        → (total feed_here (map (new_feed n) topics) ≡ 0)
          × (total received_by (map (new_feed n) topics) ≡ 0)
    fresh_feeds n [] = (refl, refl)
    fresh_feeds n (t ∷ ts) = let (a, b) = fresh_feeds n ts in (omega (arith, a), ground (arith, b))

    idle_workers : (count : ℕ) → total (λ (t : Task P). task_here t) (replicate count idle) ≡ 0
    unfolding carried
    idle_workers zero = refl
    idle_workers (suc n) = omega (arith, idle_workers n)

    -- However often the event was received, it stands as often somewhere.
    pub Reach-Balanced :
        (batch_size : ℕ) (topics : List String) (count : ℕ) (shared : Shared Sch N s)
        (table : Pending) {v : Service Sch N s}
        → Reach s g src parse unmarshal stream batch_size topics count shared table v
        → Balanced v
    Reach-Balanced n topics count shared table (begin d) =
        let (a, b) = fresh_feeds n topics in omega (arith, a, b, idle_workers count)
    Reach-Balanced n topics count shared table (next r st) =
        Step-Balanced n st (Reach-Balanced n topics count shared table r)
