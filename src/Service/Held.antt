-- ===== src/Service/Held.antt =====
-- The events that are on their way, beside those that the receivers received.
use pubsub_event_processor.Common.{
  ℕ, zero, suc, ◌+◌, ◌%◌, ◌^◌, String, ◌≡◌, refl, sym, ◌∙◌, subst, some, List, [], ◌∷◌, ◌++◌, map,
  Result, Error, arith, All, All-append, All-before, All-after, All-replace, replicate,
}
use pubsub_event_processor.Replay.Cursor.{Bytes}
use pubsub_event_processor.Replay.Invariant.{IsPosition}
use pubsub_event_processor.Replay.Committer.{Pending}
use pubsub_event_processor.Event.Services.{Services}
use pubsub_event_processor.Pipeline.{Wiring}
use pubsub_event_processor.Subscriber.Stream.{ConsumerEvent, emit}
use pubsub_event_processor.Worker.{RawEvent}
use pubsub_event_processor.Worker.Tasks.{Task, idle, Shared}
use pubsub_event_processor.Service.Carried.{carried-advance}
use pubsub_event_processor.Service.{
  Feed, new_feed, Service, carried, raw_of, receive_next, Step, respond, hang_up, receive, pick,
  put, quit, take, leave, work, abandon, acknowledge, flush, cancel, start,
}

module _ {P Sch N : Type 0} (s : Services P) (g : Wiring)
    (src : String → N → Result (Error s.E) String × N) (parse : String → Result s.E Sch)
    (unmarshal : Sch → Bytes → Result s.E P) (stream : String → ℕ → ConsumerEvent) where
  -- The event is the one that was received at its position of its topic.
  abbrev pub IsReal : RawEvent → Type 0
  IsReal raw = IsPosition raw.seq × (raw ≡ raw_of s g src parse unmarshal stream raw.topic raw.seq)

  abbrev pub IsRealFeed : Feed → Type 0
  IsRealFeed f = All IsReal f.receiver.out × ((raw : RawEvent) → f.hand ≡ some raw → IsReal raw)

  abbrev pub IsRealTask : Task P → Type 0
  IsRealTask t = (raw : RawEvent) → carried t ≡ some raw → IsReal raw

  pub record Held (v : Service Sch N s) : Type 0 where
    pub feeds : All IsRealFeed v.feeds
    pub events : All IsReal v.events
    pub workers : All IsRealTask v.workers

  receive-IsRealFeed :
      (f : Feed)
      → IsPosition (f.receiver.seq + 1)
      → IsRealFeed f
      → IsRealFeed (receive_next s g src parse unmarshal stream f)
  unfolding emit
  receive-IsRealFeed f pos (out, hand) =
      let exact : (f.receiver.seq + 1) % 2 ^ 64 ≡ f.receiver.seq + 1 = omega (arith, pos) in
      (All-append IsReal f.receiver.out _ out (rw exact (pos, refl), tt), hand)

  nothing : IsRealTask idle
  unfolding carried
  nothing raw e = absurd (cc)

  waits-Held :
      (v : Service Sch N s) (before after : List Feed) (f : Feed) (k : ℕ)
      → v.feeds ≡ before ++ f ∷ after
      → Held v
      → Held (record v { feeds = before ++ record f { waiting = k } ∷ after })
  waits-Held v before after f k at h =
      let fs : All IsRealFeed (before ++ f ∷ after) = subst (All IsRealFeed) at h.feeds in
      record {
        feeds =
            All-replace IsRealFeed before after f _ fs
              (All-after IsRealFeed before (f ∷ after) fs).0;
        events = h.events;
        workers = h.workers;
      }

  pub Step-Held :
      (batch_size : ℕ) {v w : Service Sch N s}
      → Step s g src parse unmarshal stream batch_size v w
      → Held v
      → Held w
  unfolding carried
  Step-Held n {v} (receive before after f at some_there room pos) h =
      let fs : All IsRealFeed (before ++ f ∷ after) = subst (All IsRealFeed) at h.feeds in
      record {
        feeds =
            All-replace IsRealFeed before after f _ fs
              (receive-IsRealFeed f pos (All-after IsRealFeed before (f ∷ after) fs).0);
        events = h.events;
        workers = h.workers;
      }
  Step-Held n {v} (respond before after f k at used fits) h = waits-Held v before after f k at h
  Step-Held n {v} (hang_up before after f at) h = waits-Held v before after f 0 at h
  Step-Held n {v} (pick before after f raw rest at on free full) h =
      let fs : All IsRealFeed (before ++ f ∷ after) = subst (All IsRealFeed) at h.feeds in
      let out : All IsReal (raw ∷ rest) =
        subst (All IsReal) full (All-after IsRealFeed before (f ∷ after) fs).0.0 in
      record {
        feeds =
            All-replace IsRealFeed before after f _ fs
              (out.1, λ r e. subst (IsReal) (ground arith) out.0);
        events = h.events;
        workers = h.workers;
      }
  Step-Held n {v} (put before after f raw at full room) h =
      let fs : All IsRealFeed (before ++ f ∷ after) = subst (All IsRealFeed) at h.feeds in
      let old = (All-after IsRealFeed before (f ∷ after) fs).0 in
      record {
        feeds = All-replace IsRealFeed before after f _ fs (old.0, λ r e. absurd (cc));
        events = All-append IsReal v.events _ h.events (old.1 raw full, tt);
        workers = h.workers;
      }
  Step-Held n {v} (quit before after f raw at full over) h =
      let fs : All IsRealFeed (before ++ f ∷ after) = subst (All IsRealFeed) at h.feeds in
      let old = (All-after IsRealFeed before (f ∷ after) fs).0 in
      record {
        feeds = All-replace IsRealFeed before after f _ fs (old.0, λ r e. absurd (cc));
        events = h.events;
        workers = h.workers;
      }
  Step-Held n {v} (take before after raw rest at full) h =
      let es : All IsReal (raw ∷ rest) = subst (All IsReal) full h.events in
      record {
        feeds = h.feeds;
        events = es.1;
        workers =
            All-replace IsRealTask before after idle _ (subst (All IsRealTask) at h.workers)
              (λ r e. subst (IsReal) (ground arith) es.0);
      }
  Step-Held n {v} (leave before after at over) h =
      let ts : All IsRealTask (before ++ idle ∷ after) = subst (All IsRealTask) at h.workers in
      record {
        feeds = h.feeds;
        events = h.events;
        workers =
            All-append IsRealTask before after (All-before IsRealTask before (idle ∷ after) ts)
              (All-after IsRealTask before (idle ∷ after) ts).1;
      }
  Step-Held n {v} (work before after t at) h =
      let ts : All IsRealTask (before ++ t ∷ after) = subst (All IsRealTask) at h.workers in
      record {
        feeds = h.feeds;
        events = h.events;
        workers = All-replace IsRealTask before after t _ ts (λ r e.
            (All-after IsRealTask before (t ∷ after) ts).0 r
              (sym (carried-advance s g src parse unmarshal t v.shared) ∙ e));
      }
  Step-Held n {v} (abandon before after t raw at w over) h = record {
    feeds = h.feeds;
    events = h.events;
    workers =
        All-replace IsRealTask before after t idle (subst (All IsRealTask) at h.workers) nothing;
  }
  Step-Held n {v} (acknowledge before after raw slots at) h = record {
    feeds = h.feeds;
    events = h.events;
    workers =
        All-replace IsRealTask before after _ idle (subst (All IsRealTask) at h.workers) nothing;
  }
  Step-Held n (flush l st same) h = record {
    feeds = h.feeds;
    events = h.events;
    workers = h.workers;
  }
  Step-Held n cancel h = record { feeds = h.feeds; events = h.events; workers = h.workers }

  new_feeds :
      (batch_size : ℕ) (topics : List String) → All IsRealFeed (map (new_feed batch_size) topics)
  new_feeds n [] = tt
  new_feeds n (t ∷ ts) = ((tt, λ r e. absurd (cc)), new_feeds n ts)

  idle_workers : (count : ℕ) → All IsRealTask (replicate count idle)
  idle_workers zero = tt
  idle_workers (suc n) = (nothing, idle_workers n)

  pub start-Held :
      (batch_size : ℕ) (topics : List String) (count : ℕ) (shared : Shared Sch N s)
      (table : Pending)
      → Held (start s g src parse unmarshal stream batch_size topics count shared table)
  start-Held n topics count shared table = record {
    feeds = new_feeds n topics;
    events = tt;
    workers = idle_workers count;
  }
