-- ===== src/Service/Lengths.antt =====
-- The lengths of what the running service holds, from step to step.
use pubsub_event_processor.Common.{
  ℕ, suc, ◌+◌, ◌*◌, ◌≤◌, String, ◌≡◌, ap, subst, List, [], ◌∷◌, ◌++◌, Result, Error, arith, none,
  some, All, All-after, All-replace, length, length-append, true,
}
use pubsub_event_processor.Replay.Cursor.{Bytes}
use pubsub_event_processor.Event.Services.{Services}
use pubsub_event_processor.Pipeline.{Wiring}
use pubsub_event_processor.Subscriber.Stream.{ConsumerEvent, emit}
use pubsub_event_processor.Worker.Tasks.{idle, fetching, acking, advance}
use pubsub_event_processor.Service.{
  out_buffer, Feed, Service, receive_next, Step, respond, hang_up, receive, pick, put, quit, take,
  leave, work, abandon, acknowledge, flush, cancel,
}

abbrev pub IsRoomy : Feed → Type 0
IsRoomy f = length f.receiver.out ≤ out_buffer

abbrev pub IsWithin : ℕ → Feed → Type 0
IsWithin limit f = f.waiting ≤ limit

-- A feed is replaced by one of which the property holds if it held of the feed.
pub replaced-All :
    (Q : Feed → Type 0) (l before after : List Feed) (f f' : Feed)
    → l ≡ before ++ f ∷ after
    → (Q f → Q f')
    → All Q l
    → All Q (before ++ f' ∷ after)
replaced-All Q l before after f f' at keep h =
    let fs : All Q (before ++ f ∷ after) = subst (All Q) at h in
    All-replace Q before after f f' fs (keep (All-after Q before (f ∷ after) fs).0)

-- The lengths after one entry is replaced.
pub length-replaced :
    {A : Type 0} (l before after : List A) (x y : A)
    → l ≡ before ++ x ∷ after
    → length (before ++ y ∷ after) ≡ length l
length-replaced l before after x y e =
    omega (arith, length-append before (y ∷ after), length-append before (x ∷ after), ap length e)

module _ {P Sch N : Type 0} (s : Services P) (g : Wiring)
    (src : String → N → Result (Error s.E) String × N) (parse : String → Result s.E Sch)
    (unmarshal : Sch → Bytes → Result s.E P) (stream : String → ℕ → ConsumerEvent) (batch_size : ℕ)
    (topics : List String) (count : ℕ) where
  -- The size of the response that a step receives, if it is one that does.
  abbrev pub response_of :
      {v w : Service Sch N s} → Step s g src parse unmarshal stream batch_size v w → ℕ
  response_of (respond before after f n at used fits) = n
  response_of _ = 0

  pub record Bounded (limit : ℕ) (v : Service Sch N s) : Type 0 where
    pub waits : All (IsWithin limit) v.feeds
    pub outs : All IsRoomy v.feeds
    pub feeds : length v.feeds ≡ length topics
    pub events : length v.events ≤ batch_size * 2
    pub workers : length v.workers ≤ count

  pub Step-Bounded :
      (limit : ℕ) {v w : Service Sch N s} (st : Step s g src parse unmarshal stream batch_size v w)
      → response_of st ≤ limit
      → Bounded limit v
      → Bounded limit w
  unfolding emit
  Step-Bounded limit {v} (respond before after f n at used fits) small h =
      let f' : Feed = record f { waiting = n } in
      record {
        waits = replaced-All (IsWithin limit) v.feeds before after f f' at (λ q. small) h.waits;
        outs = replaced-All IsRoomy v.feeds before after f f' at (λ q. q) h.outs;
        feeds = omega (arith, h.feeds, length-replaced v.feeds before after f f' at);
        events = h.events;
        workers = h.workers;
      }
  Step-Bounded limit {v} (hang_up before after f at) small h =
      let f' : Feed = record f { waiting = 0 } in
      record {
        waits =
            replaced-All (IsWithin limit) v.feeds before after f f' at (λ q. omega arith) h.waits;
        outs = replaced-All IsRoomy v.feeds before after f f' at (λ q. q) h.outs;
        feeds = omega (arith, h.feeds, length-replaced v.feeds before after f f' at);
        events = h.events;
        workers = h.workers;
      }
  Step-Bounded limit {v} (receive before after f at some_there room pos) small h =
      let fs : All IsRoomy (before ++ f ∷ after) = subst (All IsRoomy) at h.outs in
      let one : length (receive_next s g src parse unmarshal stream f).receiver.out
          ≡ length f.receiver.out + 1 =
        length-append f.receiver.out _ in
      record {
        waits =
            replaced-All (IsWithin limit) v.feeds before after f _ at (λ q. omega (arith, q))
              h.waits;
        outs = All-replace IsRoomy before after f _ fs (omega (arith, room, one));
        feeds = omega (
          arith,
          h.feeds,
          length-replaced v.feeds before after f (receive_next s g src parse unmarshal stream f) at,
        );
        events = h.events;
        workers = h.workers;
      }
  Step-Bounded limit {v} (pick before after f raw rest at on free full) small h =
      let fs : All IsRoomy (before ++ f ∷ after) = subst (All IsRoomy) at h.outs in
      let less : length f.receiver.out ≡ suc (length rest) = ap length full in
      let old = (All-after IsRoomy before (f ∷ after) fs).0 in
      record {
        waits = replaced-All (IsWithin limit) v.feeds before after f _ at (λ q. q) h.waits;
        outs = All-replace IsRoomy before after f _ fs (omega (arith, old, less));
        feeds = omega (
          arith,
          h.feeds,
          length-replaced v.feeds before after f
              (record f { receiver = record f.receiver { out = rest }; hand = some raw }) at,
        );
        events = h.events;
        workers = h.workers;
      }
  Step-Bounded limit {v} (put before after f raw at full room) small h =
      let fs : All IsRoomy (before ++ f ∷ after) = subst (All IsRoomy) at h.outs in
      record {
        waits = replaced-All (IsWithin limit) v.feeds before after f _ at (λ q. q) h.waits;
        outs = All-replace IsRoomy before after f _ fs (All-after IsRoomy before (f ∷ after) fs).0;
        feeds =
            omega (
              arith,
              h.feeds,
              length-replaced v.feeds before after f (record f { hand = none }) at,
            );
        events = omega (arith, room, length-append v.events (raw ∷ []));
        workers = h.workers;
      }
  Step-Bounded limit {v} (quit before after f raw at full over) small h =
      let fs : All IsRoomy (before ++ f ∷ after) = subst (All IsRoomy) at h.outs in
      record {
        waits = replaced-All (IsWithin limit) v.feeds before after f _ at (λ q. q) h.waits;
        outs = All-replace IsRoomy before after f _ fs (All-after IsRoomy before (f ∷ after) fs).0;
        feeds = omega (
          arith,
          h.feeds,
          length-replaced v.feeds before after f (record f { hand = none; stopped = true }) at,
        );
        events = h.events;
        workers = h.workers;
      }
  Step-Bounded limit {v} (take before after raw rest at full) small h = record {
    waits = h.waits;
    outs = h.outs;
    feeds = h.feeds;
    events = omega (arith, h.events, ap length full);
    workers =
        omega (arith, h.workers, length-replaced v.workers before after idle (fetching raw) at);
  }
  Step-Bounded limit {v} (leave before after at over) small h = record {
    waits = h.waits;
    outs = h.outs;
    feeds = h.feeds;
    events = h.events;
    workers = omega (
      arith,
      h.workers,
      ap length at,
      length-append before after,
      length-append before (idle ∷ after),
    );
  }
  Step-Bounded limit {v} (work before after t at) small h = record {
    waits = h.waits;
    outs = h.outs;
    feeds = h.feeds;
    events = h.events;
    workers = omega (
      arith,
      h.workers,
      length-replaced v.workers before after t (advance s g src parse unmarshal t v.shared).0 at,
    );
  }
  Step-Bounded limit {v} (abandon before after t raw at waits over) small h = record {
    waits = h.waits;
    outs = h.outs;
    feeds = h.feeds;
    events = h.events;
    workers = omega (arith, h.workers, length-replaced v.workers before after t idle at);
  }
  Step-Bounded limit {v} (acknowledge before after raw slots at) small h = record {
    waits = h.waits;
    outs = h.outs;
    feeds = h.feeds;
    events = h.events;
    workers = omega (arith, h.workers, length-replaced v.workers before after (acking raw) idle at);
  }
  Step-Bounded limit (flush l st same) small h = record {
    waits = h.waits;
    outs = h.outs;
    feeds = h.feeds;
    events = h.events;
    workers = h.workers;
  }
  Step-Bounded limit cancel small h = record {
    waits = h.waits;
    outs = h.outs;
    feeds = h.feeds;
    events = h.events;
    workers = h.workers;
  }
