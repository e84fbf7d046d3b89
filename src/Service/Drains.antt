-- ===== src/Service/Drains.antt =====
-- The running service moves on, up to the acknowledgement of every event that it holds.
pub mod Nearer
pub mod Empty
use pubsub_event_processor.Common.{
  ℕ, zero, suc, ◌+◌, ◌%◌, ◌^◌, ◌-◌, ◌*◌, ◌≤◌, ◌<◌, String, ◌≡◌, refl, sym, ap, subst, none, some,
  Option, List, [], ◌∷◌, ◌++◌, map, Result, Error, arith, total, length, length-append, replicate,
  true, false, All, All-after, All-replace, ◌⊎◌, inl, inr, dec_le, Option-cases, ◌∙◌,
}
use pubsub_event_processor.Replay.Cursor.{Bytes}
use pubsub_event_processor.Replay.Invariant.{IsPosition}
use pubsub_event_processor.Replay.Committer.{Pending}
use pubsub_event_processor.Event.Services.{Services}
use pubsub_event_processor.Pipeline.{Wiring}
use pubsub_event_processor.Subscriber.Stream.{ConsumerEvent, emit}
use pubsub_event_processor.Worker.{RawEvent}
use pubsub_event_processor.Worker.Tasks.{
  Task, idle, fetching, fetch_failed, acking, seeing, storing, sending, marking, handle_failed,
  Shared, advance,
}
use pubsub_event_processor.Service.Lengths.{length-replaced, replaced-All}
use pubsub_event_processor.Service.Places.{
  here, report_here, hand_here, feed_here, task_here, everywhere, received_by, Reach-Balanced,
}
use pubsub_event_processor.Service.Conserved.{event_in_one_place}
use pubsub_event_processor.Service.Ranks.{
  rank, held, feed_rank, distance, IsResponsive, total-split, total-replaced, advance_nearer,
}
use pubsub_event_processor.Service.{
  Feed, new_feed, Service, carried, receive_next, Step, respond, hang_up, receive, pick, put, quit,
  take, leave, work, abandon, acknowledge, flush, cancel, Reach, begin, next,
}

abbrev pub IsOn : Feed → Type 0
IsOn f = f.stopped ≡ false

-- The positions of the response that is gone through are all free.
abbrev pub Fits : Feed → Type 0
Fits f = f.receiver.seq + f.waiting + 1 < 2 ^ 64

module _ {P Sch N : Type 0} (s : Services P) (g : Wiring)
    (src : String → N → Result (Error s.E) String × N) (parse : String → Result s.E Sch)
    (unmarshal : Sch → Bytes → Result s.E P) (stream : String → ℕ → ConsumerEvent) (batch_size : ℕ)
    (topics : List String) (count : ℕ) where
  -- While the context is not cancelled, every `fanIn` runs and every worker is there.
  pub record Running (v : Service Sch N s) : Type 0 where
    pub on : v.is_cancelled ≡ false → All IsOn v.feeds
    pub staff : v.is_cancelled ≡ false → length v.workers ≡ count
    pub kept : v.is_cancelled ≡ false → v.abandoned ≡ []
    pub fits : All Fits v.feeds

  replaced-IsOn :
      (l before after : List Feed) (f f' : Feed)
      → l ≡ before ++ f ∷ after
      → f'.stopped ≡ f.stopped
      → All IsOn l
      → All IsOn (before ++ f' ∷ after)
  replaced-IsOn l before after f f' at same h =
      let fs : All IsOn (before ++ f ∷ after) = subst (All IsOn) at h in
      All-replace IsOn before after f f' fs (same ∙ (All-after IsOn before (f ∷ after) fs).0)

  received-Fits :
      (f : Feed)
      → IsPosition (f.receiver.seq + 1)
      → 1 ≤ f.waiting
      → Fits f
      → Fits (receive_next s g src parse unmarshal stream f)
  unfolding emit
  received-Fits f pos some_there fits =
      let exact : (f.receiver.seq + 1) % 2 ^ 64 ≡ f.receiver.seq + 1 = omega (arith, pos) in
      rw exact (omega (arith, pos, some_there, fits))

  Step-Running :
      {v w : Service Sch N s}
      → Step s g src parse unmarshal stream batch_size v w
      → Running v
      → Running w
  unfolding emit
  Step-Running {v} (respond before after f n at used fits) h = record {
    on = λ c. replaced-IsOn v.feeds before after f _ at refl (h.on c);
    staff = h.staff;
    kept = h.kept;
    fits = replaced-All Fits v.feeds before after f _ at (λ q. fits) h.fits;
  }
  Step-Running {v} (hang_up before after f at) h = record {
    on = λ c. replaced-IsOn v.feeds before after f _ at refl (h.on c);
    staff = h.staff;
    kept = h.kept;
    fits = replaced-All Fits v.feeds before after f _ at (λ q. omega (arith, q)) h.fits;
  }
  Step-Running {v} (receive before after f at some_there room pos) h = record {
    on = λ c. replaced-IsOn v.feeds before after f _ at refl (h.on c);
    staff = h.staff;
    kept = h.kept;
    fits =
        replaced-All Fits v.feeds before after f _ at (λ q. received-Fits f pos some_there q)
          h.fits;
  }
  Step-Running {v} (pick before after f raw rest at on free full) h = record {
    on = λ c. replaced-IsOn v.feeds before after f _ at refl (h.on c);
    staff = h.staff;
    kept = h.kept;
    fits = replaced-All Fits v.feeds before after f _ at (λ q. q) h.fits;
  }
  Step-Running {v} (put before after f raw at full room) h = record {
    on = λ c. replaced-IsOn v.feeds before after f _ at refl (h.on c);
    staff = h.staff;
    kept = h.kept;
    fits = replaced-All Fits v.feeds before after f _ at (λ q. q) h.fits;
  }
  Step-Running {v} (quit before after f raw at full over) h = record {
    on = λ c. absurd (ground arith);
    staff = h.staff;
    kept = λ c. absurd (ground arith);
    fits = replaced-All Fits v.feeds before after f _ at (λ q. q) h.fits;
  }
  Step-Running {v} (take before after raw rest at full) h = record {
    on = h.on;
    staff = λ c. length-replaced v.workers before after idle (fetching raw) at ∙ h.staff c;
    kept = h.kept;
    fits = h.fits;
  }
  Step-Running (leave before after at over) h = record {
    on = h.on;
    staff = λ c. absurd (ground arith);
    kept = h.kept;
    fits = h.fits;
  }
  Step-Running {v} (work before after t at) h = record {
    on = h.on;
    staff = λ c.
        length-replaced v.workers before after t (advance s g src parse unmarshal t v.shared).0 at
        ∙ h.staff c;
    kept = h.kept;
    fits = h.fits;
  }
  Step-Running {v} (abandon before after t raw at waits over) h = record {
    on = h.on;
    staff = λ c. length-replaced v.workers before after t idle at ∙ h.staff c;
    kept = λ c. absurd (ground arith);
    fits = h.fits;
  }
  Step-Running {v} (acknowledge before after raw slots at) h = record {
    on = h.on;
    staff = λ c. length-replaced v.workers before after (acking raw) idle at ∙ h.staff c;
    kept = h.kept;
    fits = h.fits;
  }
  Step-Running (flush l st same) h = record {
    on = h.on;
    staff = h.staff;
    kept = h.kept;
    fits = h.fits;
  }
  Step-Running cancel h = record {
    on = λ c. absurd (ground arith);
    staff = λ c. absurd (ground arith);
    kept = λ c. absurd (ground arith);
    fits = h.fits;
  }

  start-IsOn : (ts : List String) → All IsOn (map (new_feed batch_size) ts)
  start-IsOn [] = tt
  start-IsOn (t ∷ ts) = (refl, start-IsOn ts)

  start-Fits : (ts : List String) → All Fits (map (new_feed batch_size) ts)
  start-Fits [] = tt
  start-Fits (t ∷ ts) = (omega arith, start-Fits ts)

  start_staff : (n : ℕ) → length (replicate n (let t : Task P = idle in t)) ≡ n
  start_staff zero = refl
  start_staff (suc n) = omega (arith, start_staff n)

  pub Reach-Running :
      (shared : Shared Sch N s) (table : Pending) {v : Service Sch N s}
      → Reach s g src parse unmarshal stream batch_size topics count shared table v
      → Running v
  Reach-Running shared table (begin d) = record {
    on = λ c. start-IsOn topics;
    staff = λ c. start_staff count;
    kept = λ c. refl;
    fits = start-Fits topics;
  }
  Reach-Running shared table (next r st) = Step-Running st (Reach-Running shared table r)
