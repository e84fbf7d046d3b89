-- ===== src/Service/Drains/Nearer.antt =====
-- A step that brings the running service nearer to holding no event.
use pubsub_event_processor.Common.{
  ℕ, ◌+◌, ◌%◌, ◌^◌, ◌≤◌, ◌<◌, String, ◌≡◌, refl, ap, subst, none, some, List, [], ◌∷◌, ◌++◌, Result,
  Error, arith, total, length, length-append, false, All, All-after, ◌⊎◌, inl, inr, dec_le,
  Option-cases, ◌∙◌,
}
use pubsub_event_processor.Replay.Cursor.{Bytes}
use pubsub_event_processor.Replay.Invariant.{IsPosition}
use pubsub_event_processor.Event.Services.{Services}
use pubsub_event_processor.Pipeline.{Wiring}
use pubsub_event_processor.Subscriber.Stream.{ConsumerEvent, emit}
use pubsub_event_processor.Worker.{RawEvent}
use pubsub_event_processor.Worker.Tasks.{
  Task, idle, fetching, fetch_failed, acking, seeing, storing, sending, marking, handle_failed,
  advance,
}
use pubsub_event_processor.Service.Places.{received_by}
use pubsub_event_processor.Service.Ranks.{
  rank, held, feed_rank, distance, IsResponsive, total-split, total-replaced, advance_nearer,
}
use pubsub_event_processor.Service.{
  Feed, Service, Step, receive_next, receive, pick, put, take, work, acknowledge,
}
use pubsub_event_processor.Service.Drains.{IsOn, Fits, Running}

acking-cases :
    {P : Type 0} (t : Task P) → 1 ≤ rank t → ((raw : RawEvent) × (t ≡ acking raw)) ⊎ (2 ≤ rank t)
acking-cases idle low = absurd (omega (arith, low))
acking-cases (acking raw) low = inl (raw, refl)
acking-cases (marking raw p) low = inr (omega arith)
acking-cases (sending raw p) low = inr (omega arith)
acking-cases (storing raw p) low = inr (omega arith)
acking-cases (seeing raw p) low = inr (omega arith)
acking-cases (handle_failed raw p) low = inr (omega arith)
acking-cases (fetching raw) low = inr (omega arith)
acking-cases (fetch_failed raw) low = inr (omega arith)

pub idle_of_rank : {P : Type 0} (t : Task P) → rank t ≡ 0 → t ≡ idle
idle_of_rank idle e = refl
idle_of_rank (acking raw) e = absurd (omega (arith, e))
idle_of_rank (marking raw p) e = absurd (omega (arith, e))
idle_of_rank (sending raw p) e = absurd (omega (arith, e))
idle_of_rank (storing raw p) e = absurd (omega (arith, e))
idle_of_rank (seeing raw p) e = absurd (omega (arith, e))
idle_of_rank (handle_failed raw p) e = absurd (omega (arith, e))
idle_of_rank (fetching raw) e = absurd (omega (arith, e))
idle_of_rank (fetch_failed raw) e = absurd (omega (arith, e))

pub List-cases : {A : Type 0} (l : List A) → (l ≡ []) ⊎ ((x : A) × (xs : List A) × (l ≡ x ∷ xs))
List-cases [] = inl refl
List-cases (x ∷ xs) = inr (x, xs, refl)

module _ {P Sch N : Type 0} (s : Services P) (g : Wiring)
    (src : String → N → Result (Error s.E) String × N) (parse : String → Result s.E Sch)
    (unmarshal : Sch → Bytes → Result s.E P) (stream : String → ℕ → ConsumerEvent) (batch_size : ℕ)
    (topics : List String) (count : ℕ) where
  -- A step after which the service is nearer to holding no event.
  abbrev pub Nearer : Service Sch N s → Type 0
  Nearer v =
      (w : Service Sch N s) × Step s g src parse unmarshal stream batch_size v w
      × (distance w < distance v)
      × (w.is_cancelled ≡ v.is_cancelled)
      × ((topic : String) (k : ℕ)
          → total (received_by topic k) v.feeds ≤ total (received_by topic k) w.feeds)

  worker-Nearer :
      (v : Service Sch N s) → IsResponsive s g src parse → 1 ≤ total rank v.workers → Nearer v
  worker-Nearer v h low =
      let (before, after, t, at, one) = total-split rank v.workers low in
      elim (acking-cases t one) [
        | inl (raw, e) ↦
            let at' : v.workers ≡ before ++ acking raw ∷ after =
              at ∙ ap (λ x. before ++ x ∷ after) e in
            (
              _,
              acknowledge before after raw [] at',
              omega (arith, total-replaced rank v.workers before after (acking raw) idle at'),
              refl,
              λ topic k. omega arith,
            )
        | inr two ↦
            let t' = (advance s g src parse unmarshal t v.shared).0 in
            (
              _,
              work before after t at,
              omega (
                arith,
                total-replaced rank v.workers before after t t' at,
                advance_nearer s g src parse unmarshal t v.shared h two,
              ),
              refl,
              λ topic k. omega arith,
            )
      ]

  take-Nearer :
      (v : Service Sch N s) (raw : RawEvent) (rest : List RawEvent)
      → 1 ≤ length v.workers
      → total rank v.workers ≡ 0
      → v.events ≡ raw ∷ rest
      → Nearer v
  take-Nearer v raw rest some_there free full = elim (List-cases v.workers) [
    | inl e ↦ absurd (omega (arith, some_there, ap length e))
    | inr (t, ts, e) ↦
        let at : v.workers ≡ [] ++ idle ∷ ts =
          e ∙ ap (λ x. x ∷ ts) (idle_of_rank t (omega (arith, free, ap (total rank) e))) in
        (
          _,
          take [] ts raw rest at full,
          omega (arith, ap (total rank) at, ap length full),
          refl,
          λ topic k. omega arith,
        )
  ]

  received_rank :
      (f : Feed)
      → 1 ≤ f.waiting
      → feed_rank (receive_next s g src parse unmarshal stream f) < feed_rank f
  unfolding emit
  received_rank f some_there = omega (arith, some_there, length-append f.receiver.out _)

  received_by_more :
      (topic : String) (k : ℕ) (f : Feed)
      → IsPosition (f.receiver.seq + 1)
      → received_by topic k f ≤ received_by topic k (receive_next s g src parse unmarshal stream f)
  unfolding emit
  received_by_more topic k f pos =
      let exact : (f.receiver.seq + 1) % 2 ^ 64 ≡ f.receiver.seq + 1 = omega (arith, pos) in
      rw exact (ground arith)

  positions : (f : Feed) → Fits f → 1 ≤ f.waiting → IsPosition (f.receiver.seq + 1)
  positions f fits some_there = (omega arith, omega (arith, fits, some_there))

  feed-Nearer :
      (v : Service Sch N s)
      → 1 ≤ batch_size
      → All IsOn v.feeds
      → All Fits v.feeds
      → v.events ≡ []
      → 1 ≤ total feed_rank v.feeds
      → Nearer v
  feed-Nearer v big on fits none_there low =
      let (before, after, f, at, one) = total-split feed_rank v.feeds low in
      elim (Option-cases f.hand) [
        | inr (raw, full) ↦
            let f' : Feed = record f { hand = none } in
            (
              _,
              put before after f raw at full (omega (arith, big, ap length none_there)),
              omega (
                arith,
                total-replaced feed_rank v.feeds before after f f' at,
                ap held full,
                length-append v.events (raw ∷ []),
              ),
              refl,
              λ topic k.
                  omega (arith, total-replaced (received_by topic k) v.feeds before after f f' at),
            )
        | inl free ↦ elim (List-cases f.receiver.out) [
          | inl e ↦
              let some_there : 1 ≤ f.waiting = omega (arith, one, ap held free, ap length e) in
              let f' = receive_next s g src parse unmarshal stream f in
              let pos : IsPosition (f.receiver.seq + 1) =
                positions f (All-after Fits before (f ∷ after) (subst (All Fits) at fits)).0
                  some_there in
              (
                _,
                receive before after f at some_there (omega (arith, ap length e)) pos,
                omega (
                  arith,
                  total-replaced feed_rank v.feeds before after f f' at,
                  received_rank f some_there,
                ),
                refl,
                λ topic k. omega (
                  arith,
                  total-replaced (received_by topic k) v.feeds before after f f' at,
                  received_by_more topic k f pos,
                ),
              )
          | inr (raw, rest, e) ↦
              let f' : Feed = record f {
                receiver = record f.receiver { out = rest };
                hand = some raw;
              } in
              let fs : All IsOn (before ++ f ∷ after) = subst (All IsOn) at on in
              (
                _,
                pick before after f raw rest at (All-after IsOn before (f ∷ after) fs).0 free e,
                omega (
                  arith,
                  total-replaced feed_rank v.feeds before after f f' at,
                  ap held free,
                  ap length e,
                ),
                refl,
                λ topic k.
                    omega
                      (arith, total-replaced (received_by topic k) v.feeds before after f f' at),
              )
        ]
      ]

  pub some-Nearer :
      (v : Service Sch N s)
      → IsResponsive s g src parse
      → 1 ≤ batch_size
      → 1 ≤ count
      → Running s g src parse unmarshal stream batch_size topics count v
      → v.is_cancelled ≡ false
      → 1 ≤ distance v
      → Nearer v
  some-Nearer v h big staffed running up low = elim (dec_le 1 (total rank v.workers)) [
    | yes busy ↦ worker-Nearer v h busy
    | no free ↦ elim (List-cases v.events) [
      | inr (raw, rest, full) ↦
          take-Nearer v raw rest (omega (arith, staffed, running.staff up)) (omega (arith, free))
            full
      | inl e ↦
          feed-Nearer v big (running.on up) running.fits e (omega (arith, low, free, ap length e))
    ]
  ]
