-- ===== src/Service/Ranks.antt =====
-- How far the events in the running service are from their acknowledgements.
use pubsub_event_processor.Common.{
  ℕ, ◌+◌, ◌*◌, ◌≤◌, ◌<◌, String, ◌≡◌, refl, ap, none, some, Option, List, [], ◌∷◌, ◌++◌, Result, ok,
  Error, arith, total, total-append, length, Bool-cases, Result-cases, inl, inr, dec_le,
}
use pubsub_event_processor.Replay.Cursor.{Bytes}
use pubsub_event_processor.Event.Services.{Services}
use pubsub_event_processor.Schema.{Cache, get, decode}
use pubsub_event_processor.Event.{DecodedEvent}
use pubsub_event_processor.Pipeline.{Wiring, State, persist_step, forward_step, seen_step}
use pubsub_event_processor.Worker.{RawEvent, decoded_event}
use pubsub_event_processor.Worker.Tasks.{
  Task, idle, fetching, fetch_failed, acking, seeing, storing, sending, marking, handle_failed,
  Shared, advance, handle_start,
}
use pubsub_event_processor.Service.{Feed, Service}

-- Steps of a worker until it is free.
abbrev pub rank : {P : Type 0} → Task P → ℕ
rank idle = 0
rank (acking raw) = 1
rank (marking raw payload) = 2
rank (sending raw payload) = 3
rank (storing raw payload) = 4
rank (seeing raw payload) = 5
rank (handle_failed raw payload) = 6
rank (fetching raw) = 6
rank (fetch_failed raw) = 7

abbrev pub held : {A : Type 0} → Option A → ℕ
held none = 0
held (some a) = 1

abbrev pub feed_rank : Feed → ℕ
feed_rank f = f.waiting * 10 + length f.receiver.out * 9 + held f.hand * 8

-- Steps of the service until it holds no event.
abbrev pub distance : {P Sch N : Type 0} {s : Services P} → Service Sch N s → ℕ
distance v = total feed_rank v.feeds + length v.events * 7 + total rank v.workers

-- Every call of a service is answered without an error, and every schema is there.
pub record IsResponsive {P Sch N : Type 0} (s : Services P) (g : Wiring)
    (src : String → N → Result (Error s.E) String × N) (parse : String → Result s.E Sch)
    : Type 0 where
  pub stores : (e : DecodedEvent P) (st : State s) → (persist_step s e st).0 ≡ none
  pub forwards : (e : DecodedEvent P) (st : State s) → (forward_step s g.kafka_topic e st).0 ≡ none
  pub fetches : (id : String) (c : Cache Sch × N) → (sch : Sch) × ((get src parse id c).0 ≡ ok sch)

-- A sum over a list that is not 0 has an entry that is not 0.
pub total-split :
    {A : Type 0} (f : A → ℕ) (xs : List A)
    → 1 ≤ total f xs
    → (before after : List A) × (x : A) × (xs ≡ before ++ x ∷ after) × (1 ≤ f x)
total-split f [] low = absurd (omega (arith, low))
total-split f (x ∷ xs) low = elim (dec_le 1 (f x)) [
  | yes h ↦ ([], xs, x, refl, h)
  | no h ↦
      let (before, after, y, e, k) = total-split f xs (omega (arith, low, h)) in
      (x ∷ before, after, y, ap (λ l. x ∷ l) e, k)
]

-- The sum after one entry is replaced.
pub total-replaced :
    {A : Type 0} (f : A → ℕ) (l before after : List A) (x y : A)
    → l ≡ before ++ x ∷ after
    → total f (before ++ y ∷ after) + f x ≡ total f l + f y
total-replaced f l before after x y e =
    omega
      (arith, total-append f before (y ∷ after), total-append f before (x ∷ after), ap (total f) e)

module _ {P Sch N : Type 0} (s : Services P) (g : Wiring)
    (src : String → N → Result (Error s.E) String × N) (parse : String → Result s.E Sch)
    (unmarshal : Sch → Bytes → Result s.E P) where
  start_rank : (raw : RawEvent) (p : P) → rank (handle_start s g src parse unmarshal raw p) ≤ 5
  start_rank raw p = ground (arith, Bool-cases g.redis_enabled)

  -- A worker that holds an event gets nearer to its end with every step, where the services answer.
  pub advance_nearer :
      (t : Task P) (sh : Shared Sch N s)
      → IsResponsive s g src parse
      → 2 ≤ rank t
      → rank (advance s g src parse unmarshal t sh).0 < rank t
  unfolding advance
  advance_nearer idle sh h low = absurd (omega (arith, low))
  advance_nearer (acking raw) sh h low = absurd (omega (arith, low))
  advance_nearer (fetch_failed raw) sh h low = omega arith
  advance_nearer (handle_failed raw p) sh h low = omega (arith, start_rank raw p)
  advance_nearer (marking raw p) sh h low = omega arith
  advance_nearer (sending raw p) sh h low =
      ground (arith, h.forwards (decoded_event raw p) sh.pipeline, Bool-cases g.redis_enabled)
  advance_nearer (storing raw p) sh h low = ground (
    arith,
    h.stores (decoded_event raw p) sh.pipeline,
    Bool-cases g.redis_enabled,
    Bool-cases g.kafka_enabled,
  )
  advance_nearer (seeing raw p) sh h low =
      elim (Result-cases (seen_step s g.key_prefix raw.event_id sh.pipeline).0) [
        | inl (b, e) ↦ ground (arith, Bool-cases b)
        | inr (x, e) ↦ ground arith
      ]
  advance_nearer (fetching raw) sh h low =
      let (sch, e) = h.fetches raw.schema_id (sh.schemas, sh.source) in
      elim (Result-cases (decode unmarshal (some sch) raw.payload)) [
        | inl (p, d) ↦ ground (arith, start_rank raw p)
        | inr (x, d) ↦ ground arith
      ]
