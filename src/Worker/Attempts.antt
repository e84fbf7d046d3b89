-- ===== src/Worker/Attempts.antt =====
-- Attempts of `retry` that succeed before the context is cancelled, of any function and of the handler.
use pubsub_event_processor.Common.{
  ℕ, ◌≡◌, ◌≢◌, refl, ◌⊎◌, inl, inr, Option, none, some, List, [], ◌∷◌, Result, ok, err, Error,
  arith, Option-cases, Result-cases, String,
}
use pubsub_event_processor.Replay.Cursor.{Bytes}
use pubsub_event_processor.Event.{DecodedEvent}
use pubsub_event_processor.Worker.{
  Ctx, live, cancelled, cancelled_waiting, Outcome, succeeded, abandoned, trying, next_delay,
  retry_from, RawEvent, decoded_event, try_handler,
}

pub Outcome-cases :
    {A : Type 0} (o : Outcome A) → ((a : A) × (o ≡ succeeded a)) ⊎ ((a : A) → o ≢ succeeded a)
Outcome-cases (succeeded a) = inl (a, refl)
Outcome-cases abandoned = inr (λ a e. cc)
Outcome-cases trying = inr (λ a e. cc)

module _ {Sch P X S : Type 0} (get_schema : String → S → Result (Error X) Sch × S)
    (decode : Sch → Bytes → Result (Error X) P)
    (handle : DecodedEvent P → S → Option (Error X) × S) where
  -- `Succeeds fn cs s a t`: among the attempts of a `retry` that starts in `s`, one of `fn` gives `a` and leaves
  -- `t`, every attempt before it fails, and the context stays live behind each of those.
  pub data Succeeds {A : Type 0} (fn : S → Result (Error X) A × S)
      : List Ctx → S → A → S → Type 0 where
    at_once : {cs : List Ctx} {s t : S} {a : A} → fn s ≡ (ok a, t) → Succeeds fn cs s a t
    after_failure :
        {cs : List Ctx} {s t u : S} {a : A} {x : Error X}
        → fn s ≡ (err x, t)
        → Succeeds fn cs t a u
        → Succeeds fn (live ∷ cs) s a u

  pub retry-Succeeds :
      {A : Type 0} (fn : S → Result (Error X) A × S) (cs : List Ctx) (delay : ℕ) (s : S) (a : A)
      → (retry_from fn cs delay s).0 ≡ succeeded a
      → Succeeds fn cs s a (retry_from fn cs delay s).1
  unfolding retry_from
  retry-Succeeds fn [] delay s a e = elim (Result-cases (fn s).0) [
    | inl (b, good) ↦ rw (good, retry_from) (at_once (ground arith))
    | inr (x, bad) ↦ absurd (ground arith)
  ]
  retry-Succeeds fn (cancelled ∷ cs) delay s a e = elim (Result-cases (fn s).0) [
    | inl (b, good) ↦ rw (good, retry_from) (at_once (ground arith))
    | inr (x, bad) ↦ absurd (ground arith)
  ]
  retry-Succeeds fn (cancelled_waiting ∷ cs) delay s a e = elim (Result-cases (fn s).0) [
    | inl (b, good) ↦ rw (good, retry_from) (at_once (ground arith))
    | inr (x, bad) ↦ absurd (ground arith)
  ]
  retry-Succeeds fn (live ∷ cs) delay s a e = elim (Result-cases (fn s).0) [
    | inl (b, good) ↦ rw (good, retry_from) (at_once (ground arith))
    | inr (x, bad) ↦
        let rest = retry-Succeeds fn cs (next_delay delay) (fn s).1 a (ground arith) in
        rw (bad, retry_from) (after_failure {x = x} (ground arith) rest)
  ]

  pub Succeeds-retry :
      {A : Type 0} (fn : S → Result (Error X) A × S) (cs : List Ctx) (delay : ℕ) (s t : S) (a : A)
      → Succeeds fn cs s a t
      → ((retry_from fn cs delay s).0 ≡ succeeded a) × ((retry_from fn cs delay s).1 ≡ t)
  unfolding retry_from
  Succeeds-retry fn [] delay s t a (at_once e) = ground arith
  Succeeds-retry fn (c ∷ cs) delay s t a (at_once e) = ground arith
  Succeeds-retry fn (live ∷ cs) delay s t a (after_failure {t = u} e h) =
      ground (arith, Succeeds-retry fn cs (next_delay delay) u t a h)

  -- The same of the handler, which succeeds by returning nil.
  pub data Handles (e : DecodedEvent P) : List Ctx → S → S → Type 0 where
    handled : {cs : List Ctx} {s t : S} → handle e s ≡ (none, t) → Handles e cs s t
    after_error :
        {cs : List Ctx} {s t u : S} {x : Error X}
        → handle e s ≡ (some x, t)
        → Handles e cs t u
        → Handles e (live ∷ cs) s u

  pub Succeeds-Handles :
      (raw : RawEvent) (payload : P) (cs : List Ctx) (s t : S) (u : Unit {0})
      → Succeeds (try_handler get_schema decode handle raw payload) cs s u t
      → Handles (decoded_event raw payload) cs s t
  unfolding try_handler
  Succeeds-Handles raw payload cs s t u (at_once e) =
      elim (Option-cases (handle (decoded_event raw payload) s).0) [
        | inl good ↦ handled (ground arith)
        | inr (x, bad) ↦ absurd (ground arith)
      ]
  Succeeds-Handles raw payload (live ∷ cs) s t u (after_failure {t = v} e h) =
      elim (Option-cases (handle (decoded_event raw payload) s).0) [
        | inl good ↦ absurd (ground arith)
        | inr (x, bad) ↦
            let failed : handle (decoded_event raw payload) s ≡ (some x, v) = ground arith in
            after_error failed (Succeeds-Handles raw payload cs v t u h)
      ]

  pub Handles-Succeeds :
      (raw : RawEvent) (payload : P) (cs : List Ctx) (s t : S)
      → Handles (decoded_event raw payload) cs s t
      → Succeeds (try_handler get_schema decode handle raw payload) cs s tt t
  unfolding try_handler
  Handles-Succeeds raw payload cs s t (handled e) = at_once (ground arith)
  Handles-Succeeds raw payload (live ∷ cs) s t (after_error {t = v} {x = x} e h) =
      let failed : try_handler get_schema decode handle raw payload s ≡ (err x, v) = ground arith in
      after_failure failed (Handles-Succeeds raw payload cs v t h)
