-- ===== src/Worker/Retry.antt =====
-- The loop of `retry`: its backoff, its end, and what its result says.
use native.Mathlib.Nat.{pow-suc}
use pubsub_event_processor.Common.{
  ℕ, zero, suc, ◌+◌, ◌*◌, ◌^◌, min, ◌≡◌, ap, subst, ◌∙◌, inl, inr, some, List, [], ◌∷◌, ◌++◌,
  Result, ok, err, arith, length, get_elem?, replicate, Result-cases,
}
use pubsub_event_processor.Worker.{
  Ctx, live, cancelled, cancelled_waiting, succeeded, retry_min_delay, retry_max_delay, next_delay,
  retry_from,
}

-- The delay after `n` failures.
abbrev pub backoff : ℕ → ℕ
backoff n = min (retry_min_delay * 2 ^ n) retry_max_delay

backoff-suc : (n : ℕ) → next_delay (backoff n) ≡ backoff (suc n)
backoff-suc n = omega (arith, pow-suc 2 n)

-- The delay `n` rounds after one that waits for `delay`.
later_delay : ℕ → ℕ → ℕ
later_delay delay zero = delay
later_delay delay (suc n) = later_delay (next_delay delay) n

later_delay-backoff : (k n : ℕ) → later_delay (backoff k) n ≡ backoff (k + n)
unfolding later_delay
later_delay-backoff k zero = ap backoff (omega arith)
later_delay-backoff k (suc n) =
    ap (λ d. later_delay d n) (backoff-suc k)
    ∙ later_delay-backoff (suc k) n
    ∙ ap backoff (omega arith)

-- `fn` fails `n` times from a state, and then returns `a`.
pub data SucceedsAfter {A X S : Type 0} (fn : S → Result X A × S) : ℕ → S → A → S → Type 0 where
  at_once : {s t : S} {a : A} → fn s ≡ (ok a, t) → SucceedsAfter fn zero s a t
  fails_first :
      {n : ℕ} {s t u : S} {a : A} {x : X}
      → fn s ≡ (err x, t)
      → SucceedsAfter fn n t a u
      → SucceedsAfter fn (suc n) s a u

module _ {A X S : Type 0} (fn : S → Result X A × S) where
  waits_from :
      (cs : List Ctx) (delay : ℕ) (s : S) (n d : ℕ)
      → get_elem? (retry_from fn cs delay s).2 n ≡ some d
      → d ≡ later_delay delay n
  unfolding retry_from later_delay
  waits_from [] delay s n d h = absurd (ground (arith, Result-cases (fn s).0))
  waits_from (live ∷ cs) delay s zero d h = ground (arith, Result-cases (fn s).0)
  waits_from (live ∷ cs) delay s (suc n) d h = elim (Result-cases (fn s).0) [
    | inl (a, e) ↦ absurd (ground arith)
    | inr (x, e) ↦ waits_from cs (next_delay delay) (fn s).1 n d (ground arith)
  ]
  waits_from (cancelled ∷ cs) delay s n d h = absurd (ground (arith, Result-cases (fn s).0))
  waits_from (cancelled_waiting ∷ cs) delay s zero d h = ground (arith, Result-cases (fn s).0)
  waits_from (cancelled_waiting ∷ cs) delay s (suc n) d h =
      absurd (ground (arith, Result-cases (fn s).0))

  -- However the attempts and the context behave, the wait after failure `n` (counted from 0) is 100 ms
  -- doubled `n` times, and 10 s from where that is more.
  pub retry_backoff :
      (cs : List Ctx) (s : S) (n d : ℕ)
      → get_elem? (retry_from fn cs retry_min_delay s).2 n ≡ some d
      → d ≡ min (100_000_000 * 2 ^ n) 10_000_000_000
  retry_backoff cs s n d h =
      waits_from cs retry_min_delay s n d h ∙ later_delay-backoff 0 n ∙ ap backoff (omega arith)

  retry_reaches_from :
      (n delay : ℕ) (s t : S) (a : A) (more : List Ctx)
      → SucceedsAfter fn n s a t
      → ((retry_from fn (replicate n live ++ more) delay s).0 ≡ succeeded a)
        × ((retry_from fn (replicate n live ++ more) delay s).1 ≡ t)
        × (length (retry_from fn (replicate n live ++ more) delay s).2 ≡ n)
  unfolding retry_from
  retry_reaches_from zero delay s t a [] (at_once e) = ground arith
  retry_reaches_from zero delay s t a (c ∷ more) (at_once e) = ground arith
  retry_reaches_from (suc n) delay s t a more (fails_first {t = u} e rest) =
      ground (arith, retry_reaches_from n (next_delay delay) u t a more rest)

  -- An outage delays an event and does not lose it: if the function would succeed after `n` failures and
  -- the context stays live that long, `retry` returns true with that result, after exactly `n` waits.
  pub retry_outlasts_outage :
      (n : ℕ) (s t : S) (a : A) (more : List Ctx)
      → SucceedsAfter fn n s a t
      → ((retry_from fn (replicate n live ++ more) retry_min_delay s).0 ≡ succeeded a)
        × ((retry_from fn (replicate n live ++ more) retry_min_delay s).1 ≡ t)
        × (length (retry_from fn (replicate n live ++ more) retry_min_delay s).2 ≡ n)
  retry_outlasts_outage n s t a more h = retry_reaches_from n retry_min_delay s t a more h

  -- What one attempt keeps, the loop keeps; what a successful attempt brings about, holds at its end.
  pub retry_rule :
      (I : S → Type 0) (Q : A → S → Type 0)
      → ((s : S) → I s → I (fn s).1)
      → ((s : S) (a : A) → I s → (fn s).0 ≡ ok a → Q a (fn s).1)
      → (cs : List Ctx) (delay : ℕ) (s : S) → I s
      → I (retry_from fn cs delay s).1
        × ((a : A) → (retry_from fn cs delay s).0 ≡ succeeded a → Q a (retry_from fn cs delay s).1)
  unfolding retry_from
  retry_rule I Q keep good [] delay s i = elim (Result-cases (fn s).0) [
    | inl (a, e) ↦
        rw (e, retry_from)
          (keep s i, λ b p. subst (λ x. Q x (fn s).1) (ground arith) (good s a i e))
    | inr (x, e) ↦ rw (e, retry_from) (keep s i, λ b p. absurd (ground arith))
  ]
  retry_rule I Q keep good (cancelled ∷ cs) delay s i = elim (Result-cases (fn s).0) [
    | inl (a, e) ↦
        rw (e, retry_from)
          (keep s i, λ b p. subst (λ x. Q x (fn s).1) (ground arith) (good s a i e))
    | inr (x, e) ↦ rw (e, retry_from) (keep s i, λ b p. absurd (ground arith))
  ]
  retry_rule I Q keep good (cancelled_waiting ∷ cs) delay s i = elim (Result-cases (fn s).0) [
    | inl (a, e) ↦
        rw (e, retry_from)
          (keep s i, λ b p. subst (λ x. Q x (fn s).1) (ground arith) (good s a i e))
    | inr (x, e) ↦ rw (e, retry_from) (keep s i, λ b p. absurd (ground arith))
  ]
  retry_rule I Q keep good (live ∷ cs) delay s i = elim (Result-cases (fn s).0) [
    | inl (a, e) ↦
        rw (e, retry_from)
          (keep s i, λ b p. subst (λ x. Q x (fn s).1) (ground arith) (good s a i e))
    | inr (x, e) ↦
        rw (e, retry_from) (retry_rule I Q keep good cs (next_delay delay) (fn s).1 (keep s i))
  ]
