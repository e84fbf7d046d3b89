-- ===== src/Interceptor.antt =====
-- internal/pubsub/interceptor.go: retries of a unary call.
use pubsub_event_processor.Common.{
  ℕ, zero, suc, ◌+◌, ◌-◌, ◌*◌, ◌^◌, ◌≤◌, ◌<◌, ◌≡◌, refl, ◌⊎◌, inl, inr, subst, Bool, true, false,
  not, ◌&&◌, ◌||◌, Option, none, some, List, [], ◌∷◌, arith, if◌then◌else◌, ltb, ◌==◌, length,
  Option-cases,
}
use pubsub_event_processor.Subscriber.Delay.{shl, jittered, spread, jittered_bounds, pow-pos}

-- The status codes that the program tells apart; `other` are the rest of gRPC's.
pub data Code : Type 0 where
  success canceled deadline_exceeded not_found unavailable : Code
  other : ℕ → Code

abbrev pub max_retry_attempts : ℕ
max_retry_attempts = 5

abbrev pub base_retry_delay : ℕ
base_retry_delay = 100_000_000

abbrev pub max_retry_delay : ℕ
max_retry_delay = 5_000_000_000

-- `isRetryable`
unfoldable pub is_retryable : Code → Bool
is_retryable unavailable = true
is_retryable deadline_exceeded = true
is_retryable _ = false

-- UNAVAILABLE or DEADLINE_EXCEEDED.
abbrev pub IsTransient : Code → Type 0
IsTransient c = (c ≡ unavailable) ⊎ (c ≡ deadline_exceeded)

is_retryable-IsTransient : (c : Code) → IsTransient c → is_retryable c ≡ true
unfolding is_retryable
is_retryable-IsTransient c (inl e) = rw e refl
is_retryable-IsTransient c (inr e) = rw e refl

is_retryable-other : (c : Code) → ¬ IsTransient c → is_retryable c ≡ false
unfolding is_retryable
is_retryable-other success never = refl
is_retryable-other canceled never = refl
is_retryable-other deadline_exceeded never = absurd (never (inr refl))
is_retryable-other not_found never = refl
is_retryable-other unavailable never = absurd (never (inl refl))
is_retryable-other (other n) never = refl

-- The delay of `backoffDelay` before the jitter; the test `d > maxRetryDelay` is signed.
unfoldable pub backoff_base : ℕ → ℕ
backoff_base attempt =
    let d = shl base_retry_delay attempt in
    if ltb max_retry_delay d && ltb d (2 ^ 63) then max_retry_delay else d

-- `backoffDelay`
unfoldable pub backoff_delay : ℕ → ℕ → ℕ
backoff_delay attempt r = jittered (backoff_base attempt) r

-- How a call ends: nil, an error of the invoker, `ctx.Err()`, or `lastErr` behind the loop.
pub data CallResult (E : Type 0) : Type 0 where
  returned : CallResult E
  failed : E → CallResult E
  ctx_error : CallResult E
  last_error : Option E → CallResult E

-- The result, the state that the invoker leaves, the labels counted in `rpcTotal` and `rpcRetries`, and the
-- number of invocations.
pub record Call (E S : Type 0) : Type 0 where
  pub result : CallResult E
  pub state : S
  pub total : List Code
  pub retries : List Code
  pub invocations : ℕ

module _ {E S : Type 0} (code : E → Code) (invoke : S → Option E × S) (cancelled : ℕ → Bool) where
  abbrev pub ended : CallResult E → S → List Code → Call E S
  ended r s codes = record { result = r; state = s; total = codes; retries = []; invocations = 1 }

  abbrev pub retried : Code → Call E S → Call E S
  retried c k = record k { retries = c ∷ k.retries; invocations = k.invocations + 1 }

  -- The loop of the interceptor with `left` rounds to go. `cancelled i` says that the context is cancelled
  -- in the wait behind attempt `i`.
  unfoldable pub intercept_from : ℕ → ℕ → Option E → S → Call E S
  intercept_from zero attempt last s = record {
    result = last_error last;
    state = s;
    total = [];
    retries = [];
    invocations = 0;
  }
  intercept_from (suc left) attempt last s =
      let (r, s') = invoke s in
      elim r [
        | none ↦ ended returned s' (success ∷ [])
        | some e ↦
            let again = intercept_from left (attempt + 1) (some e) s' in
            if not (is_retryable (code e)) || attempt == max_retry_attempts - 1
            then ended (failed e) s' (code e ∷ [])
            else if cancelled attempt
            then retried (code e) (record {
              result = ctx_error;
              state = s';
              total = canceled ∷ [];
              retries = [];
              invocations = 0;
            })
            else retried (code e) again
      ]

  -- The function that `newUnaryInterceptor` returns.
  unfoldable pub intercept : S → Call E S
  unfolding intercept_from is_retryable
  intercept s = intercept_from max_retry_attempts 0 none s

  -- The invoker fails `n` times with UNAVAILABLE or DEADLINE_EXCEEDED, and leaves the second state.
  pub data Transient : ℕ → S → S → Type 0 where
    stop : {s : S} → Transient zero s s
    again :
        {n : ℕ} {s t u : S} {e : E}
        → invoke s ≡ (some e, t)
        → IsTransient (code e)
        → Transient n t u
        → Transient (suc n) s u

  abbrev pub fell_through : CallResult E → Bool
  fell_through (last_error e) = true
  fell_through _ = false

  bounded_from :
      (left attempt : ℕ) (last : Option E) (s : S)
      → left + attempt ≡ 5
      → 1 ≤ left
      → (1 ≤ (intercept_from left attempt last s).invocations)
        × ((intercept_from left attempt last s).invocations ≤ left)
        × (length (intercept_from left attempt last s).total ≡ 1)
        × (fell_through (intercept_from left attempt last s).result ≡ false)
  unfolding intercept_from
  bounded_from zero attempt last s e low = absurd (omega arith)
  bounded_from (suc zero) attempt last s e low = ground (arith, Option-cases (invoke s).0)
  bounded_from (suc (suc left)) attempt last s e low = elim (Option-cases (invoke s).0) [
    | inl good ↦ ground arith
    | inr (x, bad) ↦ ground (
      arith,
      bounded_from (suc left) (attempt + 1) (some x) (invoke s).1 (omega arith) (omega arith),
    )
  ]

  -- Every call ends: after one to five invocations, with one status counted, and by one of the loop's
  -- returns, never by the `return lastErr` behind the loop.
  pub intercept_bounded :
      (s : S)
      → (1 ≤ (intercept s).invocations)
        × ((intercept s).invocations ≤ 5)
        × (length (intercept s).total ≡ 1)
        × (fell_through (intercept s).result ≡ false)
  unfolding intercept
  intercept_bounded s = bounded_from 5 0 none s (omega arith) (omega arith)

  abbrev pub answer : Option E → CallResult E
  answer none = returned
  answer (some e) = failed e

  -- The attempt behind `n` transient failures settles the call: it succeeds, fails for good, or is the last.
  abbrev pub IsFinal : ℕ → Option E → Type 0
  IsFinal n none = Unit
  IsFinal n (some e) = (¬ IsTransient (code e)) ⊎ (n ≡ 4)

  settles_from :
      (n left attempt : ℕ) (last : Option E) (s t u : S) (r : Option E)
      → Transient n s t
      → invoke t ≡ (r, u)
      → IsFinal (attempt + n) r
      → attempt + n < 5
      → left + attempt ≡ 5
      → ((i : ℕ) → cancelled i ≡ false)
      → ((intercept_from left attempt last s).result ≡ answer r)
        × ((intercept_from left attempt last s).state ≡ u)
        × ((intercept_from left attempt last s).invocations ≡ n + 1)
  unfolding intercept_from
  settles_from n zero attempt last s t u r tr e f few total go = absurd (omega arith)
  settles_from zero (suc left) attempt last s t u none stop e f few total go = ground arith
  settles_from zero (suc left) attempt last s t u (some x) stop e (inl never) few total go =
      ground (arith, is_retryable-other (code x) never)
  settles_from zero (suc left) attempt last s t u (some x) stop e (inr n) few total go =
      ground arith
  settles_from (suc n) (suc left) attempt last s t u r (again {t = v} {e = x} bad bad_code rest) e f
        few total go =
      ground (
        arith,
        go attempt,
        is_retryable-IsTransient (code x) bad_code,
        settles_from n left (attempt + 1) (some x) v t u r rest e
            (subst (λ k. IsFinal k r) (shift attempt n) f) (omega arith) (omega arith) go,
      )
    where
      shift : (a n : ℕ) → a + suc n ≡ a + 1 + n
      shift a n = omega arith

  -- While the context stays live, a call survives up to four UNAVAILABLE or DEADLINE_EXCEEDED answers: after
  -- `n` of them, the next invocation settles it if it succeeds, fails with another code, or is the fifth;
  -- the call returns its answer after exactly `n + 1` invocations.
  pub intercept_settles :
      (n : ℕ) (s t u : S) (r : Option E)
      → Transient n s t
      → invoke t ≡ (r, u)
      → IsFinal n r
      → n < 5
      → ((i : ℕ) → cancelled i ≡ false)
      → ((intercept s).result ≡ answer r)
        × ((intercept s).state ≡ u)
        × ((intercept s).invocations ≡ n + 1)
  unfolding intercept
  intercept_settles n s t u r tr e f few go =
      settles_from n 5 0 none s t u r tr e (subst (λ k. IsFinal k r) (zero_plus n) f) (omega arith)
        (omega arith) go
    where
      zero_plus : (n : ℕ) → n ≡ 0 + n
      zero_plus n = omega arith

backoff_small : (attempt : ℕ) → attempt < 5 → backoff_base attempt ≡ 100_000_000 * 2 ^ attempt
unfolding backoff_base
backoff_small zero h = refl
backoff_small (suc zero) h = refl
backoff_small (suc (suc zero)) h = refl
backoff_small (suc (suc (suc zero))) h = refl
backoff_small (suc (suc (suc (suc zero)))) h = refl
backoff_small (suc (suc (suc (suc (suc n))))) h = absurd (omega arith)

-- In each of the attempts that the interceptor makes, the wait is 100 ms doubled `attempt` times, give or
-- take a quarter.
pub backoff_delay_bounds :
    (attempt r : ℕ)
    → attempt < 5
    → r < 2 * spread (backoff_base attempt)
    → (3 * (100_000_000 * 2 ^ attempt) ≤ 4 * backoff_delay attempt r)
      × (4 * backoff_delay attempt r < 5 * (100_000_000 * 2 ^ attempt))
unfolding backoff_delay
backoff_delay_bounds attempt r few h =
    let base = backoff_small attempt few in
    omega (
      arith,
      base,
      pow-pos attempt,
      jittered_bounds (backoff_base attempt) r (omega (arith, base, pow-pos attempt)) h,
    )
