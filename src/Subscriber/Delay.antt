-- ===== src/Subscriber/Delay.antt =====
-- The waits between reconnects (`reconnectDelay`) and between the attempts of a unary call
-- (`backoffDelay` of internal/pubsub/interceptor.go). Durations are `int64` nanoseconds.
use native.Mathlib.Nat.{pow-suc}
use pubsub_event_processor.Common.{
  ℕ, zero, suc, ◌+◌, ◌-◌, ◌*◌, ◌/◌, ◌%◌, ◌^◌, ◌≤◌, ◌<◌, min, ◌≡◌, ap, ◌∙◌, sym, Bool, ◌||◌, arith,
  if◌then◌else◌, ltb, leb, ◌==◌, dec_lt,
}

abbrev pub reconnect_min_delay : ℕ
reconnect_min_delay = 1_000_000_000

abbrev pub reconnect_max_delay : ℕ
reconnect_max_delay = 30_000_000_000

-- `d << k` on an `int64`, as the bit pattern: from 2^63 on it is a negative number.
abbrev pub shl : ℕ → ℕ → ℕ
shl d k = d * 2 ^ k % 2 ^ 64

-- d <= 0, of a bit pattern.
abbrev pub not_positive : ℕ → Bool
not_positive d = d == 0 || leb (2 ^ 63) d

-- The delay of `reconnectDelay` before the jitter.
unfoldable pub reconnect_base : ℕ → ℕ
reconnect_base attempt =
    let d = shl reconnect_min_delay attempt in
    if ltb reconnect_max_delay d || not_positive d then reconnect_max_delay else d

-- time.Duration(float64(d) * 0.25): below 2^53 the product is exact, and the conversion truncates.
abbrev pub spread : ℕ → ℕ
spread d = d / 4

-- d + (rand.Int64N(2*spread) - spread); `r` is what the generator returns.
abbrev pub jittered : ℕ → ℕ → ℕ
jittered d r = if spread d == 0 then d else d + r - spread d

-- `reconnectDelay`
unfoldable pub reconnect_delay : ℕ → ℕ → ℕ
reconnect_delay attempt r = jittered (reconnect_base attempt) r

pow-add : (m n : ℕ) → 2 ^ (m + n) ≡ 2 ^ m * 2 ^ n
pow-add zero n = omega (arith, ap (λ k. 2 ^ k) (zero_plus n))
  where
    zero_plus : (n : ℕ) → 0 + n ≡ n
    zero_plus n = omega arith
pow-add (suc m) n =
    ap (λ k. 2 ^ k) (suc_plus m n) ∙ pow-suc 2 (m + n) ∙ grind (arith, pow-add m n, pow-suc 2 m)
  where
    suc_plus : (m n : ℕ) → suc m + n ≡ suc (m + n)
    suc_plus m n = omega arith

abbrev clamped : ℕ → ℕ
clamped d = if ltb reconnect_max_delay d || not_positive d then reconnect_max_delay else d

-- A multiple of 2^43 is 0 or large, also as a pattern.
clamped_multiple : (m : ℕ) → clamped (8796093022208 * m % 2 ^ 64) ≡ reconnect_max_delay
clamped_multiple m = ground arith

clamped_exact :
    (x : ℕ)
    → 1 ≤ x
    → x ≤ 8589934592
    → clamped (1_000_000_000 * x % 2 ^ 64) ≡ min (1_000_000_000 * x) 30_000_000_000
clamped_exact x low high = ground arith

pub pow-pos : (n : ℕ) → 1 ≤ 2 ^ n
pow-pos zero = omega arith
pow-pos (suc n) = omega (arith, pow-suc 2 n, pow-pos n)

pow_mono : (k n : ℕ) → 2 ^ n ≤ 2 ^ (k + n)
pow_mono k n = grind (arith, pow-add k n, pow-pos k)

scaled :
    (attempt m : ℕ)
    → 2 ^ attempt ≡ 17179869184 * m
    → 1_000_000_000 * 2 ^ attempt ≡ 8796093022208 * (1953125 * m)
scaled attempt m power = omega arith

pub jittered_bounds :
    (d r : ℕ) → 4 ≤ d → r < 2 * spread d → (3 * d ≤ 4 * jittered d r) × (4 * jittered d r < 5 * d)
jittered_bounds d r low h = ground arith

-- For every attempt, also where the shift overflows `int64`, the base delay is 1 s doubled `attempt`
-- times, and 30 s from where that is more.
pub reconnect_base_exact :
    (attempt : ℕ) → reconnect_base attempt ≡ min (1_000_000_000 * 2 ^ attempt) 30_000_000_000
unfolding reconnect_base
reconnect_base_exact attempt = elim (dec_lt attempt 34) [
  | yes few ↦
      let split : (33 - attempt) + attempt ≡ 33 = omega arith in
      clamped_exact (2 ^ attempt) (pow-pos attempt)
        (omega (arith, pow_mono (33 - attempt) attempt, ap (λ k. 2 ^ k) split))
  | no many ↦
      let split : 34 + (attempt - 34) ≡ attempt = omega arith in
      let power : 2 ^ attempt ≡ 17179869184 * 2 ^ (attempt - 34) =
        ap (λ k. 2 ^ k) (sym split) ∙ pow-add 34 (attempt - 34) in
      ap clamped (ap (λ d. d % 2 ^ 64) (scaled attempt (2 ^ (attempt - 34)) power))
      ∙ clamped_multiple (1953125 * 2 ^ (attempt - 34))
      ∙ omega (arith, power, pow-pos (attempt - 34))
]

-- With the jitter a reconnect waits at least three quarters of the base delay and less than five quarters,
-- whichever number the generator returns: between 0.75 s and 37.5 s.
pub reconnect_delay_bounds :
    (attempt r : ℕ)
    → r < 2 * spread (reconnect_base attempt)
    → let d = min (1_000_000_000 * 2 ^ attempt) 30_000_000_000 in
      (3 * d ≤ 4 * reconnect_delay attempt r)
      × (4 * reconnect_delay attempt r < 5 * d)
      × (750_000_000 ≤ reconnect_delay attempt r)
      × (reconnect_delay attempt r < 37_500_000_000)
unfolding reconnect_delay
reconnect_delay_bounds attempt r h =
    let base = reconnect_base_exact attempt in
    omega (
      arith,
      base,
      pow-pos attempt,
      jittered_bounds (reconnect_base attempt) r (omega (arith, base, pow-pos attempt)) h,
    )
