-- ===== src/Singleflight/Returning.antt =====
-- Callers around singleflight.Group come back.
use pubsub_event_processor.Common.{
  ℕ, String, ◌≡◌, refl, Option, some, arith, Option-cases, Bool-cases, ◌⊎◌, inl, inr,
}
use pubsub_event_processor.Singleflight.{
  Caller, idle, missed, leading, asking, waiting, finishing, returned, Flights, FlightState,
  FlightUser, Step, join, lead, look_again, answer, finish, Reach, here, next, IsStart, update,
  handed_on, called_key,
}
use pubsub_event_processor.Singleflight.Manned.{IsManned, owns, reach-IsManned, step-IsManned}

module _ {G C E A R : Type 0} (f : Flights G) (cl : FlightUser C E A R) where
  pub Reach-trans : {s t u : FlightState G C R} → Reach f cl s t → Reach f cl t u → Reach f cl s u
  Reach-trans r here = r
  Reach-trans r (next q st) = next (Reach-trans r q) st

  -- The call of `j` can come back.
  unfoldable pub CanReturn : FlightState G C R → ℕ → String → Type 0
  CanReturn s j k =
      (t : FlightState G C R) × (r : R) × (t.callers j ≡ returned k r) × Reach f cl s t

  after_step :
      {s t : FlightState G C R} (j : ℕ) (k : String)
      → Step f cl s t
      → CanReturn t j k
      → CanReturn s j k
  unfolding CanReturn
  after_step j k st (u, r, e, q) = (u, r, e, Reach-trans (next here st) q)

  -- Callers that the flight of `i` for `k` brings home.
  abbrev Served : FlightState G C R → ℕ → String → ℕ → Type 0
  Served s i k j = (i ≡ j) ⊎ (s.callers j ≡ waiting k)

  finishing_returns :
      (s : FlightState G C R) (i : ℕ) (k : String) (r : R) (j : ℕ)
      → s.callers i ≡ finishing k r
      → Served s i k j
      → CanReturn s j k
  unfolding CanReturn
  finishing_returns s i k r j at h = (
    record s {
      group = f.finish k s.group;
      callers = λ j. handed_on k r (update s.callers i (returned k r) j);
    },
    r,
    elim h [ inl e ↦ ground arith | inr w ↦ ground arith ],
    next here (finish i k r at),
  )

  asking_returns :
      (a : A) (s : FlightState G C R) (i : ℕ) (k : String) (j : ℕ)
      → s.callers i ≡ asking k
      → Served s i k j
      → CanReturn s j k
  asking_returns a s i k j at h = after_step j k (answer i k a at) (
      finishing_returns _ i k (cl.answer a k s.cache).0 j (ground arith)
        (elim h [ inl e ↦ inl e | inr w ↦ inr (ground arith) ]))

  leading_returns :
      (a : A) (s : FlightState G C R) (i : ℕ) (k : String) (j : ℕ)
      → s.callers i ≡ leading k
      → Served s i k j
      → CanReturn s j k
  leading_returns a s i k j at h =
      after_step j k (look_again i k at) (elim (Option-cases (cl.again k s.cache)) [
        | inl e ↦
            asking_returns a _ i k j (ground arith)
              (elim h [ inl e ↦ inl e | inr w ↦ inr (ground arith) ])
        | inr (r, e) ↦
            finishing_returns _ i k r j (ground arith)
              (elim h [ inl e ↦ inl e | inr w ↦ inr (ground arith) ])
      ])

  owner_returns :
      (a : A) (s : FlightState G C R) (i : ℕ) (k : String) (j : ℕ) (c : Caller R)
      → s.callers i ≡ c
      → owns c ≡ some k
      → Served s i k j
      → CanReturn s j k
  owner_returns a s i k j (leading n) at o h = leading_returns a s i k j (ground arith) h
  owner_returns a s i k j (asking n) at o h = asking_returns a s i k j (ground arith) h
  owner_returns a s i k j (finishing n r) at o h = finishing_returns s i k r j (ground arith) h
  owner_returns a s i k j idle at o h = absurd (ground arith)
  owner_returns a s i k j (missed n) at o h = absurd (ground arith)
  owner_returns a s i k j (waiting n) at o h = absurd (ground arith)
  owner_returns a s i k j (returned n r) at o h = absurd (ground arith)

  waiting_returns :
      (a : A) (s : FlightState G C R) (l : String → Option ℕ) (k : String) (j : ℕ)
      → IsManned f s l
      → s.callers j ≡ waiting k
      → CanReturn s j k
  waiting_returns a s l k j m at = elim (Option-cases (l k)) [
    | inl e ↦ absurd (ground (arith, m.flying k, m.awaited j k (ground arith)))
    | inr (i, e) ↦ owner_returns a s i k j (s.callers i) refl (m.manned i k e) (inr at)
  ]

  missed_returns :
      (a : A) (s : FlightState G C R) (l : String → Option ℕ) (k : String) (j : ℕ)
      → IsManned f s l
      → s.callers j ≡ missed k
      → CanReturn s j k
  missed_returns a s l k j m at = elim (Bool-cases (f.in_flight k s.group)) [
    | inl busy ↦
        let st = join j k at busy in
        let (l', m') = step-IsManned f cl l st m in
        after_step j k st (waiting_returns a _ l' k j m' (ground arith))
    | inr free ↦
        after_step j k (lead j k at free) (leading_returns a _ j k j (ground arith) (inl refl))
  ]

  manned_returns :
      (a : A) (s : FlightState G C R) (l : String → Option ℕ) (j : ℕ) (k : String) (c : Caller R)
      → IsManned f s l
      → s.callers j ≡ c
      → called_key c ≡ some k
      → CanReturn s j k
  unfolding CanReturn
  manned_returns a s l j k idle m at h = absurd (ground arith)
  manned_returns a s l j k (missed n) m at h = missed_returns a s l k j m (ground arith)
  manned_returns a s l j k (waiting n) m at h = waiting_returns a s l k j m (ground arith)
  manned_returns a s l j k (leading n) m at h = leading_returns a s j k j (ground arith) (inl refl)
  manned_returns a s l j k (asking n) m at h = asking_returns a s j k j (ground arith) (inl refl)
  manned_returns a s l j k (finishing n r) m at h =
      finishing_returns s j k r j (ground arith) (inl refl)
  manned_returns a s l j k (returned n r) m at h = (s, r, ground arith, here)

  pub reach_returns :
      (a : A) {s t : FlightState G C R} (j : ℕ) (k : String)
      → IsStart f s
      → Reach f cl s t
      → called_key (t.callers j) ≡ some k
      → CanReturn t j k
  reach_returns a {s} {t} j k st r busy =
      let (l, m) = reach-IsManned f cl st r in manned_returns a t l j k (t.callers j) m refl busy
