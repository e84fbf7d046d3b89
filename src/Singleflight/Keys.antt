-- ===== src/Singleflight/Keys.antt =====
-- The keys that the callers around singleflight.Group give to `Do`.
use pubsub_event_processor.Common.{ℕ, String, ◌≡◌, refl, some, none, Option, ℕ_discrete, arith}
use pubsub_event_processor.Singleflight.{
  Caller, idle, missed, leading, asking, waiting, finishing, returned, Flights, FlightState,
  FlightUser, Step, look, join, lead, look_again, answer, finish, leave, Reach, here, next, IsStart,
  looked, looked_again, update, handed_on, called_key,
}

called_key-looked : {R : Type 0} (k : String) (o : Option R) → called_key (looked k o) ≡ some k
called_key-looked k none = refl
called_key-looked k (some r) = refl

called_key-looked_again :
    {R : Type 0} (k : String) (o : Option R) → called_key (looked_again k o) ≡ some k
called_key-looked_again k none = refl
called_key-looked_again k (some r) = refl

called_key-handed_on :
    {R : Type 0} (k : String) (r : R) (c : Caller R) → called_key (handed_on k r c) ≡ called_key c
called_key-handed_on k r (waiting j) = ground arith
called_key-handed_on k r idle = refl
called_key-handed_on k r (missed j) = refl
called_key-handed_on k r (leading j) = refl
called_key-handed_on k r (asking j) = refl
called_key-handed_on k r (finishing j q) = refl
called_key-handed_on k r (returned j q) = refl

module _ {G C E A R : Type 0} (f : Flights G) (cl : FlightUser C E A R) where
  -- A call in progress has the key of what it was given.
  Keyed : Caller R → Type 0
  Keyed c = (k : String) → called_key c ≡ some k → (e : E) × (cl.key e ≡ k)

  moved-Keyed :
      (cs : ℕ → Caller R) (i : ℕ) (x : Caller R)
      → Keyed x
      → ((j : ℕ) → Keyed (cs j))
      → (j : ℕ) → Keyed (update cs i x j)
  unfolding Keyed
  moved-Keyed cs i x new old j k h = elim (ℕ_discrete i j) [
    | yes e ↦ new k (ground arith)
    | no d ↦ old j k (ground arith)
  ]

  step-Keyed :
      {s t : FlightState G C R}
      → Step f cl s t
      → ((j : ℕ) → Keyed (s.callers j))
      → (j : ℕ) → Keyed (t.callers j)
  unfolding Keyed
  step-Keyed {s} (look i e at) m =
      moved-Keyed s.callers i _
        (λ k h. (e, ground (arith, called_key-looked (cl.key e) (cl.look e s.cache).0))) m
  step-Keyed {s} (join i k at busy) m =
      moved-Keyed s.callers i (waiting k) (λ n h. m i n (ground arith)) m
  step-Keyed {s} (lead i k at free) m =
      moved-Keyed s.callers i (leading k) (λ n h. m i n (ground arith)) m
  step-Keyed {s} (look_again i k at) m =
      moved-Keyed s.callers i _
        (λ n h. m i n (ground (arith, called_key-looked_again k (cl.again k s.cache)))) m
  step-Keyed {s} (answer i k a at) m =
      moved-Keyed s.callers i (finishing k (cl.answer a k s.cache).0) (λ n h. m i n (ground arith))
        m
  step-Keyed {s} (finish i k r at) m = λ j k' h.
      moved-Keyed s.callers i (returned k r) (λ n h. m i n (ground arith)) m j k'
        (ground (arith, called_key-handed_on k r (update s.callers i (returned k r) j)))
  step-Keyed {s} (leave i k r at) m = moved-Keyed s.callers i idle (λ n h. absurd (ground arith)) m

  reach-Keyed :
      {s t : FlightState G C R} → IsStart f s → Reach f cl s t → (j : ℕ) → Keyed (t.callers j)
  unfolding Keyed
  reach-Keyed st here = λ j k h. absurd (ground (arith, st.all_idle j))
  reach-Keyed st (next r u) = step-Keyed u (reach-Keyed st r)

  pub reach-called_key :
      {s t : FlightState G C R} (j : ℕ) (k : String)
      → IsStart f s
      → Reach f cl s t
      → called_key (t.callers j) ≡ some k
      → (e : E) × (cl.key e ≡ k)
  unfolding Keyed
  reach-called_key j k st r h = reach-Keyed st r j k h
