-- ===== src/Singleflight/Manned.antt =====
-- Who leads the flights of singleflight.Group.
use pubsub_event_processor.Common.{
  ℕ, String, ◌≡◌, refl, Bool, true, false, Option, none, some, ite, ℕ_discrete, string_discrete,
  arith, ◌≢◌,
}
use pubsub_event_processor.Singleflight.{
  Caller, idle, missed, leading, asking, waiting, finishing, returned, Flights, FlightState,
  FlightUser, Step, look, join, lead, look_again, answer, finish, leave, Reach, here, next, IsStart,
  looked, looked_again, update, handed_on,
}

abbrev pub owns : {R : Type 0} → Caller R → Option String
owns (leading k) = some k
owns (asking k) = some k
owns (finishing k r) = some k
owns c = none

abbrev pub awaits : {R : Type 0} → Caller R → Option String
awaits (waiting k) = some k
awaits c = none

abbrev pub is_manned : Option ℕ → Bool
is_manned none = false
is_manned (some i) = true

-- `leader` names for each key in flight the one caller whose function runs; the callers that wait do so for a
-- key in flight.
pub record IsManned {G C R : Type 0} (f : Flights G) (s : FlightState G C R)
    (leader : String → Option ℕ) : Type 0 where
  pub owner : (i : ℕ) (k : String) → owns (s.callers i) ≡ some k → leader k ≡ some i
  pub manned : (i : ℕ) (k : String) → leader k ≡ some i → owns (s.callers i) ≡ some k
  pub flying : (k : String) → f.in_flight k s.group ≡ is_manned (leader k)
  pub awaited : (i : ℕ) (k : String) → awaits (s.callers i) ≡ some k → f.in_flight k s.group ≡ true

abbrev set_leader : (String → Option ℕ) → String → Option ℕ → String → Option ℕ
set_leader l k o j = ite (string_discrete k j) o (l j)

owns-looked : {R : Type 0} (k : String) (o : Option R) → owns (looked k o) ≡ none
owns-looked k none = refl
owns-looked k (some r) = refl

awaits-looked : {R : Type 0} (k : String) (o : Option R) → awaits (looked k o) ≡ none
awaits-looked k none = refl
awaits-looked k (some r) = refl

owns-looked_again : {R : Type 0} (k : String) (o : Option R) → owns (looked_again k o) ≡ some k
owns-looked_again k none = refl
owns-looked_again k (some r) = refl

awaits-looked_again : {R : Type 0} (k : String) (o : Option R) → awaits (looked_again k o) ≡ none
awaits-looked_again k none = refl
awaits-looked_again k (some r) = refl

owns-handed_on : {R : Type 0} (k : String) (r : R) (c : Caller R) → owns (handed_on k r c) ≡ owns c
owns-handed_on k r (waiting j) = ground arith
owns-handed_on k r idle = refl
owns-handed_on k r (missed j) = refl
owns-handed_on k r (leading j) = refl
owns-handed_on k r (asking j) = refl
owns-handed_on k r (finishing j q) = refl
owns-handed_on k r (returned j q) = refl

awaits-handed_on :
    {R : Type 0} (k : String) (r : R) (c : Caller R) (j : String)
    → awaits (handed_on k r c) ≡ some j
    → (awaits c ≡ some j) × (k ≢ j)
awaits-handed_on k r (waiting i) j h = ground arith
awaits-handed_on k r idle j h = ground arith
awaits-handed_on k r (missed i) j h = ground arith
awaits-handed_on k r (leading i) j h = ground arith
awaits-handed_on k r (asking i) j h = ground arith
awaits-handed_on k r (finishing i q) j h = ground arith
awaits-handed_on k r (returned i q) j h = ground arith

module _ {G C R : Type 0} (f : Flights G) where
  -- A step of caller `i` after which it owns the same key, and waits for one in flight.
  moved-IsManned :
      (g : G) (c d : C) (cs : ℕ → Caller R) (i : ℕ) (x : Caller R) (l : String → Option ℕ)
      → owns x ≡ owns (cs i)
      → ((k : String) → awaits x ≡ some k → f.in_flight k g ≡ true)
      → IsManned f (record { group = g; cache = c; callers = cs }) l
      → IsManned f (record { group = g; cache = d; callers = update cs i x }) l
  moved-IsManned g c d cs i x l same waits m = record {
    owner = λ j k h. elim (ℕ_discrete i j) [
      | yes e ↦ m.owner j k (ground arith)
      | no n ↦ m.owner j k (ground arith)
    ];
    manned = λ j k h. ground (arith, m.manned j k h);
    flying = m.flying;
    awaited = λ j k h. elim (ℕ_discrete i j) [
      | yes e ↦ waits k (ground arith)
      | no n ↦ m.awaited j k (ground arith)
    ];
  }

  -- A caller that leads no flight enters `Do` first.
  led-IsManned :
      (g : G) (c : C) (cs : ℕ → Caller R) (i : ℕ) (k : String) (l : String → Option ℕ)
      → cs i ≡ missed k
      → f.in_flight k g ≡ false
      → IsManned f (record { group = g; cache = c; callers = cs }) l
      → IsManned f
          (record { group = f.start k g; cache = c; callers = update cs i (leading k) })
          (set_leader l k (some i))
  led-IsManned g c cs i k l at free m = record {
    owner = λ j n h. elim (ℕ_discrete i j) [
      | yes e ↦ ground arith
      | no d ↦ ground (arith, m.owner j n (ground arith), m.flying k)
    ];
    manned = λ j n h. ground (arith, m.manned j n, m.flying k);
    flying = λ n. ground (arith, f.in_flight-start k n g, m.flying n);
    awaited = λ j n h. ground (arith, f.in_flight-start k n g, m.awaited j n);
  }

  -- The leader of a flight comes back from `Do`.
  ended-IsManned :
      (g : G) (c : C) (cs : ℕ → Caller R) (i : ℕ) (k : String) (r : R) (l : String → Option ℕ)
      → cs i ≡ finishing k r
      → IsManned f (record { group = g; cache = c; callers = cs }) l
      → IsManned f
          (record {
            group = f.finish k g;
            cache = c;
            callers = λ j. handed_on k r (update cs i (returned k r) j);
          })
          (set_leader l k none)
  ended-IsManned g c cs i k r l at m = record {
    owner = λ j n h. elim (ℕ_discrete i j) [
      | yes e ↦ ground arith
      | no d ↦ ground (arith, owns-handed_on k r (cs j), m.owner j n, m.owner i k (ground arith))
    ];
    manned = λ j n h. ground (
      arith,
      owns-handed_on k r (update cs i (returned k r) j),
      m.manned j n,
      m.owner i k (ground arith),
    );
    flying = λ n. ground (arith, f.in_flight-finish k n g, m.flying n);
    awaited = λ j n h.
        let (a, ne) = awaits-handed_on k r (update cs i (returned k r) j) n h in
        ground (arith, f.in_flight-finish k n g, m.awaited j n);
  }

module _ {G C E A R : Type 0} (f : Flights G) (cl : FlightUser C E A R) where
  pub step-IsManned :
      {s t : FlightState G C R} (l : String → Option ℕ)
      → Step f cl s t
      → IsManned f s l
      → (l' : String → Option ℕ) × IsManned f t l'
  step-IsManned {s} l (look i e at) m = (
    l,
    moved-IsManned f s.group s.cache _ s.callers i (looked (cl.key e) (cl.look e s.cache).0) l
        (ground (arith, owns-looked (cl.key e) (cl.look e s.cache).0))
        (λ j h. ground (arith, awaits-looked (cl.key e) (cl.look e s.cache).0)) m,
  )
  step-IsManned {s} l (join i k at busy) m = (
    l,
    moved-IsManned f s.group s.cache s.cache s.callers i (waiting k) l (ground arith)
        (λ j h. ground arith) m,
  )
  step-IsManned {s} l (lead i k at free) m =
      (set_leader l k (some i), led-IsManned f s.group s.cache s.callers i k l at free m)
  step-IsManned {s} l (look_again i k at) m = (
    l,
    moved-IsManned f s.group s.cache s.cache s.callers i (looked_again k (cl.again k s.cache)) l
        (ground (arith, owns-looked_again k (cl.again k s.cache)))
        (λ j h. ground (arith, awaits-looked_again k (cl.again k s.cache))) m,
  )
  step-IsManned {s} l (answer i k a at) m = (
    l,
    moved-IsManned f s.group s.cache _ s.callers i (finishing k (cl.answer a k s.cache).0) l
        (ground arith) (λ j h. ground arith) m,
  )
  step-IsManned {s} l (finish i k r at) m =
      (set_leader l k none, ended-IsManned f s.group s.cache s.callers i k r l at m)
  step-IsManned {s} l (leave i k r at) m = (
    l,
    moved-IsManned f s.group s.cache s.cache s.callers i idle l (ground arith) (λ j h. ground arith)
        m,
  )

  start-IsManned : (s : FlightState G C R) → IsStart f s → IsManned f s (λ k. none)
  start-IsManned s st = record {
    owner = λ i k h. ground (arith, st.all_idle i);
    manned = λ i k h. ground arith;
    flying = λ k. st.none_flying k;
    awaited = λ i k h. ground (arith, st.all_idle i);
  }

  pub reach-IsManned :
      {s t : FlightState G C R}
      → IsStart f s
      → Reach f cl s t
      → (l : String → Option ℕ) × IsManned f t l
  reach-IsManned {s} st here = (_, start-IsManned s st)
  reach-IsManned st (next r u) = let (l, m) = reach-IsManned st r in step-IsManned l u m
