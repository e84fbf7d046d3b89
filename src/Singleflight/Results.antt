-- ===== src/Singleflight/Results.antt =====
-- What every result that the callers around singleflight.Group get has in common.
use pubsub_event_processor.Common.{
  ℕ, String, ◌≡◌, subst, some, none, Option, ℕ_discrete, string_discrete, arith,
}
use pubsub_event_processor.Singleflight.{
  Caller, idle, missed, leading, asking, waiting, finishing, returned, Flights, FlightState,
  FlightUser, Step, look, join, lead, look_again, answer, finish, leave, Reach, here, next, IsStart,
  looked, looked_again, update, handed_on, result,
}

-- The client keeps `Inv` of its cache, and each of its three parts gives only results with `P`.
pub record Gives {C E A R : Type 0} (cl : FlightUser C E A R) (Inv : C → Type 0) (P : R → Type 0)
    : Type 0 where
  pub look_keeps : (e : E) (c : C) → Inv c → Inv (cl.look e c).1
  pub look_gives : (e : E) (c : C) (r : R) → Inv c → (cl.look e c).0 ≡ some r → P r
  pub again_gives : (k : String) (c : C) (r : R) → Inv c → cl.again k c ≡ some r → P r
  pub answer_keeps : (a : A) (k : String) (c : C) → Inv c → Inv (cl.answer a k c).1
  pub answer_gives : (a : A) (k : String) (c : C) → Inv c → P (cl.answer a k c).0

module _ {R : Type 0} (P : R → Type 0) where
  -- The result of a call, if it has one, has `P`.
  abbrev pub Good : Caller R → Type 0
  Good c = (k : String) (r : R) → result c ≡ some (k, r) → P r

  moved-Good :
      (cs : ℕ → Caller R) (i : ℕ) (x : Caller R)
      → Good x
      → ((j : ℕ) → Good (cs j))
      → (j : ℕ) → Good (update cs i x j)
  moved-Good cs i x new old j k r h = elim (ℕ_discrete i j) [
    | yes e ↦ new k r (ground arith)
    | no d ↦ old j k r (ground arith)
  ]

  handed_on-Good : (k : String) (r : R) (c : Caller R) → P r → Good c → Good (handed_on k r c)
  handed_on-Good k r (waiting j) p g = λ n q h. elim (string_discrete k j) [
    | yes e ↦ subst P (ground arith) p
    | no d ↦ absurd (ground arith)
  ]
  handed_on-Good k r idle p g = g
  handed_on-Good k r (missed j) p g = g
  handed_on-Good k r (leading j) p g = g
  handed_on-Good k r (asking j) p g = g
  handed_on-Good k r (finishing j q) p g = g
  handed_on-Good k r (returned j q) p g = g

module _ {G C E A R : Type 0} (f : Flights G) (cl : FlightUser C E A R) {Inv : C → Type 0}
    {P : R → Type 0} (g : Gives cl Inv P) where
  looked-Good : (k : String) (o : Option R) → ((r : R) → o ≡ some r → P r) → Good P (looked k o)
  looked-Good k none h n r e = absurd (ground arith)
  looked-Good k (some q) h n r e = h r (ground arith)

  looked_again-Good :
      (k : String) (o : Option R) → ((r : R) → o ≡ some r → P r) → Good P (looked_again k o)
  looked_again-Good k none h n r e = absurd (ground arith)
  looked_again-Good k (some q) h n r e = h r (ground arith)

  step-Good :
      {s t : FlightState G C R}
      → Step f cl s t
      → Inv s.cache
      → ((j : ℕ) → Good P (s.callers j))
      → Inv t.cache × ((j : ℕ) → Good P (t.callers j))
  step-Good {s} (look i e at) v m = (
    g.look_keeps e s.cache v,
    moved-Good P s.callers i (looked (cl.key e) (cl.look e s.cache).0)
        (looked-Good (cl.key e) (cl.look e s.cache).0 (λ r. g.look_gives e s.cache r v)) m,
  )
  step-Good {s} (join i k at busy) v m =
      (v, moved-Good P s.callers i (waiting k) (λ n r h. absurd (ground arith)) m)
  step-Good {s} (lead i k at free) v m =
      (v, moved-Good P s.callers i (leading k) (λ n r h. absurd (ground arith)) m)
  step-Good {s} (look_again i k at) v m = (
    v,
    moved-Good P s.callers i (looked_again k (cl.again k s.cache))
        (looked_again-Good k (cl.again k s.cache) (λ r. g.again_gives k s.cache r v)) m,
  )
  step-Good {s} (answer i k a at) v m = (
    g.answer_keeps a k s.cache v,
    moved-Good P s.callers i (finishing k (cl.answer a k s.cache).0)
        (λ n r h. subst P (ground arith) (g.answer_gives a k s.cache v)) m,
  )
  step-Good {s} (finish i k r at) v m =
      let own : P r = m i k r (ground arith) in
      (
        v,
        λ j.
            handed_on-Good P k r (update s.callers i (returned k r) j) own
              (moved-Good P s.callers i (returned k r) (λ n q h. subst P (ground arith) own) m j),
      )
  step-Good {s} (leave i k r at) v m =
      (v, moved-Good P s.callers i idle (λ n r h. absurd (ground arith)) m)

  pub reach-Good :
      {s t : FlightState G C R}
      → Inv s.cache
      → IsStart f s
      → Reach f cl s t
      → Inv t.cache × ((j : ℕ) → Good P (t.callers j))
  reach-Good v st here = (v, λ j k r h. absurd (ground (arith, st.all_idle j)))
  reach-Good v st (next r u) = let (v', m) = reach-Good v st r in step-Good u v' m
