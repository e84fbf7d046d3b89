-- ===== src/Metrics/Registry.antt =====
-- What is relied on of the Prometheus registry, and registrations under names that differ.
use pubsub_event_processor.Common.{
  ◌≡◌, refl, ◌≢◌, subst, ◌⊎◌, inl, inr, String, Bool, true, false, some, List, [], ◌∷◌, ite, arith,
  Has, string_discrete, if◌then◌else◌, Bool-cases, ◌==◌, Option, ◌∙◌,
}
use pubsub_event_processor.Metrics.{
  Collector, Registration, accepted, already, register_or_reuse, type_number, must_register_if,
  all_registered,
}

-- The collectors have one descriptor, and one Go type.
abbrev pub SameSeries : Collector → Collector → Type 0
SameSeries d c = (d.name ≡ c.name) × (d.labels ≡ c.labels) × (d.go_type ≡ c.go_type)

-- What the registry of the Prometheus client documents. `Holds c r` says that `c` is registered.
pub record RegistryLaws {R : Type 0} (register : Collector → R → Registration × R)
    (must_register : List Collector → R → Option R) (Holds : Collector → R → Type 0) : Type 0 where
  pub accepts :
      (c : Collector) (r : R)
      → ((d : Collector) → Holds d r → d.name ≢ c.name)
      → (register c r).0 ≡ accepted
  pub again : (c d : Collector) (r : R) → Holds d r → SameSeries d c → (register c r).0 ≡ already d
  pub holds : (c : Collector) (r : R) → (register c r).0 ≡ accepted → Holds c (register c r).1
  pub keeps : (c d : Collector) (r : R) → Holds d r → Holds d (register c r).1
  pub adds :
      (c d : Collector) (r : R)
      → Holds d (register c r).1
      → ((d ≡ c) × ((register c r).0 ≡ accepted)) ⊎ Holds d r
  -- MustRegister registers its arguments in turn.
  pub must_nothing : (r : R) → must_register [] r ≡ some r
  pub must_next :
      (c : Collector) (cs : List Collector) (r : R)
      → (register c r).0 ≡ accepted
      → must_register (c ∷ cs) r ≡ must_register cs (register c r).1

abbrev pub named : String → List Collector → Bool
named n [] = false
named n (d ∷ ds) = let rest = named n ds in ite (string_discrete d.name n) true rest

abbrev pub all_differ : List Collector → Bool
all_differ [] = true
all_differ (c ∷ cs) = let rest = all_differ cs in if named c.name cs then false else rest

-- The collectors put in front, the last one first.
abbrev pub added : List Collector → List Collector → List Collector
added [] l = l
added (c ∷ cs) l = added cs (c ∷ l)

named-Has :
    (n : String) (d : Collector) (ds : List Collector) → named n ds ≡ false → Has d ds → d.name ≢ n
named-Has n d [] e m p = absurd m
named-Has n d (x ∷ ds) e (inl q) p = ground arith
named-Has n d (x ∷ ds) e (inr m) p = elim (string_discrete x.name n) [
  | yes y ↦ ground arith
  | no y ↦ named-Has n d ds (ground arith) m p
]

pub differ_rest :
    (c : Collector) (l : List Collector)
    → all_differ (c ∷ l) ≡ true
    → (named c.name l ≡ false) × (all_differ l ≡ true)
differ_rest c l e = ground (arith, Bool-cases (named c.name l))

differ_added : (cs l : List Collector) → all_differ (added cs l) ≡ true → all_differ l ≡ true
differ_added [] l e = e
differ_added (c ∷ cs) l e = (differ_rest c l (differ_added cs (c ∷ l) e)).1

Has-added : (d : Collector) (cs l : List Collector) → Has d l → Has d (added cs l)
Has-added d [] l m = m
Has-added d (c ∷ cs) l m = Has-added d cs (c ∷ l) (inr m)

module _ {R : Type 0} (register : Collector → R → Registration × R)
    (must_register : List Collector → R → Option R) {Holds : Collector → R → Type 0}
    (laws : RegistryLaws register must_register Holds) where
  abbrev pub Only : List Collector → R → Type 0
  Only l r = (d : Collector) → Holds d r → Has d l

  fresh :
      (c : Collector) (l : List Collector) (r : R)
      → named c.name l ≡ false
      → Only l r
      → (register c r).0 ≡ accepted
  fresh c l r e only = laws.accepts c r (λ d h. named-Has c.name d l e (only d h))

  grown : (c : Collector) (l : List Collector) (r : R) → Only l r → Only (c ∷ l) (register c r).1
  grown c l r only d h = elim (laws.adds c d r h) [
    | inl (e, _) ↦ inl e
    | inr old ↦ inr (only d old)
  ]

  must_register_lem :
      (cs l : List Collector) (r : R)
      → all_differ (added cs l) ≡ true
      → Only l r
      → (r' : R) × (must_register cs r ≡ some r') × Only (added cs l) r'
  must_register_lem [] l r e only = (r, laws.must_nothing r, only)
  must_register_lem (c ∷ cs) l r e only =
      let new = fresh c l r (differ_rest c l (differ_added cs (c ∷ l) e)).0 only in
      let (r', eq, only') = must_register_lem cs (c ∷ l) (register c r).1 e (grown c l r only) in
      (r', laws.must_next c cs r new ∙ eq, only')

  abbrev pub added_all : List (Bool × List Collector) → List Collector → List Collector
  added_all [] l = l
  added_all ((b, cs) ∷ rest) l = added_all rest (added cs l)

  differ_added_all :
      (steps : List (Bool × List Collector)) (l : List Collector)
      → all_differ (added_all steps l) ≡ true
      → all_differ l ≡ true
  differ_added_all [] l e = e
  differ_added_all ((b, cs) ∷ steps) l e = differ_added cs l (differ_added_all steps (added cs l) e)

  must_register_if_lem :
      (wanted : Bool) (cs l : List Collector) (r : R)
      → all_differ (added cs l) ≡ true
      → Only l r
      → (r' : R) × (must_register_if register must_register wanted cs r ≡ some r')
        × Only (added cs l) r'
  unfolding must_register_if
  must_register_if_lem true cs l r e only = must_register_lem cs l r e only
  must_register_if_lem false cs l r e only = (r, refl, λ d h. Has-added d cs l (only d h))

  pub all_registered_lem :
      (steps : List (Bool × List Collector)) (l : List Collector) (r : R)
      → all_differ (added_all steps l) ≡ true
      → Only l r
      → (r' : R) × (all_registered register must_register steps r ≡ some r')
        × Only (added_all steps l) r'
  unfolding all_registered
  all_registered_lem [] l r e only = (r, refl, only)
  all_registered_lem ((b, cs) ∷ steps) l r e only =
      let (r1, one, only1) =
        must_register_if_lem b cs l r (differ_added_all steps (added cs l) e) only in
      let (r', more, only') = all_registered_lem steps (added cs l) r1 e only1 in
      (r', ground arith, only')

  same_type : (c : Collector) → (type_number c.go_type == type_number c.go_type) ≡ true
  same_type c = ground arith

  -- The collector to use is the one at hand if it is new, and the registered one of its series if there is one.
  pub reused :
      (c d : Collector) (l : List Collector) (r : R)
      → Only l r
      → ((c ≡ d) × (named c.name l ≡ false)) ⊎ (Holds d r × SameSeries d c)
      → let r' = (register c r).1 in
        (register_or_reuse register must_register c r ≡ some (d, r')) × Only (d ∷ l) r' × Holds d r'
  unfolding register_or_reuse
  reused c d l r only (inl (same, new)) =
      let ok = fresh c l r new only in
      (
        ground arith,
        subst (λ x. Only (x ∷ l) (register c r).1) same (grown c l r only),
        subst (λ x. Holds x (register c r).1) same (laws.holds c r ok),
      )
  reused c d l r only (inr (there, series)) =
      let known = laws.again c d r there series in
      (
        ground (arith, same_type c, series),
        λ x h. elim (laws.adds c x r h) [
          | inl (_, new) ↦ absurd (ground arith)
          | inr old ↦ inr (only x old)
        ],
        laws.keeps c d r there,
      )
