-- ===== src/Metrics/Startup.antt =====
-- The registrations of a start, one after the other.
use pubsub_event_processor.Common.{
  ℕ, ◌+◌, ◌≡◌, refl, ap, ◌⊎◌, inl, inr, String, Bool, true, false, some, List, [], ◌∷◌, map, arith,
  string_discrete, Option,
}
use pubsub_event_processor.Metrics.{
  Collector, SubscriberMetrics, provider_metrics, client_metrics, schema_metrics, producer_metrics,
  dedup_metrics, committer_metrics, pool_metrics, subscriber_metrics, Registration,
  new_subscriber_metrics, subscribe_metrics, new_metrics,
}
use pubsub_event_processor.Metrics.Registry.{
  RegistryLaws, SameSeries, all_differ, differ_rest, Only, added_all, all_registered_lem, reused,
  named,
}

abbrev received : ℕ → Collector
received k = (subscriber_metrics k).events_received

abbrev reconnects : ℕ → Collector
reconnects k = (subscriber_metrics k).reconnects

abbrev open_streams : ℕ → Collector
open_streams k = (subscriber_metrics k).stream_open

module _ {R : Type 0} (register : Collector → R → Registration × R)
    (must_register : List Collector → R → Option R) {Holds : Collector → R → Type 0}
    (laws : RegistryLaws register must_register Holds) where
  abbrev HoldsAll : SubscriberMetrics → R → Type 0
  HoldsAll m r = Holds m.events_received r × Holds m.reconnects r × Holds m.stream_open r

  abbrev subscribed : List Collector → List Collector
  subscribed l = open_streams 0 ∷ reconnects 0 ∷ received 0 ∷ l

  -- The first subscriber's collectors are new to the registry, or there already.
  abbrev Ready : ℕ → List Collector → R → Type 0
  Ready k l r = ((k ≡ 0) × (all_differ (subscribed l) ≡ true)) ⊎ HoldsAll (subscriber_metrics 0) r

  first-Ready :
      (k : ℕ) (l : List Collector) (r : R)
      → Ready k l r
      → ((received k ≡ received 0) × (named (received k).name l ≡ false))
        ⊎ (Holds (received 0) r × SameSeries (received 0) (received k))
  first-Ready k l r (inr (a, b, c)) = inr (a, (refl, refl, refl))
  first-Ready k l r (inl (z, e)) = inl (
    ap received z,
    (differ_rest (received 0) l
        (differ_rest (reconnects 0) (received 0 ∷ l)
          (differ_rest (open_streams 0) (reconnects 0 ∷ received 0 ∷ l) e).1).1).0,
  )

  second-Ready :
      (k : ℕ) (l : List Collector) (r r' : R)
      → ((d : Collector) → Holds d r → Holds d r')
      → Ready k l r
      → ((reconnects k ≡ reconnects 0) × (named (reconnects k).name (received 0 ∷ l) ≡ false))
        ⊎ (Holds (reconnects 0) r' × SameSeries (reconnects 0) (reconnects k))
  second-Ready k l r r' keep (inr (a, b, c)) = inr (keep (reconnects 0) b, (refl, refl, refl))
  second-Ready k l r r' keep (inl (z, e)) = inl (
    ap reconnects z,
    (differ_rest (reconnects 0) (received 0 ∷ l)
        (differ_rest (open_streams 0) (reconnects 0 ∷ received 0 ∷ l) e).1).0,
  )

  third-Ready :
      (k : ℕ) (l : List Collector) (r r' : R)
      → ((d : Collector) → Holds d r → Holds d r')
      → Ready k l r
      → ((open_streams k ≡ open_streams 0)
          × (named (open_streams k).name (reconnects 0 ∷ received 0 ∷ l) ≡ false))
        ⊎ (Holds (open_streams 0) r' × SameSeries (open_streams 0) (open_streams k))
  third-Ready k l r r' keep (inr (a, b, c)) = inr (keep (open_streams 0) c, (refl, refl, refl))
  third-Ready k l r r' keep (inl (z, e)) =
      inl (ap open_streams z, (differ_rest (open_streams 0) (reconnects 0 ∷ received 0 ∷ l) e).0)

  subscriber_lem :
      (k : ℕ) (l : List Collector) (r : R)
      → Only register must_register laws l r
      → Ready k l r
      → (r' : R) × (new_subscriber_metrics register must_register k r
          ≡ some (subscriber_metrics 0, r'))
        × Only register must_register laws (subscribed l) r'
        × HoldsAll (subscriber_metrics 0) r'
  unfolding new_subscriber_metrics
  subscriber_lem k l r only state =
      let a = received 0 in
      let b = reconnects 0 in
      let c = open_streams 0 in
      let r1 = (register (received k) r).1 in
      let r2 = (register (reconnects k) r1).1 in
      let r3 = (register (open_streams k) r2).1 in
      let (e1, only1, has1) =
        reused register must_register laws (received k) a l r only (first-Ready k l r state) in
      let (e2, only2, has2) =
        reused register must_register laws (reconnects k) b (a ∷ l) r1 only1
          (second-Ready k l r r1 (λ d. laws.keeps (received k) d r) state) in
      let (e3, only3, has3) =
        reused register must_register laws (open_streams k) c (b ∷ a ∷ l) r2 only2 (
          third-Ready k l r r2
            (λ d h. laws.keeps (reconnects k) d r1 (laws.keeps (received k) d r h)) state) in
      (
        r3,
        ground arith,
        only3,
        (
          laws.keeps (open_streams k) a r2 (laws.keeps (reconnects k) a r1 has1),
          laws.keeps (open_streams k) b r2 has2,
          has3,
        ),
      )

  -- Collectors that are in the list already.
  collapsed :
      (l : List Collector) (r : R)
      → Only register must_register laws (subscribed (subscribed l)) r
      → Only register must_register laws (subscribed l) r
  collapsed l r only d h = elim (only d h) [
    | inl e ↦ inl e
    | inr (inl e) ↦ inr (inl e)
    | inr (inr (inl e)) ↦ inr (inr (inl e))
    | inr (inr (inr m)) ↦ m
  ]

  later_subscribers :
      (k : ℕ) (topics : List String) (l : List Collector) (r : R)
      → Only register must_register laws (subscribed l) r
      → HoldsAll (subscriber_metrics 0) r
      → (r' : R) × (subscribe_metrics register must_register k topics r
          ≡ some (map (λ t. subscriber_metrics 0) topics, r'))
        × Only register must_register laws (subscribed l) r'
  unfolding subscribe_metrics
  later_subscribers k [] l r only have = (r, refl, only)
  later_subscribers k (t ∷ topics) l r only have =
      let (r1, one, only1, have1) = subscriber_lem k (subscribed l) r only (inr have) in
      let (r', rest, only') = later_subscribers (k + 1) topics l r1 (collapsed l r1 only1) have1 in
      (r', ground arith, only')

  subscribers :
      (topics : List String) (l : List Collector) (r : R)
      → Only register must_register laws l r
      → all_differ (subscribed l) ≡ true
      → (r' : R) × (subscribe_metrics register must_register 0 topics r
          ≡ some (map (λ t. subscriber_metrics 0) topics, r'))
        × Only register must_register laws (subscribed l) r'
  unfolding subscribe_metrics
  subscribers [] l r only e = (r, refl, λ d h. inr (inr (inr (only d h))))
  subscribers (t ∷ topics) l r only e =
      let (r1, one, only1, have1) = subscriber_lem 0 l r only (inl (refl, e)) in
      let (r', rest, only') = later_subscribers 1 topics l r1 only1 have1 in
      (r', ground arith, only')

  -- On an empty registry, and with any topics, also repeated ones: `New` registers its collectors without a
  -- panic, whichever of Kafka and Redis are enabled. All subscribers use the three collectors that the first one
  -- made and registered, and none uses those that it makes itself after that.
  pub startup_never_panics :
      (topics : List String) (kafka redis : Bool) (r : R)
      → ((d : Collector) → ¬ Holds d r)
      → (r' : R) × (new_metrics register must_register topics kafka redis r
          ≡ some (map (λ t. subscriber_metrics 0) topics, r'))
  unfolding new_metrics string_discrete
  startup_never_panics topics kafka redis r empty =
      let before : List (Bool × List Collector) =
        (true, provider_metrics) ∷ (true, client_metrics) ∷ (true, schema_metrics) ∷ [] in
      let after : List (Bool × List Collector) =
        (kafka, producer_metrics)
        ∷ (redis, dedup_metrics)
        ∷ (true, committer_metrics)
        ∷ (true, pool_metrics)
        ∷ [] in
      let l1 = added_all register must_register laws before [] in
      let (r1, one, only1) =
        all_registered_lem register must_register laws before [] r refl
          (λ d h. absurd (empty d h)) in
      let (r2, two, only2) = subscribers topics l1 r1 only1 refl in
      let (r3, three, only3) =
        all_registered_lem register must_register laws after (subscribed l1) r2 refl only2 in
      (r3, ground arith)
