-- ===== src/Schema/Flights/Held.antt =====
-- internal/schema/cache.go: what the callers of `Get` find in the cache while others fetch.
use pubsub_event_processor.Common.{
  ℕ, ℕ_discrete, ◌≡◌, String, Option, none, some, Result, ok, err, Error, lookup, string_discrete,
  arith, Option-cases, Result-cases, ◌≢◌, inl, inr, lookup-insert, lookup-insert_self, refl, ◌⊎◌,
}
use pubsub_event_processor.Schema.{Cache, parse_and_store}
use pubsub_event_processor.Singleflight.{
  Caller, idle, missed, leading, asking, waiting, finishing, returned, Flights, FlightState, Step,
  look, join, lead, look_again, answer, finish, leave, looked, looked_again, update, handed_on,
  result,
}
use pubsub_event_processor.Singleflight.Manned.{IsManned}
use pubsub_event_processor.Schema.Flights.{parsed_again, look_up, get_client}

module _ {G Sch X : Type 0} (f : Flights G) (parse : String → Result X Sch) where
  abbrev pub GetState : Type 0
  GetState = FlightState G (Cache Sch) (Result (Error X) Sch)

  pub record IsCached (s : GetState) : Type 0 where
    pub holds :
        (i : ℕ) (k : String) (sch : Sch)
        → result (s.callers i) ≡ some (k, ok sch)
        → lookup string_discrete k s.cache.parsed ≡ some sch
    pub misses :
        (i : ℕ) (k : String)
        → s.callers i ≡ asking k
        → lookup string_discrete k s.cache.parsed ≡ none

  answer_holds :
      (raw : Result (Error X) String) (k : String) (c : Cache Sch) (sch : Sch)
      → (parse_and_store parse k raw c).0 ≡ ok sch
      → lookup string_discrete k (parse_and_store parse k raw c).1.parsed ≡ some sch
  answer_holds (err x) k c sch h = ground arith
  answer_holds (ok raw) k c sch h =
      ground (arith, Result-cases (parse raw), lookup-insert_self string_discrete k sch c.parsed)

  pub answer_other :
      (raw : Result (Error X) String) (k j : String) (c : Cache Sch)
      → k ≢ j
      → lookup string_discrete j (parse_and_store parse k raw c).1.parsed
        ≡ lookup string_discrete j c.parsed
  answer_other (err x) k j c ne = refl
  answer_other (ok raw) k j c ne = elim (Result-cases (parse raw)) [
    | inl (sch, e) ↦ ground (arith, lookup-insert string_discrete k j sch c.parsed)
    | inr (x, e) ↦ ground arith
  ]

  look_parsed : (k : String) (c : Cache Sch) → (look_up {X = X} k c).1.parsed ≡ c.parsed
  look_parsed k c = ground (arith, Option-cases (lookup string_discrete k c.parsed))

  look_holds :
      (k n : String) (c : Cache Sch) (sch : Sch)
      → result (looked k (look_up {X = X} k c).0) ≡ some (n, ok sch)
      → lookup string_discrete n c.parsed ≡ some sch
  look_holds k n c sch h = ground (arith, Option-cases (lookup string_discrete k c.parsed))

  -- A step of caller `i` that leaves the parsed schemas as they are.
  moved-IsCached :
      (g h : G) (c d : Cache Sch) (cs : ℕ → Caller (Result (Error X) Sch)) (i : ℕ)
      (x : Caller (Result (Error X) Sch))
      → d.parsed ≡ c.parsed
      → ((n : String) (sch : Sch)
          → result x ≡ some (n, ok sch)
          → lookup string_discrete n c.parsed ≡ some sch)
      → ((n : String) → x ≡ asking n → lookup string_discrete n c.parsed ≡ none)
      → IsCached (record { group = g; cache = c; callers = cs })
      → IsCached (record { group = h; cache = d; callers = update cs i x })
  moved-IsCached g h c d cs i x same has lacks m = record {
    holds = λ j n sch e. elim (ℕ_discrete i j) [
      | yes p ↦ ground (arith, has n sch (ground arith))
      | no p ↦ ground (arith, m.holds j n sch (ground arith))
    ];
    misses = λ j n e. elim (ℕ_discrete i j) [
      | yes p ↦ ground (arith, lacks n (ground arith))
      | no p ↦ ground (arith, m.misses j n (ground arith))
    ];
  }

  handed_on_result :
      (k : String) (r : Result (Error X) Sch) (c : Caller (Result (Error X) Sch)) (n : String)
      (sch : Sch)
      → result (handed_on k r c) ≡ some (n, ok sch)
      → (result c ≡ some (n, ok sch)) ⊎ ((n ≡ k) × (r ≡ ok sch))
  handed_on_result k r (waiting j) n sch h = elim (string_discrete k j) [
    | yes e ↦ inr (ground arith, ground arith)
    | no d ↦ absurd (ground arith)
  ]
  handed_on_result k r idle n sch h = inl h
  handed_on_result k r (missed j) n sch h = inl h
  handed_on_result k r (leading j) n sch h = inl h
  handed_on_result k r (asking j) n sch h = inl h
  handed_on_result k r (finishing j q) n sch h = inl h
  handed_on_result k r (returned j q) n sch h = inl h

  handed_on_asking :
      (k : String) (r : Result (Error X) Sch) (c : Caller (Result (Error X) Sch)) (n : String)
      → handed_on k r c ≡ asking n
      → c ≡ asking n
  handed_on_asking k r (waiting j) n h = absurd (ground arith)
  handed_on_asking k r idle n h = h
  handed_on_asking k r (missed j) n h = h
  handed_on_asking k r (leading j) n h = h
  handed_on_asking k r (asking j) n h = h
  handed_on_asking k r (finishing j q) n h = h
  handed_on_asking k r (returned j q) n h = h

  -- The flight of caller `i` hands its result on.
  finished-IsCached :
      (g h : G) (c : Cache Sch) (cs : ℕ → Caller (Result (Error X) Sch)) (i : ℕ) (k : String)
      (r : Result (Error X) Sch)
      → cs i ≡ finishing k r
      → IsCached (record { group = g; cache = c; callers = cs })
      → IsCached (record {
        group = h;
        cache = c;
        callers = λ j. handed_on k r (update cs i (returned k r) j);
      })
  finished-IsCached g h c cs i k r at m =
      let own : (sch : Sch) → r ≡ ok sch → lookup string_discrete k c.parsed ≡ some sch =
        λ sch e. m.holds i k sch (ground arith) in
      let before =
        moved-IsCached g h c c cs i (returned k r) refl (λ n sch e. m.holds i n sch (ground arith))
          (λ n e. absurd (ground arith)) m in
      record {
        holds = λ j n sch e. elim (handed_on_result k r (update cs i (returned k r) j) n sch e) [
          | inl p ↦ before.holds j n sch p
          | inr (p, q) ↦ ground (arith, own sch q)
        ];
        misses = λ j n e. before.misses j n (handed_on_asking k r _ n e);
      }

  -- The source has answered the caller `i`, the only one that asks for `k`.
  answered-IsCached :
      (g : G) (c : Cache Sch) (cs : ℕ → Caller (Result (Error X) Sch)) (i : ℕ) (k : String)
      (raw : Result (Error X) String)
      → cs i ≡ asking k
      → ((j : ℕ) → cs j ≡ asking k → i ≡ j)
      → IsCached (record { group = g; cache = c; callers = cs })
      → IsCached (record {
        group = g;
        cache = (parse_and_store parse k raw c).1;
        callers = update cs i (finishing k (parse_and_store parse k raw c).0);
      })
  answered-IsCached g c cs i k raw at only m =
      let missing = m.misses i k at in
      record {
        holds = λ j n sch e. elim (ℕ_discrete i j) [
          | yes p ↦ ground (arith, answer_holds raw k c sch)
          | no p ↦
              let old = m.holds j n sch (ground arith) in
              elim (string_discrete k n) [
                | yes q ↦ absurd (ground arith)
                | no q ↦ ground (arith, answer_other raw k n c q)
              ]
        ];
        misses = λ j n e. elim (ℕ_discrete i j) [
          | yes p ↦ absurd (ground arith)
          | no p ↦ elim (string_discrete k n) [
            | yes q ↦ absurd (p (only j (ground arith)))
            | no q ↦ ground (arith, answer_other raw k n c q, m.misses j n (ground arith))
          ]
        ];
      }

  pub step-IsCached :
      {s t : GetState} (l : String → Option ℕ)
      → Step f (get_client parse) s t
      → IsManned f s l
      → IsCached s
      → IsCached t
  step-IsCached {s} l (look i k at) mn m =
      moved-IsCached s.group s.group s.cache (look_up {X = X} k s.cache).1 s.callers i
        (looked k (look_up k s.cache).0) (look_parsed k s.cache)
        (λ n sch h. look_holds k n s.cache sch h)
        (λ n h. ground (arith, Option-cases (lookup string_discrete k s.cache.parsed))) m
  step-IsCached {s} l (join i k at busy) mn m =
      moved-IsCached s.group s.group s.cache s.cache s.callers i (waiting k) refl
        (λ n sch h. ground arith) (λ n h. ground arith) m
  step-IsCached {s} l (lead i k at free) mn m =
      moved-IsCached s.group _ s.cache s.cache s.callers i (leading k) refl
        (λ n sch h. ground arith) (λ n h. ground arith) m
  step-IsCached {s} l (look_again i k at) mn m =
      moved-IsCached s.group s.group s.cache s.cache s.callers i
        (looked_again k (parsed_again k s.cache)) refl
        (λ n sch h. ground (arith, Option-cases (lookup string_discrete k s.cache.parsed)))
        (λ n h. ground (arith, Option-cases (lookup string_discrete k s.cache.parsed))) m
  step-IsCached {s} l (answer i k raw at) mn m =
      answered-IsCached s.group s.cache s.callers i k raw at
        (λ j h. ground (arith, mn.owner i k (ground arith), mn.owner j k (ground arith))) m
  step-IsCached {s} l (finish i k r at) mn m =
      finished-IsCached s.group _ s.cache s.callers i k r at m
  step-IsCached {s} l (leave i k r at) mn m =
      moved-IsCached s.group s.group s.cache s.cache s.callers i idle refl (λ n sch h. ground arith)
        (λ n h. ground arith) m
