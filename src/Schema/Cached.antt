-- ===== src/Schema/Cached.antt =====
-- What the schema cache holds, and that it saves the second fetch.
use pubsub_event_processor.Common.{
  ◌+◌, String, ◌≡◌, inl, inr, none, some, List, [], ◌∷◌, Result, ok, err, Error, arith, lookup,
  lookup-insert, lookup-insert_self, string_discrete, Option-cases, Result-cases,
}
use pubsub_event_processor.Schema.{Cache, get}

module _ {Sch X S : Type 0} (src : String → S → Result (Error X) String × S)
    (parse : String → Result X Sch) where
  -- Calls of `Get` one after the other.
  unfoldable pub gets : List String → Cache Sch × S → Cache Sch × S
  gets [] cs = cs
  gets (id ∷ ids) cs = gets ids (get src parse id cs).1

  get_stores :
      (id : String) (cs : Cache Sch × S) (sch : Sch)
      → (get src parse id cs).0 ≡ ok sch
      → lookup string_discrete id (get src parse id cs).1.0.parsed ≡ some sch
  unfolding get
  get_stores id (c, s) sch h = elim (Option-cases (lookup string_discrete id c.parsed)) [
    | inl miss ↦ elim (Result-cases (src id s).0) [
      | inl (raw, a) ↦
          ground
            (arith, Result-cases (parse raw), lookup-insert_self string_discrete id sch c.parsed)
      | inr (x, a) ↦ absurd (ground arith)
    ]
    | inr (old, hit) ↦ ground arith
  ]

  get_keeps :
      (id j : String) (cs : Cache Sch × S) (sch : Sch)
      → lookup string_discrete j cs.0.parsed ≡ some sch
      → lookup string_discrete j (get src parse id cs).1.0.parsed ≡ some sch
  unfolding get
  get_keeps id j (c, s) sch h = elim (Option-cases (lookup string_discrete id c.parsed)) [
    | inl miss ↦ elim (Result-cases (src id s).0) [
      | inl (raw, a) ↦ elim (Result-cases (parse raw)) [
        | inl (new, p) ↦ ground (arith, lookup-insert string_discrete id j new c.parsed)
        | inr (x, p) ↦ ground arith
      ]
      | inr (x, a) ↦ ground arith
    ]
    | inr (old, hit) ↦ ground arith
  ]

  gets_keep :
      (ids : List String) (j : String) (cs : Cache Sch × S) (sch : Sch)
      → lookup string_discrete j cs.0.parsed ≡ some sch
      → lookup string_discrete j (gets ids cs).0.parsed ≡ some sch
  unfolding gets
  gets_keep [] j cs sch h = h
  gets_keep (id ∷ ids) j cs sch h =
      gets_keep ids j (get src parse id cs).1 sch (get_keeps id j cs sch h)

  get_hit :
      (id : String) (cs : Cache Sch × S) (sch : Sch)
      → lookup string_discrete id cs.0.parsed ≡ some sch
      → get src parse id cs ≡ (ok sch, (record cs.0 { hits = cs.0.hits + 1 }, cs.1))
  unfolding get
  get_hit id (c, s) sch h = ground arith

  -- Once `Get` has returned a schema for an ID, every later `Get` of that ID, whatever was got in between,
  -- returns the same schema from memory: it counts a hit, and the source is not asked.
  get_fetches_once :
      (id : String) (ids : List String) (cs : Cache Sch × S) (sch : Sch)
      → (get src parse id cs).0 ≡ ok sch
      → let after = gets ids (get src parse id cs).1 in
        get src parse id after ≡ (ok sch, (record after.0 { hits = after.0.hits + 1 }, after.1))
  get_fetches_once id ids cs sch h =
      get_hit id _ sch (gets_keep ids id (get src parse id cs).1 sch (get_stores id cs sch h))

  -- A failed `Get`, whether the fetch or the parse failed, leaves nothing in the cache, so the next one
  -- tries again.
  get_error_not_cached :
      (id : String) (cs : Cache Sch × S) (e : Error X)
      → (get src parse id cs).0 ≡ err e
      → ((get src parse id cs).1.0.parsed ≡ cs.0.parsed)
        × (lookup string_discrete id cs.0.parsed ≡ none)
  unfolding get
  get_error_not_cached id (c, s) e h = elim (Option-cases (lookup string_discrete id c.parsed)) [
    | inl miss ↦ elim (Result-cases (src id s).0) [
      | inl (raw, a) ↦ ground (arith, Result-cases (parse raw))
      | inr (x, a) ↦ ground arith
    ]
    | inr (old, hit) ↦ ground arith
  ]
