-- ===== src/Schema/Genuine.antt =====
-- Where the schemas of the cache of internal/schema/cache.go come from.
use pubsub_event_processor.Common.{
  ℕ, String, ◌≡◌, refl, inl, inr, subst, some, [], Result, ok, err, Error, arith, lookup, insert,
  string_discrete, Option-cases, Result-cases, lookup-insert,
}
use pubsub_event_processor.Schema.{Cache, parse_and_store, fetch, get}

-- `Gave id text` says that `text` is the schema under an ID; the source answers with such a text, or an error.
module _ {Sch X N : Type 0} (src : String → N → Result (Error X) String × N)
    (parse : String → Result X Sch) {Gave : String → String → Type 0}
    (gives : (id : String) (n : N) (text : String) → (src id n).0 ≡ ok text → Gave id text) where
  -- The schema is the parsed text of the ID.
  abbrev pub IsSchemaOf : String → Sch → Type 0
  IsSchemaOf id sch = (text : String) × Gave id text × (parse text ≡ ok sch)

  -- Every schema in the cache is one of the ID that it stands under.
  unfoldable pub IsGenuine : Cache Sch → Type 0
  IsGenuine c =
      (id : String) (sch : Sch) → lookup string_discrete id c.parsed ≡ some sch → IsSchemaOf id sch

  pub empty-IsGenuine : (c : Cache Sch) → c.parsed ≡ [] → IsGenuine c
  unfolding IsGenuine lookup
  empty-IsGenuine c e id sch h = absurd (ground arith)

  stored-IsGenuine :
      (id text : String) (sch : Sch) (c : Cache Sch)
      → Gave id text
      → parse text ≡ ok sch
      → IsGenuine c
      → IsGenuine (record c { parsed = insert string_discrete id sch c.parsed })
  unfolding IsGenuine
  stored-IsGenuine id text sch c gave parsed h j other e = elim (string_discrete id j) [
    | yes same ↦ (
      text,
      subst (λ k. Gave k text) same gave,
      ground (arith, parsed, e, lookup-insert string_discrete id j sch c.parsed),
    )
    | no differ ↦ h j other (ground (arith, e, lookup-insert string_discrete id j sch c.parsed))
  ]

  counted :
      (c : Cache Sch) (hits misses : ℕ)
      → IsGenuine c
      → IsGenuine (record { parsed = c.parsed; hits = hits; misses = misses })
  unfolding IsGenuine
  counted c hits misses h = h

  abbrev Fetched : String → Result (Error X) Sch × (Cache Sch × N) → Type 0
  Fetched id (r, (c, n)) = ((sch : Sch) → r ≡ ok sch → IsSchemaOf id sch) × IsGenuine c

  answered :
      (id : String) (c : Cache Sch) (r : Result (Error X) String)
      → IsGenuine c
      → ((text : String) → r ≡ ok text → Gave id text)
      → let (given, c') = parse_and_store parse id r c in
        ((sch : Sch) → given ≡ ok sch → IsSchemaOf id sch) × IsGenuine c'
  answered id c (err x) h gave = (λ sch e. absurd (ground arith), h)
  answered id c (ok text) h gave = elim (Result-cases (parse text)) [
    | inr (x, e) ↦ rw (e, parse_and_store) (λ sch same. absurd (ground arith), h)
    | inl (sch, e) ↦
        rw (e, parse_and_store)
          (
            λ other same. (text, gave text refl, ground (arith, e, same)),
            stored-IsGenuine id text sch c (gave text refl) e h,
          )
  ]

  there :
      (id : String) (c : Cache Sch) (sch : Sch)
      → IsGenuine c
      → lookup string_discrete id c.parsed ≡ some sch
      → (other : Sch) → (let given : Result (Error X) Sch = ok sch in given) ≡ ok other
      → IsSchemaOf id other
  unfolding IsGenuine
  there id c sch h e other same = h id other (ground arith)

  fetch-IsGenuine :
      (id : String) (c : Cache Sch) (n : N) → IsGenuine c → Fetched id (fetch src parse id (c, n))
  unfolding fetch
  fetch-IsGenuine id c n h = elim (Option-cases (lookup string_discrete id c.parsed)) [
    | inr (sch, e) ↦ rw (e, fetch) (λ x same. there id c sch h e x same, h)
    | inl e ↦ rw (e, fetch) (answered id c (src id n).0 h (λ text same. gives id n text same))
  ]

  -- `Get` answers with a schema of its ID, and keeps the cache so.
  pub get-IsGenuine :
      (id : String) (c : Cache Sch) (n : N) → IsGenuine c → Fetched id (get src parse id (c, n))
  unfolding get
  get-IsGenuine id c n h = elim (Option-cases (lookup string_discrete id c.parsed)) [
    | inr (sch, e) ↦ rw (e, get) (λ x same. there id c sch h e x same, counted c _ _ h)
    | inl e ↦ rw (e, get) (fetch-IsGenuine id _ n (counted c _ _ h))
  ]
