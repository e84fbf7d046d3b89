-- ===== src/Schema.antt =====
-- internal/schema: the cache of parsed schemas and the decoder. `Sch` are parsed Avro schemas, `P`
-- decoded payloads.
pub mod Cached
pub mod Flights
pub mod Genuine
use pubsub_event_processor.Common.{
  ℕ, ◌+◌, String, Bool, Option, none, some, List, [], ◌∷◌, Result, ok, err, Error, cause, message,
  wrap, text, quoted, lookup, insert, string_discrete,
}
use pubsub_event_processor.Replay.Cursor.{Bytes}

-- `Cache`: the map `parsed` and the two counters.
pub record Cache (Sch : Type 0) : Type 0 where
  pub parsed : List (String × Sch)
  pub hits : ℕ
  pub misses : ℕ

-- `NewCache`
abbrev pub new_cache : {Sch : Type 0} → Cache Sch
new_cache = record { parsed = []; hits = 0; misses = 0 }

-- `Get` once the source has answered: parse and store.
abbrev pub parse_and_store :
    {Sch X : Type 0}
    → (String → Result X Sch)
    → String
    → Result (Error X) String
    → Cache Sch
    → Result (Error X) Sch × Cache Sch
parse_and_store parse id (err x) c = (err (wrap (quoted "fetch schema" id) x), c)
parse_and_store parse id (ok raw) c = elim (parse raw) [
  | err x ↦ (err (wrap (quoted "parse schema" id) (cause x)), c)
  | ok sch ↦ (ok sch, record c { parsed = insert string_discrete id sch c.parsed })
]

module _ {Sch X S : Type 0} (src : String → S → Result (Error X) String × S)
    (parse : String → Result X Sch) where
  -- The function that `singleflight` runs once for the callers that wait on one ID. It looks again, since
  -- another flight may have stored the schema after this caller's first look.
  unfoldable pub fetch : String → Cache Sch × S → Result (Error X) Sch × (Cache Sch × S)
  fetch id (c, s) = elim (lookup string_discrete id c.parsed) [
    | some sch ↦ (ok sch, (c, s))
    | none ↦
        let (raw, s') = src id s in let (r, c') = parse_and_store parse id raw c in (r, (c', s'))
  ]

  -- `Get` of a caller that leads its flight.
  unfoldable pub get : String → Cache Sch × S → Result (Error X) Sch × (Cache Sch × S)
  unfolding fetch
  get id (c, s) = elim (lookup string_discrete id c.parsed) [
    | some sch ↦ (ok sch, (record c { hits = c.hits + 1 }, s))
    | none ↦ fetch id (record c { misses = c.misses + 1 }, s)
  ]

-- `Decode`; a nil schema is `none`, and `unmarshal` is avro.Unmarshal.
unfoldable pub decode :
    {Sch P X : Type 0} → (Sch → Bytes → Result X P) → Option Sch → Bytes → Result (Error X) P
decode unmarshal none payload = err (message "nil schema")
decode unmarshal (some sch) [] = err (message "empty payload")
decode unmarshal (some sch) (b ∷ bs) = elim (unmarshal sch (b ∷ bs)) [
  | err x ↦ err (wrap (text "avro unmarshal") (cause x))
  | ok payload ↦ ok payload
]
