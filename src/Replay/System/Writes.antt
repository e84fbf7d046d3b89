-- ===== src/Replay/System/Writes.antt =====
-- The writes of a flush keep the invariant of the system, also those that fail.
use pubsub_event_processor.Common.{
  ℕ, String, ◌≡◌, ◌∙◌, subst, ◌≢◌, ◌⊎◌, inl, inr, true, false, none, some, [], ◌∷◌, lookup, insert,
  string_discrete, arith, lookup-insert, Distinct, Option-cases,
}
use pubsub_event_processor.Replay.Cursor.{ReplayId}
use pubsub_event_processor.Replay.Committer.{Topics, Pending, Committer, mark_dirty}
use pubsub_event_processor.Replay.System.Tracks.{Tracks}
use pubsub_event_processor.Replay.System.Safety.{SysInv, Tracks-dirty}
use pubsub_event_processor.Replay.System.{System, IsSafe, with_save, with_failure}

module _ (rid : String → ℕ → ReplayId) (initial : Pending) where
  -- The first entry of a snapshot, and the others.
  head_entry :
      (topic : String) (r : ReplayId) (rest : Pending)
      → lookup string_discrete topic ((topic, r) ∷ rest) ≡ some r
  unfolding lookup
  head_entry topic r rest = ground arith

  tail_entry :
      (k topic : String) (r : ReplayId) (rest : Pending)
      → topic ≢ k
      → lookup string_discrete k ((topic, r) ∷ rest) ≡ lookup string_discrete k rest
  unfolding lookup
  tail_entry k topic r rest n = ground arith

  -- What is left of a snapshot is still safe to write.
  rest_flight :
      (s : System) (topic : String) (r : ReplayId) (rest : Pending)
      → s.writing ≡ (topic, r) ∷ rest
      → lookup string_discrete topic rest ≡ none
      → SysInv rid initial s
      → (k : String) (q : ReplayId) → lookup string_discrete k rest ≡ some q
      → IsSafe rid k s.reports q
  rest_flight s topic r rest w fresh v k q e = elim (string_discrete topic k) [
    | yes p ↦ absurd (ground arith)
    | no n ↦ v.flight k q (rw w (tail_entry k topic r rest n ∙ e))
  ]

  written-IsSafe :
      (s : System) (topic : String) (r : ReplayId) (rest : Pending)
      → s.writing ≡ (topic, r) ∷ rest
      → SysInv rid initial s
      → IsSafe rid topic s.reports r
  written-IsSafe s topic r rest w v = v.flight topic r (rw w (head_entry topic r rest))

  -- A write puts a safe replay ID into the table.
  stored_after :
      (s : System) (topic : String) (r : ReplayId) (rest : Pending)
      → s.writing ≡ (topic, r) ∷ rest
      → SysInv rid initial s
      → (k : String) (q : ReplayId)
      → lookup string_discrete k (insert string_discrete topic r s.table) ≡ some q
      → (lookup string_discrete k initial ≡ some q) ⊎ IsSafe rid k s.reports q
  stored_after s topic r rest w v k q e = elim (string_discrete topic k) [
    | yes p ↦ inr (
        subst (IsSafe rid k s.reports)
          (ground (arith, lookup-insert string_discrete topic k r s.table))
          (subst (λ j. IsSafe rid j s.reports r) p (written-IsSafe s topic r rest w v)))
    | no n ↦ v.stored k q (ground (arith, lookup-insert string_discrete topic k r s.table))
  ]

  rest_once :
      (s : System) (topic : String) (r : ReplayId) (rest : Pending)
      → s.writing ≡ (topic, r) ∷ rest
      → SysInv rid initial s
      → Distinct string_discrete ((topic, r) ∷ rest)
  rest_once s topic r rest w v = subst (Distinct string_discrete) w v.once

  still_busy :
      (s : System) (topic : String) (r : ReplayId) (rest : Pending)
      → s.writing ≡ (topic, r) ∷ rest
      → SysInv rid initial s
      → s.busy ≡ false
      → rest ≡ []
  still_busy s topic r rest w v free = absurd (cc (v.idle free))

  pub saved-SysInv :
      (s : System) (topic : String) (r : ReplayId) (rest : Pending)
      → s.writing ≡ (topic, r) ∷ rest
      → SysInv rid initial s
      → SysInv rid initial (record s {
        committer = with_save s.committer;
        table = insert string_discrete topic r s.table;
        writing = rest;
      })
  saved-SysInv s topic r rest w v = record {
    tracks = v.tracks;
    once = (rest_once s topic r rest w v).1;
    idle = still_busy s topic r rest w v;
    flight = rest_flight s topic r rest w (rest_once s topic r rest w v).0 v;
    stored = stored_after s topic r rest w v;
    kept = λ k u e calm big. ground (
      arith,
      v.kept k u e calm big,
      (rest_once s topic r rest w v).0,
      head_entry topic r rest,
      tail_entry k topic r rest,
      lookup-insert string_discrete topic k r s.table,
    );
  }

  -- After a failed write, whether or not the table changed.
  pub failed-SysInv :
      (s : System) (topic : String) (r : ReplayId) (rest table : Pending) (c : Committer)
      → s.writing ≡ (topic, r) ∷ rest
      → mark_dirty topic (with_failure s.committer) ≡ some c
      → (table ≡ s.table) ⊎ (table ≡ insert string_discrete topic r s.table)
      → SysInv rid initial s
      → SysInv rid initial (record s { committer = c; table = table; writing = rest })
  unfolding mark_dirty
  failed-SysInv s topic r rest table c w m tab v =
      elim (Option-cases (lookup string_discrete topic s.committer.topics)) [
        | inl absent ↦ absurd (ground arith)
        | inr (t, there) ↦
            let topics : Topics =
              insert string_discrete topic (record t { dirty = true }) s.committer.topics in
            let after : topics ≡ c.topics = ground arith in
            record {
              tracks =
                  subst (λ m. Tracks rid m s.reports) after
                    (Tracks-dirty rid initial topic r t s.committer.topics s.reports there
                      (written-IsSafe s topic r rest w v) v.tracks);
              once = (rest_once s topic r rest w v).1;
              idle = still_busy s topic r rest w v;
              flight = rest_flight s topic r rest w (rest_once s topic r rest w v).0 v;
              stored = λ k q e. elim tab [
                | inl same ↦ v.stored k q (rw same at e)
                | inr new ↦ stored_after s topic r rest w v k q (rw new at e)
              ];
              kept = λ k u e calm big. elim (string_discrete topic k) [
                | yes p ↦ absurd (
                    ground (
                      arith,
                      lookup-insert string_discrete topic k (record t { dirty = true })
                          s.committer.topics,
                    ))
                | no n ↦ ground (
                  arith,
                  v.kept k u,
                  lookup-insert string_discrete topic k (record t { dirty = true })
                      s.committer.topics,
                  tail_entry k topic r rest n,
                  lookup-insert string_discrete topic k r s.table,
                )
              ];
            }
      ]
