-- ===== src/Replay/Ticks.antt =====
-- `Run` of internal/replay/committer.go and `flushReplay` of internal/app/app.go: one flush after the other.
use pubsub_event_processor.Common.{
  ◌+◌, String, ◌≡◌, refl, ◌∙◌, ap, inl, inr, Bool-cases, true, Option, none, some, List, [], ◌∷◌,
  lookup, insert, insert-Distinct, Distinct, string_discrete, arith, Option-cases,
}
use pubsub_event_processor.Replay.Cursor.{ReplayId, TopicCursor}
use pubsub_event_processor.Replay.Committer.{
  Pending, Committer, cleaned, snapshot, mark_dirty, save_one, flush_loop, flush,
}
use pubsub_event_processor.Replay.Snapshot.{clean, cleaned-Distinct}
use pubsub_event_processor.Replay.Flush.{flush_settles, settled}

mark_dirty-Distinct :
    (topic : String) (c c' : Committer)
    → Distinct string_discrete c.topics
    → mark_dirty topic c ≡ some c'
    → Distinct string_discrete c'.topics
unfolding mark_dirty
mark_dirty-Distinct topic c c' d e = elim (Option-cases (lookup string_discrete topic c.topics)) [
  | inl gone ↦ absurd (ground arith)
  | inr (t, there) ↦
      let moved : c' ≡ record c {
        topics = insert string_discrete topic (record t { dirty = true }) c.topics;
      } =
        ground arith in
      rw moved (insert-Distinct string_discrete topic (record t { dirty = true }) c.topics d)
]

module _ {E : Type 0} where
  -- The ticks of `Run`, with the answers of the store to each; an error is logged. Then nothing but the context
  -- ends it, and it returns nil.
  unfoldable pub run_ticks : List (String → ReplayId → Option E) → Committer → Option Committer
  run_ticks [] c = some c
  run_ticks (save ∷ ticks) c = elim (flush save c) [
    | none ↦ none
    | some (c', e) ↦ run_ticks ticks c'
  ]

  -- `flushReplay`, which logs the error too.
  unfoldable pub flush_replay : (String → ReplayId → Option E) → Committer → Option Committer
  flush_replay save c = elim (flush save c) [ none ↦ none | some (c', e) ↦ some c' ]

  -- The ticks until the shutdown, and the final flush.
  unfoldable pub run_and_flush :
      List (String → ReplayId → Option E)
      → (String → ReplayId → Option E)
      → Committer
      → Option Committer
  unfolding run_ticks flush_replay
  run_and_flush ticks last c = elim (run_ticks ticks c) [
    | none ↦ none
    | some c' ↦ flush_replay last c'
  ]

  save_one-Distinct :
      (save : String → ReplayId → Option E) (topic : String) (rid : ReplayId) (c c' : Committer)
      (first first' : Option E)
      → Distinct string_discrete c.topics
      → save_one save topic rid c first ≡ some (c', first')
      → Distinct string_discrete c'.topics
  unfolding save_one
  save_one-Distinct save topic rid c c' first first' d e = elim (Option-cases (save topic rid)) [
    | inl good ↦ let same : c'.topics ≡ c.topics = ground arith in rw same d
    | inr (x, bad) ↦
        let failed = record c { commits_error = c.commits_error + 1 } in
        elim (Option-cases (mark_dirty topic failed)) [
          | inl gone ↦ absurd (ground arith)
          | inr (m, e') ↦
              let same : c' ≡ m = ground arith in rw same (mark_dirty-Distinct topic failed m d e')
        ]
  ]

  flush_loop-Distinct :
      (save : String → ReplayId → Option E) (p : Pending) (c c' : Committer)
      (first first' : Option E)
      → Distinct string_discrete c.topics
      → flush_loop save p c first ≡ some (c', first')
      → Distinct string_discrete c'.topics
  unfolding flush_loop
  flush_loop-Distinct save [] c c' first first' d e = let same : c' ≡ c = ground arith in rw same d
  flush_loop-Distinct save ((topic, rid) ∷ rest) c c' first first' d e =
      elim (Option-cases (save_one save topic rid c first)) [
        | inl gone ↦ absurd (ground arith)
        | inr ((m, f), e') ↦
            flush_loop-Distinct save rest m c' f first'
              (save_one-Distinct save topic rid c m first f d e') (ground arith)
      ]

  flush-Distinct :
      (save : String → ReplayId → Option E) (c c' : Committer) (first : Option E)
      → Distinct string_discrete c.topics
      → flush save c ≡ some (c', first)
      → Distinct string_discrete c'.topics
  unfolding flush snapshot
  flush-Distinct save c c' first d e =
      flush_loop-Distinct save _ (record c { topics = cleaned c.topics }) c' none first
        (cleaned-Distinct c.topics d) e

  clean-settled :
      (save : String → ReplayId → Option E) (topic : String) (o : Option TopicCursor)
      → clean (settled save topic o) ≡ clean o
  clean-settled save topic none = refl
  clean-settled save topic (some t) = ground (arith, Bool-cases t.dirty)

  settled_without_failure :
      (save : String → ReplayId → Option E) (topic : String) (o : Option TopicCursor)
      → ((rid : ReplayId) → save topic rid ≡ none)
      → settled save topic o ≡ clean o
  settled_without_failure save topic none fine = refl
  settled_without_failure save topic (some t) fine =
      ground (arith, Bool-cases t.dirty, fine t.replay_id)

  -- What the ticks leave: the same cursors, up to the flag.
  ticks_keep :
      (ticks : List (String → ReplayId → Option E)) (c : Committer)
      → Distinct string_discrete c.topics
      → (c' : Committer) × (run_ticks ticks c ≡ some c')
        × Distinct string_discrete c'.topics
        × ((topic : String)
            → clean (lookup string_discrete topic c'.topics)
              ≡ clean (lookup string_discrete topic c.topics))
  unfolding run_ticks
  ticks_keep [] c d = (c, refl, d, λ topic. refl)
  ticks_keep (save ∷ ticks) c d =
      let (m, e, returns, cursors, _) = flush_settles save c d in
      let (c', rest, d', same) = ticks_keep ticks m (flush-Distinct save c m e d returns) in
      (
        c',
        ground arith,
        d',
        λ topic.
            same topic
            ∙ ap clean (cursors topic)
            ∙ clean-settled save topic (lookup string_discrete topic c.topics),
      )

  -- With one cursor for each topic, and whatever the store answers to the ticks of `Run`: the ticks never
  -- panic, and if the store takes every write of the final flush, then after it no cursor is dirty, and each
  -- is where it was.
  pub last_flush_cleans :
      (ticks : List (String → ReplayId → Option E)) (last : String → ReplayId → Option E)
      (c : Committer)
      → Distinct string_discrete c.topics
      → ((topic : String) (rid : ReplayId) → last topic rid ≡ none)
      → (c' : Committer) × (run_and_flush ticks last c ≡ some c')
        × ((topic : String)
            → lookup string_discrete topic c'.topics
              ≡ clean (lookup string_discrete topic c.topics))
  unfolding run_and_flush flush_replay
  last_flush_cleans ticks last c d fine =
      let (m, e, dm, same) = ticks_keep ticks c d in
      let (c', x, returns, cursors, _) = flush_settles last m dm in
      (
        c',
        ground arith,
        λ topic.
            cursors topic
            ∙ settled_without_failure last topic (lookup string_discrete topic m.topics)
                (fine topic)
            ∙ same topic,
      )
