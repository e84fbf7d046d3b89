-- ===== src/Replay/Flush.antt =====
-- `Flush` as a whole: it attempts every cursor that advanced, and keeps those that failed pending.
use pubsub_event_processor.Common.{
  ◌+◌, String, ◌≡◌, refl, ◌≢◌, inl, inr, ◌↔◌, Bool, true, false, Option, none, some, [], ◌∷◌, arith,
  if◌then◌else◌, lookup, insert, lookup-insert, Distinct, string_discrete, Option-cases,
}
use pubsub_event_processor.Replay.Cursor.{ReplayId, TopicCursor}
use pubsub_event_processor.Replay.Committer.{
  Pending, Committer, pending_of, cleaned, snapshot, mark_dirty, first_error, save_one, flush_loop,
  flush,
}
use pubsub_event_processor.Replay.Snapshot.{
  to_save, lookup-cleaned, lookup-pending_of, pending_of-Distinct,
}

abbrev pub mark : Bool → Option TopicCursor → Option TopicCursor
mark b none = none
mark false (some t) = some t
mark true (some t) = some (record t { dirty = true })

abbrev failed {ℓ} : {E : Type ℓ} → Option E → Bool
failed none = false
failed (some e) = true

module _ {E : Type 0} (save : String → ReplayId → Option E) where
  abbrev pub refused : String → Option ReplayId → Bool
  refused topic none = false
  refused topic (some rid) = failed (save topic rid)

  -- What a flush leaves of a cursor: clean, unless its save failed.
  abbrev pub settled : String → Option TopicCursor → Option TopicCursor
  settled topic none = none
  settled topic (some t) =
      if t.dirty then some (record t { dirty = failed (save topic t.replay_id) }) else some t

  pub record Flushed (p : Pending) (c : Committer) (first : Option E)
      (r : Option (Committer × Option E)) : Type 0 where
    pub after : Committer
    pub error : Option E
    pub returns : r ≡ some (after, error)
    pub cursors :
        (topic : String)
        → lookup string_discrete topic after.topics
          ≡ mark
              (refused topic (lookup string_discrete topic p))
              (lookup string_discrete topic c.topics)
    pub no_error : (error ≡ none) ↔ (
        (first ≡ none)
        × ((topic : String) → refused topic (lookup string_discrete topic p) ≡ false))

  Known : Pending → Committer → Type 0
  Known p c =
      (topic : String) (rid : ReplayId)
      → lookup string_discrete topic p ≡ some rid
      → lookup string_discrete topic c.topics ≢ none

  -- One save: it never panics, and touches only the topic that it failed for.
  saved_one :
      (topic : String) (rid : ReplayId) (c : Committer) (first : Option E)
      → lookup string_discrete topic c.topics ≢ none
      → Flushed ((topic, rid) ∷ []) c first (save_one save topic rid c first)
  unfolding save_one mark_dirty lookup
  saved_one topic rid c first h = elim (Option-cases (save topic rid)) [
    | inl e ↦ record {
      after = record c { commits_ok = c.commits_ok + 1 };
      error = first;
      returns = ground arith;
      cursors = λ k. ground arith;
      no_error = (λ p. (p, λ k. ground arith), λ p. p.0);
    }
    | inr (e, x) ↦ elim (Option-cases (lookup string_discrete topic c.topics)) [
      | inl gone ↦ absurd (h gone)
      | inr (t, found) ↦ record {
        after = record {
          topics = insert string_discrete topic (record t { dirty = true }) c.topics;
          commits_ok = c.commits_ok;
          commits_error = c.commits_error + 1;
        };
        error = first_error first e;
        returns = ground arith;
        cursors = λ k.
            ground
              (arith, lookup-insert string_discrete topic k (record t { dirty = true }) c.topics);
        no_error = (λ p. ground arith, λ p. ground (arith, p.1 topic));
      }
    ]
  ]

  -- The rest of the loop, once the first save is done.
  joined :
      (topic : String) (rid : ReplayId) (rest : Pending) (c : Committer) (first : Option E)
      → lookup string_discrete topic rest ≡ none
      → (one : Flushed ((topic, rid) ∷ []) c first (save_one save topic rid c first))
      → Flushed rest one.after one.error (flush_loop save rest one.after one.error)
      → Flushed ((topic, rid) ∷ rest) c first (flush_loop save ((topic, rid) ∷ rest) c first)
  unfolding flush_loop lookup
  joined topic rid rest c first fresh one more = record {
    after = more.after;
    error = more.error;
    returns = rw (one.returns, flush_loop) more.returns;
    cursors = λ k. ground (arith, one.cursors k, more.cursors k);
    no_error = (
      λ p.
          let (q, clear) = more.no_error.0 p in
          let (start, this) = one.no_error.0 q in (start, λ k. ground (arith, clear k, this k)),
      λ p.
          more.no_error.1
            (one.no_error.1 (p.0, λ k. ground (arith, p.1 k)), λ k. ground (arith, p.1 k)),
    );
  }

  flush_loop-Flushed :
      (p : Pending) (c : Committer) (first : Option E)
      → Distinct string_discrete p
      → Known p c
      → Flushed p c first (flush_loop save p c first)
  unfolding flush_loop lookup Known
  flush_loop-Flushed [] c first d known = record {
    after = c;
    error = first;
    returns = refl;
    cursors = λ k. ground arith;
    no_error = (λ p. (p, λ k. refl), λ p. p.0);
  }
  flush_loop-Flushed ((topic, rid) ∷ rest) c first d known =
      let one = saved_one topic rid c first (known topic rid (ground arith)) in
      joined topic rid rest c first d.0 one (
        flush_loop-Flushed rest one.after one.error d.1
          (λ k r e. ground (arith, one.cursors k, known k r)))

  -- With one cursor for each topic, `Flush` returns, never panics, and attempts every cursor that advanced:
  -- a topic whose save failed stays dirty with the same cursor, every other topic is clean with the same
  -- cursor, and the error is nil exactly if no save failed.
  pub flush_settles :
      (c : Committer)
      → Distinct string_discrete c.topics
      → (c' : Committer) × (error : Option E) × (flush save c ≡ some (c', error))
        × ((topic : String)
            → lookup string_discrete topic c'.topics
              ≡ settled topic (lookup string_discrete topic c.topics))
        × ((error ≡ none) ↔ (
            (topic : String)
            → refused topic (to_save (lookup string_discrete topic c.topics)) ≡ false))
  unfolding flush snapshot Known
  flush_settles c d =
      let whole =
        flush_loop-Flushed (pending_of c.topics) (record c { topics = cleaned c.topics }) none
          (pending_of-Distinct c.topics d)
          (λ k r e. ground (arith, lookup-pending_of k c.topics d, lookup-cleaned k c.topics)) in
      (
        whole.after,
        whole.error,
        whole.returns,
        λ k.
            ground
              (arith, whole.cursors k, lookup-pending_of k c.topics d, lookup-cleaned k c.topics),
        (
          λ e k. ground (arith, (whole.no_error.0 e).1 k, lookup-pending_of k c.topics d),
          λ h. whole.no_error.1 (refl, λ k. ground (arith, h k, lookup-pending_of k c.topics d)),
        ),
      )
