-- ===== src/Replay/System/Safety.antt =====
-- What holds however the workers and the flushes interleave.
use pubsub_event_processor.Common.{
  ℕ, ◌<◌, String, ◌≡◌, sym, ◌∙◌, ◌⊎◌, inl, inr, true, false, none, some, List, [], ◌∷◌, lookup,
  insert, string_discrete, arith, lookup-insert, lookup-insert_self, subst, insert-Distinct,
  Distinct, Option-cases,
}
use pubsub_event_processor.Replay.Cursor.{ReplayId, TopicCursor, record_done}
use pubsub_event_processor.Replay.Invariant.{Settled, cleaned-Inv, dirty-Inv}
use pubsub_event_processor.Replay.LowWater.{record_done-still}
use pubsub_event_processor.Replay.Committer.{Topics, Pending, Committer, or_new, done, cleaned}
use pubsub_event_processor.Replay.Snapshot.{clean, lookup-cleaned, cleaned-Distinct}
use pubsub_event_processor.Replay.System.Tracks.{Tracks}
use pubsub_event_processor.Replay.System.{System, positions, IsSafe}

module _ (rid : String → ℕ → ReplayId) (initial : Pending) where
  -- A clean cursor is on its way to the table, or there.
  abbrev pub Kept : Topics → Pending → Pending → Type 0
  Kept topics writing table =
      (k : String) (t : TopicCursor)
      → lookup string_discrete k topics ≡ some t
      → t.dirty ≡ false
      → 1 < t.next
      → (lookup string_discrete k writing ≡ some t.replay_id)
        ⊎ ((lookup string_discrete k writing ≡ none)
            × (lookup string_discrete k table ≡ some t.replay_id))

  pub record SysInv (s : System) : Type 0 where
    pub tracks : Tracks rid s.committer.topics s.reports
    pub once : Distinct string_discrete s.writing
    pub idle : s.busy ≡ false → s.writing ≡ []
    pub flight :
        (k : String) (r : ReplayId)
        → lookup string_discrete k s.writing ≡ some r
        → IsSafe rid k s.reports r
    pub stored :
        (k : String) (r : ReplayId)
        → lookup string_discrete k s.table ≡ some r
        → (lookup string_discrete k initial ≡ some r) ⊎ IsSafe rid k s.reports r
    pub kept : Kept s.committer.topics s.writing s.table

  -- Reports only add to what is done.
  pub IsSafe-report :
      (k topic : String) (seq : ℕ) (reports : List (String × ℕ)) (r : ReplayId)
      → IsSafe rid k reports r
      → IsSafe rid k ((topic, seq) ∷ reports) r
  unfolding positions
  IsSafe-report k topic seq reports r (p, big, e, all) =
      (p, big, e, λ j low lt. ground (arith, all j low lt))

  pub Kept-report :
      (topic : String) (seq : ℕ) (c : Committer) (writing table : Pending)
      → Kept c.topics writing table
      → Kept (done c topic seq (rid topic seq)).topics writing table
  unfolding done
  Kept-report topic seq c writing table kept k u e calm big = elim (string_discrete topic k) [
    | yes p ↦
        subst
          (λ j.
            lookup string_discrete j (insert string_discrete topic moved c.topics) ≡ some u
            → (lookup string_discrete j writing ≡ some u.replay_id)
              ⊎ ((lookup string_discrete j writing ≡ none)
                  × (lookup string_discrete j table ≡ some u.replay_id)))
          p
          (λ e'.
            same (Option-cases (lookup string_discrete topic c.topics)) (ground (arith, found)))
          e
    | no n ↦
        kept k u (ground (arith, lookup-insert string_discrete topic k moved c.topics)) calm big
  ]
    where
      before : TopicCursor
      before = or_new (lookup string_discrete topic c.topics)

      moved : TopicCursor
      moved = record_done seq (rid topic seq) before

      found :
          lookup string_discrete topic (insert string_discrete topic moved c.topics) ≡ some moved
      found = lookup-insert_self string_discrete topic moved c.topics

      same :
          (lookup string_discrete topic c.topics ≡ none)
            ⊎ ((t : TopicCursor) × (lookup string_discrete topic c.topics ≡ some t))
          → u ≡ moved
          → (lookup string_discrete topic writing ≡ some u.replay_id)
            ⊎ ((lookup string_discrete topic writing ≡ none)
                × (lookup string_discrete topic table ≡ some u.replay_id))
      same (inl absent) q = absurd (ground (arith, record_done-still seq (rid topic seq) before))
      same (inr (t, there)) q =
          let here : before ≡ t = rw there in
          let (d, n, r) = record_done-still seq (rid topic seq) before (ground arith) in
          ground (arith, kept topic t there (ground arith) (ground arith))

  -- The snapshot cleans the cursors and leaves their values.
  pub Tracks-snapshot :
      (topics : Topics) (reports : List (String × ℕ))
      → Tracks rid topics reports
      → Tracks rid (cleaned topics) reports
  Tracks-snapshot topics reports v = record {
    distinct = cleaned-Distinct topics v.distinct;
    cursors = λ k u e.
        from_before k u (Option-cases (lookup string_discrete k topics))
          (sym (lookup-cleaned k topics) ∙ e);
    unseen = λ k e. ground (arith, lookup-cleaned k topics, v.unseen k);
    valid = v.valid;
  }
    where
      from_before :
          (k : String) (u : TopicCursor)
          → (lookup string_discrete k topics ≡ none)
            ⊎ ((t : TopicCursor) × (lookup string_discrete k topics ≡ some t))
          → clean (lookup string_discrete k topics) ≡ some u
          → Settled (rid k) (positions k reports) u
      from_before k u (inl absent) e = absurd (ground arith)
      from_before k u (inr (t, there)) e =
          let (old, gap) = v.cursors k t there in
          let q : record t { dirty = false } ≡ u = ground arith in
          subst (Settled (rid k) (positions k reports)) q
            (cleaned-Inv (rid k) (positions k reports) t old, gap)

  -- A topic that has something to save has moved past its first position.
  moved_past :
      (topic : String) (r : ReplayId) (t : TopicCursor) (reports : List (String × ℕ))
      → IsSafe rid topic reports r
      → Settled (rid topic) (positions topic reports) t
      → 1 < t.next
  moved_past topic r t reports (p, big, _, all) (v, gap) =
      ground (arith, v.start, v.pending 1, all 1 (omega arith) big, gap)

  -- A cursor marked dirty again has the same value.
  pub Tracks-dirty :
      (topic : String) (r : ReplayId) (t : TopicCursor) (topics : Topics)
      (reports : List (String × ℕ))
      → lookup string_discrete topic topics ≡ some t
      → IsSafe rid topic reports r
      → Tracks rid topics reports
      → Tracks rid (insert string_discrete topic (record t { dirty = true }) topics) reports
  Tracks-dirty topic r t topics reports there safe v = record {
    distinct = insert-Distinct string_discrete topic (record t { dirty = true }) topics v.distinct;
    cursors = λ k u e. elim (string_discrete topic k) [
      | yes p ↦
          subst
            (λ j.
              lookup string_discrete j
                  (insert string_discrete topic (record t { dirty = true }) topics)
                ≡ some u
              → Settled (rid j) (positions j reports) u)
            p
            (λ e'.
              let (old, gap) = v.cursors topic t there in
              let q : record t { dirty = true } ≡ u = ground (
                arith,
                lookup-insert_self string_discrete topic (record t { dirty = true }) topics,
              ) in
              subst (Settled (rid topic) (positions topic reports)) q (
                dirty-Inv (rid topic) (positions topic reports) t
                    (moved_past topic r t reports safe (old, gap)) old,
                gap,
              ))
            e
      | no n ↦
          v.cursors k u (
            ground
              (arith, lookup-insert string_discrete topic k (record t { dirty = true }) topics))
    ];
    unseen = λ k e. ground (
      arith,
      lookup-insert string_discrete topic k (record t { dirty = true }) topics,
      v.unseen k,
    );
    valid = v.valid;
  }
