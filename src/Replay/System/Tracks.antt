-- ===== src/Replay/System/Tracks.antt =====
-- The map of cursors follows the reports of the workers.
use pubsub_event_processor.Common.{
  ℕ, String, ◌≡◌, ◌≢◌, inl, inr, none, some, List, [], ◌∷◌, lookup, insert, string_discrete, Has,
  arith, lookup-insert, lookup-insert_self, subst, insert-Distinct, Distinct, Option-cases,
}
use pubsub_event_processor.Replay.Cursor.{ReplayId, TopicCursor, record_done}
use pubsub_event_processor.Replay.Invariant.{IsPosition, Settled}
use pubsub_event_processor.Replay.LowWater.{record_done-Settled, new-Settled}
use pubsub_event_processor.Replay.Committer.{Topics, Committer, or_new, done}
use pubsub_event_processor.Replay.System.{positions}

pub positions_self :
    (topic : String) (seq : ℕ) (reports : List (String × ℕ))
    → positions topic ((topic, seq) ∷ reports) ≡ seq ∷ positions topic reports
unfolding positions
positions_self topic seq reports = ground arith

pub positions_ne :
    (topic k : String) (seq : ℕ) (reports : List (String × ℕ))
    → topic ≢ k
    → positions k ((topic, seq) ∷ reports) ≡ positions k reports
unfolding positions
positions_ne topic k seq reports n = ground arith

module _ (rid : String → ℕ → ReplayId) where
  -- The map of cursors against the reports.
  pub record Tracks (topics : Topics) (reports : List (String × ℕ)) : Type 0 where
    pub distinct : Distinct string_discrete topics
    pub cursors :
        (k : String) (t : TopicCursor)
        → lookup string_discrete k topics ≡ some t
        → Settled (rid k) (positions k reports) t
    pub unseen : (k : String) → lookup string_discrete k topics ≡ none → positions k reports ≡ []
    pub valid : (k : String) (s : ℕ) → Has s (positions k reports) → IsPosition s

  -- The cursor that `Done` works on meets the invariant, also when it is new.
  or_new-Settled :
      (topic : String) (topics : Topics) (reports : List (String × ℕ))
      → Tracks topics reports
      → Settled (rid topic) (positions topic reports) (or_new (lookup string_discrete topic topics))
  or_new-Settled topic topics reports v =
      elim (Option-cases (lookup string_discrete topic topics)) [
        | inl e ↦ rw (e, v.unseen topic e) (new-Settled (rid topic))
        | inr (t, e) ↦ rw e (v.cursors topic t e)
      ]

  pub Tracks-report :
      (topic : String) (seq : ℕ) (c : Committer) (reports : List (String × ℕ))
      → IsPosition seq
      → Tracks c.topics reports
      → Tracks (done c topic seq (rid topic seq)).topics ((topic, seq) ∷ reports)
  unfolding done
  Tracks-report topic seq c reports pos v = record {
    distinct = insert-Distinct string_discrete topic moved c.topics v.distinct;
    cursors = λ k u e. elim (string_discrete topic k) [
      | yes p ↦
          subst
            (λ j.
              lookup string_discrete j (insert string_discrete topic moved c.topics) ≡ some u
              → Settled (rid j) (positions j ((topic, seq) ∷ reports)) u)
            p
            (λ e'. rw (positions_self topic seq reports) (
              subst (Settled (rid topic) (seq ∷ positions topic reports)) (ground (arith, found))
                stepped))
            e
      | no n ↦
          rw (positions_ne topic k seq reports n)
            (v.cursors k u (ground (arith, lookup-insert string_discrete topic k moved c.topics)))
    ];
    unseen = λ k e. ground (
      arith,
      lookup-insert string_discrete topic k moved c.topics,
      v.unseen k,
      positions_ne topic k seq reports,
    );
    valid = all;
  }
    where
      moved : TopicCursor
      moved = record_done seq (rid topic seq) (or_new (lookup string_discrete topic c.topics))

      found :
          lookup string_discrete topic (insert string_discrete topic moved c.topics) ≡ some moved
      found = lookup-insert_self string_discrete topic moved c.topics

      all : (k : String) (s : ℕ) → Has s (positions k ((topic, seq) ∷ reports)) → IsPosition s
      all k s m =
          ground
            (arith, v.valid k s, positions_self topic seq reports, positions_ne topic k seq reports)

      stepped : Settled (rid topic) (seq ∷ positions topic reports) moved
      stepped =
          record_done-Settled (rid topic) seq (positions topic reports) _
            (λ j m. all topic j (rw (positions_self topic seq reports) m))
            (or_new-Settled topic c.topics reports v)
