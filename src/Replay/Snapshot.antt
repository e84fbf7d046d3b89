-- ===== src/Replay/Snapshot.antt =====
-- What a snapshot holds, looked up by topic.
use pubsub_event_processor.Common.{
  String, ◌≡◌, refl, Option, none, some, [], ◌∷◌, arith, false, if◌then◌else◌, lookup, Distinct,
  string_discrete,
}
use pubsub_event_processor.Replay.Cursor.{ReplayId, TopicCursor}
use pubsub_event_processor.Replay.Committer.{Topics, pending_of, cleaned}

abbrev pub clean : Option TopicCursor → Option TopicCursor
clean none = none
clean (some t) = some (record t { dirty = false })

-- What a flush writes for a cursor.
abbrev pub to_save : Option TopicCursor → Option ReplayId
to_save none = none
to_save (some t) = if t.dirty then some t.replay_id else none

module _ (topic : String) where
  pub lookup-cleaned :
      (m : Topics)
      → lookup string_discrete topic (cleaned m) ≡ clean (lookup string_discrete topic m)
  unfolding lookup cleaned
  lookup-cleaned [] = refl
  lookup-cleaned ((k, t) ∷ m) = ground (arith, lookup-cleaned m)

  pub lookup-pending_of :
      (m : Topics)
      → Distinct string_discrete m
      → lookup string_discrete topic (pending_of m) ≡ to_save (lookup string_discrete topic m)
  unfolding lookup pending_of
  lookup-pending_of [] d = refl
  lookup-pending_of ((k, t) ∷ m) d = ground (arith, lookup-pending_of m)

pub cleaned-Distinct :
    (m : Topics) → Distinct string_discrete m → Distinct string_discrete (cleaned m)
unfolding cleaned
cleaned-Distinct [] d = tt
cleaned-Distinct ((k, t) ∷ m) d = (rw (lookup-cleaned k m, d.0) refl, cleaned-Distinct m d.1)

pub pending_of-Distinct :
    (m : Topics) → Distinct string_discrete m → Distinct string_discrete (pending_of m)
unfolding pending_of
pending_of-Distinct [] d = tt
pending_of-Distinct ((k, t) ∷ m) d =
    ground (arith, pending_of-Distinct m d.1, lookup-pending_of k m d.1)
