-- ===== src/Replay/Committer.antt =====
-- `Committer`: the map of cursors, `Done` and `Flush`. The two mutexes make `Done`, `snapshot` and
-- `markDirty` atomic; `Replay/System.antt` interleaves them.
use pubsub_event_processor.Common.{
  ℕ, ◌+◌, String, true, false, Option, none, some, List, [], ◌∷◌, if◌then◌else◌, lookup, insert,
  string_discrete,
}
use pubsub_event_processor.Replay.Cursor.{ReplayId, TopicCursor, new_cursor, record_done}

abbrev pub Topics : Type 0
Topics = List (String × TopicCursor)

-- The snapshot that a flush writes: a replay ID for each topic.
abbrev pub Pending : Type 0
Pending = List (String × ReplayId)

-- `Committer`, with the two values of the counter `replay_cursor_commits_total`.
pub record Committer : Type 0 where
  pub topics : Topics
  pub commits_ok : ℕ
  pub commits_error : ℕ

abbrev pub new_committer : Committer
new_committer = record { topics = []; commits_ok = 0; commits_error = 0 }

-- The cursor of a topic, made on its first event.
abbrev pub or_new : Option TopicCursor → TopicCursor
or_new none = new_cursor
or_new (some t) = t

-- `Done`
unfoldable pub done : Committer → String → ℕ → ReplayId → Committer
done c topic seq rid =
    let t = or_new (lookup string_discrete topic c.topics) in
    record c { topics = insert string_discrete topic (record_done seq rid t) c.topics }

-- The two results of the loop of `snapshot`.
unfoldable pub pending_of : Topics → Pending
pending_of [] = []
pending_of ((topic, t) ∷ m) =
    let rest = pending_of m in if t.dirty then (topic, t.replay_id) ∷ rest else rest

unfoldable pub cleaned : Topics → Topics
cleaned [] = []
cleaned ((topic, t) ∷ m) = (topic, record t { dirty = false }) ∷ cleaned m

-- `snapshot`
unfoldable pub snapshot : Committer → Committer × Pending
snapshot c = (record c { topics = cleaned c.topics }, pending_of c.topics)

-- `markDirty`; a topic that is not in the map is a nil pointer, and the program panics (`none`).
unfoldable pub mark_dirty : String → Committer → Option Committer
mark_dirty topic c = elim (lookup string_discrete topic c.topics) [
  | none ↦ none
  | some t ↦
      some (record c { topics = insert string_discrete topic (record t { dirty = true }) c.topics })
]

abbrev pub first_error {ℓ} : {E : Type ℓ} → Option E → E → Option E
first_error none e = some e
first_error (some first) e = some first

-- The loop of `Flush`. `save` is the store's answer to each `SaveReplay` of this flush: an error, or
-- `none`. A snapshot names each topic once, so a function gives every sequence of answers.
module _ {E : Type 0} (save : String → ReplayId → Option E) where
  unfoldable pub save_one : String → ReplayId → Committer → Option E → Option (Committer × Option E)
  save_one topic rid c first = elim (save topic rid) [
    | none ↦ some (record c { commits_ok = c.commits_ok + 1 }, first)
    | some e ↦ elim (mark_dirty topic (record c { commits_error = c.commits_error + 1 })) [
      | none ↦ none
      | some c' ↦ some (c', first_error first e)
    ]
  ]

  unfoldable pub flush_loop : Pending → Committer → Option E → Option (Committer × Option E)
  flush_loop [] c first = some (c, first)
  flush_loop ((topic, rid) ∷ rest) c first = elim (save_one topic rid c first) [
    | none ↦ none
    | some (c', first') ↦ flush_loop rest c' first'
  ]

  -- `Flush`: the committer after it, and the error that it returns.
  unfoldable pub flush : Committer → Option (Committer × Option E)
  flush c = let (c', pending) = snapshot c in flush_loop pending c' none
