-- ===== src/Replay/Cursor.antt =====
-- The cursor of one topic (`topicCursor`) and the part of `Committer.Done` that moves it.
use pubsub_event_processor.Common.{
  ℕ, zero, suc, ◌+◌, ◌%◌, ◌^◌, Bool, true, false, Option, none, some, List, [], ite, dec_lt,
  ℕ_discrete, length, lookup, insert, delete,
}

abbrev pub Bytes : Type 0
Bytes = List ℕ

-- A replay ID is a Go `[]byte`; `none` is the nil slice.
abbrev pub ReplayId : Type 0
ReplayId = Option Bytes

abbrev pub u64 : ℕ → ℕ
u64 n = n % 2 ^ 64

-- `topicCursor`
pub record TopicCursor : Type 0 where
  pub next : ℕ  -- uint64
  pub done : List (ℕ × ReplayId)
  pub replay_id : ReplayId
  pub dirty : Bool

-- &topicCursor{next: 1, done: make(map[uint64][]byte)}
abbrev pub new_cursor : TopicCursor
new_cursor = record { next = 1; done = []; replay_id = none; dirty = false }

-- One round of the loop of `Done`: the entry at `next` is there, with replay ID `rid`.
unfoldable pub advance : TopicCursor → ReplayId → TopicCursor
advance t rid = record {
  next = u64 (t.next + 1);
  done = delete ℕ_discrete t.next t.done;
  replay_id = rid;
  dirty = true;
}

-- The loop `for { rid, ok := t.done[t.next]; … }`. Each round takes an entry out of `done`.
unfoldable pub drain : ℕ → TopicCursor → TopicCursor
drain zero t = t
drain (suc fuel) t = elim (lookup ℕ_discrete t.next t.done) [
  | none ↦ t
  | some rid ↦ drain fuel (advance t rid)
]

-- `Done` from the test `seq < t.next` on.
unfoldable pub record_done : ℕ → ReplayId → TopicCursor → TopicCursor
record_done seq rid t =
    let filled = record t { done = insert ℕ_discrete seq rid t.done } in
    ite (dec_lt seq t.next) t (drain (suc (length filled.done)) filled)
