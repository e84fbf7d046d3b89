-- ===== src/Examples/Cursors.antt =====
-- The theorems on internal/replay at concrete inputs.
use pubsub_event_processor.Common.{
  ℕ, ◌+◌, ◌-◌, ◌≤◌, ◌<◌, ◌≡◌, refl, ◌↔◌, ◌⊎◌, true, false, Option, none, some, List, [], ◌∷◌,
  String, lookup, insert, delete, string_discrete, dec_lt, ℕ_discrete, Has, Distinct, ite, arith,
}
use pubsub_event_processor.Replay.Cursor.{ReplayId, TopicCursor, record_done, drain, advance}
use pubsub_event_processor.Replay.Invariant.{IsPosition, cursor_at}
use pubsub_event_processor.Replay.Committer.{
  Committer, new_committer, done, flush, snapshot, cleaned, pending_of,
}
use pubsub_event_processor.Replay.LowWater.{after_dones, after_dones_low_water}
use pubsub_event_processor.Replay.Flush.{flush_settles, settled, refused}
use pubsub_event_processor.Replay.Snapshot.{to_save}
use pubsub_event_processor.Replay.System.{
  System, report, start, saved, finish, Reach, begin, next, positions, with_save,
}
use pubsub_event_processor.Replay.System.Recovery.{committed_is_safe, clean_is_committed}

-- The replay ID of an event is its position.
abbrev rid_at : ℕ → ReplayId
rid_at n = some (n ∷ [])

-- Events 1, 2 and 4 are done, in this order.
abbrev three_done : List ℕ
three_done = 4 ∷ 2 ∷ 1 ∷ []

three_done-IsPosition : (k : ℕ) → Has k three_done → IsPosition k
three_done-IsPosition k h = ground arith

-- The cursor stands at 3.
three_done_next : (after_dones rid_at three_done).next ≡ 3
unfolding after_dones record_done drain advance dec_lt lookup insert ℕ_discrete delete
three_done_next = refl

after_dones_low_water_example :
    ((s : ℕ) → 1 ≤ s → s < (after_dones rid_at three_done).next → Has s three_done)
    × (¬ Has (after_dones rid_at three_done).next three_done)
    × (1 ≤ (after_dones rid_at three_done).next)
    × ((after_dones rid_at three_done).replay_id
        ≡ cursor_at rid_at (after_dones rid_at three_done).next)
after_dones_low_water_example = after_dones_low_water rid_at three_done three_done-IsPosition

-- The store refuses topic "b" only.
abbrev save_b_fails : String → ReplayId → Option ℕ
save_b_fails topic rid = ite (string_discrete topic "b") (some 7) none

abbrev moved : ℕ → TopicCursor
moved n = record { next = n + 1; done = []; replay_id = rid_at n; dirty = true }

abbrev two_topics : Committer
two_topics = record {
  topics = ("a", moved 1) ∷ ("b", moved 2) ∷ [];
  commits_ok = 0;
  commits_error = 0;
}

two_topics-Distinct : Distinct string_discrete two_topics.topics
unfolding lookup string_discrete
two_topics-Distinct = (refl, (refl, tt))

flush_settles_example :
    (c' : Committer) × (error : Option ℕ) × (flush save_b_fails two_topics ≡ some (c', error))
    × ((topic : String)
        → lookup string_discrete topic c'.topics
          ≡ settled save_b_fails topic (lookup string_discrete topic two_topics.topics))
    × ((error ≡ none) ↔ (
        (topic : String)
        → refused save_b_fails topic (to_save (lookup string_discrete topic two_topics.topics))
          ≡ false))
flush_settles_example = flush_settles save_b_fails two_topics two_topics-Distinct

-- Over an empty table, event 1 of topic "a" is done, a flush starts, event 3 is done while it runs, and the
-- flush writes and finishes.
abbrev rids : String → ℕ → ReplayId
rids topic n = rid_at n

abbrev at_start : System
at_start = record {
  committer = new_committer;
  table = [];
  writing = [];
  busy = false;
  reports = [];
}

abbrev one_done : System
one_done = record at_start {
  committer = done new_committer "a" 1 (rid_at 1);
  reports = ("a", 1) ∷ [];
}

abbrev flushing : System
flushing = record one_done {
  committer = (snapshot one_done.committer).0;
  writing = (snapshot one_done.committer).1;
  busy = true;
}

abbrev later_report : System
later_report = record flushing {
  committer = done flushing.committer "a" 3 (rid_at 3);
  reports = ("a", 3) ∷ ("a", 1) ∷ [];
}

abbrev written : System
written = record later_report {
  committer = with_save later_report.committer;
  table = insert string_discrete "a" (rid_at 1) [];
  writing = [];
}

abbrev settled_down : System
settled_down = record written { busy = false }

one_pending : later_report.writing ≡ ("a", rid_at 1) ∷ []
unfolding snapshot pending_of done record_done drain advance dec_lt lookup insert ℕ_discrete delete
one_pending = refl

flush_run : Reach rids [] settled_down
flush_run =
    next
      (next
        (next (next (next begin (report "a" 1 (ground arith))) (start refl))
          (report "a" 3 (ground arith)))
        (saved "a" (rid_at 1) [] one_pending))
      (finish refl)

in_table : lookup string_discrete "a" settled_down.table ≡ some (rid_at 1)
unfolding lookup insert string_discrete
in_table = refl

committed_is_safe_example :
    (lookup string_discrete "a" [] ≡ some (rid_at 1))
    ⊎ ((last : ℕ) × (1 ≤ last)
        × (rid_at 1 ≡ rids "a" last)
        × ((k : ℕ) → 1 ≤ k → k ≤ last → Has k (positions "a" settled_down.reports)))
committed_is_safe_example = committed_is_safe rids [] flush_run "a" (rid_at 1) in_table

-- The cursor of "a": it stands at 2, with event 3 waiting.
abbrev cursor_a : TopicCursor
cursor_a = record { next = 2; done = (3, rid_at 3) ∷ []; replay_id = rid_at 1; dirty = false }

cursor_a_there : lookup string_discrete "a" settled_down.committer.topics ≡ some cursor_a
unfolding snapshot pending_of cleaned done record_done drain advance dec_lt lookup insert ℕ_discrete
    delete string_discrete
cursor_a_there = refl

clean_is_committed_example :
    (lookup string_discrete "a" settled_down.table ≡ some cursor_a.replay_id)
    × (cursor_a.replay_id ≡ rids "a" (cursor_a.next - 1))
    × ((k : ℕ) → 1 ≤ k → k < cursor_a.next → Has k (positions "a" settled_down.reports))
    × (¬ Has cursor_a.next (positions "a" settled_down.reports))
clean_is_committed_example =
    clean_is_committed rids [] flush_run "a" cursor_a refl cursor_a_there refl (ground arith)
