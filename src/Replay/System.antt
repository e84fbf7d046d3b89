-- ===== src/Replay/System.antt =====
-- `Done` and `Flush` running side by side. The workers report events at any moment; a flush takes its
-- snapshot under `mu` and writes it topic by topic under `flushMu` alone, so reports fall in between.
pub mod Tracks
pub mod Safety
pub mod Starts
pub mod Writes
pub mod Steps
pub mod Recovery
use pubsub_event_processor.Common.{
  ℕ, ◌+◌, ◌-◌, ◌≤◌, ◌<◌, String, ◌≡◌, refl, ◌≢◌, ◌⊎◌, Bool, true, false, some, List, [], ◌∷◌, ite,
  lookup, insert, string_discrete, Has,
}
use pubsub_event_processor.Replay.Cursor.{ReplayId}
use pubsub_event_processor.Replay.Invariant.{IsPosition}
use pubsub_event_processor.Replay.Committer.{
  Pending, Committer, new_committer, done, snapshot, mark_dirty,
}

-- The committer, the table `replay_state`, and where the flush in progress stands: what it has yet to
-- write, and whether it holds `flushMu`. `reports` are the calls of `Done` so far, the last one first.
pub record System : Type 0 where
  pub committer : Committer
  pub table : Pending
  pub writing : Pending
  pub busy : Bool
  pub reports : List (String × ℕ)

-- The positions of one topic among the reports.
unfoldable pub positions : String → List (String × ℕ) → List ℕ
positions topic [] = []
positions topic ((k, s) ∷ r) =
    let rest = positions topic r in ite (string_discrete k topic) (s ∷ rest) rest

abbrev pub with_save : Committer → Committer
with_save c = record c { commits_ok = c.commits_ok + 1 }

abbrev pub with_failure : Committer → Committer
with_failure c = record c { commits_error = c.commits_error + 1 }

-- `rid topic seq` is the replay ID of the event at a position.
module _ (rid : String → ℕ → ReplayId) where
  pub data Step (s : System) : System → Type 0 where
    report :
        (topic : String) (seq : ℕ)
        → IsPosition seq
        → Step s (record s {
          committer = done s.committer topic seq (rid topic seq);
          reports = (topic, seq) ∷ s.reports;
        })
    start :
        s.busy ≡ false
        → Step s (record s {
          committer = (snapshot s.committer).0;
          writing = (snapshot s.committer).1;
          busy = true;
        })
    saved :
        (topic : String) (r : ReplayId) (rest : Pending)
        → s.writing ≡ (topic, r) ∷ rest
        → Step s (record s {
          committer = with_save s.committer;
          table = insert string_discrete topic r s.table;
          writing = rest;
        })
    -- The store answers with an error, and has not written.
    refused :
        (topic : String) (r : ReplayId) (rest : Pending) (c : Committer)
        → s.writing ≡ (topic, r) ∷ rest
        → mark_dirty topic (with_failure s.committer) ≡ some c
        → Step s (record s { committer = c; writing = rest })
    -- The store answers with an error, a timeout say, and has written all the same.
    unsure :
        (topic : String) (r : ReplayId) (rest : Pending) (c : Committer)
        → s.writing ≡ (topic, r) ∷ rest
        → mark_dirty topic (with_failure s.committer) ≡ some c
        → Step s (record s {
          committer = c;
          table = insert string_discrete topic r s.table;
          writing = rest;
        })
    finish : s.writing ≡ [] → Step s (record s { busy = false })

  -- What a process that starts over the table `initial` can reach.
  pub data Reach (initial : Pending) : System → Type 0 where
    begin : Reach initial (record {
      committer = new_committer;
      table = initial;
      writing = [];
      busy = false;
      reports = [];
    })
    next : {s t : System} → Reach initial s → Step s t → Reach initial t

  -- `r` is the replay ID of an event up to which every event of the topic is done.
  abbrev pub IsSafe : String → List (String × ℕ) → ReplayId → Type 0
  IsSafe topic reports r =
      (p : ℕ) × (1 < p)
      × (r ≡ rid topic (p - 1))
      × ((k : ℕ) → 1 ≤ k → k < p → Has k (positions topic reports))
