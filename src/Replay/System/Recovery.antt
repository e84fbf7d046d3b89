-- ===== src/Replay/System/Recovery.antt =====
-- What a restart finds in the table `replay_state`.
use pubsub_event_processor.Common.{
  ℕ, ◌-◌, ◌≤◌, ◌<◌, String, ◌≡◌, ◌⊎◌, inl, inr, false, none, some, lookup, string_discrete, Has,
  arith, dec_lt,
}
use pubsub_event_processor.Replay.Cursor.{ReplayId, TopicCursor}
use pubsub_event_processor.Replay.Committer.{Pending}
use pubsub_event_processor.Replay.System.Starts.{lookup-nil}
use pubsub_event_processor.Replay.System.Steps.{Reach-SysInv}
use pubsub_event_processor.Replay.System.{System, positions, Reach}

module _ (rid : String → ℕ → ReplayId) (initial : Pending) {s : System}
    (reach : Reach rid initial s) where
  -- However reports and flushes interleave, and whichever writes fail, a replay ID in the table is the
  -- one that the process found there, or that of an event such that it and all events of its topic
  -- before it are done: a restart that resumes from it skips no unfinished event.
  pub committed_is_safe :
      (topic : String) (r : ReplayId)
      → lookup string_discrete topic s.table ≡ some r
      → (lookup string_discrete topic initial ≡ some r)
        ⊎ ((last : ℕ) × (1 ≤ last)
            × (r ≡ rid topic last)
            × ((k : ℕ) → 1 ≤ k → k ≤ last → Has k (positions topic s.reports)))
  committed_is_safe topic r e = elim ((Reach-SysInv rid initial reach).stored topic r e) [
    | inl old ↦ inl old
    | inr (p, big, q, all) ↦ inr (p - 1, omega arith, q, λ k low le. all k low (omega arith))
  ]

  -- An event that is not done is never covered: where the table had nothing for its topic when the process
  -- started, a replay ID written for it belongs to an event
  -- before it, so a restart has the unfinished event delivered again.
  pub unfinished_redelivered :
      (topic : String) (r : ReplayId) (seq : ℕ)
      → lookup string_discrete topic s.table ≡ some r
      → lookup string_discrete topic initial ≡ none
      → 1 ≤ seq
      → ¬ Has seq (positions topic s.reports)
      → (last : ℕ) × (last < seq) × (r ≡ rid topic last)
  unfinished_redelivered topic r seq e fresh low open_event = elim (committed_is_safe topic r e) [
    | inl old ↦ absurd (ground arith)
    | inr (last, _, q, all) ↦ elim (dec_lt last seq) [
      | yes lt ↦ (last, lt, q)
      | no ge ↦ absurd (open_event (all seq low (omega arith)))
    ]
  ]

  -- No progress is forgotten: between flushes a cursor that has moved and is clean stands in the table, also
  -- when writes failed and reports came in while a flush was running; it belongs to the event before the
  -- cursor's position, every event up to there is done, and the one at the position is not.
  pub clean_is_committed :
      (topic : String) (t : TopicCursor)
      → s.busy ≡ false
      → lookup string_discrete topic s.committer.topics ≡ some t
      → t.dirty ≡ false
      → 1 < t.next
      → (lookup string_discrete topic s.table ≡ some t.replay_id)
        × (t.replay_id ≡ rid topic (t.next - 1))
        × ((k : ℕ) → 1 ≤ k → k < t.next → Has k (positions topic s.reports))
        × (¬ Has t.next (positions topic s.reports))
  clean_is_committed topic t free there calm big =
      let v = Reach-SysInv rid initial reach in
      let (inv, gap) = v.tracks.cursors topic t there in
      (
        ground (arith, v.kept topic t there calm big, v.idle free, lookup-nil topic),
        ground (arith, inv.position),
        inv.below,
        λ m. ground (arith, inv.pending t.next (omega arith) m, gap),
      )
