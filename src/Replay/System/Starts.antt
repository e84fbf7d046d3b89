-- ===== src/Replay/System/Starts.antt =====
-- A report and the start of a flush keep the invariant of the system.
use pubsub_event_processor.Common.{
  ℕ, String, ◌≡◌, refl, inl, inr, true, false, none, some, List, [], ◌∷◌, lookup, string_discrete,
  arith, Option-cases,
}
use pubsub_event_processor.Replay.Cursor.{ReplayId}
use pubsub_event_processor.Replay.Invariant.{IsPosition}
use pubsub_event_processor.Replay.Committer.{Topics, Pending, done, snapshot, pending_of}
use pubsub_event_processor.Replay.Snapshot.{lookup-cleaned, lookup-pending_of, pending_of-Distinct}
use pubsub_event_processor.Replay.System.Tracks.{Tracks, Tracks-report}
use pubsub_event_processor.Replay.System.Safety.{
  SysInv, IsSafe-report, Kept-report, Tracks-snapshot,
}
use pubsub_event_processor.Replay.System.{System, IsSafe}

pub lookup-nil : (k : String) → lookup string_discrete k (let p : Pending = [] in p) ≡ none
unfolding lookup
lookup-nil k = refl

module _ (rid : String → ℕ → ReplayId) (initial : Pending) where
  pub report-SysInv :
      (s : System) (topic : String) (seq : ℕ)
      → IsPosition seq
      → SysInv rid initial s
      → SysInv rid initial (record s {
        committer = done s.committer topic seq (rid topic seq);
        reports = (topic, seq) ∷ s.reports;
      })
  report-SysInv s topic seq pos v = record {
    tracks = Tracks-report rid topic seq s.committer s.reports pos v.tracks;
    once = v.once;
    idle = v.idle;
    flight = λ k r e. IsSafe-report rid initial k topic seq s.reports r (v.flight k r e);
    stored = λ k r e. elim (v.stored k r e) [
      | inl old ↦ inl old
      | inr safe ↦ inr (IsSafe-report rid initial k topic seq s.reports r safe)
    ];
    kept = Kept-report rid initial topic seq s.committer s.writing s.table v.kept;
  }

  -- A dirty cursor is worth saving: every event below it is done.
  dirty-IsSafe :
      (k : String) (r : ReplayId) (topics : Topics) (reports : List (String × ℕ))
      → Tracks rid topics reports
      → lookup string_discrete k (pending_of topics) ≡ some r
      → IsSafe rid k reports r
  dirty-IsSafe k r topics reports v e = elim (Option-cases (lookup string_discrete k topics)) [
    | inl absent ↦ absurd (ground (arith, lookup-pending_of k topics v.distinct))
    | inr (t, there) ↦
        let (inv, gap) = v.cursors k t there in
        (
          t.next,
          ground (arith, lookup-pending_of k topics v.distinct, inv.moved),
          ground (arith, lookup-pending_of k topics v.distinct, inv.moved, inv.position),
          inv.below,
        )
  ]

  pub start-SysInv :
      (s : System)
      → s.busy ≡ false
      → SysInv rid initial s
      → SysInv rid initial (record s {
        committer = (snapshot s.committer).0;
        writing = (snapshot s.committer).1;
        busy = true;
      })
  unfolding snapshot
  start-SysInv s free v = record {
    tracks = Tracks-snapshot rid initial s.committer.topics s.reports v.tracks;
    once = pending_of-Distinct s.committer.topics v.tracks.distinct;
    idle = λ e. cc;
    flight = λ k r e. dirty-IsSafe k r s.committer.topics s.reports v.tracks e;
    stored = v.stored;
    kept = λ k u e calm big. elim (Option-cases (lookup string_discrete k s.committer.topics)) [
      | inl absent ↦ absurd (ground (arith, lookup-cleaned k s.committer.topics))
      | inr (t, there) ↦ ground (
        arith,
        v.idle free,
        nothing k,
        v.kept k t there,
        lookup-cleaned k s.committer.topics,
        lookup-pending_of k s.committer.topics v.tracks.distinct,
      )
    ];
  }
    where
      nothing : (k : String) → lookup string_discrete k s.writing ≡ none
      nothing k = rw (v.idle free) (lookup-nil k)
