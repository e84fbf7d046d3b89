-- ===== src/Replay/System/Steps.antt =====
-- Each step of the system keeps its invariant.
use pubsub_event_processor.Common.{ℕ, String, refl, inl, inr, lookup}
use pubsub_event_processor.Replay.Cursor.{ReplayId}
use pubsub_event_processor.Replay.Committer.{Pending, done}
use pubsub_event_processor.Replay.System.Safety.{SysInv}
use pubsub_event_processor.Replay.System.{
  System, positions, Step, report, start, saved, refused, unsure, finish, Reach, begin, next,
}
use pubsub_event_processor.Replay.System.Starts.{report-SysInv, start-SysInv}
use pubsub_event_processor.Replay.System.Writes.{saved-SysInv, failed-SysInv}

module _ (rid : String → ℕ → ReplayId) (initial : Pending) where
  Step-SysInv : {s t : System} → Step rid s t → SysInv rid initial s → SysInv rid initial t
  Step-SysInv {s} (report topic seq pos) v = report-SysInv rid initial s topic seq pos v
  Step-SysInv {s} (start free) v = start-SysInv rid initial s free v
  Step-SysInv {s} (saved topic r rest w) v = saved-SysInv rid initial s topic r rest w v
  Step-SysInv {s} (refused topic r rest c w m) v =
      failed-SysInv rid initial s topic r rest s.table c w m (inl refl) v
  Step-SysInv {s} (unsure topic r rest c w m) v =
      failed-SysInv rid initial s topic r rest _ c w m (inr refl) v
  Step-SysInv {s} (finish done) v = record {
    tracks = v.tracks;
    once = v.once;
    idle = λ _. done;
    flight = v.flight;
    stored = v.stored;
    kept = v.kept;
  }

  pub Reach-SysInv : {s : System} → Reach rid initial s → SysInv rid initial s
  unfolding positions lookup
  Reach-SysInv begin = record {
    tracks = record {
      distinct = tt;
      cursors = λ k t e. absurd (cc);
      unseen = λ k e. refl;
      valid = λ k s m. absurd m;
    };
    once = tt;
    idle = λ e. refl;
    flight = λ k r e. absurd (cc);
    stored = λ k r e. inl e;
    kept = λ k t e. absurd (cc);
  }
  Reach-SysInv (next r st) = Step-SysInv st (Reach-SysInv r)
