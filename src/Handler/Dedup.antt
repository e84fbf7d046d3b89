-- ===== src/Handler/Dedup.antt =====
-- internal/handler/dedup.go
use pubsub_event_processor.Common.{
  String, ◌≡◌, Bool, true, false, Option, none, some, Result, ok, err, Error, arith,
}
use pubsub_event_processor.Event.{DecodedEvent}
use pubsub_event_processor.Handler.{Handler}

module _ {P X S : Type 0} where
  -- `DedupHandler.Handle` behind its `switch`: the wrapped handler, and the mark if it succeeds. An error
  -- of `MarkSeen` is logged and dropped.
  unfoldable pub handle_and_mark :
      (String → S → Option (Error X) × S) → (Handler P X S) → Handler P X S
  handle_and_mark mark_seen next e s =
      let (r, s') = next e s in
      elim r [ some x ↦ (some x, s') | none ↦ (none, (mark_seen e.event_id s').1) ]

  -- `DedupHandler.Handle`
  unfoldable pub dedup :
      (String → S → Result (Error X) Bool × S)
      → (String → S → Option (Error X) × S)
      → (Handler P X S)
      → Handler P X S
  unfolding handle_and_mark
  dedup seen mark_seen next e s =
      let (r, s') = seen e.event_id s in
      elim r [
        | err x ↦ handle_and_mark mark_seen next e s'
        | ok true ↦ (none, s')
        | ok false ↦ handle_and_mark mark_seen next e s'
      ]

  -- Unless the cache answers that the event was seen, `Handle` returns what the wrapped handler returns
  -- from the state after the lookup: a cache that is down, at the lookup or at the mark, changes no result.
  pub dedup_miss_transparent :
      (seen : String → S → Result (Error X) Bool × S)
      (mark_seen : String → S → Option (Error X) × S) (next : Handler P X S) (e : DecodedEvent P)
      (s : S)
      → ((seen e.event_id s).0 ≡ ok true → ⊥)
      → (dedup seen mark_seen next e s).0 ≡ (next e (seen e.event_id s).1).0
  unfolding dedup
  dedup_miss_transparent seen mark_seen next e s miss = ground arith
