-- ===== src/Storage.antt =====
-- internal/storage: the repositories and the store in front of them.
use pubsub_event_processor.Common.{
  ℕ, String, Bool, true, false, Option, none, some, Result, ok, err, Error, cause, wrap, text,
  quoted, if◌then◌else◌,
}
use pubsub_event_processor.Replay.Cursor.{Bytes, ReplayId}
use pubsub_event_processor.Event.{DecodedEvent}
use pubsub_event_processor.Event.Services.{Services, Row}

module _ {P : Type 0} (s : Services P) where
  open s use {W, E, insert_event, select_replay, upsert_replay, is_no_rows, marshal_payload}

  -- The row that `Upsert` passes to the statement.
  abbrev pub row_of : DecodedEvent P → Bytes → Row
  row_of e payload = record {
    event_uuid = e.event_id;
    topic = e.topic;
    schema_id = e.schema_id;
    replay_id = e.replay_id;
    payload = payload;
    received_at = e.received_at;
  }

  -- `Upsert` after its statement was scanned.
  abbrev pub scanned : String → Result E ℕ → Result (Error E) Bool
  scanned event_id (ok id) = ok true
  scanned event_id (err e) =
      if is_no_rows e then ok false else err (wrap (quoted "insert event" event_id) (cause e))

  -- `EventRepo.Upsert`
  unfoldable pub upsert : DecodedEvent P → W → Result (Error E) Bool × W
  upsert e w = elim (marshal_payload e.payload) [
    | err x ↦ (err (wrap (text "marshal payload") (cause x)), w)
    | ok payload ↦ let (r, w') = insert_event (row_of e payload) w in (scanned e.event_id r, w')
  ]

  -- `Store.PersistEvent`
  unfoldable pub persist_event : DecodedEvent P → W → Result (Error E) Bool × W
  persist_event e w =
      let (r, w') = upsert e w in
      (elim r [ ok inserted ↦ ok inserted | err x ↦ err (wrap (text "persist event") x) ], w')

  -- `ReplayRepo.Get` after its query was scanned; nil is "never committed".
  abbrev pub loaded : String → Result E ReplayId → Result (Error E) ReplayId
  loaded topic (ok rid) = ok rid
  loaded topic (err e) =
      if is_no_rows e then ok none else err (wrap (quoted "load replay for" topic) (cause e))

  -- `ReplayRepo.Get`, which is `Store.LoadReplay`.
  unfoldable pub load_replay : String → W → Result (Error E) ReplayId × W
  load_replay topic w = let (r, w') = select_replay topic w in (loaded topic r, w')

  -- `ReplayRepo.Set`, which is `Store.SaveReplay`.
  unfoldable pub save_replay : String → ReplayId → W → Option (Error E) × W
  save_replay topic rid w =
      let (r, w') = upsert_replay topic rid w in
      (elim r [ none ↦ none | some e ↦ some (wrap (quoted "set replay for" topic) (cause e)) ], w')
