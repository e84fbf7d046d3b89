-- ===== src/Examples/Running.antt =====
-- The theorems on the running service at concrete inputs.
use pubsub_event_processor.Examples.Runs.{
  source, parse, unmarshal, stream, shared, raw, v1, run1, v3, v8, run8, f2, in_table, v9, run9,
  v10, later10, cursor, cursor_there,
}
use pubsub_event_processor.Examples.Lists.{
  lists, lists_promises, wiring, empty_state, empty-IsTruthful,
}
use pubsub_event_processor.Subscriber.Stream.{
  FetchRequest, latest, custom, initial_fetch, new_receiver,
}
use pubsub_event_processor.Replay.Cursor.{Bytes}
use pubsub_event_processor.Service.Shutdown.{last_flush_is_complete}
use pubsub_event_processor.Replay.System.{positions}
use pubsub_event_processor.Service.Restart.{entry, restart_point}
use pubsub_event_processor.Common.{
  Error, insert, Result, ℕ, ◌+◌, ◌*◌, ◌≤◌, String, ◌≡◌, refl, ◌⊎◌, inl, false, none, some, List, [],
  ◌∷◌, ok, Has, arith, lookup, string_discrete,
}
use pubsub_event_processor.Replay.Cursor.{ReplayId}
use pubsub_event_processor.Replay.System.{System}
use pubsub_event_processor.Replay.System as Replay
use pubsub_event_processor.Pipeline.{
  handlers, root, seen_step, mark_step, persist_step, forward_step,
}
use pubsub_event_processor.Schema.{get, decode, fetch}
use pubsub_event_processor.Storage.{upsert}
use pubsub_event_processor.Subscriber.Stream.{emit}
use pubsub_event_processor.Worker.{decoded_event}
use pubsub_event_processor.Worker.Tasks.Alone.{advances, attempted, alone_is_root}
use pubsub_event_processor.Worker.Tasks.{idle, handle_start}
use pubsub_event_processor.Worker.Tasks.Progress.{IsAccounted}
use pubsub_event_processor.Service.{Service, Later, raw_of, rid}
use pubsub_event_processor.Service.Refines.{service_is_committer}
use pubsub_event_processor.Service.Committed.{committed_is_delivered}
use pubsub_event_processor.Service.Conserved.{event_in_one_place}
use pubsub_event_processor.Service.Places.{everywhere}
use pubsub_event_processor.Handler.Chain.{chain}
use pubsub_event_processor.Handler.Dedup.{dedup}
use pubsub_event_processor.Service.Finishes.{OneWorker, worker_can_finish}
use pubsub_event_processor.Service.Bounded.{service_is_bounded, in_service, Within}

-- The only text of the source.
only_long : (id : String) (n : ℕ) (text : String) → (source id n).0 ≡ ok text → text ≡ "long"
only_long id n text e = ground arith

committed_is_delivered_example :
    (lookup string_discrete "t" (let p : List (String × ReplayId) = [] in p) ≡ some (some (1 ∷ [])))
    ⊎ ((last : ℕ) × (1 ≤ last)
        × (some (1 ∷ []) ≡ (stream "t" last).replay_id)
        × ((k : ℕ)
            → 1 ≤ k
            → k ≤ last
            → IsAccounted lists wiring source parse unmarshal lists_promises only_long
                (raw_of lists wiring source parse unmarshal stream "t" k)
                v8.shared.pipeline.world))
committed_is_delivered_example =
    committed_is_delivered lists wiring source parse unmarshal lists_promises only_long stream 100
      ("t" ∷ []) 1 shared [] empty-IsTruthful refl run8 "t" (some (1 ∷ [])) in_table

service_is_committer_example :
    Replay.Reach (rid lists wiring source parse unmarshal stream) [] v8.log
service_is_committer_example =
    service_is_committer lists wiring source parse unmarshal stream 100 ("t" ∷ []) 1 shared [] run8

feed_is_there : Has (record f2 { hand = none }) v8.feeds
feed_is_there = inl refl

received_one : 1 ≤ (record f2 { hand = none }).receiver.seq
unfolding emit
received_one = ground arith

event_in_one_place_example : everywhere "t" 1 v8 ≡ 1
unfolding emit
event_in_one_place_example =
    event_in_one_place lists wiring source parse unmarshal stream 100 ("t" ∷ []) 1 shared [] run8
      (record f2 { hand = none }) 1 feed_is_there (ground arith) received_one

run1-Within : Within lists wiring source parse unmarshal stream 100 ("t" ∷ []) 1 5 run1
run1-Within = ((tt, ground arith), ground arith)

service_is_bounded_example : in_service v1 ≤ 1 * (1025 + 5) + 100 * 2 + 1
service_is_bounded_example =
    service_is_bounded lists wiring source parse unmarshal stream 100 ("t" ∷ []) 1 5 shared [] run1
      run1-Within

alone_is_root_example :
    let (r, st) = root lists wiring (decoded_event raw 1) empty_state in
    (n : ℕ) × (advances lists wiring source parse unmarshal n
        (handle_start lists wiring source parse unmarshal raw 1, shared)
      ≡ (attempted lists wiring source parse unmarshal raw 1 r, record shared { pipeline = st }))
alone_is_root_example = alone_is_root lists wiring source parse unmarshal raw 1 shared

schema_there : (get source parse "s" (shared.schemas, shared.source)).0 ≡ ok 1
unfolding get fetch lookup
schema_there = refl

decodes : decode unmarshal (some 1) raw.payload ≡ ok 1
unfolding decode
decodes = refl

handled : (root lists wiring (decoded_event raw 1) empty_state).0 ≡ none
unfolding root dedup chain handlers seen_step mark_step persist_step forward_step upsert
handled = refl

worker_can_finish_example :
    (w : Service ℕ ℕ lists) × OneWorker lists wiring source parse unmarshal stream 100 [] [] v3 w
    × Later lists wiring source parse unmarshal stream 100 v3 w
    × (w.events ≡ [])
    × (w.workers ≡ idle ∷ [])
    × (w.feeds ≡ v3.feeds)
    × (w.is_cancelled ≡ false)
    × (w.log.reports ≡ ("t", 1) ∷ [])
    × (w.shared.pipeline ≡ (root lists wiring (decoded_event raw 1) empty_state).1)
worker_can_finish_example =
    worker_can_finish lists wiring source parse unmarshal stream 100 v3 [] [] raw [] 1 1 refl refl
      schema_there decodes handled

-- A store that reads the table.
abbrev load_table : String → ℕ → Result (Error ℕ) ReplayId × ℕ
load_table topic n = (ok (entry (lookup string_discrete topic v8.log.table)), n)

abbrev request : FetchRequest
request = record {
  topic_name = "t";
  replay_preset = custom;
  replay_id = some (1 ∷ []);
  num_requested = 100;
}

table_reads :
    (rid : ReplayId)
    → (load_table "t" 0).0 ≡ ok rid
    → rid ≡ entry (lookup string_discrete "t" v8.log.table)
table_reads rid h = ground arith

requested : (initial_fetch load_table (new_receiver "t" 100) 0).0 ≡ ok request
unfolding initial_fetch lookup insert string_discrete
requested = refl

restart_point_example :
    ((custom ≡ latest) × (entry (lookup string_discrete "t" v8.log.table) ≡ none))
    ⊎ ((rid : Bytes) × (custom ≡ custom)
        × (some (1 ∷ []) ≡ some rid)
        × ((lookup string_discrete "t" (let p : List (String × ReplayId) = [] in p)
              ≡ some (some rid))
            ⊎ ((last : ℕ) × (1 ≤ last)
                × (some rid ≡ (stream "t" last).replay_id)
                × ((k : ℕ)
                    → 1 ≤ k
                    → k ≤ last
                    → IsAccounted lists wiring source parse unmarshal lists_promises only_long
                        (raw_of lists wiring source parse unmarshal stream "t" k)
                        v8.shared.pipeline.world))))
restart_point_example =
    restart_point lists wiring source parse unmarshal lists_promises only_long stream 100 ("t" ∷ [])
      1 shared [] empty-IsTruthful refl run8 load_table "t" 100 0 request table_reads requested

last_flush_is_complete_example :
    (v10.log.reports ≡ v9.log.reports)
    × ((last : ℕ) × (1 ≤ last)
        × (lookup string_discrete "t" v10.log.table ≡ some (stream "t" last).replay_id)
        × ((k : ℕ) → 1 ≤ k → k ≤ last → Has k (positions "t" v9.log.reports))
        × (¬ Has (last + 1) (positions "t" v9.log.reports)))
last_flush_is_complete_example =
    last_flush_is_complete lists wiring source parse unmarshal stream 100 ("t" ∷ []) 1 shared []
      run9 refl later10 "t" cursor refl cursor_there refl (ground arith)
