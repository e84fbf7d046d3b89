-- ===== src/Examples/Streams.antt =====
-- The theorems on the subscription at concrete inputs.
use pubsub_event_processor.Common.{
  ℕ, ◌+◌, ◌*◌, ◌^◌, ◌≤◌, ◌<◌, min, String, ◌≡◌, refl, inl, Bool, false, Option, none, some, List,
  [], ◌∷◌, Result, ok, Error, arith, length, map, get_elem?, if◌then◌else◌, ltb,
}
use pubsub_event_processor.Replay.Cursor.{ReplayId}
use pubsub_event_processor.Subscriber.Delay.{reconnect_base, reconnect_delay, spread}
use pubsub_event_processor.Subscriber.Stream.{
  ConsumerEvent, FetchRequest, Incoming, batch, cut, broken, custom, new_receiver, run_streams,
  all_received, received, initial_fetch,
}
use pubsub_event_processor.Subscriber.Stream.Numbering.{
  numbered_from, last_id, run_streams_numbering, resume_point,
}
use pubsub_event_processor.Subscriber.Run.{Round, live, run, run_from}
use pubsub_event_processor.Subscriber.Run.Reconnects.{run_is_streams, waits_never_reset}
use pubsub_event_processor.Subscriber.Run.Plays.{Plays}
use pubsub_event_processor.Interceptor.{
  Code, unavailable, intercept, fell_through, Transient, again, stop, answer, intercept_bounded,
  intercept_settles,
}

zero_in_spread : 0 < 2 * spread (reconnect_base 2)
unfolding reconnect_base
zero_in_spread = ground arith

abbrev received_event : ℕ → ConsumerEvent
received_event n = record {
  event_id = "u";
  schema_id = "s";
  payload = n ∷ [];
  replay_id = some (n ∷ []);
  arrived = n;
}

-- A stream of three events that breaks, one that is cancelled in its first batch, and one that brings nothing.
abbrev three_streams : List (Incoming ℕ)
three_streams =
    batch (received_event 1 ∷ received_event 2 ∷ []) (batch (received_event 3 ∷ []) (broken 14))
    ∷ cut (received_event 4 ∷ [])
    ∷ broken 14
    ∷ []

few_events : length (all_received three_streams) < 2 ^ 64
unfolding all_received received
few_events = ground arith

run_streams_numbering_example :
    let r = run_streams (new_receiver "t" 100) three_streams in
    (r.out ≡ numbered_from "t" 1 (all_received three_streams))
    × (r.seq ≡ length (all_received three_streams))
    × (r.last_replay_id ≡ last_id none (all_received three_streams))
run_streams_numbering_example = run_streams_numbering "t" 100 three_streams few_events

-- A store that has nothing.
abbrev pub no_cursor : String → ℕ → Result (Error ℕ) ReplayId × ℕ
no_cursor topic s = (ok none, s + 1)

resume_point_example :
    initial_fetch no_cursor (run_streams (new_receiver "t" 100) three_streams) 0 ≡ (
      ok (record {
        topic_name = "t";
        replay_preset = custom;
        replay_id = some (4 ∷ []);
        num_requested = 100;
      }),
      0,
    )
unfolding all_received received
resume_point_example = resume_point no_cursor "t" 100 three_streams 0 few_events

-- A server that is unavailable twice.
abbrev code_of : ℕ → Code
code_of n = unavailable

abbrev unavailable_twice : ℕ → Option ℕ × ℕ
unavailable_twice s = (if ltb s 2 then some 14 else none, s + 1)

abbrev never : ℕ → Bool
never attempt = false

intercept_bounded_example :
    (1 ≤ (intercept code_of unavailable_twice never 0).invocations)
    × ((intercept code_of unavailable_twice never 0).invocations ≤ 5)
    × (length (intercept code_of unavailable_twice never 0).total ≡ 1)
    × (fell_through code_of unavailable_twice never
          (intercept code_of unavailable_twice never 0).result
        ≡ false)
intercept_bounded_example = intercept_bounded code_of unavailable_twice never 0

twice : Transient code_of unavailable_twice never 2 0 2
twice = again refl (inl refl) (again refl (inl refl) stop)

intercept_settles_example :
    ((intercept code_of unavailable_twice never 0).result
      ≡ answer code_of unavailable_twice never none)
    × ((intercept code_of unavailable_twice never 0).state ≡ 3)
    × ((intercept code_of unavailable_twice never 0).invocations ≡ 3)
intercept_settles_example =
    intercept_settles code_of unavailable_twice never 2 0 2 3 none twice refl tt (ground arith)
      (λ i. refl)

-- Three streams that break at the end, with a live context.
abbrev round_of : Incoming ℕ → Round ℕ
round_of i = record {
  stream = record { incoming = i; sender_error = none };
  moment = live;
  jitter = 0;
}

abbrev rounds : List (Round ℕ)
rounds = map round_of three_streams

abbrev accepts : ℕ → Option ℕ × ℕ
accepts s = (none, s)

abbrev sends : FetchRequest → ℕ → Option ℕ × ℕ
sends request s = (none, s)

run_is_streams_example :
    let result = run no_cursor accepts sends rounds (new_receiver "t" 100) 0 in
    (all : List (Incoming ℕ)) × Plays no_cursor accepts sends
      (new_receiver "t" 100)
      []
      0
      rounds
      all
      result.state
    × (result.receiver ≡ run_streams (new_receiver "t" 100) all)
run_is_streams_example = run_is_streams no_cursor accepts sends rounds (new_receiver "t" 100) 0

third_wait :
    get_elem? (run no_cursor accepts sends rounds (new_receiver "t" 100) 0).waits 2
    ≡ some (reconnect_delay 2 0)
unfolding run run_from
third_wait = refl

waits_never_reset_example :
    (reconnect_delay 2 0 ≡ reconnect_delay 2 0)
    × (3 * min (1_000_000_000 * 2 ^ 2) 30_000_000_000 ≤ 4 * reconnect_delay 2 0)
waits_never_reset_example =
    waits_never_reset no_cursor accepts sends rounds (new_receiver "t" 100) 0 2 _
      (round_of (broken 14)) third_wait refl zero_in_spread
