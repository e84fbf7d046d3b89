-- ===== src/Subscriber/Run.antt =====
-- `Run` and `runOnce` of internal/pubsub/subscriber.go: one stream after the other, until the context is
-- cancelled.
pub mod Plays
pub mod Reconnects
use pubsub_event_processor.Common.{
  ℕ, ◌+◌, String, Option, none, some, List, [], ◌∷◌, Result, ok, err, Bool, if◌then◌else◌, Error,
  cause, wrap, text,
}
use pubsub_event_processor.Replay.Cursor.{ReplayId}
use pubsub_event_processor.Subscriber.Delay.{reconnect_delay}
use pubsub_event_processor.Subscriber.Stream.{
  FetchRequest, Receiver, StreamEnd, recv_error, cancelled, Incoming, initial_fetch, run_receiver,
}

-- What an open stream does: what it brings to the receiver, and the error of the sender, where the sender stops
-- first and the receiver is cut off.
pub record Opened (X : Type 0) : Type 0 where
  pub incoming : Incoming X
  pub sender_error : Option X

-- Whether the context is live behind a stream and its wait, is cancelled when the stream ends, or while `Run`
-- waits.
pub data Moment : Type 0 where
  live stopped stopped_waiting : Moment

-- One round of the loop of `Run`: its stream, if it is opened, the context, and the number that the generator
-- of the jitter returns.
pub record Round (X : Type 0) : Type 0 where
  pub stream : Opened X
  pub moment : Moment
  pub jitter : ℕ

-- What `Run` leaves: the receiver, the waits between the streams, and the errors counted as reconnects.
pub record RunResult (X S : Type 0) : Type 0 where
  pub receiver : Receiver
  pub waits : List ℕ
  pub errors : List (Error X)
  pub state : S

-- `subscribe` is the client's `Subscribe`, and `send` sends the first request on the stream.
module _ {X S : Type 0} (load_replay : String → S → Result (Error X) ReplayId × S)
    (subscribe : S → Option X × S) (send : FetchRequest → S → Option X × S) where
  -- The `select` of `runOnce` with a live context.
  abbrev pub stream_error : Option X → StreamEnd X → Option (Error X)
  stream_error (some x) end = some (wrap (text "send replenish") (cause x))
  stream_error none (recv_error x) = some (cause x)
  stream_error none cancelled = none

  -- `runOnce` from the first request on.
  unfoldable pub run_opened :
      Opened X → FetchRequest → Receiver → S → Option (Error X) × (Receiver × S)
  run_opened stream request r s =
      let (sent, s') = send request s in
      elim sent [
        | some x ↦ (some (wrap (text "send initial fetch") (cause x)), (r, s'))
        | none ↦
            let (r', end) = run_receiver r stream.incoming in
            (stream_error stream.sender_error end, (r', s'))
      ]

  -- `runOnce`: its error, and the receiver.
  unfoldable pub run_once : Opened X → Receiver → S → Option (Error X) × (Receiver × S)
  unfolding run_opened
  run_once stream r s =
      let (initial, s1) = initial_fetch load_replay r s in
      elim initial [
        | err x ↦ (some x, (r, s1))
        | ok request ↦
            let (opened, s2) = subscribe s1 in
            elim opened [
              | some x ↦ (some (wrap (text "open subscribe stream") (cause x)), (r, s2))
              | none ↦ run_opened stream request r s2
            ]
      ]

  abbrev pub counted : Option (Error X) → List (Error X) → List (Error X)
  counted none errors = errors
  counted (some x) errors = x ∷ errors

  -- The loop of `Run` from one attempt on: the receiver, the waits, and the errors counted.
  unfoldable pub run_from : List (Round X) → ℕ → Receiver → S → RunResult X S
  run_from [] attempt r s = record { receiver = r; waits = []; errors = []; state = s }
  run_from (round ∷ rounds) attempt r s =
      let (e, (r', s')) = run_once round.stream r s in
      let rest = run_from rounds (attempt + 1) r' s' in
      let delay = reconnect_delay attempt round.jitter in
      elim round.moment [
        | stopped ↦ record { receiver = r'; waits = []; errors = []; state = s' }
        | stopped_waiting ↦ record {
          receiver = r';
          waits = delay ∷ [];
          errors = counted e [];
          state = s';
        }
        | live ↦ record {
          receiver = rest.receiver;
          waits = delay ∷ rest.waits;
          errors = counted e rest.errors;
          state = rest.state;
        }
      ]

  -- `Run`
  unfoldable pub run : List (Round X) → Receiver → S → RunResult X S
  unfolding run_from
  run rounds r s = run_from rounds 0 r s

-- `reasonFromErr`: the label under which `Run` counts a reconnect. `is_eof` and `is_canceled` are errors.Is for
-- io.EOF and context.Canceled, and `code_name` is status.Code with its name.
unfoldable pub reason_from_err :
    {X : Type 0}
    → (Error X → Bool)
    → (Error X → Bool)
    → (Error X → String)
    → Option (Error X)
    → String
reason_from_err is_eof is_canceled code_name none = "ok"
reason_from_err is_eof is_canceled code_name (some e) =
    if is_eof e then "eof" else if is_canceled e then "canceled" else code_name e
