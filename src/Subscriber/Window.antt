-- ===== src/Subscriber/Window.antt =====
-- internal/pubsub/subscriber.go: the flow-control window of one subscriber, over its streams. `initialFetch` asks
-- for a batch, the receiver puts what arrives on `out`, `Ack` and the sender ask for more.
pub mod Bounds
pub mod Reconnect
use pubsub_event_processor.Common.{ℕ, suc, ◌+◌, ◌-◌, ◌≤◌, String, ◌≡◌, Result, ok, err, Error}
use pubsub_event_processor.Replay.Cursor.{ReplayId}
use pubsub_event_processor.Subscriber.Stream.{
  Receiver, ConsumerEvent, FetchRequest, initial_fetch, emit,
}
use pubsub_event_processor.Subscriber.Flow.{Flow, stopped, waiting, idle}
use pubsub_event_processor.Subscriber.Flow as Flow

-- The subscriber's two halves, the events that its stream has been asked for and has not put on `out`, and for
-- the theorems the events that it received and the streams that it opened.
pub record Window : Type 0 where
  pub flow : Flow
  pub receiver : Receiver
  pub credit : ℕ
  pub received : ℕ
  pub opened : ℕ

-- The events received and not yet acknowledged.
abbrev pub outstanding : Window → ℕ
outstanding v = v.received - v.flow.acked

module _ {X S : Type 0} (load_replay : String → S → Result (Error X) ReplayId × S) where
  pub data Step (v : Window) : Window → Type 0 where
    -- An event of `Recv` is put on `out`. The server sends what it was asked for.
    deliver :
        (e : ConsumerEvent) (c : ℕ)
        → v.credit ≡ suc c
        → Step v (record v { receiver = emit v.receiver e; credit = c; received = v.received + 1 })
    -- s.pendingAck.Add(int64(n)) of `Ack`, for events that were received and not acknowledged before; `App.ack`
    -- gives it 1 for each.
    acknowledge :
        (n : ℕ)
        → 1 ≤ n
        → n ≤ outstanding v
        → Step v (record v {
          flow = record v.flow {
            pending = v.flow.pending + n;
            signalling = suc v.flow.signalling;
            acked = v.flow.acked + n;
          };
        })
    -- The `select` of `Ack`, or a step of the sender; what the sender asks for comes to the credit.
    flow :
        (f : Flow)
        → Flow.Step v.flow f
        → f.acked ≡ v.flow.acked
        → (v.flow.sender ≡ stopped → f.sender ≡ stopped)
        → Step v (record v { flow = f; credit = v.credit + (f.requested - v.flow.requested) })
    -- `runOnce` after the stream has ended: what the old stream had not delivered is not delivered any more.
    connect :
        (s : S) (request : FetchRequest)
        → v.flow.sender ≡ stopped
        → (initial_fetch load_replay v.receiver s).0 ≡ ok request
        → Step v (record v {
          flow = record v.flow { sender = waiting };
          credit = request.num_requested;
          opened = v.opened + 1;
        })

  -- Before the first stream.
  abbrev pub unopened : Receiver → Window
  unopened r = record {
    flow = record idle { sender = stopped };
    receiver = r;
    credit = 0;
    received = 0;
    opened = 0;
  }

  pub data Reach (r : Receiver) : Window → Type 0 where
    begin : Reach r (unopened r)
    next : {v w : Window} → Reach r v → Step v w → Reach r w
