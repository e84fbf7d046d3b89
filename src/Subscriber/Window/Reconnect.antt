-- ===== src/Subscriber/Window/Reconnect.antt =====
-- internal/pubsub/subscriber.go: the flow-control window after a reconnect.
use pubsub_event_processor.Common.{
  ℕ, zero, suc, ◌+◌, ◌-◌, ◌≤◌, String, ◌≡◌, Result, ok, Error, some, arith, refl, true, false,
}
use pubsub_event_processor.Replay.Cursor.{Bytes, ReplayId}
use pubsub_event_processor.Subscriber.Stream.{
  Receiver, ConsumerEvent, initial_fetch, emit, fetch_from, new_receiver,
}
use pubsub_event_processor.Subscriber.Flow.{
  Flow, stopped, waiting, woken, taken, signal, receive, swap, send, cancel, ask_for, max_int32,
  clamp_to_int32,
}
use pubsub_event_processor.Subscriber.Window.{
  Window, outstanding, deliver, acknowledge, flow, connect, Reach, begin, next,
}

ask_for-small : (n : ℕ) → n ≤ max_int32 → ask_for n ≡ n
unfolding clamp_to_int32
ask_for-small n low = ground arith

module _ {X S : Type 0} (load_replay : String → S → Result (Error X) ReplayId × S) (topic : String)
    (batch_size : ℕ) where
  abbrev r : Receiver
  r = new_receiver topic batch_size

  -- The stream delivers `n` events, each with its replay ID.
  delivered :
      (e : ConsumerEvent) (id : Bytes) (n : ℕ) (v : Window)
      → e.replay_id ≡ some id
      → v.receiver.last_replay_id ≡ some id
      → v.credit ≡ n
      → Reach load_replay r v
      → (w : Window) × Reach load_replay r w
        × (w.receiver.last_replay_id ≡ some id)
        × (w.receiver.batch_size ≡ v.receiver.batch_size)
        × (w.flow ≡ v.flow)
        × (w.credit ≡ 0)
        × (w.received ≡ v.received + n)
        × (w.opened ≡ v.opened)
  unfolding emit
  delivered e id zero v has last left q = (v, q, last, refl, refl, left, ground arith, refl)
  delivered e id (suc n) v has last left q =
      let (w, q', a, b, c, d, x, y) =
        delivered e id n _ has (ground arith) (ground arith) (next q (deliver e n left)) in
      (w, q', a, ground arith, ground arith, d, ground arith, ground arith)

  -- `Ack` for `n` events, with nothing else going on, asks for `n` more.
  refilled :
      (n : ℕ) (v : Window)
      → 1 ≤ n
      → n ≤ max_int32
      → n ≤ outstanding v
      → v.flow.sender ≡ waiting
      → v.flow.pending ≡ 0
      → v.flow.signalling ≡ 0
      → Reach load_replay r v
      → (w : Window) × Reach load_replay r w
        × (w.credit ≡ v.credit + n)
        × (w.flow.acked ≡ v.flow.acked + n)
        × (w.received ≡ v.received)
        × (w.opened ≡ v.opened)
  refilled n v low high room on none_pending none_signalling q =
      let f1 : Flow = record v.flow {
        pending = v.flow.pending + n;
        signalling = suc v.flow.signalling;
        acked = v.flow.acked + n;
      } in
      let f2 : Flow = record f1 { wake = true; signalling = 0 } in
      let f3 : Flow = record f2 { wake = false; sender = woken } in
      let f4 : Flow = record f3 { pending = 0; sender = taken f3.pending } in
      let f5 : Flow = record f4 {
        sender = waiting;
        requested = f4.requested + ask_for f3.pending;
        lost = f4.lost + (f3.pending - ask_for f3.pending);
      } in
      let q1 = next q (acknowledge n low room) in
      let q2 = next q1 (flow f2 (signal 0 (ground arith)) refl (λ e. ground arith)) in
      let q3 = next q2 (flow f3 (receive on refl) refl (λ e. ground arith)) in
      let q4 = next q3 (flow f4 (swap refl (ground arith)) refl (λ e. ground arith)) in
      let q5 = next q4 (flow f5 (send f3.pending refl) refl (λ e. ground arith)) in
      (_, q5, ground (arith, ask_for-small n high), refl, refl, refl)

  opened_again :
      (id : Bytes) (s : S) (v : Window)
      → v.flow.sender ≡ waiting
      → v.receiver.last_replay_id ≡ some id
      → Reach load_replay r v
      → (w : Window) × Reach load_replay r w
        × (w.credit ≡ v.receiver.batch_size)
        × (w.flow ≡ v.flow)
        × (w.received ≡ v.received)
        × (w.opened ≡ v.opened + 1)
  unfolding initial_fetch
  opened_again id s v on last q =
      let q1 = next q (flow (record v.flow { sender = stopped }) (cancel on) refl (λ e. refl)) in
      let q2 = next q1 (connect s (fetch_from v.receiver (some id)) refl (ground arith)) in
      (_, q2, ground arith, ground arith, refl, refl)

  -- A reconnect can widen the window. For a batch of at least one event that fits in an `int32`, where the
  -- events carry replay IDs and the cursor of the topic can be loaded: the subscriber can come to a state in
  -- which it has opened two streams, every event received is acknowledged, and the second stream has been
  -- asked for two batches that it has yet to deliver.
  pub reconnect_widens :
      (e : ConsumerEvent) (id : Bytes) (rid : ReplayId) (s : S)
      → 1 ≤ batch_size
      → batch_size ≤ max_int32
      → e.replay_id ≡ some id
      → (load_replay topic s).0 ≡ ok rid
      → (v : Window) × Reach load_replay (new_receiver topic batch_size) v
        × (v.opened ≡ 2)
        × (outstanding v ≡ 0)
        × (v.credit ≡ batch_size + batch_size)
  unfolding initial_fetch emit
  reconnect_widens e id rid s low high has known =
      let q1 : Reach load_replay r _ =
        next begin (connect s (fetch_from r rid) refl (ground arith)) in
      let q2 = next q1 (deliver e (batch_size - 1) (ground arith)) in
      let (v3, q3, a3, b3, c3, d3, x3, y3) =
        delivered e id (batch_size - 1) _ has (ground arith) refl q2 in
      let (v4, q4, a4, b4, x4, y4) = opened_again id s v3 (ground arith) a3 q3 in
      let (v5, q5, a5, b5, x5, y5) =
        refilled batch_size v4 low high (ground arith) (ground arith) (ground arith) (ground arith)
          q4 in
      (v5, q5, ground arith, ground arith, ground arith)
