-- ===== src/Subscriber/Window/Bounds.antt =====
-- internal/pubsub/subscriber.go: how far the flow-control window opens and closes.
use pubsub_event_processor.Common.{
  ℕ, ◌+◌, ◌-◌, ◌*◌, ◌≤◌, String, ◌≡◌, ◌≢◌, Result, ok, Error, arith, Option-cases, Result-cases,
  refl, inl, inr, ◌⊎◌, true,
}
use pubsub_event_processor.Replay.Cursor.{ReplayId}
use pubsub_event_processor.Subscriber.Stream.{Receiver, FetchRequest, initial_fetch, emit}
use pubsub_event_processor.Subscriber.Flow.{
  Flow, Sender, stopped, waiting, woken, taken, add, signal, receive, swap_none, swap, send,
  send_fails, cancel, reopen, ask_for, max_int32, clamp_to_int32,
}
use pubsub_event_processor.Subscriber.Flow as Flow
use pubsub_event_processor.Subscriber.Flow.Wakeups.{in_hand, no_lost_wakeup}
use pubsub_event_processor.Subscriber.Window.{
  Window, outstanding, Step, deliver, acknowledge, flow, connect, Reach, begin, next,
}

-- What is asked for, held in the pipeline, or about to be asked for.
abbrev pub window_size : Window → ℕ
window_size v = v.credit + outstanding v + v.flow.pending + in_hand v.flow.sender

-- What a step of the flow that acknowledges nothing does to the counts.
flow_balance :
    {f g : Flow}
    → Flow.Step f g
    → g.acked ≡ f.acked
    → (g.requested - f.requested) + g.pending + in_hand g.sender ≤ f.pending + in_hand f.sender
unfolding clamp_to_int32
flow_balance (add n low) same = ground arith
flow_balance (signal k e) same = ground arith
flow_balance (receive e w) same = ground arith
flow_balance (swap_none e z) same = ground arith
flow_balance (swap e low) same = ground arith
flow_balance (send n e) same = ground arith
flow_balance (send_fails n e) same = ground arith
flow_balance (cancel e) same = ground arith
flow_balance (reopen e) same = ground arith

-- Where nothing is clamped, and the sender goes on, nothing is lost.
flow_keeps :
    {f g : Flow}
    → Flow.Step f g
    → g.acked ≡ f.acked
    → g.sender ≢ stopped
    → f.pending + in_hand f.sender ≤ max_int32
    → (g.requested - f.requested) + g.pending + in_hand g.sender ≡ f.pending + in_hand f.sender
unfolding clamp_to_int32
flow_keeps (add n low) same on small = ground arith
flow_keeps (signal k e) same on small = ground arith
flow_keeps (receive e w) same on small = ground arith
flow_keeps (swap_none e z) same on small = ground arith
flow_keeps (swap e low) same on small = ground arith
flow_keeps (send n e) same on small = ground arith
flow_keeps (send_fails n e) same on small = ground arith
flow_keeps (cancel e) same on small = ground arith
flow_keeps (reopen e) same on small = ground arith

asks_for_batch :
    {X S : Type 0} (load_replay : String → S → Result (Error X) ReplayId × S) (r : Receiver) (s : S)
    (request : FetchRequest)
    → (initial_fetch load_replay r s).0 ≡ ok request
    → request.num_requested ≡ r.batch_size
unfolding initial_fetch
asks_for_batch load_replay r s request h = elim (Option-cases r.last_replay_id) [
  | inr (rid, e) ↦ ground arith
  | inl e ↦ elim (Result-cases (load_replay r.topic s).0) [
    | inl (rid, l) ↦ ground (arith, Option-cases rid)
    | inr (x, l) ↦ absurd (ground arith)
  ]
]

module _ {X S : Type 0} (load_replay : String → S → Result (Error X) ReplayId × S)
    (r : Receiver) where
  record WindowInv (v : Window) : Type 0 where
    known : v.flow.acked ≤ v.received
    batch : v.receiver.batch_size ≡ r.batch_size
    upper : window_size v ≤ r.batch_size * v.opened
    lower :
        r.batch_size * v.opened ≤ max_int32 → v.flow.sender ≢ stopped → r.batch_size ≤ window_size v

  Step-WindowInv : {v w : Window} → Step load_replay v w → WindowInv v → WindowInv w
  unfolding emit
  Step-WindowInv {v} (deliver e c some_left) h = record {
    known = omega (arith, h.known);
    batch = h.batch;
    upper = omega (arith, h.upper, h.known, some_left);
    lower = λ small on. omega (arith, h.lower small on, h.known, some_left);
  }
  Step-WindowInv {v} (acknowledge n low room) h = record {
    known = omega (arith, h.known, room);
    batch = h.batch;
    upper = omega (arith, h.upper, h.known, room);
    lower = λ small on. omega (arith, h.lower small on, h.known, room);
  }
  Step-WindowInv {v} (flow f st same rests) h = record {
    known = omega (arith, h.known, same);
    batch = h.batch;
    upper = omega (arith, h.upper, h.known, same, flow_balance st same);
    lower = λ small on.
        let before = h.lower small (λ e. on (rests e)) in
        omega (arith, before, same, h.upper, flow_keeps st same on (omega (arith, h.upper, small)));
  }
  Step-WindowInv {v} (connect s request off asked) h =
      let size = asks_for_batch load_replay v.receiver s request asked in
      let held : in_hand v.flow.sender ≡ 0 = ground arith in
      let more : r.batch_size * (v.opened + 1) ≡ r.batch_size * v.opened + r.batch_size =
        omega arith in
      record {
        known = h.known;
        batch = h.batch;
        upper = omega (arith, h.upper, size, h.batch, held, more);
        lower = λ small on. omega (arith, size, h.batch);
      }

  Reach-WindowInv : {v : Window} → Reach load_replay r v → WindowInv v
  Reach-WindowInv begin = record {
    known = omega arith;
    batch = refl;
    upper = omega arith;
    lower = λ small on. absurd (on refl);
  }
  Reach-WindowInv (next q st) = Step-WindowInv st (Reach-WindowInv q)

  -- Suppose that the server sends no more events than it was asked for. However events, acknowledgements, the
  -- sender and reconnects interleave: the events of a topic that are received and not acknowledged, together
  -- with those that the stream has been asked for and those that are about to be asked for, are at most a
  -- batch for each stream opened so far.
  pub window_is_bounded :
      {v : Window} → Reach load_replay r v → window_size v ≤ r.batch_size * v.opened
  window_is_bounded q = (Reach-WindowInv q).upper

  -- The window does not leak: while a stream's sender has not stopped, these events are at least a batch, as
  -- long as a batch for each stream opened so far fits in an `int32`.
  pub window_stays_open :
      {v : Window}
      → Reach load_replay r v
      → r.batch_size * v.opened ≤ max_int32
      → v.flow.sender ≢ stopped
      → r.batch_size ≤ window_size v
  window_stays_open q small on = (Reach-WindowInv q).lower small on

  Reach-Flow : {v : Window} → Reach load_replay r v → Flow.Reach v.flow
  Reach-Flow begin = Flow.next Flow.begin (cancel refl)
  Reach-Flow (next q (deliver e c some_left)) = Reach-Flow q
  Reach-Flow (next q (acknowledge n low room)) = Flow.next (Reach-Flow q) (add n low)
  Reach-Flow (next q (flow f st same rests)) = Flow.next (Reach-Flow q) st
  Reach-Flow (next q (connect s request off asked)) = Flow.next (Reach-Flow q) (reopen off)

  Sender-cases :
      (x : Sender) → x ≢ stopped → (x ≡ waiting) ⊎ (x ≡ woken) ⊎ ((n : ℕ) × (x ≡ taken n))
  Sender-cases waiting on = inl refl
  Sender-cases woken on = inr (inl refl)
  Sender-cases (taken n) on = inr (inr (n, refl))
  Sender-cases stopped on = absurd (on refl)

  -- A stream does not starve. Suppose that every event received is acknowledged and that the stream has
  -- delivered all that it was asked for, while its sender has not stopped; a batch is at least one event, and a
  -- batch for each stream opened so far fits in an `int32`. Then the next request is on its way: the token is
  -- in the channel, or a call of `Ack` is about to put it there, or the sender has taken the token, or it has
  -- taken the count and is about to send.
  pub stream_never_starves :
      {v : Window}
      → Reach load_replay r v
      → 1 ≤ r.batch_size
      → r.batch_size * v.opened ≤ max_int32
      → v.flow.sender ≢ stopped
      → v.credit ≡ 0
      → v.received ≡ v.flow.acked
      → (v.flow.wake ≡ true)
        ⊎ (1 ≤ v.flow.signalling)
        ⊎ (v.flow.sender ≡ woken)
        ⊎ ((n : ℕ) × (v.flow.sender ≡ taken n))
  stream_never_starves {v} q low small on dry done =
      let full = window_stays_open q small on in
      elim (Sender-cases v.flow.sender on) [
        | inr (inl w) ↦ inr (inr (inl w))
        | inr (inr t) ↦ inr (inr (inr t))
        | inl w ↦ elim (no_lost_wakeup (Reach-Flow q) (ground arith)) [
          | inl k ↦ inl k
          | inr (inl k) ↦ inr (inl k)
          | inr (inr k) ↦ inr (inr (inl k))
        ]
      ]
