-- ===== src/Examples/Windows.antt =====
-- The theorems on the flow-control window at concrete inputs.
use Prim.Native.Nat.{zero-le, suc-le-suc}
use pubsub_event_processor.Common.{
  ℕ, ◌*◌, ◌≤◌, ◌≡◌, ◌≢◌, ◌⊎◌, refl, none, some, [], ◌∷◌, true, arith,
}
use pubsub_event_processor.Subscriber.Stream.{
  Receiver, ConsumerEvent, initial_fetch, emit, fetch_from, new_receiver,
}
use pubsub_event_processor.Subscriber.Flow.{stopped, woken, taken}
use pubsub_event_processor.Subscriber.Window.{
  Window, outstanding, deliver, acknowledge, connect, Reach, begin, next,
}
use pubsub_event_processor.Subscriber.Window.Bounds.{
  window_size, window_is_bounded, window_stays_open, stream_never_starves,
}
use pubsub_event_processor.Subscriber.Window.Reconnect.{reconnect_widens}
use pubsub_event_processor.Examples.Streams.{no_cursor}

abbrev two : Receiver
two = new_receiver "t" 2

abbrev an_event : ConsumerEvent
an_event = record {
  event_id = "e";
  schema_id = "a";
  payload = [];
  replay_id = some (1 ∷ []);
  arrived = 0;
}

-- A stream delivers its batch of two.
abbrev both : (v : Window) × Reach no_cursor two v
unfolding initial_fetch emit
both =
    let q1 : Reach no_cursor two _ = next begin (connect 0 (fetch_from two none) refl refl) in
    let q2 : Reach no_cursor two _ = next q1 (deliver an_event 1 refl) in
    (_, next q2 (deliver an_event 0 refl))

-- Both events are acknowledged by a call of `Ack` that has not signalled yet.
abbrev drained : (v : Window) × Reach no_cursor two v
unfolding initial_fetch emit
drained = (_, next both.1 (acknowledge 2 (suc-le-suc zero-le) (suc-le-suc (suc-le-suc zero-le))))

window_is_bounded_example : window_size drained.0 ≤ 2 * drained.0.opened
window_is_bounded_example = window_is_bounded no_cursor two drained.1

is_on : drained.0.flow.sender ≢ stopped
unfolding initial_fetch emit
is_on h = ground arith

is_small : 2 * drained.0.opened ≤ 2147483647
unfolding initial_fetch emit
is_small = ground arith

window_stays_open_example : 2 ≤ window_size drained.0
window_stays_open_example = window_stays_open no_cursor two drained.1 is_small is_on

is_done : (drained.0.credit ≡ 0) × (drained.0.received ≡ drained.0.flow.acked)
unfolding initial_fetch emit
is_done = (refl, refl)

stream_never_starves_example :
    (drained.0.flow.wake ≡ true)
    ⊎ (1 ≤ drained.0.flow.signalling)
    ⊎ (drained.0.flow.sender ≡ woken)
    ⊎ ((n : ℕ) × (drained.0.flow.sender ≡ taken n))
stream_never_starves_example =
    stream_never_starves no_cursor two drained.1 (omega arith) is_small is_on is_done.0 is_done.1

reconnect_widens_example :
    (v : Window) × Reach no_cursor two v × (v.opened ≡ 2) × (outstanding v ≡ 0) × (v.credit ≡ 4)
reconnect_widens_example =
    reconnect_widens no_cursor "t" 2 an_event (1 ∷ []) none 0 (omega arith) (omega arith) refl refl
