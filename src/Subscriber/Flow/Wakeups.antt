-- ===== src/Subscriber/Flow/Wakeups.antt =====
-- No acknowledgement is forgotten, and no wake-up is missed.
use pubsub_event_processor.Common.{ℕ, ◌+◌, ◌≤◌, ◌≡◌, ◌⊎◌, true, arith}
use pubsub_event_processor.Subscriber.Flow.{
  clamp_to_int32, ask_for, Sender, woken, taken, Flow, Step, add, signal, receive, swap_none, swap,
  send, send_fails, cancel, reopen, Reach, begin, next,
}

-- What the sender holds.
abbrev pub in_hand : Sender → ℕ
in_hand (taken n) = n
in_hand _ = 0

pub record FlowInv (f : Flow) : Type 0 where
  pub conserved : f.acked ≡ f.pending + in_hand f.sender + f.requested + f.lost
  pub awake : 1 ≤ f.pending → (f.wake ≡ true) ⊎ (1 ≤ f.signalling) ⊎ (f.sender ≡ woken)

ask_for-le : (n : ℕ) → ask_for n ≤ n
unfolding clamp_to_int32
ask_for-le n = ground arith

Step-FlowInv : {f g : Flow} → Step f g → FlowInv f → FlowInv g
Step-FlowInv (add n low) v = ground arith
Step-FlowInv (signal k e) v = ground arith
Step-FlowInv (receive e w) v = ground arith
Step-FlowInv (swap_none e z) v = ground arith
Step-FlowInv (swap e low) v = ground arith
Step-FlowInv (send n e) v = ground (arith, ask_for-le n)
Step-FlowInv (send_fails n e) v = ground arith
Step-FlowInv (cancel e) v = ground arith
Step-FlowInv (reopen e) v = ground arith

Reach-FlowInv : {f : Flow} → Reach f → FlowInv f
Reach-FlowInv begin = ground arith
Reach-FlowInv (next r st) = Step-FlowInv st (Reach-FlowInv r)

-- However calls of `Ack`, the sender and reconnects interleave: every event acknowledged is counted once, as
-- pending, in the sender's hands, requested again, or lost in a send that failed or was clamped.
pub acks_conserved :
    {f : Flow} → Reach f → f.acked ≡ f.pending + in_hand f.sender + f.requested + f.lost
acks_conserved r = (Reach-FlowInv r).conserved

-- No wake-up is missed: while acknowledgements are pending, the token is in the channel, or a call of `Ack`
-- is about to put it there, or the sender has taken it and has yet to take the count.
pub no_lost_wakeup :
    {f : Flow} → Reach f → 1 ≤ f.pending → (f.wake ≡ true) ⊎ (1 ≤ f.signalling) ⊎ (f.sender ≡ woken)
no_lost_wakeup r low = (Reach-FlowInv r).awake low
