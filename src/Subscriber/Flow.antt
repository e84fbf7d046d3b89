-- ===== src/Subscriber/Flow.antt =====
-- Flow control: `Ack` on the workers' side, `runSender` on the stream's side, with the atomic counter and
-- the channel of one token between them. The steps are the atomic operations, so that `Ack` may stand
-- between its two and the sender between its three.
pub mod Wakeups
use pubsub_event_processor.Common.{
  ℕ, zero, suc, ◌+◌, ◌-◌, ◌*◌, ◌^◌, ◌≤◌, ◌<◌, ◌≡◌, Bool, true, false, if◌then◌else◌, ltb, ℤ, pos,
  negsuc,
}

abbrev pub max_int32 : ℕ
max_int32 = 2147483647

-- `clampToInt32`
unfoldable pub clamp_to_int32 : ℤ → ℤ
clamp_to_int32 (pos n) = if ltb max_int32 n then pos max_int32 else pos n
clamp_to_int32 (negsuc n) = pos 0

abbrev pub magnitude : ℤ → ℕ
magnitude (pos n) = n
magnitude (negsuc n) = 0

-- int32(clampToInt32(n)) for a count.
abbrev pub ask_for : ℕ → ℕ
ask_for n = magnitude (clamp_to_int32 (pos n))

-- Where the sender stands: at its `select`, with the token taken, with the count taken, or returned.
pub data Sender : Type 0 where
  waiting woken stopped : Sender
  taken : ℕ → Sender

-- `pendingAck`, whether `ackWake` holds its token, the calls of `Ack` that have added and not yet signalled,
-- the sender; and for the theorems the events acknowledged, those requested again, and those whose request
-- was lost with a stream.
pub record Flow : Type 0 where
  pub pending : ℕ
  pub wake : Bool
  pub signalling : ℕ
  pub sender : Sender
  pub acked : ℕ
  pub requested : ℕ
  pub lost : ℕ

abbrev pub idle : Flow
idle = record {
  pending = 0;
  wake = false;
  signalling = 0;
  sender = waiting;
  acked = 0;
  requested = 0;
  lost = 0;
}

pub data Step (f : Flow) : Flow → Type 0 where
  -- s.pendingAck.Add(int64(n)), behind the guard `n <= 0`
  add :
      (n : ℕ)
      → 1 ≤ n
      → Step f
          (record f { pending = f.pending + n; signalling = suc f.signalling; acked = f.acked + n })
  -- the `select` of `Ack`: the token is sent, or is there already
  signal : (k : ℕ) → f.signalling ≡ suc k → Step f (record f { wake = true; signalling = k })
  -- case <-s.ackWake
  receive : f.sender ≡ waiting → f.wake ≡ true → Step f (record f { wake = false; sender = woken })
  -- n := s.pendingAck.Swap(0), and `continue` on 0
  swap_none : f.sender ≡ woken → f.pending ≡ 0 → Step f (record f { sender = waiting })
  swap :
      f.sender ≡ woken → 1 ≤ f.pending → Step f (record f { pending = 0; sender = taken f.pending })
  -- stream.Send succeeds
  send :
      (n : ℕ)
      → f.sender ≡ taken n
      → Step f (record f {
        sender = waiting;
        requested = f.requested + ask_for n;
        lost = f.lost + (n - ask_for n);
      })
  -- it fails, and the sender returns the error
  send_fails :
      (n : ℕ) → f.sender ≡ taken n → Step f (record f { sender = stopped; lost = f.lost + n })
  -- case <-ctx.Done()
  cancel : f.sender ≡ waiting → Step f (record f { sender = stopped })
  -- the next stream starts its sender
  reopen : f.sender ≡ stopped → Step f (record f { sender = waiting })

pub data Reach : Flow → Type 0 where
  begin : Reach idle
  next : {f g : Flow} → Reach f → Step f g → Reach g
