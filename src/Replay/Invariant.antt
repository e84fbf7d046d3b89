-- ===== src/Replay/Invariant.antt =====
-- The invariant of the cursor of one topic, and the loop of `Done` that keeps it.
use pubsub_event_processor.Common.{
  ℕ, zero, suc, ◌+◌, ◌-◌, ◌^◌, ◌≤◌, ◌<◌, ◌≡◌, refl, true, false, inl, inr, none, some, List, ite,
  dec_lt, ℕ_discrete, arith, length, lookup, lookup-delete, length-delete-lt, Has, Option-cases,
}
use pubsub_event_processor.Replay.Cursor.{ReplayId, TopicCursor, advance, drain}

-- The replay ID that a cursor holds when every event below position `n` is done.
abbrev pub cursor_at : (ℕ → ReplayId) → ℕ → ReplayId
cursor_at rid n = ite (dec_lt 1 n) (rid (n - 1)) none

-- A position of the stream: they start at 1, and the next one is a `uint64` too.
abbrev pub IsPosition : ℕ → Type 0
IsPosition s = (1 ≤ s) × (s + 1 < 2 ^ 64)

-- `seen` are the positions reported so far, `rid` gives the replay ID of each event.
pub record Inv (rid : ℕ → ReplayId) (seen : List ℕ) (t : TopicCursor) : Type 0 where
  pub start : 1 ≤ t.next
  pub fits : t.next < 2 ^ 64
  pub below : (s : ℕ) → 1 ≤ s → s < t.next → Has s seen
  pub pending : (s : ℕ) → t.next ≤ s → Has s seen → lookup ℕ_discrete s t.done ≡ some (rid s)
  pub held :
      (s : ℕ) (r : ReplayId)
      → lookup ℕ_discrete s t.done ≡ some r
      → (t.next ≤ s) × Has s seen × (r ≡ rid s)
  pub position : t.replay_id ≡ cursor_at rid t.next
  pub moved : t.dirty ≡ true → 1 < t.next

-- The invariant between two calls of `Done`: the loop has run to its end.
abbrev pub Settled : (ℕ → ReplayId) → List ℕ → TopicCursor → Type 0
Settled rid seen t = Inv rid seen t × (lookup ℕ_discrete t.next t.done ≡ none)

module _ (rid : ℕ → ReplayId) (seen : List ℕ) (valid : (s : ℕ) → Has s seen → IsPosition s) where
  pub advance-Inv :
      (t : TopicCursor) (r : ReplayId)
      → Inv rid seen t
      → lookup ℕ_discrete t.next t.done ≡ some r
      → Inv rid seen (advance t r)
  unfolding advance
  advance-Inv t r v e = record {
    start = omega (arith, room);
    fits = omega (arith, room);
    below = λ s low lt. ground (arith, v.below s, room, found);
    pending = λ s le m. ground (arith, v.pending s, room, lookup-delete ℕ_discrete t.next s t.done);
    held = λ s x p. ground (arith, v.held s x, room, lookup-delete ℕ_discrete t.next s t.done);
    position = ground (arith, v.start, room, found);
    moved = λ _. omega (arith, v.start, room);
  }
    where
      found : (t.next ≤ t.next) × Has t.next seen × (r ≡ rid t.next)
      found = v.held t.next r e

      room : IsPosition t.next
      room = valid t.next found.1

  pub drain-Inv : (fuel : ℕ) (t : TopicCursor) → Inv rid seen t → Inv rid seen (drain fuel t)
  unfolding drain
  drain-Inv zero t v = v
  drain-Inv (suc fuel) t v = elim (Option-cases (lookup ℕ_discrete t.next t.done)) [
    | inl e ↦ rw (e, drain) v
    | inr (r, e) ↦ rw (e, drain) (drain-Inv fuel (advance t r) (advance-Inv t r v e))
  ]

-- With one round more than there are entries the loop ends at a position that was not reported.
pub drain-gap :
    (fuel : ℕ) (t : TopicCursor)
    → length t.done < fuel
    → lookup ℕ_discrete (drain fuel t).next (drain fuel t).done ≡ none
unfolding drain advance
drain-gap zero t h = absurd (omega arith)
drain-gap (suc fuel) t h = elim (Option-cases (lookup ℕ_discrete t.next t.done)) [
  | inl e ↦ rw (e, drain) e
  | inr (r, e) ↦
      rw (e, drain)
        (drain-gap fuel (advance t r)
          (omega (arith, length-delete-lt ℕ_discrete t.next r t.done e)))
]

pub drain-still :
    (fuel : ℕ) (t : TopicCursor)
    → (drain fuel t).dirty ≡ false
    → (t.dirty ≡ false) × ((drain fuel t).next ≡ t.next) × ((drain fuel t).replay_id ≡ t.replay_id)
unfolding drain advance
drain-still zero t h = (h, refl, refl)
drain-still (suc fuel) t h = elim (Option-cases (lookup ℕ_discrete t.next t.done)) [
  | inl e ↦ ground arith
  | inr (r, e) ↦ ground (arith, drain-still fuel (advance t r))
]

module _ (rid : ℕ → ReplayId) (seen : List ℕ) (t : TopicCursor) where
  -- The flag `dirty` says nothing about the value of the cursor.
  pub cleaned-Inv : Inv rid seen t → Inv rid seen (record t { dirty = false })
  cleaned-Inv v = record {
    start = v.start;
    fits = v.fits;
    below = v.below;
    pending = v.pending;
    held = v.held;
    position = v.position;
    moved = λ e. cc;
  }

  pub dirty-Inv : 1 < t.next → Inv rid seen t → Inv rid seen (record t { dirty = true })
  dirty-Inv big v = record {
    start = v.start;
    fits = v.fits;
    below = v.below;
    pending = v.pending;
    held = v.held;
    position = v.position;
    moved = λ e. big;
  }
