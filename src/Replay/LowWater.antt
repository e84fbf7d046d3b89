-- ===== src/Replay/LowWater.antt =====
-- What the cursor of one topic stands for, after any calls of `Done` in any order.
use pubsub_event_processor.Common.{
  ℕ, suc, ◌≤◌, ◌<◌, ◌≡◌, refl, false, inr, none, List, [], ◌∷◌, ite, if_pos, if_neg, sym, ap, ◌∙◌,
  ◌↔◌, dec_lt, ℕ_discrete, arith, length, lookup, insert, lookup-insert, Has,
}
use pubsub_event_processor.Replay.Cursor.{ReplayId, TopicCursor, new_cursor, drain, record_done}
use pubsub_event_processor.Replay.Invariant.{
  cursor_at, IsPosition, Inv, Settled, drain-Inv, drain-gap, drain-still,
}

module _ (rid : ℕ → ReplayId) where
  -- The cursor after calls of `Done` for these positions, the last call first.
  unfoldable pub after_dones : List ℕ → TopicCursor
  after_dones [] = new_cursor
  after_dones (s ∷ earlier) = record_done s (rid s) (after_dones earlier)

  new-Inv : Inv rid [] new_cursor
  unfolding lookup dec_lt
  new-Inv = record {
    start = omega arith;
    fits = omega arith;
    below = λ s low lt. absurd (omega arith);
    pending = λ s le m. absurd m;
    held = λ s r e. absurd (cc);
    position = refl;
    moved = λ e. cc;
  }

  -- A late report changes nothing but the set of reported positions.
  old-Inv :
      (s : ℕ) (seen : List ℕ) (t : TopicCursor) → s < t.next → Inv rid seen t → Inv rid (s ∷ seen) t
  old-Inv s seen t lt v = record {
    start = v.start;
    fits = v.fits;
    below = λ k low h. inr (v.below k low h);
    pending = λ k le m. ground (arith, v.pending k);
    held = λ k r e. ground (arith, v.held k r);
    position = v.position;
    moved = v.moved;
  }

  filled-Inv :
      (s : ℕ) (seen : List ℕ) (t : TopicCursor)
      → t.next ≤ s
      → Inv rid seen t
      → Inv rid (s ∷ seen) (record t { done = insert ℕ_discrete s (rid s) t.done })
  filled-Inv s seen t le v = record {
    start = v.start;
    fits = v.fits;
    below = λ k low h. inr (v.below k low h);
    pending = λ k h m. ground (arith, v.pending k, lookup-insert ℕ_discrete s k (rid s) t.done);
    held = λ k r e. ground (arith, v.held k r, lookup-insert ℕ_discrete s k (rid s) t.done);
    position = v.position;
    moved = v.moved;
  }

  pub record_done-Inv :
      (s : ℕ) (seen : List ℕ) (t : TopicCursor)
      → ((k : ℕ) → Has k (s ∷ seen) → IsPosition k)
      → Inv rid seen t
      → Inv rid (s ∷ seen) (record_done s (rid s) t)
  unfolding record_done
  record_done-Inv s seen t valid v = elim (dec_lt s t.next) [
    | yes late ↦ rw (if_pos _ late) (old-Inv s seen t late v)
    | no fresh ↦
        rw (if_neg _ fresh)
          (drain-Inv rid (s ∷ seen) valid _ _ (filled-Inv s seen t (omega arith) v))
  ]

  ends_at_gap :
      (s : ℕ) (t : TopicCursor) (d : Dec (s < t.next))
      → lookup ℕ_discrete t.next t.done ≡ none
      → let filled : TopicCursor = record t { done = insert ℕ_discrete s (rid s) t.done } in
        let u : TopicCursor = ite d t (drain (suc (length filled.done)) filled) in
        lookup ℕ_discrete u.next u.done ≡ none
  ends_at_gap s t (yes late) h = h
  ends_at_gap s t (no fresh) h =
      let filled : TopicCursor = record t { done = insert ℕ_discrete s (rid s) t.done } in
      drain-gap (suc (length filled.done)) filled (omega arith)

  -- The loop of `Done` always ends, and it ends at a gap.
  pub record_done-gap :
      (s : ℕ) (t : TopicCursor)
      → lookup ℕ_discrete t.next t.done ≡ none
      → lookup ℕ_discrete (record_done s (rid s) t).next (record_done s (rid s) t).done ≡ none
  unfolding record_done
  record_done-gap s t h = ends_at_gap s t (dec_lt s t.next) h

  pub record_done-Settled :
      (s : ℕ) (seen : List ℕ) (t : TopicCursor)
      → ((k : ℕ) → Has k (s ∷ seen) → IsPosition k)
      → Settled rid seen t
      → Settled rid (s ∷ seen) (record_done s (rid s) t)
  record_done-Settled s seen t valid (v, gap) =
      (record_done-Inv s seen t valid v, record_done-gap s t gap)

  pub new-Settled : Settled rid [] new_cursor
  unfolding lookup
  new-Settled = (new-Inv, refl)

  after_dones-Settled :
      (seen : List ℕ) → ((k : ℕ) → Has k seen → IsPosition k) → Settled rid seen (after_dones seen)
  unfolding after_dones
  after_dones-Settled [] valid = new-Settled
  after_dones-Settled (s ∷ earlier) valid =
      record_done-Settled s earlier (after_dones earlier) valid
        (after_dones-Settled earlier (λ k m. valid k (inr m)))

  -- After any calls of `Done` for positions from 1 to 2^64 - 2, in any order, every position below `next`
  -- was reported, `next` itself was not, and `replay_id` is the replay ID of the event right below it, nil
  -- if there is none.
  pub after_dones_low_water :
      (seen : List ℕ)
      → ((k : ℕ) → Has k seen → IsPosition k)
      → ((s : ℕ) → 1 ≤ s → s < (after_dones seen).next → Has s seen)
        × (¬ Has (after_dones seen).next seen)
        × (1 ≤ (after_dones seen).next)
        × ((after_dones seen).replay_id ≡ cursor_at rid (after_dones seen).next)
  after_dones_low_water seen valid =
      let (v, gap) = after_dones-Settled seen valid in
      (
        v.below,
        λ m. ground (arith, gap, v.pending (after_dones seen).next (omega arith) m),
        v.start,
        v.position,
      )

  next-le :
      (xs ys : List ℕ)
      → ((k : ℕ) → Has k xs → IsPosition k)
      → ((k : ℕ) → Has k ys → IsPosition k)
      → ((k : ℕ) → Has k xs → Has k ys)
      → (after_dones xs).next ≤ (after_dones ys).next
  next-le xs ys vx vy sub = elim (dec_lt (after_dones ys).next (after_dones xs).next) [
    | yes lt ↦
        let (below, _, _, _) = after_dones_low_water xs vx in
        let (_, gap, start, _) = after_dones_low_water ys vy in
        absurd (gap (sub _ (below _ start lt)))
    | no h ↦ omega arith
  ]

  -- A cursor that has seen more reports, for positions from 1 to 2^64 - 2, stands no lower, whatever the
  -- order of the reports was.
  pub next-after_dones_mono :
      (xs ys : List ℕ)
      → ((k : ℕ) → Has k ys → IsPosition k)
      → ((k : ℕ) → Has k xs → Has k ys)
      → (after_dones xs).next ≤ (after_dones ys).next
  next-after_dones_mono xs ys valid sub = next-le xs ys (λ k m. valid k (sub k m)) valid sub

  -- For positions from 1 to 2^64 - 2, workers may finish in any order, and report an event again: calls of
  -- `Done` for the same positions leave the same low-water mark and the same replay ID.
  pub after_dones_order :
      (xs ys : List ℕ)
      → ((k : ℕ) → Has k ys → IsPosition k)
      → ((k : ℕ) → Has k xs ↔ Has k ys)
      → ((after_dones xs).next ≡ (after_dones ys).next)
        × ((after_dones xs).replay_id ≡ (after_dones ys).replay_id)
  after_dones_order xs ys valid same =
      let vx : (k : ℕ) → Has k xs → IsPosition k = λ k m. valid k ((same k).0 m) in
      let up = next-le xs ys vx valid (λ k. (same k).0) in
      let down = next-le ys xs valid vx (λ k. (same k).1) in
      let mark : (after_dones xs).next ≡ (after_dones ys).next = omega arith in
      (
        mark,
        (after_dones_low_water xs vx).3
            ∙ ap (cursor_at rid) mark
            ∙ sym (after_dones_low_water ys valid).3,
      )

  -- Nothing holds the cursor back but an unfinished event, with positions from 1 to 2^64 - 2: once the
  -- first `n` positions are reported, in whatever order, the cursor stands above `n`.
  pub after_dones_advances :
      (seen : List ℕ) (n : ℕ)
      → ((k : ℕ) → Has k seen → IsPosition k)
      → ((s : ℕ) → 1 ≤ s → s ≤ n → Has s seen)
      → n < (after_dones seen).next
  after_dones_advances seen n valid all = elim (dec_lt n (after_dones seen).next) [
    | yes lt ↦ lt
    | no h ↦
        let (_, gap, start, _) = after_dones_low_water seen valid in
        absurd (gap (all _ start (omega arith)))
  ]

-- A report that leaves the cursor clean has not moved it.
pub record_done-still :
    (s : ℕ) (r : ReplayId) (t : TopicCursor)
    → (record_done s r t).dirty ≡ false
    → (t.dirty ≡ false)
      × ((record_done s r t).next ≡ t.next)
      × ((record_done s r t).replay_id ≡ t.replay_id)
unfolding record_done
record_done-still s r t h = elim (dec_lt s t.next) [
  | yes late ↦ ground arith
  | no fresh ↦
      let filled : TopicCursor = record t { done = insert ℕ_discrete s r t.done } in
      ground (arith, drain-still (suc (length filled.done)) filled)
]
