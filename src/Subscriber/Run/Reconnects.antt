-- ===== src/Subscriber/Run/Reconnects.antt =====
-- What the loop of `Run` keeps from stream to stream, and how long it waits between them.
use pubsub_event_processor.Common.{
  ℕ, zero, suc, min, ◌+◌, ◌*◌, ◌^◌, ◌≤◌, ◌<◌, String, ◌≡◌, ◌≢◌, refl, sym, subst, ◌∙◌, ap, ◌⊎◌, inl,
  inr, Option, some, List, [], ◌∷◌, ◌++◌, Result, Error, arith, get_elem?,
}
use pubsub_event_processor.Replay.Cursor.{ReplayId}
use pubsub_event_processor.Subscriber.Delay.{
  spread, reconnect_base, reconnect_delay, reconnect_delay_bounds,
}
use pubsub_event_processor.Subscriber.Stream.{FetchRequest, Receiver, Incoming, run_streams}
use pubsub_event_processor.Subscriber.Run.{
  Moment, live, stopped, stopped_waiting, Round, run_once, run_from, run,
}
use pubsub_event_processor.Subscriber.Run.Plays.{
  Plays, ends, opens, opens_last, fails, fails_last, run_once-streams, run_streams-snoc,
}

Moment-cases : (m : Moment) → (m ≡ live) ⊎ (m ≡ stopped) ⊎ (m ≡ stopped_waiting)
Moment-cases live = inl refl
Moment-cases stopped = inr (inl refl)
Moment-cases stopped_waiting = inr (inr refl)

live-cases : (m : Moment) → (m ≡ live) ⊎ (m ≢ live)
live-cases live = inl refl
live-cases stopped = inr (λ e. cc)
live-cases stopped_waiting = inr (λ e. cc)

module _ {X S : Type 0} (load_replay : String → S → Result (Error X) ReplayId × S)
    (subscribe : S → Option X × S) (send : FetchRequest → S → Option X × S) where
  run_from-waits :
      (rounds : List (Round X)) (attempt : ℕ) (r : Receiver) (s : S) (n d : ℕ)
      → get_elem? (run_from load_replay subscribe send rounds attempt r s).waits n ≡ some d
      → (round : Round X) × (get_elem? rounds n ≡ some round)
        × (d ≡ reconnect_delay (attempt + n) round.jitter)
  unfolding run_from
  run_from-waits [] attempt r s n d h = absurd (ground arith)
  run_from-waits (round ∷ rounds) attempt r s zero d h = elim (Moment-cases round.moment) [
    | inl e ↦ (round, refl, ground arith)
    | inr (inl e) ↦ absurd (ground arith)
    | inr (inr e) ↦ (round, refl, ground arith)
  ]
  run_from-waits (round ∷ rounds) attempt r s (suc n) d h = elim (Moment-cases round.moment) [
    | inl e ↦
        let after = (run_once load_replay subscribe send round.stream r s).1 in
        let (later, there, same) =
          run_from-waits rounds (attempt + 1) after.0 after.1 n d (ground arith) in
        (later, there, same ∙ ap (λ k. reconnect_delay k later.jitter) (omega arith))
    | inr (inl e) ↦ absurd (ground arith)
    | inr (inr e) ↦ absurd (ground arith)
  ]

  -- The wait before stream `n + 2` depends on the number of streams before it alone: it is at least three
  -- quarters of 1 s doubled `n` times, or of 30 s where that is less, whatever those streams brought.
  pub waits_never_reset :
      (rounds : List (Round X)) (r : Receiver) (s : S) (n d : ℕ) (round : Round X)
      → get_elem? (run load_replay subscribe send rounds r s).waits n ≡ some d
      → get_elem? rounds n ≡ some round
      → round.jitter < 2 * spread (reconnect_base n)
      → (d ≡ reconnect_delay n round.jitter)
        × (3 * min (1_000_000_000 * 2 ^ n) 30_000_000_000 ≤ 4 * d)
  unfolding run
  waits_never_reset rounds r s n d round h there low =
      let (found, same, e) = run_from-waits rounds 0 r s n d h in
      let one : found ≡ round = ground arith in
      let exact : d ≡ reconnect_delay n round.jitter =
        e
        ∙ ap (λ k. reconnect_delay k found.jitter) (omega arith)
        ∙ ap (λ q. reconnect_delay n q.jitter) one in
      (exact, omega (arith, exact, (reconnect_delay_bounds n round.jitter low).0))

  -- What the rounds play from a receiver behind the streams of `before`.
  abbrev Continued : List (Round X) → ℕ → Receiver → List (Incoming X) → Receiver → S → Type 0
  Continued rounds attempt r before q s =
      let result = run_from load_replay subscribe send rounds (attempt + 1) q s in
      (all : List (Incoming X)) × Plays load_replay subscribe send r before s rounds all
        result.state
      × (result.receiver ≡ run_streams r all)

  abbrev Played : List (Round X) → ℕ → Receiver → List (Incoming X) → S → Type 0
  Played rounds attempt r before s =
      let result = run_from load_replay subscribe send rounds attempt (run_streams r before) s in
      (all : List (Incoming X)) × Plays load_replay subscribe send r before s rounds all
        result.state
      × (result.receiver ≡ run_streams r all)

  abbrev After : List (Round X) → ℕ → Receiver → S → Receiver × S → Type 0
  After rounds attempt r s (r', t) =
      let result = run_from load_replay subscribe send rounds attempt r s in
      (result.receiver ≡ r') × (result.state ≡ t)

  -- A round with a live context, and one without.
  run_from-live :
      (round : Round X) (rounds : List (Round X)) (attempt : ℕ) (r : Receiver) (s : S)
      → round.moment ≡ live
      → let (_, (r', t)) = run_once load_replay subscribe send round.stream r s in
        let rest = run_from load_replay subscribe send rounds (attempt + 1) r' t in
        After (round ∷ rounds) attempt r s (rest.receiver, rest.state)
  unfolding run_from
  run_from-live round rounds attempt r s e = ground arith

  run_from-stops :
      (round : Round X) (rounds : List (Round X)) (attempt : ℕ) (r : Receiver) (s : S)
      → round.moment ≢ live
      → After (round ∷ rounds) attempt r s (run_once load_replay subscribe send round.stream r s).1
  unfolding run_from
  run_from-stops round rounds attempt r s over = elim (Moment-cases round.moment) [
    | inl e ↦ absurd (over e)
    | inr (inl e) ↦ ground arith
    | inr (inr e) ↦ ground arith
  ]

  -- What the rest of the rounds plays, played from here.
  retold :
      (rounds : List (Round X)) (attempt : ℕ) (r : Receiver) (before : List (Incoming X)) (s : S)
      (all : List (Incoming X)) (q : Receiver) (t : S)
      → After rounds attempt (run_streams r before) s (q, t)
      → Plays load_replay subscribe send r before s rounds all t
      → q ≡ run_streams r all
      → Played rounds attempt r before s
  retold rounds attempt r before s all q t (left, state) plays same = (
    all,
    subst (λ u. Plays load_replay subscribe send r before s rounds all u) (sym state) plays,
    left ∙ same,
  )

  run_from-Plays :
      (rounds : List (Round X)) (attempt : ℕ) (r : Receiver) (before : List (Incoming X)) (s : S)
      → Played rounds attempt r before s
  unfolding run_from
  run_from-Plays [] attempt r before s = (before, ends, refl)
  run_from-Plays (round ∷ rounds) attempt r before s =
      let i = round.stream.incoming in
      let q = run_streams r before in
      let (_, (q', t)) = run_once load_replay subscribe send round.stream q s in
      let goes = run_from-live round rounds attempt q s in
      let stops = run_from-stops round rounds attempt q s in
      let tell = retold (round ∷ rounds) attempt r before s in
      elim (run_once-streams load_replay subscribe send round.stream q s) [
        | inl (connect, left) ↦
            let grown : q' ≡ run_streams r (before ++ i ∷ []) =
              left ∙ sym (run_streams-snoc r before i) in
            elim (live-cases round.moment) [
              | inl e ↦
                  let rest = run_from-Plays rounds (attempt + 1) r (before ++ i ∷ []) t in
                  let (all, plays, same) =
                    subst (λ u. Continued rounds attempt r (before ++ i ∷ []) u t) (sym grown)
                      rest in
                  tell all _ _ (goes e) (opens connect e plays) same
              | inr over ↦ tell _ _ _ (stops over) (opens_last connect over) grown
            ]
        | inr (failed, left) ↦ elim (live-cases round.moment) [
          | inl e ↦
              let (all, plays, same) =
                subst (λ u. Continued rounds attempt r before u t) (sym left)
                  (run_from-Plays rounds (attempt + 1) r before t) in
              tell all _ _ (goes e) (fails failed e plays) same
          | inr over ↦ tell _ _ _ (stops over) (fails_last failed over) left
        ]
      ]

  -- Round by round: where the first request is made, the stream opened and the request sent without an error,
  -- the round's stream is received, with the request and the receiver that all streams received before it lead
  -- to; where one of the three fails, the round brings nothing. The rounds end with the first one behind which
  -- the context is not live, or with the list. The receiver after `Run` is the one after all streams received,
  -- in their order.
  pub run_is_streams :
      (rounds : List (Round X)) (r : Receiver) (s : S)
      → let result = run load_replay subscribe send rounds r s in
        (all : List (Incoming X)) × Plays load_replay subscribe send r [] s rounds all result.state
        × (result.receiver ≡ run_streams r all)
  unfolding run run_streams
  run_is_streams rounds r s = run_from-Plays rounds 0 r [] s
