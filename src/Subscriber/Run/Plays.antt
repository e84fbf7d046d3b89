-- ===== src/Subscriber/Run/Plays.antt =====
-- How the rounds of `Run` of internal/pubsub/subscriber.go bring the streams, one by one.
use pubsub_event_processor.Common.{
  String, ◌≡◌, ◌≢◌, refl, ap, ◌⊎◌, inl, inr, Option, none, some, List, [], ◌∷◌, ◌++◌, Result, ok,
  err, Error, Option-cases, Result-cases,
}
use pubsub_event_processor.Replay.Cursor.{ReplayId}
use pubsub_event_processor.Subscriber.Stream.{
  FetchRequest, Receiver, Incoming, initial_fetch, run_receiver, run_streams,
}
use pubsub_event_processor.Subscriber.Run.{Opened, live, Round, run_opened, run_once}

pub run_streams-snoc :
    {X : Type 0} (r : Receiver) (is : List (Incoming X)) (i : Incoming X)
    → run_streams r (is ++ i ∷ []) ≡ (run_receiver (run_streams r is) i).0
unfolding run_streams
run_streams-snoc r [] i = refl
run_streams-snoc r (j ∷ is) i = run_streams-snoc (run_receiver r j).0 is i

module _ {X S : Type 0} (load_replay : String → S → Result (Error X) ReplayId × S)
    (subscribe : S → Option X × S) (send : FetchRequest → S → Option X × S) where
  -- From a receiver, the first request is made, the stream opened, and the request sent on it.
  pub data Connects : Receiver → S → S → Type 0 where
    connects :
        {r : Receiver} {s s1 s2 t : S} {request : FetchRequest}
        → initial_fetch load_replay r s ≡ (ok request, s1)
        → subscribe s1 ≡ (none, s2)
        → send request s2 ≡ (none, t)
        → Connects r s t

  -- One of the three fails.
  pub data Fails : Receiver → S → S → Type 0 where
    no_request :
        {r : Receiver} {s t : S} {x : Error X}
        → initial_fetch load_replay r s ≡ (err x, t)
        → Fails r s t
    no_stream :
        {r : Receiver} {s s1 t : S} {request : FetchRequest} {x : X}
        → initial_fetch load_replay r s ≡ (ok request, s1)
        → subscribe s1 ≡ (some x, t)
        → Fails r s t
    no_send :
        {r : Receiver} {s s1 s2 t : S} {request : FetchRequest} {x : X}
        → initial_fetch load_replay r s ≡ (ok request, s1)
        → subscribe s1 ≡ (none, s2)
        → send request s2 ≡ (some x, t)
        → Fails r s t

  -- `Plays r before s rounds all t`: behind the streams of `before`, the rounds add to them those that are
  -- received, each one with the receiver that all the streams before it left, until the context is cancelled.
  pub data Plays (r : Receiver)
      : List (Incoming X) → S → List (Round X) → List (Incoming X) → S → Type 0 where
    ends : {before : List (Incoming X)} {s : S} → Plays r before s [] before s
    opens :
        {before all : List (Incoming X)} {s t u : S} {round : Round X} {rounds : List (Round X)}
        → Connects (run_streams r before) s t
        → round.moment ≡ live
        → Plays r (before ++ round.stream.incoming ∷ []) t rounds all u
        → Plays r before s (round ∷ rounds) all u
    opens_last :
        {before : List (Incoming X)} {s t : S} {round : Round X} {rounds : List (Round X)}
        → Connects (run_streams r before) s t
        → round.moment ≢ live
        → Plays r before s (round ∷ rounds) (before ++ round.stream.incoming ∷ []) t
    fails :
        {before all : List (Incoming X)} {s t u : S} {round : Round X} {rounds : List (Round X)}
        → Fails (run_streams r before) s t
        → round.moment ≡ live
        → Plays r before t rounds all u
        → Plays r before s (round ∷ rounds) all u
    fails_last :
        {before : List (Incoming X)} {s t : S} {round : Round X} {rounds : List (Round X)}
        → Fails (run_streams r before) s t
        → round.moment ≢ live
        → Plays r before s (round ∷ rounds) before t

  abbrev pub Brings : Opened X → Receiver → S → Type 0
  Brings stream r s =
      let (_, (r', t)) = run_once load_replay subscribe send stream r s in
      (Connects r s t × (r' ≡ (run_receiver r stream.incoming).0)) ⊎ (Fails r s t × (r' ≡ r))

  -- A round opens its stream, or one of the three calls fails.
  pub run_once-streams : (stream : Opened X) (r : Receiver) (s : S) → Brings stream r s
  unfolding run_once run_opened
  run_once-streams stream r s =
      let (first, s1) = initial_fetch load_replay r s in
      elim (Result-cases first) [
        | inr (x, e) ↦ rw (e, run_once) (inr (no_request (ap (λ q. (q, s1)) e), refl))
        | inl (request, e) ↦
            let (opened, s2) = subscribe s1 in
            elim (Option-cases opened) [
              | inr (x, f) ↦
                  rw (e, f, run_once)
                    (inr (no_stream (ap (λ q. (q, s1)) e) (ap (λ q. (q, s2)) f), refl))
              | inl f ↦
                  let (sent, t) = send request s2 in
                  elim (Option-cases sent) [
                    | inr (x, g) ↦
                        rw (e, f, g, run_once, run_opened)
                          (inr (
                            no_send (ap (λ q. (q, s1)) e) (ap (λ q. (q, s2)) f)
                                (ap (λ q. (q, t)) g),
                            refl,
                          ))
                    | inl g ↦
                        rw (e, f, g, run_once, run_opened)
                          (inl (
                            connects (ap (λ q. (q, s1)) e) (ap (λ q. (q, s2)) f)
                                (ap (λ q. (q, t)) g),
                            refl,
                          ))
                  ]
            ]
      ]
