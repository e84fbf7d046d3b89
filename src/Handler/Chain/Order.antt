-- ===== src/Handler/Chain/Order.antt =====
-- The chain runs its handlers in order and stops at the first failure.
use pubsub_event_processor.Common.{
  ℕ, ◌+◌, ◌≡◌, refl, ap, ◌⊎◌, inl, inr, Option, none, some, List, [], ◌∷◌, ◌++◌, Error, wrap,
  numbered, arith, length, Option-cases,
}
use pubsub_event_processor.Event.{DecodedEvent}
use pubsub_event_processor.Handler.{Handler}
use pubsub_event_processor.Handler.Chain.{chain_from, chain}

module _ {P X S : Type 0} (e : DecodedEvent P) where
  -- All handlers of the list succeed, one after the other, each from the state the last one left.
  pub data AllSucceed : List (Handler P X S) → S → S → Type 0 where
    none_left : {s : S} → AllSucceed [] s s
    succeeds :
        {h : Handler P X S} {hs : List (Handler P X S)} {s t u : S}
        → h e s ≡ (none, t)
        → AllSucceed hs t u
        → AllSucceed (h ∷ hs) s u

  -- Those before one handler succeed, and that one fails; the handlers behind it are not run.
  pub record StopsAt (i : ℕ) (hs : List (Handler P X S)) (s : S) (r : Option (Error X) × S)
      : Type 0 where
    pub before : List (Handler P X S)
    pub failing : Handler P X S
    pub behind : List (Handler P X S)
    pub reached : S
    pub left : S
    pub error : Error X
    pub split : hs ≡ before ++ failing ∷ behind
    pub prefix : AllSucceed before s reached
    pub fails : failing e reached ≡ (some error, left)
    pub result : r ≡ (some (wrap (numbered "chain step" (i + length before)) error), left)

  chain_from_lem :
      (i : ℕ) (hs : List (Handler P X S)) (s : S)
      → ((t : S) × AllSucceed hs s t × (chain_from i hs e s ≡ (none, t)))
        ⊎ StopsAt i hs s (chain_from i hs e s)
  unfolding chain_from
  chain_from_lem i [] s = inl (s, none_left, refl)
  chain_from_lem i (h ∷ hs) s = elim (Option-cases (h e s).0) [
    | inl good ↦ elim (chain_from_lem (i + 1) hs (h e s).1) [
      | inl (t, all, q) ↦ inl (t, succeeds (ground arith) all, rw (good, chain_from) q)
      | inr stop ↦ inr (record {
        before = h ∷ stop.before;
        failing = stop.failing;
        behind = stop.behind;
        reached = stop.reached;
        left = stop.left;
        error = stop.error;
        split = ap (◌∷◌ h) stop.split;
        prefix = succeeds (ground arith) stop.prefix;
        fails = stop.fails;
        result = rw (good, chain_from) (ground (arith, stop.result));
      })
    ]
    | inr (x, bad) ↦ inr (record {
      before = [];
      failing = h;
      behind = hs;
      reached = s;
      left = (h e s).1;
      error = x;
      split = refl;
      prefix = none_left;
      fails = ground arith;
      result = rw (bad, chain_from) (ground arith);
    })
  ]

  -- `Chain.Handle` returns nil exactly in the way that all its handlers ran, in order, and succeeded;
  -- otherwise it ran them up to the first that failed, none behind it, and returns that handler's error
  -- wrapped with its index.
  pub chain-StopsAt :
      (hs : List (Handler P X S)) (s : S)
      → ((t : S) × AllSucceed hs s t × (chain hs e s ≡ (none, t))) ⊎ StopsAt 0 hs s (chain hs e s)
  unfolding chain
  chain-StopsAt hs s = chain_from_lem 0 hs s
