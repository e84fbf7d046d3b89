-- ===== src/Pipeline/Delivery.antt =====
-- What it means that the pipeline returns nil for an event, and that the cache says an event was seen.
use text.Mathlib.TextLemmas.{append_cancel_left}
use pubsub_event_processor.Common.{
  String, ◌≡◌, refl, inl, inr, true, false, Option, none, [], ◌∷◌, arith, Has, Option-cases,
  Result-cases, Bool-cases, subst, sym, ap, Error,
}
use pubsub_event_processor.Event.{DecodedEvent}
use pubsub_event_processor.Event.Services.{Services, KafkaRecord, Promises}
use pubsub_event_processor.RedisCache.{key}
use pubsub_event_processor.Handler.{Handler}
use pubsub_event_processor.Handler.Chain.{chain_from, chain}
use pubsub_event_processor.Handler.Dedup.{dedup, handle_and_mark}
use pubsub_event_processor.Pipeline.Frames.{
  Frame, Frame-trans, record_of, persist_step-Frame, persist_step-Stored, forward_step-Frame,
  forward_step-Published, seen_step-Frame, seen_step-Marked, mark_step-marks, mark_step-rows,
  mark_step-records,
}
use pubsub_event_processor.Pipeline.{
  Wiring, State, persist_step, forward_step, seen_step, mark_step, handlers, root,
}

module _ {P : Type 0} (s : Services P) {Stored : String → s.W → Type 0}
    {Published : KafkaRecord → s.W → Type 0} {Marked : String → s.W → Type 0}
    (laws : Promises s Stored Published Marked) (g : Wiring) where
  -- The event with this UUID went through every stage: it has a row, and, with Kafka on, a record that
  -- carries its UUID was accepted.
  abbrev pub Delivered : String → s.W → Type 0
  Delivered id w =
      Stored id w
      × (g.kafka_enabled ≡ true
          → (q : KafkaRecord) × Published q w × Has ("event_id", id) q.headers)

  -- The cache is truthful: what it has a key for went through every stage.
  abbrev pub IsTruthful : s.W → Type 0
  IsTruthful w = (id : String) → Marked (key g.key_prefix id) w → Delivered id w

  pub Delivered-Frame :
      (id : String) (w w' : s.W) → Frame s laws w w' → Delivered id w → Delivered id w'
  Delivered-Frame id w w' f (row, sent) =
      (f.rows id row, λ on. let (q, p, h) = sent on in (q, f.records q p, h))

  pub IsTruthful-Frame : (w w' : s.W) → Frame s laws w w' → IsTruthful w → IsTruthful w'
  IsTruthful-Frame w w' f truth id m = Delivered-Frame id w w' f (truth id (f.marks _ m))

  -- The two-stage chain.
  both_stages :
      (e : DecodedEvent P) (st : State s)
      → Frame s laws st.world
          (chain (persist_step s ∷ forward_step s g.kafka_topic ∷ []) e st).1.world
        × ((chain (persist_step s ∷ forward_step s g.kafka_topic ∷ []) e st).0 ≡ none
            → Delivered e.event_id
                (chain (persist_step s ∷ forward_step s g.kafka_topic ∷ []) e st).1.world)
  unfolding chain
  both_stages e st =
      let p = persist_step-Frame s laws e st in
      let st1 = (persist_step s e st).1 in
      let f = forward_step-Frame s laws g.kafka_topic e st1 in
      elim (Option-cases (persist_step s e st).0) [
        | inr (x, bad) ↦ rw (bad, chain_from) (p, λ h. absurd (ground arith))
        | inl good ↦
            rw (good, chain_from)
              (elim (Option-cases (forward_step s g.kafka_topic e st1).0) [
                | inr (x, bad) ↦
                    rw (bad, chain_from) (Frame-trans s laws _ _ _ p f, λ h. absurd (ground arith))
                | inl fine ↦
                    rw (fine, chain_from)
                      (
                        Frame-trans s laws _ _ _ p f,
                        λ h. (
                          f.rows _ (persist_step-Stored s laws e st good),
                          λ on.
                              let (value, _, sent) =
                                forward_step-Published s laws g.kafka_topic e st1 fine in
                              (record_of s laws g.kafka_topic e value, sent, inl refl),
                        ),
                      )
              ])
      ]

  one_stage :
      g.kafka_enabled ≡ false
      → (e : DecodedEvent P) (st : State s)
      → Frame s laws st.world (chain (persist_step s ∷ []) e st).1.world
        × ((chain (persist_step s ∷ []) e st).0 ≡ none
            → Delivered e.event_id (chain (persist_step s ∷ []) e st).1.world)
  unfolding chain
  one_stage off e st = elim (Option-cases (persist_step s e st).0) [
    | inr (x, bad) ↦
        rw (bad, chain_from) (persist_step-Frame s laws e st, λ h. absurd (ground arith))
    | inl good ↦
        rw (good, chain_from)
          (
            persist_step-Frame s laws e st,
            λ h. (persist_step-Stored s laws e st good, λ on. absurd (cc)),
          )
  ]

  -- A handler that delivers, and that marks nothing.
  abbrev Delivers : Handler P s.E (State s) → Type 0
  Delivers h =
      (e : DecodedEvent P) (st : State s)
      → Frame s laws st.world (h e st).1.world
        × ((h e st).0 ≡ none → Delivered e.event_id (h e st).1.world)

  chain-Delivers : Delivers (chain (handlers s g))
  unfolding handlers
  chain-Delivers = elim (Bool-cases g.kafka_enabled) [
    | inl on ↦ subst Delivers (ap chain (sym (rw (on, handlers) refl))) both_stages
    | inr off ↦ subst Delivers (ap chain (sym (rw (off, handlers) refl))) (one_stage off)
  ]

  pub mark-IsTruthful :
      (id : String) (st : State s)
      → IsTruthful st.world
      → Delivered id st.world
      → IsTruthful (mark_step s g.key_prefix id st).1.world
  mark-IsTruthful id st truth now k m =
      elim (mark_step-marks s laws g.key_prefix id (key g.key_prefix k) st m) [
        | inl same ↦ kept (
            subst (λ j. Delivered j st.world) (sym (append_cancel_left g.key_prefix k id same)) now)
        | inr old ↦ kept (truth k old)
      ]
    where
      kept : Delivered k st.world → Delivered k (mark_step s g.key_prefix id st).1.world
      kept (row, sent) = (
        mark_step-rows s laws g.key_prefix id k st row,
        λ on. let (q, p, h) = sent on in (q, mark_step-records s laws g.key_prefix id q st p, h),
      )

  -- What the theorem says of a result and the state it leaves.
  abbrev pub Good : DecodedEvent P → Option (Error s.E) × State s → Type 0
  Good e r = IsTruthful r.1.world × (r.0 ≡ none → Delivered e.event_id r.1.world)

  marked-Good :
      (e : DecodedEvent P) (st : State s)
      → IsTruthful st.world
      → Good e (handle_and_mark (mark_step s g.key_prefix) (chain (handlers s g)) e st)
  unfolding handle_and_mark
  marked-Good e st truth =
      let (f, now) = chain-Delivers e st in
      let after = (chain (handlers s g) e st).1 in
      let truth' = IsTruthful-Frame st.world after.world f truth in
      elim (Option-cases (chain (handlers s g) e st).0) [
        | inr (x, bad) ↦ rw (bad, handle_and_mark) (truth', λ h. absurd (ground arith))
        | inl good ↦
            rw (good, handle_and_mark)
              (
                mark-IsTruthful e.event_id after truth' (now good),
                λ h.
                    let (row, sent) = now good in
                    (
                      mark_step-rows s laws g.key_prefix e.event_id e.event_id after row,
                      λ on.
                          let (q, p, m) = sent on in
                          (q, mark_step-records s laws g.key_prefix e.event_id q after p, m),
                    ),
              )
      ]

  dedup-Good :
      (e : DecodedEvent P) (st : State s)
      → IsTruthful st.world
      → Good e
          (dedup (seen_step s g.key_prefix) (mark_step s g.key_prefix) (chain (handlers s g)) e st)
  unfolding dedup
  dedup-Good e st truth =
      let after = (seen_step s g.key_prefix e.event_id st).1 in
      let truth' =
        IsTruthful-Frame st.world after.world (seen_step-Frame s laws g.key_prefix e.event_id st)
          truth in
      elim (Result-cases (seen_step s g.key_prefix e.event_id st).0) [
        | inr (x, unknown) ↦ rw (unknown, dedup) (marked-Good e after truth')
        | inl (hit, answer) ↦ elim (Bool-cases hit) [
          | inr miss ↦ rw (answer, miss, dedup) (marked-Good e after truth')
          | inl yes' ↦
              rw (answer, yes', dedup)
                (
                  truth',
                  λ h.
                      truth' e.event_id
                        (seen_step-Marked s laws g.key_prefix e.event_id st (ground arith)),
                )
        ]
      ]

  root-Good : (e : DecodedEvent P) (st : State s) → IsTruthful st.world → Good e (root s g e st)
  unfolding root handlers
  root-Good e st truth = elim (Bool-cases g.redis_enabled) [
    | inl on ↦ rw (on, root) (dedup-Good e st truth)
    | inr off ↦
        rw (off, root)
          (let (f, now) = chain-Delivers e st in
            (IsTruthful-Frame st.world (chain (handlers s g) e st).1.world f truth, now))
  ]

  -- If the services keep their promises, the cache had keys only of events that went through every stage,
  -- and the handler that `New` builds returns nil, then the event has a row in the database and, with Kafka
  -- on, a record that carries its UUID was accepted, also when it was the cache that answered.
  pub root_delivers :
      (e : DecodedEvent P) (st : State s)
      → IsTruthful st.world
      → (root s g e st).0 ≡ none
      → Delivered e.event_id (root s g e st).1.world
  root_delivers e st truth = (root-Good e st truth).1

  -- If the services keep their promises, and the cache had keys only of events that went through every
  -- stage, it still has after the handler ran, whether it succeeded or not and whatever the services
  -- answered.
  pub root-IsTruthful :
      (e : DecodedEvent P) (st : State s) → IsTruthful st.world → IsTruthful (root s g e st).1.world
  root-IsTruthful e st truth = (root-Good e st truth).0
