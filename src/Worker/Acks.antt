-- ===== src/Worker/Acks.antt =====
-- When `process` acknowledges an event.
use pubsub_event_processor.Common.{
  ℕ, String, ◌≡◌, ◌≢◌, refl, sym, subst, ◌⊎◌, inl, inr, Option, none, List, [], ◌∷◌, Result, ok,
  err, Error, arith, Option-cases, Result-cases, ◌+◌, length,
}
use pubsub_event_processor.Replay.Cursor.{Bytes}
use pubsub_event_processor.Event.{DecodedEvent}
use pubsub_event_processor.Worker.{
  Ctx, Outcome, succeeded, abandoned, trying, retry_min_delay, retry_from, RawEvent, PoolMetrics,
  Processed, decoded_event, try_handler, after_handler, decode_and_handle, after_schema, process,
}
use pubsub_event_processor.Worker.Attempts.{
  Outcome-cases, Succeeds, retry-Succeeds, Succeeds-retry, Handles, Succeeds-Handles,
  Handles-Succeeds,
}
use pubsub_event_processor.Worker.Retry.{retry_rule}

module _ {Sch P X S : Type 0} (get_schema : String → S → Result (Error X) Sch × S)
    (decode : Sch → Bytes → Result (Error X) P)
    (handle : DecodedEvent P → S → Option (Error X) × S) where
  -- The payload does not decode, or attempts at the handler succeed.
  abbrev pub Settles : List Ctx → RawEvent → Sch → S → Type 0
  Settles ctxs raw sch s =
      ((x : Error X) × (decode sch raw.payload ≡ err x))
      ⊎ ((payload : P) × (t : S) × (decode sch raw.payload ≡ ok payload)
          × Handles get_schema decode handle (decoded_event raw payload) ctxs s t)

  -- A schema is fetched, and the payload does not decode with it, or the handler returns nil for the decoded
  -- event; both before the context is cancelled.
  abbrev pub IsFinished : List Ctx → List Ctx → RawEvent → S → Type 0
  IsFinished schema_ctxs handler_ctxs raw s =
      (sch : Sch) × (t : S) × Succeeds get_schema decode handle (get_schema raw.schema_id)
        schema_ctxs s sch t
      × Settles handler_ctxs raw sch t

  -- One acknowledgement if the event is finished, none if it is not.
  abbrev pub AcksMatch : List Ctx → List Ctx → RawEvent → S → Processed S → Type 0
  AcksMatch schema_ctxs handler_ctxs raw s r =
      (IsFinished schema_ctxs handler_ctxs raw s × (r.acks ≡ raw ∷ []))
      ⊎ ((IsFinished schema_ctxs handler_ctxs raw s → ⊥) × (r.acks ≡ []))

  unacked :
      (raw : RawEvent) (m : PoolMetrics) (r : Outcome (Unit {0}) × S × List ℕ)
      → ((a : Unit {0}) → r.0 ≢ succeeded a)
      → (after_handler get_schema decode handle raw m r).acks ≡ []
  unacked raw m (succeeded a, s, waits) bad = absurd (bad a refl)
  unacked raw m (abandoned, s, waits) bad = refl
  unacked raw m (trying, s, waits) bad = refl

  decode_and_handle_matches :
      (ctxs : List Ctx) (raw : RawEvent) (m : PoolMetrics) (sch : Sch) (s : S)
      → let r = decode_and_handle get_schema decode handle ctxs raw m sch s in
        (Settles ctxs raw sch s × (r.acks ≡ raw ∷ []))
        ⊎ ((Settles ctxs raw sch s → ⊥) × (r.acks ≡ []))
  unfolding decode_and_handle
  decode_and_handle_matches ctxs raw m sch s = elim (Result-cases (decode sch raw.payload)) [
    | inr (x, e) ↦ inl (inl (x, e), rw (e, decode_and_handle) refl)
    | inl (payload, e) ↦
        let fn = try_handler get_schema decode handle raw payload in
        let o = (retry_from fn ctxs retry_min_delay s).0 in
        elim (Outcome-cases o) [
          | inl (u, good) ↦
              let h = retry-Succeeds get_schema decode handle fn ctxs retry_min_delay s u good in
              inl (
                inr (
                  payload,
                  _,
                  e,
                  Succeeds-Handles get_schema decode handle raw payload ctxs s _ u h,
                ),
                ground arith,
              )
          | inr bad ↦ inr (
            λ settled. elim settled [
              | inl (x, no_payload) ↦ absurd (ground arith)
              | inr (p, t, q, h) ↦
                  let same : p ≡ payload = ground arith in
                  bad tt
                    (Succeeds-retry get_schema decode handle fn ctxs retry_min_delay s t tt (
                      subst
                        (λ v.
                          Succeeds get_schema decode handle
                            (try_handler get_schema decode handle raw v) ctxs s tt t)
                        same (Handles-Succeeds get_schema decode handle raw p ctxs s t h))).0
            ],
            rw (e, decode_and_handle) (unacked raw m _ bad),
          )
        ]
  ]

  after_schema_matches :
      (schema_ctxs handler_ctxs : List Ctx) (raw : RawEvent) (m : PoolMetrics) (s : S)
      (r : Outcome Sch × S × List ℕ)
      → ((sch : Sch)
          → r.0 ≡ succeeded sch
          → Succeeds get_schema decode handle (get_schema raw.schema_id) schema_ctxs s sch r.1)
      → ((sch : Sch) (t : S)
          → Succeeds get_schema decode handle (get_schema raw.schema_id) schema_ctxs s sch t
          → (r.0 ≡ succeeded sch) × (r.1 ≡ t))
      → AcksMatch schema_ctxs handler_ctxs raw s
          (after_schema get_schema decode handle handler_ctxs raw m r)
  unfolding after_schema
  after_schema_matches cs hs raw m s (abandoned, t, waits) there back =
      inr (λ (sch, u, h, rest). absurd (ground (arith, back sch u h)), refl)
  after_schema_matches cs hs raw m s (trying, t, waits) there back =
      inr (λ (sch, u, h, rest). absurd (ground (arith, back sch u h)), refl)
  after_schema_matches cs hs raw m s (succeeded sch, t, waits) there back =
      elim (decode_and_handle_matches hs raw
        (record m { failed_schema = m.failed_schema + length waits }) sch t) [
          | inl (settled, acked) ↦ inl ((sch, t, there sch refl, settled), acked)
          | inr (unsettled, silent) ↦ inr (
            λ (other, u, h, rest).
                let (same, left) = back other u h in
                let one : other ≡ sch = ground arith in
                unsettled (
                  subst (λ v. Settles hs raw sch v) (sym left)
                    (subst (λ v. Settles hs raw v u) one rest)),
            silent,
          )
        ]

  -- If attempts at the schema succeed before the context is cancelled, and the payload does not decode with
  -- that schema, or attempts at the handler succeed before the context is cancelled: `process` calls `ack`
  -- exactly once, with the event. Otherwise, whatever fails and whenever the context is cancelled, it does not
  -- call `ack`.
  pub process_acks_once :
      (schema_ctxs handler_ctxs : List Ctx) (raw : RawEvent) (m : PoolMetrics) (s : S)
      → AcksMatch schema_ctxs handler_ctxs raw s
          (process get_schema decode handle schema_ctxs handler_ctxs raw m s)
  unfolding process
  process_acks_once schema_ctxs handler_ctxs raw m s =
      let fn = get_schema raw.schema_id in
      after_schema_matches schema_ctxs handler_ctxs raw m s _
        (λ sch e. retry-Succeeds get_schema decode handle fn schema_ctxs retry_min_delay s sch e)
        (λ sch t h.
          Succeeds-retry get_schema decode handle fn schema_ctxs retry_min_delay s t sch h)

  module _ (I : S → Type 0) (Q : DecodedEvent P → S → Type 0)
      (schema_keeps : (id : String) (s : S) → I s → I (get_schema id s).1)
      (handler_keeps : (e : DecodedEvent P) (s : S) → I s → I (handle e s).1)
      (handler_good : (e : DecodedEvent P) (s : S)
        → I s
        → (handle e s).0 ≡ none
        → Q e (handle e s).1) where
    -- The schema is one that `get_schema` gave for this ID.
    abbrev pub Fetched : String → Sch → Type 0
    Fetched id sch = (t : S) × ((get_schema id t).0 ≡ ok sch)

    -- What an acknowledgement stands for: the event cannot be decoded with its schema, or the handler
    -- returned nil for it.
    abbrev pub Accounted : RawEvent → Processed S → Type 0
    Accounted raw r =
        I r.state
        × (r.acks ≢ []
            → ((sch : Sch) × (x : Error X) × Fetched raw.schema_id sch
                × (decode sch raw.payload ≡ err x))
              ⊎ ((payload : P) × Q (decoded_event raw payload) r.state))

    after_handler_lem :
        (raw : RawEvent) (m : PoolMetrics) (payload : P) (r : Outcome (Unit {0}) × S × List ℕ)
        → I r.1
        → ((u : Unit {0}) → r.0 ≡ succeeded u → Q (decoded_event raw payload) r.1)
        → Accounted raw (after_handler get_schema decode handle raw m r)
    after_handler_lem raw m payload (succeeded u, s, waits) i q = (i, λ _. inr (payload, q u refl))
    after_handler_lem raw m payload (abandoned, s, waits) i q = (i, λ n. absurd (n refl))
    after_handler_lem raw m payload (trying, s, waits) i q = (i, λ n. absurd (n refl))

    handled_lem :
        (ctxs : List Ctx) (raw : RawEvent) (m : PoolMetrics) (sch : Sch) (s : S)
        → Fetched raw.schema_id sch
        → I s
        → Accounted raw (decode_and_handle get_schema decode handle ctxs raw m sch s)
    unfolding decode_and_handle try_handler
    handled_lem ctxs raw m sch s from i = elim (Result-cases (decode sch raw.payload)) [
      | inr (x, e) ↦ rw (e, decode_and_handle) (i, λ _. inl (sch, x, from, e))
      | inl (payload, e) ↦
          let (kept, good) = tried payload in
          rw (e, decode_and_handle) (after_handler_lem raw m payload _ kept good)
    ]
      where
        tried :
            (payload : P)
            → let r =
                retry_from
                  (try_handler get_schema decode handle raw payload)
                  ctxs
                  retry_min_delay
                  s in
              I r.1 × ((u : Unit {0}) → r.0 ≡ succeeded u → Q (decoded_event raw payload) r.1)
        tried payload =
            retry_rule (try_handler get_schema decode handle raw payload) I
              (λ _. Q (decoded_event raw payload))
              (λ t h. handler_keeps (decoded_event raw payload) t h)
              (λ t u h o.
                handler_good (decoded_event raw payload) t h
                  (ground (arith, Option-cases (handle (decoded_event raw payload) t).0)))
              ctxs retry_min_delay s i

    after_schema_lem :
        (ctxs : List Ctx) (raw : RawEvent) (m : PoolMetrics) (r : Outcome Sch × S × List ℕ)
        → ((sch : Sch) → r.0 ≡ succeeded sch → Fetched raw.schema_id sch)
        → I r.1
        → Accounted raw (after_schema get_schema decode handle ctxs raw m r)
    unfolding after_schema
    after_schema_lem ctxs raw m (succeeded sch, s, waits) from i =
        handled_lem ctxs raw _ sch s (from sch refl) i
    after_schema_lem ctxs raw m (abandoned, s, waits) from i = (i, λ n. absurd (n refl))
    after_schema_lem ctxs raw m (trying, s, waits) from i = (i, λ n. absurd (n refl))

    pub process_accounts :
        (schema_ctxs handler_ctxs : List Ctx) (raw : RawEvent) (m : PoolMetrics) (s : S)
        → I s
        → Accounted raw (process get_schema decode handle schema_ctxs handler_ctxs raw m s)
    unfolding process
    process_accounts schema_ctxs handler_ctxs raw m s i =
        let (kept, from) =
          retry_rule (get_schema raw.schema_id) I (λ sch _. Fetched raw.schema_id sch)
            (λ t h. schema_keeps raw.schema_id t h) (λ t a h o. (t, o)) schema_ctxs retry_min_delay
            s i in
        after_schema_lem handler_ctxs raw m _ from kept
