-- ===== src/Worker/Tasks/Alone.antt =====
-- One worker that nothing interrupts, beside the handler graph of `New`.
use pubsub_event_processor.Common.{
  ℕ, zero, suc, ◌∙◌, ap, String, ◌≡◌, refl, true, Option, none, some, Result, Error, inl, inr,
  arith, Bool-cases, Option-cases, Result-cases,
}
use pubsub_event_processor.Replay.Cursor.{Bytes}
use pubsub_event_processor.Event.Services.{Services}
use pubsub_event_processor.Handler.Chain.{chain_from, chain}
use pubsub_event_processor.Handler.Dedup.{dedup, handle_and_mark}
use pubsub_event_processor.Pipeline.{
  Wiring, persist_step, forward_step, seen_step, mark_step, handlers, root,
}
use pubsub_event_processor.Worker.{RawEvent, decoded_event}
use pubsub_event_processor.Worker.Tasks.{
  Task, acking, storing, handle_failed, Shared, handle_start, chain_end, advance,
}

module _ {P Sch N : Type 0} (s : Services P) (g : Wiring)
    (src : String → N → Result (Error s.E) String × N) (parse : String → Result s.E Sch)
    (unmarshal : Sch → Bytes → Result s.E P) where
  -- `n` calls of one worker, one after the other.
  unfoldable pub advances : ℕ → Task P × Shared Sch N s → Task P × Shared Sch N s
  advances zero c = c
  advances (suc n) (t, sh) = advances n (advance s g src parse unmarshal t sh)

  -- The first stretch of calls, and then the second.
  advances-then :
      (m n : ℕ) (c : Task P × Shared Sch N s) → (k : ℕ) × (advances k c ≡ advances n (advances m c))
  unfolding advances
  advances-then zero n c = (n, refl)
  advances-then (suc m) n (t, sh) =
      let (k, e) = advances-then m n (advance s g src parse unmarshal t sh) in (suc k, e)

  -- How an attempt of the handler ends, and how the chain does.
  abbrev pub attempted : RawEvent → P → Option (Error s.E) → Task P
  attempted raw payload none = acking raw
  attempted raw payload (some x) = handle_failed raw payload

  abbrev chained : RawEvent → P → Option (Error s.E) → Task P
  chained raw payload none = chain_end s g src parse unmarshal raw payload
  chained raw payload (some x) = handle_failed raw payload

  -- The chain takes two calls, or one.
  chain_alone :
      (raw : RawEvent) (payload : P) (sh : Shared Sch N s)
      → let (r, st) = chain (handlers s g) (decoded_event raw payload) sh.pipeline in
        (n : ℕ) × (advances n (storing raw payload, sh)
          ≡ (chained raw payload r, record sh { pipeline = st }))
  unfolding chain handlers advance chain_from advances
  chain_alone raw payload sh =
      let e = decoded_event raw payload in
      elim (Bool-cases g.kafka_enabled) [
        | inr off ↦ (1, ground (arith, Option-cases (persist_step s e sh.pipeline).0))
        | inl on ↦ elim (Option-cases (persist_step s e sh.pipeline).0) [
          | inr (x, bad) ↦ (1, ground arith)
          | inl good ↦ (
            2,
            ground (
              arith,
              Option-cases (forward_step s g.kafka_topic e (persist_step s e sh.pipeline).1).0,
            ),
          )
        ]
      ]

  -- Behind the cache: the chain, and the mark if it succeeds.
  marked_alone :
      (raw : RawEvent) (payload : P) (sh : Shared Sch N s)
      → g.redis_enabled ≡ true
      → let (r, st) =
          handle_and_mark
            (mark_step s g.key_prefix)
            (chain (handlers s g))
            (decoded_event raw payload)
            sh.pipeline in
        (n : ℕ) × (advances n (storing raw payload, sh)
          ≡ (attempted raw payload r, record sh { pipeline = st }))
  unfolding handle_and_mark advance advances
  marked_alone raw payload sh on =
      let (n, e) = chain_alone raw payload sh in
      elim (Option-cases (chain (handlers s g) (decoded_event raw payload) sh.pipeline).0) [
        | inr (x, bad) ↦ (n, ground arith)
        | inl good ↦
            let (k, q) = advances-then n 1 (storing raw payload, sh) in
            (k, q ∙ ap (advances 1) e ∙ ground arith)
      ]

  -- From the start of an attempt a worker reaches, by calls of its own alone, the end of the attempt that
  -- `root` describes: `acking` if `root` returns nil, the wait of `retry` if it returns an error, and in
  -- either case the services and counters as `root` leaves them.
  pub alone_is_root :
      (raw : RawEvent) (payload : P) (sh : Shared Sch N s)
      → let (r, st) = root s g (decoded_event raw payload) sh.pipeline in
        (n : ℕ) × (advances n (handle_start s g src parse unmarshal raw payload, sh)
          ≡ (attempted raw payload r, record sh { pipeline = st }))
  unfolding root dedup advance advances
  alone_is_root raw payload sh = elim (Bool-cases g.redis_enabled) [
    | inr off ↦
        let (n, e) = chain_alone raw payload sh in
        (
          n,
          ground (
            arith,
            Option-cases (chain (handlers s g) (decoded_event raw payload) sh.pipeline).0,
          ),
        )
    | inl on ↦
        let st = (seen_step s g.key_prefix raw.event_id sh.pipeline).1 in
        let (n, e) = marked_alone raw payload (record sh { pipeline = st }) on in
        elim (Result-cases (seen_step s g.key_prefix raw.event_id sh.pipeline).0) [
          | inr (x, a) ↦ (
            suc n,
            let step : advance s g src parse unmarshal
                      (handle_start s g src parse unmarshal raw payload) sh
                    ≡ (storing raw payload, record sh { pipeline = st }) =
                  ground arith in
                ap (advances n) step ∙ e ∙ ground arith,
          )
          | inl (hit, a) ↦ elim (Bool-cases hit) [
            | inl h ↦ (1, ground arith)
            | inr h ↦ (
              suc n,
              let step : advance s g src parse unmarshal
                        (handle_start s g src parse unmarshal raw payload) sh
                      ≡ (storing raw payload, record sh { pipeline = st }) =
                    ground arith in
                  ap (advances n) step ∙ e ∙ ground arith,
            )
          ]
        ]
  ]
