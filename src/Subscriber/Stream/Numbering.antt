-- ===== src/Subscriber/Stream/Numbering.antt =====
-- Positions and replay IDs across reconnects.
use pubsub_event_processor.Common.{
  ℕ, suc, ◌+◌, ◌%◌, ◌^◌, ◌<◌, String, ◌≡◌, refl, ap, sym, ◌∙◌, none, some, List, [], ◌∷◌, ◌++◌,
  Result, ok, err, Error, wrap, text, arith, length, append_assoc, append-nil, length-append,
}
use pubsub_event_processor.Replay.Cursor.{ReplayId}
use pubsub_event_processor.Worker.{RawEvent}
use pubsub_event_processor.Subscriber.Stream.{
  Receiver, ConsumerEvent, latest, custom, new_receiver, Incoming, batch, cut, broken, emit,
  emit_all, run_receiver, run_streams, received, all_received, initial_fetch,
}

-- The events of a topic, numbered from a position on.
unfoldable pub numbered_from : String → ℕ → List ConsumerEvent → List RawEvent
numbered_from topic n [] = []
numbered_from topic n (e ∷ es) =
    record {
      topic = topic;
      seq = n;
      event_id = e.event_id;
      schema_id = e.schema_id;
      payload = e.payload;
      replay_id = e.replay_id;
      received_at = e.arrived;
    }
    ∷ numbered_from topic (n + 1) es

-- The replay ID of the last event, or the one that stood before.
abbrev pub last_id : ReplayId → List ConsumerEvent → ReplayId
last_id rid [] = rid
last_id rid (e ∷ es) = last_id e.replay_id es

abbrev Emitted : Receiver → List ConsumerEvent → Receiver → Type 0
Emitted r es r' =
    (r'.out ≡ r.out ++ numbered_from r.topic (r.seq + 1) es)
    × (r'.seq ≡ r.seq + length es)
    × (r'.last_replay_id ≡ last_id r.last_replay_id es)
    × (r'.topic ≡ r.topic)
    × (r'.batch_size ≡ r.batch_size)

numbered_from-append :
    (topic : String) (n : ℕ) (xs ys : List ConsumerEvent)
    → numbered_from topic n (xs ++ ys)
      ≡ numbered_from topic n xs ++ numbered_from topic (n + length xs) ys
unfolding numbered_from
numbered_from-append topic n [] ys = ap (λ k. numbered_from topic k ys) (omega arith)
numbered_from-append topic n (x ∷ xs) ys =
    let e : n + 1 + length xs ≡ n + suc (length xs) = omega arith in
    rw (numbered_from-append topic (n + 1) xs ys, e) refl

last_id-append :
    (rid : ReplayId) (xs ys : List ConsumerEvent)
    → last_id rid (xs ++ ys) ≡ last_id (last_id rid xs) ys
last_id-append rid [] ys = refl
last_id-append rid (x ∷ xs) ys = last_id-append x.replay_id xs ys

Emitted-refl : (r : Receiver) → Emitted r [] r
unfolding numbered_from
Emitted-refl r = (sym (append-nil r.out), omega arith, refl, refl, refl)

-- Two stretches of events, one after the other.
Emitted-trans :
    (r s t : Receiver) (xs ys : List ConsumerEvent)
    → Emitted r xs s
    → Emitted s ys t
    → Emitted r (xs ++ ys) t
Emitted-trans r s t xs ys (o, n, l, k, b) (o', n', l', k', b') = (
  o' ∙ joined,
  omega (arith, length-append xs ys),
  l' ∙ ap (λ i. last_id i ys) l ∙ sym (last_id-append r.last_replay_id xs ys),
  k' ∙ k,
  b' ∙ b,
)
  where
    joined :
        s.out ++ numbered_from s.topic (s.seq + 1) ys
        ≡ r.out ++ numbered_from r.topic (r.seq + 1) (xs ++ ys)
    joined =
        simp (o, k, n, numbered_from-append r.topic (r.seq + 1) xs ys, append_assoc)
          (ap (λ m. r.out ++ (numbered_from r.topic (r.seq + 1) xs ++ numbered_from r.topic m ys))
            (omega arith))

emit-Emitted :
    (r : Receiver) (e : ConsumerEvent) → r.seq + 1 < 2 ^ 64 → Emitted r (e ∷ []) (emit r e)
unfolding emit numbered_from
emit-Emitted r e fits =
    let exact : (r.seq + 1) % 2 ^ 64 ≡ r.seq + 1 = omega arith in
    (rw exact refl, omega arith, refl, refl, refl)

emit_all-Emitted :
    (r : Receiver) (es : List ConsumerEvent)
    → r.seq + length es < 2 ^ 64
    → Emitted r es (emit_all r es)
unfolding emit_all
emit_all-Emitted r [] fits = Emitted-refl r
emit_all-Emitted r (e ∷ es) fits =
    let one = emit-Emitted r e (omega arith) in
    Emitted-trans r (emit r e) (emit_all (emit r e) es) (e ∷ []) es one
      (emit_all-Emitted (emit r e) es (omega arith))

module _ {X : Type 0} where
  run_receiver-Emitted :
      (r : Receiver) (i : Incoming X)
      → r.seq + length (received i) < 2 ^ 64
      → Emitted r (received i) (run_receiver r i).0
  unfolding run_receiver received
  run_receiver-Emitted r (batch es more) fits =
      let first = emit_all-Emitted r es (omega (arith, length-append es (received more))) in
      Emitted-trans r (emit_all r es) _ es (received more) first (
        run_receiver-Emitted (emit_all r es) more (omega (arith, length-append es (received more))))
  run_receiver-Emitted r (cut es) fits = emit_all-Emitted r es fits
  run_receiver-Emitted r (broken x) fits = Emitted-refl r

  run_streams-Emitted :
      (r : Receiver) (is : List (Incoming X))
      → r.seq + length (all_received is) < 2 ^ 64
      → Emitted r (all_received is) (run_streams r is)
  unfolding run_streams all_received
  run_streams-Emitted r [] fits = Emitted-refl r
  run_streams-Emitted r (i ∷ is) fits =
      let first =
        run_receiver-Emitted r i (omega (arith, length-append (received i) (all_received is))) in
      Emitted-trans r (run_receiver r i).0 _ (received i) (all_received is) first (
        run_streams-Emitted (run_receiver r i).0 is
          (omega (arith, length-append (received i) (all_received is))))

  -- However many streams a process opens, and wherever each one breaks, with fewer than 2^64 events in all:
  -- the events on `out` are those received, in order, numbered 1, 2, 3 and so on without gap or repetition,
  -- and the replay ID kept for the next reconnect is that of the last of them.
  pub run_streams_numbering :
      (topic : String) (batch_size : ℕ) (is : List (Incoming X))
      → length (all_received is) < 2 ^ 64
      → let r = run_streams (new_receiver topic batch_size) is in
        (r.out ≡ numbered_from topic 1 (all_received is))
        × (r.seq ≡ length (all_received is))
        × (r.last_replay_id ≡ last_id none (all_received is))
  run_streams_numbering topic batch_size is fits =
      let (o, n, l, _, _) = run_streams-Emitted (new_receiver topic batch_size) is (omega arith) in
      (o, omega arith, l)

module _ {X Y S : Type 0} (load_replay : String → S → Result (Error X) ReplayId × S) where
  -- With fewer than 2^64 events received in all: if the last event that this process received carries a replay
  -- ID, a reconnect resumes right after it and does not ask the store. If it carries none, or the process has
  -- received no event, the store is asked: a failure to load is an error and never LATEST, which is requested
  -- then exactly if the store has no cursor for the topic.
  pub resume_point :
      (topic : String) (batch_size : ℕ) (is : List (Incoming Y)) (s : S)
      → length (all_received is) < 2 ^ 64
      → let r = run_streams (new_receiver topic batch_size) is in
        let last = last_id none (all_received is) in
        initial_fetch load_replay r s ≡ elim last [
          | some rid ↦ (
            ok (record {
              topic_name = topic;
              replay_preset = custom;
              replay_id = some rid;
              num_requested = batch_size;
            }),
            s,
          )
          | none ↦ (
            elim (load_replay topic s).0 [
              | err x ↦ err (wrap (text "load replay cursor") x)
              | ok none ↦ ok (record {
                topic_name = topic;
                replay_preset = latest;
                replay_id = none;
                num_requested = batch_size;
              })
              | ok (some rid) ↦ ok (record {
                topic_name = topic;
                replay_preset = custom;
                replay_id = some rid;
                num_requested = batch_size;
              })
            ],
            (load_replay topic s).1,
          )
        ]
  unfolding initial_fetch
  resume_point topic batch_size is s fits =
      let (o, n, l, k, b) = run_streams-Emitted (new_receiver topic batch_size) is (omega arith) in
      ground (arith, o, n, l, k, b)
