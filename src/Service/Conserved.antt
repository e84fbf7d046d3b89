-- ===== src/Service/Conserved.antt =====
-- Where the events that were received stand, with configured topics that differ.
use pubsub_event_processor.Common.{
  ℕ, ◌+◌, ◌≤◌, String, ◌≡◌, refl, sym, ◌∙◌, ap, subst, List, [], ◌∷◌, ◌++◌, map, Result, Error,
  arith, total, string_discrete, inl, inr, Has,
}
use pubsub_event_processor.Replay.Cursor.{Bytes}
use pubsub_event_processor.Replay.Committer.{Pending}
use pubsub_event_processor.Event.Services.{Services}
use pubsub_event_processor.Pipeline.{Wiring}
use pubsub_event_processor.Subscriber.Stream.{ConsumerEvent, emit}
use pubsub_event_processor.Worker.Tasks.{Shared}
use pubsub_event_processor.Service.Places.{everywhere, received_by, Reach-Balanced}
use pubsub_event_processor.Service.{
  Feed, new_feed, Differ, Service, Step, respond, hang_up, receive, pick, put, quit, take, leave,
  work, abandon, acknowledge, flush, cancel, Reach, begin, next,
}

abbrev topics_of : List Feed → List String
topics_of fs = map (λ (f : Feed). f.receiver.topic) fs

map-new_feed : (n : ℕ) (topics : List String) → topics_of (map (new_feed n) topics) ≡ topics
map-new_feed n [] = refl
map-new_feed n (t ∷ ts) = ap (λ r. t ∷ r) (map-new_feed n ts)

-- A feed changes, and its topic does not.
topics-replaced :
    (l before after : List Feed) (f f' : Feed)
    → l ≡ before ++ f ∷ after
    → f'.receiver.topic ≡ f.receiver.topic
    → topics_of (before ++ f' ∷ after) ≡ topics_of l
topics-replaced l before after f f' at same = swapped before ∙ ap topics_of (sym at)
  where
    swapped : (fs : List Feed) → topics_of (fs ++ f' ∷ after) ≡ topics_of (fs ++ f ∷ after)
    swapped [] = ap (λ t. t ∷ topics_of after) same
    swapped (x ∷ fs) = ap (λ ts. x.receiver.topic ∷ ts) (swapped fs)

-- The event of another topic was not received by these.
received-others :
    (topic : String) (k : ℕ) (fs : List Feed)
    → ¬ Has topic (topics_of fs)
    → total (received_by topic k) fs ≡ 0
received-others topic k [] h = refl
received-others topic k (f ∷ fs) h = elim (string_discrete f.receiver.topic topic) [
  | yes e ↦ absurd (h (inl (sym e)))
  | no n ↦ ground (arith, n, received-others topic k fs (λ m. h (inr m)))
]

-- With topics that differ, an event is received once at most.
pub received-le :
    (topic : String) (k : ℕ) (fs : List Feed)
    → Differ (topics_of fs)
    → total (received_by topic k) fs ≤ 1
received-le topic k [] d = omega arith
received-le topic k (f ∷ fs) d = elim (string_discrete f.receiver.topic topic) [
  | yes e ↦
      let others : total (received_by topic k) fs ≡ 0 =
        received-others topic k fs (subst (λ t. ¬ Has t (topics_of fs)) e d.0) in
      ground (arith, others)
  | no n ↦ ground (arith, n, received-le topic k fs d.1)
]

Has-topic : (f : Feed) (fs : List Feed) → Has f fs → Has f.receiver.topic (topics_of fs)
Has-topic f [] m = absurd m
Has-topic f (x ∷ fs) (inl e) = inl (ap (λ (y : Feed). y.receiver.topic) e)
Has-topic f (x ∷ fs) (inr m) = inr (Has-topic f fs m)

received-once :
    (f : Feed) (k : ℕ) (fs : List Feed)
    → Differ (topics_of fs)
    → Has f fs
    → 1 ≤ k
    → k ≤ f.receiver.seq
    → total (received_by f.receiver.topic k) fs ≡ 1
received-once f k [] d m low high = absurd m
received-once f k (x ∷ fs) d (inl e) low high =
    let rest =
      received-others f.receiver.topic k fs
        (subst (λ (y : Feed). ¬ Has y.receiver.topic (topics_of fs)) (sym e) d.0) in
    subst
      (λ (y : Feed).
        received_by f.receiver.topic k y + total (received_by f.receiver.topic k) fs ≡ 1)
      e (ground (arith, rest))
received-once f k (x ∷ fs) d (inr m) low high =
    elim (string_discrete x.receiver.topic f.receiver.topic) [
      | yes e ↦ absurd (d.0 (subst (λ t. Has t (topics_of fs)) (sym e) (Has-topic f fs m)))
      | no n ↦ ground (arith, n, received-once f k fs d.1 m low high)
    ]

module _ {P Sch N : Type 0} (s : Services P) (g : Wiring)
    (src : String → N → Result (Error s.E) String × N) (parse : String → Result s.E Sch)
    (unmarshal : Sch → Bytes → Result s.E P) (stream : String → ℕ → ConsumerEvent) where
  Step-topics :
      (batch_size : ℕ) {v w : Service Sch N s}
      → Step s g src parse unmarshal stream batch_size v w
      → topics_of w.feeds ≡ topics_of v.feeds
  unfolding emit
  Step-topics n {v} (respond before after f k at _ _) =
      topics-replaced v.feeds before after f _ at refl
  Step-topics n {v} (hang_up before after f at) = topics-replaced v.feeds before after f _ at refl
  Step-topics n {v} (receive before after f at _ _ _) =
      topics-replaced v.feeds before after f _ at refl
  Step-topics n {v} (pick before after f raw rest at _ _ _) =
      topics-replaced v.feeds before after f _ at refl
  Step-topics n {v} (put before after f raw at _ _) =
      topics-replaced v.feeds before after f _ at refl
  Step-topics n {v} (quit before after f raw at _ _) =
      topics-replaced v.feeds before after f _ at refl
  Step-topics n (take before after raw rest _ _) = refl
  Step-topics n (leave before after _ _) = refl
  Step-topics n (work before after t _) = refl
  Step-topics n (abandon before after t raw _ _ _) = refl
  Step-topics n (acknowledge before after raw slots _) = refl
  Step-topics n (flush l _ _) = refl
  Step-topics n cancel = refl

  pub Reach-topics :
      (batch_size : ℕ) (topics : List String) (count : ℕ) (shared : Shared Sch N s)
      (table : Pending) {v : Service Sch N s}
      → Reach s g src parse unmarshal stream batch_size topics count shared table v
      → topics_of v.feeds ≡ topics
  Reach-topics n topics count shared table (begin d) = map-new_feed n topics
  Reach-topics n topics count shared table (next r st) =
      Step-topics n st ∙ Reach-topics n topics count shared table r

  Reach-Differ :
      (batch_size : ℕ) (topics : List String) (count : ℕ) (shared : Shared Sch N s)
      (table : Pending) {v : Service Sch N s}
      → Reach s g src parse unmarshal stream batch_size topics count shared table v
      → Differ topics
  Reach-Differ n topics count shared table (begin d) = d
  Reach-Differ n topics count shared table (next r st) = Reach-Differ n topics count shared table r

  pub Reach-received-le :
      (batch_size : ℕ) (topics : List String) (count : ℕ) (shared : Shared Sch N s)
      (table : Pending) {v : Service Sch N s}
      → Reach s g src parse unmarshal stream batch_size topics count shared table v
      → (topic : String) (k : ℕ) → total (received_by topic k) v.feeds ≤ 1
  Reach-received-le n topics count shared table {v} r topic k = received-le topic k v.feeds (
      subst Differ (sym (Reach-topics n topics count shared table r))
        (Reach-Differ n topics count shared table r))

  -- If no topic is configured twice: in whatever order the goroutines run, each event that a receiver has
  -- received stands in exactly one place and stands there once, be it the receiver's channel, the hand of
  -- its fan-in, the channel `events`, a worker, the events given up on at shutdown, or the acknowledged
  -- ones. So none is lost, and none is acknowledged twice.
  pub event_in_one_place :
      (batch_size : ℕ) (topics : List String) (count : ℕ) (shared : Shared Sch N s)
      (table : Pending) {v : Service Sch N s}
      → Reach s g src parse unmarshal stream batch_size topics count shared table v
      → (f : Feed) (k : ℕ) → Has f v.feeds
      → 1 ≤ k
      → k ≤ f.receiver.seq
      → everywhere f.receiver.topic k v ≡ 1
  event_in_one_place n topics count shared table {v} reach f k there low high =
      Reach-Balanced f.receiver.topic k s g src parse unmarshal stream n topics count shared table
        reach
      ∙ received-once f k v.feeds
          (subst Differ (sym (Reach-topics n topics count shared table reach))
            (Reach-Differ n topics count shared table reach))
          there low high
