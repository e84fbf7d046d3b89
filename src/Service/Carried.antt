-- ===== src/Service/Carried.antt =====
-- The event in a worker's hands, from call to call.
use pubsub_event_processor.Common.{
  String, ◌≡◌, refl, Bool, true, false, Option, none, some, Result, ok, err, Error, if◌then◌else◌,
}
use pubsub_event_processor.Replay.Cursor.{Bytes}
use pubsub_event_processor.Event.Services.{Services}
use pubsub_event_processor.Pipeline.{Wiring}
use pubsub_event_processor.Worker.{RawEvent}
use pubsub_event_processor.Worker.Tasks.{
  Task, idle, fetching, fetch_failed, acking, seeing, storing, sending, marking, handle_failed,
  Shared, handle_start, after_decode, after_get, after_seen, after_persist, after_forward,
  chain_end, advance,
}
use pubsub_event_processor.Service.{carried, waits_on}

carried-if :
    {P : Type 0} (b : Bool) (t u : Task P) (o : Option RawEvent)
    → carried t ≡ o
    → carried u ≡ o
    → carried (if b then t else u) ≡ o
carried-if true t u o ht hu = ht
carried-if false t u o ht hu = hu

pub carried-waits_on :
    {P : Type 0} (t : Task P) (raw : RawEvent) → waits_on t ≡ some raw → carried t ≡ some raw
unfolding carried
carried-waits_on idle raw e = absurd (cc)
carried-waits_on (fetching r) raw e = absurd (cc)
carried-waits_on (fetch_failed r) raw e = e
carried-waits_on (acking r) raw e = absurd (cc)
carried-waits_on (seeing r p) raw e = absurd (cc)
carried-waits_on (storing r p) raw e = absurd (cc)
carried-waits_on (sending r p) raw e = absurd (cc)
carried-waits_on (marking r p) raw e = absurd (cc)
carried-waits_on (handle_failed r p) raw e = e

module _ {P Sch N : Type 0} (s : Services P) (g : Wiring)
    (src : String → N → Result (Error s.E) String × N) (parse : String → Result s.E Sch)
    (unmarshal : Sch → Bytes → Result s.E P) where
  start_carried :
      (raw : RawEvent) (p : P) → carried (handle_start s g src parse unmarshal raw p) ≡ some raw
  unfolding carried
  start_carried raw p =
      carried-if g.redis_enabled (seeing raw p) (storing raw p) (some raw) refl refl

  end_carried :
      (raw : RawEvent) (p : P) → carried (chain_end s g src parse unmarshal raw p) ≡ some raw
  unfolding carried
  end_carried raw p = carried-if g.redis_enabled (marking raw p) (acking raw) (some raw) refl refl

  decode_carried :
      (raw : RawEvent) (r : Result (Error s.E) P)
      → carried (after_decode s g src parse unmarshal raw r) ≡ some raw
  unfolding carried
  decode_carried raw (ok p) = start_carried raw p
  decode_carried raw (err x) = refl

  get_carried :
      (raw : RawEvent) (r : Result (Error s.E) Sch)
      → carried (after_get s g src parse unmarshal raw r) ≡ some raw
  unfolding carried
  get_carried raw (ok sch) = decode_carried raw _
  get_carried raw (err x) = refl

  seen_carried :
      (raw : RawEvent) (p : P) (r : Result (Error s.E) Bool)
      → carried (after_seen s g src parse unmarshal raw p r) ≡ some raw
  unfolding carried
  seen_carried raw p (ok true) = refl
  seen_carried raw p (ok false) = refl
  seen_carried raw p (err x) = refl

  persist_carried :
      (raw : RawEvent) (p : P) (r : Option (Error s.E))
      → carried (after_persist s g src parse unmarshal raw p r) ≡ some raw
  unfolding carried
  persist_carried raw p (some x) = refl
  persist_carried raw p none =
      carried-if g.kafka_enabled (sending raw p) (chain_end s g src parse unmarshal raw p)
        (some raw) refl (end_carried raw p)

  forward_carried :
      (raw : RawEvent) (p : P) (r : Option (Error s.E))
      → carried (after_forward s g src parse unmarshal raw p r) ≡ some raw
  unfolding carried
  forward_carried raw p (some x) = refl
  forward_carried raw p none = end_carried raw p

  -- No call loses the event or swaps it for another.
  pub carried-advance :
      (t : Task P) (sh : Shared Sch N s)
      → carried (advance s g src parse unmarshal t sh).0 ≡ carried t
  unfolding advance carried
  carried-advance idle sh = refl
  carried-advance (acking raw) sh = refl
  carried-advance (fetch_failed raw) sh = refl
  carried-advance (handle_failed raw p) sh = start_carried raw p
  carried-advance (fetching raw) sh = get_carried raw _
  carried-advance (seeing raw p) sh = seen_carried raw p _
  carried-advance (storing raw p) sh = persist_carried raw p _
  carried-advance (sending raw p) sh = forward_carried raw p _
  carried-advance (marking raw p) sh = refl
