-- ===== src/Event/Services.antt =====
-- What the pipeline uses of code outside the repository: pgx and the Postgres behind it, franz-go and
-- the brokers, go-redis, `encoding/json` and `encoding/base64`. `W` is the state of those services, and
-- an operation gives its answer and the state after it.
use pubsub_event_processor.Common.{
  ℕ, suc, String, ◌≡◌, ◌⊎◌, Bool, true, Option, none, Result, ok, err, List,
}
use pubsub_event_processor.Replay.Cursor.{Bytes, ReplayId}

-- The arguments of the `INSERT INTO processed_events` statement.
pub record Row : Type 0 where
  pub event_uuid : String
  pub topic : String
  pub schema_id : String
  pub replay_id : ReplayId
  pub payload : Bytes
  pub received_at : ℕ

-- `Envelope`
pub record Envelope (P : Type 0) : Type 0 where
  pub event_id : String
  pub topic : String
  pub schema_id : String
  pub replay_id : String
  pub received_at : ℕ
  pub payload : P

-- kgo.Record; a header is its key and its value.
pub record KafkaRecord : Type 0 where
  pub topic : String
  pub key : String
  pub value : Bytes
  pub headers : List (String × String)

pub record Services (P : Type 0) : Type 1 where
  pub W : Type 0
  pub E : Type 0
  -- INSERT … ON CONFLICT (event_uuid) DO NOTHING RETURNING id, with its Scan
  pub insert_event : Row → W → Result E ℕ × W
  -- SELECT replay_id FROM replay_state WHERE topic = $1, with its Scan
  pub select_replay : String → W → Result E ReplayId × W
  -- INSERT INTO replay_state … ON CONFLICT (topic) DO UPDATE
  pub upsert_replay : String → ReplayId → W → Option E × W
  -- errors.Is(err, pgx.ErrNoRows)
  pub is_no_rows : E → Bool
  -- client.ProduceSync(ctx, record).FirstErr()
  pub produce_sync : KafkaRecord → W → Option E × W
  -- client.Exists(ctx, key).Result() and client.Set(ctx, key, 1, ttl).Err()
  pub exists : String → W → Result E ℕ × W
  pub set : String → W → Option E × W
  -- json.Marshal of the payload and of the envelope, base64.StdEncoding.EncodeToString
  pub marshal_payload : P → Result E Bytes
  pub marshal_envelope : Envelope P → Result E Bytes
  pub base64 : ReplayId → String

-- What the services promise. `Stored u` says that a row has the UUID, `Published r` that the brokers have
-- accepted a record, `Marked k` that a key is in Redis.
module _ {P : Type 0} (s : Services P) where
  open s use {W, E, insert_event, is_no_rows, produce_sync, exists, set}

  pub record Promises (Stored : String → W → Type 0) (Published : KafkaRecord → W → Type 0)
      (Marked : String → W → Type 0) : Type 0 where
    -- The statement inserts the row, or has no row to return because the UUID is there.
    pub inserted :
        (r : Row) (w : W) (id : ℕ)
        → (insert_event r w).0 ≡ ok id
        → Stored r.event_uuid (insert_event r w).1
    pub conflict :
        (r : Row) (w : W) (e : E)
        → (insert_event r w).0 ≡ err e
        → is_no_rows e ≡ true
        → Stored r.event_uuid (insert_event r w).1
    -- A produce that returns nil was acknowledged by all in-sync replicas.
    pub acknowledged :
        (r : KafkaRecord) (w : W) → (produce_sync r w).0 ≡ none → Published r (produce_sync r w).1
    -- EXISTS counts a key that is there, and only SET puts one there.
    pub found : (k : String) (w : W) (n : ℕ) → (exists k w).0 ≡ ok (suc n) → Marked k (exists k w).1
    pub marked_by_set : (k j : String) (w : W) → Marked k (set j w).1 → (k ≡ j) ⊎ Marked k w
    pub marked_by_insert :
        (k : String) (r : Row) (w : W) → Marked k (insert_event r w).1 → Marked k w
    pub marked_by_produce :
        (k : String) (r : KafkaRecord) (w : W) → Marked k (produce_sync r w).1 → Marked k w
    pub marked_by_exists : (k j : String) (w : W) → Marked k (exists j w).1 → Marked k w
    -- Rows stay.
    pub row_over_insert :
        (u : String) (r : Row) (w : W) → Stored u w → Stored u (insert_event r w).1
    pub row_over_produce :
        (u : String) (r : KafkaRecord) (w : W) → Stored u w → Stored u (produce_sync r w).1
    pub row_over_exists : (u k : String) (w : W) → Stored u w → Stored u (exists k w).1
    pub row_over_set : (u k : String) (w : W) → Stored u w → Stored u (set k w).1
    -- Accepted records stay.
    pub record_over_insert :
        (q : KafkaRecord) (r : Row) (w : W) → Published q w → Published q (insert_event r w).1
    pub record_over_produce :
        (q r : KafkaRecord) (w : W) → Published q w → Published q (produce_sync r w).1
    pub record_over_exists :
        (q : KafkaRecord) (k : String) (w : W) → Published q w → Published q (exists k w).1
    pub record_over_set :
        (q : KafkaRecord) (k : String) (w : W) → Published q w → Published q (set k w).1
