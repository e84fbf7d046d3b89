-- ===== src/Config/Load.antt =====
-- `Load` of internal/config/config.go, and what becomes of the sizes it admits: `NewPool` of
-- internal/storage/storage.go, `NewSubscriber` of internal/pubsub/subscriber.go and the channel that `Run` of
-- internal/app/app.go makes.
use pubsub_event_processor.Common.{
  ℕ, ◌-◌, ◌*◌, ◌%◌, ◌^◌, ◌≤◌, ◌<◌, min, ◌≡◌, refl, sym, subst, String, Bool, Option, none, some,
  List, [], ◌∷◌, Result, ok, err, Error, cause, wrap, text, ℤ, pos, negsuc, Within, AtLeast,
  if◌then◌else◌, ltb, arith,
}
use pubsub_event_processor.Config.{Config, ConfigError, Url, validate}
use pubsub_event_processor.Config.Valid.{IsValid, validate_iff}
use pubsub_event_processor.Subscriber.Flow.{max_int32, clamp_to_int32, magnitude}
use pubsub_event_processor.Subscriber.Stream.{Receiver, new_receiver}

-- Two's complement: the number whose w-bit pattern this is.
abbrev pub signed : ℕ → ℕ → ℤ
signed w n = if ltb n (2 ^ (w - 1)) then pos n else negsuc (2 ^ w - 1 - n)

-- int32(n)
unfoldable pub to_int32 : ℤ → ℤ
to_int32 (pos n) = signed 32 (n % 2 ^ 32)
to_int32 (negsuc n) = signed 32 (2 ^ 32 - 1 - n % 2 ^ 32)

-- `FlowBatchSize*2` on a 64-bit int, for a size that is not negative.
unfoldable pub events_capacity : ℕ → ℤ
events_capacity n = signed 64 (n * 2 % 2 ^ 64)

-- The errors that `Load` wraps.
pub data LoadError (X : Type 0) : Type 0 where
  parse_env : X → LoadError X
  validate_config : List ConfigError → LoadError X

-- `is_host_port` and `parse_url` as in `Validate`.
module _ (is_host_port : String → Bool) (parse_url : String → Option Url) where
  abbrev pub validated : {X : Type 0} → Config → List ConfigError → Result (LoadError X) Config
  validated cfg [] = ok cfg
  validated cfg (e ∷ es) = err (validate_config (e ∷ es))

  -- `Load`; `parsed` is what env.Parse makes of the environment.
  unfoldable pub load : {X : Type 0} → Result X Config → Result (LoadError X) Config
  load (err x) = err (parse_env x)
  load (ok cfg) = validated cfg (validate is_host_port parse_url cfg)

  validated_ok :
      {X : Type 0} (cfg cfg' : Config) (es : List ConfigError)
      → validated {X = X} cfg es ≡ ok cfg'
      → (es ≡ []) × (cfg' ≡ cfg)
  validated_ok cfg cfg' [] h = (refl, ground arith)
  validated_ok cfg cfg' (e ∷ es) h = absurd (ground arith)

  load-IsValid :
      {X : Type 0} (parsed : Result X Config) (cfg : Config)
      → load parsed ≡ ok cfg
      → IsValid is_host_port parse_url cfg
  unfolding load
  load-IsValid {X} (err x) cfg h = absurd (ground arith)
  load-IsValid {X} (ok c) cfg h =
      let (clean, same) = validated_ok {X = X} c cfg _ h in
      rw same ((validate_iff is_host_port parse_url c).0 clean)

-- `parse_dsn` is pgxpool.ParseConfig, and `with_config` is NewWithConfig of it with `MaxConns`.
module _ {X Q S : Type 0} (parse_dsn : String → Result X Q)
    (with_config : Q → ℤ → S → Option X × S) where
  -- `NewPool`: its error, if there is one.
  unfoldable pub new_pool : String → ℤ → S → Option (Error X) × S
  unfolding to_int32
  new_pool dsn max_conns s = elim (parse_dsn dsn) [
    | err x ↦ (some (wrap (text "parse dsn") (cause x)), s)
    | ok q ↦
        let (r, s') = with_config q (to_int32 max_conns) s in
        (elim r [ none ↦ none | some x ↦ some (wrap (text "new pool") (cause x)) ], s')
  ]

-- `NewSubscriber`, as far as the receiver goes.
unfoldable pub new_subscriber : String → ℤ → Receiver
unfolding clamp_to_int32
new_subscriber topic batch_size = new_receiver topic (magnitude (clamp_to_int32 batch_size))

int32_exact : (z : ℤ) → Within 1 1000 z → to_int32 z ≡ z
unfolding to_int32
int32_exact (pos n) h = ground (arith)
int32_exact (negsuc n) h = absurd h

capacity_exact : (n : ℕ) → n < 2 ^ 62 → events_capacity n ≡ pos (n * 2)
unfolding events_capacity
capacity_exact n h = let small : n * 2 % 2 ^ 64 ≡ n * 2 = omega arith in rw small (ground arith)

capacity_overflows : (n : ℕ) → 2 ^ 62 ≤ n → n < 2 ^ 63 → (m : ℕ) × (events_capacity n ≡ negsuc m)
unfolding events_capacity
capacity_overflows n h k =
    let small : n * 2 % 2 ^ 64 ≡ n * 2 = omega arith in
    (2 ^ 64 - 1 - n * 2, rw small (ground arith))

request_size :
    (topic : String) (n : ℕ) → (new_subscriber topic (pos n)).batch_size ≡ min n max_int32
unfolding new_subscriber clamp_to_int32
request_size topic n = ground arith

module _ (is_host_port : String → Bool) (parse_url : String → Option Url) where
  -- If `Load` returns a configuration, then it is valid; the pool gets the connections that are configured,
  -- since they fit an int32; and the batch size is a positive n, of which a subscriber requests the lesser
  -- of n and 2^31 - 1, and for which the capacity of the channel `events` is 2 * n below 2^62, and negative
  -- from there on to 2^63.
  pub loaded_sizes :
      {X : Type 0} (parsed : Result X Config) (cfg : Config) (topic : String)
      → load is_host_port parse_url parsed ≡ ok cfg
      → IsValid is_host_port parse_url cfg
        × (to_int32 cfg.database.max_conns ≡ cfg.database.max_conns)
        × ((n : ℕ) × (cfg.worker.flow_batch_size ≡ pos n)
            × (1 ≤ n)
            × ((new_subscriber topic cfg.worker.flow_batch_size).batch_size ≡ min n max_int32)
            × (n < 2 ^ 62 → events_capacity n ≡ pos (n * 2))
            × (2 ^ 62 ≤ n → n < 2 ^ 63 → (m : ℕ) × (events_capacity n ≡ negsuc m)))
  loaded_sizes {X} parsed cfg topic h =
      let v = load-IsValid is_host_port parse_url {X = X} parsed cfg h in
      let (n, e, low) = positive cfg.worker.flow_batch_size v.batch in
      (
        v,
        int32_exact cfg.database.max_conns v.conns,
        (
          n,
          e,
          low,
          subst (λ z. (new_subscriber topic z).batch_size ≡ min n max_int32) (sym e)
              (request_size topic n),
          capacity_exact n,
          capacity_overflows n,
        ),
      )
    where
      positive : (z : ℤ) → AtLeast 1 z → (n : ℕ) × (z ≡ pos n) × (1 ≤ n)
      positive (pos n) low = (n, refl, low)
      positive (negsuc n) low = absurd low
