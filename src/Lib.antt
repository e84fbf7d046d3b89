-- ===== src/Lib.antt =====
-- Verification library of the Salesforce Pub/Sub event processor.
--
-- The service subscribes to topics of Salesforce, decodes their events with the Avro schemas that it fetches,
-- writes each event to Postgres and publishes it to Kafka, and keeps a replay cursor per topic, from which a
-- restart resumes. The parts, and the files here that model them:
--   * internal/replay/committer.go: Replay. Cursor has `topicCursor` and the loop of `Done`; Committer has
--     `Done`, `snapshot`, `markDirty` and `Flush`; System interleaves `Done` with the writes of a flush, as
--     steps of a system whose table stands for `replay_state`. LowWater, Flush and System/Recovery have the
--     theorems.
--   * internal/event, internal/storage, internal/kafka/producer.go, internal/rediscache: Event, Storage, Kafka,
--     RedisCache. What pgx, franz-go, go-redis and the encoders do is the record `Services` of Event/Services,
--     and what is relied on of them is the record `Promises` beside it.
--   * internal/handler: Handler, with a file for each handler. Pipeline composes them as `New` of
--     internal/app/app.go does, over one state with the services and the counters.
--   * internal/schema: Schema. `Get` stands there as one call; Schema/Flights has its parts for callers side by
--     side, around the group of Singleflight, and Schema/Genuine says where the schemas of the cache come from.
--   * Singleflight: callers around one singleflight.Group, as steps. The group is a parameter that says which
--     keys have an execution in flight; the client, which is Schema/Flights or Auth/Flights, says what is done
--     before `Do`, and in its function before and after the remote call. Manned, Returning, Keys and Results
--     have what holds for every client.
--   * internal/worker/pool.go: Worker. `process` runs `retry` for the schema, decodes, and runs `retry` for the
--     handler, which in EndToEnd is the one of Pipeline. The context is a list that says what happens at each
--     failed attempt; a list that ends before the loop does leaves the outcome `trying`.
--     Attempts and Acks are about the retries that succeed and the acknowledgement.
--     Tasks cuts the same `process` at its calls, so that several workers can be interleaved: Alone puts one
--     worker by itself beside Pipeline, Progress is about what each has achieved at every point.
--   * internal/app/app.go, the running service: Service. Its state is the receivers with their responses,
--     their channels and the hands of `fanIn`, the channel `events`, the workers with what they share, and the committer with its table;
--     a step is one step of one goroutine. Held, Carried and Places follow an event on its way, Lengths counts, Accounts what
--     the workers have achieved; Ranks counts the steps that are left before the service holds no event; Refines, Committed, Conserved, Bounded, Finishes, Drains, Restart and Shutdown
--     have the theorems.
--   * internal/pubsub/subscriber.go: Subscriber. Stream has `initialFetch` and `runReceiver`, Flow interleaves
--     `Ack` with `runSender`, Delay has `reconnectDelay`, Run has `runOnce` and `Run`.
--     Window puts receiver, sender and `Ack` together with what the streams are asked for, over reconnects.
--   * internal/pubsub/interceptor.go, client.go, credentials.go: Interceptor, Client. What `Dial` gives to gRPC
--     is in Client/Dial, as what the other constructors give to their libraries is in Kafka/Build and
--     RedisCache/Build.
--   * internal/auth/oauth.go: Auth, over texts that are lists of bytes, since the tenant is cut out of a path.
--   * internal/config/config.go: Config, and in Config/Load what becomes of the sizes that it admits.
--     internal/health: Health. internal/httpserver/server.go: HttpServer, with
--     the routes in HttpServer/Routes. internal/log: Log.
--   * internal/app/app.go otherwise: App, with the resources that `New` opens and `Close` closes, `ack`, the
--     checkers of the probe, `discoverTopics`, and in Lifecycle how `Run` ends. Metrics has the collectors of all
--     packages and their registration, with what is relied on of the registry in Metrics/Registry. A collector
--     is a pointer, so it carries the number of the subscriber that made it.
--   * cmd/processor/main.go and internal/storage/migrate.go: Main.
--
-- A subscriber numbers the events of its topic and hands them to a worker; the worker has the handlers process
-- one, and acknowledges it; the acknowledgement reports its number to the committer, and returns its slot to the
-- subscriber. A handler is a function from an event and a state to an error, if any, and a state; an operation
-- that can fail gives a `Result` or an `Option` of its error, wrapped as the code wraps it.
--
-- Numbers are natural numbers. A `uint64` wraps at 2^64 where the code adds, and the positions of a cursor are
-- assumed below it: a receiver of Service stops short of 2^64 - 1 events. Durations are nanoseconds, and a
-- shift that overflows an `int64` is a bit pattern. The loop of `Done` runs on fuel, one more than the entries
-- in its map, and takes an entry out in each round. The loops over retries and streams are recursion on the
-- list of what the context does, the interceptor's on its five attempts. Everything else is recursion on its
-- data.
--
-- In Service the configured topics differ, a lookup of the schema cache is one step, and the senders of the
-- subscribers, which are in Subscriber/Flow and Subscriber/Window, do not occur: an acknowledgement finds whatever slots
-- there are. A response may have any number of events whose positions are free, and may be cut off when its
-- stream ends, after which its events come again. A cancelled context is a flag: workers and `fanIn` may then stop at the points where the code looks at it.
--
-- Not modelled: log lines, histograms, the labels of the counters that no function here counts, the recovery of
-- the HTTP server from a panic, the parser of the environment, the embedded SQL files, and the generated protocol
-- code beyond the fields that are read. A timeout is an error of the call that it ends.
pub mod Common
pub mod Replay
pub mod Event
pub mod Storage
pub mod Kafka
pub mod RedisCache
pub mod Handler
pub mod Pipeline
pub mod Schema
pub mod Worker
pub mod Service
pub mod Singleflight
pub mod Subscriber
pub mod HttpServer
pub mod Interceptor
pub mod Config
pub mod Auth
pub mod App
pub mod Health
pub mod Client
pub mod Metrics
pub mod Log
pub mod Main
pub mod Examples
