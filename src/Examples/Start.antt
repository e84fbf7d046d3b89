-- ===== src/Examples/Start.antt =====
-- The theorems on the configuration and on the start and the end of the program at concrete inputs.
use pubsub_event_processor.Common.{
  ℕ, ◌+◌, String, ◌≡◌, ◌↔◌, refl, Bool, true, false, Option, none, some, [], ◌∷◌, ok, err, cause,
  message, wrap, text, quoted, if◌then◌else◌, ◌==◌, pos,
}
use pubsub_event_processor.Config.{Config, Url, validate}
use pubsub_event_processor.Config.Valid.{IsValid, validate_iff}
use pubsub_event_processor.App.{
  App, Outside, new_app, start_dialled, start_producer, start_enabled, start_topic, ensure_topic,
  start_rest, close_app,
}
use pubsub_event_processor.App.Resources.{IsBalanced, new_failure_releases, close_releases}
use pubsub_event_processor.Main.{Calls}

abbrev pub config : Config
config = record {
  salesforce = record { client_id = "id"; client_secret = "secret"; login_url = "https://login" };
  pubsub = record { endpoint = "api:7443"; topics = "/data/A" ∷ [] };
  database = record { url = "postgres://db"; max_conns = pos 10 };
  redis = record {
    enabled = true;
    addr = "redis:6379";
    password = "";
    db = pos 0;
    key_prefix = "p:";
    ttl = pos 60;
    timeout = pos 1;
  };
  kafka = record {
    enabled = true;
    brokers = "kafka:9092" ∷ [];
    topic = "events";
    client_id = "c";
    produce_timeout = pos 5;
    create_topic = true;
    topic_partitions = pos 1;
    topic_replication_factor = pos 1;
  };
  sink = record { webhook_url = "" };
  http = record { addr = ":8080" };
  worker = record { count = pos 4; flow_batch_size = pos 100 };
  log_level = "info";
}

abbrev pub is_host_port : String → Bool
is_host_port s = true

abbrev pub parse_url : String → Option Url
parse_url s = some (record { scheme = "https"; host = "login" })

validate_iff_example :
    (validate is_host_port parse_url config ≡ []) ↔ IsValid is_host_port parse_url config
validate_iff_example = validate_iff is_host_port parse_url config

-- The services answer; creating the topic fails in the state 2.
abbrev pub outside : Outside ℕ ℕ
outside = record {
  dial = λ s. (none, s + 1);
  new_pool = λ s. (none, s + 1);
  new_client = λ s. (none, s);
  create_topic = λ s. (if s == 2 then some 8 else none, s);
  is_existing = λ x. false;
  close_redis = λ s. (none, s);
  is_closed = λ x. false;
  close_conn = λ s. (some 3, s);
}

start_fails :
    (new_app outside config 0).0
    ≡ err (wrap (text "ensure kafka topic") (wrap (quoted "create topic" "events") (cause 8)))
unfolding new_app start_dialled start_producer start_enabled start_topic ensure_topic start_rest
start_fails = refl

new_failure_releases_example : IsBalanced (new_app outside config 0).1.0
new_failure_releases_example = new_failure_releases outside config 0 _ start_fails

abbrev app : App
app = record {
  subs = "/data/A" ∷ [];
  has_redis = true;
  has_producer = true;
  checkers = "auth" ∷ "database" ∷ "kafka" ∷ "redis" ∷ [];
}

start_succeeds : (new_app outside config 5).0 ≡ ok app
unfolding new_app start_dialled start_producer start_enabled start_topic ensure_topic start_rest
start_succeeds = refl

close_releases_example : IsBalanced (close_app outside app ((new_app outside config 5).1.0, 9)).1.0
close_releases_example = close_releases outside config 5 app 9 start_succeeds

-- Nothing to migrate, and a run that ends with an error.
abbrev calls : Calls ℕ
calls = record {
  open_source = none;
  open_migrator = none;
  up = some 1;
  is_no_change = λ x. true;
  load = none;
  make_logger = none;
  new = none;
  run_app = some (message "listen");
  is_canceled = λ e. false;
}
