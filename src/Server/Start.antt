-- ===== src/Server/Start.antt =====
-- The start of the server: SetupDatabasePsql of internal/infrastructure/conf/database/postgres.go with
-- the URI of conf/db_config.go, the factories of conf/kafkaconf/factory.go, NewKafkaAdapter of
-- adapters/kafka/adapter.go, NewContainer of container/container.go, and main.go. What the packages
-- answer is given; a text is the list of its characters in the settings, and a string elsewhere.
pub mod Boot
pub mod Brokers
use Prim.Native.String.{◌++◌ as text_append}
use energy_plant_monitoring.Base.{
  ℕ, zero, suc, ◌*◌, String, Bool, true, false, List, [], ◌∷◌, ◌++◌, if◌then◌else◌,
}
use energy_plant_monitoring.Errors.{Error, nil, wrapped, is_nil, Result, ok, err}
use energy_plant_monitoring.Server.Cors.{Text, split_comma}

pub record DbSettings : Type 0 where
  pub db_host : String
  pub db_name : String
  pub db_password : String
  pub db_port : String
  pub db_user : String
  pub db_max_idle_conns : ℕ
  pub db_max_open_conns : ℕ
  pub db_conn_max_lifetime : ℕ
  pub db_conn_max_idle_time : ℕ
  pub db_schema : String

abbrev joined : List String → String
joined [] = ""
joined (s ∷ rest) = text_append s (joined rest)

-- `path_escape` is `url.PathEscape`
abbrev db_uri_psql : (String → String) → DbSettings → String
db_uri_psql path_escape s = joined (
    "postgres://"
    ∷ s.db_user
    ∷ ":"
    ∷ path_escape s.db_password
    ∷ "@"
    ∷ s.db_host
    ∷ ":"
    ∷ s.db_port
    ∷ "/"
    ∷ s.db_name
    ∷ "?search_path="
    ∷ s.db_schema
    ∷ "&sslmode=disable"
    ∷ [])

-- the pool that gorm opens; the two times are in nanoseconds
pub record Pool : Type 0 where
  pub uri : String
  pub max_idle_conns : ℕ
  pub max_open_conns : ℕ
  pub conn_max_lifetime : ℕ
  pub conn_max_idle_time : ℕ

abbrev minute : ℕ
minute = 60000000000

abbrev pool_of : (String → String) → DbSettings → Pool
pool_of path_escape s = record {
  uri = db_uri_psql path_escape s;
  max_idle_conns = s.db_max_idle_conns;
  max_open_conns = s.db_max_open_conns;
  conn_max_lifetime = minute * s.db_conn_max_lifetime;
  conn_max_idle_time = minute * s.db_conn_max_idle_time;
}

-- with the answers of LoadDBSettings, of `gorm.Open` and of `db.DB()`
unfoldable pub setup_database_psql :
    (String → String) → Result DbSettings → Error → Error → Result Pool
setup_database_psql path_escape (err e) open_err db_err = err e
setup_database_psql path_escape (ok s) open_err db_err =
    if is_nil open_err
    then (if is_nil db_err
        then ok (pool_of path_escape s)
        else err (wrapped "unable to get underlying sql.DB" db_err))
    else err (wrapped "unable to connect to database" open_err)

-- `strings.Join(brokers, ",")`
unfoldable pub join_comma : List Text → Text
join_comma [] = []
join_comma (broker ∷ []) = broker
join_comma (broker ∷ rest) = let more = join_comma rest in broker ++ b',' ∷ more

pub record KafkaFactory : Type 0 where
  pub broker_list : Text
  pub auto_offset : String

unfoldable pub new_kafka_factory : List Text → String → KafkaFactory
unfolding join_comma
new_kafka_factory brokers auto_offset = record {
  broker_list = join_comma brokers;
  auto_offset = auto_offset;
}

pub record ProducerConfig : Type 0 where
  pub bootstrap_servers : Text
  pub retries : ℕ
  pub socket_timeout_ms : ℕ

pub record ConsumerConfig : Type 0 where
  pub bootstrap_servers : Text
  pub group_id : String
  pub auto_offset_reset : String
  pub session_timeout_ms : ℕ
  pub heartbeat_interval_ms : ℕ
  pub enable_auto_commit : Bool
  pub max_poll_interval_ms : ℕ

unfoldable pub producer_config : KafkaFactory → ProducerConfig
producer_config kf = record {
  bootstrap_servers = kf.broker_list;
  retries = 1;
  socket_timeout_ms = 5000;
}

unfoldable pub consumer_config : KafkaFactory → String → ConsumerConfig
consumer_config kf group_id = record {
  bootstrap_servers = kf.broker_list;
  group_id = group_id;
  auto_offset_reset = kf.auto_offset;
  session_timeout_ms = 10000;
  heartbeat_interval_ms = 3000;
  enable_auto_commit = false;
  max_poll_interval_ms = 300000;
}

-- the goroutines that the start leaves running, and the end of the process
pub data Begun : Type 0 where
  delivery_report operational_worker analytical_worker writer_reporter : Begun
  coordinator notifier_worker hot_reload consumer http_server : Begun
  exited : ℕ → Begun

-- `NewProducer` and `NewConsumer` of the client, with their errors
abbrev new_kafka_adapter : Error → Error → Error × List Begun
new_kafka_adapter producer_err consumer_err =
    if is_nil producer_err
    then (if is_nil consumer_err
        then (nil, delivery_report ∷ [])
        else (consumer_err, delivery_report ∷ []))
    else (producer_err, [])

abbrev workers : ℕ → Begun → List Begun
workers zero g = []
workers (suc n) g = g ∷ workers n g

-- `NewContainer`: the repositories and adapters start nothing
unfoldable pub new_container : Error → Error → Error × List Begun
new_container producer_err consumer_err =
    let (e, begun) = new_kafka_adapter producer_err consumer_err in
    if is_nil e
    then (
      nil,
      begun
          ++ workers 2 operational_worker
          ++ workers 2 analytical_worker
          ++ writer_reporter ∷ coordinator ∷ notifier_worker ∷ hot_reload ∷ [],
    )
    else (e, begun)

-- what each stage of main answers
pub record Stages : Type 0 where
  pub parse_config : Error
  pub db_settings : Result DbSettings
  pub open_db : Error
  pub underlying_db : Error
  pub perform_migrations : Error
  pub seed_db : Error
  pub new_producer : Error
  pub new_consumer : Error

abbrev pub is_ok : {A : Type 0} → Result A → Bool
is_ok (ok _) = true
is_ok (err _) = false

-- a stage that fails ends the process with status 1
abbrev or_exit : Bool → List Begun → List Begun
or_exit fine rest = if fine then rest else exited 1 ∷ []

-- main, until it waits for a signal
unfoldable pub main : (String → String) → Stages → List Begun
unfolding new_container setup_database_psql
main path_escape s =
    let db = setup_database_psql path_escape s.db_settings s.open_db s.underlying_db in
    let (e, begun) = new_container s.new_producer s.new_consumer in
    or_exit (is_nil s.parse_config) (
      or_exit (is_ok db) (
        or_exit (is_nil s.perform_migrations)
          (or_exit (is_nil s.seed_db) (begun ++ or_exit (is_nil e) (consumer ∷ http_server ∷ [])))))
