-- ===== src/Server/Health.antt =====
-- HealthCheck and the end of main (main.go), with Ping and Shutdown of
-- internal/infrastructure/container/container.go.
use energy_plant_monitoring.Base.{
  ℕ, String, Bool, true, ◌&&◌, not, ◌≡◌, ◌≢◌, List, [], ◌∷◌, ◌++◌, if◌then◌else◌, arith,
}
use energy_plant_monitoring.Errors.{Error, is_nil}
use energy_plant_monitoring.Kafka.{Client}
use energy_plant_monitoring.Kafka.Service.{Poll, KafkaService, Broker, consume_events}
use energy_plant_monitoring.Kafka.Service.Health.{topics, consume_events_healthy}

-- `Ping` asks for the connection, and then pings it
unfoldable ping : Error → Error → Error
ping db ping_context = if is_nil db then ping_context else db

-- the status and the body
unfoldable health_check : Bool → Error → ℕ × String
health_check consumer_healthy ping_err =
    if not consumer_healthy
    then (503, "kafka consumer unhealthy")
    else if not (is_nil ping_err)
    then (503, "database unreachable")
    else (200, "")

-- With a topic registered and the subscription accepted, in a service that reports health: after
-- any rounds of the consumer, /healthz and /readyz answer with status 200 exactly if the consumer
-- goroutine runs and the database answers the ping; otherwise with 503, and the body says of the two
-- the first that fails.
health_check_tells :
    {W : Type 0} (client : Client W) (broker : Broker W) (ks : KafkaService W) (w : W)
    (ps : List Poll) (db ping_context : Error)
    → topics client broker ks w ≢ []
    → is_nil (broker.subscribe_topics (topics client broker ks w) w).0 ≡ true
    → ks.consumer_healthy ≡ true
    → let c = consume_events client broker ks w ps in
      health_check c.consumer_healthy (ping db ping_context) ≡ (
        if c.running
        then (if is_nil db && is_nil ping_context then (200, "") else (503, "database unreachable"))
        else (503, "kafka consumer unhealthy"))
unfolding health_check ping
health_check_tells client broker ks w ps db ping_context some_topic fine h =
    ground (arith, consume_events_healthy client broker ks w ps some_topic fine h)

pub data Stage : Type 0 where
  consumer_cancelled kafka_closed coordinator_stopped writer_stopped : Stage
  evaluator_stopped notifier_stopped database_closed server_stopped : Stage

-- `Shutdown` of the container; `db` is the error of `c.db.DB()`
abbrev pub shutdown : Error → List Stage
shutdown db =
    consumer_cancelled
    ∷ kafka_closed
    ∷ coordinator_stopped
    ∷ writer_stopped
    ∷ evaluator_stopped
    ∷ notifier_stopped
    ∷ (if is_nil db then database_closed ∷ [] else [])

-- what main does after the signal: the HTTP server is stopped after the components
abbrev on_signal : Error → List Stage
on_signal db = shutdown db ++ (server_stopped ∷ [])
