-- ===== src/Kafka/Service.antt =====
-- ConsumeEvents, RegisterHandler, StopConsuming and IsConsumerHealthy of
-- internal/api/kafka_service.go. The rounds of the endless loop are an argument: what each round
-- meets, the stop channel closed or a result of `ReadMessage`.
pub mod Rounds
pub mod Health
pub mod Commit
use energy_plant_monitoring.Base.{
  ℕ, ◌+◌, String, Bool, true, false, Option, none, some, List, [], ◌∷◌, ◌++◌, map, ltb,
  if◌then◌else◌, str_eq,
}
use energy_plant_monitoring.Errors.{Error, is_nil}
use energy_plant_monitoring.Kafka.{
  KafkaMessage, Client, Handler, Call, max_connection_errors, commit_offset, handle_with_retry,
}

-- the codes of `kafka.Error` that the loop tells apart
pub data ErrorCode : Type 0 where
  timed_out transport all_brokers_down network_exception other_code : ErrorCode

pub data Read : Type 0 where
  got : KafkaMessage → Read
  kafka_error : ErrorCode → Read
  other_error : Read

pub data Poll : Type 0 where
  stop_closed : Poll
  read : Read → Poll

-- `stopped` stands for the closed `stopChan` and the cancelled `consumerCtx`
pub record KafkaService (W : Type 0) : Type 0 where
  pub topic_handlers : List (String × Handler W)
  pub consumer_healthy : Bool
  pub stopped : Bool

-- what the consumer goroutine keeps while it runs
pub record Consumer (W : Type 0) : Type 0 where
  pub world : W
  pub connection_err_count : ℕ
  pub consumer_healthy : Bool
  pub running : Bool
  pub calls : List Call

-- subscription and correlation ids
pub record Broker (W : Type 0) : Type 0 where
  pub subscribe_topics : List String → W → Error × W
  pub new_correlation_id : W → String × W

module _ {W : Type 0} where
  new_kafka_service : KafkaService W
  new_kafka_service = record { topic_handlers = []; consumer_healthy = true; stopped = false }

  -- an assignment to a map: the entry of the topic is replaced
  set_handler : String → Handler W → List (String × Handler W) → List (String × Handler W)
  set_handler topic h [] = (topic, h) ∷ []
  set_handler topic h ((t, g) ∷ rest) =
      if str_eq t topic then (topic, h) ∷ rest else (t, g) ∷ set_handler topic h rest

  register_handler : String → Handler W → KafkaService W → KafkaService W
  unfolding set_handler
  register_handler topic h ks = record ks { topic_handlers = set_handler topic h ks.topic_handlers }

  unfoldable pub find_handler : String → List (String × Handler W) → Option (Handler W)
  find_handler topic [] = none
  find_handler topic ((t, g) ∷ rest) = if str_eq t topic then some g else find_handler topic rest

  pub is_consumer_healthy : KafkaService W → Bool
  is_consumer_healthy ks = ks.consumer_healthy

  -- `stopOnce`: a second call changes nothing
  stop_consuming : KafkaService W → KafkaService W
  stop_consuming ks = if ks.stopped then ks else record ks { stopped = true }

  pub connection_error : Consumer W → Consumer W
  connection_error c =
      let count = c.connection_err_count + 1 in
      if ltb max_connection_errors count
      then record c { connection_err_count = count; consumer_healthy = false; running = false }
      else record c { connection_err_count = count }

  pub read_failed : ErrorCode → Consumer W → Consumer W
  unfolding connection_error
  read_failed timed_out c = c
  read_failed transport c = connection_error c
  read_failed all_brokers_down c = connection_error c
  read_failed network_exception c = connection_error c
  read_failed other_code c = c

  module _ (client : Client W) (broker : Broker W) (handlers : List (String × Handler W)) where
    -- the message of a topic with no handler is committed too
    deliver : KafkaMessage → Option (Handler W) → Consumer W → Consumer W
    deliver msg none c =
        let (w, calls) = commit_offset client msg c.world in
        record c { world = w; calls = c.calls ++ calls }
    deliver msg (some handler) c =
        let (id, w₀) = broker.new_correlation_id c.world in
        let o = handle_with_retry client handler id msg.topic msg.value w₀ in
        let (w, calls) = commit_offset client msg o.world in
        if o.success
        then record c { world = w; calls = c.calls ++ (o.calls ++ calls) }
        else record c { world = o.world; calls = c.calls ++ o.calls }

    pub round : Consumer W → Poll → Consumer W
    unfolding deliver find_handler read_failed
    round c stop_closed = record c { consumer_healthy = false; running = false }
    round c (read (kafka_error code)) = read_failed code c
    round c (read other_error) = c
    round c (read (got msg)) =
        deliver msg (find_handler msg.topic handlers) (record c { connection_err_count = 0 })

    pub loop : Consumer W → List Poll → Consumer W
    loop c [] = c
    loop c (p ∷ ps) = loop (if c.running then round c p else c) ps

  -- the loop is not reached yet
  abbrev pub idle : KafkaService W → W → Consumer W
  idle ks w = record {
    world = w;
    connection_err_count = 0;
    consumer_healthy = ks.consumer_healthy;
    running = false;
    calls = [];
  }

  subscribed : Client W → Broker W → KafkaService W → List Poll → Error × W → Consumer W
  unfolding loop
  subscribed client broker ks polls (err, w) =
      if is_nil err
      then loop client broker ks.topic_handlers (record (idle ks w) { running = true }) polls
      else idle ks w

  pub consume_events : Client W → Broker W → KafkaService W → W → List Poll → Consumer W
  unfolding subscribed
  consume_events client broker ks w polls =
      elim (map (λ (h : String × Handler W). h.0) ks.topic_handlers) [
        | [] ↦ idle ks w
        | t ∷ ts ↦ subscribed client broker ks polls (broker.subscribe_topics (t ∷ ts) w)
      ]
