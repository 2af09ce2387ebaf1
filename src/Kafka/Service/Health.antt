-- ===== src/Kafka/Service/Health.antt =====
-- When the consumer goroutine ends, and what the health check says then (ConsumeEvents and
-- IsConsumerHealthy of internal/api/kafka_service.go).
use energy_plant_monitoring.Base.{
  ◌≤◌, String, true, false, ◌≡◌, refl, ◌∙◌, ap, subst, ◌++◌, leb, List, [], map, ◌∷◌, ◌≢◌, arith,
  tally,
}
use energy_plant_monitoring.Errors.{is_nil}
use energy_plant_monitoring.Kafka.{KafkaMessage, Client, Handler, max_connection_errors}
use energy_plant_monitoring.Kafka.Service.{
  got, read, Poll, KafkaService, Consumer, Broker, loop, consume_events, is_consumer_healthy, idle,
}
use energy_plant_monitoring.Kafka.Service.Rounds.{
  is_connection_error, is_stop, is_message, loop-Inv, loop_runs, loop-append, loop_decides,
}

module _ {W : Type 0} (client : Client W) (broker : Broker W) (ks : KafkaService W) (w : W) where
  abbrev pub topics : List String
  topics = map (λ (h : String × Handler W). h.0) ks.topic_handlers

  abbrev start : Consumer W
  start = record (idle ks (broker.subscribe_topics topics w).1) { running = true }

  consume_events-loop :
      (ps : List Poll)
      → topics ≢ []
      → is_nil (broker.subscribe_topics topics w).0 ≡ true
      → consume_events client broker ks w ps ≡ loop client broker ks.topic_handlers start ps
  unfolding consume_events
  consume_events-loop ps some_topic fine = go topics refl
    where
      go :
          (ts : List String)
          → topics ≡ ts
          → consume_events client broker ks w ps ≡ loop client broker ks.topic_handlers start ps
      go [] e = absurd (some_topic e)
      go (t ∷ ts) e = ground arith

  -- With a topic registered and the subscription accepted, in a service that reports health: after
  -- any rounds the health flag is set exactly while the consumer goroutine runs.
  pub consume_events_healthy :
      (ps : List Poll)
      → topics ≢ []
      → is_nil (broker.subscribe_topics topics w).0 ≡ true
      → ks.consumer_healthy ≡ true
      → (consume_events client broker ks w ps).consumer_healthy
        ≡ (consume_events client broker ks w ps).running
  consume_events_healthy ps some_topic fine h =
      rw (consume_events-loop ps some_topic fine)
        (loop-Inv client broker ks.topic_handlers start ps (ground arith)).agree

  -- With a topic registered and the subscription accepted: up to `max_connection_errors` connection
  -- errors, with any timeouts, other errors and messages among them, leave the consumer running as
  -- long as it is not stopped.
  pub consume_events_tolerates :
      (ps : List Poll)
      → topics ≢ []
      → is_nil (broker.subscribe_topics topics w).0 ≡ true
      → tally is_stop ps ≡ 0
      → tally is_connection_error ps ≤ max_connection_errors
      → (consume_events client broker ks w ps).running ≡ true
  consume_events_tolerates ps some_topic fine no_stop few =
      rw (consume_events-loop ps some_topic fine)
        (loop_runs client broker ks.topic_handlers start ps refl no_stop (omega arith))

  -- With a topic registered and the subscription accepted, in a service that reports health: let the
  -- consumer still run after any rounds, then read a message, and then meet rounds without a message
  -- and without a stop. It runs on, and reports itself healthy, exactly if at most
  -- `max_connection_errors` of the rounds since that message are connection errors, whatever timeouts
  -- and other errors lie between, and however many connection errors came before the message.
  pub consume_events_gives_up :
      (ps : List Poll) (msg : KafkaMessage) (qs : List Poll)
      → topics ≢ []
      → is_nil (broker.subscribe_topics topics w).0 ≡ true
      → ks.consumer_healthy ≡ true
      → (consume_events client broker ks w ps).running ≡ true
      → tally is_message qs ≡ 0
      → tally is_stop qs ≡ 0
      → let c = consume_events client broker ks w (ps ++ read (got msg) ∷ qs) in
        (c.running ≡ leb (tally is_connection_error qs) max_connection_errors)
        × (c.consumer_healthy ≡ c.running)
  consume_events_gives_up ps msg qs some_topic fine h running quiet no_stop =
      let all = ps ++ read (got msg) ∷ qs in
      let c = loop client broker ks.topic_handlers start ps in
      let inv = loop-Inv client broker ks.topic_handlers start ps (ground arith) in
      let runs : c.running ≡ true =
        subst (λ (d : Consumer W). d.running ≡ true) (consume_events-loop ps some_topic fine)
          running in
      (
        rw (consume_events-loop all some_topic fine) (
            ap (λ (d : Consumer W). d.running)
              (loop-append client broker ks.topic_handlers start ps (read (got msg) ∷ qs))
            ∙ loop_decides client broker ks.topic_handlers c msg qs inv runs quiet no_stop),
        consume_events_healthy all some_topic fine h,
      )

  -- A subscription that fails leaves no consumer running and no message handled, whatever would
  -- follow, and the health flag stays as it was: set, from the constructor on.
  consume_events_not_subscribed :
      (ps : List Poll)
      → is_nil (broker.subscribe_topics topics w).0 ≡ false
      → let c = consume_events client broker ks w ps in
        (c.running ≡ false) × (c.calls ≡ []) × (c.consumer_healthy ≡ is_consumer_healthy ks)
  unfolding consume_events is_consumer_healthy
  consume_events_not_subscribed ps failed = go topics refl
    where
      go :
          (ts : List String)
          → topics ≡ ts
          → let c = consume_events client broker ks w ps in
            (c.running ≡ false) × (c.calls ≡ []) × (c.consumer_healthy ≡ is_consumer_healthy ks)
      go [] e = rw (e, consume_events) (refl, refl, refl)
      go (t ∷ ts) e = ground arith
