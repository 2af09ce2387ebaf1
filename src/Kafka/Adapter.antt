-- ===== src/Kafka/Adapter.antt =====
-- The calls of the Kafka client in internal/infrastructure/adapters/kafka/adapter.go, and SendEvent of
-- internal/api/kafka_service.go. The client is a parameter: `produce` hands over a message, and
-- `delivery` is the error of the report that follows.
use energy_plant_monitoring.Base.{ℕ, ◌+◌, String, false, ◌≡◌, List, [], ◌∷◌, if◌then◌else◌, arith}
use energy_plant_monitoring.Errors.{Error, is_nil, Result, ok, err}
use energy_plant_monitoring.Kafka.{Bytes, KafkaMessage}

pub record Produced : Type 0 where
  pub topic : String
  pub key : String
  pub value : Bytes

pub record Library (W : Type 0) : Type 0 where
  pub produce : Produced → W → Error × W
  pub delivery : W → Error × W
  pub read : W → Result KafkaMessage × W
  pub commit_offsets : String → ℕ → ℕ → W → Error × W

-- `Flush` and the two `Close`s
pub data Closing : Type 0 where
  flushed : ℕ → Closing
  producer_closed consumer_closed : Closing

module _ {W : Type 0} (library : Library W) where
  unfoldable pub send_message : String → String → Bytes → W → Error × W
  send_message topic key message w =
      let (e, w₁) = library.produce record { topic = topic; key = key; value = message } w in
      if is_nil e then library.delivery w₁ else (e, w₁)

  unfoldable read_message : W → Result KafkaMessage × W
  read_message w = library.read w

  unfoldable commit_message : KafkaMessage → W → Error × W
  commit_message msg w = library.commit_offsets msg.topic msg.partition (msg.offset + 1) w

  abbrev close : List Closing
  close = flushed 30000 ∷ producer_closed ∷ consumer_closed ∷ []

  send_marshalled : String → String → Result Bytes → W → Error × W
  unfolding send_message
  send_marshalled topic key (err e) w = (e, w)
  send_marshalled topic key (ok value) w = send_message topic key value w

  unfoldable send_event : {E : Type 0} → (E → Result Bytes) → String → String → E → W → Error × W
  unfolding send_marshalled
  send_event marshal topic key event w = send_marshalled topic key (marshal event) w

  -- No error of SendMessage means that the message was handed over and its delivery reported.
  send_message_iff :
      (topic key : String) (message : Bytes) (w : W)
      → let handed = library.produce record { topic = topic; key = key; value = message } w in
        is_nil (send_message topic key message w).0
        ≡ (if is_nil handed.0 then is_nil (library.delivery handed.1).0 else false)
  unfolding send_message
  send_message_iff topic key message w = ground arith
