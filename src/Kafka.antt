-- ===== src/Kafka.antt =====
-- internal/api/kafka_service.go and internal/infrastructure/adapters/kafka/adapter.go: the consumer
-- with manual commits, retries with backoff and the dead letter queue. Each operation returns,
-- beside its result and the state of the outside world, the list of the calls that it made, in
-- order. Log lines are not modelled.
pub mod Retry
pub mod Service
pub mod Adapter
use Prim.Native.String.{◌++◌}
use energy_plant_monitoring.Base.{
  ℕ, zero, suc, ◌+◌, ◌*◌, String, Bool, true, false, Option, none, some, List, [], ◌∷◌,
  ◌++◌ as append, if◌then◌else◌,
}
use energy_plant_monitoring.Errors.{Error, nil, is_nil, is_permanent, message}

-- `[]byte`
abbrev pub Bytes : Type 0
Bytes = List ℕ

abbrev dlq_topic : String
dlq_topic = "intake_dlq"

abbrev pub max_retries : ℕ
max_retries = 3

-- more connection errors than this in a row stop the consumer
abbrev pub max_connection_errors : ℕ
max_connection_errors = 10

-- output.KafkaMessage
pub record KafkaMessage : Type 0 where
  pub value : Bytes
  pub topic : String
  pub partition : ℕ
  pub offset : ℕ

-- the map that `sendToDLQWithCtx` marshals; `SendToDLQ` has no correlation id
pub record DlqMessage : Type 0 where
  pub original_message : Bytes
  pub error_reason : String
  pub timestamp : String
  pub correlation_id : Option String

-- What the service is built on: encoding/json, the Kafka client, the clock, and the context of a
-- message. `wait d` is the `select` between `time.After(d)` and `ctx.Done()`, and is true when the
-- timer fires first. `commit_offsets` is the client's call for one topic, partition and offset.
pub record Client (W : Type 0) : Type 0 where
  pub marshal : DlqMessage → Option Bytes
  pub produce : String → String → Bytes → W → Error × W
  pub commit_offsets : String → ℕ → ℕ → W → Error × W
  pub now : W → String
  pub wait : ℕ → W → Bool × W

-- input.MessageHandler
abbrev pub Handler : Type 0 → Type 0
Handler W = Bytes → W → Error × W

-- What the service did, one entry for each call of the handler, the client or a metric.
pub data Call : Type 0 where
  handled : Error → Call
  waited : ℕ → Bool → Call
  marshal_failed : Call
  produced : String → Bytes → Error → Call
  committed : KafkaMessage → Error → Call
  retry_attempts_inc : String → Call
  dlq_sends_inc : String → String → Call

pub record Outcome (W : Type 0) : Type 0 where
  pub success : Bool
  pub world : W
  pub calls : List Call

abbrev pub before : {W : Type 0} → List Call → Outcome W → Outcome W
before cs o = record o { calls = append cs o.calls }

module _ {W : Type 0} (client : Client W) where
  open client use {marshal, produce, commit_offsets, now, wait}

  -- the metric is counted only for a delivery without error
  after_produce : String → String → Bytes → Error → List Call
  after_produce topic metric_reason payload nil =
      produced dlq_topic payload nil ∷ dlq_sends_inc topic metric_reason ∷ []
  after_produce topic metric_reason payload err = produced dlq_topic payload err ∷ []

  unfoldable pub send_to_dlq_with_ctx :
      String → String → Bytes → String → String → W → W × List Call
  unfolding after_produce
  send_to_dlq_with_ctx correlation_id topic original reason metric_reason w =
      elim (marshal (record {
        original_message = original;
        error_reason = reason;
        timestamp = now w;
        correlation_id = some correlation_id;
      })) [
        | none ↦ (w, marshal_failed ∷ [])
        | some payload ↦
            let (err, w') = produce dlq_topic "" payload w in
            (w', after_produce topic metric_reason payload err)
      ]

  -- `SendToDLQ`, the spillover callback of the writer: no correlation id and no metric
  send_to_dlq : Bytes → String → W → W × List Call
  send_to_dlq original reason w =
      elim (marshal (record {
        original_message = original;
        error_reason = reason;
        timestamp = now w;
        correlation_id = none;
      })) [
        | none ↦ (w, marshal_failed ∷ [])
        | some payload ↦
            let (err, w') = produce dlq_topic "" payload w in
            (w', produced dlq_topic payload err ∷ [])
      ]

  -- `commitOffset`; the adapter commits the next offset to read, and an error is only logged
  pub commit_offset : KafkaMessage → W → W × List Call
  commit_offset msg w =
      let (err, w') = commit_offsets msg.topic msg.partition (msg.offset + 1) w in
      (w', committed msg err ∷ [])

  module _ (handler : Handler W) (correlation_id topic : String) (original : Bytes) where
    -- a message that goes to the dead letter queue counts as handled
    to_dlq : String → String → W → Outcome W
    unfolding send_to_dlq_with_ctx
    to_dlq reason metric_reason w =
        let (w', calls) =
          send_to_dlq_with_ctx correlation_id topic original reason metric_reason w in
        record { success = true; world = w'; calls = calls }

    -- the loop over `attempt`, with the number of attempts left and the last error
    pub retry : ℕ → ℕ → Error → W → Outcome W
    unfolding to_dlq
    retry zero attempt err w = to_dlq ("max retries exhausted: " ++ message err) "max_retries" w
    retry (suc left) attempt err w =
        let backoff = attempt * attempt in
        let (fired, w₁) = wait backoff w in
        let (err', w₂) = handler original w₁ in
        let rest = retry left (attempt + 1) err' w₂ in
        before (retry_attempts_inc topic ∷ waited backoff fired ∷ []) (
          if fired
          then before (handled err' ∷ []) (
              if is_nil err'
              then record { success = true; world = w₂; calls = [] }
              else if is_permanent err'
              then to_dlq (message err') "permanent" w₂
              else rest)
          else record { success = false; world = w₁; calls = [] })

    unfoldable pub handle_with_retry : W → Outcome W
    unfolding retry
    handle_with_retry w =
        let (err, w') = handler original w in
        before (handled err ∷ []) (
          if is_nil err
          then record { success = true; world = w'; calls = [] }
          else if is_permanent err
          then to_dlq (message err) "permanent" w'
          else retry max_retries 1 err w')
