-- ===== src/Tests/Messages.antt =====
-- Instances for the consumer (internal/api/kafka_service.go) and the ingestion service
-- (internal/domain/services/event_ingestion_service.go). The state of the outside world is the
-- number of letters that the client produced.
use energy_plant_monitoring.Base.{
  ℕ, zero, suc, Bool, true, false, ◌≡◌, refl, List, [], ◌∷◌, none, some, arith, ◌++◌, leb, tally,
  ◌==◌, if◌then◌else◌,
}
use energy_plant_monitoring.Errors.{Error, nil, new, permanent_error, transient_error, ok, err}
use energy_plant_monitoring.Json.{Fields, end, field, str}
use energy_plant_monitoring.Kafka.{
  Bytes, KafkaMessage, max_connection_errors, Client, Handler, handled, marshal_failed,
  handle_with_retry,
}
use energy_plant_monitoring.Kafka.Retry.{IsDisposed, handle_with_retry-IsDisposed}
use energy_plant_monitoring.Kafka.Service.{
  transport, got, kafka_error, Poll, stop_closed, read, KafkaService, Broker, consume_events,
}
use energy_plant_monitoring.Kafka.Service.Rounds.{is_connection_error}
use energy_plant_monitoring.Kafka.Service.Health.{consume_events_gives_up, consume_events_tolerates}
use energy_plant_monitoring.Ingestion.Deps.{Deps, Config}
use energy_plant_monitoring.Ingestion.Process.{handle_message, handler}
use energy_plant_monitoring.Ingestion.Process.Accounting.{Accounts, handle_message-Accounts}
use energy_plant_monitoring.Ingestion.Process.Malformed.{RejectsInvalid, invalid_json_lost}

-- a text that starts with a brace
abbrev valid : Bytes → Bool
valid [] = false
valid (c ∷ s) = c == b'{'

abbrev garbled : Bytes
garbled = b'x' ∷ []

abbrev braces : Bytes
braces = b'{' ∷ b'}' ∷ []

abbrev client : Client ℕ
client = record {
  marshal = λ d. if valid d.original_message then some d.original_message else none;
  produce = λ _ _ _ letters. (nil, suc letters);
  commit_offsets = λ _ _ _ letters. (nil, letters);
  now = λ _. "2024-01-01T00:00:00Z";
  wait = λ _ letters. (true, letters);
}

abbrev failing : Handler ℕ
failing msg w = (transient_error "database" nil, w)

abbrev fine : Broker ℕ
fine = record { subscribe_topics = λ _ w. (nil, w); new_correlation_id = λ w. ("c0ffee", w) }

abbrev service : KafkaService ℕ
service = record {
  topic_handlers = ("intake", failing) ∷ [];
  consumer_healthy = true;
  stopped = false;
}

abbrev intake_message : KafkaMessage
intake_message = record { value = braces; topic = "intake"; partition = 0; offset = 7 }

abbrev one_message : List Poll
one_message = read (kafka_error transport) ∷ read (got intake_message) ∷ stop_closed ∷ []

abbrev outage : ℕ → List Poll
outage zero = []
outage (suc n) = read (kafka_error transport) ∷ outage n

handle_with_retry-IsDisposed_example :
    IsDisposed client failing "c0ffee" "intake" braces
      (handle_with_retry client failing "c0ffee" "intake" braces 0)
handle_with_retry-IsDisposed_example =
    handle_with_retry-IsDisposed client failing "c0ffee" "intake" braces 0

consume_events_gives_up_example :
    let c =
      consume_events client fine service 0 (outage 3 ++ read (got intake_message) ∷ outage 11) in
    (c.running ≡ leb (tally is_connection_error (outage 11)) max_connection_errors)
    × (c.consumer_healthy ≡ c.running)
consume_events_gives_up_example =
    consume_events_gives_up client fine service 0 (outage 3) intake_message (outage 11) (λ e. cc)
      refl refl
      (consume_events_tolerates client fine service 0 (outage 3) (λ e. cc) refl refl (omega arith))
      refl refl

abbrev intake_fields : Fields
intake_fields =
    field "plant_source_id" (str "550e8400-e29b-41d4-a716-446655440000")
      (field "event_type" (str "power_reading") end)

abbrev deps : Deps ℕ
deps = record {
  unmarshal = λ msg. if valid msg then ok intake_fields else err (new "invalid character");
  remarshal = λ _. ok braces;
  unmarshal_event_data = λ _. err (new "not event data");
  validate = λ _. nil;
  parse_uuid = λ _. ok 5;
  uuid_string = λ _. "550e8400-e29b-41d4-a716-446655440000";
  sha256 = λ msg. msg;
  new_sha1 = λ _. 9;
  now = λ w. (17, w);
  exists = λ _ w. ((nil, true), w);
  save_event = λ _ _ w. (nil, suc w);
  save_event_async = λ _ _ w. (nil, suc w);
  upsert = λ _ w. (nil, w);
  evaluate_event = λ _ _ _ _ _ w. w;
  send_uuid_error = λ _ _ _ w. w;
  send_validation_error = λ _ _ _ w. w;
}

abbrev config : Config
config = record {
  use_async_write = false;
  has_alert_evaluator = true;
  has_plant_status_repository = true;
}

handle_message-Accounts_example : Accounts deps config (handle_message deps config braces 0)
handle_message-Accounts_example = handle_message-Accounts deps config braces 0

rejects : RejectsInvalid client deps valid
rejects = record {
  marshal_rejects = λ d bad. ground arith;
  unmarshal_rejects = λ msg bad. (new "invalid character", ground arith);
}

invalid_json_lost_example :
    (e : Error) × (handle_with_retry client (handler deps config) "c0ffee" "intake" garbled 0
      ≡ record {
        success = true;
        world = 0;
        calls = handled (permanent_error "invalid JSON" e) ∷ marshal_failed ∷ [];
      })
invalid_json_lost_example =
    invalid_json_lost client deps config valid "c0ffee" "intake" garbled 0 rejects refl
