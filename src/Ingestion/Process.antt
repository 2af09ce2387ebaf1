-- ===== src/Ingestion/Process.antt =====
-- ProcessEvent of internal/domain/services/event_ingestion_service.go and HandleMessage of
-- internal/api/intake_handler.go.
pub mod Accounting
pub mod Malformed
pub mod Stored
use energy_plant_monitoring.Base.{String, Option, none, some, if◌then◌else◌}
use energy_plant_monitoring.Errors.{Error, nil, Result, ok, err, new_permanent_error}
use energy_plant_monitoring.Json.{Fields, is_empty, string_field}
use energy_plant_monitoring.Entities.{Uuid, RawMessage, EventOperational}
use energy_plant_monitoring.Ingestion.Monad.{
  validation_errors_inc, events_ingested_inc, processing_duration_observed, event_evaluated, Run, M,
  ◌>>=◌, ◌>>◌, pure, fail, perform, count,
}
use energy_plant_monitoring.Ingestion.Deps.{Deps, Config}
use energy_plant_monitoring.Ingestion.Validate.{
  or_else, extract_and_validate_plant_info, validate_plant_exists, validate_event_data,
}
use energy_plant_monitoring.Ingestion.Store.{
  build_event_entities, persist_events, update_plant_status,
}

module _ {W : Type 0} (deps : Deps W) (config : Config) where
  evaluate_alerts : EventOperational → String → Uuid → Fields → M W (Unit {0})
  evaluate_alerts op event_type plant_source_id fields =
      let id = deps.uuid_string op.id in
      let plant = deps.uuid_string plant_source_id in
      let plant_name = or_else (string_field "plant_name" fields) "unknown" in
      if config.has_alert_evaluator
      then perform (deps.evaluate_event id event_type plant plant_name fields)
          (event_evaluated id event_type plant plant_name fields)
      else pure tt

  -- what follows the validations
  save_and_report : RawMessage → Fields → Uuid × String × String → M W (Unit {0})
  unfolding evaluate_alerts
  save_and_report payload fields (plant_source_id, event_type, source) = do
    events ← build_event_entities deps payload fields plant_source_id event_type source
    persist_events deps config events.0 events.1
    update_plant_status deps config plant_source_id event_type payload fields
    evaluate_alerts events.0 event_type plant_source_id fields
    count (events_ingested_inc event_type (deps.uuid_string plant_source_id) "success")
    count (processing_duration_observed event_type)

  unfoldable pub process_event : RawMessage → Fields → M W (Unit {0})
  unfolding save_and_report
  process_event payload fields =
      if is_empty fields
      then (do
        count (validation_errors_inc "empty_data")
        fail (new_permanent_error "empty event data" nil))
      else (do
        info ← extract_and_validate_plant_info deps fields
        validate_plant_exists deps info.0
        validate_event_data deps fields info.1
        save_and_report payload fields info)

  decoded : RawMessage → Result Fields → M W (Unit {0})
  unfolding process_event
  decoded payload (ok fields) = process_event payload fields
  decoded payload (err e) = do
    count (validation_errors_inc "invalid_json")
    fail (new_permanent_error "invalid JSON" e)

  unfoldable pub handle_message : RawMessage → M W (Unit {0})
  unfolding decoded
  handle_message payload = decoded payload (deps.unmarshal payload)

  -- the handler as the Kafka service calls it: an error or nil
  abbrev pub error_of : Result (Unit {0}) → Error
  error_of (ok _) = nil
  error_of (err e) = e

  unfoldable pub handler : RawMessage → W → Error × W
  unfolding handle_message
  handler payload w = let r = handle_message payload w in (error_of r.result, r.world)
