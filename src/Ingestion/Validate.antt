-- ===== src/Ingestion/Validate.antt =====
-- extractAndValidatePlantInfo, validatePlantExists and validateEventData of
-- internal/domain/services/event_ingestion_service.go.
use Prim.Native.String.{◌++◌}
use energy_plant_monitoring.Base.{String, Bool, true, false, Option, none, some}
use energy_plant_monitoring.Errors.{
  Error, nil, message, Result, ok, err, new_permanent_error, new_transient_error,
}
use energy_plant_monitoring.Json.{Fields, string_field}
use energy_plant_monitoring.Entities.{Uuid, RawMessage, EventData}
use energy_plant_monitoring.Ingestion.Monad.{
  validation_errors_inc, uuid_error_sent, validation_error_sent, exists_queried, M, ◌>>=◌, ◌>>◌,
  pure, fail, call, perform, count,
}
use energy_plant_monitoring.Ingestion.Deps.{Deps}

abbrev pub or_else {ℓ} : {A : Type ℓ} → Option A → A → A
or_else none d = d
or_else (some a) d = a

module _ {W : Type 0} (deps : Deps W) where
  open deps use {
    unmarshal, remarshal, unmarshal_event_data, validate, parse_uuid, uuid_string, sha256, new_sha1,
    now, exists, save_event, save_event_async, upsert, evaluate_event, send_uuid_error,
    send_validation_error,
  }

  -- the notifier's calls, whose result the service ignores
  uuid_error : String → String → String → M W (Unit {0})
  uuid_error field value detail =
      perform (send_uuid_error field value detail) (uuid_error_sent field value detail)

  validation_error : String → String → String → M W (Unit {0})
  validation_error field value detail =
      perform (send_validation_error field value detail) (validation_error_sent field value detail)

  unfoldable pub parse_plant_id :
      String → String → String → Result Uuid → M W (Uuid × String × String)
  unfolding uuid_error
  parse_plant_id text event_type source (ok id) = pure (id, event_type, source)
  parse_plant_id text event_type source (err e) = do
    count (validation_errors_inc "invalid_uuid")
    uuid_error "plant_source_id" text (
        "Error al parsear UUID: "
        ++ (message e ++ (". EventType: " ++ (event_type ++ (", PlantName: " ++ source)))))
    fail (new_permanent_error "invalid plant_source_id format" e)

  plant_id_of : Option String → String → String → M W (Uuid × String × String)
  unfolding parse_plant_id validation_error
  plant_id_of (some text) event_type source =
      parse_plant_id text event_type source (parse_uuid text)
  plant_id_of none event_type source = do
    count (validation_errors_inc "missing_plant_id")
    validation_error "plant_source_id" "missing field" (
        "The plant_source_id field is not present in the message. EventType: "
        ++ (event_type ++ (", PlantName: " ++ source)))
    fail (new_permanent_error "missing plant_source_id field" nil)

  unfoldable pub extract_and_validate_plant_info : Fields → M W (Uuid × String × String)
  unfolding plant_id_of
  extract_and_validate_plant_info fields =
      plant_id_of (string_field "plant_source_id" fields)
        (or_else (string_field "event_type" fields) "unknown")
        (or_else (string_field "plant_name" fields) "kafka-intake")

  plant_answer : Uuid → Error × Bool → M W (Unit {0})
  unfolding validation_error
  plant_answer id (nil, true) = pure tt
  plant_answer id (nil, false) = do
    count (validation_errors_inc "plant_not_found")
    validation_error "plant_source_id" (uuid_string id)
        ("La planta con ID " ++ (uuid_string id ++ " no existe en la base de datos"))
    fail (new_transient_error ("plant_source_id=" ++ (uuid_string id ++ " does not exist")) nil)
  plant_answer id (e, found) = do
    count (validation_errors_inc "db_error")
    fail (new_transient_error "database error checking plant existence" e)

  unfoldable pub validate_plant_exists : Uuid → M W (Unit {0})
  unfolding plant_answer
  validate_plant_exists id = do
    answer ← call (exists id) (λ _. exists_queried id)
    plant_answer id answer

  data_answer : String → Error → M W (Unit {0})
  unfolding validation_error
  data_answer event_type nil = pure tt
  data_answer event_type e = do
    count (validation_errors_inc "validation_failed")
    validation_error "event_data" "validation failed"
        ("Validation error for event type " ++ (event_type ++ (": " ++ message e)))
    fail (new_permanent_error "event data validation failed" e)

  -- data that does not marshal again, or not into an `EventData`, is let through
  decoded_answer : String → Result EventData → M W (Unit {0})
  unfolding data_answer
  decoded_answer event_type (err _) = pure tt
  decoded_answer event_type (ok event_data) = data_answer event_type (validate event_data)

  marshalled_answer : String → Result RawMessage → M W (Unit {0})
  unfolding decoded_answer
  marshalled_answer event_type (err _) = pure tt
  marshalled_answer event_type (ok raw) = decoded_answer event_type (unmarshal_event_data raw)

  unfoldable pub validate_event_data : Fields → String → M W (Unit {0})
  unfolding marshalled_answer
  validate_event_data fields event_type = marshalled_answer event_type (remarshal fields)
