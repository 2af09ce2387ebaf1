-- ===== src/Ingestion/Store.antt =====
-- deterministicID, buildEventEntities, persistEvents and updatePlantStatus of
-- internal/domain/services/event_ingestion_service.go.
use energy_plant_monitoring.Base.{String, Option, none, some, [], if◌then◌else◌, str_eq}
use energy_plant_monitoring.Errors.{Error, nil, Result, ok, err, new_transient_error}
use energy_plant_monitoring.Json.{Fields, string_field}
use energy_plant_monitoring.Entities.{
  Uuid, RawMessage, EventOperational, EventAnalytical, PlantCurrentStatus,
}
use energy_plant_monitoring.Ingestion.Monad.{
  events_ingested_inc, status_updates_inc, saved, saved_async, upserted, M, ◌>>=◌, ◌>>◌, pure, fail,
  call, ask, count,
}
use energy_plant_monitoring.Ingestion.Deps.{Deps, Config}

module _ {W : Type 0} (deps : Deps W) where
  open deps use {
    unmarshal, remarshal, unmarshal_event_data, validate, parse_uuid, uuid_string, sha256, new_sha1,
    now, exists, save_event, save_event_async, upsert, evaluate_event, send_uuid_error,
    send_validation_error,
  }

  -- a UUID v5 of the SHA-256 of the payload
  unfoldable deterministic_id : RawMessage → Uuid
  deterministic_id payload = new_sha1 (sha256 payload)

  -- the id of the message if it parses, and otherwise the deterministic one
  parsed_or : RawMessage → Result Uuid → Uuid
  unfolding deterministic_id
  parsed_or payload (ok id) = id
  parsed_or payload (err _) = deterministic_id payload

  id_of : RawMessage → Option String → Uuid
  unfolding parsed_or
  id_of payload none = deterministic_id payload
  id_of payload (some text) = parsed_or payload (parse_uuid text)

  unfoldable pub event_id : RawMessage → Fields → Uuid
  unfolding id_of
  event_id payload fields = id_of payload (string_field "id" fields)

  unfoldable pub build_event_entities :
      RawMessage → Fields → Uuid → String → String → M W (EventOperational × EventAnalytical)
  unfolding event_id
  build_event_entities payload fields plant_source_id event_type source = do
    at ← ask now
    pure (
      record {
        id = event_id payload fields;
        event_type = event_type;
        plant_source_id = plant_source_id;
        source = source;
        payload = payload;
        metadata = [];
        created_at = at;
      },
      record {
        created_at = at;
        id = event_id payload fields;
        event_type = event_type;
        plant_source_id = plant_source_id;
        source = source;
        payload = payload;
        metadata = [];
      },
    )

  save_answer : String → EventOperational → Error → M W (Unit {0})
  save_answer reason op nil = pure tt
  save_answer reason op e = do
    count (events_ingested_inc op.event_type (uuid_string op.plant_source_id) "failed")
    fail (new_transient_error reason e)

  unfoldable pub persist_events : Config → EventOperational → EventAnalytical → M W (Unit {0})
  unfolding save_answer
  persist_events config op an =
      if config.use_async_write
      then (do
        e ← call (save_event_async op an) (saved_async op an)
        save_answer "async save failed" op e)
      else (do e ← call (save_event op an) (saved op an); save_answer "sync save failed" op e)

  -- a `current_status` that is no text or empty counts as active
  status_or_active : Option String → String
  status_or_active none = "ACTIVE"
  status_or_active (some status) = if str_eq status "" then "ACTIVE" else status

  upsert_answer : PlantCurrentStatus → Error → M W (Unit {0})
  upsert_answer status nil =
      count (status_updates_inc (uuid_string status.plant_id) status.current_status)
  upsert_answer status e = pure tt

  -- best effort: a failed update does not fail the event
  unfoldable pub update_plant_status : Config → Uuid → String → RawMessage → Fields → M W (Unit {0})
  unfolding status_or_active upsert_answer
  update_plant_status config plant_source_id event_type payload fields =
      if config.has_plant_status_repository
      then (do
        event_at ← ask now
        updated_at ← ask now
        let status : PlantCurrentStatus = record {
          plant_id = plant_source_id;
          last_event_data = payload;
          current_status = status_or_active (string_field "current_status" fields);
          last_event_type = event_type;
          last_event_at = event_at;
          updated_at = updated_at;
        }
        e ← call (upsert status) (upserted status)
        upsert_answer status e)
      else pure tt
