-- ===== src/Ingestion/Deps.antt =====
-- What NewEventIngestionService is given.
use energy_plant_monitoring.Base.{String, Bool}
use energy_plant_monitoring.Errors.{Error, Result}
use energy_plant_monitoring.Json.{Fields}
use energy_plant_monitoring.Entities.{
  Uuid, Time, RawMessage, EventOperational, EventAnalytical, PlantCurrentStatus, EventData,
}

-- What the service is built on: the decoder and the validator, the UUID and hash packages, the
-- clock, and the writer, repositories and services that the container injects. Of the values that
-- `Exists` returns the Boolean is read only if the error is nil.
pub record Deps (W : Type 0) : Type 0 where
  pub unmarshal : RawMessage → Result Fields
  pub remarshal : Fields → Result RawMessage
  pub unmarshal_event_data : RawMessage → Result EventData
  pub validate : EventData → Error
  pub parse_uuid : String → Result Uuid
  pub uuid_string : Uuid → String
  pub sha256 : RawMessage → RawMessage
  pub new_sha1 : RawMessage → Uuid
  pub now : W → Time × W
  pub exists : Uuid → W → (Error × Bool) × W
  pub save_event : EventOperational → EventAnalytical → W → Error × W
  pub save_event_async : EventOperational → EventAnalytical → W → Error × W
  pub upsert : PlantCurrentStatus → W → Error × W
  pub evaluate_event : String → String → String → String → Fields → W → W
  pub send_uuid_error : String → String → String → W → W
  pub send_validation_error : String → String → String → W → W

-- the fields of the service that are not interfaces to call, and whether the optional ones are set
pub record Config : Type 0 where
  pub use_async_write : Bool
  pub has_alert_evaluator : Bool
  pub has_plant_status_repository : Bool
