-- ===== src/Entities.antt =====
-- internal/domain/entities: the records that the services exchange. A `uuid.UUID` is its 16 bytes
-- read as one number, a `time.Time` a number of nanoseconds, a `json.RawMessage` its bytes.
use energy_plant_monitoring.Base.{ℕ, String, List, Option}
use energy_plant_monitoring.Json.{Float64}

abbrev pub Uuid : Type 0
Uuid = ℕ

abbrev pub Time : Type 0
Time = ℕ

abbrev pub RawMessage : Type 0
RawMessage = List ℕ

pub record EventOperational : Type 0 where
  pub id : Uuid
  pub event_type : String
  pub plant_source_id : Uuid
  pub source : String
  pub payload : RawMessage  -- the field `Data`
  pub metadata : RawMessage
  pub created_at : Time

pub record EventAnalytical : Type 0 where
  pub created_at : Time
  pub id : Uuid
  pub event_type : String
  pub plant_source_id : Uuid
  pub source : String
  pub payload : RawMessage  -- the field `Data`
  pub metadata : RawMessage

pub record PlantCurrentStatus : Type 0 where
  pub plant_id : Uuid
  pub last_event_data : RawMessage
  pub current_status : String
  pub last_event_type : String
  pub last_event_at : Time
  pub updated_at : Time

pub record EventData : Type 0 where
  pub power_generated_mw : Option Float64
  pub power_consumed_mw : Option Float64
  pub efficiency_percent : Option Float64
  pub temperature_celsius : Option Float64

pub record AlertRule : Type 0 where
  pub name : String
  pub event_type : String
  pub condition : String
  pub field_path : String
  pub threshold : Float64
  pub threshold_str : String
  pub severity : String
  pub notification_msg : String
