-- ===== src/Repositories/Models.antt =====
-- models.go: the rows of the tables and the mappers. The columns that the mappers leave to the
-- database are at their zero values: the nil UUID is 0 and the zero time is none.
pub mod RoundTrips
pub mod Master
use energy_plant_monitoring.Base.{
  ℕ, String, Bool, true, Option, none, some, ◌==◌, if◌then◌else◌, str_eq,
}
use energy_plant_monitoring.Json.{Float64, magnitude}
use energy_plant_monitoring.Entities.{
  Uuid, Time, RawMessage, EventOperational, EventAnalytical, PlantCurrentStatus, AlertRule,
}

pub record AlertRuleModel : Type 0 where
  pub id : Uuid
  pub name : String
  pub event_type : String
  pub condition : String
  pub field_path : String
  pub threshold : Option Float64
  pub threshold_str : Option String
  pub severity : String
  pub notification_msg : String
  pub active : Bool
  pub created_at : Option Time
  pub updated_at : Option Time

pub record EventOperationalModel : Type 0 where
  pub id : Uuid
  pub event_type : String
  pub plant_source_id : Uuid
  pub source : String
  pub payload : RawMessage
  pub metadata : RawMessage
  pub created_at : Time

pub record EventAnalyticalModel : Type 0 where
  pub created_at : Time
  pub id : Uuid
  pub event_type : String
  pub plant_source_id : Uuid
  pub source : String
  pub payload : RawMessage
  pub metadata : RawMessage

pub record PlantCurrentStatusModel : Type 0 where
  pub plant_id : Uuid
  pub last_event_data : RawMessage
  pub current_status : String
  pub last_event_type : String
  pub last_event_at : Time
  pub updated_at : Time

-- the test `!= 0` takes both zeros for zero
unfoldable pub is_zero : Float64 → Bool
unfolding magnitude
is_zero a = magnitude a == 0

unfoldable pub to_alert_rule_model : AlertRule → AlertRuleModel
unfolding is_zero
to_alert_rule_model r = record {
  id = 0;
  name = r.name;
  event_type = r.event_type;
  condition = r.condition;
  field_path = r.field_path;
  threshold = if is_zero r.threshold then none else some r.threshold;
  threshold_str = if str_eq r.threshold_str "" then none else some r.threshold_str;
  severity = r.severity;
  notification_msg = r.notification_msg;
  active = true;
  created_at = none;
  updated_at = none;
}

abbrev or_zero : Option Float64 → Float64
or_zero none = 0
or_zero (some f) = f

abbrev or_empty : Option String → String
or_empty none = ""
or_empty (some s) = s

unfoldable pub to_alert_rule_from_model : AlertRuleModel → AlertRule
to_alert_rule_from_model m = record {
  name = m.name;
  event_type = m.event_type;
  condition = m.condition;
  field_path = m.field_path;
  threshold = or_zero m.threshold;
  threshold_str = or_empty m.threshold_str;
  severity = m.severity;
  notification_msg = m.notification_msg;
}

unfoldable pub to_event_operational_model : EventOperational → EventOperationalModel
to_event_operational_model e = record {
  id = e.id;
  event_type = e.event_type;
  plant_source_id = e.plant_source_id;
  source = e.source;
  payload = e.payload;
  metadata = e.metadata;
  created_at = e.created_at;
}

unfoldable pub to_event_operational_entity : EventOperationalModel → EventOperational
to_event_operational_entity m = record {
  id = m.id;
  event_type = m.event_type;
  plant_source_id = m.plant_source_id;
  source = m.source;
  payload = m.payload;
  metadata = m.metadata;
  created_at = m.created_at;
}

unfoldable pub to_event_analytical_model : EventAnalytical → EventAnalyticalModel
to_event_analytical_model e = record {
  created_at = e.created_at;
  id = e.id;
  event_type = e.event_type;
  plant_source_id = e.plant_source_id;
  source = e.source;
  payload = e.payload;
  metadata = e.metadata;
}

unfoldable pub to_event_analytical_entity : EventAnalyticalModel → EventAnalytical
to_event_analytical_entity m = record {
  created_at = m.created_at;
  id = m.id;
  event_type = m.event_type;
  plant_source_id = m.plant_source_id;
  source = m.source;
  payload = m.payload;
  metadata = m.metadata;
}

unfoldable pub to_plant_current_status_entity : PlantCurrentStatusModel → PlantCurrentStatus
to_plant_current_status_entity m = record {
  plant_id = m.plant_id;
  last_event_data = m.last_event_data;
  current_status = m.current_status;
  last_event_type = m.last_event_type;
  last_event_at = m.last_event_at;
  updated_at = m.updated_at;
}

unfoldable pub to_plant_current_status_model : PlantCurrentStatus → PlantCurrentStatusModel
to_plant_current_status_model e = record {
  plant_id = e.plant_id;
  last_event_data = e.last_event_data;
  current_status = e.current_status;
  last_event_type = e.last_event_type;
  last_event_at = e.last_event_at;
  updated_at = e.updated_at;
}
