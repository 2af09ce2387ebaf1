-- ===== src/Alerts.antt =====
-- internal/domain/services/alert_evaluation_service.go: the rules that raise an alert for an event.
-- Notifications are the arguments of the calls of the notifier, in order; log lines are not
-- modelled.
pub mod Defaults
pub mod Conditions
pub mod Reload
use Prim.Native.String.{◌++◌}
use text.Mathlib.Text.{find?}
use energy_plant_monitoring.Base.{
  ℕ, String, Bool, true, false, not, ◌&&◌, ◌||◌, Option, none, some, List, [], ◌∷◌, if◌then◌else◌,
  str_eq,
}
use energy_plant_monitoring.Errors.{Result, ok, err}
use energy_plant_monitoring.Json.{
  Value, Fields, null, num, str, Float64, lookup, float_lt, float_le,
}
use energy_plant_monitoring.Entities.{AlertRule}

-- encoding/json and gjson, and the parts of fmt that the rules use. `gjson_get` is `none` where the
-- path does not exist; `sscanf_float` reads a float64 and says whether it could.
pub record Lib : Type 0 where
  pub marshal : Fields → Option (List ℕ)
  pub gjson_get : List ℕ → String → Option Value
  pub sscanf_float : String → Float64 × Bool
  pub format_value : Value → String

-- the arguments of `SendErrorNotification`
pub record Notification : Type 0 where
  pub error_type : String
  pub message : String
  pub context : String

abbrev is_some {ℓ} : {A : Type ℓ} → Option A → Bool
is_some none = false
is_some (some _) = true

-- `strings.Contains`
abbrev pub contains : String → String → Bool
contains text part = is_some (find? text part)

unfoldable pub contains_string : Value → String → Bool
contains_string (str s) part = contains s part
contains_string _ part = false

module _ (lib : Lib) where
  -- of the dynamic types of decoded JSON only float64 and string convert
  unfoldable pub to_float64 : Value → Float64 × Bool
  to_float64 (num f) = (f, true)
  to_float64 (str s) = lib.sscanf_float s
  to_float64 _ = (0, false)

  by_path : String → Option (List ℕ) → Value
  by_path path none = null
  by_path path (some bytes) = elim (lib.gjson_get bytes path) [ none ↦ null | some v ↦ v ]

  found_or : Value → Option Value → Value
  found_or v none = v
  found_or v (some w) = w

  -- a key of the event itself comes before the path
  unfoldable pub get_field_value : Fields → String → Value
  unfolding by_path found_or
  get_field_value fields path = found_or (by_path path (lib.marshal fields)) (lookup path fields)

  -- the `switch`; any other condition is never met
  compare_by : AlertRule → Value → Float64 → Bool
  compare_by rule value f =
      if str_eq rule.condition "gt"
      then float_lt rule.threshold f
      else if str_eq rule.condition "gte"
      then float_le rule.threshold f
      else if str_eq rule.condition "lt"
      then float_lt f rule.threshold
      else if str_eq rule.condition "lte"
      then float_le f rule.threshold
      else if str_eq rule.condition "eq"
      then str_eq (lib.format_value value) (lib.format_value (num rule.threshold))
      else if str_eq rule.condition "contains"
      then contains_string value rule.threshold_str
      else false

  is_null : Value → Bool
  is_null null = true
  is_null _ = false

  evaluate_value : AlertRule → Value → Bool
  unfolding compare_by is_null
  evaluate_value rule value =
      let (f, converts) = to_float64 value in
      if is_null value
      then false
      else if not converts
          && (not (str_eq rule.condition "contains") && not (str_eq rule.condition "eq"))
      then false
      else compare_by rule value f

  unfoldable pub evaluate_condition : AlertRule → Fields → Bool
  unfolding evaluate_value
  evaluate_condition rule fields = evaluate_value rule (get_field_value fields rule.field_path)

  unfoldable pub rule_applies : AlertRule → String → Bool
  rule_applies rule event_type = str_eq rule.event_type "*" || str_eq rule.event_type event_type

  -- the message of `triggerAlert`
  alert_message : AlertRule → String → String → String
  alert_message rule plant_name event_type =
      "🚨 ALERTA ["
      ++ (rule.severity
          ++ ("] "
              ++ (rule.notification_msg
                  ++ ("\n🏭 Planta: "
                      ++ (plant_name
                          ++ ("\n📊 Evento: "
                              ++ (event_type ++ ("\n📋 Severidad: " ++ rule.severity))))))))

  unfoldable pub trigger_alert : AlertRule → String → String → Notification
  unfolding alert_message
  trigger_alert rule plant_name event_type = record {
    error_type = rule.severity;
    message = rule.notification_msg;
    context = alert_message rule plant_name event_type;
  }

  -- the notifications of `EvaluateEvent`, where a notifier is set
  unfoldable pub evaluate_event : List AlertRule → String → String → Fields → List Notification
  evaluate_event [] event_type plant_name fields = []
  evaluate_event (rule ∷ rules) event_type plant_name fields =
      let rest = evaluate_event rules event_type plant_name fields in
      if rule_applies rule event_type && evaluate_condition rule fields
      then trigger_alert rule plant_name event_type ∷ rest
      else rest

-- the patterns of 50, 80, 100 and 0
abbrev pub fifty : Float64
fifty = 0x4049000000000000

abbrev pub eighty : Float64
eighty = 0x4054000000000000

abbrev hundred : Float64
hundred = 0x4059000000000000

abbrev pub high_temperature : AlertRule
high_temperature = record {
  name = "high_temperature";
  event_type = "temperature";
  condition = "gt";
  field_path = "temperature";
  threshold = fifty;
  threshold_str = "";
  severity = "warning";
  notification_msg = "Temperatura muy alta detectada";
}

abbrev pub critical_temperature : AlertRule
critical_temperature = record {
  name = "critical_temperature";
  event_type = "temperature";
  condition = "gt";
  field_path = "temperature";
  threshold = eighty;
  threshold_str = "";
  severity = "critical";
  notification_msg = "¡Temperatura crítica! Intervención inmediata requerida";
}

abbrev pressure_critical : AlertRule
pressure_critical = record {
  name = "pressure_critical";
  event_type = "pressure";
  condition = "gt";
  field_path = "pressure";
  threshold = hundred;
  threshold_str = "";
  severity = "critical";
  notification_msg = "Presión crítica detectada";
}

abbrev power_loss : AlertRule
power_loss = record {
  name = "power_loss";
  event_type = "status";
  condition = "eq";
  field_path = "status";
  threshold = 0;
  threshold_str = "";
  severity = "critical";
  notification_msg = "Pérdida de energía en planta";
}

unfoldable pub default_alert_rules : List AlertRule
default_alert_rules = high_temperature ∷ critical_temperature ∷ pressure_critical ∷ power_loss ∷ []

-- `FindActive` on start: the defaults where the database does not answer
unfoldable pub initial_rules : Result (List AlertRule) → List AlertRule
initial_rules (ok rules) = rules
initial_rules (err _) = default_alert_rules

-- what a tick of the hot reload leaves of the rules
unfoldable pub reload : List AlertRule → Result (List AlertRule) → List AlertRule
reload rules (ok fresh) = fresh
reload rules (err _) = rules
