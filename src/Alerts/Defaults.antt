-- ===== src/Alerts/Defaults.antt =====
-- What the fallback rules of alert_evaluation_service.go do.
use energy_plant_monitoring.Base.{String, true, ◌≡◌, refl, [], ◌∷◌, some, arith, if◌then◌else◌}
use energy_plant_monitoring.Json.{Fields, num, Float64, lookup, float_lt}
use energy_plant_monitoring.Json.Order.{float_lt_trans}
use energy_plant_monitoring.Alerts.{
  Lib, evaluate_condition, evaluate_event, trigger_alert, default_alert_rules, rule_applies,
  high_temperature, critical_temperature, fifty, eighty, get_field_value, to_float64,
}

fifty_lt_eighty : float_lt fifty eighty ≡ true
unfolding float_lt
fifty_lt_eighty = refl

module _ (lib : Lib) where
  -- With the fallback rules, an event of type "temperature" whose key "temperature" is a number
  -- raises no alert up to 50 degrees, the warning above 50, and the warning followed by the critical
  -- alert above 80; NaN raises none.
  default_temperature_alerts :
      (plant_name : String) (fields : Fields) (f : Float64)
      → lookup "temperature" fields ≡ some (num f)
      → evaluate_event lib default_alert_rules "temperature" plant_name fields ≡ (
          if float_lt eighty f
          then trigger_alert lib high_temperature plant_name "temperature"
            ∷ trigger_alert lib critical_temperature plant_name "temperature"
            ∷ []
          else if float_lt fifty f
          then trigger_alert lib high_temperature plant_name "temperature" ∷ []
          else [])
  unfolding evaluate_event default_alert_rules rule_applies evaluate_condition get_field_value
      to_float64
  default_temperature_alerts plant_name fields f e =
      ground (arith, float_lt_trans fifty eighty f fifty_lt_eighty)
