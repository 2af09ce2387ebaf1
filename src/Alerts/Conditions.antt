-- ===== src/Alerts/Conditions.antt =====
-- The conditions of alert rules (evaluateCondition of alert_evaluation_service.go).
use energy_plant_monitoring.Base.{false, not, ◌≡◌, arith}
use energy_plant_monitoring.Json.{Fields, num, Float64, is_nan}
use energy_plant_monitoring.Json.Order.{float_le-eq-not_lt}
use energy_plant_monitoring.Entities.{AlertRule}
use energy_plant_monitoring.Alerts.{
  Lib, evaluate_condition, evaluate_value, get_field_value, to_float64, compare_by,
}

module _ (lib : Lib) (rule : AlertRule) (fields : Fields) where
  -- Where the field is a number and neither it nor the threshold is NaN, exactly one of "gt" and
  -- "lte" is met, and exactly one of "gte" and "lt".
  evaluate_condition_opposites :
      (f : Float64)
      → get_field_value lib fields rule.field_path ≡ num f
      → is_nan f ≡ false
      → is_nan rule.threshold ≡ false
      → (evaluate_condition lib (record rule { condition = "gt" }) fields
          ≡ not (evaluate_condition lib (record rule { condition = "lte" }) fields))
        × (evaluate_condition lib (record rule { condition = "gte" }) fields
            ≡ not (evaluate_condition lib (record rule { condition = "lt" }) fields))
  unfolding evaluate_condition evaluate_value compare_by to_float64
  evaluate_condition_opposites f e h k =
      ground (arith, e, float_le-eq-not_lt f rule.threshold, float_le-eq-not_lt rule.threshold f)
