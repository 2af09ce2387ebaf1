-- ===== src/Repositories/Models/RoundTrips.antt =====
-- Entities through their rows and back (models.go).
use energy_plant_monitoring.Base.{◌≡◌, refl, arith, if◌then◌else◌, eq_iff}
use energy_plant_monitoring.Entities.{
  EventOperational, EventAnalytical, PlantCurrentStatus, AlertRule,
}
use energy_plant_monitoring.Repositories.Models.{
  is_zero, to_alert_rule_model, to_alert_rule_from_model, to_event_operational_model,
  to_event_operational_entity, to_event_analytical_model, to_event_analytical_entity,
  to_plant_current_status_entity, to_plant_current_status_model,
}

-- A rule that is stored and loaded is the same rule, with an absent threshold read as 0 and an
-- absent text as the empty one; only a threshold of -0 comes back as 0.
alert_rule_round_trip :
    (r : AlertRule)
    → to_alert_rule_from_model (to_alert_rule_model r)
      ≡ record r { threshold = if is_zero r.threshold then 0 else r.threshold }
unfolding to_alert_rule_model to_alert_rule_from_model
alert_rule_round_trip r = ground (arith, eq_iff r.threshold_str "")

-- No field is lost or swapped on the way of an event, of either kind, or of a plant's status into
-- its row and back.
rows_round_trip :
    (op : EventOperational) (an : EventAnalytical) (status : PlantCurrentStatus)
    → (to_event_operational_entity (to_event_operational_model op) ≡ op)
      × (to_event_analytical_entity (to_event_analytical_model an) ≡ an)
      × (to_plant_current_status_entity (to_plant_current_status_model status) ≡ status)
unfolding to_event_operational_entity to_event_operational_model to_event_analytical_entity
    to_event_analytical_model to_plant_current_status_entity to_plant_current_status_model
rows_round_trip op an status = (refl, refl, refl)
