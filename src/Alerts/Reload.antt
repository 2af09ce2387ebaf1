-- ===== src/Alerts/Reload.antt =====
-- The rules in force in internal/domain/services/alert_evaluation_service.go: what
-- NewAlertEvaluationService loads and the goroutine of Start reloads until Stop, with FindActive of
-- alert_rules_repo.go.
use energy_plant_monitoring.Base.{
  ◌≡◌, refl, Option, none, some, List, [], ◌∷◌, map, keep, arith, Option-cases, inl, inr,
}
use energy_plant_monitoring.Errors.{Result, ok, err}
use energy_plant_monitoring.Entities.{AlertRule}
use energy_plant_monitoring.Repositories.Models.{AlertRuleModel, to_alert_rule_from_model}
use energy_plant_monitoring.Alerts.{default_alert_rules, initial_rules, reload}

-- what the database answers to the query, on the rows of the table
unfoldable find_active : Result (List AlertRuleModel) → Result (List AlertRule)
unfolding to_alert_rule_from_model
find_active (err e) = err e
find_active (ok rows) = ok (map to_alert_rule_from_model (keep (λ r. r.active) rows))

-- what the `select` takes: the stop channel, or a tick with the answer to its query
pub data Selected : Type 0 where
  stop_received : Selected
  ticked : Result (List AlertRule) → Selected

-- the goroutine of Start
unfoldable hot_reload : List Selected → List AlertRule → List AlertRule
unfolding reload
hot_reload [] rules = rules
hot_reload (stop_received ∷ _) rules = rules
hot_reload (ticked answer ∷ rest) rules = hot_reload rest (reload rules answer)

-- the last answer without error before the stop
abbrev last_loaded : List Selected → Option (List AlertRule)
last_loaded [] = none
last_loaded (stop_received ∷ _) = none
last_loaded (ticked (err _) ∷ rest) = last_loaded rest
last_loaded (ticked (ok fresh) ∷ rest) = elim (last_loaded rest) [
  | none ↦ some fresh
  | some later ↦ some later
]

abbrev pub or_else : Option (List AlertRule) → List AlertRule → List AlertRule
or_else none rules = rules
or_else (some later) rules = later

reload_last :
    (selected : List Selected) (rules : List AlertRule)
    → hot_reload selected rules ≡ or_else (last_loaded selected) rules
unfolding hot_reload
reload_last [] rules = refl
reload_last (stop_received ∷ rest) rules = refl
reload_last (ticked (err e) ∷ rest) rules = reload_last rest rules
reload_last (ticked (ok fresh) ∷ rest) rules = elim (Option-cases (last_loaded rest)) [
  | inl e ↦ ground (arith, reload_last rest fresh)
  | inr (later, e) ↦ ground (arith, reload_last rest fresh)
]

-- The rules in force are those of the last query, at the start or at a tick before the stop, that
-- the database answered, and the fallback rules if it answered none. A failed reload changes nothing.
rules_in_force :
    (first : Result (List AlertRule)) (selected : List Selected)
    → hot_reload selected (initial_rules first)
      ≡ or_else (last_loaded (ticked first ∷ selected)) default_alert_rules
unfolding initial_rules hot_reload
rules_in_force (ok rules) selected = reload_last (ticked (ok rules) ∷ selected) default_alert_rules
rules_in_force (err e) selected = reload_last (ticked (err e) ∷ selected) default_alert_rules
