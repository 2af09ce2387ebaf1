-- ===== src/Rest/Statuses.antt =====
-- internal/infrastructure/adapters/rest/plant_status_handlers.go: the three handlers of plant
-- statuses, over what the repository answers.
pub mod Twin
use energy_plant_monitoring.Base.{String, Option, none, some, List}
use energy_plant_monitoring.Errors.{Result, ok, err}
use energy_plant_monitoring.Entities.{Uuid, PlantCurrentStatus}
use energy_plant_monitoring.Rest.Response.{Response, json, failure, listed}

-- the calls of the repository, as they are answered while the request is handled
pub record StatusRepository : Type 0 where
  pub get_all : Result (List PlantCurrentStatus)
  pub get_by_plant_id : Uuid → Result (Option PlantCurrentStatus)
  pub get_by_status : String → Result (List PlantCurrentStatus)

status_answer : Result (Option PlantCurrentStatus) → Response PlantCurrentStatus
status_answer (err _) = failure 500 "internal server error"
status_answer (ok none) = failure 404 "plant status not found"
status_answer (ok (some status)) = json 200 status

module _ (parse_uuid : String → Option Uuid) (repo : StatusRepository) where
  unfoldable pub list_plant_status : Response (List PlantCurrentStatus)
  list_plant_status = listed repo.get_all

  unfoldable pub get_plant_status : String → Response PlantCurrentStatus
  unfolding status_answer
  get_plant_status id_str = elim (parse_uuid id_str) [
    | none ↦ failure 400 "invalid plant ID format"
    | some id ↦ status_answer (repo.get_by_plant_id id)
  ]

  unfoldable pub list_plant_status_by_status : String → Response (List PlantCurrentStatus)
  list_plant_status_by_status status_filter = listed (repo.get_by_status status_filter)
