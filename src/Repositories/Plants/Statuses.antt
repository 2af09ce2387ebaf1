-- ===== src/Repositories/Plants/Statuses.antt =====
-- The table of plant statuses (plant_status_repo.go).
use energy_plant_monitoring.Base.{Bool, ◌≡◌, some, List, [], ◌∷◌, ◌==◌, arith, tally, if◌then◌else◌}
use energy_plant_monitoring.Entities.{Uuid, PlantCurrentStatus}
use energy_plant_monitoring.Repositories.Models.{PlantCurrentStatusModel}
use energy_plant_monitoring.Repositories.Plants.{upsert, get_by_plant_id}

abbrev is_of : Uuid → PlantCurrentStatusModel → Bool
is_of id r = r.plant_id == id

-- After a status is written it is the status that is read for its plant, the status of any other
-- plant is as before, and no plant has more rows than before, or more than one where it had none.
pub upsert-get_by_plant_id :
    (status : PlantCurrentStatus) (rows : List PlantCurrentStatusModel) (id : Uuid)
    → (get_by_plant_id id (upsert status rows)
        ≡ (if status.plant_id == id then some status else get_by_plant_id id rows))
      × (tally (is_of id) (upsert status rows) ≡ (
          if status.plant_id == id
          then (if tally (is_of id) rows == 0 then 1 else tally (is_of id) rows)
          else tally (is_of id) rows))
unfolding upsert get_by_plant_id
upsert-get_by_plant_id status [] id = ground arith
upsert-get_by_plant_id status (r ∷ rows) id = ground (arith, upsert-get_by_plant_id status rows id)
