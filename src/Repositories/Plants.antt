-- ===== src/Repositories/Plants.antt =====
-- Exists of energy_plant_repo.go with its cache, and plant_status_repo.go on the table of statuses, on a database that answers. What it answers to the
-- query of Exists is given, an error included.
pub mod Cached
pub mod Statuses
use energy_plant_monitoring.Base.{
  ℕ, String, Bool, true, false, Option, none, some, List, [], ◌∷◌, ◌==◌, ltb, keep, if◌then◌else◌,
  str_eq, map, sort_desc,
}
use energy_plant_monitoring.Errors.{Error, Result, ok, err}
use energy_plant_monitoring.Entities.{Uuid, PlantCurrentStatus}
use energy_plant_monitoring.Repositories.Models.{
  PlantCurrentStatusModel, to_plant_current_status_model, to_plant_current_status_entity,
}

-- the cache of hashicorp/golang-lru: `get` also marks the entry as used
pub record Lru (C : Type 0) : Type 0 where
  pub get : Uuid → C → Option Bool × C
  pub add : Uuid → Bool → C → C

module _ {C : Type 0} (lru : Lru C) where
  -- the answer to the `COUNT` is stored where there is a cache
  counted_answer : Uuid → Result ℕ → Option C → Result Bool × Option C
  counted_answer id (err e) cache = (err e, cache)
  counted_answer id (ok count) none = (ok (ltb 0 count), none)
  counted_answer id (ok count) (some c) = (ok (ltb 0 count), some (lru.add id (ltb 0 count) c))

  cached_answer : Uuid → Result ℕ → Option Bool × C → Result Bool × Option C
  unfolding counted_answer
  cached_answer id count (none, c) = counted_answer id count (some c)
  cached_answer id count (some found, c) = (ok found, some c)

  -- the second argument is what the database answers if it is asked
  unfoldable pub exists : Uuid → Result ℕ → Option C → Result Bool × Option C
  unfolding cached_answer
  exists id count none = counted_answer id count none
  exists id count (some c) = cached_answer id count (lru.get id c)

-- `INSERT ... ON CONFLICT (plant_id) DO UPDATE` of every other column
abbrev upsert_row :
    PlantCurrentStatusModel → List PlantCurrentStatusModel → List PlantCurrentStatusModel
upsert_row m [] = m ∷ []
upsert_row m (r ∷ rows) =
    let rest = upsert_row m rows in
    if r.plant_id == m.plant_id
    then record r {
      last_event_data = m.last_event_data;
      current_status = m.current_status;
      last_event_type = m.last_event_type;
      last_event_at = m.last_event_at;
      updated_at = m.updated_at;
    }
      ∷ rows
    else r ∷ rest

unfoldable pub upsert :
    PlantCurrentStatus → List PlantCurrentStatusModel → List PlantCurrentStatusModel
unfolding to_plant_current_status_model
upsert status rows = upsert_row (to_plant_current_status_model status) rows

-- no row gives a nil status and no error
unfoldable pub get_by_plant_id : Uuid → List PlantCurrentStatusModel → Option PlantCurrentStatus
unfolding to_plant_current_status_entity
get_by_plant_id id [] = none
get_by_plant_id id (r ∷ rows) =
    let rest = get_by_plant_id id rows in
    if r.plant_id == id then some (to_plant_current_status_entity r) else rest

-- `ORDER BY updated_at DESC`
unfoldable pub get_all : List PlantCurrentStatusModel → List PlantCurrentStatus
unfolding to_plant_current_status_entity
get_all rows = map to_plant_current_status_entity (sort_desc (λ r. r.updated_at) rows)

unfoldable pub get_by_status : String → List PlantCurrentStatusModel → List PlantCurrentStatus
unfolding to_plant_current_status_entity
get_by_status status rows =
    map to_plant_current_status_entity
      (sort_desc (λ r. r.updated_at) (keep (λ r. str_eq r.current_status status) rows))
