-- ===== src/Repositories/Models/Master.antt =====
-- The rows and mappers of models.go for energy plants and hourly statistics, with FindByID of
-- energy_plant_repo.go and GetHourlyStats of analytics_worker_repo.go.
use Prim.Native.String.{String}
use energy_plant_monitoring.Base.{ℕ, ◌≡◌, ◌↔◌, Option, none, some, arith}
use energy_plant_monitoring.Errors.{wrapped, Result, ok, err, Lookup, found, not_found, failed}
use energy_plant_monitoring.Json.{Float64}
use energy_plant_monitoring.Entities.{Uuid, Time}

-- entities.EnergyPlants
pub record EnergyPlants : Type 0 where
  pub id : Uuid
  pub plant_name : String
  pub plant_type : String
  pub location : String
  pub latitude : Option Float64
  pub longitude : Option Float64
  pub capacity_mw : Float64
  pub created_at : Time
  pub updated_at : Time
  pub deleted_at : Option Time

pub record EnergyPlantsModel : Type 0 where
  pub id : Uuid
  pub plant_name : String
  pub plant_type : String
  pub location : String
  pub latitude : Option Float64
  pub longitude : Option Float64
  pub capacity_mw : Float64
  pub created_at : Time
  pub updated_at : Time
  pub deleted_at : Option Time

unfoldable to_energy_plants_model : EnergyPlants → EnergyPlantsModel
to_energy_plants_model e = record {
  id = e.id;
  plant_name = e.plant_name;
  plant_type = e.plant_type;
  location = e.location;
  latitude = e.latitude;
  longitude = e.longitude;
  capacity_mw = e.capacity_mw;
  created_at = e.created_at;
  updated_at = e.updated_at;
  deleted_at = none;
}

unfoldable to_energy_plants_entity : EnergyPlantsModel → EnergyPlants
to_energy_plants_entity m = record {
  id = m.id;
  plant_name = m.plant_name;
  plant_type = m.plant_type;
  location = m.location;
  latitude = m.latitude;
  longitude = m.longitude;
  capacity_mw = m.capacity_mw;
  created_at = m.created_at;
  updated_at = m.updated_at;
  deleted_at = none;
}

-- `First` on the table, with `not_found` for gorm.ErrRecordNotFound
unfoldable pub find_by_id : Lookup EnergyPlantsModel → Lookup EnergyPlants
unfolding to_energy_plants_entity
find_by_id (found m) = found (to_energy_plants_entity m)
find_by_id not_found = not_found
find_by_id (failed e) = failed e

-- A plant survives its row exactly if it is not marked as deleted.
plant_round_trip :
    (e : EnergyPlants)
    → (to_energy_plants_entity (to_energy_plants_model e) ≡ e) ↔ (e.deleted_at ≡ none)
unfolding to_energy_plants_entity to_energy_plants_model
plant_round_trip e = ground arith

-- entities.HourlyPlantStats
pub record HourlyPlantStats : Type 0 where
  pub bucket : Time
  pub plant_source_id : Uuid
  pub plant_name : String
  pub plant_type : String
  pub latitude : Option Float64
  pub longitude : Option Float64
  pub avg_power_gen : Option Float64
  pub avg_power_con : Option Float64
  pub avg_efficiency : Option Float64
  pub avg_temp : Option Float64
  pub sample_count : ℕ
  pub last_calculated_at : Time

pub record HourlyPlantStatsModel : Type 0 where
  pub bucket : Time
  pub plant_source_id : Uuid
  pub plant_name : String
  pub plant_type : String
  pub latitude : Option Float64
  pub longitude : Option Float64
  pub avg_power_gen : Option Float64
  pub avg_power_con : Option Float64
  pub avg_efficiency : Option Float64
  pub avg_temp : Option Float64
  pub sample_count : ℕ
  pub last_calculated_at : Time

unfoldable pub to_hourly_plant_stats_entity : HourlyPlantStatsModel → HourlyPlantStats
to_hourly_plant_stats_entity m = record {
  bucket = m.bucket;
  plant_source_id = m.plant_source_id;
  plant_name = m.plant_name;
  plant_type = m.plant_type;
  latitude = m.latitude;
  longitude = m.longitude;
  avg_power_gen = m.avg_power_gen;
  avg_power_con = m.avg_power_con;
  avg_efficiency = m.avg_efficiency;
  avg_temp = m.avg_temp;
  sample_count = m.sample_count;
  last_calculated_at = m.last_calculated_at;
}

-- no row gives nil and no error
unfoldable pub get_hourly_stats : Lookup HourlyPlantStatsModel → Result (Option HourlyPlantStats)
unfolding to_hourly_plant_stats_entity
get_hourly_stats (found m) = ok (some (to_hourly_plant_stats_entity m))
get_hourly_stats not_found = ok none
get_hourly_stats (failed e) = err (wrapped "failed to get hourly stats" e)
