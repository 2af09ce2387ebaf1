-- ===== src/Rest/Examples.antt =====
-- internal/infrastructure/adapters/rest/handlers.go: the five handlers of examples, over the
-- repository. A body is given as `ShouldBindJSON` binds it.
pub mod Clients
pub mod Replay
use energy_plant_monitoring.Base.{ℕ, String, Bool, Option, none, some, List, if◌then◌else◌, str_eq}
use energy_plant_monitoring.Errors.{
  Error, is_nil, message, Result, ok, err, Lookup, found, not_found, failed,
}
use energy_plant_monitoring.Entities.{Uuid}
use energy_plant_monitoring.Repositories.Examples.{
  ExampleEntity, Gorm, find_by_id, find_all, create, update, delete,
}
use energy_plant_monitoring.Rest.Response.{Response, json, failure, listed, looked_up}

pub record CreateExampleRequest : Type 0 where
  pub name : String
  pub description : String

pub record UpdateExampleRequest : Type 0 where
  pub name : String
  pub description : String

-- `&entities.ExampleEntity{Name: ..., Description: ...}`, with the other fields at zero
new_entity : CreateExampleRequest → ExampleEntity
new_entity req = record {
  id = 0;
  name = req.name;
  description = req.description;
  created_at = 0;
  updated_at = 0;
}

-- a text that is not empty replaces the old one
abbrev pub replaced : String → String → String
replaced new old = if str_eq new "" then old else new

unfoldable pub merged : UpdateExampleRequest → ExampleEntity → ExampleEntity
merged req existing = record existing {
  name = replaced req.name existing.name;
  description = replaced req.description existing.description;
}

stored : ℕ → Result ExampleEntity → Response ExampleEntity
stored status (ok entity) = json status entity
stored status (err _) = failure 500 "internal server error"

deleted : Error → Response (Unit {0})
deleted e = if is_nil e then json 204 tt else failure 500 "internal server error"

module _ {W : Type 0} (parse_uuid : String → Option Uuid) (db : Gorm W) where
  unfoldable list_examples : W → Response (List ExampleEntity) × W
  unfolding find_all
  list_examples w = let (examples, w') = find_all db w in (listed examples, w')

  unfoldable pub get_example : String → W → Response ExampleEntity × W
  get_example id_str w = elim (parse_uuid id_str) [
    | none ↦ (failure 400 "invalid id format", w)
    | some id ↦
        let (example, w') = find_by_id db id w in (looked_up "example not found" example, w')
  ]

  unfoldable pub create_example : Result CreateExampleRequest → W → Response ExampleEntity × W
  unfolding new_entity stored
  create_example (err e) w = (failure 400 (message e), w)
  create_example (ok req) w =
      let (created, w') = create db (new_entity req) w in (stored 201 created, w')

  save_merged : Result UpdateExampleRequest → ExampleEntity → W → Response ExampleEntity × W
  unfolding merged stored
  save_merged (err e) existing w = (failure 400 (message e), w)
  save_merged (ok req) existing w =
      let (updated, w') = update db (merged req existing) w in (stored 200 updated, w')

  existing_answer :
      Result UpdateExampleRequest → Lookup ExampleEntity → W → Response ExampleEntity × W
  unfolding save_merged
  existing_answer body (found existing) w = save_merged body existing w
  existing_answer body not_found w = (failure 404 "example not found", w)
  existing_answer body (failed _) w = (failure 500 "internal error", w)

  unfoldable pub update_example :
      String → Result UpdateExampleRequest → W → Response ExampleEntity × W
  unfolding existing_answer
  update_example id_str body w = elim (parse_uuid id_str) [
    | none ↦ (failure 400 "invalid id format", w)
    | some id ↦ let (existing, w') = find_by_id db id w in existing_answer body existing w'
  ]

  unfoldable pub delete_example : String → W → Response (Unit {0}) × W
  unfolding deleted
  delete_example id_str w = elim (parse_uuid id_str) [
    | none ↦ (failure 400 "invalid id format", w)
    | some id ↦ let (e, w') = delete db id w in (deleted e, w')
  ]
