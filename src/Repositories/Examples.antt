-- ===== src/Repositories/Examples.antt =====
-- example_repo.go and the rows of its table in models.go. `Gorm` is what the repository calls of the
-- gorm package on the table `examples`; `first` gives `not_found` for gorm.ErrRecordNotFound, and
-- `create` and `save` the model with the columns that they fill in.
use energy_plant_monitoring.Base.{String, List, map}
use energy_plant_monitoring.Errors.{Error, Result, ok, err, Lookup, found, not_found, failed}
use energy_plant_monitoring.Entities.{Uuid, Time}

-- entities.ExampleEntity
pub record ExampleEntity : Type 0 where
  pub id : Uuid
  pub name : String
  pub description : String
  pub created_at : Time
  pub updated_at : Time

pub record ExampleModel : Type 0 where
  pub id : Uuid
  pub name : String
  pub description : String
  pub created_at : Time
  pub updated_at : Time

unfoldable pub to_example_model : ExampleEntity → ExampleModel
to_example_model e = record {
  id = e.id;
  name = e.name;
  description = e.description;
  created_at = e.created_at;
  updated_at = e.updated_at;
}

unfoldable pub to_example_entity : ExampleModel → ExampleEntity
to_example_entity m = record {
  id = m.id;
  name = m.name;
  description = m.description;
  created_at = m.created_at;
  updated_at = m.updated_at;
}

pub record Gorm (W : Type 0) : Type 0 where
  pub first : Uuid → W → Lookup ExampleModel × W
  pub find : W → Result (List ExampleModel) × W
  pub create : ExampleModel → W → Result ExampleModel × W
  pub save : ExampleModel → W → Result ExampleModel × W
  pub delete : Uuid → W → Error × W

looked : Lookup ExampleModel → Lookup ExampleEntity
unfolding to_example_entity
looked (found m) = found (to_example_entity m)
looked not_found = not_found
looked (failed e) = failed e

written : Result ExampleModel → Result ExampleEntity
unfolding to_example_entity
written (ok m) = ok (to_example_entity m)
written (err e) = err e

all_found : Result (List ExampleModel) → Result (List ExampleEntity)
unfolding to_example_entity
all_found (ok models) = ok (map to_example_entity models)
all_found (err e) = err e

module _ {W : Type 0} (db : Gorm W) where
  unfoldable pub find_by_id : Uuid → W → Lookup ExampleEntity × W
  unfolding looked
  find_by_id id w = let (answer, w') = db.first id w in (looked answer, w')

  unfoldable pub find_all : W → Result (List ExampleEntity) × W
  unfolding all_found
  find_all w = let (answer, w') = db.find w in (all_found answer, w')

  unfoldable pub create : ExampleEntity → W → Result ExampleEntity × W
  unfolding to_example_model written
  create entity w = let (answer, w') = db.create (to_example_model entity) w in (written answer, w')

  unfoldable pub update : ExampleEntity → W → Result ExampleEntity × W
  unfolding to_example_model written
  update entity w = let (answer, w') = db.save (to_example_model entity) w in (written answer, w')

  unfoldable pub delete : Uuid → W → Error × W
  delete id w = db.delete id w
