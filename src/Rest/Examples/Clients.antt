-- ===== src/Rest/Examples/Clients.antt =====
-- The requests for examples (handlers.go) and what their answers tell a client, and what the
-- repository (example_repo.go) relies on.
use energy_plant_monitoring.Base.{
  String, ◌≡◌, Option, none, some, List, [], ◌∷◌, ◌==◌, if◌then◌else◌,
}
use energy_plant_monitoring.Errors.{is_nil, Result, ok, err, found, not_found}
use energy_plant_monitoring.Entities.{Uuid}
use energy_plant_monitoring.Repositories.Examples.{
  ExampleEntity, ExampleModel, Gorm, to_example_entity,
}
use energy_plant_monitoring.Rest.Response.{Response, json, failure}
use energy_plant_monitoring.Rest.Examples.{
  CreateExampleRequest, UpdateExampleRequest, get_example, create_example, update_example,
  delete_example,
}

pub data Request : Type 0 where
  get : String → Request
  post : Result CreateExampleRequest → Request
  put : String → Result UpdateExampleRequest → Request
  remove : String → Request

-- a request with its response
pub data Exchange : Type 0 where
  got : String → Response ExampleEntity → Exchange
  posted : Response ExampleEntity → Exchange
  put_answered : String → Response ExampleEntity → Exchange
  removed : String → Response (Unit {0}) → Exchange

abbrev pub Map : Type 0
Map = Uuid → Option ExampleEntity

abbrev with_entity : ExampleEntity → Map → Map
with_entity e m id = if e.id == id then some e else m id

-- what an answer tells of the entities: one that was stored, and nothing of a failure
abbrev pub answered : Response ExampleEntity → Map → Map
answered (json _ e) m = with_entity e m
answered (failure _ _) m = m

-- the answer to a request for one of them
abbrev pub told : Option ExampleEntity → Response ExampleEntity
told none = failure 404 "example not found"
told (some e) = json 200 e

abbrev pub without : Option Uuid → Map → Map
without none m = m
without (some gone) m = λ id. if gone == id then none else m id

module _ {W : Type 0} (parse_uuid : String → Option Uuid) (db : Gorm W) where
  unfoldable pub serve : Request → W → Exchange × W
  serve (get id) w = let (r, w') = get_example parse_uuid db id w in (got id r, w')
  serve (post body) w = let (r, w') = create_example parse_uuid db body w in (posted r, w')
  serve (put id body) w =
      let (r, w') = update_example parse_uuid db id body w in (put_answered id r, w')
  serve (remove id) w = let (r, w') = delete_example parse_uuid db id w in (removed id r, w')

  unfoldable pub serve_all : List Request → W → List Exchange × W
  unfolding serve
  serve_all [] w = ([], w)
  serve_all (request ∷ requests) w =
      let (x, w₁) = serve request w in let (xs, w₂) = serve_all requests w₁ in (x ∷ xs, w₂)

  -- the entities as a client knows them from the answers
  abbrev pub learn : Exchange → Map → Map
  learn (got _ _) m = m
  learn (posted r) m = answered r m
  learn (put_answered _ r) m = answered r m
  learn (removed id (json _ _)) m = without (parse_uuid id) m
  learn (removed id (failure _ _)) m = m

  abbrev pub learn_all : List Exchange → Map → Map
  learn_all [] m = m
  learn_all (x ∷ xs) m = learn_all xs (learn x m)

  -- the rows after a row was written, or not
  abbrev pub written_row :
      Result ExampleModel → (Uuid → Option ExampleModel) → Uuid → Option ExampleModel
  written_row (ok m) rows id = if m.id == id then some m else rows id
  written_row (err _) rows id = rows id

  -- What the repository relies on: `rows` is the row of each primary key. An operation that answers
  -- with an error changes no row.
  pub record IsTable (rows : W → Uuid → Option ExampleModel) : Type 0 where
    pub first_reads : (id other : Uuid) (w : W) → rows (db.first id w).1 other ≡ rows w other
    pub first_found :
        (id : Uuid) (w : W) (m : ExampleModel) → (db.first id w).0 ≡ found m → rows w id ≡ some m
    pub first_absent : (id : Uuid) (w : W) → (db.first id w).0 ≡ not_found → rows w id ≡ none
    pub creates :
        (m : ExampleModel) (w : W) (other : Uuid)
        → rows (db.create m w).1 other ≡ written_row (db.create m w).0 (rows w) other
    pub saves :
        (m : ExampleModel) (w : W) (other : Uuid)
        → rows (db.save m w).1 other ≡ written_row (db.save m w).0 (rows w) other
    pub deletes :
        (id : Uuid) (w : W) (other : Uuid)
        → rows (db.delete id w).1 other ≡ (
            if is_nil (db.delete id w).0
            then (if id == other then none else rows w other)
            else rows w other)

  -- the table as entities
  abbrev entity_of : Option ExampleModel → Option ExampleEntity
  entity_of none = none
  entity_of (some m) = some (to_example_entity m)

  abbrev pub table_of : (W → Uuid → Option ExampleModel) → W → Map
  table_of rows w id = entity_of (rows w id)
