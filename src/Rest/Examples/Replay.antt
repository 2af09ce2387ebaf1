-- ===== src/Rest/Examples/Replay.antt =====
-- What the clients of the handlers of examples (handlers.go) see: a map that their requests change.
use energy_plant_monitoring.Base.{
  ℕ, String, ◌≡◌, refl, Option, some, List, [], ◌∷◌, arith, Option-cases, inl, inr, ◌⊎◌, ◌∙◌,
}
use energy_plant_monitoring.Errors.{Result, ok, err, Lookup, found, not_found, failed, Lookup-cases}
use energy_plant_monitoring.Entities.{Uuid}
use energy_plant_monitoring.Repositories.Examples.{
  ExampleEntity, ExampleModel, Gorm, to_example_entity, to_example_model, find_by_id, create,
  update, delete,
}
use energy_plant_monitoring.Rest.Response.{json, failure, looked_up}
use energy_plant_monitoring.Rest.Examples.{
  CreateExampleRequest, UpdateExampleRequest, get_example, create_example, update_example,
  delete_example, stored, new_entity, merged, existing_answer, save_merged,
}
use energy_plant_monitoring.Rest.Examples.Clients.{
  Request, get, post, put, remove, Exchange, got, posted, put_answered, removed, Map, answered,
  told, serve, serve_all, learn, learn_all, IsTable, table_of,
}

module _ {W : Type 0} (parse_uuid : String → Option Uuid) (db : Gorm W)
    (rows : W → Uuid → Option ExampleModel) (laws : IsTable parse_uuid db rows) where
  abbrev table : W → Map
  table = table_of parse_uuid db rows

  get_keeps :
      (id_str : String) (w : W) (id : Uuid)
      → table (get_example parse_uuid db id_str w).1 id ≡ table w id
  unfolding get_example find_by_id
  get_keeps id_str w id = grind (arith, laws.first_reads)

  create_keeps :
      (entity : ExampleEntity) (status : ℕ) (w : W) (id : Uuid)
      → let (created, w') = create db entity w in
        table w' id ≡ answered (stored status created) (table w) id
  unfolding create to_example_entity stored
  create_keeps entity status w id = ground (arith, laws.creates (to_example_model entity) w id)

  update_keeps :
      (entity : ExampleEntity) (status : ℕ) (w : W) (id : Uuid)
      → let (updated, w') = update db entity w in
        table w' id ≡ answered (stored status updated) (table w) id
  unfolding update to_example_entity stored
  update_keeps entity status w id = ground (arith, laws.saves (to_example_model entity) w id)

  create_learned :
      (body : Result CreateExampleRequest) (w : W) (id : Uuid)
      → let (r, w') = create_example parse_uuid db body w in table w' id ≡ answered r (table w) id
  unfolding create_example
  create_learned (err e) w id = refl
  create_learned (ok req) w id = create_keeps (new_entity req) 201 w id

  existing_learned :
      (body : Result UpdateExampleRequest) (existing : Lookup ExampleEntity) (w : W) (id : Uuid)
      → let (r, w') = existing_answer parse_uuid db body existing w in
        table w' id ≡ answered r (table w) id
  unfolding existing_answer save_merged
  existing_learned (err e) (found existing) w id = refl
  existing_learned (ok req) (found existing) w id = update_keeps (merged req existing) 200 w id
  existing_learned body not_found w id = refl
  existing_learned body (failed e) w id = refl

  update_learned :
      (id_str : String) (body : Result UpdateExampleRequest) (w : W) (id : Uuid)
      → let (r, w') = update_example parse_uuid db id_str body w in
        table w' id ≡ answered r (table w) id
  unfolding update_example find_by_id
  update_learned id_str body w id = elim (Option-cases (parse_uuid id_str)) [
    | inl e ↦ ground arith
    | inr (key, e) ↦
        let (existing, w') = find_by_id db key w in
        ground (arith, laws.first_reads key id w, existing_learned body existing w' id)
  ]

  delete_learned :
      (id_str : String) (w : W) (id : Uuid)
      → let (r, w') = delete_example parse_uuid db id_str w in
        table w' id ≡ learn parse_uuid db (removed id_str r) (table w) id
  unfolding delete_example delete
  delete_learned id_str w id = grind (arith, laws.deletes)

  serve_learned :
      (request : Request) (w : W) (id : Uuid)
      → let (x, w') = serve parse_uuid db request w in
        table w' id ≡ learn parse_uuid db x (table w) id
  unfolding serve
  serve_learned (get id_str) w id = get_keeps id_str w id
  serve_learned (post body) w id = create_learned body w id
  serve_learned (put id_str body) w id = update_learned id_str body w id
  serve_learned (remove id_str) w id = delete_learned id_str w id

  -- what is learned at one id depends on what was known there
  learn_same :
      (x : Exchange) (m n : Map) (id : Uuid)
      → m id ≡ n id
      → learn parse_uuid db x m id ≡ learn parse_uuid db x n id
  learn_same (got _ _) m n id same = same
  learn_same (posted (json _ e)) m n id same = ground arith
  learn_same (posted (failure _ _)) m n id same = same
  learn_same (put_answered _ (json _ e)) m n id same = ground arith
  learn_same (put_answered _ (failure _ _)) m n id same = same
  learn_same (removed id_str (json _ _)) m n id same = elim (Option-cases (parse_uuid id_str)) [
    | inl e ↦ ground arith
    | inr (gone, e) ↦ ground arith
  ]
  learn_same (removed _ (failure _ _)) m n id same = same

  learn_all_same :
      (xs : List Exchange) (m n : Map) (id : Uuid)
      → m id ≡ n id
      → learn_all parse_uuid db xs m id ≡ learn_all parse_uuid db xs n id
  learn_all_same [] m n id same = same
  learn_all_same (x ∷ xs) m n id same =
      learn_all_same xs (learn parse_uuid db x m) (learn parse_uuid db x n) id
        (learn_same x m n id same)

  -- After any requests, whatever the database answers, errors included, the table holds for each id
  -- what the answers told: the entity of the last answer that stored it, unless a later answer
  -- told that it was deleted, and before the first such answer what it held at the start.
  serve_all_learned :
      (requests : List Request) (w : W) (id : Uuid)
      → let (xs, w') = serve_all parse_uuid db requests w in
        table w' id ≡ learn_all parse_uuid db xs (table w) id
  unfolding serve_all
  serve_all_learned [] w id = refl
  serve_all_learned (request ∷ requests) w id =
      let (x, w₁) = serve parse_uuid db request w in
      let (xs, w₂) = serve_all parse_uuid db requests w₁ in
      serve_all_learned requests w₁ id
      ∙ learn_all_same xs (table w₁) (learn parse_uuid db x (table w)) id
          (serve_learned request w id)

  first_told :
      (id : Uuid) (w : W) (known : Option ExampleEntity)
      → table w id ≡ known
      → let answer = (find_by_id db id w).0 in
        (looked_up "example not found" answer ≡ told known)
        ⊎ (looked_up "example not found" answer ≡ failure 500 "internal error")
  unfolding find_by_id
  first_told id w known same = elim (Lookup-cases (db.first id w).0) [
    | inl (m, e) ↦ inl (ground (arith, laws.first_found id w m e))
    | inr (inl e) ↦ inl (ground (arith, laws.first_absent id w e))
    | inr (inr (x, e)) ↦ inr (ground arith)
  ]

  -- The answer to a request for one example, after any requests: where the database does not fail,
  -- the entity that the answers before it told of, or status 404 where they told of none.
  pub get_example_learned :
      (requests : List Request) (id_str : String) (id : Uuid) (w : W)
      → parse_uuid id_str ≡ some id
      → let (xs, w') = serve_all parse_uuid db requests w in
        let r = (get_example parse_uuid db id_str w').0 in
        (r ≡ told (learn_all parse_uuid db xs (table w) id)) ⊎ (r ≡ failure 500 "internal error")
  unfolding get_example
  get_example_learned requests id_str id w parsed =
      let (xs, w') = serve_all parse_uuid db requests w in
      elim (first_told id w' (learn_all parse_uuid db xs (table w) id)
        (serve_all_learned requests w id)) [
          | inl e ↦ inl (ground arith)
          | inr e ↦ inr (ground arith)
        ]
