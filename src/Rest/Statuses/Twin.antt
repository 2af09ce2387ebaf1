-- ===== src/Rest/Statuses/Twin.antt =====
-- The handlers of plant statuses (plant_status_handlers.go) over the table of plant_status_repo.go,
-- on a database that answers: what is written is what is read.
use energy_plant_monitoring.Base.{
  ℕ, String, Bool, true, ◌≡◌, refl, ap, Option, some, List, [], ◌∷◌, ◌==◌, arith, keep, map, str_eq,
  if◌then◌else◌, sort_desc, keep-sort_desc, is_descending, is_descending-sort_desc, tally,
  tally-sort_desc, sym, ◌∙◌,
}
use energy_plant_monitoring.Errors.{ok}
use energy_plant_monitoring.Entities.{Uuid, PlantCurrentStatus}
use energy_plant_monitoring.Repositories.Models.{
  PlantCurrentStatusModel, to_plant_current_status_entity,
}
use energy_plant_monitoring.Repositories.Plants.{upsert, get_by_plant_id, get_all, get_by_status}
use energy_plant_monitoring.Repositories.Plants.Statuses.{upsert-get_by_plant_id}
use energy_plant_monitoring.Rest.Response.{json}
use energy_plant_monitoring.Rest.Statuses.{
  StatusRepository, list_plant_status, get_plant_status, list_plant_status_by_status,
}

-- the repository on a table
abbrev pub on : List PlantCurrentStatusModel → StatusRepository
on rows = record {
  get_all = ok (get_all rows);
  get_by_plant_id = λ id. ok (get_by_plant_id id rows);
  get_by_status = λ status. ok (get_by_status status rows);
}

-- After a status was written, a request for its plant is answered with it and status 200; a request
-- for any other plant is answered as before.
upsert-get_plant_status :
    (parse_uuid : String → Option Uuid) (rows : List PlantCurrentStatusModel)
    (status : PlantCurrentStatus) (id_str : String) (id : Uuid)
    → parse_uuid id_str ≡ some id
    → get_plant_status parse_uuid (on (upsert status rows)) id_str ≡ (
        if status.plant_id == id
        then json 200 status
        else get_plant_status parse_uuid (on rows) id_str)
unfolding get_plant_status
upsert-get_plant_status parse_uuid rows status id_str id parsed =
    let (read, rest) = upsert-get_by_plant_id status rows id in ground arith

abbrev pub is_in : String → PlantCurrentStatus → Bool
is_in status e = str_eq e.current_status status

keep-entities :
    (status : String) (rows : List PlantCurrentStatusModel)
    → keep (is_in status) (map to_plant_current_status_entity rows)
      ≡ map to_plant_current_status_entity (keep (λ r. str_eq r.current_status status) rows)
unfolding to_plant_current_status_entity
keep-entities status [] = refl
keep-entities status (r ∷ rows) = ground (arith, keep-entities status rows)

-- The two lists are answered with status 200. The list of the plants in one status is the list of
-- all plants without those in another status, in the same order; each row is in the list of all
-- plants as often as in the table, with the rows updated later first.
pub list_by_status_filters :
    (parse_uuid : String → Option Uuid) (rows : List PlantCurrentStatusModel) (status : String)
    → let sorted = sort_desc (λ r. r.updated_at) rows in
      let all = map to_plant_current_status_entity sorted in
      (list_plant_status parse_uuid (on rows) ≡ json 200 all)
      × (list_plant_status_by_status parse_uuid (on rows) status
          ≡ json 200 (keep (is_in status) all))
      × (is_descending (λ r. r.updated_at) sorted ≡ true)
      × ((p : PlantCurrentStatusModel → Bool) → tally p sorted ≡ tally p rows)
unfolding list_plant_status list_plant_status_by_status get_all get_by_status
list_by_status_filters parse_uuid rows status =
    let time : PlantCurrentStatusModel → ℕ = λ r. r.updated_at in
    (
      refl,
      ap (λ l. json 200 l)
          (ap (λ l. map to_plant_current_status_entity l)
              (sym (keep-sort_desc time (λ r. str_eq r.current_status status) rows))
            ∙ sym (keep-entities status (sort_desc time rows))),
      is_descending-sort_desc time rows,
      λ p. tally-sort_desc time p rows,
    )
