-- ===== src/Tests/Serving.antt =====
-- Instances for the handlers of events, plant statuses and examples, and for the aggregations.
use energy_plant_monitoring.Base.{
  ℕ, ◌+◌, ◌-◌, String, ◌≡◌, refl, Option, none, some, List, [], ◌∷◌, keep, ◌==◌, ◌⊎◌, arith,
  if◌then◌else◌, str_eq,
}
use energy_plant_monitoring.Errors.{
  Error, nil, new, is_nil, Result, ok, err, Lookup, found, not_found,
}
use energy_plant_monitoring.Entities.{Uuid, EventOperational}
use energy_plant_monitoring.Pagination.{Text, ℤ, pos, Codec}
use energy_plant_monitoring.Pagination.Cursor.{RoundTrips}
use energy_plant_monitoring.Repositories.Models.{EventAnalyticalModel, PlantCurrentStatusModel}
use energy_plant_monitoring.Repositories.Analytical.{
  selected, hour, day, get_hourly_aggregation as hourly_groups,
  get_daily_aggregation as daily_groups, time_bucket,
}
use energy_plant_monitoring.Repositories.Analytical.Counts.{
  Aggregates, sum_where, aggregations-Aggregates, daily_sums_hourly,
}
use energy_plant_monitoring.Repositories.Analytical.Groups.{Key}
use energy_plant_monitoring.Rest.Response.{failure}
use energy_plant_monitoring.Rest.Events.{
  Repositories, Parsers, asked_range, asked_hourly, asked_daily, list_analytical_events,
  get_hourly_aggregation, get_daily_aggregation,
}
use energy_plant_monitoring.Rest.Events.Answers.{seen, gated, range, plant_and_range, ranges_gated}
use energy_plant_monitoring.Rest.Events.Pages.{requests, requests_visit_all}
use energy_plant_monitoring.Repositories.Examples.{ExampleModel, Gorm}
use energy_plant_monitoring.Rest.Examples.{get_example}
use energy_plant_monitoring.Rest.Examples.Clients.{
  Request, post, put, told, serve_all, learn_all, written_row, IsTable, table_of,
}
use energy_plant_monitoring.Rest.Examples.Replay.{get_example_learned}

-- a time is one sign that is no bar, an id one sign
abbrev one_sign : Text → Option ℕ
one_sign [] = none
one_sign (c ∷ s) = some c

abbrev signed_time : Text → Option ℕ
signed_time [] = none
signed_time (c ∷ s) = some (c - 125)

abbrev codec : Codec
codec = record {
  base64_encode = λ s. s;
  base64_decode = λ s. some s;
  format_time = λ t. (t + 125) ∷ [];
  parse_time = signed_time;
  uuid_string = λ id. id ∷ [];
  parse_uuid = one_sign;
}

codec-RoundTrips : (t : ℕ) → RoundTrips codec t
codec-RoundTrips t = record {
  decodes = λ s. refl;
  plain = ground arith;
  parses = ground arith;
  identifies = λ id. refl;
}

abbrev event : ℕ → ℕ → EventOperational
event at id = record {
  id = id;
  event_type = "power_reading";
  plant_source_id = 5;
  source = "kafka-intake";
  payload = [];
  metadata = [];
  created_at = at;
}

abbrev rows : List EventOperational
rows = event 30 1 ∷ event 20 9 ∷ event 20 4 ∷ []

abbrev atoi : Text → ℤ
atoi _ = pos 2

requests_visit_all_example : requests codec atoi rows (b'2' ∷ []) 4 [] ≡ rows
requests_visit_all_example =
    requests_visit_all codec atoi rows (b'2' ∷ [])
      (record { trip = codec-RoundTrips; filled = λ s e. e })
      ((refl, (refl, tt)), ((refl, tt), (tt, tt)))

abbrev analytical : ℕ → ℕ → EventAnalyticalModel
analytical at id = record {
  created_at = at;
  id = id;
  event_type = "power_reading";
  plant_source_id = 5;
  source = "kafka-intake";
  payload = [];
  metadata = [];
}

abbrev measured : List EventAnalyticalModel
measured = analytical 3600000000001 1 ∷ analytical 7200000000001 2 ∷ analytical 3600000000002 3 ∷ []

aggregations-Aggregates_example :
    let picked = keep (selected 5 0 86400000000000) measured in
    Aggregates hour 86400000000000 picked (hourly_groups 5 0 86400000000000 measured)
    × Aggregates day 86400000000000 picked (daily_groups 5 0 86400000000000 measured)
aggregations-Aggregates_example = aggregations-Aggregates 5 0 86400000000000 measured

abbrev first_day : Key
first_day bucket plant event_type = bucket == 0

daily_sums_hourly_example :
    sum_where first_day (daily_groups 5 0 86400000000000 measured)
    ≡ sum_where
        (λ bucket plant event_type. first_day (time_bucket day bucket) plant event_type)
        (hourly_groups 5 0 86400000000000 measured)
daily_sums_hourly_example = daily_sums_hourly first_day 5 0 86400000000000 measured

abbrev parsers : Parsers
parsers = record {
  parse_uuid = λ text. if str_eq text "five" then some 5 else none;
  parse_time = λ text. if str_eq text "noon" then some 12 else none;
}

abbrev repos : Repositories
repos = record {
  find_all = λ _. err (new "down");
  find_by_id = λ _. not_found;
  find_by_time_range = λ _ _. ok [];
  get_hourly_aggregation = λ _ _ _. ok [];
  get_daily_aggregation = λ _ _ _. err (new "down");
}

ranges_gated_example :
    let parsed = plant_and_range parsers "five" "noon" "noon" in
    (seen (list_analytical_events parsers repos "noon" "noon")
      ≡ gated
          (λ p. repos.find_by_time_range p.0 p.1)
          (λ p. asked_range p.0 p.1)
          (range parsers "noon" "noon"))
    × (seen (get_hourly_aggregation parsers repos "five" "noon" "noon")
        ≡ gated
            (λ p. repos.get_hourly_aggregation p.0 p.1 p.2)
            (λ p. asked_hourly p.0 p.1 p.2)
            parsed)
    × (seen (get_daily_aggregation parsers repos "five" "noon" "noon")
        ≡ gated
            (λ p. repos.get_daily_aggregation p.0 p.1 p.2)
            (λ p. asked_daily p.0 p.1 p.2)
            parsed)
ranges_gated_example = ranges_gated parsers repos "five" "noon" "noon"

abbrev status : ℕ → String → PlantCurrentStatusModel
status at current = record {
  plant_id = at;
  last_event_data = [];
  current_status = current;
  last_event_type = "power_reading";
  last_event_at = at;
  updated_at = at;
}

abbrev statuses : List PlantCurrentStatusModel
statuses = status 1 "ACTIVE" ∷ status 3 "INACTIVE" ∷ status 2 "ACTIVE" ∷ []

-- a table of at most one example, whose id is 5
abbrev W : Type 0
W = Option ExampleModel

abbrev of_row : W → Uuid → Option ExampleModel
of_row none id = none
of_row (some m) id = if m.id == id then some m else none

abbrev first_row : Uuid → W → Lookup ExampleModel
first_row id none = not_found
first_row id (some m) = if m.id == id then found m else not_found

abbrev with_id : ExampleModel → ExampleModel
with_id m = record m { id = 5; created_at = 7; updated_at = 7 }

abbrev create_row : ExampleModel → W → Result ExampleModel × W
create_row m none = (ok (with_id m), some (with_id m))
create_row m (some old) = (err (new "duplicate key"), some old)

abbrev save_row : ExampleModel → W → Result ExampleModel × W
save_row m none = (err (new "down"), none)
save_row m (some old) = if m.id == old.id then (ok m, some m) else (err (new "down"), some old)

abbrev delete_row : Uuid → W → Error × W
delete_row id none = (nil, none)
delete_row id (some m) = if m.id == id then (nil, none) else (nil, some m)

abbrev db : Gorm W
db = record {
  first = λ id w. (first_row id w, w);
  find = λ w. (ok [], w);
  create = create_row;
  save = save_row;
  delete = delete_row;
}

abbrev asked : List Request
asked =
    post (ok (record { name = "A"; description = "" }))
    ∷ put "five" (ok (record { name = ""; description = "d" }))
    ∷ []

db-first_found :
    (id : Uuid) (w : W) (m : ExampleModel) → first_row id w ≡ found m → of_row w id ≡ some m
db-first_found id none m e = absurd (ground arith)
db-first_found id (some old) m e = ground arith

db-first_absent : (id : Uuid) (w : W) → first_row id w ≡ not_found → of_row w id ≡ none
db-first_absent id none e = refl
db-first_absent id (some old) e = ground arith

db-creates :
    (m : ExampleModel) (w : W) (other : Uuid)
    → of_row (create_row m w).1 other
      ≡ written_row parsers.parse_uuid db (create_row m w).0 (of_row w) other
db-creates m none other = ground arith
db-creates m (some old) other = refl

db-saves :
    (m : ExampleModel) (w : W) (other : Uuid)
    → of_row (save_row m w).1 other
      ≡ written_row parsers.parse_uuid db (save_row m w).0 (of_row w) other
db-saves m none other = refl
db-saves m (some old) other = ground arith

db-deletes :
    (id : Uuid) (w : W) (other : Uuid)
    → of_row (delete_row id w).1 other ≡ (
        if is_nil (delete_row id w).0
        then (if id == other then none else of_row w other)
        else of_row w other)
db-deletes id none other = ground arith
db-deletes id (some old) other = ground arith

db-IsTable : IsTable parsers.parse_uuid db of_row
db-IsTable = record {
  first_reads = λ id other w. refl;
  first_found = db-first_found;
  first_absent = db-first_absent;
  creates = db-creates;
  saves = db-saves;
  deletes = db-deletes;
}

get_example_learned_example :
    let (xs, w') = serve_all parsers.parse_uuid db asked none in
    let r = (get_example parsers.parse_uuid db "five" w').0 in
    (r ≡ told (learn_all parsers.parse_uuid db xs (table_of parsers.parse_uuid db of_row none) 5))
    ⊎ (r ≡ failure 500 "internal error")
get_example_learned_example =
    get_example_learned parsers.parse_uuid db of_row db-IsTable asked "five" 5 none refl
