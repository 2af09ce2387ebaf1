-- ===== src/Repositories/Analytical.antt =====
-- event_analytical_repo.go: the table of analytical events, as its queries read it on a database that
-- answers. Where a query orders by a column, the order of what agrees in it is the database's; here it is fixed.
-- A time is a number of nanoseconds since an instant at which a day begins.
pub mod Groups
pub mod Counts
use energy_plant_monitoring.Base.{
  ℕ, ◌+◌, ◌*◌, ◌/◌, String, Bool, true, false, ◌&&◌, List, [], ◌∷◌, ◌==◌, ltb, leb, keep,
  if◌then◌else◌, str_eq, sort_desc,
}
use energy_plant_monitoring.Entities.{Uuid, Time, EventAnalytical}
use energy_plant_monitoring.Repositories.Models.{
  EventAnalyticalModel, to_event_analytical_entity, to_event_analytical_model,
}

-- output.AggregatedEvent
pub record AggregatedEvent : Type 0 where
  pub bucket : Time
  pub plant_source_id : Uuid
  pub event_type : String
  pub event_count : ℕ

-- the `WHERE` of the time range
abbrev in_range : Time → Time → EventAnalyticalModel → Bool
in_range start end r = leb start r.created_at && leb r.created_at end

abbrev entities : List EventAnalyticalModel → List EventAnalytical
entities [] = []
entities (m ∷ rows) = to_event_analytical_entity m ∷ entities rows

unfoldable pub find_by_time_range : Time → Time → List EventAnalyticalModel → List EventAnalytical
find_by_time_range start end rows =
    entities (sort_desc (λ r. r.created_at) (keep (in_range start end) rows))

-- `time_bucket(width, created_at)`
unfoldable pub time_bucket : ℕ → Time → Time
time_bucket width at = at / width * width

-- the `WHERE` of the aggregations
abbrev pub selected : Uuid → Time → Time → EventAnalyticalModel → Bool
selected plant_id start end r = r.plant_source_id == plant_id && in_range start end r

-- one more row for its group, the groups of later buckets first
abbrev pub count_row : Time → Uuid → String → List AggregatedEvent → List AggregatedEvent
count_row bucket plant event_type [] =
    record { bucket = bucket; plant_source_id = plant; event_type = event_type; event_count = 1 }
    ∷ []
count_row bucket plant event_type (g ∷ groups) =
    let rest = count_row bucket plant event_type groups in
    if g.bucket == bucket && (g.plant_source_id == plant && str_eq g.event_type event_type)
    then record g { event_count = g.event_count + 1 } ∷ groups
    else if ltb g.bucket bucket
    then record {
      bucket = bucket;
      plant_source_id = plant;
      event_type = event_type;
      event_count = 1;
    }
      ∷ g
      ∷ groups
    else g ∷ rest

-- `GROUP BY bucket, plant_source_id, event_type ORDER BY bucket DESC`
unfoldable pub grouped : ℕ → List EventAnalyticalModel → List AggregatedEvent
unfolding time_bucket
grouped width [] = []
grouped width (r ∷ rows) =
    count_row (time_bucket width r.created_at) r.plant_source_id r.event_type (grouped width rows)

abbrev pub hour : ℕ
hour = 3600000000000

abbrev pub day : ℕ
day = 86400000000000

unfoldable pub get_hourly_aggregation :
    Uuid → Time → Time → List EventAnalyticalModel → List AggregatedEvent
unfolding grouped
get_hourly_aggregation plant_id start end rows =
    grouped hour (keep (selected plant_id start end) rows)

unfoldable pub get_daily_aggregation :
    Uuid → Time → Time → List EventAnalyticalModel → List AggregatedEvent
unfolding grouped
get_daily_aggregation plant_id start end rows =
    grouped day (keep (selected plant_id start end) rows)
