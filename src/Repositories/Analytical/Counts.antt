-- ===== src/Repositories/Analytical/Counts.antt =====
-- What the aggregations of event_analytical_repo.go count.
use energy_plant_monitoring.Base.{
  ℕ, ◌+◌, ◌≤◌, String, Bool, true, ◌≡◌, refl, List, [], ◌∷◌, arith, keep, tally, if◌then◌else◌,
  eq_iff, ap, sym, ◌∙◌,
}
use energy_plant_monitoring.Entities.{Uuid, Time}
use energy_plant_monitoring.Repositories.Models.{EventAnalyticalModel}
use energy_plant_monitoring.Repositories.Analytical.{
  AggregatedEvent, count_row, time_bucket, grouped, selected, hour, day, get_hourly_aggregation,
  get_daily_aggregation,
}
use energy_plant_monitoring.Repositories.Analytical.Groups.{
  Key, groups_where, is_latest_first, same_key, no_later-selected, descending-grouped, one_group,
}

-- the counts of the groups whose key passes, together
abbrev pub sum_where : Key → List AggregatedEvent → ℕ
sum_where p [] = 0
sum_where p (g ∷ groups) =
    let rest = sum_where p groups in
    if p g.bucket g.plant_source_id g.event_type then g.event_count + rest else rest

sum_where-count_row :
    (p : Key) (bucket : Time) (plant : Uuid) (event_type : String) (groups : List AggregatedEvent)
    → sum_where p (count_row bucket plant event_type groups)
      ≡ sum_where p groups + (if p bucket plant event_type then 1 else 0)
sum_where-count_row p bucket plant event_type [] = ground arith
sum_where-count_row p bucket plant event_type (g ∷ groups) =
    ground
      (arith, eq_iff g.event_type event_type, sum_where-count_row p bucket plant event_type groups)

sum_where-grouped :
    (p : Key) (width : ℕ) (rows : List EventAnalyticalModel)
    → sum_where p (grouped width rows)
      ≡ tally (λ r. p (time_bucket width r.created_at) r.plant_source_id r.event_type) rows
unfolding grouped
sum_where-grouped p width [] = refl
sum_where-grouped p width (r ∷ rows) = ground (
  arith,
  sum_where-grouped p width rows,
  sum_where-count_row p (time_bucket width r.created_at) r.plant_source_id r.event_type
      (grouped width rows),
)

hour_in_day : (at : Time) → time_bucket day (time_bucket hour at) ≡ time_bucket day at
unfolding time_bucket
hour_in_day at = omega arith

hour_below : (at : Time) → time_bucket hour at ≤ at
unfolding time_bucket
hour_below at = omega arith

day_below : (at : Time) → time_bucket day at ≤ at
unfolding time_bucket
day_below at = omega arith

-- An aggregation with buckets of one width: later buckets come first, each bucket, plant and type
-- has one group at most, and its count is that of the rows.
pub record Aggregates (width : ℕ) (end : Time) (rows : List EventAnalyticalModel)
    (groups : List AggregatedEvent) : Type 0 where
  pub descending : is_latest_first end groups ≡ true
  pub alone :
      (bucket : Time) (plant : Uuid) (event_type : String)
      → groups_where (same_key bucket plant event_type) groups ≤ 1
  pub counted :
      (p : Key)
      → sum_where p groups
        ≡ tally (λ r. p (time_bucket width r.created_at) r.plant_source_id r.event_type) rows

-- Both aggregations list the buckets from the latest to the earliest, none of them after the end of
-- the range, and each bucket, plant and type once at most; and for every test on these three, the
-- counts of the groups that pass are together the number of the selected rows that pass.
pub aggregations-Aggregates :
    (plant_id : Uuid) (start end : Time) (rows : List EventAnalyticalModel)
    → let picked = keep (selected plant_id start end) rows in
      Aggregates hour end picked (get_hourly_aggregation plant_id start end rows)
      × Aggregates day end picked (get_daily_aggregation plant_id start end rows)
unfolding get_hourly_aggregation get_daily_aggregation
aggregations-Aggregates plant_id start end rows =
    let picked = keep (selected plant_id start end) rows in
    let late = no_later-selected plant_id start end rows in
    (
      record {
        descending = descending-grouped hour hour_below end picked late;
        alone = λ bucket plant event_type.
            one_group hour hour_below bucket plant event_type end picked late;
        counted = λ p. sum_where-grouped p hour picked;
      },
      record {
        descending = descending-grouped day day_below end picked late;
        alone = λ bucket plant event_type.
            one_group day day_below bucket plant event_type end picked late;
        counted = λ p. sum_where-grouped p day picked;
      },
    )

tally_same :
    (p q : EventAnalyticalModel → Bool) (rows : List EventAnalyticalModel)
    → ((r : EventAnalyticalModel) → p r ≡ q r)
    → tally p rows ≡ tally q rows
tally_same p q [] same = refl
tally_same p q (r ∷ rows) same = ground (arith, same r, tally_same p q rows same)

-- For one plant and one range, the count of a day and type is the sum of the counts of its hours,
-- and so for every test on the day, plant and type.
pub daily_sums_hourly :
    (p : Key) (plant_id : Uuid) (start end : Time) (rows : List EventAnalyticalModel)
    → sum_where p (get_daily_aggregation plant_id start end rows)
      ≡ sum_where
          (λ bucket plant event_type. p (time_bucket day bucket) plant event_type)
          (get_hourly_aggregation plant_id start end rows)
unfolding get_hourly_aggregation get_daily_aggregation
daily_sums_hourly p plant_id start end rows =
    let picked = keep (selected plant_id start end) rows in
    let in_hours : Key = λ bucket plant event_type. p (time_bucket day bucket) plant event_type in
    sum_where-grouped p day picked
    ∙ tally_same _ _ picked
        (λ r. ap (λ b. p b r.plant_source_id r.event_type) (sym (hour_in_day r.created_at)))
    ∙ sym (sum_where-grouped in_hours hour picked)
