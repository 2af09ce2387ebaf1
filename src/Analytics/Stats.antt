-- ===== src/Analytics/Stats.antt =====
-- RecalculateDirtyBuckets of analytics_worker_repo.go, its query included, and GetHourlyStats on the
-- table that it fills. The four tables are lists; a statement of PostgreSQL takes effect as a whole
-- or, with an error, not at all. Times are nanoseconds since an instant at which an hour begins.
pub mod Rows
pub mod Recalculated
pub mod Changes
pub mod Consistent
pub mod Webhooks
pub mod Awaited
pub mod Delivered
use energy_plant_monitoring.Base.{
  ℕ, ◌+◌, ◌*◌, ◌/◌, String, Bool, false, true, ◌&&◌, ◌||◌, Option, none, some, List, [], ◌∷◌,
  length, leb, ◌==◌, if◌then◌else◌, keep, map, first, upsert_with,
}
use energy_plant_monitoring.Errors.{
  Error, wrapped, is_nil, Result, ok, err, Lookup, found, not_found,
}
use energy_plant_monitoring.Json.{Float64}
use energy_plant_monitoring.Entities.{Uuid, Time, RawMessage}
use energy_plant_monitoring.Repositories.Models.{EventAnalyticalModel}
use energy_plant_monitoring.Repositories.Models.Master.{
  EnergyPlantsModel, HourlyPlantStatsModel, HourlyPlantStats,
}
use energy_plant_monitoring.Repositories.Models.Master as Master
use energy_plant_monitoring.Repositories.Analytical.{time_bucket, hour}
use energy_plant_monitoring.Analytics.Coordinator.{minute}
use energy_plant_monitoring.Analytics.Queue.{WebhookQueueItem, pending, requeue_item}

pub record Tables : Type 0 where
  pub events : List EventAnalyticalModel
  pub plants : List EnergyPlantsModel
  pub stats : List HourlyPlantStatsModel
  pub queue : List WebhookQueueItem

-- a bucket and a plant, the key of the statistics and of the queue
pub record Key : Type 0 where
  pub bucket : Time
  pub plant_source_id : Uuid

-- What the database computes: `(data::jsonb->>'field')::double precision`, AVG, which skips NULL, and
-- the default of the id.
pub record Functions : Type 0 where
  pub number : String → RawMessage → Option Float64
  pub avg : List (Option Float64) → Option Float64
  pub gen_random_uuid : Key → Uuid

-- `int(lookbackWindow.Minutes())`
unfoldable pub interval_minutes : ℕ → ℕ
interval_minutes lookback_window = lookback_window / minute

-- `created_at >= NOW() - $1::interval`
abbrev pub is_recent : Time → ℕ → EventAnalyticalModel → Bool
is_recent now minutes e = leb now (e.created_at + minutes * minute)

abbrev pub key_of : EventAnalyticalModel → Key
key_of e = record { bucket = time_bucket hour e.created_at; plant_source_id = e.plant_source_id }

abbrev pub same_key : Key → Key → Bool
same_key k l = k.bucket == l.bucket && k.plant_source_id == l.plant_source_id

abbrev pub has_key : Key → List Key → Bool
has_key k [] = false
has_key k (l ∷ ls) = let rest = has_key k ls in same_key k l || rest

-- `SELECT DISTINCT`
abbrev pub distinct : List Key → List Key
distinct [] = []
distinct (k ∷ ks) = let rest = distinct ks in if has_key k rest then rest else k ∷ rest

-- `dirty_buckets`
unfoldable pub dirty_buckets : Time → ℕ → List EventAnalyticalModel → List Key
dirty_buckets now minutes events = distinct (map key_of (keep (is_recent now minutes) events))

-- the events of a key, whether recent or not
abbrev group_of : Key → List EventAnalyticalModel → List EventAnalyticalModel
group_of k events = keep (λ e. same_key k (key_of e)) events

abbrev plant_text : (EnergyPlantsModel → String) → Option EnergyPlantsModel → String
plant_text column none = ""
plant_text column (some plant) = column plant

abbrev plant_number :
    (EnergyPlantsModel → Option Float64) → Option EnergyPlantsModel → Option Float64
plant_number column none = none
plant_number column (some plant) = column plant

abbrev plant_of : Key → List EnergyPlantsModel → Option EnergyPlantsModel
plant_of k plants = first (λ plant. plant.id == k.plant_source_id) plants

abbrev pub is_stats_of : Key → HourlyPlantStatsModel → Bool
is_stats_of k row = row.bucket == k.bucket && row.plant_source_id == k.plant_source_id

abbrev pub is_item_of : Key → WebhookQueueItem → Bool
is_item_of k item = item.bucket == k.bucket && item.plant_source_id == k.plant_source_id

module _ (functions : Functions) (now : Time) where
  abbrev average_of : String → List EventAnalyticalModel → Option Float64
  average_of field events = functions.avg (map (λ e. functions.number field e.payload) events)

  -- a row of `calculated_stats`; a column of a plant that is not there is NULL, which the mapper
  -- of a row reads as the empty string
  unfoldable pub calculated_stats : Tables → Key → HourlyPlantStatsModel
  calculated_stats t k =
      let events = group_of k t.events in
      let plant = plant_of k t.plants in
      record {
        bucket = k.bucket;
        plant_source_id = k.plant_source_id;
        plant_name = plant_text (λ p. p.plant_name) plant;
        plant_type = plant_text (λ p. p.plant_type) plant;
        latitude = plant_number (λ p. p.latitude) plant;
        longitude = plant_number (λ p. p.longitude) plant;
        avg_power_gen = average_of "power_generated_mw" events;
        avg_power_con = average_of "power_consumed_mw" events;
        avg_efficiency = average_of "efficiency_percent" events;
        avg_temp = average_of "temperature_celsius" events;
        sample_count = length events;
        last_calculated_at = now;
      }

  -- the `INSERT` into the statistics, on whose conflict every other column is replaced
  abbrev pub upserted :
      HourlyPlantStatsModel → List HourlyPlantStatsModel → List HourlyPlantStatsModel
  upserted s rows =
      upsert_with (is_stats_of (record { bucket = s.bucket; plant_source_id = s.plant_source_id }))
        (λ row. record s { bucket = row.bucket; plant_source_id = row.plant_source_id }) s rows

  unfoldable pub new_item : Key → WebhookQueueItem
  new_item k = record {
    id = functions.gen_random_uuid k;
    bucket = k.bucket;
    plant_source_id = k.plant_source_id;
    status = pending;
    attempts = 0;
    last_attempt = none;
    next_retry_at = none;
    error_message = none;
    created_at = now;
  }

  abbrev pub queued : Key → List WebhookQueueItem → List WebhookQueueItem
  queued k rows = upsert_with (is_item_of k) requeue_item (new_item k) rows

  unfoldable pub upsert_stats :
      Tables → List Key → List HourlyPlantStatsModel → List HourlyPlantStatsModel
  unfolding calculated_stats
  upsert_stats t [] rows = rows
  upsert_stats t (k ∷ ks) rows = upserted (calculated_stats t k) (upsert_stats t ks rows)

  unfoldable pub queue_webhooks : List Key → List WebhookQueueItem → List WebhookQueueItem
  unfolding new_item requeue_item
  queue_webhooks [] rows = rows
  queue_webhooks (k ∷ ks) rows = queued k (queue_webhooks ks rows)

  -- `failed` is the error of the statement, nil if it succeeds
  unfoldable pub recalculate_dirty_buckets : ℕ → Error → Tables → Result ℕ × Tables
  recalculate_dirty_buckets lookback_window failed t =
      let dirty = dirty_buckets now (interval_minutes lookback_window) t.events in
      if is_nil failed
      then (
        ok (length dirty),
        record t { stats = upsert_stats t dirty t.stats; queue = queue_webhooks dirty t.queue },
      )
      else (err (wrapped "failed to recalculate dirty buckets" failed), t)

abbrev pub looked_up : Option HourlyPlantStatsModel → Lookup HourlyPlantStatsModel
looked_up none = not_found
looked_up (some row) = found row

-- `GetHourlyStats` on a database that answers
unfoldable pub get_hourly_stats :
    Key → List HourlyPlantStatsModel → Result (Option HourlyPlantStats)
get_hourly_stats k rows = Master.get_hourly_stats (looked_up (first (is_stats_of k) rows))
