-- ===== src/Analytics/Stats/Recalculated.antt =====
-- What RecalculateDirtyBuckets (analytics_worker_repo.go) leaves in the tables of the hourly
-- statistics and of the webhooks.
use energy_plant_monitoring.Base.{
  ℕ, Bool, true, false, ◌≡◌, some, List, if◌then◌else◌, tally, first, updated_or,
}
use energy_plant_monitoring.Errors.{Result, ok, err}
use energy_plant_monitoring.Entities.{Time}
use energy_plant_monitoring.Analytics.Queue.{requeue_item}
use energy_plant_monitoring.Analytics.Stats.{
  Tables, Key, Functions, same_key, is_stats_of, is_item_of, calculated_stats, new_item,
}
use energy_plant_monitoring.Analytics.Stats.Rows.{is_dirty}

abbrev pub is_err {ℓ} : {A : Type ℓ} → Result A → Bool
is_err (ok _) = false
is_err (err _) = true

-- What a recalculation leaves of the tables `t`, with the keys that it returned.
pub record Recalculated (functions : Functions) (now : Time) (minutes : ℕ) (t : Tables)
    (dirty : List Key) (t' : Tables) : Type 0 where
  pub returned :
      (k : Key) → tally (same_key k) dirty ≡ (if is_dirty now minutes k t.events then 1 else 0)
  pub stats :
      (k : Key)
      → first (is_stats_of k) t'.stats ≡ (
          if is_dirty now minutes k t.events
          then some (calculated_stats functions now t k)
          else first (is_stats_of k) t.stats)
  pub queue :
      (k : Key)
      → first (is_item_of k) t'.queue ≡ (
          if is_dirty now minutes k t.events
          then some
              (updated_or requeue_item (new_item functions now k) (first (is_item_of k) t.queue))
          else first (is_item_of k) t.queue)
