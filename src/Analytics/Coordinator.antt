-- ===== src/Analytics/Coordinator.antt =====
-- analytics_coordinator.go: one cycle of the aggregator and one of the dispatcher. What the
-- repository, the webhook endpoint and the advisory lock answer is given; the calls that a cycle
-- makes are listed in order. The update of a status is a call whose error is only logged.
pub mod Dispatch
pub mod Rounds
pub mod Loops
pub mod Whole
use energy_plant_monitoring.Base.{
  ℕ, ◌+◌, ◌*◌, String, Bool, true, false, Option, none, some, List, [], ◌∷◌, ◌++◌, leb, ltb, ◌==◌,
  if◌then◌else◌,
}
use energy_plant_monitoring.Errors.{Error, nil, is_nil, message, Result, ok, err}
use energy_plant_monitoring.Entities.{Uuid, Time}
use energy_plant_monitoring.Analytics.Queue.{
  WebhookStatus, WebhookQueueItem, pending, sent, failed, retrying, second,
}

abbrev pub minute : ℕ
minute = 60000000000

pub record AnalyticsCoordinatorConfig : Type 0 where
  pub aggregator_interval : ℕ
  pub dispatcher_interval : ℕ
  pub lookback_window : ℕ
  pub max_webhook_attempts : ℕ
  pub webhook_batch_size : ℕ
  pub webhook_url : String
  pub webhook_enabled : Bool

abbrev default_if_zero : ℕ → ℕ → ℕ
default_if_zero value default = if value == 0 then default else value

-- the config that `NewAnalyticsCoordinator` keeps
unfoldable pub with_defaults : AnalyticsCoordinatorConfig → AnalyticsCoordinatorConfig
with_defaults config = record config {
  aggregator_interval = default_if_zero config.aggregator_interval (5 * minute);
  dispatcher_interval = default_if_zero config.dispatcher_interval (30 * second);
  lookback_window = default_if_zero config.lookback_window (10 * minute);
  max_webhook_attempts = default_if_zero config.max_webhook_attempts 5;
  webhook_batch_size = default_if_zero config.webhook_batch_size 100;
}

-- What a cycle asks of the outside world. `get_hourly_stats` is none where there is no row; the
-- payload that is built from the statistics stands for itself.
pub record World (Stats : Type 0) : Type 0 where
  pub lock_acquired : Result Bool
  pub recalculate_dirty_buckets : ℕ → Result ℕ
  pub get_pending_webhooks : ℕ → Result (List WebhookQueueItem)
  pub get_hourly_stats : WebhookQueueItem → Result (Option Stats)
  pub send_payload : String → Stats → Error

pub data Call (Stats : Type 0) : Type 0 where
  recalculated : ℕ → Call Stats
  payload_sent : String → Stats → Error → Call Stats
  status_updated : Uuid → WebhookStatus → String → Call Stats
  lock_released : Call Stats

-- the counters
pub record Counters : Type 0 where
  pub buckets_processed : ℕ
  pub webhooks_sent : ℕ
  pub webhooks_failed : ℕ
  pub locks_skipped : ℕ

module _ {Stats : Type 0} (config : AnalyticsCoordinatorConfig) (world : World Stats) where
  -- `tryAdvisoryLock`: an error counts as a lock that was not acquired
  abbrev pub try_advisory_lock : Result Bool → Bool
  try_advisory_lock (ok acquired) = acquired
  try_advisory_lock (err _) = false

  recalculated_answer : Result ℕ → Counters → Counters
  recalculated_answer (err _) c = c
  recalculated_answer (ok count) c =
      if ltb 0 count then record c { buckets_processed = c.buckets_processed + count } else c

  unfoldable pub do_aggregation : Counters → Counters × List (Call Stats)
  unfolding recalculated_answer
  do_aggregation c =
      if try_advisory_lock world.lock_acquired
      then (
        recalculated_answer (world.recalculate_dirty_buckets config.lookback_window) c,
        recalculated config.lookback_window ∷ lock_released ∷ [],
      )
      else (record c { locks_skipped = c.locks_skipped + 1 }, [])

  send_answer : WebhookQueueItem → Stats → Error → Counters → Counters × List (Call Stats)
  send_answer wh stats nil c = (
    record c { webhooks_sent = c.webhooks_sent + 1 },
    payload_sent config.webhook_url stats nil ∷ status_updated wh.id sent "" ∷ [],
  )
  send_answer wh stats e c =
      (c, payload_sent config.webhook_url stats e ∷ status_updated wh.id retrying (message e) ∷ [])

  stats_answer : WebhookQueueItem → Result (Option Stats) → Counters → Counters × List (Call Stats)
  unfolding send_answer
  stats_answer wh (err e) c = (c, status_updated wh.id retrying (message e) ∷ [])
  stats_answer wh (ok none) c = (
    record c { webhooks_failed = c.webhooks_failed + 1 },
    status_updated wh.id failed "stats not found" ∷ [],
  )
  stats_answer wh (ok (some stats)) c =
      send_answer wh stats (world.send_payload config.webhook_url stats) c

  -- the body of the loop over the pending webhooks
  unfoldable pub dispatch_one : WebhookQueueItem → Counters → Counters × List (Call Stats)
  unfolding stats_answer
  dispatch_one wh c =
      if leb config.max_webhook_attempts wh.attempts
      then (
        record c { webhooks_failed = c.webhooks_failed + 1 },
        status_updated wh.id failed "max attempts exceeded" ∷ [],
      )
      else stats_answer wh (world.get_hourly_stats wh) c

  unfoldable pub dispatch_all : List WebhookQueueItem → Counters → Counters × List (Call Stats)
  dispatch_all [] c = (c, [])
  dispatch_all (wh ∷ whs) c =
      let (c', calls) = dispatch_one wh c in
      let (c'', rest) = dispatch_all whs c' in (c'', calls ++ rest)

  -- the lock is released on every way out
  pending_answer : Result (List WebhookQueueItem) → Counters → Counters × List (Call Stats)
  unfolding dispatch_all
  pending_answer (err _) c = (c, lock_released ∷ [])
  pending_answer (ok webhooks) c =
      let (c', calls) = dispatch_all webhooks c in (c', calls ++ lock_released ∷ [])

  unfoldable pub do_dispatch : Counters → Counters × List (Call Stats)
  unfolding pending_answer
  do_dispatch c =
      if config.webhook_enabled
      then (if try_advisory_lock world.lock_acquired
          then pending_answer (world.get_pending_webhooks config.webhook_batch_size) c
          else (record c { locks_skipped = c.locks_skipped + 1 }, []))
      else (c, [])
