-- ===== src/Analytics/Coordinator/Whole.antt =====
-- The coordinator of analytics_coordinator.go as a whole: its constructor, Start, its goroutines and
-- Stop in any order. NewContainer calls Start once, in a goroutine of its own, so that Stop can come
-- first. A cycle is one step: the aggregator and the dispatcher share no more than atomic counters.
-- The reporter only reads them.
pub mod Counted
use energy_plant_monitoring.Base.{
  ◌*◌, Bool, true, false, not, ◌&&◌, List, [], ◌∷◌, ◌++◌, if◌then◌else◌,
}
use energy_plant_monitoring.Analytics.Queue.{second}
use energy_plant_monitoring.Analytics.Coordinator.{
  AnalyticsCoordinatorConfig, Counters, World, Call, minute, with_defaults, do_aggregation,
  do_dispatch,
}

-- `DefaultAnalyticsCoordinatorConfig`
unfoldable pub default_config : AnalyticsCoordinatorConfig
default_config = record {
  aggregator_interval = 5 * minute;
  dispatcher_interval = 30 * second;
  lookback_window = 10 * minute;
  max_webhook_attempts = 5;
  webhook_batch_size = 100;
  webhook_url = "";
  webhook_enabled = false;
}

-- `first_cycle` is the one that the aggregator runs before its loop
pub data Goroutine : Type 0 where
  idle first_cycle looping exited : Goroutine

abbrev is_idle : Goroutine → Bool
is_idle idle = true
is_idle _ = false

abbrev is_active : Goroutine → Bool
is_active first_cycle = true
is_active looping = true
is_active _ = false

-- the goroutine is at a `select` that can see the stop channel
abbrev is_looping : Goroutine → Bool
is_looping looping = true
is_looping _ = false

abbrev is_exited : Goroutine → Bool
is_exited exited = true
is_exited _ = false

leaves : Bool → Goroutine → Goroutine
leaves closed g = if closed && is_looping g then exited else g

-- `calls` are those of all cycles so far
pub record Coordinator (Stats : Type 0) : Type 0 where
  pub config : AnalyticsCoordinatorConfig
  pub counters : Counters
  pub calls : List (Call Stats)
  pub aggregator : Goroutine
  pub dispatcher : Goroutine
  pub reporter : Goroutine
  pub stop_closed : Bool

pub data Step (Stats : Type 0) : Type 0 where
  start : Step Stats
  aggregate : World Stats → Step Stats
  dispatch : World Stats → Step Stats
  -- `Stop` closes the channel, and each goroutine sees it
  stop : Step Stats
  aggregator_stop : Step Stats
  dispatcher_stop : Step Stats
  reporter_stop : Step Stats

module _ {Stats : Type 0} where
  unfoldable pub new_coordinator : AnalyticsCoordinatorConfig → Coordinator Stats
  new_coordinator config = record {
    config = with_defaults config;
    counters = record {
      buckets_processed = 0;
      webhooks_sent = 0;
      webhooks_failed = 0;
      locks_skipped = 0;
    };
    calls = [];
    aggregator = idle;
    dispatcher = idle;
    reporter = idle;
    stop_closed = false;
  }

  unfoldable pub step : Step Stats → Coordinator Stats → Coordinator Stats
  unfolding leaves
  step start k =
      if is_idle k.aggregator
      then record k { aggregator = first_cycle; dispatcher = looping; reporter = looping }
      else k
  step (aggregate world) k =
      let (c, made) = do_aggregation k.config world k.counters in
      if is_active k.aggregator
      then record k { counters = c; calls = k.calls ++ made; aggregator = looping }
      else k
  step (dispatch world) k =
      let (c, made) = do_dispatch k.config world k.counters in
      if is_active k.dispatcher then record k { counters = c; calls = k.calls ++ made } else k
  step stop k = record k { stop_closed = true }
  step aggregator_stop k = record k { aggregator = leaves k.stop_closed k.aggregator }
  step dispatcher_stop k = record k { dispatcher = leaves k.stop_closed k.dispatcher }
  step reporter_stop k = record k { reporter = leaves k.stop_closed k.reporter }

  unfoldable pub steps : List (Step Stats) → Coordinator Stats → Coordinator Stats
  unfolding step
  steps [] k = k
  steps (s ∷ rest) k = steps rest (step s k)

  -- `Stop` has closed the channel, and its `c.wg.Wait()` finds no goroutine that runs
  abbrev pub stop_returns : Coordinator Stats → Bool
  stop_returns k =
      k.stop_closed
      && (not (is_active k.aggregator)
          && (not (is_active k.dispatcher) && not (is_active k.reporter)))

  -- the goroutines were started, and have returned
  abbrev pub all_returned : Coordinator Stats → Bool
  all_returned k = is_exited k.aggregator && (is_exited k.dispatcher && is_exited k.reporter)
