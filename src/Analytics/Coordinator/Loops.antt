-- ===== src/Analytics/Coordinator/Loops.antt =====
-- The goroutines of analytics_coordinator.go: runAggregator, runDispatcher and runMetricsReporter. A
-- list gives what each `select` takes, the stop channel or a tick, with what a cycle then meets, or
-- what the reporter then reads. A list that ends without a stop is a loop that is not through.
pub mod Cycles
use energy_plant_monitoring.Base.{ℕ, ◌-◌, String, Bool, List, [], ◌∷◌, ◌++◌}
use energy_plant_monitoring.Analytics.Coordinator.{
  AnalyticsCoordinatorConfig, World, Call, Counters, do_aggregation, do_dispatch,
}

pub data Selected (A : Type 0) : Type 0 where
  stop_received : Selected A
  ticked : A → Selected A

abbrev nothing : Counters
nothing = record {
  buckets_processed = 0;
  webhooks_sent = 0;
  webhooks_failed = 0;
  locks_skipped = 0;
}

module _ {Stats : Type 0} (config : AnalyticsCoordinatorConfig) where
  aggregator_loop : List (Selected (World Stats)) → Counters → Counters × List (Call Stats)
  aggregator_loop [] c = (c, [])
  aggregator_loop (stop_received ∷ _) c = (c, [])
  aggregator_loop (ticked world ∷ rest) c =
      let (c', calls) = do_aggregation config world c in
      let (c'', later) = aggregator_loop rest c' in (c'', calls ++ later)

  -- one cycle at once, before the first tick
  unfoldable pub run_aggregator :
      World Stats → List (Selected (World Stats)) → Counters → Counters × List (Call Stats)
  unfolding aggregator_loop
  run_aggregator world selected c =
      let (c', calls) = do_aggregation config world c in
      let (c'', later) = aggregator_loop selected c' in (c'', calls ++ later)

  unfoldable pub run_dispatcher :
      List (Selected (World Stats)) → Counters → Counters × List (Call Stats)
  run_dispatcher [] c = (c, [])
  run_dispatcher (stop_received ∷ _) c = (c, [])
  run_dispatcher (ticked world ∷ rest) c =
      let (c', calls) = do_dispatch config world c in
      let (c'', later) = run_dispatcher rest c' in (c'', calls ++ later)

-- one log entry: the totals, and what came since the entry before
pub record Report : Type 0 where
  pub totals : Counters
  pub last_60s : Counters

-- the counters never fall, so no difference is negative
since : Counters → Counters → Counters
since last now = record {
  buckets_processed = now.buckets_processed - last.buckets_processed;
  webhooks_sent = now.webhooks_sent - last.webhooks_sent;
  webhooks_failed = now.webhooks_failed - last.webhooks_failed;
  locks_skipped = now.locks_skipped - last.locks_skipped;
}

reporter_loop : Counters → List (Selected Counters) → List Report
unfolding since
reporter_loop last [] = []
reporter_loop last (stop_received ∷ _) = []
reporter_loop last (ticked read ∷ rest) =
    record { totals = read; last_60s = since last read } ∷ reporter_loop read rest

unfoldable run_metrics_reporter : List (Selected Counters) → List Report
unfolding reporter_loop
run_metrics_reporter selected = reporter_loop nothing selected
