-- ===== src/Analytics/Coordinator/Loops/Cycles.antt =====
-- What the loops of analytics_coordinator.go do over all their cycles.
use energy_plant_monitoring.Base.{
  ℕ, ◌+◌, Bool, true, false, ◌≡◌, List, [], ◌∷◌, ◌++◌, arith, tally, tally-append, if◌then◌else◌,
}
use energy_plant_monitoring.Errors.{Result, ok, err}
use energy_plant_monitoring.Analytics.Coordinator.{
  AnalyticsCoordinatorConfig, World, Call, Counters, do_aggregation, do_dispatch, try_advisory_lock,
}
use energy_plant_monitoring.Analytics.Coordinator.Dispatch.{
  is_release, is_delivered, is_marked_failed, do_dispatch-Accounts,
}
use energy_plant_monitoring.Analytics.Coordinator.Loops.{
  Selected, stop_received, ticked, run_aggregator, run_dispatcher, aggregator_loop,
}

-- what was taken before the stop
abbrev pub cycles : {A : Type 0} → List (Selected A) → List A
cycles [] = []
cycles (stop_received ∷ _) = []
cycles (ticked a ∷ rest) = a ∷ cycles rest

abbrev recalculated_count : Result ℕ → ℕ
recalculated_count (ok count) = count
recalculated_count (err _) = 0

module _ {Stats : Type 0} (config : AnalyticsCoordinatorConfig) where
  abbrev locked : World Stats → Bool
  locked world = try_advisory_lock config world world.lock_acquired

  abbrev skipped : World Stats → Bool
  skipped world = if locked world then false else true

  -- the buckets that cycles with the lock recalculated
  abbrev pub buckets : List (World Stats) → ℕ
  buckets [] = 0
  buckets (world ∷ rest) =
      let later = buckets rest in
      if locked world
      then recalculated_count (world.recalculate_dirty_buckets config.lookback_window) + later
      else later

  -- From the counters `c`, cycles in these worlds end with the counters and the calls of `r`.
  pub record Aggregated (worlds : List (World Stats)) (c : Counters)
      (r : Counters × List (Call Stats)) : Type 0 where
    pub counted : r.0.buckets_processed ≡ c.buckets_processed + buckets worlds
    pub skips : r.0.locks_skipped ≡ c.locks_skipped + tally skipped worlds
    pub released : tally is_release r.1 ≡ tally locked worlds

  one_cycle :
      (world : World Stats) (c : Counters)
      → Aggregated (world ∷ []) c (do_aggregation config world c)
  unfolding do_aggregation
  one_cycle world c = ground arith

  more_cycles :
      (world : World Stats) (worlds : List (World Stats)) (c : Counters)
      (r s : Counters × List (Call Stats))
      → Aggregated (world ∷ []) c r
      → Aggregated worlds r.0 s
      → Aggregated (world ∷ worlds) c (s.0, r.1 ++ s.1)
  more_cycles world worlds c r s a b = ground (arith, tally-append is_release r.1 s.1)

  loop-Aggregated :
      (selected : List (Selected (World Stats))) (c : Counters)
      → Aggregated (cycles selected) c (aggregator_loop config selected c)
  unfolding aggregator_loop
  loop-Aggregated [] c = ground arith
  loop-Aggregated (stop_received ∷ rest) c = ground arith
  loop-Aggregated (ticked world ∷ rest) c =
      let first = do_aggregation config world c in
      more_cycles world (cycles rest) c first (aggregator_loop config rest first.0)
        (one_cycle world c) (loop-Aggregated rest first.0)

  -- The aggregator runs one cycle at once and one for each tick before it is stopped. Over all of
  -- them it counts the buckets that were recalculated, releases the lock as often as it acquired it,
  -- and counts a skip for each time that it did not.
  run_aggregator-Aggregated :
      (world : World Stats) (selected : List (Selected (World Stats))) (c : Counters)
      → Aggregated (world ∷ cycles selected) c (run_aggregator config world selected c)
  unfolding run_aggregator
  run_aggregator-Aggregated world selected c =
      let first = do_aggregation config world c in
      more_cycles world (cycles selected) c first (aggregator_loop config selected first.0)
        (one_cycle world c) (loop-Aggregated selected first.0)

  -- Over all the cycles before the dispatcher is stopped it counts as sent and failed exactly what
  -- it marks so, marks as many sent as payloads were delivered, and releases the lock as often as
  -- it acquired it with webhooks enabled.
  run_dispatcher_balanced :
      (selected : List (Selected (World Stats))) (c : Counters)
      → let r = run_dispatcher config selected c in
        (r.0.webhooks_sent ≡ c.webhooks_sent + tally is_delivered r.1)
        × (r.0.webhooks_failed ≡ c.webhooks_failed + tally is_marked_failed r.1)
        × (tally is_release r.1
            ≡ (if config.webhook_enabled then tally locked (cycles selected) else 0))
  unfolding run_dispatcher
  run_dispatcher_balanced [] c = ground arith
  run_dispatcher_balanced (stop_received ∷ rest) c = ground arith
  run_dispatcher_balanced (ticked world ∷ rest) c =
      let first = do_dispatch config world c in
      let later = run_dispatcher config rest first.0 in
      ground (
        arith,
        do_dispatch-Accounts config world c,
        run_dispatcher_balanced rest first.0,
        tally-append is_release first.1 later.1,
        tally-append is_delivered first.1 later.1,
        tally-append is_marked_failed first.1 later.1,
      )
