-- ===== src/Analytics/Stats/Webhooks.antt =====
-- A cycle of the dispatcher (doDispatch of analytics_coordinator.go) on the tables that
-- RecalculateDirtyBuckets and UpdateWebhookStatus of analytics_worker_repo.go have changed.
use energy_plant_monitoring.Base.{
  String, Bool, true, ◌≡◌, refl, List, [], ◌∷◌, leb, if◌then◌else◌, tally, tally-append, All, arith,
}
use energy_plant_monitoring.Errors.{Error, ok}
use energy_plant_monitoring.Entities.{Time}
use energy_plant_monitoring.Repositories.Models.Master.{HourlyPlantStats}
use energy_plant_monitoring.Analytics.Queue.Pending.{All-get_pending_webhooks}
use energy_plant_monitoring.Analytics.Queue.{WebhookQueueItem, get_pending_webhooks}
use energy_plant_monitoring.Analytics.Coordinator.{
  AnalyticsCoordinatorConfig, World, Counters, lock_released, dispatch_one, dispatch_all,
  do_dispatch,
}
use energy_plant_monitoring.Analytics.Coordinator.Dispatch.{is_marked_failed}
use energy_plant_monitoring.Analytics.Stats.{Tables, Functions, get_hourly_stats}
use energy_plant_monitoring.Analytics.Stats.Changes.{
  Change, changes, empty_tables, item_key, HasStats, Covered, stats_read, HasStats-changes,
  Covered-changes,
}

-- all its attempts are used
abbrev pub is_exhausted : AnalyticsCoordinatorConfig → WebhookQueueItem → Bool
is_exhausted config wh = leb config.max_webhook_attempts wh.attempts

module _ (functions : Functions) where
  module _ (send : String → HourlyPlantStats → Error) (now : Time) (t : Tables)
      (later : WebhookQueueItem → List Change) where
    -- What a cycle of the dispatcher meets that holds the lock: it reads the queue at `t`, and the
    -- statistics of each webhook after some more changes.
    abbrev pub cycle_world : World HourlyPlantStats
    cycle_world = record {
      lock_acquired = ok true;
      recalculate_dirty_buckets = λ _. ok 0;
      get_pending_webhooks = λ limit. ok (get_pending_webhooks now limit t.queue);
      get_hourly_stats =
          λ wh. get_hourly_stats (item_key wh) (changes functions (later wh) t).stats;
      send_payload = send;
    }

    module _ (config : AnalyticsCoordinatorConfig) where
      webhook_failures :
          (wh : WebhookQueueItem) (c : Counters)
          → HasStats t.stats (item_key wh)
          → tally is_marked_failed (dispatch_one config cycle_world wh c).1
            ≡ (if is_exhausted config wh then 1 else 0)
      unfolding dispatch_one
      webhook_failures wh c h =
          let (s, there) =
            stats_read (item_key wh) (changes functions (later wh) t).stats
              (HasStats-changes functions (later wh) t (item_key wh) h) in
          ground (arith, there)

      queue_failures :
          (whs : List WebhookQueueItem) (c : Counters)
          → All (λ wh. HasStats t.stats (item_key wh)) whs
          → tally is_marked_failed (dispatch_all config cycle_world whs c).1
            ≡ tally (is_exhausted config) whs
      unfolding dispatch_all
      queue_failures [] c h = refl
      queue_failures (wh ∷ whs) c h =
          let r = dispatch_one config cycle_world wh c in
          ground (
            arith,
            webhook_failures wh c h.0,
            queue_failures whs r.0 h.1,
            tally-append is_marked_failed r.1 (dispatch_all config cycle_world whs r.0).1,
          )

      cycle_failures :
          (c : Counters)
          → Covered t
          → config.webhook_enabled ≡ true
          → tally is_marked_failed (do_dispatch config cycle_world c).1
            ≡ tally
                (is_exhausted config)
                (get_pending_webhooks now config.webhook_batch_size t.queue)
      unfolding do_dispatch
      cycle_failures c h on =
          let whs = get_pending_webhooks now config.webhook_batch_size t.queue in
          let pending_stats =
            All-get_pending_webhooks (λ wh. HasStats t.stats (item_key wh)) now
              config.webhook_batch_size t.queue h in
          ground (
            arith,
            queue_failures whs c pending_stats,
            tally-append is_marked_failed (dispatch_all config cycle_world whs c).1
                (lock_released ∷ []),
          )

  -- After any recalculations, status updates and new events from empty tables, a cycle of the
  -- dispatcher with webhooks enabled that holds the lock marks exactly as many webhooks failed as it
  -- read with all attempts used: none fails because its statistics are missing, even if the tables
  -- change further while the cycle runs.
  pub failed_by_attempts :
      (cs : List Change) (send : String → HourlyPlantStats → Error) (now : Time)
      (later : WebhookQueueItem → List Change) (config : AnalyticsCoordinatorConfig) (c : Counters)
      → config.webhook_enabled ≡ true
      → let t = changes functions cs empty_tables in
        tally is_marked_failed (do_dispatch config (cycle_world send now t later) c).1
        ≡ tally (is_exhausted config) (get_pending_webhooks now config.webhook_batch_size t.queue)
  failed_by_attempts cs send now later config c on =
      let t = changes functions cs empty_tables in
      cycle_failures send now t later config c (Covered-changes functions cs empty_tables tt) on
