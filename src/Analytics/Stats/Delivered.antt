-- ===== src/Analytics/Stats/Delivered.antt =====
-- A cycle of the dispatcher (doDispatch of analytics_coordinator.go) whose updates reach the queue
-- that it read (UpdateWebhookStatus of analytics_worker_repo.go), with an endpoint that takes every
-- payload.
use energy_plant_monitoring.Base.{
  ℕ, ◌≤◌, true, not, ◌≡◌, refl, List, [], ◌∷◌, if◌then◌else◌, Bool-cases, inl, inr, length,
  take_all, take-nil, keep, tally, tally-append, All, All-keep, arith,
}
use energy_plant_monitoring.Errors.{nil}
use energy_plant_monitoring.Entities.{Uuid, Time}
use energy_plant_monitoring.Repositories.Models.Master.{HourlyPlantStats}
use energy_plant_monitoring.Analytics.Queue.{
  sent, failed, WebhookQueueItem, is_pending, get_pending_webhooks,
}
use energy_plant_monitoring.Analytics.Coordinator.{
  AnalyticsCoordinatorConfig, World, Call, payload_sent, status_updated, lock_released, Counters,
  dispatch_one, dispatch_all, do_dispatch,
}
use energy_plant_monitoring.Analytics.Coordinator.Dispatch.{is_delivered}
use energy_plant_monitoring.Analytics.Stats.{Tables, Functions}
use energy_plant_monitoring.Analytics.Stats.Changes.{
  Change, changes, empty_tables, item_key, HasStats, Covered, stats_read, Covered-changes,
}
use energy_plant_monitoring.Analytics.Stats.Webhooks.{cycle_world, is_exhausted}
use energy_plant_monitoring.Analytics.Stats.Awaited.{
  Awaited, keep-Awaited, nothing_due, applied, applied-append, closed_by, sent_closes,
  failed_closes,
}

-- a cycle that holds the lock, at whose endpoint every payload is taken
abbrev pub taking_world : Functions → Time → Tables → World HourlyPlantStats
taking_world functions now t = cycle_world functions (λ _ _. nil) now t (λ _. [])

module _ (functions : Functions) (clock : Uuid → Time) (draw : Uuid → ℕ) (now : Time) (t : Tables)
    (config : AnalyticsCoordinatorConfig) where
  abbrev calls_for : WebhookQueueItem → HourlyPlantStats → List (Call HourlyPlantStats)
  calls_for wh stats =
      if is_exhausted config wh
      then status_updated wh.id failed "max attempts exceeded" ∷ []
      else payload_sent config.webhook_url stats nil ∷ status_updated wh.id sent "" ∷ []

  webhook_calls :
      (wh : WebhookQueueItem) (c : Counters)
      → HasStats t.stats (item_key wh)
      → (stats : HourlyPlantStats) × ((dispatch_one config (taking_world functions now t) wh c).1
          ≡ calls_for wh stats)
  unfolding dispatch_one
  webhook_calls wh c h =
      let (stats, there) = stats_read (item_key wh) t.stats h in (stats, ground (arith, there))

  webhook_closed :
      (wh : WebhookQueueItem) (whs : List WebhookQueueItem) (c : Counters) (u : Tables)
      → HasStats t.stats (item_key wh)
      → All (Awaited now (wh ∷ whs)) u.queue
      → All
          (Awaited now whs)
          (applied functions clock draw
            (dispatch_one config (taking_world functions now t) wh c).1
            u).queue
  webhook_closed wh whs c u has h =
      let (stats, calls) = webhook_calls wh c has in
      rw calls (elim (Bool-cases (is_exhausted config wh)) [
        | inl used ↦ rw used (
            closed_by functions clock draw now failed "max attempts exceeded" wh whs u
              (failed_closes functions clock draw now (clock wh.id) (draw wh.id)
                "max attempts exceeded")
              h)
        | inr unused ↦ rw unused (
            closed_by functions clock draw now sent "" wh whs u
              (sent_closes functions clock draw now (clock wh.id) (draw wh.id) "") h)
      ])

  webhook_delivered :
      (wh : WebhookQueueItem) (c : Counters)
      → HasStats t.stats (item_key wh)
      → tally is_delivered (dispatch_one config (taking_world functions now t) wh c).1
        ≡ (if is_exhausted config wh then 0 else 1)
  webhook_delivered wh c h = let (stats, calls) = webhook_calls wh c h in ground (arith, calls)

  -- of the webhooks `whs`, none is pending in the queue any more, and each payload was delivered
  -- whose attempts are not used
  record Emptied (whs : List WebhookQueueItem) (calls : List (Call HourlyPlantStats)) (u : Tables)
      : Type 0 where
    closed : All (Awaited now []) (applied functions clock draw calls u).queue
    delivered : tally is_delivered calls ≡ tally (λ wh. not (is_exhausted config wh)) whs

  queue_closed :
      (whs : List WebhookQueueItem) (c : Counters) (u : Tables)
      → All (λ wh. HasStats t.stats (item_key wh)) whs
      → All (Awaited now whs) u.queue
      → Emptied whs (dispatch_all config (taking_world functions now t) whs c).1 u
  unfolding dispatch_all
  queue_closed [] c u has h = record { closed = h; delivered = refl }
  queue_closed (wh ∷ whs) c u has h =
      let r = dispatch_one config (taking_world functions now t) wh c in
      let s = dispatch_all config (taking_world functions now t) whs r.0 in
      let rest =
        queue_closed whs r.0 (applied functions clock draw r.1 u) has.1
          (webhook_closed wh whs c u has.0 h) in
      record {
        closed = rw (applied-append functions clock draw r.1 s.1 u) rest.closed;
        delivered = ground (
          arith,
          tally-append is_delivered r.1 s.1,
          webhook_delivered wh c has.0,
          rest.delivered,
        );
      }

  cycle_closed :
      (c : Counters)
      → Covered t
      → config.webhook_enabled ≡ true
      → length (keep (is_pending now) t.queue) ≤ config.webhook_batch_size
      → Emptied
          (get_pending_webhooks now config.webhook_batch_size t.queue)
          (do_dispatch config (taking_world functions now t) c).1
          t
  unfolding do_dispatch get_pending_webhooks
  cycle_closed c covered on fits =
      let size = config.webhook_batch_size in
      let due = keep (is_pending now) t.queue in
      let all = take_all size due fits in
      let has = All-keep (λ wh. HasStats t.stats (item_key wh)) (is_pending now) t.queue covered in
      let r = dispatch_all config (taking_world functions now t) due c in
      let emptied = queue_closed due c t has (keep-Awaited now t.queue) in
      simp (on, all)
        (record {
          closed =
              rw (applied-append functions clock draw r.1 (lock_released ∷ []) t) emptied.closed;
          delivered =
              ground (arith, tally-append is_delivered r.1 (lock_released ∷ []), emptied.delivered);
        })

-- After any recalculations, status updates and new events from empty tables: let a cycle of the
-- dispatcher with webhooks enabled hold the lock and read the queue at `now`, when no more of its rows
-- are pending than its batch size, let the endpoint take every payload, let all its updates of statuses reach the table,
-- and let nothing else change the tables meanwhile. Then no webhook is pending at `now` any more, and
-- as many payloads were delivered as the cycle read webhooks with attempts left.
pub cycle_empties :
    (functions : Functions) (cs : List Change) (clock : Uuid → Time) (draw : Uuid → ℕ) (now : Time)
    (config : AnalyticsCoordinatorConfig) (c : Counters) (limit : ℕ)
    → config.webhook_enabled ≡ true
    → length (keep (is_pending now) (changes functions cs empty_tables).queue)
      ≤ config.webhook_batch_size
    → let t = changes functions cs empty_tables in
      let calls = (do_dispatch config (taking_world functions now t) c).1 in
      (get_pending_webhooks now limit (applied functions clock draw calls t).queue ≡ [])
      × (tally is_delivered calls
          ≡ tally
              (λ wh. not (is_exhausted config wh))
              (get_pending_webhooks now config.webhook_batch_size t.queue))
unfolding get_pending_webhooks
cycle_empties functions cs clock draw now config c limit on fits =
    let t = changes functions cs empty_tables in
    let calls = (do_dispatch config (taking_world functions now t) c).1 in
    let emptied =
      cycle_closed functions clock draw now t config c
        (Covered-changes functions cs empty_tables tt) on fits in
    (
      rw (nothing_due now (applied functions clock draw calls t).queue emptied.closed)
          (take-nil limit),
      emptied.delivered,
    )
