-- ===== src/Analytics/Coordinator/Rounds.antt =====
-- A webhook over the cycles of the dispatcher: the status updates of doDispatch
-- (analytics_coordinator.go) applied to its row by UpdateWebhookStatus (analytics_worker_repo.go).
use energy_plant_monitoring.Base.{
  ℕ, zero, suc, ◌+◌, ◌≤◌, ◌<◌, false, ◌≡◌, refl, ◌∙◌, Option, none, some, List, [], ◌∷◌, arith,
  length,
}
use energy_plant_monitoring.Errors.{is_nil, ok, message}
use energy_plant_monitoring.Entities.{Time}
use energy_plant_monitoring.Analytics.Queue.{WebhookQueueItem, failed, update_item}
use energy_plant_monitoring.Analytics.Queue.Backoff.{last_shift, update_item_backoff}
use energy_plant_monitoring.Analytics.Coordinator.{
  AnalyticsCoordinatorConfig, World, Call, Counters, status_updated, dispatch_one,
}

module _ {Stats : Type 0} (config : AnalyticsCoordinatorConfig) (world : World Stats) where
  -- the updates of one row; `none` is a panic of the backoff
  apply_updates : Time → ℕ → List (Call Stats) → Option WebhookQueueItem → Option WebhookQueueItem
  apply_updates now draw [] item = item
  apply_updates now draw (c ∷ calls) none = none
  apply_updates now draw (status_updated _ status msg ∷ calls) (some item) =
      apply_updates now draw calls (update_item now draw status msg item)
  apply_updates now draw (c ∷ calls) (some item) = apply_updates now draw calls (some item)

  -- the row after the cycles that read it, each at a time and with a random draw
  pub cycles : List (Time × ℕ) → Counters → WebhookQueueItem → Option WebhookQueueItem
  unfolding apply_updates
  cycles [] c item = some item
  cycles ((now, draw) ∷ rest) c item =
      let (c', calls) = dispatch_one config world item c in
      elim (apply_updates now draw calls (some item)) [
        | none ↦ none
        | some item' ↦ cycles rest c' item'
      ]

  -- statistics are there, and the endpoint never takes a payload
  pub record AlwaysFails : Type 0 where
    pub stats : Stats
    pub found : (item : WebhookQueueItem) → world.get_hourly_stats item ≡ ok (some stats)
    pub refused : is_nil (world.send_payload config.webhook_url stats) ≡ false

  cycle_retries :
      (dead : AlwaysFails) (now : Time) (draw : ℕ) (rest : List (Time × ℕ)) (c : Counters)
      (item : WebhookQueueItem)
      → item.attempts < config.max_webhook_attempts
      → item.attempts ≤ last_shift
      → (item' : WebhookQueueItem) × (item'.attempts ≡ item.attempts + 1)
        × (cycles ((now, draw) ∷ rest) c item ≡ cycles rest c item')
  unfolding cycles dispatch_one
  cycle_retries dead now draw rest c item room small =
      let e = world.send_payload config.webhook_url dead.stats in
      let u = update_item_backoff now draw (message e) item small in
      (u.1, u.3, ground (arith, dead.found item, dead.refused, u.2))

  cycle_gives_up :
      (now : Time) (draw : ℕ) (c : Counters) (item : WebhookQueueItem)
      → config.max_webhook_attempts ≤ item.attempts
      → (item' : WebhookQueueItem) × (item'.status ≡ failed)
        × (item'.attempts ≡ item.attempts)
        × (cycles ((now, draw) ∷ []) c item ≡ some item')
  unfolding cycles dispatch_one update_item
  cycle_gives_up now draw c item full = (
    record item {
      status = failed;
      last_attempt = some now;
      error_message = some "max attempts exceeded";
    },
    refl,
    refl,
    ground arith,
  )

  -- A webhook whose payload is never taken is given up: read in as many cycles as it has attempts
  -- left and in one more, its row is marked failed, with all attempts used, without a panic. The
  -- limit on attempts is at most `last_shift` + 1, as it is by default.
  pub cycles_give_up :
      (dead : AlwaysFails) (left : ℕ) (times : List (Time × ℕ)) (c : Counters)
      (item : WebhookQueueItem)
      → config.max_webhook_attempts ≤ last_shift + 1
      → item.attempts + left ≡ config.max_webhook_attempts
      → length times ≡ suc left
      → (item' : WebhookQueueItem) × (cycles times c item ≡ some item')
        × (item'.status ≡ failed)
        × (item'.attempts ≡ config.max_webhook_attempts)
  cycles_give_up dead left [] c item bound e h = absurd (omega arith)
  cycles_give_up dead zero ((now, draw) ∷ []) c item bound e h =
      let (item', is_failed, same, runs) = cycle_gives_up now draw c item (omega arith) in
      (item', runs, is_failed, omega arith)
  cycles_give_up dead zero (t ∷ t' ∷ times) c item bound e h = absurd (omega arith)
  cycles_give_up dead (suc left) ((now, draw) ∷ times) c item bound e h =
      let (item', counted, runs) =
        cycle_retries dead now draw times c item (omega arith) (omega arith) in
      let (item'', rest, is_failed, all) =
        cycles_give_up dead left times c item' bound (omega arith) (omega arith) in
      (item'', runs ∙ rest, is_failed, all)
