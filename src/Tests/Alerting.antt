-- ===== src/Tests/Alerting.antt =====
-- Instances for the alert rules, the webhook dispatcher and the Telegram notifier.
use energy_plant_monitoring.Base.{
  ℕ, ◌+◌, ◌*◌, ◌/◌, ◌^◌, ◌≤◌, min, true, ◌≡◌, refl, List, [], ◌∷◌, none, some, arith,
}
use energy_plant_monitoring.Errors.{new, ok}
use energy_plant_monitoring.Entities.{Time}
use energy_plant_monitoring.Analytics.Queue.{
  WebhookQueueItem, pending, failed, retrying, update_item, max_backoff, second,
}
use energy_plant_monitoring.Analytics.Queue.Backoff.{update_item_backoff}
use energy_plant_monitoring.Analytics.Coordinator.{
  AnalyticsCoordinatorConfig, World, Counters, do_dispatch, minute,
}
use energy_plant_monitoring.Analytics.Coordinator.Dispatch.{
  Accounts, owed_ids, owed_releases, do_dispatch-Accounts,
}
use energy_plant_monitoring.Analytics.Coordinator.Rounds.{AlwaysFails, cycles, cycles_give_up}
use energy_plant_monitoring.Telegram.{
  Text, new_notifier, Step, enqueued, stopping, closing, worked, step, steps,
}
use energy_plant_monitoring.Telegram.Shutdown.{Sound, steps-Sound, stop_hands_over}

abbrev webhook : WebhookQueueItem
webhook = record {
  id = 1;
  bucket = 0;
  plant_source_id = 5;
  status = pending;
  attempts = 3;
  last_attempt = none;
  next_retry_at = none;
  error_message = none;
  created_at = 0;
}

update_item_backoff_example :
    (backoff : ℕ) × (item' : WebhookQueueItem) × (update_item 1000 77 retrying "timeout" webhook
      ≡ some item')
    × (item'.attempts ≡ 4)
    × (item'.next_retry_at ≡ some (1000 + backoff * second))
    × (min (30 * 2 ^ 3) max_backoff ≤ backoff)
    × (backoff ≤ min (30 * 2 ^ 3) max_backoff + min (30 * 2 ^ 3) max_backoff / 3)
    × (30 ≤ backoff)
    × (backoff ≤ 640)
update_item_backoff_example = update_item_backoff 1000 77 "timeout" webhook (omega arith)

abbrev config : AnalyticsCoordinatorConfig
config = record {
  aggregator_interval = 5 * minute;
  dispatcher_interval = 30 * second;
  lookback_window = 10 * minute;
  max_webhook_attempts = 5;
  webhook_batch_size = 100;
  webhook_url = "http://receiver/webhook";
  webhook_enabled = true;
}

-- an endpoint that answers every payload with an error
abbrev down : World ℕ
down = record {
  lock_acquired = ok true;
  recalculate_dirty_buckets = λ _. ok 1;
  get_pending_webhooks = λ _. ok (webhook ∷ []);
  get_hourly_stats = λ _. ok (some 42);
  send_payload = λ _ _. new "status 503";
}

abbrev no_counts : Counters
no_counts = record {
  buckets_processed = 0;
  webhooks_sent = 0;
  webhooks_failed = 0;
  locks_skipped = 0;
}

do_dispatch-Accounts_example :
    Accounts no_counts
      (owed_ids config down)
      (owed_releases config down)
      (do_dispatch config down no_counts)
do_dispatch-Accounts_example = do_dispatch-Accounts config down no_counts

abbrev dead : AlwaysFails config down
dead = record { stats = 42; found = λ _. refl; refused = refl }

abbrev three_cycles : List (Time × ℕ)
three_cycles = (1000, 7) ∷ (2000, 8) ∷ (3000, 9) ∷ []

cycles_give_up_example :
    (item' : WebhookQueueItem) × (cycles config down three_cycles no_counts webhook ≡ some item')
    × (item'.status ≡ failed)
    × (item'.attempts ≡ 5)
cycles_give_up_example =
    cycles_give_up config down dead 2 three_cycles no_counts webhook (omega arith) refl refl

abbrev text : Text
text = b'<' ∷ b'&' ∷ b'a' ∷ []

abbrev shutdown : List Step
shutdown = enqueued text ∷ stopping ∷ enqueued [] ∷ closing ∷ worked ∷ worked ∷ []

steps-Sound_example : Sound (steps new_notifier shutdown)
steps-Sound_example = steps-Sound shutdown

stop_hands_over_example :
    let n = steps new_notifier shutdown in
    let m = steps n (enqueued [] ∷ []) in
    (n.handed ≡ n.accepted) × (m.accepted ≡ n.accepted) × (m.handed ≡ n.handed)
unfolding steps step
stop_hands_over_example = stop_hands_over shutdown (enqueued [] ∷ []) refl
