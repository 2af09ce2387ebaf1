-- ===== src/Analytics/Queue/Pending.antt =====
-- The rows that GetPendingWebhooks (analytics_worker_repo.go) reads.
use energy_plant_monitoring.Base.{ℕ, List, All, All-keep, All-take, keep}
use energy_plant_monitoring.Entities.{Time}
use energy_plant_monitoring.Analytics.Queue.{WebhookQueueItem, is_pending, get_pending_webhooks}

-- are rows of the table
pub All-get_pending_webhooks :
    (P : WebhookQueueItem → Type 0) (now : Time) (limit : ℕ) (rows : List WebhookQueueItem)
    → All P rows
    → All P (get_pending_webhooks now limit rows)
unfolding get_pending_webhooks
All-get_pending_webhooks P now limit rows h =
    All-take P limit (keep (is_pending now) rows) (All-keep P (is_pending now) rows h)
