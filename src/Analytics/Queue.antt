-- ===== src/Analytics/Queue.antt =====
-- The table of queued webhooks (internal/domain/entities/analytics_entities.go) and the operations
-- of analytics_worker_repo.go on it. Times are nanoseconds. A row is found by its id.
pub mod Backoff
pub mod Pending
use energy_plant_monitoring.Base.{
  ℕ, ◌+◌, ◌*◌, ◌/◌, ◌%◌, ◌^◌, String, Bool, true, false, ◌&&◌, Option, none, some, List, [], ◌∷◌,
  leb, ltb, ◌==◌, if◌then◌else◌, str_eq, take, keep,
}
use energy_plant_monitoring.Entities.{Uuid, Time}

pub data WebhookStatus : Type 0 where
  pending sent failed retrying : WebhookStatus

pub record WebhookQueueItem : Type 0 where
  pub id : Uuid
  pub bucket : Time
  pub plant_source_id : Uuid
  pub status : WebhookStatus
  pub attempts : ℕ
  pub last_attempt : Option Time
  pub next_retry_at : Option Time
  pub error_message : Option String
  pub created_at : Time

-- 2 ^ 63 and 2 ^ 64, for `int`
abbrev pub int_sign : ℕ
int_sign = 9223372036854775808

abbrev pub int_mod : ℕ
int_mod = 18446744073709551616

abbrev pub second : ℕ
second = 1000000000

abbrev pub max_backoff : ℕ
max_backoff = 480

-- `30 * (1 << attempts)`, capped: `none` where the product wraps to a negative number, for which
-- `rand.Int63n` panics. (It never wraps to -1 or -2, where it would not.)
unfoldable pub backoff_base : ℕ → Option ℕ
backoff_base attempts =
    let base = 30 * 2 ^ attempts % int_mod in
    if leb int_sign base then none else some (if ltb max_backoff base then max_backoff else base)

-- `draw` is the random number; `rand.Int63n(n)` is below `n`
unfoldable backoff_seconds : ℕ → ℕ → Option ℕ
unfolding backoff_base
backoff_seconds attempts draw = elim (backoff_base attempts) [
  | none ↦ none
  | some base ↦ some (base + draw % (base / 3 + 1))
]

abbrev pub text_or_nil : String → Option String
text_or_nil text = if str_eq text "" then none else some text

-- the columns that every update sets
abbrev touch : Time → WebhookStatus → String → WebhookQueueItem → WebhookQueueItem
touch now status error_msg item = record item {
  status = status;
  last_attempt = some now;
  error_message = text_or_nil error_msg;
}

-- `UpdateWebhookStatus` on the row that it finds, on a database that answers; `none` is the panic
unfoldable pub update_item :
    Time → ℕ → WebhookStatus → String → WebhookQueueItem → Option WebhookQueueItem
unfolding backoff_seconds
update_item now draw retrying error_msg item = elim (backoff_seconds item.attempts draw) [
  | none ↦ none
  | some backoff ↦ some (record (touch now retrying error_msg item) {
    next_retry_at = some (now + backoff * second);
    attempts = item.attempts + 1;
  })
]
update_item now draw sent error_msg item =
    some (record (touch now sent error_msg item) { next_retry_at = none })
update_item now draw status error_msg item = some (touch now status error_msg item)

abbrev is_due : Time → Option Time → Bool
is_due now none = true
is_due now (some t) = leb t now

abbrev is_open : WebhookStatus → Bool
is_open pending = true
is_open retrying = true
is_open _ = false

-- the `WHERE` of `GetPendingWebhooks`
unfoldable pub is_pending : Time → WebhookQueueItem → Bool
is_pending now item = is_open item.status && is_due now item.next_retry_at

-- `GetPendingWebhooks` over the rows in the order of their creation
unfoldable pub get_pending_webhooks : Time → ℕ → List WebhookQueueItem → List WebhookQueueItem
unfolding is_pending
get_pending_webhooks now limit rows = take limit (keep (is_pending now) rows)

-- The end of the query of `RecalculateDirtyBuckets` for one bucket and plant that is in the queue
-- already: `DO UPDATE SET status = 'PENDING', attempts = 0, error_message = NULL`.
unfoldable pub requeue_item : WebhookQueueItem → WebhookQueueItem
requeue_item item = record item { status = pending; attempts = 0; error_message = none }
