-- ===== src/Analytics/Stats/Changes.antt =====
-- The queue of webhooks and the hourly statistics over time: recalculations and status updates of
-- analytics_worker_repo.go in any order, between events that come in.
use energy_plant_monitoring.Base.{
  ℕ, String, Bool, true, false, ◌≡◌, refl, sym, subst, Option, none, some, List, [], ◌∷◌, ◌==◌,
  if◌then◌else◌, map, first, All, All-map, All-mono, All-upsert_with, arith, Bool-cases,
  Option-cases, inl, inr,
}
use energy_plant_monitoring.Errors.{Error, is_nil, ok}
use energy_plant_monitoring.Entities.{Uuid, Time}
use energy_plant_monitoring.Repositories.Models.{EventAnalyticalModel}
use energy_plant_monitoring.Repositories.Models.Master.{
  EnergyPlantsModel, HourlyPlantStatsModel, HourlyPlantStats, to_hourly_plant_stats_entity,
}
use energy_plant_monitoring.Repositories.Models.Master as Master
use energy_plant_monitoring.Analytics.Queue.{
  WebhookStatus, pending, sent, failed, retrying, WebhookQueueItem, update_item, requeue_item,
}
use energy_plant_monitoring.Analytics.Stats.{
  Tables, Key, Functions, has_key, dirty_buckets, is_item_of, is_stats_of, new_item, queue_webhooks,
  upsert_stats, recalculate_dirty_buckets, interval_minutes, get_hourly_stats,
}
use energy_plant_monitoring.Analytics.Stats.Rows.{first-upserted}

-- `UPDATE ... WHERE id = ?` with the columns of `update_item`; a panic of the backoff updates nothing
abbrev pub updated_row : Time → ℕ → WebhookStatus → String → WebhookQueueItem → WebhookQueueItem
updated_row now draw status error_msg item = elim (update_item now draw status error_msg item) [
  | none ↦ item
  | some item' ↦ item'
]

pub data Change : Type 0 where
  ingested : EventAnalyticalModel → Change
  plants_changed : List EnergyPlantsModel → Change
  -- by the clock, with the lookback window and the error of the statement
  recalculated : Time → ℕ → Error → Change
  -- by the clock, with the random draw, the id, the status and the message
  updated : Time → ℕ → Uuid → WebhookStatus → String → Change

module _ (functions : Functions) where
  abbrev pub change : Change → Tables → Tables
  change (ingested event) t = record t { events = event ∷ t.events }
  change (plants_changed plants) t = record t { plants = plants }
  change (recalculated now lookback_window e) t =
      (recalculate_dirty_buckets functions now lookback_window e t).1
  change (updated now draw id status error_msg) t = record t {
    queue =
        map (λ item. if item.id == id then updated_row now draw status error_msg item else item)
          t.queue;
  }

  abbrev pub changes : List Change → Tables → Tables
  changes [] t = t
  changes (c ∷ cs) t = changes cs (change c t)

abbrev pub empty_tables : Tables
empty_tables = record { events = []; plants = []; stats = []; queue = [] }

abbrev pub item_key : WebhookQueueItem → Key
item_key item = record { bucket = item.bucket; plant_source_id = item.plant_source_id }

abbrev is_some {ℓ} : {A : Type ℓ} → Option A → Bool
is_some none = false
is_some (some _) = true

abbrev pub HasStats : List HourlyPlantStatsModel → Key → Type 0
HasStats rows k = is_some (first (is_stats_of k) rows) ≡ true

pub stats_read :
    (k : Key) (rows : List HourlyPlantStatsModel)
    → HasStats rows k
    → (s : HourlyPlantStats) × (get_hourly_stats k rows ≡ ok (some s))
unfolding get_hourly_stats Master.get_hourly_stats
stats_read k rows h = elim (Option-cases (first (is_stats_of k) rows)) [
  | inl missing ↦ absurd (ground arith)
  | inr (row, there) ↦ rw there (to_hourly_plant_stats_entity row, refl)
]

-- every queued webhook has its statistics
abbrev pub Covered : Tables → Type 0
Covered t = All (λ item. HasStats t.stats (item_key item)) t.queue

members : (ks : List Key) → All (λ k. has_key k ks ≡ true) ks
members [] = tt
members (k ∷ ks) = (ground arith, All-mono ks (λ m h. ground arith) (members ks))

pub updated_row-key :
    (now : Time) (draw : ℕ) (status : WebhookStatus) (error_msg : String) (item : WebhookQueueItem)
    → item_key (updated_row now draw status error_msg item) ≡ item_key item
unfolding update_item
updated_row-key now draw pending error_msg item = refl
updated_row-key now draw sent error_msg item = refl
updated_row-key now draw failed error_msg item = refl
updated_row-key now draw retrying error_msg item = ground arith

All-queued :
    (P : WebhookQueueItem → Type 0) (functions : Functions) (now : Time) (ks : List Key)
    (rows : List WebhookQueueItem)
    → ((item : WebhookQueueItem) → P item → P (requeue_item item))
    → All (λ k. P (new_item functions now k)) ks
    → All P rows
    → All P (queue_webhooks functions now ks rows)
unfolding queue_webhooks
All-queued P functions now [] rows same new h = h
All-queued P functions now (k ∷ ks) rows same new h =
    All-upsert_with (is_item_of k) requeue_item (new_item functions now k) P
      (queue_webhooks functions now ks rows) (All-queued P functions now ks rows same new.1 h) new.0
      same

module _ (functions : Functions) where
  -- statistics stay, whatever changes
  HasStats-change :
      (c : Change) (t : Tables) (k : Key)
      → HasStats t.stats k
      → HasStats (change functions c t).stats k
  unfolding recalculate_dirty_buckets
  HasStats-change (ingested event) t k h = h
  HasStats-change (plants_changed plants) t k h = h
  HasStats-change (recalculated now lookback_window e) t k h =
      let dirty = dirty_buckets now (interval_minutes lookback_window) t.events in
      ground (arith, first-upserted functions now t k dirty t.stats)
  HasStats-change (updated now draw id status error_msg) t k h = h

  recalculated-Covered :
      (now : Time) (dirty : List Key) (t : Tables)
      → Covered t
      → Covered (record t {
        stats = upsert_stats functions now t dirty t.stats;
        queue = queue_webhooks functions now dirty t.queue;
      })
  unfolding requeue_item new_item
  recalculated-Covered now dirty t h =
      let stats' = upsert_stats functions now t dirty t.stats in
      All-queued (λ item. HasStats stats' (item_key item)) functions now dirty t.queue
        (λ item has. has)
        (All-mono dirty (λ k mem. ground (arith, first-upserted functions now t k dirty t.stats))
          (members dirty))
        (All-mono t.queue
          (λ item has. ground (arith, first-upserted functions now t (item_key item) dirty t.stats))
          h)

  pub recalculated_fine :
      (now : Time) (lookback_window : ℕ) (e : Error) (t : Tables)
      → is_nil e ≡ true
      → let dirty = dirty_buckets now (interval_minutes lookback_window) t.events in
        (recalculate_dirty_buckets functions now lookback_window e t).1 ≡ record t {
          stats = upsert_stats functions now t dirty t.stats;
          queue = queue_webhooks functions now dirty t.queue;
        }
  unfolding recalculate_dirty_buckets
  recalculated_fine now lookback_window e t fine = ground arith

  pub recalculated_failed :
      (now : Time) (lookback_window : ℕ) (e : Error) (t : Tables)
      → is_nil e ≡ false
      → (recalculate_dirty_buckets functions now lookback_window e t).1 ≡ t
  unfolding recalculate_dirty_buckets
  recalculated_failed now lookback_window e t bad = ground arith

  Covered-change : (c : Change) (t : Tables) → Covered t → Covered (change functions c t)
  Covered-change (ingested event) t h = h
  Covered-change (plants_changed plants) t h = h
  Covered-change (recalculated now lookback_window e) t h = elim (Bool-cases (is_nil e)) [
    | inl fine ↦
        let dirty = dirty_buckets now (interval_minutes lookback_window) t.events in
        subst Covered (sym (recalculated_fine now lookback_window e t fine))
          (recalculated-Covered now dirty t h)
    | inr bad ↦ subst Covered (sym (recalculated_failed now lookback_window e t bad)) h
  ]
  Covered-change (updated now draw id status error_msg) t h =
      let P = λ (item : WebhookQueueItem). HasStats t.stats (item_key item) in
      All-map P P
        (λ item. if item.id == id then updated_row now draw status error_msg item else item) t.queue
        (λ item h. ground (arith, updated_row-key now draw status error_msg item)) h

  pub Covered-changes :
      (cs : List Change) (t : Tables) → Covered t → Covered (changes functions cs t)
  Covered-changes [] t h = h
  Covered-changes (c ∷ cs) t h = Covered-changes cs (change functions c t) (Covered-change c t h)

  pub HasStats-changes :
      (cs : List Change) (t : Tables) (k : Key)
      → HasStats t.stats k
      → HasStats (changes functions cs t).stats k
  HasStats-changes [] t k h = h
  HasStats-changes (c ∷ cs) t k h =
      HasStats-changes cs (change functions c t) k (HasStats-change c t k h)
