-- ===== src/Tests/Analytics.antt =====
-- Instances for the analytics of the plants: the hourly statistics, the webhooks and the locks.
use energy_plant_monitoring.Base.{
  not, ℕ, ◌+◌, ◌/◌, Bool, true, false, ◌&&◌, ◌==◌, ◌≡◌, refl, Option, none, some, List, [], ◌∷◌,
  tally, if◌then◌else◌, arith,
}
use energy_plant_monitoring.Errors.{nil, new}
use energy_plant_monitoring.Entities.{Uuid, Time}
use energy_plant_monitoring.Repositories.Models.{EventAnalyticalModel}
use energy_plant_monitoring.Analytics.Queue.{retrying, get_pending_webhooks}
use energy_plant_monitoring.Analytics.Coordinator.{
  AnalyticsCoordinatorConfig, World, Counters, do_dispatch,
}
use energy_plant_monitoring.Analytics.Coordinator.Dispatch.{is_marked_failed}
use energy_plant_monitoring.Analytics.Stats.{
  Tables, Functions, recalculate_dirty_buckets, interval_minutes, dirty_buckets,
}
use energy_plant_monitoring.Analytics.Stats.Recalculated.{Recalculated}
use energy_plant_monitoring.Analytics.Stats.Changes.{
  Change, ingested, recalculated, updated, changes, empty_tables,
}
use energy_plant_monitoring.Analytics.Stats.Consistent.{Consistent, changes-Consistent}
use energy_plant_monitoring.Analytics.Stats.Webhooks.{cycle_world, is_exhausted, failed_by_attempts}
use energy_plant_monitoring.Analytics.Stats.Awaited.{applied}
use energy_plant_monitoring.Analytics.Stats.Delivered.{taking_world, cycle_empties}
use energy_plant_monitoring.Analytics.Coordinator.Dispatch.{is_delivered}
use energy_plant_monitoring.Analytics.Stats.{queue_webhooks, dirty_buckets}
use energy_plant_monitoring.Analytics.Queue.{update_item}
use energy_plant_monitoring.Repositories.Analytical.{time_bucket}
use energy_plant_monitoring.Repositories.Models.Master.{HourlyPlantStats}
use energy_plant_monitoring.Analytics.Locks.{
  is_held_by, is_free_for, AdvisoryLocks, Cluster, began, finished, act, acts, try_advisory_lock,
  release_advisory_lock,
}
use energy_plant_monitoring.Analytics.Locks.Exclusion.{cycles_exclusive}
use energy_plant_monitoring.Analytics.Locks.Leak.{release_elsewhere_leaks}

abbrev functions : Functions
functions = record {
  number = λ _ _. none;
  avg = λ _. none;
  gen_random_uuid = λ k. k.bucket + k.plant_source_id;
}

abbrev event : Uuid → Time → EventAnalyticalModel
event plant at = record {
  created_at = at;
  id = at;
  event_type = "power_reading";
  plant_source_id = plant;
  source = "";
  payload = [];
  metadata = [];
}

abbrev tables : Tables
tables = record {
  events = event 1 100 ∷ event 2 200 ∷ event 1 300 ∷ [];
  plants = [];
  stats = [];
  queue = [];
}

abbrev history : List Change
history =
    ingested (event 1 100)
    ∷ recalculated 1000 600000000000 nil
    ∷ updated 2000 7 1 retrying "timeout"
    ∷ ingested (event 2 3000)
    ∷ recalculated 4000 600000000000 nil
    ∷ []

changes-Consistent_example : Consistent (changes functions history empty_tables)
changes-Consistent_example = changes-Consistent functions history

abbrev config : AnalyticsCoordinatorConfig
config = record {
  aggregator_interval = 0;
  dispatcher_interval = 0;
  lookback_window = 0;
  max_webhook_attempts = 5;
  webhook_batch_size = 100;
  webhook_url = "http://receiver";
  webhook_enabled = true;
}

abbrev zero_counters : Counters
zero_counters = record {
  buckets_processed = 0;
  webhooks_sent = 0;
  webhooks_failed = 0;
  locks_skipped = 0;
}

failed_by_attempts_example :
    let t = changes functions history empty_tables in
    tally is_marked_failed
      (do_dispatch config (cycle_world functions (λ _ _. nil) 5000 t (λ _. [])) zero_counters).1
    ≡ tally (is_exhausted config) (get_pending_webhooks 5000 100 t.queue)
failed_by_attempts_example =
    failed_by_attempts functions history (λ _ _. nil) 5000 (λ _. []) config zero_counters refl

cycle_empties_example :
    let t = changes functions history empty_tables in
    let calls = (do_dispatch config (taking_world functions 5000 t) zero_counters).1 in
    (get_pending_webhooks 5000 100 (applied functions (λ _. 5500) (λ _. 7) calls t).queue ≡ [])
    × (tally is_delivered calls
        ≡ tally (λ wh. not (is_exhausted config wh)) (get_pending_webhooks 5000 100 t.queue))
unfolding recalculate_dirty_buckets queue_webhooks dirty_buckets interval_minutes time_bucket
    update_item get_pending_webhooks do_dispatch
cycle_empties_example =
    cycle_empties functions history (λ _. 5500) (λ _. 7) 5000 config zero_counters 100 refl
      (omega arith)

-- an endpoint that refuses every payload, and webhooks that are always pending
abbrev refusing : World HourlyPlantStats
refusing =
    cycle_world functions (λ _ _. new "503") 5000 (changes functions history empty_tables) (λ _. [])

abbrev Holders : Type 0
Holders = ℕ → Option ℕ

abbrev set_holder : ℕ → Option ℕ → Holders → Holders
set_holder id o l i = if i == id then o else l i

abbrev try_lock : ℕ → ℕ → Holders → Bool × Holders
try_lock s id l = if is_free_for s (l id) then (true, set_holder id (some s) l) else (false, l)

abbrev unlock : ℕ → ℕ → Holders → Holders
unlock s id l = if is_held_by s (l id) then set_holder id none l else l

try_lock-answers : (s id : ℕ) (l : Holders) → (try_lock s id l).0 ≡ is_free_for s (l id)
try_lock-answers s id l = ground arith

try_lock-holds :
    (s id other : ℕ) (l : Holders)
    → (try_lock s id l).1 other ≡ (if other == id && is_free_for s (l id) then some s else l other)
try_lock-holds s id other l = ground arith

unlock-gives_up :
    (s id other : ℕ) (l : Holders)
    → unlock s id l other ≡ (if other == id && (is_held_by s (l id) && true) then none else l other)
unlock-gives_up s id other l = ground arith

-- locks without repeated holds
abbrev postgres : AdvisoryLocks Holders
postgres = record {
  holder = λ id l. l id;
  is_last_hold = λ _ _ _. true;
  try_lock = try_lock;
  unlock = unlock;
  end_session = λ s l id. if is_held_by s (l id) then none else l id;
  try_lock_answers = try_lock-answers;
  try_lock_holds = try_lock-holds;
  unlock_gives_up = unlock-gives_up;
  end_session_gives_up = λ s id l. refl;
}

-- two replicas with two connections each
abbrev owner : ℕ → ℕ
owner session = session / 2

abbrev quiet : Cluster Holders
quiet = record { locks = λ _. none; working = λ _ _. false }

cycles_exclusive_example : ◌≡◌ {A = ℕ} 0 0
unfolding act try_advisory_lock release_advisory_lock
cycles_exclusive_example =
    cycles_exclusive postgres owner (began 0 100001 0 nil ∷ began 1 100001 2 nil ∷ []) quiet
      (λ _ _. refl) (refl, (refl, tt)) 0 0 100001 refl refl

release_elsewhere_leaks_example :
    (acts postgres owner (began 1 100001 2 nil ∷ []) (
        act postgres owner
          (finished 0 100001 1 nil)
          (acts postgres owner (began 0 100001 0 nil ∷ []) quiet))).working
      1 100001
    ≡ false
unfolding act try_advisory_lock release_advisory_lock
release_elsewhere_leaks_example =
    release_elsewhere_leaks postgres owner 100001 0 (began 0 100001 0 nil ∷ [])
      (began 1 100001 2 nil ∷ []) quiet 0 1 nil (λ _ _. refl) (refl, tt) refl refl refl refl
      (refl, tt) 1
