-- ===== src/Analytics/Stats/Awaited.antt =====
-- The rows of the queue that wait for their update while a cycle of the dispatcher (doDispatch of
-- analytics_coordinator.go) updates the webhooks that it read.
use energy_plant_monitoring.Base.{
  ℕ, String, Bool, true, false, ◌&&◌, not, ◌≡◌, refl, List, [], ◌∷◌, ◌++◌, ◌==◌, if◌then◌else◌,
  keep, All, All-mono, All-map, arith,
}
use energy_plant_monitoring.Entities.{Uuid, Time}
use energy_plant_monitoring.Repositories.Models.Master.{HourlyPlantStats}
use energy_plant_monitoring.Analytics.Queue.{
  WebhookStatus, sent, failed, WebhookQueueItem, is_pending, update_item,
}
use energy_plant_monitoring.Analytics.Coordinator.{
  Call, recalculated, payload_sent, status_updated, lock_released,
}
use energy_plant_monitoring.Analytics.Stats.{Tables, Functions}
use energy_plant_monitoring.Analytics.Stats.Changes.{Change, updated, updated_row, change, changes}

module _ (clock : Uuid → Time) (draw : Uuid → ℕ) where
  -- the updates among the calls of a cycle, each by the clock of its own
  abbrev updates_of : List (Call HourlyPlantStats) → List Change
  updates_of [] = []
  updates_of (status_updated id status error_msg ∷ calls) =
      updated (clock id) (draw id) id status error_msg ∷ updates_of calls
  updates_of (recalculated _ ∷ calls) = updates_of calls
  updates_of (payload_sent _ _ _ ∷ calls) = updates_of calls
  updates_of (lock_released ∷ calls) = updates_of calls

abbrev id_in : Uuid → List WebhookQueueItem → Bool
id_in id [] = false
id_in id (wh ∷ whs) = let rest = id_in id whs in if id == wh.id then true else rest

-- a row that is pending is one of the webhooks that are still to be handled
abbrev pub Awaited : Time → List WebhookQueueItem → WebhookQueueItem → Type 0
Awaited now whs row = (is_pending now row && not (id_in row.id whs)) ≡ false

pub keep-Awaited :
    (now : Time) (rows : List WebhookQueueItem)
    → All (Awaited now (keep (is_pending now) rows)) rows
keep-Awaited now [] = tt
keep-Awaited now (row ∷ rows) =
    (ground arith, All-mono rows (λ r h. ground arith) (keep-Awaited now rows))

pub nothing_due :
    (now : Time) (rows : List WebhookQueueItem)
    → All (Awaited now []) rows
    → keep (is_pending now) rows ≡ []
nothing_due now [] h = refl
nothing_due now (row ∷ rows) h = ground (arith, nothing_due now rows h.1, h.0)

module _ (functions : Functions) (clock : Uuid → Time) (draw : Uuid → ℕ) where
  -- the tables after the updates of a cycle
  abbrev pub applied : List (Call HourlyPlantStats) → Tables → Tables
  applied calls t = changes functions (updates_of clock draw calls) t

  pub applied-append :
      (xs ys : List (Call HourlyPlantStats)) (t : Tables)
      → applied (xs ++ ys) t ≡ applied ys (applied xs t)
  applied-append [] ys t = refl
  applied-append (status_updated id status error_msg ∷ xs) ys t =
      applied-append xs ys (change functions (updated (clock id) (draw id) id status error_msg) t)
  applied-append (recalculated _ ∷ xs) ys t = applied-append xs ys t
  applied-append (payload_sent _ _ _ ∷ xs) ys t = applied-append xs ys t
  applied-append (lock_released ∷ xs) ys t = applied-append xs ys t

  pub closed_by :
      (now : Time) (status : WebhookStatus) (error_msg : String) (wh : WebhookQueueItem)
      (whs : List WebhookQueueItem) (t : Tables)
      → ((row : WebhookQueueItem)
          → is_pending now (updated_row (clock wh.id) (draw wh.id) status error_msg row) ≡ false)
      → All (Awaited now (wh ∷ whs)) t.queue
      → All (Awaited now whs) (applied (status_updated wh.id status error_msg ∷ []) t).queue
  closed_by now status error_msg wh whs t closes h =
      All-map (Awaited now (wh ∷ whs)) (Awaited now whs)
        (λ row.
          if row.id == wh.id
          then updated_row (clock wh.id) (draw wh.id) status error_msg row
          else row)
        t.queue (λ row awaited. ground (arith, closes row)) h

  pub sent_closes :
      (now at : Time) (n : ℕ) (error_msg : String) (row : WebhookQueueItem)
      → is_pending now (updated_row at n sent error_msg row) ≡ false
  unfolding is_pending update_item
  sent_closes now at n error_msg row = refl

  pub failed_closes :
      (now at : Time) (n : ℕ) (error_msg : String) (row : WebhookQueueItem)
      → is_pending now (updated_row at n failed error_msg row) ≡ false
  unfolding is_pending update_item
  failed_closes now at n error_msg row = refl
