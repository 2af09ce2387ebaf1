-- ===== src/Analytics/Coordinator/Dispatch.antt =====
-- What one cycle of the dispatcher does to the webhooks that it reads (doDispatch of
-- analytics_coordinator.go).
use mathlib.Core.List.{append-nil}
use energy_plant_monitoring.Base.{
  ℕ, ◌+◌, Bool, true, false, ◌&&◌, ◌≡◌, refl, ◌∙◌, ap, ap₂, List, [], ◌∷◌, ◌++◌, map, arith, tally,
  tally-append, if◌then◌else◌, Bool-cases, inl, inr,
}
use energy_plant_monitoring.Errors.{is_nil, Result, ok, err}
use energy_plant_monitoring.Entities.{Uuid}
use energy_plant_monitoring.Analytics.Queue.{WebhookQueueItem, sent, failed}
use energy_plant_monitoring.Analytics.Coordinator.{
  AnalyticsCoordinatorConfig, World, Call, Counters, recalculated, payload_sent, status_updated,
  lock_released, try_advisory_lock, dispatch_one, dispatch_all, pending_answer, do_dispatch,
}

-- the webhooks that a cycle reads
abbrev webhooks_of : Result (List WebhookQueueItem) → List WebhookQueueItem
webhooks_of (ok webhooks) = webhooks
webhooks_of (err _) = []

module _ {Stats : Type 0} where
  abbrev pub is_delivered : Call Stats → Bool
  is_delivered (payload_sent _ _ e) = is_nil e
  is_delivered _ = false

  abbrev pub is_marked_sent : Call Stats → Bool
  is_marked_sent (status_updated _ sent _) = true
  is_marked_sent _ = false

  abbrev pub is_marked_failed : Call Stats → Bool
  is_marked_failed (status_updated _ failed _) = true
  is_marked_failed _ = false

  abbrev pub is_release : Call Stats → Bool
  is_release lock_released = true
  is_release _ = false

  abbrev updated_ids : List (Call Stats) → List Uuid
  updated_ids [] = []
  updated_ids (status_updated id _ _ ∷ calls) = id ∷ updated_ids calls
  updated_ids (_ ∷ calls) = updated_ids calls

  -- From the counters `c`, a cycle ends with the counters and the calls of `r`. It updated the
  -- webhooks `ids`, each once and in this order, and released the lock `releases` times.
  pub record Accounts (c : Counters) (ids : List Uuid) (releases : ℕ)
      (r : Counters × List (Call Stats)) : Type 0 where
    pub updates : updated_ids r.1 ≡ ids
    pub sent_counted : r.0.webhooks_sent ≡ c.webhooks_sent + tally is_marked_sent r.1
    pub sent_delivered : tally is_marked_sent r.1 ≡ tally is_delivered r.1
    pub failed_counted : r.0.webhooks_failed ≡ c.webhooks_failed + tally is_marked_failed r.1
    pub released : tally is_release r.1 ≡ releases

  updated_ids-append :
      (xs ys : List (Call Stats)) → updated_ids (xs ++ ys) ≡ updated_ids xs ++ updated_ids ys
  updated_ids-append [] ys = refl
  updated_ids-append (status_updated id _ _ ∷ xs) ys = ap (λ l. id ∷ l) (updated_ids-append xs ys)
  updated_ids-append (recalculated _ ∷ xs) ys = updated_ids-append xs ys
  updated_ids-append (payload_sent _ _ _ ∷ xs) ys = updated_ids-append xs ys
  updated_ids-append (lock_released ∷ xs) ys = updated_ids-append xs ys

module _ {Stats : Type 0} (config : AnalyticsCoordinatorConfig) (world : World Stats) where
  dispatch_one-Accounts :
      (wh : WebhookQueueItem) (c : Counters)
      → Accounts c (wh.id ∷ []) 0 (dispatch_one config world wh c)
  unfolding dispatch_one
  dispatch_one-Accounts wh c = ground arith

  abbrev ids : List WebhookQueueItem → List Uuid
  ids = map (λ (wh : WebhookQueueItem). wh.id)

  joined :
      (c : Counters) (xs ys : List Uuid) (r s : Counters × List (Call Stats)) (n : ℕ)
      → Accounts c xs 0 r
      → Accounts r.0 ys n s
      → Accounts c (xs ++ ys) n (s.0, r.1 ++ s.1)
  joined c xs ys r s n h k = record {
    updates = updated_ids-append r.1 s.1 ∙ ap₂ ◌++◌ h.updates k.updates;
    sent_counted = ground (arith, tally-append is_marked_sent r.1 s.1);
    sent_delivered =
        ground (arith, tally-append is_marked_sent r.1 s.1, tally-append is_delivered r.1 s.1);
    failed_counted = ground (arith, tally-append is_marked_failed r.1 s.1);
    released = ground (arith, tally-append is_release r.1 s.1);
  }

  dispatch_all-Accounts :
      (whs : List WebhookQueueItem) (c : Counters)
      → Accounts c (ids whs) 0 (dispatch_all config world whs c)
  unfolding dispatch_all
  dispatch_all-Accounts [] c = ground arith
  dispatch_all-Accounts (wh ∷ whs) c =
      let first = dispatch_one config world wh c in
      joined c (wh.id ∷ []) (ids whs) first (dispatch_all config world whs first.0) 0
        (dispatch_one-Accounts wh c) (dispatch_all-Accounts whs first.0)

  -- the webhooks and the releases of the lock that a cycle owes
  abbrev pub owed_ids : List Uuid
  owed_ids =
      if config.webhook_enabled && try_advisory_lock config world world.lock_acquired
      then ids (webhooks_of (world.get_pending_webhooks config.webhook_batch_size))
      else []

  abbrev pub owed_releases : ℕ
  owed_releases =
      if config.webhook_enabled && try_advisory_lock config world world.lock_acquired then 1 else 0

  released-Accounts :
      (pending : Result (List WebhookQueueItem)) (c : Counters)
      → Accounts c (ids (webhooks_of pending)) 1 (pending_answer config world pending c)
  unfolding pending_answer
  released-Accounts (err e) c = ground arith
  released-Accounts (ok whs) c =
      let r = dispatch_all config world whs c in
      rw (← append-nil (ids whs)) (
        joined c (ids whs) [] r (r.0, lock_released ∷ []) 1 (dispatch_all-Accounts whs c)
          (ground arith))

  -- Whatever the repository, the endpoint and the lock answer: if webhooks are enabled and the lock
  -- is acquired, a cycle updates the status of each pending webhook that it read exactly once, in
  -- their order, and releases the lock once; if not, it does neither. It marks as many webhooks sent
  -- as payloads were delivered without error, and counts exactly those it marks sent and failed.
  pub do_dispatch-Accounts :
      (c : Counters) → Accounts c owed_ids owed_releases (do_dispatch config world c)
  unfolding do_dispatch
  do_dispatch-Accounts c = elim (Bool-cases config.webhook_enabled) [
    | inr off ↦ simp off (ground arith)
    | inl on ↦ elim (Bool-cases (try_advisory_lock config world world.lock_acquired)) [
      | inr busy ↦ simp (on, busy) (ground arith)
      | inl got ↦
          simp (on, got)
            (released-Accounts (world.get_pending_webhooks config.webhook_batch_size) c)
    ]
  ]
