-- ===== src/Analytics/Stats/Consistent.antt =====
-- What holds of the tables of analytics_worker_repo.go whatever changes they have seen.
use energy_plant_monitoring.Base.{
  ◌≤◌, Bool, ◌≡◌, refl, sym, subst, List, [], ◌∷◌, map, tally, arith, if◌then◌else◌, ◌==◌,
  Bool-cases, inl, inr,
}
use energy_plant_monitoring.Errors.{is_nil}
use energy_plant_monitoring.Analytics.Queue.{WebhookQueueItem}
use energy_plant_monitoring.Analytics.Stats.{
  Tables, Key, Functions, is_stats_of, is_item_of, dirty_buckets, interval_minutes,
}
use energy_plant_monitoring.Analytics.Stats.Rows.{alone-queued, alone-upserted}
use energy_plant_monitoring.Analytics.Stats.Changes.{
  Change, ingested, plants_changed, recalculated, updated, updated_row, change, changes,
  empty_tables, Covered, Covered-changes, updated_row-key, recalculated_fine, recalculated_failed,
}

-- no bucket and plant stands twice in the statistics or in the queue, and every webhook of the queue
-- has its statistics
pub record Consistent (t : Tables) : Type 0 where
  pub one_row : (k : Key) → tally (is_stats_of k) t.stats ≤ 1
  pub one_webhook : (k : Key) → tally (is_item_of k) t.queue ≤ 1
  pub covered : Covered t

tally-mapped :
    (p : WebhookQueueItem → Bool) (f : WebhookQueueItem → WebhookQueueItem)
    (rows : List WebhookQueueItem)
    → ((item : WebhookQueueItem) → p (f item) ≡ p item)
    → tally p (map f rows) ≡ tally p rows
tally-mapped p f [] same = refl
tally-mapped p f (x ∷ rows) same = ground (arith, same x, tally-mapped p f rows same)

module _ (functions : Functions) where
  abbrev Alone : Key → Tables → Type 0
  Alone k t = (tally (is_stats_of k) t.stats ≤ 1) × (tally (is_item_of k) t.queue ≤ 1)

  Alone-change : (k : Key) (c : Change) (t : Tables) → Alone k t → Alone k (change functions c t)
  Alone-change k (ingested event) t h = h
  Alone-change k (plants_changed plants) t h = h
  Alone-change k (recalculated now lookback_window e) t h = elim (Bool-cases (is_nil e)) [
    | inl fine ↦
        let dirty = dirty_buckets now (interval_minutes lookback_window) t.events in
        subst (Alone k) (sym (recalculated_fine functions now lookback_window e t fine)) (
          alone-upserted functions now t k dirty t.stats h.0,
          alone-queued functions now k dirty t.queue h.1,
        )
    | inr bad ↦ subst (Alone k) (sym (recalculated_failed functions now lookback_window e t bad)) h
  ]
  Alone-change k (updated now draw id status error_msg) t h = (
    h.0,
    rw
        (tally-mapped (is_item_of k)
          (λ item. if item.id == id then updated_row now draw status error_msg item else item)
          t.queue (λ item. ground (arith, updated_row-key now draw status error_msg item)))
        h.1,
  )

  Alone-changes :
      (k : Key) (cs : List Change) (t : Tables) → Alone k t → Alone k (changes functions cs t)
  Alone-changes k [] t h = h
  Alone-changes k (c ∷ cs) t h = Alone-changes k cs (change functions c t) (Alone-change k c t h)

  -- After any recalculations, status updates and new events from empty tables, each bucket and plant
  -- has at most one row of statistics and at most one webhook, and no webhook lacks its statistics.
  pub changes-Consistent : (cs : List Change) → Consistent (changes functions cs empty_tables)
  changes-Consistent cs = record {
    one_row = λ k. (Alone-changes k cs empty_tables (omega arith, omega arith)).0;
    one_webhook = λ k. (Alone-changes k cs empty_tables (omega arith, omega arith)).1;
    covered = Covered-changes functions cs empty_tables tt;
  }
