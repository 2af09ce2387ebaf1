-- ===== src/Analytics/Stats/Rows.antt =====
-- The rows that the two `INSERT`s of RecalculateDirtyBuckets (analytics_worker_repo.go) leave under
-- each key.
use energy_plant_monitoring.Base.{
  ℕ, ◌≤◌, Bool, true, false, ◌&&◌, ◌||◌, ◌≡◌, refl, ◌∙◌, ap, Option, none, some, List, [], ◌∷◌,
  if◌then◌else◌, keep, map, tally, first, updated_or, first-upsert_with, first-upsert_other,
  tally-upsert_with, tally-upsert_other, arith, Bool-cases, inl, inr,
}
use energy_plant_monitoring.Entities.{Time}
use energy_plant_monitoring.Repositories.Models.{EventAnalyticalModel}
use energy_plant_monitoring.Repositories.Models.Master.{HourlyPlantStatsModel}
use energy_plant_monitoring.Analytics.Queue.{WebhookQueueItem, requeue_item}
use energy_plant_monitoring.Analytics.Stats.{
  Tables, Key, Functions, is_recent, key_of, same_key, has_key, distinct, is_stats_of, is_item_of,
  calculated_stats, upserted, new_item, queued, upsert_stats, queue_webhooks,
}

-- an event of this hour and plant came in the last minutes
abbrev pub is_dirty : Time → ℕ → Key → List EventAnalyticalModel → Bool
is_dirty now minutes k [] = false
is_dirty now minutes k (e ∷ events) =
    let rest = is_dirty now minutes k events in
    (is_recent now minutes e && same_key k (key_of e)) || rest

same_key-≡ : (k l : Key) → same_key k l ≡ true → l ≡ k
same_key-≡ k l same = ground arith

pub has_key-distinct : (k : Key) (ks : List Key) → has_key k (distinct ks) ≡ has_key k ks
has_key-distinct k [] = refl
has_key-distinct k (l ∷ ks) =
    ground (arith, has_key-distinct k ks, has_key-distinct l ks, same_key-≡ k l)

pub once :
    (k : Key) (ks : List Key) → tally (same_key k) (distinct ks) ≡ (if has_key k ks then 1 else 0)
once k [] = refl
once k (l ∷ ks) = ground (arith, once k ks, has_key-distinct l ks, same_key-≡ k l)

pub has_key-dirty :
    (now : Time) (minutes : ℕ) (k : Key) (events : List EventAnalyticalModel)
    → has_key k (map key_of (keep (is_recent now minutes) events)) ≡ is_dirty now minutes k events
has_key-dirty now minutes k [] = refl
has_key-dirty now minutes k (e ∷ events) = ground (arith, has_key-dirty now minutes k events)

module _ (functions : Functions) (now : Time) where
  first-upserted_own :
      (s : HourlyPlantStatsModel) (k : Key) (rows : List HourlyPlantStatsModel)
      → is_stats_of k s ≡ true
      → first (is_stats_of k) (upserted functions now s rows) ≡ some s
  first-upserted_own s k [] own = ground arith
  first-upserted_own s k (row ∷ rows) own = ground (arith, first-upserted_own s k rows own)

  first-upserted_other :
      (s : HourlyPlantStatsModel) (k : Key) (rows : List HourlyPlantStatsModel)
      → is_stats_of k s ≡ false
      → first (is_stats_of k) (upserted functions now s rows) ≡ first (is_stats_of k) rows
  first-upserted_other s k [] other = ground arith
  first-upserted_other s k (row ∷ rows) other = ground (arith, first-upserted_other s k rows other)

  -- a second update of the queue would change nothing
  queued_again :
      (k : Key) (o : Option WebhookQueueItem)
      → requeue_item (updated_or requeue_item (new_item functions now k) o)
        ≡ updated_or requeue_item (new_item functions now k) o
  unfolding new_item requeue_item
  queued_again k none = refl
  queued_again k (some item) = refl

  queued_whether :
      (k : Key) (b : Bool) (o : Option WebhookQueueItem)
      → let again = updated_or requeue_item (new_item functions now k) in
        again (if b then some (again o) else o) ≡ again o
  queued_whether k true o = queued_again k o
  queued_whether k false o = refl

  is_stats_of-calculated :
      (t : Tables) (k l : Key) → is_stats_of k (calculated_stats functions now t l) ≡ same_key k l
  unfolding calculated_stats
  is_stats_of-calculated t k l = ground arith

  pub first-upserted :
      (t : Tables) (k : Key) (ks : List Key) (rows : List HourlyPlantStatsModel)
      → first (is_stats_of k) (upsert_stats functions now t ks rows) ≡ (
          if has_key k ks
          then some (calculated_stats functions now t k)
          else first (is_stats_of k) rows)
  unfolding upsert_stats
  first-upserted t k [] rows = refl
  first-upserted t k (l ∷ ks) rows =
      let s = calculated_stats functions now t l in
      let before = upsert_stats functions now t ks rows in
      elim (Bool-cases (same_key k l)) [
        | inl same ↦ rw same (
            first-upserted_own s k before (is_stats_of-calculated t k l ∙ same)
            ∙ ap (λ m. some (calculated_stats functions now t m)) (same_key-≡ k l same))
        | inr other ↦ rw other (
            first-upserted_other s k before (is_stats_of-calculated t k l ∙ other)
            ∙ first-upserted t k ks rows)
      ]

  pub first-queued :
      (k : Key) (ks : List Key) (rows : List WebhookQueueItem)
      → first (is_item_of k) (queue_webhooks functions now ks rows) ≡ (
          if has_key k ks
          then some (updated_or requeue_item (new_item functions now k) (first (is_item_of k) rows))
          else first (is_item_of k) rows)
  unfolding queue_webhooks new_item requeue_item
  first-queued k [] rows = refl
  first-queued k (l ∷ ks) rows = elim (Bool-cases (same_key k l)) [
    | inl same ↦
        let before = queue_webhooks functions now ks rows in
        rw same (
          ap (λ m. first (is_item_of k) (queued functions now m before)) (same_key-≡ k l same)
          ∙ first-upsert_with (is_item_of k) requeue_item (new_item functions now k) before
              (λ x. refl) (ground arith)
          ∙ ap (λ o. some (updated_or requeue_item (new_item functions now k) o))
              (first-queued k ks rows)
          ∙ ap some (queued_whether k (has_key k ks) (first (is_item_of k) rows)))
    | inr other ↦ rw other (
        first-upsert_other (is_item_of l) requeue_item (new_item functions now l) (is_item_of k)
          (queue_webhooks functions now ks rows) (λ x e. ground arith) (λ x. refl) (ground arith)
        ∙ first-queued k ks rows)
  ]

  pub alone-queued :
      (k : Key) (ks : List Key) (rows : List WebhookQueueItem)
      → tally (is_item_of k) rows ≤ 1
      → tally (is_item_of k) (queue_webhooks functions now ks rows) ≤ 1
  unfolding queue_webhooks new_item requeue_item
  alone-queued k [] rows h = h
  alone-queued k (l ∷ ks) rows h = elim (Bool-cases (same_key k l)) [
    | inl same ↦ rw (← same_key-≡ k l same) (
        tally-upsert_with (is_item_of l) requeue_item (new_item functions now l)
          (queue_webhooks functions now ks rows) (λ x. refl)
          (rw (same_key-≡ k l same) (alone-queued k ks rows h)))
    | inr other ↦
        rw
          (tally-upsert_other (is_item_of l) requeue_item (new_item functions now l) (is_item_of k)
            (queue_webhooks functions now ks rows) (λ x. refl) (ground arith))
          (alone-queued k ks rows h)
  ]

module _ (functions : Functions) (now : Time) where
  pub alone-upserted :
      (t : Tables) (k : Key) (ks : List Key) (rows : List HourlyPlantStatsModel)
      → tally (is_stats_of k) rows ≤ 1
      → tally (is_stats_of k) (upsert_stats functions now t ks rows) ≤ 1
  unfolding upsert_stats
  alone-upserted t k [] rows h = h
  alone-upserted t k (l ∷ ks) rows h =
      let new = calculated_stats functions now t l in
      let before = upsert_stats functions now t ks rows in
      elim (Bool-cases (is_stats_of k new)) [
        | inl own ↦ alone_own new before own (alone-upserted t k ks rows h)
        | inr other ↦ rw (counted_other new before other) (alone-upserted t k ks rows h)
      ]
    where
      alone_own :
          (s : HourlyPlantStatsModel) (rows : List HourlyPlantStatsModel)
          → is_stats_of k s ≡ true
          → tally (is_stats_of k) rows ≤ 1
          → tally (is_stats_of k) (upserted functions now s rows) ≤ 1
      alone_own s [] own h = ground arith
      alone_own s (row ∷ rows) own h = ground (arith, alone_own s rows)

      counted_other :
          (s : HourlyPlantStatsModel) (rows : List HourlyPlantStatsModel)
          → is_stats_of k s ≡ false
          → tally (is_stats_of k) (upserted functions now s rows) ≡ tally (is_stats_of k) rows
      counted_other s [] other = ground arith
      counted_other s (row ∷ rows) other = ground (arith, counted_other s rows)
