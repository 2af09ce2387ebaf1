-- ===== src/Analytics/Coordinator/Whole/Counted.antt =====
-- What the goroutines of analytics_coordinator.go have counted and called, in every interleaving.
use energy_plant_monitoring.Base.{
  true, ◌≡◌, refl, ◌∙◌, List, [], ◌∷◌, if◌then◌else◌, tally, tally-append, arith, Bool-cases, inl,
  inr,
}
use energy_plant_monitoring.Analytics.Coordinator.{
  AnalyticsCoordinatorConfig, Counters, World, do_aggregation, do_dispatch,
}
use energy_plant_monitoring.Analytics.Coordinator.Dispatch.{
  is_delivered, is_marked_sent, is_marked_failed, do_dispatch-Accounts,
}
use energy_plant_monitoring.Analytics.Coordinator.Whole.{
  Coordinator, Step, aggregate, dispatch, stop, aggregator_stop, dispatcher_stop, reporter_stop,
  new_coordinator, start, step, steps, all_returned,
}

module _ {Stats : Type 0} where
  record Counted (k : Coordinator Stats) : Type 0 where
    sent_counted : k.counters.webhooks_sent ≡ tally is_marked_sent k.calls
    sent_delivered : tally is_marked_sent k.calls ≡ tally is_delivered k.calls
    failed_counted : k.counters.webhooks_failed ≡ tally is_marked_failed k.calls

  -- a cycle of the aggregator marks no webhook
  aggregation_marks_none :
      (config : AnalyticsCoordinatorConfig) (world : World Stats) (c : Counters)
      → let r = do_aggregation config world c in
        (r.0.webhooks_sent ≡ c.webhooks_sent)
        × (r.0.webhooks_failed ≡ c.webhooks_failed)
        × (tally is_marked_sent r.1 ≡ 0)
        × (tally is_delivered r.1 ≡ 0)
        × (tally is_marked_failed r.1 ≡ 0)
  unfolding do_aggregation
  aggregation_marks_none config world c = ground arith

  step-Counted : (s : Step Stats) (k : Coordinator Stats) → Counted k → Counted (step s k)
  unfolding step
  step-Counted start k h = ground (arith, h)
  step-Counted (aggregate world) k h =
      let made = (do_aggregation k.config world k.counters).1 in
      let marks = aggregation_marks_none k.config world k.counters in
      ground (
        arith,
        h,
        marks,
        tally-append is_marked_sent k.calls made,
        tally-append is_delivered k.calls made,
        tally-append is_marked_failed k.calls made,
      )
  step-Counted (dispatch world) k h =
      let made = (do_dispatch k.config world k.counters).1 in
      let accounts = do_dispatch-Accounts k.config world k.counters in
      ground (
        arith,
        h,
        accounts,
        tally-append is_marked_sent k.calls made,
        tally-append is_delivered k.calls made,
        tally-append is_marked_failed k.calls made,
      )
  step-Counted stop k h = ground (arith, h)
  step-Counted aggregator_stop k h = ground (arith, h)
  step-Counted dispatcher_stop k h = ground (arith, h)
  step-Counted reporter_stop k h = ground (arith, h)

  steps-Counted :
      (ss : List (Step Stats)) (k : Coordinator Stats) → Counted k → Counted (steps ss k)
  unfolding steps
  steps-Counted [] k h = h
  steps-Counted (s ∷ rest) k h = steps-Counted rest (step s k) (step-Counted s k h)

  -- nothing is left to act
  record Silent (k k' : Coordinator Stats) : Type 0 where
    returned : all_returned k' ≡ true
    same_calls : k'.calls ≡ k.calls
    same_counters : k'.counters ≡ k.counters

  step-Silent :
      (s : Step Stats) (k : Coordinator Stats) → all_returned k ≡ true → Silent k (step s k)
  unfolding step
  step-Silent start k h = ground (arith, h)
  step-Silent (aggregate world) k h = ground (arith, h)
  step-Silent (dispatch world) k h = ground (arith, h)
  step-Silent stop k h = ground (arith, h)
  step-Silent aggregator_stop k h = ground (arith, h)
  step-Silent dispatcher_stop k h = ground (arith, h)
  step-Silent reporter_stop k h = ground (arith, h)

  steps-Silent :
      (later : List (Step Stats)) (k : Coordinator Stats)
      → all_returned k ≡ true
      → Silent k (steps later k)
  unfolding steps
  steps-Silent [] k h = record { returned = h; same_calls = refl; same_counters = refl }
  steps-Silent (s ∷ later) k h =
      let one = step-Silent s k h in
      let rest = steps-Silent later (step s k) one.returned in
      record {
        returned = rest.returned;
        same_calls = rest.same_calls ∙ one.same_calls;
        same_counters = rest.same_counters ∙ one.same_counters;
      }

  abbrev run : AnalyticsCoordinatorConfig → List (Step Stats) → Coordinator Stats
  run config ss = steps ss (new_coordinator config)

  -- the coordinator after some steps, and after some more if by then all goroutines have returned
  abbrev later_on :
      AnalyticsCoordinatorConfig → List (Step Stats) → List (Step Stats) → Coordinator Stats
  later_on config ss later =
      if all_returned (run config ss) then steps later (run config ss) else run config ss

  -- The steps `ss` from the constructor, and `later` ones.
  record Sound (config : AnalyticsCoordinatorConfig) (ss later : List (Step Stats)) : Type 0 where
    counted : Counted (run config ss)
    final_calls : (later_on config ss later).calls ≡ (run config ss).calls
    final_counters : (later_on config ss later).counters ≡ (run config ss).counters

  -- In every interleaving of Start, the cycles of the coordinator and Stop, the counters are the
  -- webhooks that were marked sent and failed, as many are marked sent as payloads were delivered,
  -- and once the goroutines have returned, nothing is called or counted any more.
  run_coordinator-Sound :
      (config : AnalyticsCoordinatorConfig) (ss later : List (Step Stats)) → Sound config ss later
  unfolding new_coordinator
  run_coordinator-Sound config ss later =
      let k = run config ss in
      record {
        counted =
            steps-Counted ss (new_coordinator config)
              (record { sent_counted = refl; sent_delivered = refl; failed_counted = refl });
        final_calls = elim (Bool-cases (all_returned k)) [
          | inl over ↦ rw over (steps-Silent later k over).same_calls
          | inr running ↦ rw running refl
        ];
        final_counters = elim (Bool-cases (all_returned k)) [
          | inl over ↦ rw over (steps-Silent later k over).same_counters
          | inr running ↦ rw running refl
        ];
      }
