-- ===== src/Writer/Whole/Reports.antt =====
-- The metrics of the writer of dual_event_writer.go against the batches that it copied, and its two pipelines
-- against each other.
use energy_plant_monitoring.Base.{
  ℕ, ◌+◌, ◌≤◌, ◌≡◌, refl, List, [], ◌∷◌, length, arith, Bool-cases, inl, inr,
}
use energy_plant_monitoring.Writer.Pipeline.{
  Pipeline, Action, admit, enqueue, receive, tick, see_stop, finish, set_stopping, close_stop,
  new_pipeline, act,
}
use energy_plant_monitoring.Writer.Whole.{
  DualEventWriterConfig, Metrics, Writer, Step, save, op_step, an_step, report, refuse_new,
  signal_stop, reporter_stop, inner, is_inner, new_dual_event_writer_with_config, metrics_of, step,
  steps,
}
use energy_plant_monitoring.Writer.Pipeline.Counted.{
  Counted, Grows, act-Grows, enqueue_flags, receive_flags, finish_flags,
}

-- the differences that were logged, together
abbrev op_logged : List Metrics → ℕ
op_logged [] = 0
op_logged (m ∷ reports) = m.op_last_30s + op_logged reports

abbrev an_logged : List Metrics → ℕ
an_logged [] = 0
an_logged (m ∷ reports) = m.an_last_30s + an_logged reports

-- Each counter is the number of events in the batches that were copied; what was logged adds up to what the reporter last read,
-- which is no more than that; and the pipelines refuse new events and stop together.
record Sound {E F : Type 0} (w : Writer E F) : Type 0 where
  op_counted : w.op.sink.events_processed ≡ length w.op.sink.written
  an_counted : w.an.sink.events_processed ≡ length w.an.sink.written
  op_adds_up : op_logged w.reports ≡ w.last_op_count
  an_adds_up : an_logged w.reports ≡ w.last_an_count
  op_read : w.last_op_count ≤ length w.op.sink.written
  an_read : w.last_an_count ≤ length w.an.sink.written
  refuse_together : w.op.stopping ≡ w.an.stopping
  stop_together : w.op.stop_closed ≡ w.an.stop_closed

module _ {E : Type 0} where
  inner-Grows : (a : Action E) (p : Pipeline E) → Counted p.sink → Grows p (inner a p)
  inner-Grows a p h = elim (Bool-cases (is_inner a)) [
    | inl acts ↦ rw acts (act-Grows p a h)
    | inr none ↦ rw none (h, omega arith)
  ]

  -- the flags change with the whole writer alone
  inner_flags :
      (a : Action E) (p : Pipeline E)
      → ((inner a p).stopping ≡ p.stopping) × ((inner a p).stop_closed ≡ p.stop_closed)
  unfolding act
  inner_flags (enqueue k) p = enqueue_flags k p
  inner_flags (receive i copied) p = receive_flags i copied p
  inner_flags (finish i copied) p = finish_flags i copied p
  inner_flags (tick i copied) p = (refl, refl)
  inner_flags (see_stop i) p = (refl, refl)
  inner_flags (admit e) p = (refl, refl)
  inner_flags set_stopping p = (refl, refl)
  inner_flags close_stop p = (refl, refl)

module _ {E F : Type 0} where
  step-Sound : (s : Step E F) (w : Writer E F) → Sound w → Sound (step s w)
  unfolding step metrics_of act
  step-Sound (save e f) w h = ground arith
  step-Sound (op_step a) w h =
      let flags = inner_flags a w.op in let grows = inner-Grows a w.op h.op_counted in ground arith
  step-Sound (an_step a) w h =
      let flags = inner_flags a w.an in let grows = inner-Grows a w.an h.an_counted in ground arith
  step-Sound report w h = ground arith
  step-Sound refuse_new w h = ground arith
  step-Sound signal_stop w h = ground arith
  step-Sound reporter_stop w h = ground arith

  steps-Sound : (ss : List (Step E F)) (w : Writer E F) → Sound w → Sound (steps ss w)
  unfolding steps
  steps-Sound [] w h = h
  steps-Sound (s ∷ rest) w h = steps-Sound rest (step s w) (step-Sound s w h)

  -- However savers, workers, reports and Stop interleave, and whatever copies fail: the counter of
  -- each pipeline is the number of events in the batches that it copied, those included whose row was
  -- there already, the differences that the reporter has logged
  -- add up to the total that it last read, which is at most that number, and both pipelines turn new
  -- events away, and stop, at the same moment.
  new_writer-Sound :
      (cfg : DualEventWriterConfig) (ss : List (Step E F))
      → Sound (steps ss (new_dual_event_writer_with_config cfg))
  unfolding new_dual_event_writer_with_config new_pipeline
  new_writer-Sound cfg ss = steps-Sound ss _ (ground arith)
