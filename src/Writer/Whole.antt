-- ===== src/Writer/Whole.antt =====
-- The writer of dual_event_writer.go as a whole: its constructor, both pipelines, which share the
-- test of `stopping` and the stop channel, and the goroutine that reports the metrics.
pub mod Reports
pub mod Admitted
use energy_plant_monitoring.Base.{
  ℕ, zero, suc, ◌+◌, ◌-◌, Bool, true, false, not, ◌&&◌, List, [], ◌∷◌, length, if◌then◌else◌,
}
use energy_plant_monitoring.Writer.Pipeline.{
  Pipeline, Action, admit, enqueue, receive, tick, see_stop, finish, set_stopping, close_stop,
  new_pipeline, act,
}
use energy_plant_monitoring.Writer.Pipeline.Drain.{all_exited}

-- `DualEventWriterConfig`; a count of 0 or less is 0
pub record DualEventWriterConfig : Type 0 where
  pub op_worker_count : ℕ
  pub an_worker_count : ℕ

-- a log entry `dual_writer_metrics`
pub record Metrics : Type 0 where
  pub op_total : ℕ
  pub an_total : ℕ
  pub op_last_30s : ℕ
  pub an_last_30s : ℕ
  pub op_channel_len : ℕ
  pub an_channel_len : ℕ

-- `reports` are the entries so far, the latest first; `reporting` ends when the reporter returns
pub record Writer (E F : Type 0) : Type 0 where
  pub op : Pipeline E
  pub an : Pipeline F
  pub last_op_count : ℕ
  pub last_an_count : ℕ
  pub reports : List Metrics
  pub reporting : Bool

pub data Step (E F : Type 0) : Type 0 where
  -- a saver passes the test of `stopping` with its two events, or is turned away
  save : E → F → Step E F
  -- a saver reaches a channel, or a worker of a pipeline acts
  op_step : Action E → Step E F
  an_step : Action F → Step E F
  -- the ticker of the reporter
  report : Step E F
  -- the two stores of `Stop`, and what the reporter does of it
  refuse_new : Step E F
  signal_stop : Step E F
  reporter_stop : Step E F

module _ {E : Type 0} where
  -- an action that is not one of the whole writer
  abbrev pub is_inner : Action E → Bool
  is_inner (admit _) = false
  is_inner set_stopping = false
  is_inner close_stop = false
  is_inner _ = true

  abbrev pub inner : Action E → Pipeline E → Pipeline E
  inner a p = if is_inner a then act p a else p

-- the loops of the workers, in the same words on the two channels
abbrev operational_worker : {E : Type 0} → Action E → Pipeline E → Pipeline E
operational_worker a p = inner a p

abbrev analytical_worker : {F : Type 0} → Action F → Pipeline F → Pipeline F
analytical_worker a p = inner a p

module _ {E F : Type 0} where
  unfoldable pub new_dual_event_writer_with_config : DualEventWriterConfig → Writer E F
  new_dual_event_writer_with_config cfg = record {
    op = new_pipeline cfg.op_worker_count;
    an = new_pipeline cfg.an_worker_count;
    last_op_count = 0;
    last_an_count = 0;
    reports = [];
    reporting = true;
  }

  abbrev new_dual_event_writer : ℕ → Writer E F
  new_dual_event_writer worker_count =
      new_dual_event_writer_with_config
        (record { op_worker_count = worker_count; an_worker_count = worker_count })

  -- the counters never fall, so no difference is negative
  unfoldable pub metrics_of : Writer E F → Metrics
  metrics_of w = record {
    op_total = w.op.sink.events_processed;
    an_total = w.an.sink.events_processed;
    op_last_30s = w.op.sink.events_processed - w.last_op_count;
    an_last_30s = w.an.sink.events_processed - w.last_an_count;
    op_channel_len = length w.op.channel;
    an_channel_len = length w.an.channel;
  }

  unfoldable pub step : Step E F → Writer E F → Writer E F
  unfolding metrics_of
  -- one test of `stopping` for both events
  step (save e f) w = record w {
    op = act w.op (admit e);
    an = act (record w.an { stopping = w.op.stopping }) (admit f);
  }
  step (op_step a) w = record w { op = operational_worker a w.op }
  step (an_step a) w = record w { an = analytical_worker a w.an }
  step report w =
      if w.reporting
      then record w {
        last_op_count = w.op.sink.events_processed;
        last_an_count = w.an.sink.events_processed;
        reports = metrics_of w ∷ w.reports;
      }
      else w
  step refuse_new w = record w { op = act w.op set_stopping; an = act w.an set_stopping }
  step signal_stop w = record w { op = act w.op close_stop; an = act w.an close_stop }
  step reporter_stop w = if w.op.stop_closed then record w { reporting = false } else w

  unfoldable pub steps : List (Step E F) → Writer E F → Writer E F
  unfolding step
  steps [] w = w
  steps (s ∷ rest) w = steps rest (step s w)

  -- `w.wg.Wait()` returns
  abbrev stop_returns : Writer E F → Bool
  stop_returns w = all_exited w.op.workers && (all_exited w.an.workers && not w.reporting)
