-- ===== src/Writer/Whole/Admitted.antt =====
-- The events that the writer of dual_event_writer.go has admitted stay recorded, whatever its
-- goroutines do.
use energy_plant_monitoring.Base.{◌≤◌, Bool, true, false, ◌≡◌, List, [], ◌∷◌, arith}
use energy_plant_monitoring.Writer.Pipeline.{Pipeline, Action, admit, set_stopping, close_stop}
use energy_plant_monitoring.Writer.Pipeline.Admitted.{admitted_count, act_admitted, admit_admits}
use energy_plant_monitoring.Writer.Whole.{
  Writer, Step, save, op_step, an_step, report, refuse_new, signal_stop, reporter_stop, inner, step,
  steps,
}

inner_admitted :
    {E : Type 0} (test : E → Bool) (a : Action E) (p : Pipeline E)
    → admitted_count test p ≤ admitted_count test (inner a p)
inner_admitted test a p = ground (arith, act_admitted test p a)

module _ {E F : Type 0} (op_test : E → Bool) (an_test : F → Bool) where
  -- no fewer of the admitted events of either pipeline pass its test
  abbrev pub Keeps : Writer E F → Writer E F → Type 0
  Keeps w w' =
      (admitted_count op_test w.op ≤ admitted_count op_test w'.op)
      × (admitted_count an_test w.an ≤ admitted_count an_test w'.an)

  step-Keeps : (s : Step E F) (w : Writer E F) → Keeps w (step s w)
  unfolding step
  step-Keeps (save e f) w = (
    act_admitted op_test w.op (admit e),
    act_admitted an_test (record w.an { stopping = w.op.stopping }) (admit f),
  )
  step-Keeps (op_step a) w = (inner_admitted op_test a w.op, omega arith)
  step-Keeps (an_step a) w = (omega arith, inner_admitted an_test a w.an)
  step-Keeps report w = ground arith
  step-Keeps refuse_new w =
      (act_admitted op_test w.op set_stopping, act_admitted an_test w.an set_stopping)
  step-Keeps signal_stop w =
      (act_admitted op_test w.op close_stop, act_admitted an_test w.an close_stop)
  step-Keeps reporter_stop w = ground arith

  pub steps-Keeps : (ss : List (Step E F)) (w : Writer E F) → Keeps w (steps ss w)
  unfolding steps
  steps-Keeps [] w = (omega arith, omega arith)
  steps-Keeps (s ∷ ss) w =
      let one = step-Keeps s w in
      let rest = steps-Keeps ss (step s w) in
      (omega (arith, one.0, rest.0), omega (arith, one.1, rest.1))

  -- what a save that is not refused leaves, after any further steps
  pub save_admitted :
      (ss : List (Step E F)) (e : E) (f : F) (w : Writer E F)
      → w.op.stopping ≡ false
      → op_test e ≡ true
      → an_test f ≡ true
      → let w' = steps ss (step (save e f) w) in
        (1 ≤ admitted_count op_test w'.op) × (1 ≤ admitted_count an_test w'.an)
  unfolding step
  save_admitted ss e f w open_still passes passes' =
      let w' = step (save e f) w in
      let kept = steps-Keeps ss w' in
      (
        omega (arith, kept.0, admit_admits op_test w.op e open_still passes),
        omega (
          arith,
          kept.1,
          admit_admits an_test (record w.an { stopping = w.op.stopping }) f open_still passes',
        ),
      )
