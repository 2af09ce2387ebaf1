-- ===== src/Tests/Writing.antt =====
-- Instances for the writer (dual_event_writer.go) and the repositories beside it.
use energy_plant_monitoring.Base.{
  ℕ, zero, suc, ◌+◌, Bool, true, false, ◌≡◌, refl, List, [], ◌∷◌, none, arith, String, length,
  tally, ◌==◌,
}
use energy_plant_monitoring.Errors.{nil, new, is_nil}
use energy_plant_monitoring.Entities.{Uuid, EventOperational, EventAnalytical}
use energy_plant_monitoring.Writer.Pipeline.{
  Action, admit, enqueue, receive, tick, see_stop, finish, close_stop, new_pipeline, act, run,
  pipeline_buffer_size,
}
use energy_plant_monitoring.Writer.Pipeline.Bounds.{Fits, run_new-Fits}
use energy_plant_monitoring.Writer.Pipeline.Conserve.{sunk, whereabouts, run_conserves}
use energy_plant_monitoring.Writer.Pipeline.Stopped.{stopped, stop_drains}
use energy_plant_monitoring.Writer.Save.{
  Queued, DualEventWriter, Tables, save_event_async, save_event,
}
use energy_plant_monitoring.Writer.Save.Spillover.{save_event_async_loses}
use energy_plant_monitoring.Writer.Save.Idempotent.{save_event_retry}

abbrev is_seven : ℕ → Bool
is_seven n = n == 7

-- two events are saved, and one of them is in the batch of a worker when the other is dropped
abbrev saving : List (Action ℕ)
saving =
    admit 7 ∷ admit 8 ∷ enqueue 1 ∷ receive 0 true ∷ enqueue 0 ∷ tick 0 false ∷ receive 1 true ∷ []

run_new-Fits_example : Fits (run (new_pipeline 2) saving)
run_new-Fits_example = run_new-Fits 2 saving

abbrev closing : List (Action ℕ)
closing = close_stop ∷ see_stop 0 ∷ see_stop 1 ∷ finish 0 true ∷ finish 1 true ∷ []

run_conserves_example :
    tally is_seven (run (new_pipeline 2) saving).admitted
    ≡ whereabouts is_seven (run (new_pipeline 2) saving)
run_conserves_example = run_conserves is_seven 2 saving

stop_drains_example :
    tally is_seven (stopped 2 saving closing).admitted
    ≡ tally is_seven (stopped 2 saving closing).dropped
      + sunk is_seven (stopped 2 saving closing).sink
unfolding new_pipeline run act
stop_drains_example = stop_drains 2 saving closing is_seven refl refl refl

abbrev op : EventOperational
op = record {
  id = 3;
  event_type = "power_reading";
  plant_source_id = 5;
  source = "kafka-intake";
  payload = b'{' ∷ b'}' ∷ [];
  metadata = [];
  created_at = 10;
}

abbrev an : EventAnalytical
an = record {
  created_at = 10;
  id = 3;
  event_type = "power_reading";
  plant_source_id = 5;
  source = "kafka-intake";
  payload = b'{' ∷ b'}' ∷ [];
  metadata = [];
}

abbrev show : Uuid → String
show _ = "3"

abbrev copies : ℕ → List (Queued EventOperational)
copies zero = []
copies (suc n) = record { entity = op; raw_data = none } ∷ copies n

length-copies : (n : ℕ) → length (copies n) ≡ n
length-copies zero = refl
length-copies (suc n) = omega (arith, length-copies n)

abbrev full_writer : DualEventWriter
full_writer = record {
  op_channel = copies pipeline_buffer_size;
  an_channel = [];
  stopping = false;
  has_spillover_func = true;
  spilled = [];
}

save_event_async_loses_example :
    let (e, w') = save_event_async show op an full_writer in
    (e ≡ nil) × (w'.op_channel ≡ full_writer.op_channel) × (w'.spilled ≡ full_writer.spilled)
save_event_async_loses_example =
    save_event_async_loses show op an full_writer refl
      (omega (arith, length-copies pipeline_buffer_size))

abbrev no_rows : Tables
no_rows = record { operational = []; analytical = [] }

save_event_retry_example :
    let (e, t') = save_event op an nil (new "connection reset") no_rows in
    (save_event op an nil nil t' ≡ save_event op an nil nil no_rows) × (is_nil e ≡ false)
save_event_retry_example = save_event_retry op an nil (new "connection reset") no_rows
