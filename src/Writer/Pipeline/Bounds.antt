-- ===== src/Writer/Pipeline/Bounds.antt =====
-- The channel and the batches of a pipeline of dual_event_writer.go stay within their sizes.
use energy_plant_monitoring.Base.{
  ℕ, zero, suc, ◌≤◌, ◌<◌, Bool, ◌≡◌, refl, List, [], ◌∷◌, ◌++◌, arith, length, length-append,
  Option-cases, inl, inr,
}
use energy_plant_monitoring.Writer.Pipeline.{
  Worker, Sink, Pipeline, Action, admit, enqueue, receive, tick, see_stop, finish, set_stopping,
  close_stop, idle_workers, new_pipeline, flush, take_event, on_tick, on_stop_seen, on_finish,
  at_worker, offer, pick, act, run, batch_size, pipeline_buffer_size,
}

module _ {E : Type 0} where
  abbrev BatchesFit : List (Worker E) → Type 0
  BatchesFit [] = Unit
  BatchesFit (w ∷ ws) = (length w.batch < batch_size) × BatchesFit ws

  pub record Fits (p : Pipeline E) : Type 0 where
    pub channel_fits : length p.channel ≤ pipeline_buffer_size
    pub batches_fit : BatchesFit p.workers

  abbrev Keeps : (Worker E → Sink E → Worker E × Sink E) → Type 0
  Keeps f =
      (w : Worker E) (s : Sink E)
      → length w.batch < batch_size
      → length (f w s).0.batch < batch_size

  flush_empties : (copied : Bool) (w : Worker E) (s : Sink E) → (flush copied w s).0.batch ≡ []
  unfolding flush
  flush_empties copied w s = ground arith

  take-Keeps : (e : E) (copied : Bool) → Keeps (take_event e copied)
  unfolding take_event
  take-Keeps e copied w s h = ground (
    arith,
    length-append w.batch (e ∷ []),
    flush_empties copied (record w { batch = w.batch ++ e ∷ [] }) s,
  )

  tick-Keeps : (copied : Bool) → Keeps (on_tick copied)
  unfolding on_tick
  tick-Keeps copied w s h = ground (arith, flush_empties copied w s)

  finish-Keeps : (copied : Bool) → Keeps (on_finish copied)
  unfolding on_finish
  finish-Keeps copied w s h = ground (arith, flush_empties copied w s)

  stop_seen-Keeps : (closed : Bool) → Keeps (λ w s. (on_stop_seen closed w, s))
  unfolding on_stop_seen
  stop_seen-Keeps closed w s h = ground arith

  pool_fits :
      (f : Worker E → Sink E → Worker E × Sink E) (i : ℕ) (ws : List (Worker E)) (s : Sink E)
      → Keeps f
      → BatchesFit ws
      → BatchesFit (at_worker f i ws s).0
  unfolding at_worker
  pool_fits f i [] s k h = tt
  pool_fits f zero (w ∷ ws) s k h = ground (arith, k w s)
  pool_fits f (suc i) (w ∷ ws) s k h = (h.0, pool_fits f i ws s k h.1)

  offer-Fits : (e : E) (p : Pipeline E) → Fits p → Fits (offer e p)
  unfolding offer
  offer-Fits e p h = ground (arith, length-append p.channel (e ∷ []))

  act-Fits : (p : Pipeline E) (a : Action E) → Fits p → Fits (act p a)
  unfolding act
  act-Fits p (admit e) h = ground arith
  act-Fits p (enqueue k) h = elim (Option-cases (pick k p.in_flight)) [
    | inl e ↦ rw (e, act) h
    | inr ((e, es), found) ↦
        rw (found, act) (offer-Fits e (record p { in_flight = es }) (ground arith))
  ]
  act-Fits p (receive i copied) h = go p.channel refl
    where
      go : (channel : List E) → p.channel ≡ channel → Fits (act p (receive i copied))
      go [] c = rw (c, act) h
      go (e ∷ es) c =
          ground (arith, pool_fits (take_event e copied) i p.workers p.sink (take-Keeps e copied))
  act-Fits p (tick i copied) h = record {
    channel_fits = h.channel_fits;
    batches_fit = pool_fits (on_tick copied) i p.workers p.sink (tick-Keeps copied) h.batches_fit;
  }
  act-Fits p (see_stop i) h = record {
    channel_fits = h.channel_fits;
    batches_fit =
        pool_fits (λ w s. (on_stop_seen p.stop_closed w, s)) i p.workers p.sink
          (stop_seen-Keeps p.stop_closed) h.batches_fit;
  }
  act-Fits p (finish i copied) h = go p.channel refl
    where
      go : (channel : List E) → p.channel ≡ channel → Fits (act p (finish i copied))
      go [] c =
          ground (arith, pool_fits (on_finish copied) i p.workers p.sink (finish-Keeps copied))
      go (e ∷ es) c = ground arith
  act-Fits p set_stopping h = record { channel_fits = h.channel_fits; batches_fit = h.batches_fit }
  act-Fits p close_stop h = ground arith

  run-Fits : (p : Pipeline E) (actions : List (Action E)) → Fits p → Fits (run p actions)
  unfolding run
  run-Fits p [] h = h
  run-Fits p (a ∷ rest) h = run-Fits (act p a) rest (act-Fits p a h)

  idle_workers-BatchesFit : (n : ℕ) (ws : List (Worker E)) → idle_workers n ≡ ws → BatchesFit ws
  unfolding idle_workers
  idle_workers-BatchesFit n [] e = tt
  idle_workers-BatchesFit zero (w ∷ ws) e = cc
  idle_workers-BatchesFit (suc n) (w ∷ ws) e =
      (ground arith, idle_workers-BatchesFit n ws (ground arith))

  new_pipeline-Fits : (count : ℕ) → Fits (new_pipeline {E = E} count)
  unfolding new_pipeline
  new_pipeline-Fits zero = omega arith
  new_pipeline-Fits (suc n) = record {
    channel_fits = omega arith;
    batches_fit = idle_workers-BatchesFit (suc n) (idle_workers (suc n)) refl;
  }

  -- Whatever the interleaving: the channel never holds more than `pipeline_buffer_size` events, and
  -- between two actions every worker's batch is smaller than `batch_size`.
  pub run_new-Fits :
      (count : ℕ) (actions : List (Action E)) → Fits (run (new_pipeline {E = E} count) actions)
  run_new-Fits count actions = run-Fits (new_pipeline count) actions (new_pipeline-Fits count)
