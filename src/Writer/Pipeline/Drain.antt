-- ===== src/Writer/Pipeline/Drain.antt =====
-- Stopping a pipeline of dual_event_writer.go: what Stop drains, and what it does not.
use energy_plant_monitoring.Base.{
  ℕ, zero, suc, Bool, true, false, ◌&&◌, ◌||◌, ◌≡◌, refl, List, [], ◌∷◌, ◌++◌, arith,
}
use energy_plant_monitoring.Writer.Pipeline.{
  Worker, Sink, Pipeline, Action, admit, enqueue, receive, tick, see_stop, finish, set_stopping,
  close_stop, idle_workers, new_pipeline, flush, take_event, on_tick, on_stop_seen, on_finish,
  at_worker, act, run,
}

module _ {E : Type 0} where
  abbrev pub all_exited : List (Worker E) → Bool
  all_exited [] = true
  all_exited (w ∷ ws) = w.exited && all_exited ws

  abbrev pub some_exited : List (Worker E) → Bool
  some_exited [] = false
  some_exited (w ∷ ws) = w.exited || some_exited ws

  -- a worker drains only once the stop channel is closed, exits only when draining, and exits with
  -- an empty batch
  pub record IsOrderly (closed : Bool) (w : Worker E) : Type 0 where
    pub closed_first : w.draining ≡ true → closed ≡ true
    pub drained_first : w.exited ≡ true → w.draining ≡ true
    pub flushed : w.exited ≡ true → w.batch ≡ []

  abbrev pub AllOrderly : Bool → List (Worker E) → Type 0
  AllOrderly closed [] = Unit
  AllOrderly closed (w ∷ ws) = IsOrderly closed w × AllOrderly closed ws

  abbrev Keeps : Bool → (Worker E → Sink E → Worker E × Sink E) → Type 0
  Keeps closed f =
      (w : Worker E) (s : Sink E)
      → IsOrderly closed w
      → w.exited ≡ false
      → IsOrderly closed (f w s).0

  flush_lem :
      (copied : Bool) (w : Worker E) (s : Sink E)
      → let v = (flush copied w s).0 in
        (v.batch ≡ []) × (v.draining ≡ w.draining) × (v.exited ≡ w.exited)
  unfolding flush
  flush_lem copied w s = ground arith

  take_lem :
      (e : E) (copied : Bool) (w : Worker E) (s : Sink E)
      → let v = (take_event e copied w s).0 in (v.draining ≡ w.draining) × (v.exited ≡ w.exited)
  unfolding take_event
  take_lem e copied w s =
      ground (arith, flush_lem copied (record w { batch = w.batch ++ e ∷ [] }) s)

  take-Keeps : (closed : Bool) (e : E) (copied : Bool) → Keeps closed (take_event e copied)
  take-Keeps closed e copied w s h r = ground (arith, take_lem e copied w s)

  tick_lem :
      (copied : Bool) (w : Worker E) (s : Sink E)
      → let v = (on_tick copied w s).0 in (v.draining ≡ w.draining) × (v.exited ≡ w.exited)
  unfolding on_tick
  tick_lem copied w s = ground (arith, flush_lem copied w s)

  tick-Keeps : (closed copied : Bool) → Keeps closed (on_tick copied)
  tick-Keeps closed copied w s h r = ground (arith, tick_lem copied w s)

  stop_seen-Keeps : (closed : Bool) → Keeps closed (λ w s. (on_stop_seen closed w, s))
  unfolding on_stop_seen
  stop_seen-Keeps closed w s h r = ground arith

  finish-Keeps : (closed copied : Bool) → Keeps closed (on_finish copied)
  unfolding on_finish
  finish-Keeps closed copied w s h r = ground (arith, flush_lem copied w s)

  pool_orderly :
      (closed : Bool) (f : Worker E → Sink E → Worker E × Sink E) (i : ℕ) (ws : List (Worker E))
      (s : Sink E)
      → Keeps closed f
      → AllOrderly closed ws
      → AllOrderly closed (at_worker f i ws s).0
  unfolding at_worker
  pool_orderly closed f i [] s k h = tt
  pool_orderly closed f zero (w ∷ ws) s k h = ground (arith, k w s h.0)
  pool_orderly closed f (suc i) (w ∷ ws) s k h = (h.0, pool_orderly closed f i ws s k h.1)

  stop_seen_exits : (closed : Bool) (w : Worker E) → (on_stop_seen closed w).exited ≡ w.exited
  unfolding on_stop_seen
  stop_seen_exits closed w = ground arith

  -- the pool's exited workers, for an operation that exits none
  pool_exits :
      (f : Worker E → Sink E → Worker E × Sink E) (i : ℕ) (ws : List (Worker E)) (s : Sink E)
      → ((w : Worker E) (t : Sink E) → (f w t).0.exited ≡ w.exited)
      → some_exited (at_worker f i ws s).0 ≡ some_exited ws
  unfolding at_worker
  pool_exits f i [] s k = refl
  pool_exits f zero (w ∷ ws) s k = ground (arith, k w s)
  pool_exits f (suc i) (w ∷ ws) s k = ground (arith, pool_exits f i ws s k)

  pub record Orderly (p : Pipeline E) : Type 0 where
    pub stopping_first : p.stop_closed ≡ true → p.stopping ≡ true
    pub pool : AllOrderly p.stop_closed p.workers

  closing_keeps : (closed : Bool) (ws : List (Worker E)) → AllOrderly closed ws → AllOrderly true ws
  closing_keeps closed [] h = tt
  closing_keeps closed (w ∷ ws) h = (ground arith, closing_keeps closed ws h.1)

  act-Orderly : (p : Pipeline E) (a : Action E) → Orderly p → Orderly (act p a)
  unfolding act
  act-Orderly p (admit e) h = ground arith
  act-Orderly p (enqueue k) h = ground arith
  act-Orderly p (receive i copied) h = go p.channel refl
    where
      go : (channel : List E) → p.channel ≡ channel → Orderly (act p (receive i copied))
      go [] c = rw (c, act) h
      go (e ∷ es) c = ground (
        arith,
        pool_orderly p.stop_closed (take_event e copied) i p.workers p.sink
            (take-Keeps p.stop_closed e copied),
      )
  act-Orderly p (tick i copied) h = record {
    stopping_first = h.stopping_first;
    pool =
        pool_orderly p.stop_closed (on_tick copied) i p.workers p.sink
          (tick-Keeps p.stop_closed copied) h.pool;
  }
  act-Orderly p (see_stop i) h = record {
    stopping_first = h.stopping_first;
    pool =
        pool_orderly p.stop_closed (λ w s. (on_stop_seen p.stop_closed w, s)) i p.workers p.sink
          (stop_seen-Keeps p.stop_closed) h.pool;
  }
  act-Orderly p (finish i copied) h = go p.channel refl
    where
      go : (channel : List E) → p.channel ≡ channel → Orderly (act p (finish i copied))
      go [] c = ground (
        arith,
        pool_orderly p.stop_closed (on_finish copied) i p.workers p.sink
            (finish-Keeps p.stop_closed copied),
      )
      go (e ∷ es) c = ground arith
  act-Orderly p set_stopping h = record { stopping_first = λ _. refl; pool = h.pool }
  act-Orderly p close_stop h = ground (arith, closing_keeps p.stop_closed p.workers h.pool)

  pub run-Orderly :
      (p : Pipeline E) (actions : List (Action E)) → Orderly p → Orderly (run p actions)
  unfolding run
  run-Orderly p [] h = h
  run-Orderly p (a ∷ rest) h = run-Orderly (act p a) rest (act-Orderly p a h)

  idle_workers-AllOrderly :
      (n : ℕ) (ws : List (Worker E)) → idle_workers n ≡ ws → AllOrderly false ws
  unfolding idle_workers
  idle_workers-AllOrderly n [] e = tt
  idle_workers-AllOrderly zero (w ∷ ws) e = cc
  idle_workers-AllOrderly (suc n) (w ∷ ws) e =
      (ground arith, idle_workers-AllOrderly n ws (ground arith))

  pub new_pipeline-Orderly : (count : ℕ) → Orderly (new_pipeline {E = E} count)
  unfolding new_pipeline
  new_pipeline-Orderly zero = record {
    stopping_first = λ e. cc;
    pool = idle_workers-AllOrderly 2 (idle_workers 2) refl;
  }
  new_pipeline-Orderly (suc n) = record {
    stopping_first = λ e. cc;
    pool = idle_workers-AllOrderly (suc n) (idle_workers (suc n)) refl;
  }

  pub none_exited : (ws : List (Worker E)) → AllOrderly false ws → some_exited ws ≡ false
  none_exited [] h = refl
  none_exited (w ∷ ws) h = ground (arith, none_exited ws h.1)

  -- stopping, with no saver in flight
  pub record Quiet (p : Pipeline E) : Type 0 where
    pub nobody : p.in_flight ≡ []
    pub refusing : p.stopping ≡ true
    pub emptied : some_exited p.workers ≡ true → p.channel ≡ []

  act-Quiet : (p : Pipeline E) (a : Action E) → Quiet p → Quiet (act p a)
  unfolding act
  act-Quiet p (admit e) h = ground arith
  act-Quiet p (enqueue k) h = ground arith
  act-Quiet p (receive i copied) h = go p.channel refl
    where
      go : (channel : List E) → p.channel ≡ channel → Quiet (act p (receive i copied))
      go [] c = rw (c, act) h
      go (e ∷ es) c = ground (
        arith,
        pool_exits (take_event e copied) i p.workers p.sink (λ w t. (take_lem e copied w t).1),
      )
  act-Quiet p (tick i copied) h =
      ground
        (arith, pool_exits (on_tick copied) i p.workers p.sink (λ w t. (tick_lem copied w t).1))
  act-Quiet p (see_stop i) h = ground (
    arith,
    pool_exits (λ w s. (on_stop_seen p.stop_closed w, s)) i p.workers p.sink
        (λ w t. stop_seen_exits p.stop_closed w),
  )
  act-Quiet p (finish i copied) h = go p.channel refl
    where
      go : (channel : List E) → p.channel ≡ channel → Quiet (act p (finish i copied))
      go [] c = ground arith
      go (e ∷ es) c = ground arith
  act-Quiet p set_stopping h = ground arith
  act-Quiet p close_stop h = ground arith

  pub run-Quiet : (p : Pipeline E) (actions : List (Action E)) → Quiet p → Quiet (run p actions)
  unfolding run
  run-Quiet p [] h = h
  run-Quiet p (a ∷ rest) h = run-Quiet (act p a) rest (act-Quiet p a h)
