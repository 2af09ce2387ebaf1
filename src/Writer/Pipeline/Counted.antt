-- ===== src/Writer/Pipeline/Counted.antt =====
-- The counter of processed events of a pipeline of dual_event_writer.go.
use energy_plant_monitoring.Base.{
  ℕ, zero, suc, ◌≤◌, Bool, ◌≡◌, refl, List, [], ◌∷◌, ◌++◌, length, length-append, arith,
  Option-cases, inl, inr,
}
use energy_plant_monitoring.Writer.Pipeline.{
  Worker, Sink, Pipeline, Action, admit, enqueue, receive, tick, see_stop, finish, set_stopping,
  close_stop, flush, take_event, on_tick, on_stop_seen, on_finish, at_worker, offer, pick, act,
}

module _ {E : Type 0} where
  -- the counter is the number of events in the batches that were copied
  abbrev pub Counted : Sink E → Type 0
  Counted s = s.events_processed ≡ length s.written

  abbrev Counts : (Worker E → Sink E → Worker E × Sink E) → Type 0
  Counts f =
      (w : Worker E) (s : Sink E)
      → Counted s
      → (Counted (f w s).1 × (s.events_processed ≤ (f w s).1.events_processed))

  flush-Counts : (copied : Bool) → Counts (flush copied)
  unfolding flush
  flush-Counts copied w s h = ground (arith, length-append s.written w.batch)

  take-Counts : (e : E) (copied : Bool) → Counts (take_event e copied)
  unfolding take_event
  take-Counts e copied w s h =
      ground (arith, flush-Counts copied (record w { batch = w.batch ++ e ∷ [] }) s h)

  tick-Counts : (copied : Bool) → Counts (on_tick copied)
  unfolding on_tick
  tick-Counts copied w s h = ground (arith, flush-Counts copied w s h)

  finish-Counts : (copied : Bool) → Counts (on_finish copied)
  unfolding on_finish
  finish-Counts copied w s h = ground (arith, flush-Counts copied w s h)

  pool-Counts :
      (f : Worker E → Sink E → Worker E × Sink E) (i : ℕ) (ws : List (Worker E)) (s : Sink E)
      → Counts f
      → Counted s
      → Counted (at_worker f i ws s).1
        × (s.events_processed ≤ (at_worker f i ws s).1.events_processed)
  unfolding at_worker
  pool-Counts f i [] s m h = (h, omega arith)
  pool-Counts f zero (w ∷ ws) s m h = ground (arith, m w s h)
  pool-Counts f (suc i) (w ∷ ws) s m h = ground (arith, pool-Counts f i ws s m h)

  abbrev pub Grows : Pipeline E → Pipeline E → Type 0
  Grows p p' = Counted p'.sink × (p.sink.events_processed ≤ p'.sink.events_processed)

  offer-Grows : (e : E) (p : Pipeline E) → Counted p.sink → Grows p (offer e p)
  unfolding offer
  offer-Grows e p h = ground arith

  pub act-Grows : (p : Pipeline E) (a : Action E) → Counted p.sink → Grows p (act p a)
  unfolding act
  act-Grows p (admit e) h = ground arith
  act-Grows p (enqueue k) h = elim (Option-cases (pick k p.in_flight)) [
    | inl e ↦ rw (e, act) (h, omega arith)
    | inr ((e, es), found) ↦ rw (found, act) (offer-Grows e (record p { in_flight = es }) h)
  ]
  act-Grows p (receive i copied) h = received p.channel refl
    where
      received : (channel : List E) → p.channel ≡ channel → Grows p (act p (receive i copied))
      received [] c = rw (c, act) (h, omega arith)
      received (e ∷ es) c =
          ground
            (arith, pool-Counts (take_event e copied) i p.workers p.sink (take-Counts e copied) h)
  act-Grows p (tick i copied) h =
      ground (arith, pool-Counts (on_tick copied) i p.workers p.sink (tick-Counts copied) h)
  act-Grows p (see_stop i) h = ground (
    arith,
    pool-Counts (λ w s. (on_stop_seen p.stop_closed w, s)) i p.workers p.sink
        (λ w s h. (h, omega arith)) h,
  )
  act-Grows p (finish i copied) h = finished p.channel refl
    where
      finished : (channel : List E) → p.channel ≡ channel → Grows p (act p (finish i copied))
      finished [] c =
          ground (arith, pool-Counts (on_finish copied) i p.workers p.sink (finish-Counts copied) h)
      finished (e ∷ es) c = rw (c, act) (h, omega arith)
  act-Grows p set_stopping h = (h, omega arith)
  act-Grows p close_stop h = ground arith

  abbrev SameFlags : Pipeline E → Pipeline E → Type 0
  SameFlags p p' = (p'.stopping ≡ p.stopping) × (p'.stop_closed ≡ p.stop_closed)

  offer_flags : (e : E) (p : Pipeline E) → SameFlags p (offer e p)
  unfolding offer
  offer_flags e p = ground arith

  pub enqueue_flags : (k : ℕ) (p : Pipeline E) → SameFlags p (act p (enqueue k))
  unfolding act
  enqueue_flags k p = elim (Option-cases (pick k p.in_flight)) [
    | inl e ↦ rw (e, act) (refl, refl)
    | inr ((e, es), found) ↦ rw (found, act) (offer_flags e (record p { in_flight = es }))
  ]

  pub receive_flags :
      (i : ℕ) (copied : Bool) (p : Pipeline E) → SameFlags p (act p (receive i copied))
  unfolding act
  receive_flags i copied p = ground arith

  pub finish_flags :
      (i : ℕ) (copied : Bool) (p : Pipeline E) → SameFlags p (act p (finish i copied))
  unfolding act
  finish_flags i copied p = ground arith
