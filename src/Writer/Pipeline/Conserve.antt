-- ===== src/Writer/Pipeline/Conserve.antt =====
-- No event is duplicated or vanishes inside a pipeline of dual_event_writer.go.
use energy_plant_monitoring.Base.{
  ℕ, zero, suc, ◌+◌, Bool, ◌≡◌, refl, some, List, [], ◌∷◌, ◌++◌, arith, tally, tally-append,
  if◌then◌else◌, Option-cases, inl, inr,
}
use energy_plant_monitoring.Writer.Pipeline.{
  Worker, Sink, Pipeline, Action, admit, enqueue, receive, tick, see_stop, finish, set_stopping,
  close_stop, idle_workers, new_pipeline, flush, take_event, on_tick, on_stop_seen, on_finish,
  at_worker, offer, pick, is_live, act, run,
}

-- For every test on events: how many events of the pool's batches, and of the sink, pass it.
module _ {E : Type 0} (test : E → Bool) where
  abbrev pub held : List (Worker E) → ℕ
  held [] = 0
  held (w ∷ ws) = tally test w.batch + held ws

  abbrev pub sunk : Sink E → ℕ
  sunk s = tally test s.written + tally test s.lost

  -- a worker's operation moves `gain` events into its batch and the sink
  abbrev Moves : ℕ → (Worker E → Sink E → Worker E × Sink E) → Type 0
  Moves gain f =
      (w : Worker E) (s : Sink E)
      → tally test (f w s).0.batch + sunk (f w s).1 ≡ tally test w.batch + sunk s + gain

  flush-Moves : (copied : Bool) → Moves 0 (flush copied)
  unfolding flush
  flush-Moves copied w s =
      ground (arith, tally-append test s.written w.batch, tally-append test s.lost w.batch)

  take-Moves : (e : E) (copied : Bool) → Moves (tally test (e ∷ [])) (take_event e copied)
  unfolding take_event
  take-Moves e copied w s = ground (
    arith,
    tally-append test w.batch (e ∷ []),
    flush-Moves copied (record w { batch = w.batch ++ e ∷ [] }) s,
  )

  tick-Moves : (copied : Bool) → Moves 0 (on_tick copied)
  unfolding on_tick
  tick-Moves copied w s = ground (arith, flush-Moves copied w s)

  stop_seen-Moves : (closed : Bool) → Moves 0 (λ w s. (on_stop_seen closed w, s))
  unfolding on_stop_seen
  stop_seen-Moves closed w s = ground arith

  finish-Moves : (copied : Bool) → Moves 0 (on_finish copied)
  unfolding on_finish
  finish-Moves copied w s = ground (arith, flush-Moves copied w s)

  pool-Moves :
      (f : Worker E → Sink E → Worker E × Sink E) (gain i : ℕ) (ws : List (Worker E)) (s : Sink E)
      → Moves gain f
      → held (at_worker f i ws s).0 + sunk (at_worker f i ws s).1
        ≡ held ws + sunk s + (if is_live i ws then gain else 0)
  unfolding at_worker is_live
  pool-Moves f gain i [] s m = omega arith
  pool-Moves f gain zero (w ∷ ws) s m = ground (arith, m w s)
  pool-Moves f gain (suc i) (w ∷ ws) s m = ground (arith, pool-Moves f gain i ws s m)

  pool_keeps :
      (f : Worker E → Sink E → Worker E × Sink E) (i : ℕ) (ws : List (Worker E)) (s : Sink E)
      → Moves 0 f
      → held (at_worker f i ws s).0 + sunk (at_worker f i ws s).1 ≡ held ws + sunk s
  pool_keeps f i ws s m = ground (arith, pool-Moves f 0 i ws s m)

  pick_splits :
      (k : ℕ) (es : List E) (e : E) (rest : List E)
      → pick k es ≡ some (e, rest)
      → tally test es ≡ tally test (e ∷ []) + tally test rest
  unfolding pick
  pick_splits k [] e rest h = cc
  pick_splits zero (d ∷ es) e rest h = ground arith
  pick_splits (suc k) (d ∷ es) e rest h = elim (Option-cases (pick k es)) [
    | inl none_left ↦ absurd (cc)
    | inr ((c, cs), found) ↦ ground (arith, pick_splits k es c cs found)
  ]

  -- where the admitted events are
  abbrev pub whereabouts : Pipeline E → ℕ
  whereabouts p =
      tally test p.in_flight
      + tally test p.channel
      + tally test p.dropped
      + (held p.workers + sunk p.sink)

  abbrev Balanced : Pipeline E → Type 0
  Balanced p = tally test p.admitted ≡ whereabouts p

  offer-Balanced :
      (e : E) (p : Pipeline E)
      → tally test p.admitted ≡ whereabouts p + tally test (e ∷ [])
      → Balanced (offer e p)
  unfolding offer
  offer-Balanced e p h =
      ground (arith, tally-append test p.channel (e ∷ []), tally-append test p.dropped (e ∷ []))

  enqueue-Balanced : (k : ℕ) (p : Pipeline E) → Balanced p → Balanced (act p (enqueue k))
  unfolding act
  enqueue-Balanced k p h = elim (Option-cases (pick k p.in_flight)) [
    | inl e ↦ rw (e, act) h
    | inr ((e, es), found) ↦
        rw (found, act)
          (offer-Balanced e (record p { in_flight = es })
            (omega (arith, pick_splits k p.in_flight e es found)))
  ]

  receive-Balanced :
      (i : ℕ) (copied : Bool) (p : Pipeline E) (channel : List E)
      → p.channel ≡ channel
      → Balanced p
      → Balanced (act p (receive i copied))
  unfolding act
  receive-Balanced i copied p [] c h = rw (c, act) h
  receive-Balanced i copied p (e ∷ es) c h = ground (
    arith,
    pool-Moves (take_event e copied) (tally test (e ∷ [])) i p.workers p.sink (take-Moves e copied),
  )

  finish-Balanced :
      (i : ℕ) (copied : Bool) (p : Pipeline E) (channel : List E)
      → p.channel ≡ channel
      → Balanced p
      → Balanced (act p (finish i copied))
  unfolding act
  finish-Balanced i copied p [] c h =
      ground (arith, pool_keeps (on_finish copied) i p.workers p.sink (finish-Moves copied))
  finish-Balanced i copied p (e ∷ es) c h = ground arith

  act-Balanced : (p : Pipeline E) (a : Action E) → Balanced p → Balanced (act p a)
  unfolding act
  act-Balanced p (admit e) h =
      ground (arith, tally-append test p.in_flight (e ∷ []), tally-append test p.admitted (e ∷ []))
  act-Balanced p (enqueue k) h = enqueue-Balanced k p h
  act-Balanced p (receive i copied) h = receive-Balanced i copied p p.channel refl h
  act-Balanced p (tick i copied) h =
      omega (arith, pool_keeps (on_tick copied) i p.workers p.sink (tick-Moves copied))
  act-Balanced p (see_stop i) h = omega (
    arith,
    pool_keeps (λ w s. (on_stop_seen p.stop_closed w, s)) i p.workers p.sink
        (stop_seen-Moves p.stop_closed),
  )
  act-Balanced p (finish i copied) h = finish-Balanced i copied p p.channel refl h
  act-Balanced p set_stopping h = h
  act-Balanced p close_stop h = ground arith

  pub run-Balanced :
      (p : Pipeline E) (actions : List (Action E)) → Balanced p → Balanced (run p actions)
  unfolding run
  run-Balanced p [] h = h
  run-Balanced p (a ∷ rest) h = run-Balanced (act p a) rest (act-Balanced p a h)

  held-idle_workers : (n : ℕ) → held (idle_workers n) ≡ 0
  unfolding idle_workers
  held-idle_workers zero = refl
  held-idle_workers (suc n) = omega (arith, held-idle_workers n)

  pub new_pipeline-Balanced : (count : ℕ) → Balanced (new_pipeline count)
  unfolding new_pipeline
  new_pipeline-Balanced zero = refl
  new_pipeline-Balanced (suc n) = omega (arith, held-idle_workers n)

  -- Whatever the interleaving of savers, workers, ticks, stop and failing copies, and for every test
  -- on events: of the events admitted since the start, as many pass the test as of those in flight,
  -- in the channel, dropped at a full channel, in the workers' batches, written, and lost in a
  -- failed copy, together. So each admitted event is in exactly one of these places.
  pub run_conserves :
      (count : ℕ) (actions : List (Action E))
      → tally test (run (new_pipeline count) actions).admitted
        ≡ whereabouts (run (new_pipeline count) actions)
  run_conserves count actions =
      run-Balanced (new_pipeline count) actions (new_pipeline-Balanced count)
