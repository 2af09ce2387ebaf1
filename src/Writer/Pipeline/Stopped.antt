-- ===== src/Writer/Pipeline/Stopped.antt =====
-- After Stop of dual_event_writer.go: every admitted event is accounted for if no saver was in
-- flight, and an event of a saver in flight may be left behind.
use energy_plant_monitoring.Base.{
  ℕ, zero, suc, ◌+◌, Bool, true, false, ◌≡◌, refl, ◌∙◌, ap, subst, List, [], ◌∷◌, arith, length,
  tally,
}
use energy_plant_monitoring.Writer.Pipeline.{
  Worker, Sink, Pipeline, Action, admit, enqueue, receive, tick, see_stop, finish, set_stopping,
  close_stop, idle_workers, new_pipeline, take_event, on_tick, on_stop_seen, on_finish, at_worker,
  is_live, act, run,
}
use energy_plant_monitoring.Writer.Pipeline.Conserve.{
  held, sunk, run-Balanced, new_pipeline-Balanced,
}
use energy_plant_monitoring.Writer.Pipeline.Drain.{
  all_exited, some_exited, AllOrderly, run-Orderly, new_pipeline-Orderly, none_exited, run-Quiet,
}

new_pipeline_busy :
    (E : Type 0) (count : ℕ) → (k : ℕ) × (length (new_pipeline {E = E} count).workers ≡ suc k)
unfolding new_pipeline idle_workers
new_pipeline_busy E zero = (1, refl)
new_pipeline_busy E (suc n) = (length (idle_workers {E = E} n), refl)

-- a writer that runs, is told to stop, and goes on until its workers have exited
abbrev pub stopped : {E : Type 0} → ℕ → List (Action E) → List (Action E) → Pipeline E
stopped count earlier later = run (run (new_pipeline count) earlier) (set_stopping ∷ later)

module _ {E : Type 0} where
  length-pool :
      (f : Worker E → Sink E → Worker E × Sink E) (i : ℕ) (ws : List (Worker E)) (s : Sink E)
      → length (at_worker f i ws s).0 ≡ length ws
  unfolding at_worker
  length-pool f i [] s = refl
  length-pool f zero (w ∷ ws) s = ground arith
  length-pool f (suc i) (w ∷ ws) s = ground (arith, length-pool f i ws s)

  length-act : (p : Pipeline E) (a : Action E) → length (act p a).workers ≡ length p.workers
  unfolding act
  length-act p (admit e) = ground arith
  length-act p (enqueue k) = ground arith
  length-act p (receive i copied) = go p.channel refl
    where
      go :
          (channel : List E)
          → p.channel ≡ channel
          → length (act p (receive i copied)).workers ≡ length p.workers
      go [] c = rw (c, act) refl
      go (e ∷ es) c = ground (arith, length-pool (take_event e copied) i p.workers p.sink)
  length-act p (tick i copied) = length-pool (on_tick copied) i p.workers p.sink
  length-act p (see_stop i) =
      length-pool (λ w s. (on_stop_seen p.stop_closed w, s)) i p.workers p.sink
  length-act p (finish i copied) = go p.channel refl
    where
      go :
          (channel : List E)
          → p.channel ≡ channel
          → length (act p (finish i copied)).workers ≡ length p.workers
      go [] c = ground (arith, length-pool (on_finish copied) i p.workers p.sink)
      go (e ∷ es) c = rw (c, act) refl
  length-act p set_stopping = refl
  length-act p close_stop = ground arith

  length-run :
      (p : Pipeline E) (actions : List (Action E))
      → length (run p actions).workers ≡ length p.workers
  unfolding run
  length-run p [] = refl
  length-run p (a ∷ rest) = length-run (act p a) rest ∙ length-act p a

  exited_pool :
      (ws : List (Worker E)) (k : ℕ)
      → length ws ≡ suc k
      → all_exited ws ≡ true
      → some_exited ws ≡ true
  exited_pool [] k h x = absurd (omega arith)
  exited_pool (w ∷ ws) k h x = ground arith

  held-exited :
      (test : E → Bool) (closed : Bool) (ws : List (Worker E))
      → AllOrderly closed ws
      → all_exited ws ≡ true
      → held test ws ≡ 0
  held-exited test closed [] h x = refl
  held-exited test closed (w ∷ ws) h x = ground (arith, held-exited test closed ws h.1)

  -- `Stop` is called when no saver is between the test of `stopping` and the channel, in a writer
  -- that is not stopping yet. Once all workers have exited, whatever the interleaving in between and
  -- for every test on events: as many of the admitted events pass the test as of the dropped, the
  -- written and those of a failed copy together. Nothing is left in the channel or in a batch.
  pub stop_drains :
      (count : ℕ) (earlier later : List (Action E)) (test : E → Bool)
      → (run (new_pipeline count) earlier).in_flight ≡ []
      → (run (new_pipeline count) earlier).stopping ≡ false
      → all_exited (stopped count earlier later).workers ≡ true
      → tally test (stopped count earlier later).admitted
        ≡ tally test (stopped count earlier later).dropped
          + sunk test (stopped count earlier later).sink
  unfolding run act
  stop_drains count earlier later test free fresh exited =
      let p = run (new_pipeline count) earlier in
      let p' = act p set_stopping in
      let q = run p' later in
      let order = run-Orderly (new_pipeline count) earlier (new_pipeline-Orderly count) in
      let order' = run-Orderly p (set_stopping ∷ later) order in
      let balance =
        run-Balanced test p (set_stopping ∷ later)
          (run-Balanced test (new_pipeline count) earlier (new_pipeline-Balanced test count)) in
      let unclosed : p.stop_closed ≡ false = ground (arith, order.stopping_first) in
      let idle : some_exited p.workers ≡ false =
        none_exited p.workers (subst (λ b. AllOrderly b p.workers) unclosed order.pool) in
      let quiet =
        run-Quiet p' later (record { nobody = free; refusing = refl; emptied = λ e. cc }) in
      let (k, busy) = new_pipeline_busy E count in
      let many : length q.workers ≡ suc k =
        length-run p (set_stopping ∷ later) ∙ length-run (new_pipeline count) earlier ∙ busy in
      let empty = quiet.emptied (exited_pool q.workers k many exited) in
      ground (
        arith,
        balance,
        quiet.nobody,
        empty,
        held-exited test q.stop_closed q.workers order'.pool exited,
      )

  exited_idle :
      (f : Worker E → Sink E → Worker E × Sink E) (i : ℕ) (ws : List (Worker E)) (s : Sink E)
      → all_exited ws ≡ true
      → (at_worker f i ws s ≡ (ws, s)) × (is_live i ws ≡ false)
  unfolding at_worker is_live
  exited_idle f i [] s x = (refl, refl)
  exited_idle f zero (w ∷ ws) s x = ground arith
  exited_idle f (suc i) (w ∷ ws) s x = ground (arith, exited_idle f i ws s)

  act_exited :
      (p : Pipeline E) (a : Action E)
      → all_exited p.workers ≡ true
      → ((act p a).sink ≡ p.sink) × ((act p a).workers ≡ p.workers)
  unfolding act
  act_exited p (admit e) x = ground arith
  act_exited p (enqueue k) x = ground arith
  act_exited p (receive i copied) x = go p.channel refl
    where
      go :
          (channel : List E)
          → p.channel ≡ channel
          → ((act p (receive i copied)).sink ≡ p.sink)
            × ((act p (receive i copied)).workers ≡ p.workers)
      go [] c = rw (c, act) (refl, refl)
      go (e ∷ es) c = ground (arith, exited_idle (take_event e copied) i p.workers p.sink x)
  act_exited p (tick i copied) x = ground (arith, exited_idle (on_tick copied) i p.workers p.sink x)
  act_exited p (see_stop i) x =
      ground (arith, exited_idle (λ w s. (on_stop_seen p.stop_closed w, s)) i p.workers p.sink x)
  act_exited p (finish i copied) x = go p.channel refl
    where
      go :
          (channel : List E)
          → p.channel ≡ channel
          → ((act p (finish i copied)).sink ≡ p.sink)
            × ((act p (finish i copied)).workers ≡ p.workers)
      go [] c = ground (arith, exited_idle (on_finish copied) i p.workers p.sink x)
      go (e ∷ es) c = rw (c, act) (refl, refl)
  act_exited p set_stopping x = (refl, refl)
  act_exited p close_stop x = ground arith

  run_exited :
      (p : Pipeline E) (actions : List (Action E))
      → all_exited p.workers ≡ true
      → (run p actions).sink ≡ p.sink
  unfolding run
  run_exited p [] x = refl
  run_exited p (a ∷ rest) x =
      let (same, pool) = act_exited p a x in
      run_exited (act p a) rest (ap all_exited pool ∙ x) ∙ same

  -- the saver of `e` passes the test of `stopping`, and the writer with one worker stops before it
  -- reaches the channel
  abbrev overtaken : E → Bool → Pipeline E
  overtaken e copied =
      run (new_pipeline 1)
        (admit e ∷ set_stopping ∷ close_stop ∷ see_stop 0 ∷ finish 0 copied ∷ enqueue 0 ∷ [])

  -- A saver that is overtaken by `Stop` between its test of `stopping` and the channel leaves its
  -- event, which was admitted, in a channel that no worker reads: all workers have exited, the event
  -- is not dropped, and whatever follows, nothing is written and nothing fails.
  stop_overtakes_saver :
      (e : E) (copied : Bool) (later : List (Action E))
      → let p = overtaken e copied in
        (p.admitted ≡ e ∷ [])
        × (p.channel ≡ e ∷ [])
        × (p.dropped ≡ [])
        × (all_exited p.workers ≡ true)
        × ((run p later).sink ≡ record { written = []; lost = []; events_processed = 0 })
  unfolding new_pipeline run act
  stop_overtakes_saver e copied later =
      (refl, refl, refl, refl, run_exited (overtaken e copied) later refl)
