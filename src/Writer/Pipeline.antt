-- ===== src/Writer/Pipeline.antt =====
-- One pipeline of dual_event_writer.go: a buffered channel and the workers that read it
-- (operationalWorker, and analyticalWorker in the same words), with the goroutines that save events
-- and the one that stops the writer. An interleaving is a list of actions, each an atomic step of
-- one goroutine; an action whose goroutine is not at that point changes nothing. Whether the copy of
-- a batch to the database succeeds is chosen with the action that flushes. Entities stand for the
-- rows that the mappers make of them.
pub mod Admitted
pub mod Conserve
pub mod Bounds
pub mod Counted
pub mod Drain
pub mod Stopped
use energy_plant_monitoring.Base.{
  ℕ, zero, suc, ◌+◌, Bool, true, false, not, ◌&&◌, Option, none, some, List, [], ◌∷◌, ◌++◌, map,
  length, ltb, leb, if◌then◌else◌,
}

abbrev pub pipeline_buffer_size : ℕ
pipeline_buffer_size = 1000

abbrev pub batch_size : ℕ
batch_size = 500

-- `draining` is set when the worker has seen the closed stop channel
pub record Worker (E : Type 0) : Type 0 where
  pub batch : List E
  pub draining : Bool
  pub exited : Bool

-- What the copies of the pipeline make of its events. `written` are those of the batches whose copy
-- succeeded, also those whose row was there already, which `ON CONFLICT DO NOTHING` skips (the module
-- Writer.Save.Copy has the tables themselves); `lost` are those of the batches whose copy failed. The
-- counter is the code's, which adds the length of a batch that was copied.
pub record Sink (E : Type 0) : Type 0 where
  pub written : List E
  pub lost : List E
  pub events_processed : ℕ

-- `in_flight`: events of savers that have passed the test of `stopping` and have not yet reached
-- the channel. `admitted` and `dropped` record the events that passed the test, and those of them
-- that found the channel full.
pub record Pipeline (E : Type 0) : Type 0 where
  pub channel : List E
  pub workers : List (Worker E)
  pub sink : Sink E
  pub stopping : Bool
  pub stop_closed : Bool
  pub in_flight : List E
  pub admitted : List E
  pub dropped : List E

pub data Action (E : Type 0) : Type 0 where
  admit : E → Action E
  enqueue : ℕ → Action E
  receive : ℕ → Bool → Action E
  tick : ℕ → Bool → Action E
  see_stop : ℕ → Action E
  finish : ℕ → Bool → Action E
  set_stopping : Action E
  close_stop : Action E

module _ {E : Type 0} where
  abbrev idle_worker : Worker E
  idle_worker = record { batch = []; draining = false; exited = false }

  idle_workers : ℕ → List (Worker E)
  idle_workers zero = []
  idle_workers (suc n) = idle_worker ∷ idle_workers n

  -- `NewDualEventWriterWithConfig` for one pipeline; a count of 0 is replaced by 2
  unfoldable pub new_pipeline : ℕ → Pipeline E
  unfolding idle_workers
  new_pipeline count = record {
    channel = [];
    workers = idle_workers (elim count [ zero ↦ 2 | suc n ↦ suc n ]);
    sink = record { written = []; lost = []; events_processed = 0 };
    stopping = false;
    stop_closed = false;
    in_flight = [];
    admitted = [];
    dropped = [];
  }

  -- the closure `flush`
  pub flush : Bool → Worker E → Sink E → Worker E × Sink E
  flush copied w s = elim w.batch [
    | [] ↦ (w, s)
    | e ∷ es ↦ (
      record w { batch = [] },
      if copied
          then record s {
            written = s.written ++ (e ∷ es);
            events_processed = s.events_processed + length (e ∷ es);
          }
          else record s { lost = s.lost ++ (e ∷ es) },
    )
  ]

  -- a received event joins the batch, and a full batch is flushed
  pub take_event : E → Bool → Worker E → Sink E → Worker E × Sink E
  unfolding flush
  take_event e copied w s =
      let w' : Worker E = record w { batch = w.batch ++ e ∷ [] } in
      if leb batch_size (length w'.batch) then flush copied w' s else (w', s)

  pub on_tick : Bool → Worker E → Sink E → Worker E × Sink E
  unfolding flush
  on_tick copied w s = if w.draining then (w, s) else flush copied w s

  pub on_stop_seen : Bool → Worker E → Worker E
  on_stop_seen stop_closed w = if stop_closed then record w { draining = true } else w

  -- the `default` of the draining loop, where the channel is empty
  pub on_finish : Bool → Worker E → Sink E → Worker E × Sink E
  unfolding flush
  on_finish copied w s =
      if w.draining
      then (let (w', s') = flush copied w s in (record w' { exited = true }, s'))
      else (w, s)

  -- one worker of the pool acts; a worker that is not there, or has exited, does nothing
  pub at_worker :
      (Worker E → Sink E → Worker E × Sink E)
      → ℕ
      → List (Worker E)
      → Sink E
      → List (Worker E) × Sink E
  at_worker f i [] s = ([], s)
  at_worker f zero (w ∷ ws) s =
      if w.exited then (w ∷ ws, s) else (let (w', s') = f w s in (w' ∷ ws, s'))
  at_worker f (suc i) (w ∷ ws) s = let (ws', s') = at_worker f i ws s in (w ∷ ws', s')

  abbrev with_workers : Pipeline E → List (Worker E) × Sink E → Pipeline E
  with_workers p (ws, s) = record p { workers = ws; sink = s }

  -- a saver reaches the `select` on the channel: there is room, or the event is dropped
  pub offer : E → Pipeline E → Pipeline E
  offer e p =
      if ltb (length p.channel) pipeline_buffer_size
      then record p { channel = p.channel ++ e ∷ [] }
      else record p { dropped = p.dropped ++ e ∷ [] }

  -- the `k`-th of the savers in flight, and the others
  pub pick : ℕ → List E → Option (E × List E)
  pick k [] = none
  pick zero (e ∷ es) = some (e, es)
  pick (suc k) (e ∷ es) = elim (pick k es) [ none ↦ none | some (d, ds) ↦ some (d, e ∷ ds) ]

  -- whether worker `i` is there and runs
  pub is_live : ℕ → List (Worker E) → Bool
  is_live i [] = false
  is_live zero (w ∷ ws) = not w.exited
  is_live (suc i) (w ∷ ws) = is_live i ws

  unfoldable pub act : Pipeline E → Action E → Pipeline E
  unfolding at_worker offer pick is_live take_event on_tick on_stop_seen on_finish
  act p (admit e) =
      if p.stopping
      then p
      else record p { in_flight = p.in_flight ++ e ∷ []; admitted = p.admitted ++ e ∷ [] }
  act p (enqueue k) = elim (pick k p.in_flight) [
    | none ↦ p
    | some (e, es) ↦ offer e (record p { in_flight = es })
  ]
  act p (receive i copied) = elim p.channel [
    | [] ↦ p
    | e ∷ es ↦
        if is_live i p.workers
        then with_workers (record p { channel = es })
            (at_worker (take_event e copied) i p.workers p.sink)
        else p
  ]
  act p (tick i copied) = with_workers p (at_worker (on_tick copied) i p.workers p.sink)
  act p (see_stop i) =
      with_workers p (at_worker (λ w s. (on_stop_seen p.stop_closed w, s)) i p.workers p.sink)
  act p (finish i copied) = elim p.channel [
    | [] ↦ with_workers p (at_worker (on_finish copied) i p.workers p.sink)
    | _ ∷ _ ↦ p
  ]
  act p set_stopping = record p { stopping = true }
  act p close_stop = if p.stopping then record p { stop_closed = true } else p

  unfoldable pub run : Pipeline E → List (Action E) → Pipeline E
  run p [] = p
  run p (a ∷ rest) = run (act p a) rest
