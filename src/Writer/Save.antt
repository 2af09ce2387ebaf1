-- ===== src/Writer/Save.antt =====
-- SaveEvent, SaveEventAsync, SaveEventAsyncWithRaw and handleSpillover of dual_event_writer.go, as
-- one goroutine runs them with no other in between. The tables are lists of rows; `ON CONFLICT DO
-- NOTHING` leaves a table with a row of the same primary key as it is: the id in the operational
-- table, the creation time and the id in the analytical one. (Writer.Whole has the steps of the
-- asynchronous save between those of the other goroutines.)
pub mod Spillover
pub mod Idempotent
pub mod Copy
use Prim.Native.String.{◌++◌ as text_append}
use energy_plant_monitoring.Base.{
  String, Bool, true, false, ◌&&◌, Option, none, some, List, [], ◌∷◌, ◌++◌, length, ltb, ◌==◌,
  if◌then◌else◌,
}
use energy_plant_monitoring.Errors.{Error, nil, new, is_nil}
use energy_plant_monitoring.Entities.{RawMessage, Uuid, EventOperational, EventAnalytical}
use energy_plant_monitoring.Writer.Pipeline.{pipeline_buffer_size}

-- operationalEvent and analyticalEvent; no raw data is the nil slice
pub record Queued (E : Type 0) : Type 0 where
  pub entity : E
  pub raw_data : Option RawMessage

-- `spilled` records the calls of the spillover callback
pub record DualEventWriter : Type 0 where
  pub op_channel : List (Queued EventOperational)
  pub an_channel : List (Queued EventAnalytical)
  pub stopping : Bool
  pub has_spillover_func : Bool
  pub spilled : List (RawMessage × String)

-- `len(channel) < cap(channel)`, the first case of the `select`
abbrev pub has_room : {E : Type 0} → List E → Bool
has_room channel = ltb (length channel) pipeline_buffer_size

spill : Bool → Option RawMessage → String → DualEventWriter → DualEventWriter
spill true (some raw) reason w = record w { spilled = w.spilled ++ (raw, reason) ∷ [] }
spill _ _ reason w = w

unfoldable handle_spillover : Option RawMessage → String → DualEventWriter → DualEventWriter
unfolding spill
handle_spillover raw reason w = spill w.has_spillover_func raw reason w

enqueue_operational : EventOperational → Option RawMessage → DualEventWriter → DualEventWriter
unfolding handle_spillover
enqueue_operational op raw w =
    if has_room w.op_channel
    then record w { op_channel = w.op_channel ++ record { entity = op; raw_data = raw } ∷ [] }
    else handle_spillover raw "operational pipeline full" w

enqueue_analytical : EventAnalytical → Option RawMessage → DualEventWriter → DualEventWriter
enqueue_analytical an raw w =
    if has_room w.an_channel
    then record w { an_channel = w.an_channel ++ record { entity = an; raw_data = raw } ∷ [] }
    else w

module _ (uuid_string : Uuid → String) where
  unfoldable pub save_event_async_with_raw :
      EventOperational
      → EventAnalytical
      → Option RawMessage
      → DualEventWriter
      → Error × DualEventWriter
  unfolding enqueue_operational enqueue_analytical
  save_event_async_with_raw op an raw w =
      if w.stopping
      then (
        new (text_append "DualEventWriter is shutting down, rejecting event " (uuid_string op.id)),
        w,
      )
      else (nil, enqueue_analytical an raw (enqueue_operational op raw w))

  unfoldable pub save_event_async :
      EventOperational → EventAnalytical → DualEventWriter → Error × DualEventWriter
  unfolding save_event_async_with_raw
  save_event_async op an w = save_event_async_with_raw op an none w

pub record Tables : Type 0 where
  pub operational : List EventOperational
  pub analytical : List EventAnalytical

abbrev pub has_operational : Uuid → List EventOperational → Bool
has_operational id [] = false
has_operational id (r ∷ rows) =
    let rest = has_operational id rows in if r.id == id then true else rest

abbrev pub same_analytical : EventAnalytical → EventAnalytical → Bool
same_analytical a b = a.created_at == b.created_at && a.id == b.id

abbrev pub has_analytical : EventAnalytical → List EventAnalytical → Bool
has_analytical e [] = false
has_analytical e (r ∷ rows) =
    let rest = has_analytical e rows in if same_analytical r e then true else rest

unfoldable pub insert_operational : EventOperational → Tables → Tables
insert_operational op t =
    if has_operational op.id t.operational
    then t
    else record t { operational = t.operational ++ op ∷ [] }

unfoldable pub insert_analytical : EventAnalytical → Tables → Tables
insert_analytical an t =
    if has_analytical an t.analytical then t else record t { analytical = t.analytical ++ an ∷ [] }

-- The two errors are what the database answers to the two inserts; an insert that fails changes
-- nothing.
unfoldable pub save_event :
    EventOperational → EventAnalytical → Error → Error → Tables → Error × Tables
unfolding insert_operational insert_analytical
save_event op an op_err an_err t =
    if is_nil op_err
    then (let t' = insert_operational op t in
        if is_nil an_err then (nil, insert_analytical an t') else (an_err, t'))
    else (op_err, t)
