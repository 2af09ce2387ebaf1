-- ===== src/Writer/Save/Idempotent.antt =====
-- Saving an event again: the synchronous save of dual_event_writer.go under redelivery.
use energy_plant_monitoring.Base.{
  true, false, ◌≡◌, ◌≢◌, List, [], ◌∷◌, ◌++◌, arith, if◌then◌else◌, ◌==◌, ◌&&◌,
}
use energy_plant_monitoring.Errors.{Error, nil, is_nil}
use energy_plant_monitoring.Entities.{EventOperational, EventAnalytical, Uuid}
use energy_plant_monitoring.Writer.Save.{
  Tables, has_operational, has_analytical, same_analytical, insert_operational, insert_analytical,
  save_event,
}

pub has_operational-append :
    (id : Uuid) (rows : List EventOperational) (op : EventOperational)
    → has_operational id (rows ++ op ∷ []) ≡ (if has_operational id rows then true else op.id == id)
has_operational-append id [] op = ground arith
has_operational-append id (r ∷ rows) op = ground (arith, has_operational-append id rows op)

has_analytical-append :
    (e : EventAnalytical) (rows : List EventAnalytical) (an : EventAnalytical)
    → has_analytical e (rows ++ an ∷ [])
      ≡ (if has_analytical e rows then true else same_analytical an e)
has_analytical-append e [] an = ground arith
has_analytical-append e (r ∷ rows) an = ground (arith, has_analytical-append e rows an)

pub insert_operational_present :
    (op : EventOperational) (t : Tables)
    → has_operational op.id (insert_operational op t).operational ≡ true
unfolding insert_operational
insert_operational_present op t = ground (arith, has_operational-append op.id t.operational op)

insert_analytical_present :
    (an : EventAnalytical) (t : Tables)
    → has_analytical an (insert_analytical an t).analytical ≡ true
unfolding insert_analytical
insert_analytical_present an t = ground (arith, has_analytical-append an t.analytical an)

-- A save that failed at either insert, tried again with the same event on an answering database,
-- succeeds and leaves the tables as one save without failure does.
pub save_event_retry :
    (op : EventOperational) (an : EventAnalytical) (op_err an_err : Error) (t : Tables)
    → let (err, t') = save_event op an op_err an_err t in
      (save_event op an nil nil t' ≡ save_event op an nil nil t)
      × (is_nil err ≡ is_nil op_err && is_nil an_err)
unfolding save_event
save_event_retry op an op_err an_err t =
    ground (
      arith,
      has_operational-append op.id t.operational op,
      has_analytical-append an t.analytical an,
    )

-- A redelivered message gives the event the same id and a later creation time. Saved after the
-- first delivery, it adds nothing to the operational table, and a second row to the analytical one,
-- unless that already has a row with the same time and id.
pub save_event_redelivered :
    (op op' : EventOperational) (an an' : EventAnalytical) (t : Tables)
    → op'.id ≡ op.id
    → an'.id ≡ an.id
    → an'.created_at ≢ an.created_at
    → has_analytical an' t.analytical ≡ false
    → let t' = (save_event op an nil nil t).1 in
      let t'' = (save_event op' an' nil nil t').1 in
      (t''.operational ≡ t'.operational) × (t''.analytical ≡ t'.analytical ++ an' ∷ [])
unfolding save_event
save_event_redelivered op op' an an' t same same' later fresh = ground (
  arith,
  has_operational-append op.id t.operational op,
  has_analytical-append an' t.analytical an,
)
