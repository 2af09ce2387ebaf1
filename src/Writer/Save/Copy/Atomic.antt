-- ===== src/Writer/Save/Copy/Atomic.antt =====
-- A batch in the tables (copyOperationalBatch and copyAnalyticalBatch of dual_event_writer.go).
use energy_plant_monitoring.Base.{true, ◌≡◌, refl, List, [], ◌∷◌, arith, if◌then◌else◌}
use energy_plant_monitoring.Errors.{nil, is_nil}
use energy_plant_monitoring.Entities.{Uuid, EventOperational, EventAnalytical}
use energy_plant_monitoring.Writer.Save.{Tables, has_operational, insert_operational}
use energy_plant_monitoring.Writer.Save.Idempotent.{
  has_operational-append, insert_operational_present,
}
use energy_plant_monitoring.Writer.Save.Copy.{
  Answers, insert_all_operational, insert_all_analytical, copy_operational_batch,
  copy_analytical_batch,
}

pub copy_batches_atomic :
    (a : Answers) (ops : List EventOperational) (ans : List EventAnalytical) (t : Tables)
    → let (e, t') = copy_operational_batch a ops t in
      let (e', t'') = copy_analytical_batch a ans t in
      (t' ≡ (if is_nil e then insert_all_operational ops t else t))
      × (t'' ≡ (if is_nil e' then insert_all_analytical ans t else t))
unfolding copy_operational_batch copy_analytical_batch
copy_batches_atomic a ops ans t = (operational ops, analytical ans)
  where
    operational :
        (ops : List EventOperational)
        → let (e, t') = copy_operational_batch a ops t in
          t' ≡ (if is_nil e then insert_all_operational ops t else t)
    operational [] = refl
    operational (op ∷ ops) = ground arith

    analytical :
        (ans : List EventAnalytical)
        → let (e, t') = copy_analytical_batch a ans t in
          t' ≡ (if is_nil e then insert_all_analytical ans t else t)
    analytical [] = refl
    analytical (an ∷ ans) = ground arith

insert_operational_keeps :
    (id : Uuid) (op : EventOperational) (t : Tables)
    → has_operational id t.operational ≡ true
    → has_operational id (insert_operational op t).operational ≡ true
unfolding insert_operational
insert_operational_keeps id op t h = ground (arith, has_operational-append id t.operational op)

insert_all_keeps :
    (id : Uuid) (ops : List EventOperational) (t : Tables)
    → has_operational id t.operational ≡ true
    → has_operational id (insert_all_operational ops t).operational ≡ true
unfolding insert_all_operational
insert_all_keeps id [] t h = h
insert_all_keeps id (op ∷ ops) t h =
    insert_all_keeps id ops (insert_operational op t) (insert_operational_keeps id op t h)

insert_present :
    (op : EventOperational) (t : Tables)
    → has_operational op.id t.operational ≡ true
    → insert_operational op t ≡ t
unfolding insert_operational
insert_present op t h = ground arith

insert_all_again :
    (ops : List EventOperational) (t u : Tables)
    → ((id : Uuid)
        → has_operational id (insert_all_operational ops t).operational ≡ true
        → has_operational id u.operational ≡ true)
    → insert_all_operational ops u ≡ u
unfolding insert_all_operational
insert_all_again [] t u inside = refl
insert_all_again (op ∷ ops) t u inside =
    let there : has_operational op.id u.operational ≡ true =
      inside op.id
        (insert_all_keeps op.id ops (insert_operational op t) (insert_operational_present op t)) in
    rw (insert_present op u there) (insert_all_again ops (insert_operational op t) u inside)

-- A batch of operational events that was copied without an error and is copied again changes
-- nothing, whatever the database answers the second time.
copy_operational_batch_again :
    (a b : Answers) (ops : List EventOperational) (t : Tables)
    → (copy_operational_batch a ops t).0 ≡ nil
    → let t' = (copy_operational_batch a ops t).1 in (copy_operational_batch b ops t').1 ≡ t'
copy_operational_batch_again a b ops t fine =
    let written = (copy_batches_atomic a ops [] t).0 in
    let t' = (copy_operational_batch a ops t).1 in
    let again = (copy_batches_atomic b ops [] t').0 in
    ground (arith, insert_all_again ops t (insert_all_operational ops t) (λ id h. h))
