-- ===== src/Ingestion/Process/Stored.antt =====
-- What a message that was processed without error leaves behind (ProcessEvent of
-- internal/domain/services/event_ingestion_service.go), over any writer and repositories.
use energy_plant_monitoring.Base.{String, Bool, true, ◌≡◌, refl, arith, if◌then◌else◌, inl, inr}
use energy_plant_monitoring.Errors.{
  Error, is_nil, Result, ok, err, new_permanent_error, new_transient_error, Result-cases,
}
use energy_plant_monitoring.Json.{Fields}
use energy_plant_monitoring.Entities.{
  Uuid, RawMessage, EventOperational, EventAnalytical, PlantCurrentStatus,
}
use energy_plant_monitoring.Ingestion.Monad.{Run, M, continue}
use energy_plant_monitoring.Ingestion.Deps.{Deps, Config}
use energy_plant_monitoring.Ingestion.Validate.{
  extract_and_validate_plant_info, validate_plant_exists, validate_event_data, parse_plant_id,
}
use energy_plant_monitoring.Ingestion.Store.{
  event_id, build_event_entities, persist_events, update_plant_status,
}
use energy_plant_monitoring.Ingestion.Process.{
  evaluate_alerts, save_and_report, process_event, decoded, handle_message, error_of, handler,
}

-- the save that the configuration chooses
abbrev pub save :
    {W : Type 0} → Deps W → Config → EventOperational → EventAnalytical → W → Error × W
save deps config op an w =
    if config.use_async_write then deps.save_event_async op an w else deps.save_event op an w

-- What the writer and the repositories promise: after a save without error the event is stored, and
-- no later step takes it away.
pub record Stores {W : Type 0} (deps : Deps W) (config : Config) (stored : Uuid → W → Bool)
    : Type 0 where
  pub saves :
      (op : EventOperational) (an : EventAnalytical) (w : W)
      → an.id ≡ op.id
      → is_nil (save deps config op an w).0 ≡ true
      → stored op.id (save deps config op an w).1 ≡ true
  pub reads_clock : (id : Uuid) (w : W) → stored id w ≡ true → stored id (deps.now w).1 ≡ true
  pub upserts :
      (id : Uuid) (status : PlantCurrentStatus) (w : W)
      → stored id w ≡ true
      → stored id (deps.upsert status w).1 ≡ true
  pub alerts :
      (id : Uuid) (event type plant name : String) (fields : Fields) (w : W)
      → stored id w ≡ true
      → stored id (deps.evaluate_event event type plant name fields w) ≡ true

module _ {W : Type 0} (deps : Deps W) (config : Config) (stored : Uuid → W → Bool)
    (laws : Stores deps config stored) where
  persist_stores :
      (op : EventOperational) (an : EventAnalytical) (w : W)
      → an.id ≡ op.id
      → (persist_events deps config op an w).result ≡ ok tt
      → stored op.id (persist_events deps config op an w).world ≡ true
  unfolding persist_events
  persist_stores op an w same h = ground (arith, laws.saves op an w same)

  update_keeps :
      (id plant : Uuid) (event_type : String) (payload : RawMessage) (fields : Fields) (w : W)
      → stored id w ≡ true
      → stored id (update_plant_status deps config plant event_type payload fields w).world ≡ true
  unfolding update_plant_status
  update_keeps id plant event_type payload fields w h =
      grind (arith, laws.upserts, laws.reads_clock)

  evaluate_keeps :
      (id : Uuid) (op : EventOperational) (event_type : String) (plant : Uuid) (fields : Fields)
      (w : W)
      → stored id w ≡ true
      → stored id (evaluate_alerts deps config op event_type plant fields w).world ≡ true
  unfolding evaluate_alerts
  evaluate_keeps id op event_type plant fields w h = grind (arith, laws.alerts)

  -- of two computations in a row, both have succeeded
  continue-first :
      {A B : Type 0} (r : Run W A) (f : A → M W B) (b : B)
      → (continue r f).result ≡ ok b
      → (a : A) × (r.result ≡ ok a)
        × ((continue r f).world ≡ (f a r.world).world)
        × ((f a r.world).result ≡ ok b)
  continue-first r f b h = elim (Result-cases r.result) [
    | inl (a, e) ↦ (a, e, ground arith, ground arith)
    | inr (e, k) ↦ absurd (ground arith)
  ]

  build_id :
      (payload : RawMessage) (fields : Fields) (plant : Uuid) (event_type source : String) (w : W)
      (events : EventOperational × EventAnalytical)
      → (build_event_entities deps payload fields plant event_type source w).result ≡ ok events
      → (events.0.id ≡ event_id deps payload fields) × (events.1.id ≡ event_id deps payload fields)
  unfolding build_event_entities
  build_id payload fields plant event_type source w events h = ground arith

  save_and_report_stores :
      (payload : RawMessage) (fields : Fields) (info : Uuid × String × String) (w : W)
      → (save_and_report deps config payload fields info w).result ≡ ok tt
      → stored
          (event_id deps payload fields)
          (save_and_report deps config payload fields info w).world
        ≡ true
  unfolding save_and_report
  save_and_report_stores payload fields (plant, event_type, source) w h =
      elim (Result-cases
        (build_event_entities deps payload fields plant event_type source w).result) [
          | inl (events, e) ↦ grind (
            arith,
            persist_stores events.0 events.1,
            update_keeps (event_id deps payload fields),
            evaluate_keeps (event_id deps payload fields),
            build_id payload fields plant event_type source w events e,
          )
          | inr (e, k) ↦ absurd (ground arith)
        ]

  process_event_stores :
      (payload : RawMessage) (fields : Fields) (w : W)
      → (process_event deps config payload fields w).result ≡ ok tt
      → stored (event_id deps payload fields) (process_event deps config payload fields w).world
        ≡ true
  unfolding process_event
  process_event_stores payload fields w h = grind (arith, save_and_report_stores payload fields)

  -- no failure of the service is the error nil
  process_event-error_of :
      (payload : RawMessage) (fields : Fields) (w : W)
      → let r = (process_event deps config payload fields w).result in
        is_nil (error_of deps config r) ≡ true → r ≡ ok tt
  unfolding process_event save_and_report evaluate_alerts update_plant_status persist_events
      build_event_entities validate_event_data validate_plant_exists extract_and_validate_plant_info
      parse_plant_id new_permanent_error new_transient_error
  process_event-error_of payload fields w h = ground arith

  decoded_stores :
      (payload : RawMessage) (r : Result Fields) (w : W)
      → is_nil (error_of deps config (decoded deps config payload r w).result) ≡ true
      → (fields : Fields) × (r ≡ ok fields)
        × (stored (event_id deps payload fields) (decoded deps config payload r w).world ≡ true)
  unfolding decoded new_permanent_error
  decoded_stores payload (ok fields) w h = (
    fields,
    refl,
    process_event_stores payload fields w (process_event-error_of payload fields w h),
  )
  decoded_stores payload (err e) w h = absurd (ground arith)

  -- A message that the handler answered without error decodes, and its event is stored.
  pub handler_stores :
      (payload : RawMessage) (w : W)
      → is_nil (handler deps config payload w).0 ≡ true
      → (fields : Fields) × (deps.unmarshal payload ≡ ok fields)
        × (stored (event_id deps payload fields) (handler deps config payload w).1 ≡ true)
  unfolding handle_message handler
  handler_stores payload w h = decoded_stores payload (deps.unmarshal payload) w h
