-- ===== src/System/Delivery.antt =====
-- From a message that the consumer of internal/api/kafka_service.go reports as done to the stored
-- event, through the whole of the service.
use energy_plant_monitoring.Base.{
  ℕ, String, Bool, true, false, ◌||◌, ◌&&◌, ap, ◌∙◌, ◌≡◌, List, [], ◌∷◌, ◌++◌, ◌==◌, if◌then◌else◌,
  arith, tally, leb, ◌≤◌, refl, Bool-cases, inl, inr,
}
use energy_plant_monitoring.Errors.{Error, nil, new, is_nil, ok}
use energy_plant_monitoring.Json.{Fields}
use energy_plant_monitoring.Entities.{
  Uuid, AlertRule, EventOperational, EventAnalytical, RawMessage,
}
use energy_plant_monitoring.Alerts.{Lib}
use energy_plant_monitoring.Repositories.Plants.{Lru}
use energy_plant_monitoring.Ingestion.Deps.{Deps}
use energy_plant_monitoring.Ingestion.Store.{event_id}
use energy_plant_monitoring.Ingestion.Process.{handler}
use energy_plant_monitoring.Ingestion.Process.Stored.{Stores, handler_stores}
use energy_plant_monitoring.Kafka.{Client, handle_with_retry}
use energy_plant_monitoring.Kafka.Retry.{is_dlq}
use energy_plant_monitoring.Kafka.Retry.Done.{handle_with_retry_done}
use energy_plant_monitoring.Writer.Save as Save
use energy_plant_monitoring.Writer.Save.{
  has_operational, insert_operational, insert_analytical, has_analytical, Tables,
}
use energy_plant_monitoring.Writer.Save.Idempotent.{insert_operational_present}
use energy_plant_monitoring.Writer.Pipeline.Admitted.{admitted_count}
use energy_plant_monitoring.Writer.Whole.{Writer, steps}
use energy_plant_monitoring.Writer.Whole.Admitted.{Keeps, steps-Keeps, save_admitted}
use energy_plant_monitoring.System.{World, Answers, service, config_of}

abbrev has_row : Uuid → List EventAnalytical → Bool
has_row id [] = false
has_row id (r ∷ rows) = let rest = has_row id rows in if r.id == id then true else rest

-- in both tables
abbrev pub in_tables : {C : Type 0} → Uuid → World C → Bool
in_tables id w = has_operational id w.tables.operational && has_row id w.tables.analytical

-- admitted to both pipelines
abbrev pub is_admitted : {C : Type 0} → Uuid → World C → Bool
is_admitted id w =
    leb 1 (admitted_count (λ (op : EventOperational). op.id == id) w.writer.op)
    && leb 1 (admitted_count (λ (an : EventAnalytical). an.id == id) w.writer.an)

both_positive : (m n : ℕ) → 1 ≤ m → 1 ≤ n → (leb 1 m && leb 1 n) ≡ true
both_positive m n h k = ground arith

still_positive :
    (m n m' n' : ℕ) → m ≤ m' → n ≤ n' → (leb 1 m && leb 1 n) ≡ true → (leb 1 m' && leb 1 n') ≡ true
still_positive m n m' n' h k positive = ground arith

same_number : (m n : ℕ) → m ≡ n → (m == n) ≡ true
same_number m n same = ground arith

refused_or_open :
    (stopping : Bool) (text : String)
    → is_nil (if stopping then new text else nil) ≡ true
    → stopping ≡ false
refused_or_open true text h = cc
refused_or_open false text h = refl

has_row-append :
    (id : Uuid) (rows : List EventAnalytical) (an : EventAnalytical)
    → has_row id (rows ++ an ∷ []) ≡ (has_row id rows || an.id == id)
has_row-append id [] an = ground arith
has_row-append id (r ∷ rows) an = ground (arith, has_row-append id rows an)

has_analytical-has_row :
    (an : EventAnalytical) (rows : List EventAnalytical)
    → has_analytical an rows ≡ true
    → has_row an.id rows ≡ true
has_analytical-has_row an [] h = ground arith
has_analytical-has_row an (r ∷ rows) h = ground (arith, has_analytical-has_row an rows)

insert_analytical-has_row :
    (id : Uuid) (an : EventAnalytical) (t : Tables)
    → an.id ≡ id
    → has_row id (insert_analytical an t).analytical ≡ true
unfolding insert_analytical
insert_analytical-has_row id an t same =
    ground (arith, has_row-append id t.analytical an, has_analytical-has_row an t.analytical)

save_event_in_both :
    (op : EventOperational) (an : EventAnalytical) (op_err an_err : Error) (t : Tables)
    → an.id ≡ op.id
    → let (e, t') = Save.save_event op an op_err an_err t in
      is_nil e ≡ true → (has_operational op.id t'.operational && has_row op.id t'.analytical) ≡ true
unfolding Save.save_event insert_analytical insert_operational
save_event_in_both op an op_err an_err t same h = ground (
  arith,
  insert_operational_present op t,
  insert_analytical-has_row op.id an (insert_operational op t) same,
)

module _ {C : Type 0} (lru : Lru C) (lib : Lib) (rules : List AlertRule) (answers : ℕ → Answers)
    (base : Deps (World C)) where
  in_tables-Stores : Stores (service lru lib rules answers base) (config_of false) in_tables
  unfolding service Save.save_event
  in_tables-Stores = record {
    saves = λ op an w same h.
        save_event_in_both op an (answers w.clock).operational (answers w.clock).analytical w.tables
          same h;
    reads_clock = λ id w h. h;
    upserts = λ id status w h. ground arith;
    alerts = λ id event type plant name fields w h. h;
  }

  ticked-Keeps :
      (id : Uuid) (n : ℕ) (writer : Writer EventOperational EventAnalytical)
      → Keeps
          (λ (op : EventOperational). op.id == id)
          (λ (an : EventAnalytical). an.id == id)
          writer
          (steps (answers n).others writer)
  ticked-Keeps id n writer =
      steps-Keeps (λ (op : EventOperational). op.id == id) (λ (an : EventAnalytical). an.id == id)
        (answers n).others writer

  is_admitted-Stores : Stores (service lru lib rules answers base) (config_of true) is_admitted
  unfolding service
  is_admitted-Stores = record {
    saves = λ op an w same h.
        let admitted =
          save_admitted (λ (o : EventOperational). o.id == op.id)
            (λ (a : EventAnalytical). a.id == op.id) (answers w.clock).others op an w.writer
            (refused_or_open w.writer.op.stopping _ h) (same_number op.id op.id refl)
            (same_number an.id op.id same) in
        both_positive _ _ admitted.0 admitted.1;
    reads_clock = λ id w h.
        let kept = ticked-Keeps id w.clock w.writer in still_positive _ _ _ _ kept.0 kept.1 h;
    upserts = λ id status w h.
        let kept = ticked-Keeps id w.clock w.writer in
        elim (Bool-cases (is_nil (answers w.clock).status)) [
          | inl fine ↦ rw fine (still_positive _ _ _ _ kept.0 kept.1 h)
          | inr bad ↦ rw bad (still_positive _ _ _ _ kept.0 kept.1 h)
        ];
    alerts = λ id event type plant name fields w h. h;
  }

  done_stored :
      {use_async_write : Bool} {stored : Uuid → World C → Bool}
      → Stores (service lru lib rules answers base) (config_of use_async_write) stored
      → (client : Client (World C)) (correlation topic : String) (msg : RawMessage) (w : World C)
      → let deps = service lru lib rules answers base in
        let o =
          handle_with_retry client
            (handler deps (config_of use_async_write))
            correlation
            topic
            msg
            w in
        o.success ≡ true
        → tally is_dlq o.calls ≡ 0
        → (fields : Fields) × (deps.unmarshal msg ≡ ok fields)
          × (stored (event_id deps msg fields) o.world ≡ true)
  done_stored {use_async_write} {stored} laws client correlation topic msg w done quiet =
      let deps = service lru lib rules answers base in
      let config = config_of use_async_write in
      let (w', fine, same) =
        handle_with_retry_done client (handler deps config) correlation topic msg w done quiet in
      let (fields, decodes, kept) = handler_stores deps config stored laws msg w' fine in
      (fields, decodes, ap (stored (event_id deps msg fields)) same ∙ kept)

  -- A message that the consumer, with synchronous writes, reports as done without a dead letter
  -- decodes, and its event is then in both tables: whatever the database answered on the way, however
  -- often the handler ran, and whatever happened during the waits.
  pub done_in_tables :
      (client : Client (World C)) (correlation topic : String) (msg : RawMessage) (w : World C)
      → let deps = service lru lib rules answers base in
        let o = handle_with_retry client (handler deps (config_of false)) correlation topic msg w in
        o.success ≡ true
        → tally is_dlq o.calls ≡ 0
        → (fields : Fields) × (deps.unmarshal msg ≡ ok fields)
          × (in_tables (event_id deps msg fields) o.world ≡ true)
  done_in_tables = done_stored in_tables-Stores

  -- With asynchronous writes, as the container configures the service, a message that the consumer
  -- reports as done without a dead letter decodes, and the writer has admitted its event to both
  -- pipelines: whatever other savers, the workers and Stop do
  -- between the steps of the handler, however often it ran, and whatever happened during the waits.
  pub done_admitted :
      (client : Client (World C)) (correlation topic : String) (msg : RawMessage) (w : World C)
      → let deps = service lru lib rules answers base in
        let o = handle_with_retry client (handler deps (config_of true)) correlation topic msg w in
        o.success ≡ true
        → tally is_dlq o.calls ≡ 0
        → (fields : Fields) × (deps.unmarshal msg ≡ ok fields)
          × (is_admitted (event_id deps msg fields) o.world ≡ true)
  done_admitted = done_stored is_admitted-Stores
