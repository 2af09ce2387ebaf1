-- ===== src/System.antt =====
-- The service as NewContainer of internal/infrastructure/container/container.go puts it together:
-- the ingestion service on the dual writer, the plant and status repositories and the alert rules.
-- The world is the two tables of events, the table of statuses, the writer with its two pipelines, the
-- cache of plants, the notifications and a clock, whose ticks also number what the database answers
-- and what the other goroutines do to the writer. Its savers, workers, reporter and Stop act between
-- any two effects of a handler, and between the test of `stopping` and the sends to the channels,
-- which are steps of the writer that come later, the saver's own ones among them.
pub mod Delivery
pub mod Webhooks
pub mod Redelivered
use Prim.Native.String.{◌++◌ as text_append}
use energy_plant_monitoring.Base.{
  ℕ, ◌+◌, String, Bool, true, false, Option, List, ◌++◌, if◌then◌else◌,
}
use energy_plant_monitoring.Errors.{Error, nil, new, is_nil, Result, ok, err}
use energy_plant_monitoring.Json.{Fields}
use energy_plant_monitoring.Entities.{
  Uuid, EventOperational, EventAnalytical, PlantCurrentStatus, AlertRule,
}
use energy_plant_monitoring.Ingestion.Deps.{Deps, Config}
use energy_plant_monitoring.Writer.Save as Save
use energy_plant_monitoring.Writer.Save.{Tables}
use energy_plant_monitoring.Writer.Whole.{Writer, Step, save, step, steps}
use energy_plant_monitoring.Repositories.Models.{PlantCurrentStatusModel}
use energy_plant_monitoring.Repositories.Plants as Plants
use energy_plant_monitoring.Repositories.Plants.{Lru}
use energy_plant_monitoring.Alerts as Alerts
use energy_plant_monitoring.Alerts.{Lib, Notification}

pub record World (C : Type 0) : Type 0 where
  pub tables : Tables
  pub statuses : List PlantCurrentStatusModel
  pub writer : Writer EventOperational EventAnalytical
  pub cache : Option C
  pub notifications : List Notification
  pub clock : ℕ

-- what the database answers to the queries of one tick, and what others do to the writer meanwhile
pub record Answers : Type 0 where
  pub operational : Error
  pub analytical : Error
  pub status : Error
  pub plants : Uuid → Result ℕ
  pub others : List (Step EventOperational EventAnalytical)

-- the answer of `Exists` as the service reads it
abbrev answered : Result Bool → Error × Bool
answered (ok found) = (nil, found)
answered (err e) = (e, false)

abbrev tick : {C : Type 0} → (ℕ → Answers) → World C → World C
tick answers w = record w { clock = w.clock + 1; writer = steps (answers w.clock).others w.writer }

-- `base` is what the service takes from its packages and from the notifier.
module _ {C : Type 0} (lru : Lru C) (lib : Lib) (rules : List AlertRule) (answers : ℕ → Answers)
    (base : Deps (World C)) where
  abbrev exists : Uuid → World C → (Error × Bool) × World C
  exists id w =
      let (found, cache') = Plants.exists lru id ((answers w.clock).plants id) w.cache in
      (answered found, record (tick answers w) { cache = cache' })

  abbrev save_event : EventOperational → EventAnalytical → World C → Error × World C
  save_event op an w =
      let a = answers w.clock in
      let (e, tables') = Save.save_event op an a.operational a.analytical w.tables in
      (e, record (tick answers w) { tables = tables' })

  -- the event passes the test of `stopping`, or is refused
  abbrev save_event_async : EventOperational → EventAnalytical → World C → Error × World C
  save_event_async op an w = (
    if w.writer.op.stopping
        then new (
            text_append "DualEventWriter is shutting down, rejecting event "
              (base.uuid_string op.id))
        else nil,
    tick answers (record w { writer = step (save op an) w.writer }),
  )

  -- a failed statement leaves the table as it is
  abbrev upsert : PlantCurrentStatus → World C → Error × World C
  upsert status w =
      let e = (answers w.clock).status in
      if is_nil e
      then (nil, record (tick answers w) { statuses = Plants.upsert status w.statuses })
      else (e, tick answers w)

  abbrev evaluate_event : String → String → String → String → Fields → World C → World C
  evaluate_event event_id event_type plant_id plant_name fields w = record w {
    notifications = w.notifications ++ Alerts.evaluate_event lib rules event_type plant_name fields;
  }

  unfoldable pub service : Deps (World C)
  unfolding step steps
  service = record base {
    now = λ w. (w.clock, tick answers w);
    exists = exists;
    save_event = save_event;
    save_event_async = save_event_async;
    upsert = upsert;
    evaluate_event = evaluate_event;
  }

-- the fields of the service that NewContainer builds, but for `useAsyncWrite`, which it sets to true
abbrev pub config_of : Bool → Config
config_of use_async_write = record {
  use_async_write = use_async_write;
  has_alert_evaluator = true;
  has_plant_status_repository = true;
}
