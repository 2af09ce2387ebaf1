-- ===== src/Tests/Composed.antt =====
-- Instances for the whole service: one message through the consumer, the ingestion service and the
-- writer.
use energy_plant_monitoring.Base.{if◌then◌else◌, ◌==◌, ℕ, true, false, ◌≡◌, refl, none, [], ◌∷◌}
use energy_plant_monitoring.Errors.{nil, new, ok, err}
use energy_plant_monitoring.Json.{Fields, field, str, end, string_field, lookup}
use energy_plant_monitoring.Alerts.{Lib}
use energy_plant_monitoring.Ingestion.Deps.{Deps}
use energy_plant_monitoring.Ingestion.Store.{
  event_id, build_event_entities, persist_events, update_plant_status,
}
use energy_plant_monitoring.Ingestion.Process.{handler}
use energy_plant_monitoring.Ingestion.Validate.{
  extract_and_validate_plant_info, validate_plant_exists, validate_event_data, parse_plant_id,
}
use energy_plant_monitoring.Writer.Save.{save_event, insert_operational, insert_analytical}
use energy_plant_monitoring.Entities.{EventOperational, EventAnalytical}
use energy_plant_monitoring.Writer.Pipeline.{enqueue, receive, new_pipeline, act}
use energy_plant_monitoring.Writer.Whole.{op_step, refuse_new, new_dual_event_writer_with_config}
use energy_plant_monitoring.Kafka.{Client, handle_with_retry}
use energy_plant_monitoring.Repositories.Plants.{Lru, exists}
use energy_plant_monitoring.System.{World, Answers, service, config_of}
use energy_plant_monitoring.System.Delivery.{in_tables, is_admitted, done_in_tables, done_admitted}

abbrev lru : Lru (Unit {0})
lru = record { get = λ _ c. (none, c); add = λ _ _ c. c }

abbrev lib : Lib
lib = record {
  marshal = λ _. none;
  gjson_get = λ _ _. none;
  sscanf_float = λ _. (0, false);
  format_value = λ _. "";
}

-- once the event is admitted, it goes into the channel, a worker receives it, and the writer is
-- told to stop
abbrev answers : ℕ → Answers
answers n = record {
  operational = nil;
  analytical = nil;
  status = new "lost";
  plants = λ _. ok 1;
  others = if n == 3 then op_step (enqueue 0) ∷ op_step (receive 0 true) ∷ refuse_new ∷ [] else [];
}

abbrev W : Type 0
W = World (Unit {0})

abbrev fields : Fields
fields = field "plant_source_id" (str "550e8400-e29b-41d4-a716-446655440000") end

abbrev base : Deps W
base = record {
  unmarshal = λ _. ok fields;
  remarshal = λ _. ok [];
  unmarshal_event_data = λ _. err (new "not event data");
  validate = λ _. nil;
  parse_uuid = λ _. ok 5;
  uuid_string = λ _. "550e8400-e29b-41d4-a716-446655440000";
  sha256 = λ msg. msg;
  new_sha1 = λ _. 9;
  now = λ w. (17, w);
  exists = λ _ w. ((nil, true), w);
  save_event = λ _ _ w. (nil, w);
  save_event_async = λ _ _ w. (nil, w);
  upsert = λ _ w. (nil, w);
  evaluate_event = λ _ _ _ _ _ w. w;
  send_uuid_error = λ _ _ _ w. w;
  send_validation_error = λ _ _ _ w. w;
}

abbrev client : Client W
client = record {
  marshal = λ _. none;
  produce = λ _ _ _ w. (nil, w);
  commit_offsets = λ _ _ _ w. (nil, w);
  now = λ _. "2024-01-01T00:00:00Z";
  wait = λ _ w. (true, w);
}

abbrev w₀ : W
w₀ = record {
  tables = record { operational = []; analytical = [] };
  statuses = [];
  writer = new_dual_event_writer_with_config (record { op_worker_count = 2; an_worker_count = 2 });
  cache = none;
  notifications = [];
  clock = 1;
}

abbrev deps : Deps W
deps = service lru lib [] answers base

done_in_tables_example :
    (fs : Fields) × (deps.unmarshal [] ≡ ok fs)
    × (in_tables
          (event_id deps [] fs)
          (handle_with_retry client (handler deps (config_of false)) "c0ffee" "intake" [] w₀).world
        ≡ true)
unfolding handle_with_retry handler service extract_and_validate_plant_info validate_plant_exists
    validate_event_data parse_plant_id build_event_entities persist_events update_plant_status
    string_field lookup exists save_event insert_operational insert_analytical
done_in_tables_example =
    done_in_tables lru lib [] answers base client "c0ffee" "intake" [] w₀ refl refl

done_admitted_example :
    (fs : Fields) × (deps.unmarshal [] ≡ ok fs)
    × (is_admitted
          (event_id deps [] fs)
          (handle_with_retry client (handler deps (config_of true)) "c0ffee" "intake" [] w₀).world
        ≡ true)
unfolding handle_with_retry handler service extract_and_validate_plant_info validate_plant_exists
    validate_event_data parse_plant_id build_event_entities persist_events update_plant_status
    string_field lookup exists new_dual_event_writer_with_config new_pipeline act
done_admitted_example =
    done_admitted lru lib [] answers base client "c0ffee" "intake" [] w₀ refl refl

-- the events of the message at a time of the clock
abbrev built : ℕ → EventOperational × EventAnalytical
built at = (
  record {
    id = 9;
    event_type = "power_reading";
    plant_source_id = 5;
    source = "kafka";
    payload = [];
    metadata = [];
    created_at = at;
  },
  record {
    created_at = at;
    id = 9;
    event_type = "power_reading";
    plant_source_id = 5;
    source = "kafka";
    payload = [];
    metadata = [];
  },
)
