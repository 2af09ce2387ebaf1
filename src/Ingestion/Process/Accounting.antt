-- ===== src/Ingestion/Process/Accounting.antt =====
-- What a processed event leaves behind: accepted by the writer once or not at all, and counted once.
use energy_plant_monitoring.Base.{
  ℕ, String, Bool, true, false, not, ◌&&◌, ◌≡◌, refl, ◌∙◌, Bool-cases, inl, inr, List, ◌++◌, arith,
  tally, tally-append, if◌then◌else◌, str_eq,
}
use energy_plant_monitoring.Errors.{is_nil, Result, ok, err}
use energy_plant_monitoring.Json.{Fields, is_empty}
use energy_plant_monitoring.Entities.{Uuid, RawMessage}
use energy_plant_monitoring.Ingestion.Monad.{
  Effect, validation_errors_inc, events_ingested_inc, upserted, saved, saved_async, event_evaluated,
  Run, M, continue, ◌>>=◌,
}
use energy_plant_monitoring.Ingestion.Deps.{Deps, Config}
use energy_plant_monitoring.Ingestion.Validate.{
  extract_and_validate_plant_info, validate_plant_exists, validate_event_data,
}
use energy_plant_monitoring.Ingestion.Store.{
  build_event_entities, persist_events, update_plant_status,
}
use energy_plant_monitoring.Ingestion.Process.{
  process_event, save_and_report, decoded, handle_message,
}

abbrev pub is_ok : {A : Type 0} → Result A → Bool
is_ok (ok _) = true
is_ok (err _) = false

-- a call of the writer that answered without error: with asynchronous writes, an event that it has
-- admitted, whether or not its channels had room
abbrev is_accepted : Effect → Bool
is_accepted (saved _ _ e) = is_nil e
is_accepted (saved_async _ _ e) = is_nil e
is_accepted _ = false

-- a call of `Upsert`, whatever it answers, since a failed one is only logged
abbrev is_upsert_call : Effect → Bool
is_upsert_call (upserted _ _) = true
is_upsert_call _ = false

abbrev is_evaluated : Effect → Bool
is_evaluated (event_evaluated _ _ _ _ _) = true
is_evaluated _ = false

-- the counter of validation errors, or of ingestions that failed
abbrev is_failure : Effect → Bool
is_failure (validation_errors_inc _) = true
is_failure (events_ingested_inc _ _ outcome) = str_eq outcome "failed"
is_failure _ = false

abbrev is_success : Effect → Bool
is_success (events_ingested_inc _ _ outcome) = str_eq outcome "success"
is_success _ = false

-- the five counts of a list of effects
pub record Counts : Type 0 where
  pub accepted : ℕ
  pub upsert_calls : ℕ
  pub evaluations : ℕ
  pub failures : ℕ
  pub successes : ℕ

abbrev pub counts : List Effect → Counts
counts es = record {
  accepted = tally is_accepted es;
  upsert_calls = tally is_upsert_call es;
  evaluations = tally is_evaluated es;
  failures = tally is_failure es;
  successes = tally is_success es;
}

abbrev unit : Bool → ℕ
unit b = if b then 1 else 0

module _ {W : Type 0} (deps : Deps W) (config : Config) where
  -- a stage that validates: a failure is counted once, and nothing else is
  abbrev Validates : {A : Type 0} → Run W A → Type 0
  Validates r = counts r.effects ≡ record {
    accepted = 0;
    upsert_calls = 0;
    evaluations = 0;
    failures = unit (not (is_ok r.result));
    successes = 0;
  }

  extract-Validates :
      (fields : Fields) (w : W) → Validates (extract_and_validate_plant_info deps fields w)
  unfolding extract_and_validate_plant_info
  extract-Validates fields w = ground arith

  exists-Validates : (id : Uuid) (w : W) → Validates (validate_plant_exists deps id w)
  unfolding validate_plant_exists
  exists-Validates id w = ground arith

  data-Validates :
      (fields : Fields) (event_type : String) (w : W)
      → Validates (validate_event_data deps fields event_type w)
  unfolding validate_event_data
  data-Validates fields event_type w = ground arith

  abbrev pub Accounts : Run W (Unit {0}) → Type 0
  Accounts r = counts r.effects ≡ record {
    accepted = unit (is_ok r.result);
    upsert_calls = unit (is_ok r.result && config.has_plant_status_repository);
    evaluations = unit (is_ok r.result && config.has_alert_evaluator);
    failures = unit (not (is_ok r.result));
    successes = unit (is_ok r.result);
  }

  counts-append :
      (xs ys : List Effect)
      → counts xs
        ≡ record { accepted = 0; upsert_calls = 0; evaluations = 0; failures = 0; successes = 0 }
      → counts (xs ++ ys) ≡ counts ys
  counts-append xs ys h = ground (
    arith,
    tally-append is_accepted xs ys,
    tally-append is_upsert_call xs ys,
    tally-append is_evaluated xs ys,
    tally-append is_failure xs ys,
    tally-append is_success xs ys,
  )

  continue-Accounts :
      {A : Type 0} (result : Result A) (w : W) (es : List Effect) (f : A → M W (Unit {0}))
      → Validates (record { result = result; world = w; effects = es })
      → ((a : A) (w' : W) → Accounts (f a w'))
      → Accounts (continue (record { result = result; world = w; effects = es }) f)
  continue-Accounts (ok a) w es f v rest = counts-append es (f a w).effects v ∙ rest a w
  continue-Accounts (err e) w es f v rest = v

  bind-Accounts :
      {A : Type 0} (r : Run W A) (f : A → M W (Unit {0}))
      → Validates r
      → ((a : A) (w' : W) → Accounts (f a w'))
      → Accounts (continue r f)
  bind-Accounts r f v rest = continue-Accounts r.result r.world r.effects f v rest

  save-Accounts :
      (payload : RawMessage) (fields : Fields) (id : Uuid) (event_type source : String) (w : W)
      → Accounts (save_and_report deps config payload fields (id, event_type, source) w)
  unfolding save_and_report build_event_entities persist_events update_plant_status
  save-Accounts payload fields id event_type source w = ground arith

  module _ (payload : RawMessage) (fields : Fields) where
    -- what is left to do behind each validation
    abbrev validated : Uuid × String × String → Unit {0} → M W (Unit {0})
    validated info _ = save_and_report deps config payload fields info

    abbrev found : Uuid × String × String → Unit {0} → M W (Unit {0})
    found info _ = validate_event_data deps fields info.1 >>= validated info

    abbrev parsed : Uuid × String × String → M W (Unit {0})
    parsed info = validate_plant_exists deps info.0 >>= found info

    parsed-Accounts : (info : Uuid × String × String) (w : W) → Accounts (parsed info w)
    parsed-Accounts info w =
        bind-Accounts (validate_plant_exists deps info.0 w) (found info) (exists-Validates info.0 w)
          λ _ w₁.
            bind-Accounts (validate_event_data deps fields info.1 w₁) (validated info)
              (data-Validates fields info.1 w₁)
              λ _ w₂. save-Accounts payload fields info.0 info.1 info.2 w₂

    process_event-Accounts : (w : W) → Accounts (process_event deps config payload fields w)
    unfolding process_event
    process_event-Accounts w = elim (Bool-cases (is_empty fields)) [
      | inl e ↦ rw e refl
      | inr e ↦ rw e (
          bind-Accounts (extract_and_validate_plant_info deps fields w) parsed
            (extract-Validates fields w) parsed-Accounts)
    ]

  decoded-Accounts :
      (payload : RawMessage) (r : Result Fields) (w : W)
      → Accounts (decoded deps config payload r w)
  unfolding decoded
  decoded-Accounts payload (ok fields) w = process_event-Accounts payload fields w
  decoded-Accounts payload (err e) w = refl

  -- Whatever the message and whatever the outside world answers: if processing succeeds, exactly one
  -- call of the writer answered without error, the success is counted once, `Upsert` is called once
  -- where the service has a status repository, whatever it answers, and the alerts are evaluated once
  -- where it has an evaluator; if processing fails, none of this happens, and one failure is counted.
  pub handle_message-Accounts :
      (payload : RawMessage) (w : W) → Accounts (handle_message deps config payload w)
  unfolding handle_message
  handle_message-Accounts payload w = decoded-Accounts payload (deps.unmarshal payload) w
