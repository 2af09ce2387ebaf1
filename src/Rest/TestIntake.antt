-- ===== src/Rest/TestIntake.antt =====
-- TestIntake of internal/infrastructure/adapters/rest/test_handlers.go: the validations of a message
-- by request. Beside the answer the handler returns the notifications that it asked for.
pub mod Answers
use Prim.Native.String.{◌++◌}
use energy_plant_monitoring.Base.{
  ℕ, String, Bool, true, false, List, [], ◌∷◌, if◌then◌else◌, str_eq,
}
use energy_plant_monitoring.Errors.{Error, is_nil, message, Result, ok, err}
use energy_plant_monitoring.Entities.{Uuid}

pub record TestIntakeRequest : Type 0 where
  pub event_type : String
  pub plant_name : String
  pub plant_source_id : String

pub record TestIntakeResponse : Type 0 where
  pub success : Bool
  pub message : String
  pub telegram_sent : Bool
  pub error : String

-- the calls `SendValidationError` and `SendUUIDError`, with what they return
pub data Notified : Type 0 where
  validation_notified : String → String → String → Error → Notified
  uuid_notified : String → String → String → Error → Notified

-- the notifier, the UUID package and the repository of plants
pub record Services : Type 0 where
  pub send_validation_error : String → String → String → Error
  pub send_uuid_error : String → String → String → Error
  pub parse_uuid : String → Result Uuid
  pub uuid_string : Uuid → String
  pub exists : Uuid → Result Bool

pub record Reply : Type 0 where
  pub status : ℕ
  pub response : TestIntakeResponse
  pub notified : List Notified

-- "... EventType: <type>, PlantName: <name>"
about : TestIntakeRequest → String
about req = "EventType: " ++ (req.event_type ++ (", PlantName: " ++ req.plant_name))

silent : ℕ → Bool → String → String → Reply
silent status success text error = record {
  status = status;
  response = record { success = success; message = text; telegram_sent = false; error = error };
  notified = [];
}

refused : ℕ → String → String → Error → Notified → Reply
refused status text error telegram_err n = record {
  status = status;
  response = record {
    success = false;
    message = text;
    telegram_sent = is_nil telegram_err;
    error = error;
  };
  notified = n ∷ [];
}

module _ (services : Services) where
  open services use {send_validation_error, send_uuid_error, parse_uuid, uuid_string, exists}

  existence_answer : TestIntakeRequest → Uuid → Result Bool → Reply
  unfolding about silent refused
  existence_answer req id (err e) =
      silent 500 false "Database error while validating plant" (message e)
  existence_answer req id (ok true) =
      silent 200 true ("All validations passed for plant " ++ uuid_string id) ""
  existence_answer req id (ok false) =
      let detail =
        "La planta con ID "
        ++ (uuid_string id ++ (" no existe en la base de datos. " ++ about req)) in
      let telegram_err = send_validation_error "plant_source_id" (uuid_string id) detail in
      refused 404 "Validation failed: plant does not exist"
        ("plant_source_id=" ++ (uuid_string id ++ " does not exist in database")) telegram_err
        (validation_notified "plant_source_id" (uuid_string id) detail telegram_err)

  parsed_answer : TestIntakeRequest → Result Uuid → Reply
  unfolding about refused existence_answer
  parsed_answer req (ok id) = existence_answer req id (exists id)
  parsed_answer req (err e) =
      let detail = "Failed to parse UUID: " ++ (message e ++ (". " ++ about req)) in
      let telegram_err = send_uuid_error "plant_source_id" req.plant_source_id detail in
      refused 400 "Validation failed: invalid UUID format"
        ("invalid plant_source_id format: " ++ message e) telegram_err
        (uuid_notified "plant_source_id" req.plant_source_id detail telegram_err)

  missing_answer : TestIntakeRequest → Reply
  unfolding about refused
  missing_answer req =
      let detail = "The plant_source_id field is not present in the message. " ++ about req in
      let telegram_err = send_validation_error "plant_source_id" "missing field" detail in
      refused 400 "Validation failed: missing plant_source_id"
        "missing plant_source_id field in message" telegram_err
        (validation_notified "plant_source_id" "missing field" detail telegram_err)

  -- the request as `ShouldBindJSON` gives it
  unfoldable pub test_intake : Result TestIntakeRequest → Reply
  unfolding silent missing_answer parsed_answer
  test_intake (err e) = silent 400 false "Invalid JSON payload" (message e)
  test_intake (ok req) =
      if str_eq req.plant_source_id ""
      then missing_answer req
      else parsed_answer req (parse_uuid req.plant_source_id)
