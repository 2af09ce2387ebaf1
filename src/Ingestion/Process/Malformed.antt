-- ===== src/Ingestion/Process/Malformed.antt =====
-- A message that is no JSON on its way through handleWithRetry (internal/api/kafka_service.go) and
-- the intake handler (internal/api/intake_handler.go).
use energy_plant_monitoring.Base.{String, Bool, true, false, ◌≡◌, none, some, [], ◌∷◌, arith}
use energy_plant_monitoring.Errors.{
  Error, err, permanent_error, new_permanent_error, is_permanent, message,
}
use energy_plant_monitoring.Kafka.{
  Bytes, Client, DlqMessage, handled, marshal_failed, handle_with_retry,
}
use energy_plant_monitoring.Ingestion.Deps.{Deps, Config}
use energy_plant_monitoring.Ingestion.Process.{handler}

-- `json.Marshal` refuses a `json.RawMessage` that is not valid JSON, and `json.Unmarshal` a text
-- that is not
pub record RejectsInvalid {W : Type 0} (client : Client W) (deps : Deps W) (is_valid : Bytes → Bool)
    : Type 0 where
  pub marshal_rejects :
      (d : DlqMessage) → is_valid d.original_message ≡ false → client.marshal d ≡ none
  pub unmarshal_rejects :
      (msg : Bytes) → is_valid msg ≡ false → (e : Error) × (deps.unmarshal msg ≡ err e)

module _ {W : Type 0} (client : Client W) (deps : Deps W) (config : Config) where
  handler_rejects :
      (msg : Bytes) (w : W) (e : Error)
      → deps.unmarshal msg ≡ err e
      → handler deps config msg w ≡ (permanent_error "invalid JSON" e, w)
  unfolding handler new_permanent_error
  handler_rejects msg w e h = ground arith

  -- A message that is not valid JSON is reported as done after one run of the handler, so that its
  -- offset is committed, and no dead letter is produced: the letter that quotes the message does not
  -- marshal.
  pub invalid_json_lost :
      (is_valid : Bytes → Bool) (id topic : String) (msg : Bytes) (w : W)
      → RejectsInvalid client deps is_valid
      → is_valid msg ≡ false
      → (e : Error) × (handle_with_retry client (handler deps config) id topic msg w ≡ record {
        success = true;
        world = w;
        calls = handled (permanent_error "invalid JSON" e) ∷ marshal_failed ∷ [];
      })
  unfolding handle_with_retry is_permanent
  invalid_json_lost is_valid id topic msg w laws bad =
      let (e, undecoded) = laws.unmarshal_rejects msg bad in
      let letter : DlqMessage = record {
        original_message = msg;
        error_reason = message (permanent_error "invalid JSON" e);
        timestamp = client.now w;
        correlation_id = some id;
      } in
      (e, ground (arith, handler_rejects msg w e undecoded, laws.marshal_rejects letter bad))
