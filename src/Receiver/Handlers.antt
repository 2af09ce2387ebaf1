-- ===== src/Receiver/Handlers.antt =====
-- The handlers of cmd/webhook-receiver/main.go on its store. What is printed on the console is not
-- modelled.
use energy_plant_monitoring.Base.{ℕ, String, Bool, not, List, [], ◌∷◌, if◌then◌else◌}
use energy_plant_monitoring.Errors.{Result, ok, err}
use energy_plant_monitoring.Receiver.{WebhookPayload, WebhookStore, add, get_all}

abbrev pub Bytes : Type 0
Bytes = List ℕ

-- plain text, or a JSON object with these fields
pub data Body : Type 0 where
  text : String → Body
  object : List (String × String) → Body

module _ {D : Type 0} (unmarshal : Bytes → Result (WebhookPayload D)) where
  unfoldable pub payload_answer :
      Result (WebhookPayload D) → WebhookStore D → (ℕ × Body) × WebhookStore D
  payload_answer (err _) s = ((400, text "Invalid JSON"), s)
  payload_answer (ok payload) s = (
    (200, object (("status", "received") ∷ ("message", "Webhook processed successfully") ∷ [])),
    add payload s,
  )

  unfoldable pub body_answer : Result Bytes → WebhookStore D → (ℕ × Body) × WebhookStore D
  unfolding payload_answer
  body_answer (err _) s = ((400, text "Error reading body"), s)
  body_answer (ok body) s = payload_answer (unmarshal body) s

  -- the status and the text, for a request with this method and what reading its body answers
  unfoldable pub handle_webhook : Bool → Result Bytes → WebhookStore D → (ℕ × Body) × WebhookStore D
  unfolding body_answer
  handle_webhook is_post body s =
      if not is_post then ((405, text "Method not allowed"), s) else body_answer body s

abbrev pub handle_get_plants : {D : Type 0} → WebhookStore D → List (WebhookPayload D)
handle_get_plants s = get_all s

abbrev pub handle_health : Body
handle_health = object (("status", "ok") ∷ [])
