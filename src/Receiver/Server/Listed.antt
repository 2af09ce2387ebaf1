-- ===== src/Receiver/Server/Listed.antt =====
-- What the server of cmd/webhook-receiver/main.go lists under /api/plants.
use energy_plant_monitoring.Base.{
  String, Bool, true, ◌≡◌, refl, ◌∙◌, sym, ap, none, List, [], ◌∷◌, ◌++◌, keep, arith, false, ◌&&◌,
  if◌then◌else◌,
}
use energy_plant_monitoring.Errors.{Result, ok, err}
use energy_plant_monitoring.Server.Cors.{Text, text_eq}
use energy_plant_monitoring.Receiver.{
  WebhookPayload, WebhookStore, empty_store, add, get_all, add_all,
}
use energy_plant_monitoring.Receiver.Handlers.{Bytes, handle_webhook, body_answer, payload_answer}
use energy_plant_monitoring.Receiver.Latest.{is_of_plant, latest, at_most_one, get_all-add_all}
use energy_plant_monitoring.Receiver.Server.{
  Request, listed, webhook_path, plants_path, handler_of, registered, handle, serve, serve_all,
}

module _ {D : Type 0} (read_file : Text → Result Bytes)
    (unmarshal : Bytes → Result (WebhookPayload D)) where
  abbrev parsed_of : Result (WebhookPayload D) → List (WebhookPayload D)
  parsed_of (err _) = []
  parsed_of (ok payload) = payload ∷ []

  abbrev payload_of : Result Bytes → List (WebhookPayload D)
  payload_of (err _) = []
  payload_of (ok body) = parsed_of (unmarshal body)

  -- the payload that a request brings: a `POST` to /webhook of a body that is read and parses
  abbrev brought : Request → List (WebhookPayload D)
  brought r = if text_eq r.path webhook_path && r.is_post then payload_of r.body else []

  abbrev pub accepted : List Request → List (WebhookPayload D)
  accepted [] = []
  accepted (r ∷ rs) = brought r ++ accepted rs

  payload_answer_adds :
      (parsed : Result (WebhookPayload D)) (s : WebhookStore D)
      → (payload_answer unmarshal parsed s).1 ≡ add_all (parsed_of parsed) s
  unfolding payload_answer add_all
  payload_answer_adds (err _) s = refl
  payload_answer_adds (ok payload) s = refl

  body_answer_adds :
      (body : Result Bytes) (s : WebhookStore D)
      → (body_answer unmarshal body s).1 ≡ add_all (payload_of body) s
  unfolding body_answer add_all
  body_answer_adds (err _) s = refl
  body_answer_adds (ok body) s = payload_answer_adds (unmarshal body) s

  handle_webhook_adds :
      (is_post : Bool) (body : Result Bytes) (s : WebhookStore D)
      → (handle_webhook unmarshal is_post body s).1
        ≡ add_all (if is_post then payload_of body else []) s
  unfolding handle_webhook add_all
  handle_webhook_adds true body s = body_answer_adds body s
  handle_webhook_adds false body s = refl

  add_all-append :
      (ps qs : List (WebhookPayload D)) (s : WebhookStore D)
      → add_all (ps ++ qs) s ≡ add_all qs (add_all ps s)
  unfolding add_all
  add_all-append [] qs s = refl
  add_all-append (p ∷ ps) qs s = add_all-append ps qs (add p s)

  serve_adds :
      (r : Request) (s : WebhookStore D) → (serve read_file unmarshal r s).1 ≡ add_all (brought r) s
  unfolding serve handle handler_of registered add_all
  serve_adds r s = ground (arith, handle_webhook_adds r.is_post r.body s)

  serve_all_adds :
      (rs : List Request) (s : WebhookStore D)
      → serve_all read_file unmarshal rs s ≡ add_all (accepted rs) s
  unfolding serve_all add_all
  serve_all_adds [] s = refl
  serve_all_adds (r ∷ rs) s =
      serve_all_adds rs (serve read_file unmarshal r s).1
      ∙ ap (add_all (accepted rs)) (serve_adds r s)
      ∙ sym (add_all-append (brought r) (accepted rs) s)

  -- After any requests to any paths, a request to /api/plants is answered with a list that holds of
  -- each plant, once, the last payload that a `POST` to /webhook with a readable and well-formed body
  -- brought, and nothing of a plant of which none was brought.
  pub lists_latest :
      (rs : List Request) (r : Request) (id : String)
      → r.path ≡ plants_path
      → (payloads : List (WebhookPayload D)) × ((serve read_file unmarshal r
            (serve_all read_file unmarshal rs empty_store)).0
          ≡ listed payloads)
        × (keep (is_of_plant id) payloads ≡ at_most_one id (latest id none (accepted rs)))
  unfolding serve handle handler_of registered
  lists_latest rs r id to_plants =
      let s = serve_all read_file unmarshal rs empty_store in
      (
        get_all s,
        rw to_plants refl,
        ap (λ u. keep (is_of_plant id) (get_all u)) (serve_all_adds rs empty_store)
            ∙ get_all-add_all id (accepted rs),
      )
