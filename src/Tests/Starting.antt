-- ===== src/Tests/Starting.antt =====
-- Instances for the start of the server, its settings, the notifications and the webhook client.
use energy_plant_monitoring.Base.{
  ℕ, zero, suc, ◌<◌, String, Bool, true, false, ◌==◌, ◌≡◌, ◌∙◌, ap, ◌↔◌, ◌⊎◌, refl, none, some,
  List, [], ◌∷◌, ◌++◌, length, keep, str_eq, eq_iff, Bool-cases, inl, inr, if◌then◌else◌, arith,
}
use energy_plant_monitoring.Errors.{nil, new, Result, ok, err}
use energy_plant_monitoring.Kafka.{Client}
use energy_plant_monitoring.Server.Cors.{Text, split_comma, allow_origin, localhost}
use energy_plant_monitoring.Server.Cors.Origins.{HasEnding, allow_origin_iff}
use energy_plant_monitoring.Server.Settings.{byte_len, is_secret, on_set_config}
use energy_plant_monitoring.Server.Settings.Masking.{on_set_config_panics}
use energy_plant_monitoring.Server.Database.{find_project_root}
use energy_plant_monitoring.Server.Database.Root.{nearest, found_or_error, find_project_root_ends}
use energy_plant_monitoring.Telegram.Messages.{runes, mask_token}
use energy_plant_monitoring.Telegram.Messages.Token.{occurs, mask_token_hides}
use energy_plant_monitoring.Webhook.{do_send, send_payload, marshal_answer, do_answer}
use energy_plant_monitoring.Receiver.{WebhookPayload, empty_store}
use energy_plant_monitoring.Receiver.Server.{
  Request, listed, webhook_path, plants_path, serve, serve_all,
}
use energy_plant_monitoring.Receiver.Server.Listed.{lists_latest}
use energy_plant_monitoring.Receiver.Handlers.{
  handle_webhook, handle_get_plants, body_answer, payload_answer,
}
use energy_plant_monitoring.Receiver.Latest.{is_of_plant}
use energy_plant_monitoring.System.Webhooks.{
  Between, IsReadBack, http, breaker, send_after, send_payload-get_all,
}

-- a trim that takes one blank off the front
abbrev trim : Text → Text
trim [] = []
trim (c ∷ s) = if c == b' ' then s else c ∷ s

abbrev setting : Text
setting = b' ' ∷ b'.' ∷ b'i' ∷ b'o' ∷ b',' ∷ []

abbrev origin : Text
origin = b'a' ∷ b'.' ∷ b'i' ∷ b'o' ∷ []

allow_origin_iff_example :
    (allow_origin trim setting origin ≡ true)
    ↔ (((rest : Text) × (origin ≡ localhost ++ rest)) ⊎ HasEnding trim (split_comma setting) origin)
allow_origin_iff_example = allow_origin_iff trim origin setting

on_set_config_panics_example : (on_set_config "DATABASE_PASSWORD" (runes "ñño") ≡ none) ↔ (
    (is_secret "DATABASE_PASSWORD" ≡ true)
    × (length (runes "ñño") < 4)
    × (4 < byte_len (runes "ñño")))
on_set_config_panics_example = on_set_config_panics "DATABASE_PASSWORD" (runes "ñño")

abbrev in_app : List String → Bool
in_app [] = false
in_app (name ∷ []) = true
in_app _ = false

find_project_root_ends_example :
    find_project_root in_app 3 (ok ("db" ∷ "app" ∷ []))
    ≡ some (found_or_error (nearest in_app ("db" ∷ "app" ∷ [])))
find_project_root_ends_example = find_project_root_ends in_app 3 ("db" ∷ "app" ∷ []) (omega arith)

abbrev client : Client ℕ
client = record {
  marshal = λ _. none;
  produce = λ _ _ _ w. (nil, w);
  commit_offsets = λ _ _ _ w. (nil, w);
  now = λ _. "2024-01-01T00:00:00Z";
  wait = λ _ w. (true, w);
}

mask_token_hides_example :
    occurs (runes "12:ab") (mask_token (runes "12:ab") (some (runes "Post bot12:ab/send"))) ≡ false
mask_token_hides_example = mask_token_hides (runes "12:ab") (runes "Post bot12:ab/send") refl refl

-- a code for the payloads of two plants
abbrev to_bytes : WebhookPayload ℕ → Result (List ℕ)
to_bytes p =
    if str_eq p.plant_source_id "P1"
    then ok (0 ∷ p.content ∷ [])
    else if str_eq p.plant_source_id "P2"
    then ok (1 ∷ p.content ∷ [])
    else err (new "unknown")

abbrev of_bytes : List ℕ → Result (WebhookPayload ℕ)
of_bytes (zero ∷ c ∷ []) = ok (record { plant_source_id = "P1"; content = c })
of_bytes (suc zero ∷ c ∷ []) = ok (record { plant_source_id = "P2"; content = c })
of_bytes _ = err (new "syntax")

-- a network that loses the second answer
abbrev losing : Between ℕ ℕ
losing = record {
  marshal = to_bytes;
  unmarshal = of_bytes;
  decimal = λ _. "500";
  new_request = λ _. nil;
  arrives = λ _. true;
  loses = λ n. (n == 1, suc n);
  before = λ n. (nil, n);
  after = λ _ n. n;
}

losing-IsReadBack : IsReadBack losing
losing-IsReadBack p body e = elim (Bool-cases (str_eq p.plant_source_id "P1")) [
  | inl first ↦
      back_of (0 ∷ p.content ∷ []) body (ground arith)
        (ground (arith, (eq_iff p.plant_source_id "P1").0 first))
  | inr other ↦ elim (Bool-cases (str_eq p.plant_source_id "P2")) [
    | inl second ↦
        back_of (1 ∷ p.content ∷ []) body (ground arith)
          (ground (arith, (eq_iff p.plant_source_id "P2").0 second))
    | inr neither ↦ absurd (ground arith)
  ]
]
  where
    back_of : (sent body : List ℕ) → body ≡ sent → of_bytes sent ≡ ok p → of_bytes body ≡ ok p
    back_of sent body same e = ap of_bytes same ∙ e

abbrev reading : String → ℕ → WebhookPayload ℕ
reading id c = record { plant_source_id = id; content = c }

send_payload-get_all_example :
    keep (is_of_plant "P1") (
      handle_get_plants
        (send_after losing "http://r/webhook"
          (reading "P1" 5 ∷ reading "P2" 6 ∷ [])
          (reading "P1" 7)
          0).world.store)
    ≡ reading "P1" 7 ∷ []
unfolding http breaker send_payload do_send marshal_answer do_answer handle_webhook body_answer
    payload_answer
send_payload-get_all_example =
    send_payload-get_all losing losing-IsReadBack "http://r/webhook" 0
      (reading "P1" 5 ∷ reading "P2" 6 ∷ []) (reading "P1" 7) refl

abbrev file_of : Text → Result (List ℕ)
file_of _ = err (new "no such file")

abbrev posting : List ℕ → Request
posting body = record { path = webhook_path; is_post = true; body = ok body }

abbrev listing : Request
listing = record { path = plants_path; is_post = false; body = ok [] }

abbrev requests : List Request
requests =
    posting (0 ∷ 5 ∷ [])
    ∷ posting (1 ∷ 6 ∷ [])
    ∷ listing
    ∷ posting (0 ∷ [])
    ∷ posting (0 ∷ 7 ∷ [])
    ∷ []

lists_latest_example :
    (payloads : List (WebhookPayload ℕ)) × ((serve file_of of_bytes listing
        (serve_all file_of of_bytes requests empty_store)).0
      ≡ listed payloads)
    × (keep (is_of_plant "P1") payloads ≡ reading "P1" 7 ∷ [])
lists_latest_example = lists_latest file_of of_bytes requests listing "P1" refl
