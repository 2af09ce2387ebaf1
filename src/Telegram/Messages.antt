-- ===== src/Telegram/Messages.antt =====
-- internal/infrastructure/adapters/telegram/notifier.go: the texts of the notifications, what is
-- enqueued of them, the request that hands one to the Telegram API, and the mask of the token in the
-- log. A text is the list of its runes here.
pub mod Markup
pub mod Token
use Prim.Native.String.{[] as no_chars, ◌∷◌ as ◌onto◌}
use Prim.Native.Char.{code}
use energy_plant_monitoring.Base.{
  ℕ, zero, suc, ◌-◌, String, Bool, true, false, not, ◌&&◌, ◌||◌, Option, none, some, List, [], ◌∷◌,
  ◌++◌, ◌==◌, length, if◌then◌else◌,
}
use energy_plant_monitoring.Errors.{Error, nil, new, wrapped, is_nil, Result, ok, err}
use energy_plant_monitoring.Telegram.{Text, Notifier, enqueue, escape_html}

-- a literal as its runes
abbrev pub runes : String → Text
runes no_chars = []
runes (c onto s) = code c ∷ runes s

abbrev pub is_blank : Text → Bool
is_blank [] = true
is_blank _ = false

-- the line of the context, where there is one
context_line : Text → Text
context_line context =
    if is_blank context
    then []
    else runes "📋 <b>Contexto:</b> " ++ (escape_html context ++ runes "\n")

-- the time is given as it is formatted
unfoldable pub format_error_message : Text → Text → Text → Text → Text
unfolding context_line
format_error_message timestamp error_type message context =
    runes "🚨 <b>Error de Validación</b>\n\n"
    ++ (runes "⏰ <b>Hora:</b> "
        ++ (escape_html timestamp
            ++ (runes "\n🔴 <b>Tipo:</b> "
                ++ (escape_html error_type
                    ++ (runes "\n📝 <b>Mensaje:</b> "
                        ++ (escape_html message
                            ++ (runes "\n"
                                ++ (context_line context
                                    ++ runes
                                        "\n🏢 <b>Servicio:</b> Monitoring Energy Service"))))))))

pub record Settings : Type 0 where
  pub bot_token : Text
  pub chat_id : Text
  pub enabled : Bool

module _ (settings : Settings) (timestamp : Text) where
  unfoldable pub send_error_notification : Text → Text → Text → Notifier → Error × Notifier
  send_error_notification error_type message context n =
      if not settings.enabled
      then (nil, n)
      else if is_blank settings.bot_token || is_blank settings.chat_id
      then (new "telegram bot token or chat ID not configured", n)
      else (nil, enqueue (format_error_message timestamp error_type message context) n)

  unfoldable pub send_validation_error : Text → Text → Text → Notifier → Error × Notifier
  send_validation_error field_name value error_detail =
      send_error_notification (runes "Validación de Datos") error_detail
        (runes "Campo: " ++ (field_name ++ (runes ", Valor: " ++ value)))

  unfoldable pub send_uuid_error : Text → Text → Text → Notifier → Error × Notifier
  send_uuid_error field_name invalid_uuid error_detail =
      send_error_notification (runes "UUID Inválido") error_detail
        (runes "Campo: " ++ (field_name ++ (runes ", UUID inválido: " ++ invalid_uuid)))

pub record SendMessageRequest : Type 0 where
  pub chat_id : Text
  pub text : Text
  pub parse_mode : Text

pub record TelegramResponse : Type 0 where
  pub is_ok : Bool
  pub description : String

-- encoding/json, and the answer to `Post` for a URL and a body; the answer's body as it decodes
pub record Api : Type 0 where
  pub marshal : SendMessageRequest → Result Text
  pub post : Text → Text → Result (Result TelegramResponse)

response_answer : Result TelegramResponse → Error
response_answer (err e) = wrapped "error decoding telegram response" e
response_answer (ok r) = if r.is_ok then nil else wrapped "telegram API error" (new r.description)

post_answer : Result (Result TelegramResponse) → Error
unfolding response_answer
post_answer (err e) = wrapped "error sending telegram message" e
post_answer (ok decoded) = response_answer decoded

module _ (api : Api) (settings : Settings) where
  marshal_answer : Result Text → Error
  unfolding post_answer
  marshal_answer (err e) = wrapped "error marshaling request" e
  marshal_answer (ok json_data) = post_answer (
      api.post
        (runes "https://api.telegram.org/bot" ++ (settings.bot_token ++ runes "/sendMessage"))
        json_data)

  unfoldable pub send_message : Text → Error
  unfolding marshal_answer
  send_message text =
      marshal_answer
        (api.marshal record { chat_id = settings.chat_id; text = text; parse_mode = runes "HTML" })

abbrev pub has_prefix : Text → Text → Bool
has_prefix s [] = true
has_prefix [] (_ ∷ _) = false
has_prefix (a ∷ s) (b ∷ t) = a == b && has_prefix s t

-- `strings.ReplaceAll` for an old text that is not empty, from a place on where `skip` runes of an
-- occurrence are still to come
abbrev pub replace_text : Text → Text → ℕ → Text → Text
replace_text old by skip [] = []
replace_text old by (suc skip) (c ∷ s) = replace_text old by skip s
replace_text old by zero (c ∷ s) =
    let after = replace_text old by (length old - 1) s in
    let rest = replace_text old by zero s in
    if has_prefix (c ∷ s) old then by ++ after else c ∷ rest

-- `strings.ReplaceAll` for an empty old text: the new one goes around every rune
abbrev interspersed : Text → Text → Text
interspersed by [] = by
interspersed by (c ∷ s) = by ++ (c ∷ interspersed by s)

-- the text of the error is given; no error is the empty text
unfoldable pub mask_token : Text → Option Text → Text
mask_token bot_token none = []
mask_token bot_token (some text) =
    if is_blank bot_token
    then interspersed (runes "***") text
    else replace_text bot_token (runes "***") zero text
