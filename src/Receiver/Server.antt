-- ===== src/Receiver/Server.antt =====
-- main, handleStatic and the requests that the server of cmd/webhook-receiver/main.go answers. A path
-- is the list of its bytes; the embedded files are a parameter. Of net/http's mux: a pattern without a
-- slash at its end is the path itself, "/" is any other path. Headers other than the content type of
-- a file are left out.
pub mod Listed
use energy_plant_monitoring.Base.{
  ℕ, ◌-◌, String, Bool, true, false, ◌&&◌, Option, none, some, List, [], ◌∷◌, ◌++◌, ltb, length,
  drop, if◌then◌else◌,
}
use energy_plant_monitoring.Errors.{Result, ok, err}
use energy_plant_monitoring.Server.Cors.{Text, text_eq}
use energy_plant_monitoring.Receiver.{WebhookPayload, WebhookStore}
use energy_plant_monitoring.Receiver.Handlers.{
  Bytes, Body, handle_webhook, handle_get_plants, handle_health,
}

pub data Handler : Type 0 where
  webhook health get_plants static : Handler

pub record Request : Type 0 where
  pub path : Text
  pub is_post : Bool
  pub body : Result Bytes

pub data Reply (D : Type 0) : Type 0 where
  answered : ℕ → Body → Reply D
  listed : List (WebhookPayload D) → Reply D
  -- the content type that the handler sets, if it sets one, and the file
  file : Option String → Bytes → Reply D
  missing : Reply D

-- "/webhook"
abbrev pub webhook_path : Text
webhook_path = b'/' ∷ b'w' ∷ b'e' ∷ b'b' ∷ b'h' ∷ b'o' ∷ b'o' ∷ b'k' ∷ []

-- "/health"
abbrev health_path : Text
health_path = b'/' ∷ b'h' ∷ b'e' ∷ b'a' ∷ b'l' ∷ b't' ∷ b'h' ∷ []

-- "/api/plants"
abbrev pub plants_path : Text
plants_path = b'/' ∷ b'a' ∷ b'p' ∷ b'i' ∷ b'/' ∷ b'p' ∷ b'l' ∷ b'a' ∷ b'n' ∷ b't' ∷ b's' ∷ []

-- "/"
abbrev root : Text
root = b'/' ∷ []

abbrev dot_html : Text
dot_html = b'.' ∷ b'h' ∷ b't' ∷ b'm' ∷ b'l' ∷ []

abbrev dot_js : Text
dot_js = b'.' ∷ b'j' ∷ b's' ∷ []

abbrev dot_css : Text
dot_css = b'.' ∷ b'c' ∷ b's' ∷ b's' ∷ []

-- "/index.html"
abbrev index_path : Text
index_path = root ++ b'i' ∷ b'n' ∷ b'd' ∷ b'e' ∷ b'x' ∷ dot_html

-- "static"
abbrev static_folder : Text
static_folder = b's' ∷ b't' ∷ b'a' ∷ b't' ∷ b'i' ∷ b'c' ∷ []

-- the patterns that `main` registers besides "/"
unfoldable pub registered : List (Text × Handler)
registered = (webhook_path, webhook) ∷ (health_path, health) ∷ (plants_path, get_plants) ∷ []

unfoldable pub handler_of : Text → List (Text × Handler) → Handler
handler_of path [] = static
handler_of path (p ∷ ps) = let rest = handler_of path ps in if text_eq path p.0 then p.1 else rest

-- `len(path) > n && path[len(path)-n:] == suffix`, for a suffix of length n
abbrev ends_with : Text → Text → Bool
ends_with path suffix =
    ltb (length suffix) (length path) && text_eq (drop (length path - length suffix) path) suffix

unfoldable content_type : Text → Option String
content_type path =
    if ends_with path dot_html
    then some "text/html"
    else if ends_with path dot_js
    then some "application/javascript"
    else if ends_with path dot_css
    then some "text/css"
    else none

module _ {D : Type 0} (read_file : Text → Result Bytes) where
  file_answer : Text → Result Bytes → Reply D
  unfolding content_type
  file_answer path (err _) = missing
  file_answer path (ok content) = file (content_type path) content

  unfoldable pub handle_static : Text → Reply D
  unfolding file_answer
  handle_static url =
      let path = if text_eq url root then index_path else url in
      file_answer path (read_file (static_folder ++ path))

module _ {D : Type 0} (read_file : Text → Result Bytes)
    (unmarshal : Bytes → Result (WebhookPayload D)) where
  unfoldable pub handle : Handler → Request → WebhookStore D → Reply D × WebhookStore D
  handle webhook r s =
      let (answer, s') = handle_webhook unmarshal r.is_post r.body s in
      (answered answer.0 answer.1, s')
  handle health r s = (answered 200 handle_health, s)
  handle get_plants r s = (listed (handle_get_plants s), s)
  handle static r s = (handle_static read_file r.path, s)

  unfoldable pub serve : Request → WebhookStore D → Reply D × WebhookStore D
  unfolding handle handler_of registered
  serve r s = handle (handler_of r.path registered) r s

  -- the store after some requests
  unfoldable pub serve_all : List Request → WebhookStore D → WebhookStore D
  unfolding serve
  serve_all [] s = s
  serve_all (r ∷ rs) s = serve_all rs (serve r s).1
