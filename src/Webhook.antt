-- ===== src/Webhook.antt =====
-- internal/infrastructure/adapters/http/webhook/webhook.go: SendPayload behind its circuit breaker.
-- The breaker is gobreaker's: `before` admits a call or answers with an error, and `after` is told
-- how the call went; `Execute` calls the one, the request and the other. Beside the error an
-- operation returns the requests that were sent, with their status codes.
pub mod Delivered
use Prim.Native.String.{◌++◌}
use energy_plant_monitoring.Base.{
  ℕ, String, Bool, true, false, ◌||◌, Option, none, some, List, [], ◌∷◌, ltb, leb, if◌then◌else◌,
}
use energy_plant_monitoring.Errors.{Error, nil, new, wrapped, is_nil, Result, ok, err}

abbrev pub Bytes : Type 0
Bytes = List ℕ

-- a `POST` with its URL and body, and the status of the answer, none where there was no answer
pub record Sent : Type 0 where
  pub url : String
  pub body : Bytes
  pub status : Option ℕ

pub record Breaker (W : Type 0) : Type 0 where
  pub before : W → Error × W
  pub after : Bool → W → W

-- encoding/json, fmt's decimals, `http.NewRequest` and the client's `Do`, which answers with a status
pub record Http (P W : Type 0) : Type 0 where
  pub marshal : P → Result Bytes
  pub decimal : ℕ → String
  pub new_request : String → Error
  pub do_request : String → Bytes → W → Result ℕ × W

pub record Reply (W : Type 0) : Type 0 where
  pub error : Error
  pub world : W
  pub sent : List Sent

-- ReadyToTrip
ready_to_trip : ℕ → Bool
ready_to_trip consecutive_failures = leb 5 consecutive_failures

module _ {P W : Type 0} (http : Http P W) (breaker : Breaker W) where
  unfoldable pub do_answer : String → Bytes → Result ℕ × W → Reply W
  do_answer url json_data (err e, w) = record {
    error = wrapped "error sending webhook request" e;
    world = w;
    sent = record { url = url; body = json_data; status = none } ∷ [];
  }
  do_answer url json_data (ok status, w) = record {
    error =
        if ltb status 200 || leb 300 status
        then new ("webhook returned error status: " ++ http.decimal status)
        else nil;
    world = w;
    sent = record { url = url; body = json_data; status = some status } ∷ [];
  }

  unfoldable pub marshal_answer : String → Result Bytes → W → Reply W
  unfolding do_answer
  marshal_answer url (err e) w = record {
    error = wrapped "error marshaling webhook payload" e;
    world = w;
    sent = [];
  }
  marshal_answer url (ok json_data) w =
      if is_nil (http.new_request url)
      then do_answer url json_data (http.do_request url json_data w)
      else record {
        error = wrapped "error creating webhook request" (http.new_request url);
        world = w;
        sent = [];
      }

  unfoldable pub do_send : String → P → W → Reply W
  unfolding marshal_answer
  do_send url payload w = marshal_answer url (http.marshal payload) w

  unfoldable pub send_payload : String → P → W → Reply W
  unfolding do_send
  send_payload url payload w =
      let (refused, w₁) = breaker.before w in
      if is_nil refused
      then (let r = do_send url payload w₁ in
          record r { world = breaker.after (is_nil r.error) r.world })
      else record { error = refused; world = w₁; sent = [] }
