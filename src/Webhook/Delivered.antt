-- ===== src/Webhook/Delivered.antt =====
-- What an answer of SendPayload (webhook.go) means.
use energy_plant_monitoring.Base.{
  ℕ, ◌≤◌, ◌<◌, String, true, ◌≡◌, some, List, [], ◌∷◌, arith, Bool-cases, inl, inr,
}
use energy_plant_monitoring.Errors.{is_nil, ok, Result-cases}
use energy_plant_monitoring.Webhook.{
  Bytes, Sent, Breaker, Http, do_send, send_payload, marshal_answer, do_answer,
}

module _ {P W : Type 0} (http : Http P W) (breaker : Breaker W) (url : String) (payload : P) where
  -- one request, to the URL and with the payload, was answered with a status from 200 to 299
  pub record IsDelivered (sent : List Sent) : Type 0 where
    pub body : Bytes
    pub status : ℕ
    pub marshalled : http.marshal payload ≡ ok body
    pub alone : sent ≡ record { url = url; body = body; status = some status } ∷ []
    pub above : 200 ≤ status
    pub below : status < 300

  do_send-IsDelivered :
      (w : W)
      → is_nil (do_send http breaker url payload w).error ≡ true
      → IsDelivered (do_send http breaker url payload w).sent
  unfolding do_send marshal_answer do_answer
  do_send-IsDelivered w fine = elim (Result-cases (http.marshal payload)) [
    | inr (e, bad) ↦ absurd (ground arith)
    | inl (json, good) ↦ elim (Bool-cases (is_nil (http.new_request url))) [
      | inr bad ↦ absurd (ground arith)
      | inl made ↦ elim (Result-cases (http.do_request url json w).0) [
        | inr (e, bad) ↦ absurd (ground arith)
        | inl (status, answered) ↦ record {
          body = json;
          status = status;
          marshalled = good;
          alone = ground arith;
          above = ground arith;
          below = ground arith;
        }
      ]
    ]
  ]

  -- A payload that SendPayload reports as sent was sent exactly once, marshalled, to the URL, and
  -- the endpoint answered with a status from 200 to 299.
  send_payload-IsDelivered :
      (w : W)
      → is_nil (send_payload http breaker url payload w).error ≡ true
      → IsDelivered (send_payload http breaker url payload w).sent
  unfolding send_payload
  send_payload-IsDelivered w fine = elim (Bool-cases (is_nil (breaker.before w).0)) [
    | inr refused ↦ absurd (ground arith)
    | inl admitted ↦ simp admitted (do_send-IsDelivered (breaker.before w).1 (ground arith))
  ]
