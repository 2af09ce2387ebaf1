-- ===== src/System/Webhooks.antt =====
-- The webhook client (webhook.go) and the receiver (cmd/webhook-receiver/main.go) together, over a
-- network that can lose a request, or its answer after the receiver has handled it.
use energy_plant_monitoring.Base.{
  ℕ, String, Bool, true, false, ◌≡◌, refl, ◌∙◌, sym, ap, ◌⊎◌, Option, none, some, List, [], ◌∷◌,
  ◌++◌, keep, arith, if◌then◌else◌, Bool-cases, inl, inr, eq_iff,
}
use energy_plant_monitoring.Errors.{Error, new, is_nil, Result, ok, err, Result-cases}
use energy_plant_monitoring.Webhook.{
  Bytes, Breaker, Http, Reply, do_send, send_payload, marshal_answer, do_answer,
}
use energy_plant_monitoring.Receiver.{
  WebhookPayload, WebhookStore, empty_store, add, get_all, add_all,
}
use energy_plant_monitoring.Receiver.Handlers.{
  handle_webhook, handle_get_plants, body_answer, payload_answer,
}
use energy_plant_monitoring.Receiver.Latest.{is_of_plant, latest, at_most_one, get_all-add_all}

-- What lies between the two: encoding/json on both sides, the test of the URL, the network, which
-- says of each request whether it arrives and whether its answer is lost, and the circuit breaker. `N` is their state.
pub record Between (D N : Type 0) : Type 0 where
  pub marshal : WebhookPayload D → Result Bytes
  pub unmarshal : Bytes → Result (WebhookPayload D)
  pub decimal : ℕ → String
  pub new_request : String → Error
  pub arrives : N → Bool
  pub loses : N → Bool × N
  pub before : N → Error × N
  pub after : Bool → N → N

pub record World (D N : Type 0) : Type 0 where
  pub store : WebhookStore D
  pub net : N

module _ {D N : Type 0} (between : Between D N) where
  -- the receiver as the endpoint of the client's `POST`
  deliver : String → Bytes → World D N → Result ℕ × World D N
  deliver url body w =
      let (answer, store') = handle_webhook between.unmarshal true (ok body) w.store in
      let (lost, net') = between.loses w.net in
      if between.arrives w.net
      then (
        if lost then err (new "timeout") else ok answer.0,
        record { store = store'; net = net' },
      )
      else (err (new "connection refused"), record w { net = net' })

  unfoldable pub http : Http (WebhookPayload D) (World D N)
  unfolding deliver
  http = record {
    marshal = between.marshal;
    decimal = between.decimal;
    new_request = between.new_request;
    do_request = deliver;
  }

  unfoldable pub breaker : Breaker (World D N)
  breaker = record {
    before = λ w. let (e, net') = between.before w.net in (e, record w { net = net' });
    after = λ fine w. record w { net = between.after fine w.net };
  }

  -- the payloads one after the other, whatever becomes of each
  abbrev send_all : String → List (WebhookPayload D) → World D N → World D N
  send_all url [] w = w
  send_all url (p ∷ ps) w = send_all url ps (send_payload http breaker url p w).world

  abbrev pub started : N → World D N
  started net = record { store = empty_store; net = net }

  -- the answer for a payload, after others, of a receiver that has just started
  abbrev pub send_after :
      String → List (WebhookPayload D) → WebhookPayload D → N → Reply (World D N)
  send_after url ps p net = send_payload http breaker url p (send_all url ps (started net))

  -- a payload that arrives is the one that was sent
  abbrev pub IsReadBack : Type 0
  IsReadBack =
      (p : WebhookPayload D) (body : Bytes)
      → between.marshal p ≡ ok body
      → between.unmarshal body ≡ ok p

  module _ (reads : IsReadBack) (url : String) where
    -- a call leaves the store, with an error, or adds the payload
    sent_or_not :
        (p : WebhookPayload D) (w : World D N)
        → let r = send_payload http breaker url p w in
          ((r.world.store ≡ w.store) × (is_nil r.error ≡ false)) ⊎ (r.world.store ≡ add p w.store)
    unfolding send_payload do_send marshal_answer do_answer http breaker deliver handle_webhook
        body_answer payload_answer
    sent_or_not p w = elim (Bool-cases (is_nil (between.before w.net).0)) [
      | inr refused ↦ inl (ground arith, ground arith)
      | inl admitted ↦ elim (Result-cases (between.marshal p)) [
        | inr (e, bad) ↦ inl (ground arith, ground arith)
        | inl (json, good) ↦ elim (Bool-cases (is_nil (between.new_request url))) [
          | inr bad ↦ inl (ground arith, ground arith)
          | inl made ↦ elim (Bool-cases (between.arrives (between.before w.net).1)) [
            | inl came ↦ inr (ground (arith, reads p json good))
            | inr lost ↦ inl (ground arith, ground arith)
          ]
        ]
      ]
    ]

    -- what the store holds came in by `add`
    record Arrived (w : World D N) : Type 0 where
      arrived : List (WebhookPayload D)
      stored : w.store ≡ add_all arrived empty_store

    add_all-append :
        (ps : List (WebhookPayload D)) (p : WebhookPayload D) (s : WebhookStore D)
        → add_all (ps ++ p ∷ []) s ≡ add p (add_all ps s)
    unfolding add_all
    add_all-append [] p s = refl
    add_all-append (q ∷ ps) p s = add_all-append ps p (add q s)

    latest-append :
        (id : String) (last : Option (WebhookPayload D)) (ps : List (WebhookPayload D))
        (p : WebhookPayload D)
        → latest id last (ps ++ p ∷ []) ≡ (if is_of_plant id p then some p else latest id last ps)
    latest-append id last [] p = refl
    latest-append id last (q ∷ ps) p =
        latest-append id (if is_of_plant id q then some q else last) ps p

    add-Arrived :
        (p : WebhookPayload D) (w : World D N) (inv : Arrived w) (s : WebhookStore D)
        → s ≡ add p w.store
        → s ≡ add_all (inv.arrived ++ p ∷ []) empty_store
    add-Arrived p w inv s e =
        e ∙ ap (add p) inv.stored ∙ sym (add_all-append inv.arrived p empty_store)

    send_payload-Arrived :
        (p : WebhookPayload D) (w : World D N)
        → Arrived w
        → Arrived (send_payload http breaker url p w).world
    send_payload-Arrived p w inv = elim (sent_or_not p w) [
      | inl (same, _) ↦ record { arrived = inv.arrived; stored = same ∙ inv.stored }
      | inr added ↦ record {
        arrived = inv.arrived ++ p ∷ [];
        stored = add-Arrived p w inv (send_payload http breaker url p w).world.store added;
      }
    ]

    send_all-Arrived :
        (ps : List (WebhookPayload D)) (w : World D N) → Arrived w → Arrived (send_all url ps w)
    send_all-Arrived [] w inv = inv
    send_all-Arrived (p ∷ ps) w inv =
        send_all-Arrived ps (send_payload http breaker url p w).world (send_payload-Arrived p w inv)

    empty-Arrived : (net : N) → Arrived (started net)
    unfolding add_all
    empty-Arrived net = record { arrived = []; stored = refl }

    shown :
        (p : WebhookPayload D) (w : World D N)
        → Arrived w
        → is_nil (send_payload http breaker url p w).error ≡ true
        → keep
            (is_of_plant p.plant_source_id)
            (get_all (send_payload http breaker url p w).world.store)
          ≡ p ∷ []
    shown p w inv fine = elim (sent_or_not p w) [
      | inl (_, bad) ↦ absurd (ground arith)
      | inr added ↦
          let ps' = inv.arrived ++ p ∷ [] in
          ap (λ s. keep (is_of_plant p.plant_source_id) (get_all s))
            (add-Arrived p w inv (send_payload http breaker url p w).world.store added)
          ∙ get_all-add_all p.plant_source_id ps'
          ∙ ap (at_most_one p.plant_source_id) (latest-append p.plant_source_id none inv.arrived p)
          ∙ ground (arith, eq_iff p.plant_source_id p.plant_source_id)
    ]

    -- If the receiver reads a payload back as it was marshalled, then after any payloads have been
    -- sent to a receiver with an empty store, over a network that can lose requests and answers, a
    -- payload that SendPayload reports as sent is the one payload of its plant that handleGetPlants returns.
    pub send_payload-get_all :
        (net : N) (ps : List (WebhookPayload D)) (p : WebhookPayload D)
        → is_nil (send_after url ps p net).error ≡ true
        → keep
            (is_of_plant p.plant_source_id)
            (handle_get_plants (send_after url ps p net).world.store)
          ≡ p ∷ []
    send_payload-get_all net ps p fine =
        shown p (send_all url ps (started net))
          (send_all-Arrived ps (started net) (empty-Arrived net)) fine
