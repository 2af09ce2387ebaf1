-- ===== src/Receiver.antt =====
-- WebhookStore of cmd/webhook-receiver/main.go: the latest payload of each plant, in the order in
-- which the plants first sent one. The map is a function from plant ids; the fields of a payload
-- other than the plant's id are one value.
pub mod Latest
pub mod Handlers
pub mod Server
use energy_plant_monitoring.Base.{
  String, Bool, true, false, Option, none, some, List, [], ◌∷◌, ◌++◌, if◌then◌else◌, str_eq,
}

pub record WebhookPayload (D : Type 0) : Type 0 where
  pub plant_source_id : String
  pub content : D

pub record WebhookStore (D : Type 0) : Type 0 where
  pub payloads : String → Option (WebhookPayload D)
  pub order : List String

module _ {D : Type 0} where
  abbrev pub empty_store : WebhookStore D
  empty_store = record { payloads = λ _. none; order = [] }

  -- `append` where the id is not in the map
  order_with : String → Option (WebhookPayload D) → List String → List String
  order_with id none order = order ++ id ∷ []
  order_with id (some _) order = order

  unfoldable pub add : WebhookPayload D → WebhookStore D → WebhookStore D
  unfolding order_with
  add p s = record {
    payloads = λ id. if str_eq id p.plant_source_id then some p else s.payloads id;
    order = order_with p.plant_source_id (s.payloads p.plant_source_id) s.order;
  }

  abbrev pub found : (String → Option (WebhookPayload D)) → List String → List (WebhookPayload D)
  found payloads [] = []
  found payloads (id ∷ ids) =
      let rest = found payloads ids in elim (payloads id) [ none ↦ rest | some p ↦ p ∷ rest ]

  unfoldable pub get_all : WebhookStore D → List (WebhookPayload D)
  get_all s = found s.payloads s.order

  -- the payloads that arrive one after the other
  unfoldable pub add_all : List (WebhookPayload D) → WebhookStore D → WebhookStore D
  unfolding add
  add_all [] s = s
  add_all (p ∷ ps) s = add_all ps (add p s)
