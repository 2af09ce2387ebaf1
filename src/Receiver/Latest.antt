-- ===== src/Receiver/Latest.antt =====
-- What GetAll returns (cmd/webhook-receiver/main.go).
use energy_plant_monitoring.Base.{
  ℕ, zero, suc, String, Bool, true, false, ◌≡◌, refl, ◌∙◌, ap, ◌⊎◌, Option, none, some, List, [],
  ◌∷◌, arith, tally, tally-append, keep, if◌then◌else◌, str_eq, eq_iff, Bool-cases, inl, inr,
}
use energy_plant_monitoring.Receiver.{
  WebhookPayload, WebhookStore, empty_store, add, order_with, found, get_all, add_all,
}

abbrev is_plant : String → String → Bool
is_plant id k = str_eq k id

module _ {D : Type 0} (id : String) where
  abbrev pub is_of_plant : WebhookPayload D → Bool
  is_of_plant p = str_eq p.plant_source_id id

  -- the last of the payloads of the plant, if there is one
  abbrev pub latest :
      Option (WebhookPayload D) → List (WebhookPayload D) → Option (WebhookPayload D)
  latest last [] = last
  latest last (p ∷ ps) = latest (if is_of_plant p then some p else last) ps

  abbrev pub at_most_one : Option (WebhookPayload D) → List (WebhookPayload D)
  at_most_one none = []
  at_most_one (some p) = p ∷ []

  abbrev count_of : Option (WebhookPayload D) → ℕ
  count_of none = 0
  count_of (some _) = 1

  -- the plant stands in the order once if the map has it, and the payloads stand under their ids
  record Inv (s : WebhookStore D) : Type 0 where
    once : tally (is_plant id) s.order ≡ count_of (s.payloads id)
    keyed : (k : String) (p : WebhookPayload D) → s.payloads k ≡ some p → p.plant_source_id ≡ k

  add-Inv : (p : WebhookPayload D) (s : WebhookStore D) → Inv s → Inv (add p s)
  unfolding add
  add-Inv p s inv = record {
    once = counted (s.payloads p.plant_source_id) refl;
    keyed = λ k q e. keyed_by k q e (Bool-cases (str_eq k p.plant_source_id));
  }
    where
      counted :
          (o : Option (WebhookPayload D))
          → s.payloads p.plant_source_id ≡ o
          → tally (is_plant id) (order_with p.plant_source_id o s.order)
            ≡ count_of ((add p s).payloads id)
      counted none e = ground (
        arith,
        inv.once,
        eq_iff id p.plant_source_id,
        eq_iff p.plant_source_id id,
        tally-append (is_plant id) s.order (p.plant_source_id ∷ []),
      )
      counted (some q) e =
          ground (arith, inv.once, eq_iff id p.plant_source_id, eq_iff p.plant_source_id id)

      keyed_by :
          (k : String) (q : WebhookPayload D)
          → (add p s).payloads k ≡ some q
          → (str_eq k p.plant_source_id ≡ true) ⊎ (str_eq k p.plant_source_id ≡ false)
          → q.plant_source_id ≡ k
      keyed_by k q e (inl same) = ground (arith, (eq_iff k p.plant_source_id).0 same)
      keyed_by k q e (inr other) = ground (arith, inv.keyed k q)

  add_all-Inv : (ps : List (WebhookPayload D)) (s : WebhookStore D) → Inv s → Inv (add_all ps s)
  unfolding add_all
  add_all-Inv [] s inv = inv
  add_all-Inv (p ∷ ps) s inv = add_all-Inv ps (add p s) (add-Inv p s inv)

  add_all-latest :
      (ps : List (WebhookPayload D)) (s : WebhookStore D)
      → (add_all ps s).payloads id ≡ latest (s.payloads id) ps
  unfolding add_all add
  add_all-latest [] s = refl
  add_all-latest (p ∷ ps) s =
      add_all-latest ps (add p s)
      ∙ ap (λ o. latest o ps)
          (ground (arith, eq_iff id p.plant_source_id, eq_iff p.plant_source_id id))

  abbrev repeated : ℕ → Option (WebhookPayload D) → List (WebhookPayload D)
  repeated zero o = []
  repeated (suc n) none = repeated n none
  repeated (suc n) (some p) = p ∷ repeated n (some p)

  -- the payloads of the plant among those that `GetAll` collects
  keep-found :
      (payloads : String → Option (WebhookPayload D)) (order : List String)
      → ((k : String) (p : WebhookPayload D) → payloads k ≡ some p → p.plant_source_id ≡ k)
      → keep is_of_plant (found payloads order) ≡ repeated (tally (is_plant id) order) (payloads id)
  keep-found payloads [] keyed = refl
  keep-found payloads (k ∷ order) keyed =
      go (payloads k) refl (Bool-cases (str_eq k id)) (keep-found payloads order keyed)
    where
      go :
          (o : Option (WebhookPayload D))
          → payloads k ≡ o
          → (str_eq k id ≡ true) ⊎ (str_eq k id ≡ false)
          → keep is_of_plant (found payloads order)
            ≡ repeated (tally (is_plant id) order) (payloads id)
          → keep is_of_plant (found payloads (k ∷ order))
            ≡ repeated (tally (is_plant id) (k ∷ order)) (payloads id)
      go none e (inl mine) rest = ground (arith, rest, ap payloads ((eq_iff k id).0 mine))
      go none e (inr other) rest = ground (arith, rest)
      go (some p) e (inl mine) rest =
          ground (arith, rest, ap payloads ((eq_iff k id).0 mine), keyed k p e)
      go (some p) e (inr other) rest = ground (arith, rest, keyed k p e)

  once_repeated : (o : Option (WebhookPayload D)) → repeated (count_of o) o ≡ at_most_one o
  once_repeated none = refl
  once_repeated (some p) = refl

  empty-Inv : Inv empty_store
  empty-Inv = record { once = refl; keyed = λ k p e. cc }

  -- After any payloads have arrived, the list that `GetAll` returns holds of each plant the last
  -- payload that it sent, once, and none of a plant that sent none.
  pub get_all-add_all :
      (ps : List (WebhookPayload D))
      → keep is_of_plant (get_all (add_all ps empty_store)) ≡ at_most_one (latest none ps)
  unfolding get_all
  get_all-add_all ps =
      let s = add_all ps empty_store in
      let inv = add_all-Inv ps empty_store empty-Inv in
      keep-found s.payloads s.order inv.keyed
      ∙ ap (λ n. repeated n (s.payloads id)) inv.once
      ∙ once_repeated (s.payloads id)
      ∙ ap at_most_one (add_all-latest ps empty_store)
