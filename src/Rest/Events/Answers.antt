-- ===== src/Rest/Events/Answers.antt =====
-- What the handlers of event_handlers.go answer, and when they ask the repository.
use energy_plant_monitoring.Base.{
  ℕ, String, ◌≡◌, Option, none, some, List, [], ◌∷◌, arith, if◌then◌else◌, str_eq,
}
use energy_plant_monitoring.Errors.{Result}
use energy_plant_monitoring.Entities.{Uuid, Time}
use energy_plant_monitoring.Rest.Response.{Response, json, failure, listed}
use energy_plant_monitoring.Rest.Events.{
  Repositories, Asked, asked_range, asked_hourly, asked_daily, Parsers, list_analytical_events,
  get_hourly_aggregation, get_daily_aggregation,
}

-- a text that is given and parses
abbrev pub given : {A : Type 0} → (String → Option A) → String → Option A
given parse text = if str_eq text "" then none else parse text

infixl 5 ◌>>=◌
abbrev ◌>>=◌ : {A B : Type 0} → Option A → (A → Option B) → Option B
none >>= f = none
some a >>= f = f a

-- the parameters of an aggregation, where all are given and parse
abbrev pub plant_and_range : Parsers → String → String → String → Option (Uuid × Time × Time)
plant_and_range parsers plant_id start end = do
  id ← given parsers.parse_uuid plant_id
  from ← given parsers.parse_time start
  to ← given parsers.parse_time end
  some (id, from, to)

abbrev pub range : Parsers → String → String → Option (Time × Time)
range parsers start end = do
  from ← given parsers.parse_time start
  to ← given parsers.parse_time end
  some (from, to)

-- the status and the value, without the text of a failure
abbrev pub plain : {A : Type 0} → Response A → ℕ × Option A
plain (json status value) = (status, some value)
plain (failure status _) = (status, none)

-- What a handler with these parameters answers and asks: nothing and status 400 without them, and
-- with them what the repository answers, asked once.
abbrev pub gated :
    {P A : Type 0} → (P → Result A) → (P → Asked) → Option P → (ℕ × Option A) × List Asked
gated query entry none = ((400, none), [])
gated query entry (some p) = (plain (listed (query p)), entry p ∷ [])

abbrev pub seen : {A : Type 0} → Response A × List Asked → (ℕ × Option A) × List Asked
seen (response, asked) = (plain response, asked)

module _ (parsers : Parsers) (repos : Repositories) where
  -- The handlers of a range of time and of an aggregation ask the repository, once and with the parsed
  -- parameters, exactly if every parameter is given and parses, and then answer with status 200 and
  -- what it returned, or 500 if it failed. Otherwise they answer with status 400.
  pub ranges_gated :
      (plant_id start end : String)
      → let parsed = plant_and_range parsers plant_id start end in
        (seen (list_analytical_events parsers repos start end)
          ≡ gated
              (λ p. repos.find_by_time_range p.0 p.1)
              (λ p. asked_range p.0 p.1)
              (range parsers start end))
        × (seen (get_hourly_aggregation parsers repos plant_id start end)
            ≡ gated
                (λ p. repos.get_hourly_aggregation p.0 p.1 p.2)
                (λ p. asked_hourly p.0 p.1 p.2)
                parsed)
        × (seen (get_daily_aggregation parsers repos plant_id start end)
            ≡ gated
                (λ p. repos.get_daily_aggregation p.0 p.1 p.2)
                (λ p. asked_daily p.0 p.1 p.2)
                parsed)
  unfolding list_analytical_events get_hourly_aggregation get_daily_aggregation
  ranges_gated plant_id start end = (ground arith, ground arith, ground arith)
