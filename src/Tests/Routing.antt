-- ===== src/Tests/Routing.antt =====
-- Instances for the routes of the API.
use energy_plant_monitoring.Base.{
  ℕ, ◌-◌, ◌≤◌, String, ◌≡◌, refl, Option, none, some, List, [], ◌∷◌, map, length, ltb,
}
use energy_plant_monitoring.Tracing.{Contexts}
use energy_plant_monitoring.Rest.RateLimit.{Rate, answers}
use energy_plant_monitoring.Rest.RateLimit.Isolation.{of_client}
use energy_plant_monitoring.Rest.Router.{Endpoint, get, Request, State, setup_routes, matching}
use energy_plant_monitoring.Rest.Router.Unambiguous.{one_route}
use energy_plant_monitoring.Rest.Router.Served.{statuses, events_of, let_through, statuses_isolated}

one_route_example :
    length (matching get ("api" ∷ "v1" ∷ "plants" ∷ "status" ∷ "filter" ∷ []) setup_routes) ≤ 1
one_route_example = one_route get ("api" ∷ "v1" ∷ "plants" ∷ "status" ∷ "filter" ∷ [])

-- a context is the value it holds
abbrev contexts : Contexts (Option String)
contexts = record {
  with_value = λ id _. some id;
  value = λ ctx. ctx;
  value-with_value = λ id ctx. refl;
}

abbrev new_id : ℕ → String
new_id _ = "c0ffee"

-- two tokens, and no refill
abbrev rate : Rate ℕ
rate = record { new_limiter = 2; allow = λ _ tokens. (ltb 0 tokens, tokens - 1) }

abbrev from : String → String → Request (Option String)
from ip request_id = record {
  verb = get;
  segments = "api" ∷ "v1" ∷ "examples" ∷ "7" ∷ [];
  request_id = request_id;
  client_ip = ip;
  context = none;
  received = 0;
}

abbrev fresh : State ℕ (List String)
fresh = record { limiters = λ _. none; ids = 0; world = [] }

abbrev handle : Endpoint → List String → Option String → List String → ℕ × List String
handle _ _ _ w = (404, w)

abbrev three_requests : List (Request (Option String))
three_requests =
    from "10.0.0.1" "a" ∷ from "10.0.0.2" "b" ∷ from "10.0.0.1" "c" ∷ from "10.0.0.1" "d" ∷ []

statuses_isolated_example :
    map (let_through) (statuses contexts new_id rate handle "10.0.0.1" three_requests fresh)
    ≡ answers rate "10.0.0.1" fresh.limiters (of_client "10.0.0.1" (events_of three_requests))
statuses_isolated_example =
    statuses_isolated contexts new_id rate handle "10.0.0.1" three_requests fresh (λ _ _ _ _. refl)
