-- ===== src/Rest/Router.antt =====
-- internal/infrastructure/adapters/rest/router.go and middleware.go: the routes of the API, and the
-- two middlewares in front of their handlers. What gin documents of a route is a test on the
-- segments of a path; which of several routes it would prefer is left open, since no request has
-- several.
pub mod Unambiguous
pub mod Served
use energy_plant_monitoring.Base.{
  ℕ, suc, String, Bool, true, false, ◌&&◌, not, Option, none, some, List, [], ◌∷◌, ◌++◌,
  if◌then◌else◌, str_eq, keep,
}
use energy_plant_monitoring.Entities.{Time}
use energy_plant_monitoring.Tracing.{Contexts, with_correlation_id}
use energy_plant_monitoring.Rest.RateLimit.{Rate, Limiters, middleware}

pub data Verb : Type 0 where
  get post put delete : Verb

abbrev pub same_verb : Verb → Verb → Bool
same_verb get get = true
same_verb post post = true
same_verb put put = true
same_verb delete delete = true
same_verb _ _ = false

pub data Segment : Type 0 where
  literal : String → Segment
  parameter : String → Segment

pub data Endpoint : Type 0 where
  list_examples create_example get_example update_example delete_example : Endpoint
  list_operational_events get_operational_event : Endpoint
  list_analytical_events get_hourly_aggregation get_daily_aggregation : Endpoint
  list_plant_status get_plant_status list_plant_status_by_status test_intake : Endpoint

pub record Route : Type 0 where
  pub verb : Verb
  pub path : List Segment
  pub endpoint : Endpoint

-- a registration in a group with a prefix
abbrev route : Verb → List Segment → List Segment → Endpoint → Route
route verb prefix path endpoint = record { verb = verb; path = prefix ++ path; endpoint = endpoint }

abbrev api : List Segment
api = literal "api" ∷ literal "v1" ∷ []

abbrev examples : List Segment
examples = api ++ literal "examples" ∷ []

abbrev operational : List Segment
operational = api ++ literal "events" ∷ literal "operational" ∷ []

abbrev analytical : List Segment
analytical = api ++ literal "events" ∷ literal "analytical" ∷ []

abbrev plants : List Segment
plants = api ++ literal "plants" ∷ []

abbrev test : List Segment
test = api ++ literal "test" ∷ []

abbrev id : List Segment
id = parameter "id" ∷ []

unfoldable pub setup_routes : List Route
setup_routes =
    route get examples [] list_examples
    ∷ route post examples [] create_example
    ∷ route get examples id get_example
    ∷ route put examples id update_example
    ∷ route delete examples id delete_example
    ∷ route get operational [] list_operational_events
    ∷ route get operational id get_operational_event
    ∷ route get analytical [] list_analytical_events
    ∷ route get analytical (literal "hourly" ∷ []) get_hourly_aggregation
    ∷ route get analytical (literal "daily" ∷ []) get_daily_aggregation
    ∷ route get plants (literal "status" ∷ []) list_plant_status
    ∷ route get plants (literal "status" ∷ id) get_plant_status
    ∷ route get plants (literal "status" ∷ literal "filter" ∷ parameter "status" ∷ [])
        list_plant_status_by_status
    ∷ route post test (literal "intake" ∷ []) test_intake
    ∷ []

-- a parameter takes any segment that is not empty
abbrev pub fits : Segment → String → Bool
fits (literal text) segment = str_eq segment text
fits (parameter _) segment = not (str_eq segment "")

abbrev pub path_fits : List Segment → List String → Bool
path_fits [] [] = true
path_fits (s ∷ path) (segment ∷ segments) =
    let rest = path_fits path segments in fits s segment && rest
path_fits _ _ = false

abbrev pub matches : Verb → List String → Route → Bool
matches verb segments r = same_verb r.verb verb && path_fits r.path segments

abbrev pub matching : Verb → List String → List Route → List Route
matching verb segments routes = keep (matches verb segments) routes

pub record Request (C : Type 0) : Type 0 where
  pub verb : Verb
  pub segments : List String
  -- the header X-Request-ID, empty if it is missing
  pub request_id : String
  pub client_ip : String
  pub context : C
  pub received : Time

pub record Answer : Type 0 where
  pub status : ℕ
  -- the header X-Request-ID
  pub request_id : String

-- the table of the rate limiter, the source of fresh ids, and what the handlers work on
pub record State (L W : Type 0) : Type 0 where
  pub limiters : Limiters L
  pub ids : ℕ
  pub world : W

module _ {C L W : Type 0} (contexts : Contexts C) (new_correlation_id : ℕ → String) (rate : Rate L)
    (handle : Endpoint → List String → C → W → ℕ × W) where
  -- RequestIDMiddleware: the id, and what is left of the source
  unfoldable pub request_id_middleware : Request C → ℕ → String × ℕ
  request_id_middleware r ids =
      if str_eq r.request_id "" then (new_correlation_id ids, suc ids) else (r.request_id, ids)

  -- a request that has a route goes through both middlewares before its handler
  unfoldable pub through_middlewares : Endpoint → Request C → State L W → Answer × State L W
  unfolding request_id_middleware
  through_middlewares endpoint r s =
      let (request_id, ids) = request_id_middleware r s.ids in
      let (allowed, limiters) = middleware rate r.client_ip r.received s.limiters in
      let (status, world) =
        handle endpoint r.segments (with_correlation_id contexts r.context request_id) s.world in
      if allowed
      then (
        record { status = status; request_id = request_id },
        record { limiters = limiters; ids = ids; world = world },
      )
      else (
        record { status = 429; request_id = request_id },
        record { limiters = limiters; ids = ids; world = s.world },
      )

  abbrev pub routed : List Route → Request C → State L W → Option Answer × State L W
  routed [] r s = (none, s)
  routed (route ∷ _) r s =
      let (answer, s') = through_middlewares route.endpoint r s in (some answer, s')

  -- none where the API has no route
  unfoldable pub serve : Request C → State L W → Option Answer × State L W
  serve r s = routed (matching r.verb r.segments setup_routes) r s
