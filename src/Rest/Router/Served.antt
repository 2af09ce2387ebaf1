-- ===== src/Rest/Router/Served.antt =====
-- Requests to the API one after the other (router.go, middleware.go, ratelimit.go).
use energy_plant_monitoring.Base.{
  ℕ, String, Bool, true, ◌≡◌, refl, ◌∙◌, ◌⊎◌, map, not, ◌==◌, Option, none, some, List, [], ◌∷◌,
  if◌then◌else◌, str_eq, arith, Bool-cases, inl, inr,
}
use energy_plant_monitoring.Tracing.{Contexts, with_correlation_id, correlation_id_from_ctx}
use energy_plant_monitoring.Rest.RateLimit.{Rate, Event, request, middleware, answers}
use energy_plant_monitoring.Rest.RateLimit.Isolation.{of_client, answers_isolated}
use energy_plant_monitoring.Rest.Router.{
  Endpoint, Route, Request, Answer, State, setup_routes, matching, request_id_middleware,
  through_middlewares, routed, serve,
}

abbrev pub let_through : ℕ → Bool
let_through status = not (status == 429)

abbrev status_added : Bool → Option Answer → List ℕ → List ℕ
status_added mine none rest = rest
status_added mine (some a) rest = if mine then a.status ∷ rest else rest

abbrev event_added : {C : Type 0} → Request C → List Route → List Event → List Event
event_added r [] rest = rest
event_added r (_ ∷ _) rest = request r.client_ip r.received ∷ rest

-- the requests that have a route, as the rate limiter sees them
abbrev pub events_of : {C : Type 0} → List (Request C) → List Event
events_of [] = []
events_of (r ∷ requests) =
    event_added r (matching r.verb r.segments setup_routes) (events_of requests)

module _ {C L : Type 0} (contexts : Contexts C) (new_correlation_id : ℕ → String)
    (rate : Rate L) where
  -- a handler that keeps the correlation id of its context
  abbrev pub keep_id : Endpoint → List String → C → List String → ℕ × List String
  keep_id _ _ ctx seen = (200, correlation_id_from_ctx contexts ctx ∷ seen)

  -- the id that a request is to be traced by
  abbrev pub id_of : Request C → State L (List String) → String
  id_of r s = if str_eq r.request_id "" then new_correlation_id s.ids else r.request_id

  -- An answer carries the id of the request's header, or a fresh one if there is none. It is the id
  -- that the handler finds in its context if the request reaches it; if not, the answer is 429.
  pub serve_traces :
      (r : Request C) (s : State L (List String)) (a : Answer)
      → (serve contexts new_correlation_id rate keep_id r s).0 ≡ some a
      → let s' = (serve contexts new_correlation_id rate keep_id r s).1 in
        (a.request_id ≡ id_of r s)
        × (((a.status ≡ 200) × (s'.world ≡ a.request_id ∷ s.world))
            ⊎ ((a.status ≡ 429) × (s'.world ≡ s.world)))
  unfolding serve through_middlewares request_id_middleware
  serve_traces r s a e = traced (matching r.verb r.segments setup_routes) e
    where
      traced :
          (routes : List Route)
          → (routed contexts new_correlation_id rate keep_id routes r s).0 ≡ some a
          → let s' = (routed contexts new_correlation_id rate keep_id routes r s).1 in
            (a.request_id ≡ id_of r s)
            × (((a.status ≡ 200) × (s'.world ≡ a.request_id ∷ s.world))
                ⊎ ((a.status ≡ 429) × (s'.world ≡ s.world)))
      traced [] e = absurd (ground arith)
      traced (route ∷ _) e =
          elim (Bool-cases (middleware rate r.client_ip r.received s.limiters).0) [
            | inl allowed ↦ (
              ground arith,
              inl (ground arith, ground (arith, contexts.value-with_value (id_of r s) r.context)),
            )
            | inr refused ↦ (ground arith, inr (ground arith, ground arith))
          ]

module _ {C L W : Type 0} (contexts : Contexts C) (new_correlation_id : ℕ → String) (rate : Rate L)
    (handle : Endpoint → List String → C → W → ℕ × W) where
  -- the statuses that a client gets for its requests that have a route, in order
  abbrev pub statuses : String → List (Request C) → State L W → List ℕ
  statuses ip [] s = []
  statuses ip (r ∷ requests) s =
      let (answer, s') = serve contexts new_correlation_id rate handle r s in
      let rest = statuses ip requests s' in status_added (str_eq r.client_ip ip) answer rest

  statuses-answers :
      (ip : String) (requests : List (Request C)) (s : State L W)
      → ((endpoint : Endpoint) (path : List String) (ctx : C) (w : W)
          → let_through (handle endpoint path ctx w).0 ≡ true)
      → map let_through (statuses ip requests s) ≡ answers rate ip s.limiters (events_of requests)
  unfolding answers serve through_middlewares
  statuses-answers ip [] s fine = refl
  statuses-answers ip (r ∷ requests) s fine =
      step (matching r.verb r.segments setup_routes) refl
        (λ s'. statuses-answers ip requests s' fine)
    where
      step :
          (routes : List Route)
          → matching r.verb r.segments setup_routes ≡ routes
          → ((s' : State L W)
              → map let_through (statuses ip requests s')
                ≡ answers rate ip s'.limiters (events_of requests))
          → map let_through (statuses ip (r ∷ requests) s)
            ≡ answers rate ip s.limiters (events_of (r ∷ requests))
      step [] e later = ground (arith, later s)
      step (route ∷ rest) e later =
          let ctx =
            with_correlation_id contexts r.context
              (request_id_middleware contexts new_correlation_id rate handle r s.ids).0 in
          ground (
            arith,
            fine route.endpoint r.segments ctx s.world,
            later (serve contexts new_correlation_id rate handle r s).1,
          )

  -- If no handler answers 429 itself, then which of a client's requests with a route reach their
  -- handlers, and which are answered 429, depends on the times of that client's requests alone.
  pub statuses_isolated :
      (ip : String) (requests : List (Request C)) (s : State L W)
      → ((endpoint : Endpoint) (path : List String) (ctx : C) (w : W)
          → let_through (handle endpoint path ctx w).0 ≡ true)
      → map let_through (statuses ip requests s)
        ≡ answers rate ip s.limiters (of_client ip (events_of requests))
  statuses_isolated ip requests s fine =
      statuses-answers ip requests s fine ∙ answers_isolated rate ip s.limiters (events_of requests)
