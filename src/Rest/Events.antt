-- ===== src/Rest/Events.antt =====
-- internal/infrastructure/adapters/rest/event_handlers.go: the five handlers that read events.
-- Beside the response each returns the queries that it asked of the repository.
pub mod Answers
pub mod Pages
use energy_plant_monitoring.Base.{
  ℕ, String, Bool, true, false, ◌||◌, Option, none, some, List, [], ◌∷◌, if◌then◌else◌, str_eq,
}
use energy_plant_monitoring.Errors.{Result, ok, err, Lookup}
use energy_plant_monitoring.Entities.{Uuid, Time, EventOperational, EventAnalytical}
use energy_plant_monitoring.Pagination.{Text, ℤ, PageQuery, Page, PageCursor, Codec, decode_cursor}
use energy_plant_monitoring.Repositories.Analytical.{AggregatedEvent}
use energy_plant_monitoring.Rest.Response.{Response, json, failure, listed, looked_up}

-- the calls of the two repositories, as they are answered while the request is handled
pub record Repositories : Type 0 where
  pub find_all : PageQuery → Result Page
  pub find_by_id : Uuid → Lookup EventOperational
  pub find_by_time_range : Time → Time → Result (List EventAnalytical)
  pub get_hourly_aggregation : Uuid → Time → Time → Result (List AggregatedEvent)
  pub get_daily_aggregation : Uuid → Time → Time → Result (List AggregatedEvent)

pub data Asked : Type 0 where
  asked_page : PageQuery → Asked
  asked_event : Uuid → Asked
  asked_range : Time → Time → Asked
  asked_hourly : Uuid → Time → Time → Asked
  asked_daily : Uuid → Time → Time → Asked

-- the UUID package, and `time.Parse` with time.RFC3339
pub record Parsers : Type 0 where
  pub parse_uuid : String → Option Uuid
  pub parse_time : String → Option Time

-- `strconv.Atoi` with the error dropped; `after` is the empty text where the query has none
module _ (codec : Codec) (atoi : Text → ℤ) (repos : Repositories) where
  page_answer : PageQuery → Response Page × List Asked
  page_answer q = (listed (repos.find_all q), asked_page q ∷ [])

  cursor_answer : ℤ → Option PageCursor → Response Page × List Asked
  unfolding page_answer
  cursor_answer limit none = (failure 400 "invalid cursor", [])
  cursor_answer limit (some c) = page_answer (record { limit = limit; cursor = some c })

  unfoldable pub list_operational_events : Text → Text → Response Page × List Asked
  unfolding cursor_answer
  list_operational_events limit [] = page_answer (record { limit = atoi limit; cursor = none })
  list_operational_events limit (c ∷ after) =
      cursor_answer (atoi limit) (decode_cursor codec (c ∷ after))

module _ (parsers : Parsers) (repos : Repositories) where
  open parsers use {parse_uuid, parse_time}

  unfoldable get_operational_event : String → Response EventOperational × List Asked
  get_operational_event id_str = elim (parse_uuid id_str) [
    | none ↦ (failure 400 "invalid id format", [])
    | some id ↦ (looked_up "event not found" (repos.find_by_id id), asked_event id ∷ [])
  ]

  -- the two times of a request
  between :
      {A : Type 0}
      → String
      → String
      → (Time → Time → Response A × List Asked)
      → Response A × List Asked
  between start_str end_str answer = elim (parse_time start_str) [
    | none ↦ (failure 400 "invalid start time format, use RFC3339", [])
    | some start ↦ elim (parse_time end_str) [
      | none ↦ (failure 400 "invalid end time format, use RFC3339", [])
      | some end ↦ answer start end
    ]
  ]

  unfoldable pub list_analytical_events :
      String → String → Response (List EventAnalytical) × List Asked
  unfolding between
  list_analytical_events start_str end_str =
      if str_eq start_str "" || str_eq end_str ""
      then (failure 400 "start and end query parameters are required", [])
      else between start_str end_str
          (λ start end. (listed (repos.find_by_time_range start end), asked_range start end ∷ []))

  -- the two aggregations have one text, but for the call of the repository
  aggregation :
      (Uuid → Time → Time → Result (List AggregatedEvent))
      → (Uuid → Time → Time → Asked)
      → String
      → String
      → String
      → Response (List AggregatedEvent) × List Asked
  unfolding between
  aggregation query entry plant_id_str start_str end_str =
      if str_eq plant_id_str "" || (str_eq start_str "" || str_eq end_str "")
      then (failure 400 "plant_id, start, and end query parameters are required", [])
      else elim (parse_uuid plant_id_str) [
        | none ↦ (failure 400 "invalid plant_id format", [])
        | some plant_id ↦
            between start_str end_str
              (λ start end. (listed (query plant_id start end), entry plant_id start end ∷ []))
      ]

  unfoldable pub get_hourly_aggregation :
      String → String → String → Response (List AggregatedEvent) × List Asked
  unfolding aggregation
  get_hourly_aggregation = aggregation repos.get_hourly_aggregation asked_hourly

  unfoldable pub get_daily_aggregation :
      String → String → String → Response (List AggregatedEvent) × List Asked
  unfolding aggregation
  get_daily_aggregation = aggregation repos.get_daily_aggregation asked_daily
