-- ===== src/Rest/Events/Pages.antt =====
-- ListOperationalEvents of event_handlers.go over FindAll of event_operational_repo.go, as a client
-- uses it: from page to page by the cursor that came with the last one.
use energy_plant_monitoring.Base.{
  if◌then◌else◌, ◌==◌, ℕ, zero, suc, ◌≡◌, refl, Option, none, some, List, [], ◌∷◌, ◌++◌, length,
  arith, Option-cases, inl, inr,
}
use energy_plant_monitoring.Errors.{ok, not_found}
use energy_plant_monitoring.Entities.{EventOperational}
use energy_plant_monitoring.Pagination.{
  Text, ℤ, PageCursor, PageQuery, Page, Codec, decode_cursor, find_all,
}
use energy_plant_monitoring.Pagination.Sorted.{IsSorted}
use energy_plant_monitoring.Pagination.Traverse.{walk, follow, Decodes, walk_visits_all}
use energy_plant_monitoring.Rest.Response.{Response, json, failure}
use energy_plant_monitoring.Rest.Events.{Repositories, list_operational_events}

-- the repository on a table, for a handler that asks for pages only
abbrev pages_of : Codec → List EventOperational → Repositories
pages_of codec rows = record {
  find_all = λ q. ok (find_all codec rows q);
  find_by_id = λ _. not_found;
  find_by_time_range = λ _ _. ok [];
  get_hourly_aggregation = λ _ _ _. ok [];
  get_daily_aggregation = λ _ _ _. ok [];
}

-- the next request, where the page has a cursor
abbrev next : (Text → List EventOperational) → Text → List EventOperational
next go [] = []
next go (c ∷ s) = go (c ∷ s)

-- the rows of the answers; a failure ends the walk
abbrev collect : (Text → List EventOperational) → Response Page → List EventOperational
collect go (json status p) =
    let rest = next go p.next_cursor in if status == 200 then p.items ++ rest else []
collect go (failure _ _) = []

-- a number of requests at most, with one `limit`
module _ (codec : Codec) (atoi : Text → ℤ) (rows : List EventOperational) (limit : Text) where
  unfoldable pub requests : ℕ → Text → List EventOperational
  requests zero after = []
  requests (suc n) after =
      collect (requests n) (list_operational_events codec atoi (pages_of codec rows) limit after).0

  abbrev walk_rows : ℕ → Option PageCursor → List EventOperational
  walk_rows = walk codec (find_all codec rows) (atoi limit)

  next_follows : (n : ℕ) (s : Text) → next (requests n) s ≡ follow codec (walk_rows n) s
  unfolding requests walk list_operational_events
  next_follows n [] = refl
  next_follows zero (c ∷ s) = ground arith
  next_follows (suc n) (c ∷ s) = elim (Option-cases (decode_cursor codec (c ∷ s))) [
    | inl e ↦ ground arith
    | inr (k, e) ↦
        let q : PageQuery = record { limit = atoi limit; cursor = some k } in
        ground (arith, next_follows n (find_all codec rows q).next_cursor)
  ]

  -- A client that asks for the first page and then, while an answer has a cursor, for the page after
  -- it, receives with status 200 every row exactly once, in the order of the table, whatever `limit` it
  -- sends; one request more than there are rows is always enough. The table is sorted newest first,
  -- with the ids descending among rows of one time, and the codecs can be read back.
  pub requests_visit_all : Decodes codec → IsSorted rows → requests (suc (length rows)) [] ≡ rows
  unfolding requests walk list_operational_events
  requests_visit_all laws sorted =
      let q : PageQuery = record { limit = atoi limit; cursor = none } in
      ground (
        arith,
        next_follows (length rows) (find_all codec rows q).next_cursor,
        walk_visits_all codec rows (atoi limit) laws sorted,
      )
