-- ===== src/Repositories/Analytical/Groups.antt =====
-- The groups of an aggregation of event_analytical_repo.go: their order, and that each is alone.
use energy_plant_monitoring.Base.{
  ℕ, ◌≤◌, String, Bool, true, false, ◌&&◌, ◌≡◌, refl, List, [], ◌∷◌, arith, ◌==◌, ltb, leb, keep,
  tally, str_eq, eq_iff, Bool-cases, inl, inr,
}
use energy_plant_monitoring.Entities.{Uuid, Time}
use energy_plant_monitoring.Repositories.Models.{EventAnalyticalModel}
use energy_plant_monitoring.Repositories.Analytical.{
  AggregatedEvent, count_row, time_bucket, grouped, selected,
}

-- a test on the key of a group
abbrev pub Key : Type 0
Key = Time → Uuid → String → Bool

-- how many groups there are whose key passes
abbrev pub groups_where : Key → List AggregatedEvent → ℕ
groups_where p groups = tally (λ g. p g.bucket g.plant_source_id g.event_type) groups

-- each bucket is no later than the one before, and all are at most `bound`
abbrev pub is_latest_first : Time → List AggregatedEvent → Bool
is_latest_first bound [] = true
is_latest_first bound (g ∷ groups) =
    let rest = is_latest_first g.bucket groups in leb g.bucket bound && rest

abbrev pub same_key : Time → Uuid → String → Key
same_key bucket plant event_type b p t = b == bucket && (p == plant && str_eq t event_type)

descending-count_row :
    (bound bucket : Time) (plant : Uuid) (event_type : String) (groups : List AggregatedEvent)
    → is_latest_first bound groups ≡ true
    → leb bucket bound ≡ true
    → is_latest_first bound (count_row bucket plant event_type groups) ≡ true
descending-count_row bound bucket plant event_type [] h below = ground arith
descending-count_row bound bucket plant event_type (g ∷ groups) h below =
    ground (arith, descending-count_row g.bucket bucket plant event_type groups)

absent_below :
    (bound bucket : Time) (plant : Uuid) (event_type : String) (groups : List AggregatedEvent)
    → is_latest_first bound groups ≡ true
    → ltb bound bucket ≡ true
    → groups_where (same_key bucket plant event_type) groups ≡ 0
absent_below bound bucket plant event_type [] h above = refl
absent_below bound bucket plant event_type (g ∷ groups) h above =
    ground (arith, absent_below g.bucket bucket plant event_type groups)

-- a row of another group adds none to those that pass
groups-count_row :
    (k : Key) (bucket : Time) (plant : Uuid) (event_type : String) (groups : List AggregatedEvent)
    → k bucket plant event_type ≡ false
    → groups_where k (count_row bucket plant event_type groups) ≡ groups_where k groups
groups-count_row k bucket plant event_type [] other = ground arith
groups-count_row k bucket plant event_type (g ∷ groups) other =
    ground
      (arith, eq_iff g.event_type event_type, groups-count_row k bucket plant event_type groups)

-- and of this one at most the first
own_group :
    (bound bucket : Time) (plant : Uuid) (event_type : String) (groups : List AggregatedEvent)
    → is_latest_first bound groups ≡ true
    → groups_where (same_key bucket plant event_type) groups ≤ 1
    → groups_where (same_key bucket plant event_type) (count_row bucket plant event_type groups) ≤ 1
own_group bound bucket plant event_type [] h alone = ground arith
own_group bound bucket plant event_type (g ∷ groups) h alone = ground (
  arith,
  own_group g.bucket bucket plant event_type groups,
  absent_below g.bucket bucket plant event_type groups,
)

-- rows that are no later than `bound`
abbrev no_later : Time → List EventAnalyticalModel → Bool
no_later bound [] = true
no_later bound (r ∷ rows) = let rest = no_later bound rows in leb r.created_at bound && rest

pub no_later-selected :
    (plant_id : Uuid) (start end : Time) (rows : List EventAnalyticalModel)
    → no_later end (keep (selected plant_id start end) rows) ≡ true
no_later-selected plant_id start end [] = refl
no_later-selected plant_id start end (r ∷ rows) =
    ground (arith, no_later-selected plant_id start end rows)

module _ (width : ℕ) (below : (at : Time) → time_bucket width at ≤ at) where
  pub descending-grouped :
      (bound : Time) (rows : List EventAnalyticalModel)
      → no_later bound rows ≡ true
      → is_latest_first bound (grouped width rows) ≡ true
  unfolding grouped
  descending-grouped bound [] h = refl
  descending-grouped bound (r ∷ rows) h =
      descending-count_row bound (time_bucket width r.created_at) r.plant_source_id r.event_type
        (grouped width rows) (descending-grouped bound rows (ground arith))
        (ground (arith, below r.created_at))

  pub one_group :
      (bucket : Time) (plant : Uuid) (event_type : String) (bound : Time)
      (rows : List EventAnalyticalModel)
      → no_later bound rows ≡ true
      → groups_where (same_key bucket plant event_type) (grouped width rows) ≤ 1
  unfolding grouped
  one_group bucket plant event_type bound [] h = ground arith
  one_group bucket plant event_type bound (r ∷ rows) h =
      let rest = one_group bucket plant event_type bound rows (ground arith) in
      let b = time_bucket width r.created_at in
      elim (Bool-cases (same_key bucket plant event_type b r.plant_source_id r.event_type)) [
        | inr other ↦ ground (
          arith,
          groups-count_row (same_key bucket plant event_type) b r.plant_source_id r.event_type
              (grouped width rows) other,
        )
        | inl same ↦ ground (
          arith,
          eq_iff r.event_type event_type,
          own_group bound bucket plant event_type (grouped width rows)
              (descending-grouped bound rows (ground arith)) rest,
        )
      ]
