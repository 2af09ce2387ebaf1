-- ===== src/Rest/Response.antt =====
-- What a handler writes with `ctx.JSON`: a status and a value, or `gin.H{"error": text}`. Log lines
-- are not modelled.
use energy_plant_monitoring.Base.{ℕ, String}
use energy_plant_monitoring.Errors.{Result, ok, err, Lookup, found, not_found, failed}

pub data Response (A : Type 0) : Type 0 where
  json : ℕ → A → Response A
  failure : ℕ → String → Response A

abbrev status_of : {A : Type 0} → Response A → ℕ
status_of (json status _) = status
status_of (failure status _) = status

-- the `if err != nil` of a handler that lists
abbrev pub listed : {A : Type 0} → Result A → Response A
listed (ok value) = json 200 value
listed (err _) = failure 500 "internal server error"

-- and of one that looks for one row
abbrev pub looked_up : {A : Type 0} → String → Lookup A → Response A
looked_up missing (found value) = json 200 value
looked_up missing not_found = failure 404 missing
looked_up missing (failed _) = failure 500 "internal error"
