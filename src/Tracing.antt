-- ===== src/Tracing.antt =====
-- internal/infrastructure/tracing/tracing.go: the correlation id in a context. The context package
-- and the UUID generator are parameters.
use energy_plant_monitoring.Base.{String, ◌≡◌, Option, none, some}

-- `context.WithValue` and `Value` under the key of tracing.go
pub record Contexts (C : Type 0) : Type 0 where
  pub with_value : String → C → C
  pub value : C → Option String
  pub value-with_value : (id : String) (ctx : C) → value (with_value id ctx) ≡ some id

abbrev or_empty : Option String → String
or_empty none = ""
or_empty (some id) = id

module _ {C : Type 0} (contexts : Contexts C) where
  abbrev pub with_correlation_id : C → String → C
  with_correlation_id ctx id = contexts.with_value id ctx

  abbrev pub correlation_id_from_ctx : C → String
  correlation_id_from_ctx ctx = or_empty (contexts.value ctx)
