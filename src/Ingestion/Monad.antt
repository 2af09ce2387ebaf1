-- ===== src/Ingestion/Monad.antt =====
-- The effects of the ingestion service, and computations that have them and may fail.
use energy_plant_monitoring.Base.{String, List, [], ◌∷◌, ◌++◌}
use energy_plant_monitoring.Errors.{Error, Result, ok, err}
use energy_plant_monitoring.Json.{Fields}
use energy_plant_monitoring.Entities.{EventOperational, EventAnalytical, PlantCurrentStatus, Uuid}

pub data Effect : Type 0 where
  validation_errors_inc : String → Effect
  events_ingested_inc : String → String → String → Effect
  processing_duration_observed : String → Effect
  status_updates_inc : String → String → Effect
  uuid_error_sent : String → String → String → Effect
  validation_error_sent : String → String → String → Effect
  exists_queried : Uuid → Effect
  saved : EventOperational → EventAnalytical → Error → Effect
  saved_async : EventOperational → EventAnalytical → Error → Effect
  upserted : PlantCurrentStatus → Error → Effect
  event_evaluated : String → String → String → String → Fields → Effect

pub record Run (W A : Type 0) : Type 0 where
  pub result : Result A
  pub world : W
  pub effects : List Effect

abbrev pub M : Type 0 → Type 0 → Type 0
M W A = W → Run W A

module _ {W A B : Type 0} where
  abbrev pub continue : Run W A → (A → M W B) → Run W B
  continue r f = elim r.result [
    | ok a ↦
        let s = f a r.world in
        record { result = s.result; world = s.world; effects = r.effects ++ s.effects }
    | err e ↦ record { result = err e; world = r.world; effects = r.effects }
  ]

  infixl 5 ◌>>=◌ ◌>>◌
  abbrev pub ◌>>=◌ : M W A → (A → M W B) → M W B
  ◌>>=◌ m f w = continue (m w) f

  abbrev pub ◌>>◌ : M W A → M W B → M W B
  m >> k = m >>= λ _. k

module _ {W A : Type 0} where
  abbrev pub pure : A → M W A
  pure a w = record { result = ok a; world = w; effects = [] }

  abbrev pub fail : Error → M W A
  fail e w = record { result = err e; world = w; effects = [] }

  -- a call of the outside world, and its entry in the list
  abbrev pub call : (W → A × W) → (A → Effect) → M W A
  call f entry w = let (a, w') = f w in record { result = ok a; world = w'; effects = entry a ∷ [] }

  -- one that leaves no entry
  abbrev pub ask : (W → A × W) → M W A
  ask f w = let (a, w') = f w in record { result = ok a; world = w'; effects = [] }

module _ {W : Type 0} where
  abbrev pub perform : (W → W) → Effect → M W (Unit {0})
  perform f entry w = record { result = ok tt; world = f w; effects = entry ∷ [] }

  abbrev pub count : Effect → M W (Unit {0})
  count entry w = record { result = ok tt; world = w; effects = entry ∷ [] }
