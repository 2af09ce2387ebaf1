-- ===== src/Ingestion.antt =====
-- internal/domain/services/event_ingestion_service.go and internal/api/intake_handler.go: from the
-- bytes of a message to the stored event. Each operation returns its result, the state of the
-- outside world, and the list of the effects that it had, in order. Log lines are not modelled; of
-- the duration metric only that it is observed.
pub mod Monad
pub mod Deps
pub mod Validate
pub mod Store
pub mod Process
