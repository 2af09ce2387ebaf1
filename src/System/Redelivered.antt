-- ===== src/System/Redelivered.antt =====
-- A message that Kafka delivers again, from buildEventEntities of
-- internal/domain/services/event_ingestion_service.go to the tables of dual_event_writer.go.
use energy_plant_monitoring.Ingestion.Deps.{Deps}
